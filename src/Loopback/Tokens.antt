-- ===== src/Loopback/Tokens.antt =====
-- The tokens of a loopback are distinct, as long as the counter does not wrap.
use evsieve.Base.{◌≢◌, ◌+◌, ◌^◌, ◌≤◌, ◌<◌, List, [], ◌∷◌, ◌++◌, All, All-append, All-map, arith}
use evsieve.Time.{Instant}
use evsieve.Loopback.{Loopback, Entry, schedule_wakeup_at}

-- Every scheduled token was handed out, and none twice.
abbrev pub IsDistinct : List Entry → Type 0
IsDistinct [] = Unit
IsDistinct (e ∷ rest) = All (λ f. e.1 ≢ f.1) rest × IsDistinct rest

pub record IsValid (l : Loopback) : Type 0 where
  pub handed_out : All (λ e. e.1 ≤ l.token_index) l.schedule
  pub distinct : IsDistinct l.schedule

IsDistinct-append :
    (xs : List Entry) (e : Entry)
    → IsDistinct xs
    → All (λ f. f.1 ≢ e.1) xs
    → IsDistinct (xs ++ e ∷ [])
IsDistinct-append [] e h k = (tt, tt)
IsDistinct-append (x ∷ xs) e h k =
    (All-append (λ f. x.1 ≢ f.1) xs (e ∷ []) (h.0) (k.0, tt), IsDistinct-append xs e (h.1) (k.1))

-- Where the counter does not wrap and the schedule is valid (every token was handed out, none
-- twice): a wakeup gets a token that no scheduled wakeup has, and the schedule stays valid.
pub schedule_wakeup_at-IsValid :
    (l : Loopback) (time : Instant)
    → l.token_index + 1 < 2 ^ 64
    → IsValid l
    → All (λ e. e.1 ≢ (schedule_wakeup_at l time).0) l.schedule
      × IsValid (schedule_wakeup_at l time).1
unfolding schedule_wakeup_at
schedule_wakeup_at-IsValid l time h v = (
  All-map l.schedule (λ e le. omega arith) v.handed_out,
  record {
    handed_out =
        All-append _ l.schedule _ (All-map l.schedule (λ e le. omega arith) v.handed_out)
          (omega arith);
    distinct =
        IsDistinct-append l.schedule _ v.distinct
          (All-map l.schedule (λ e le. omega arith) v.handed_out);
  },
)
