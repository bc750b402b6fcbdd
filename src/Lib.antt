-- ===== src/Lib.antt =====
-- Evsieve reads events of input devices, passes them through a stream of entries that the command
-- line lists, and writes what comes out to virtual devices. This library models the core of the
-- program, from the values of events to the stream, and proves what its parts promise.
--
-- The parts, with their files here and in the repository:
-- - Range/Interval, Range/Sets: `Interval` and `Set` of src/range.rs. Children have their laws.
-- - Event: src/event.rs, with `is_button_code` of src/ecodes.rs; Event/ChannelMap: the hash maps that
--   the stream entries keep for channels.
-- - Ecodes: the lookup of types and codes by name in src/ecodes.rs. Key/Parser: `KeyParser` of src/key.rs;
--   Affine/Parser: `parse_affine_factor` of src/affine.rs.
-- - Capability: `Capability` of src/capability.rs, with Capability/Device for `Capabilities` of a device,
--   Capability/Codes for its hash maps, and Capability/Aggregate for `aggregate_capabilities`. Affine:
--   `AffineFactor` of src/affine.rs.
-- - Key: `Key` and `KeyProperty` of src/key.rs. State: src/state.rs. Time: src/time.rs.
-- - Loopback: src/loopback.rs, the schedule of wakeups that entries of the stream ask for.
-- - Stream/Map, Stream/Toggle: src/stream/map.rs. Stream/Merge: src/stream/merge.rs. Stream/Delay:
--   src/stream/delay.rs. Stream/Trigger, Stream/Hook: src/stream/hook.rs. Stream/Withhold:
--   src/stream/withhold.rs. Stream/Scale: src/stream/scale.rs and src/stream/absrel.rs.
--   Stream/CapabilityOverride: src/stream/capability_override.rs.
-- - Stream/Run: src/stream.rs. `run` passes an event through the entries (`run_events`) and stages
--   what comes out; `wakeup_until` polls the loopback and hands each due token to the entries
--   (`run_wakeup`); events that an entry then releases go through the entries after it.
-- - Stream/Caps: src/stream.rs. `run_caps` passes capabilities through the same entries, and
--   `update_caps` hands what comes out to the output devices when a device has changed.
-- - Persist: src/persist/format.rs, the files in which the capabilities of devices are cached. Bytes has
--   the numbers, Encode and Decode the two halves.
-- - Shelllex: src/utils/shelllex.rs, the splitting of a line into tokens. Domain: src/domain.rs, the
--   tracker of names.
-- - Base: shared names and lemmas. Platform: what comes from outside the sources. Examples: concrete
--   runs of the theorems.
--
-- How the code is read. A method that changes its object returns the new object; the output vector
-- is a list that is returned. A panic is `none`. A loopback handle is the loopback with the virtual
-- present. An effect of a hook is a function on the state; a process that an effect starts is not
-- seen. `f64` and the codes of buttons are parameters (Platform). Integers of the machine keep their
-- ranges: an `i32` is an integer with `IsI32` where it matters, `i64` and the token counter wrap, as in
-- a release build, in which debug assertions are not checked. A counter of type `usize` in Merge and
-- the indices of hooks are unbounded. Unstable sorting is modelled by one of its results; the laws of
-- sets hold for the values, and `from_unordered_intervals_ext` shows that the order has no effect.
--
-- Bounds. `intersect_loop` has as fuel the number of intervals of both sets: each call of `next`
-- drops one. `wake_loop` has the length of the stream, as the source loops over the indices.
-- `wakeup_until` has fuel and a result of its own for its end, since an entry may schedule again.
--
-- A hash map or set is a list; its order, which is not fixed, is one of those possible. In Persist an
-- `InternalError` is a value for its message, and the largest code of each event type, which libevdev
-- knows, is a parameter; so are, of the parsers, the tables of names and `parse::<f64>`.
--
-- Not modelled: the command line (src/arguments), devices and pipes
-- (src/io), the rest of src/persist, which reads and writes files and watches devices, processes, signals
-- and printing.
pub mod Base
pub mod Platform
pub mod Range
pub mod Event
pub mod Capability
pub mod Affine
pub mod Key
pub mod State
pub mod Time
pub mod Loopback
pub mod Stream
pub mod Shelllex
pub mod Domain
pub mod Ecodes
pub mod Persist
pub mod Examples
