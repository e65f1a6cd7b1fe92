-- ===== src/Lib.antt =====
-- LoadBear watches a machine and says whether it is at ease, what is wrong where it is not, and what is
-- responsible. A backend makes a `Reading`; `evaluate` judges it against the published figures of the
-- processor that `resolve` finds; `classify` takes the worst of those verdicts and of the stall signal;
-- `TierTracker::observe` decides what is shown; `diagnose` puts each verdict down to a process, a
-- container, a system service or the power supply. The paths below are under crates/.
--
--   Core/Types: loadbear-core/src/types.rs, the reading and `StallSignal::worst`.
--   Core/Spec: loadbear-core/src/spec.rs. `resolve` is split at its early return into `candidates` and
--   `match_of`; `conservative` takes the first candidate and the others. Merge and Resolve are its laws.
--   Core/Verdict: loadbear-core/src/verdict.rs. `evaluate` is one function for each of its blocks,
--   appended in the order in which it pushes. Fires says when each kind is given, Band compares the
--   temperature band, Conservative compares the merged figures with those of each candidate.
--   Core/Tier: loadbear-core/src/tier.rs. The tracker is a record that `observe` maps to the next one
--   and to the assessment it returns; `observe_all` is a run of calls. Window is `supported_by_all`,
--   Moves one call, Log and Sustained a run, Shown what is shown, Gap a run with a pause.
--   Core/Contract: loadbear-core/src/contract.rs.
--   Core/Attribution: loadbear-core/src/attribution.rs. Groups is `group_by_name`, Leaders the three
--   leaders, Causes the rest up to `diagnose`.
--   Sensors/Counters: loadbear-sensors-windows/src/counters.rs. Query is `open` and `sample` over what
--   the system answers, Window and Middle are `SampleWindow`, Stall is `to_stall`.
--   Sensors/Baseline: loadbear-sensors-windows/src/baseline.rs.
--   Sensors/Power: loadbear-sensors-windows/src/power.rs. `read` takes what the driver answers.
--   Sensors/Processes: loadbear-sensors-windows/src/processes.rs. Shares is the difference of two
--   samples, Names the cache of names, Description the name out of a version resource, with Tidy and
--   Runs for its texts.
--   Sensors/Docker: loadbear-sensors-windows/src/docker.rs. Http is the response with its chunks, Json
--   the module `json`, Percent the figures of a container.
--   Sensors/Temperature: Registers is what a driver answers; Amd, Intel, PmTable and Source are amd.rs,
--   intel.rs (with `on_processor` of topology.rs), pm_table.rs and temperature.rs of
--   loadbear-sensors-windows/src; Credible is the test for a plausible temperature.
--   Sensors/Topology: loadbear-sensors-windows/src/topology.rs. `walk` is the loop over the records,
--   `counted` the end of `detect`; Walk compares it with the records that lie in the buffer.
--   Sensors/Cpuid, Sensors/Presentation: cpuid.rs and presentation.rs of loadbear-sensors-windows/src.
--   Sensors/Installer: loadbear-sensors-windows/src/installer.rs. `install` is `stage`,
--   `verify_signature`, `run_elevated` and the removal of the file, in that order. Handles follows the
--   handles of the network through the calls of `fetch`, Download says what a download gives and Fetch
--   what is fetched, Trust follows what is known of the file that is run.
--   Sensors/ServiceControl: loadbear-sensors-windows/src/service_control.rs. Removal follows the
--   steps of `stop_and_deregister`, with Stopping for how long they take, and Stages those of
--   `install_and_start`, with Order for their order.
--   Sensors/Pawnio: loadbear-sensors-windows/src/pawnio.rs. Library says when the driver opens and
--   executes.
--   Sensors/Shared: loadbear-sensors-windows/src/shared.rs, the record in shared memory.
--   Sensors/Mapping: loadbear-sensors-windows/src/mapping.rs, `publish` and `read` as a relation of
--   single steps on shared words, and the loop of `read`; Lifetime is creating, opening and dropping the
--   mapping.
--   App: loadbear-app/src/main.rs. Startup is what is found out before the loop, with Candidates for
--   whom the processor is held against. State has the variables of the loop; Tick is a round of it:
--   `advance` gives the variables of the loop after it and `view` the part of `Status` that is computed
--   in it, both from the same `reading_of` and `judged`. Rounds is a run of rounds, Stale a round
--   without a fresh record. Running is the list of what is running, Words the sentences. Modes is
--   `set_mode`, `reclaim_the_top`, the icons and the temperature notice, with Shape for the modes and
--   Paint for the icons; Setup is `enable_temperature`.
--   Service: loadbear-service/src/main.rs. `sample_loop` gives the records that the helper publishes;
--   Shown is what the interface reads from them. Setup is `setup` and `teardown`; Run is the modes of
--   `main`, `run` with its handler, and `probe_power`, and Stops says what is published until a stop.
--   Service/PmTable: loadbear-service/src/pmtable.rs.
--   Prelude and Float: lists, tests, texts, a stable sort; floating point numbers. Prelude/Calls is how
--   installer.rs, service_control.rs and `setup` are written: a function gives the calls of the system
--   that it makes, in order, and its result; what the system answers is an argument. Core/Spec/Base is
--   the base clock that the processor reports or that its brand string names.
--
-- Floating point is a parameter: the record `Float` has the operations, and `IsOrdered`, `IsTotal`,
-- `IsWithin` and `IsCast` the facts that a theorem relies on, of IEEE comparisons, of `total_cmp`, of
-- `clamp` and of the cast from f64 to f32. Float/Fixed is an instance that meets them, in which the
-- examples run. Unsigned integers are natural numbers; where the program saturates (times, memory of a
-- group), masks (the energy counter, fields of registers), wraps (the count of rounds) or sums in 64
-- bits, this is written out. Counts of processes, of verdicts and of samples are not bounded. Texts that
-- are taken apart are lists of code points (Prelude/Chars), with the length in bytes of UTF-8 where the
-- program takes it. Parameters are: lower case, the decoding of UTF-8, the bits of a float, the rounding
-- to u32, the file of the disk baseline and its format, what the performance counters, the driver, the
-- affinity calls, the pipe of the engine, the network, the service manager, the shell and the system answer.
-- The reads of a download are a list; one that fails or gives no bytes is the last of it.
--
-- Loops are structural but for five. The attempts of `read` in Sensors/Mapping are eight, as in the
-- source; the digits of a number are printed with fuel of one more than the number; the loop over chunks
-- has fuel of the length of the text, and each chunk takes at least one character of it. The
-- walk over the topology records has fuel of one more than the bytes, and each record that does not end it
-- has at least one byte; the wait for a service to stop has twenty rounds, as in the source. In
-- Sensors/Mapping the fences are taken at their word: the copies of a write stand between its two
-- changes of the sequence, and those of a read between its two looks at it. The sequence has 32 bits,
-- and a read is assumed to outlast fewer than 2^32 changes of it. The word of the record that holds the
-- sequence itself is written with the value that it has, and is not among the copied words.
--
-- A run of the helper is followed over the passes that it is given: where no stop comes in them it is still
-- going on. The dump of the power table takes ten snapshots, as in the source.
--
-- Not modelled: the embedded database and its JSON; the calls of the system themselves; the handles of single
-- processes; what the probe and the dump print; of loadbear-app the window itself, the tray, the threads with
-- their locks and the remaining commands; and the command line tools of loadbear-sensors-windows.
pub mod Prelude
pub mod Float
pub mod Core
pub mod Sensors
pub mod App
pub mod Service
