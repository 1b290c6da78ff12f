-- ===== src/Lib.antt =====
-- # EMM-GO-Script: the distributed PAM load test
--
-- The repository holds stand-alone test scripts and one larger program, `pam-loadtest`, which opens many SSH, RDP, VNC,
-- web and MySQL sessions through a PAM gateway. A scenario file is loaded and expanded into jobs; a controller divides
-- the jobs among agents; each agent validates the request, runs it, and answers status and cancel calls.
-- Beside it, `arms-load-generator` sends the frames of simulated transactions. This library models the core of both, from the
-- files of `pam-loadtest/internal` and of `arms-load-generator`; the two share no code.
--
-- Files:
-- - Config: config/config.go. `load` is `Load` behind the YAML decoder, `expand` is `Expand`, `activity_interval`,
--   `credentials` and `asset` are the methods of those names. Config/Load holds the checks, Config/Expand the expansion.
-- - Distributed/Partition: distributed/partition.go. `partition` is `Partition`; its two placement loops are `assign`,
--   the search over the agents' circle is `find_slot`.
-- - Distributed/Request: `validateRunRequest` of distributed/registry.go and the messages of distributed/service.go.
-- - Distributed/Registry: the other parts of distributed/registry.go. The state `Registry` is what the mutex guards.
--   `start`, `status_of` and `cancel` are the methods, each one step, and `finish` is the end of the goroutine that
--   `Start` launches. `executing` lists the goroutines that have not ended yet.
-- - Inventory: inventory/manifest.go. `validate_manifest` is `ValidateManifest`, `build_manifest_for_markers` is
--   `BuildManifestForMarkers`.
-- - Inventory/Apply: inventory/apply.go. `apply` is `Apply`, with the calls of `InventoryAPI` as functions on a world;
--   the loop over the batches has the number of the missing assets as fuel: a batch takes one at least.
-- - Inventory/Plan: inventory/plan.go and inventory/model.go. `plan` is `Plan`; an address is a number until its text is made.
-- - Allocation: allocation/allocation.go. `bind` is `Bind`; the map of pools is the function `shuffled_pool`, the maps of
--   counters are association lists whose first entry of a key counts.
-- - Browser/Pool: browser/pool.go. The channel of slots is a queue, and a call of `Pool.Run` is the steps `check_run`,
--   `receive`, `restart` and `release`; `close` is `Pool.Close`.
-- - Scheduler/Launch: scheduler/scheduler.go, with the observation of session/session.go. `launch` is the goroutine that
--   `RunWithRetries` starts for a job, as the list of its events, by recursion on the retries left.
-- - Protocol/Guacamole: protocol/guacamole.go. Texts are lists of bytes. `parse_instructions` is `ParseInstructions`, with the
--   bytes of the input as the fuel of its two loops, each round of which takes a byte at least; Runes has the characters of
--   package utf8. `on_message` in Reader is a round of the goroutine that `RunGuacamole` starts.
-- - Reports: runreport/report.go. Counts has the counts and Evidence the measurements; `Tracker` is the tracker, whose calls are
--   steps under its mutex; Validation is `validateReportDimensions` with `validateEvidence`, and Aggregate the merge of the
--   agents' reports. `Measurements` is over a type of floating-point numbers with the operations that the code applies to them.
-- - Arms: arms-load-generator/protocol.go, with the configuration of config.go. Texts and frames are lists of bytes.
--   `encode_frame`, `encode_response_frames` and `build_transaction` are the functions of those names, and Frames has the reader
--   of frames of protocol_test.go. The fuel of a response's frames is its bytes, that of its content the configured size, and
--   that of the reader the count of frames: each round takes a byte at least, or a frame.
--   Arms/Settings is config.go, and Arms/Stats the counts of stats.go with the functions of generator.go that add to them: each
--   gives the list of its atomic additions. The fuel of a write is the bytes that it has left. `make` panics for a negative size
--   or capacity; the memory that it asks for otherwise is taken to be there.
--   Inventory/Plan/Combined has `CombinedPlan` and `CapacityPlan`, of the three specifications of model.go.
-- - App: app/runtime.go. `validate_browser_capacity` and `build_bound_targets` are the functions of those names; a target has the
--   fields that are set there.
-- - Common: tests, lists, results, keys, 64-bit words and the stable sort that the files above share.
--
-- Go's `int` and `time.Duration` are 64-bit: `Int64` is the bit pattern below 2^64, with `add_int`, `sub_int` and
-- `lt_int` for the wrapping sum, difference and the signed order. A counter that starts at 0 and grows by one for each
-- element of a list in memory is a plain number. A Go map is an association list, and where the source ranges over a map in
-- random order nothing stated depends on that order. Error values are the constructors of a type for each function;
-- the texts of the messages are left out, but for the data in them.
-- Loops are structural recursion but for the batches of `Apply`, the parser of Protocol/Guacamole and the loops of Arms, whose fuel is
-- named with them; the search of `find_slot` counts down the rounds that the loop bound
-- of the source gives, so that it needs no other fuel.
--
-- Not modelled: the YAML, URI and duration parsers, the environment, and the executor that a run calls are
-- arguments. Clocks, gRPC, HTTP, WebSocket and child processes are I/O and left out, as are the metrics and
-- the stand-alone scripts beside `pam-loadtest`, but for `arms-load-generator`. Floating point is an argument of the reports, and
-- what else computes with it is left out: the plan of the scheduler, the permits of `arms-load-generator` and the scaling of a scenario.
pub mod Common
pub mod Config
pub mod Inventory
pub mod Distributed
pub mod Allocation
pub mod Browser
pub mod Scheduler
pub mod Protocol
pub mod Reports
pub mod Arms
pub mod App
