-- ===== src/Lib.antt =====
-- Jetedge-Agent: a video analytics server. GStreamer sources feed an inference pipeline; tracked
-- objects go through an event rule engine; some events are sent to a language model; a scheduler
-- throttles low-priority streams under load; a control server changes parameters at run time.
--
-- How the parts interact. `Pipeline` holds a `ReconnectPolicy` for each source, and asks it after each
-- failure for the next state and the wait. A timer gives `SchedulerPolicy::update` the temperature and
-- CPU load, and applies the intervals of its table to the sources. The event probe hands the objects
-- of each frame to `EventEngine::process_frame`, and the events go to the writers and to the
-- `LlmRouter`, which puts them in a `BoundedPriorityQueue`; a worker takes them out and asks a
-- `CircuitBreaker` before each call of the model's service. The `MetricsRegistry` pairs
-- the frames that enter inference with those that leave it. The HTTP server reads a request from each
-- connection and calls the control server's handler. The control server changes parameters of the
-- pipeline at run time through a `ControlBackend`, writes a snapshot before each change and an audit
-- record after it, and keeps recent errors in an `ErrorStore`. The configuration loader makes the
-- configurations of all parts from a YAML file.
--
-- Files.
--   Prelude and its children: library names passed on, Boolean tests, lists over the native numbers,
--     integers, words of 64 bits, and the record `Doubles` that stands for the floats.
--   Scheduler/Policy.antt: include/jetedge/scheduler/scheduler_policy.h and
--     src/scheduler/scheduler_policy.cpp. `signals` is the head of `SchedulerPolicy::update`,
--     `transition` its `switch`, `advance` and `update` the whole.
--   Llm/Breaker.antt: include/jetedge/llm/circuit_breaker.h and src/llm/circuit_breaker.cpp.
--   Llm/Queue.antt: include/jetedge/llm/request_queue.h.
--   Llm/Router/Types.antt, State.antt, Submit.antt, Process.antt:
--     include/jetedge/llm/llm_types.h and llm_router.h, src/llm/llm_router.cpp. `process_request`
--     is `send` up to the HTTP call, then `settle` (the breaker), `count_one` (the counters) and
--     `write_one` (the file), one step for each lock; the response of each call is an input, and so are the
--     prompts (`Services`) and whether the file takes a line.
--   Llm/Prompts.antt: base64, `trim` and `strip_markdown_fence` of src/llm/prompt_manager.cpp;
--     Llm/Prompts/Bodies.antt its prompts and request bodies, Llm/Prompts/Replies.antt its checks of a
--     reply. JsonCpp, the reading of files and `snprintf` are parameters.
--   Metrics/Pending.antt: the frames in flight of include/jetedge/metrics/metrics_registry.h and
--     src/metrics/metrics_registry.cpp, with `Window` as the list view of the ring.
--   Metrics/Frames.antt: the frame counters of the same class.
--   Control/Errors.antt: include/jetedge/control/error_store.h and src/control/error_store.cpp.
--   Control/Requests.antt: src/control/param_validation.cpp, and `parse_limit` and
--     `valid_keyframe_name` of src/control/control_server.cpp; Control/Routes.antt: its `route`, from the
--     parts of the path on, and `serve_keyframe`.
--   Control/Feeds.antt: `tail_lines` of src/control/control_server.cpp, from the bytes of the file.
--   Control/Http.antt: the parsers of src/control/http_server.cpp; Control/Http/Connection.antt:
--     `handle_connection`, over the list of chunks that `recv` returns, with the bytes of each reply.
--   Control/Writes.antt: include/jetedge/control/control_backend.h, the throttles, checks and write
--     operations of src/control/control_server.cpp, and `priority_ranks_up`; Control/Writes/Flow.antt:
--     the sequence that every write goes through (snapshot, call, read back, rollback, audit). The
--     backend and the snapshot store are the records `ControlBackend` and `SnapshotStore`. The accessors of the
--     backend are `const`: they leave its state as it is. Whether the audit log takes a record is a
--     function of the world. Control/Writes/Shown.antt says what a status shows.
--   Config.antt and Config/Types.antt, Fields.antt, Sections.antt, Rules.antt, Load.antt:
--     include/jetedge/common/config_loader.h and src/common/config_loader.cpp with the structs it fills.
--     A row of `Fields` is one field of the file; `Sections` has a list of rows for each section, `Rules`
--     the tests after the reading. The functions of yaml-cpp are a parameter.
--   Secrets.antt: src/common/secrets.cpp, with the environment as an association list.
--   Pipeline/Reconnect.antt: include/jetedge/pipeline/reconnect_policy.h and
--     src/pipeline/reconnect_policy.cpp.
--   Events/Types.antt, State.antt, Passes.antt, Engine.antt, Streams.antt:
--     include/jetedge/events/event_types.h and event_engine.h, src/events/event_engine.cpp. `disappear`,
--     `observe` and `transits` are the three passes of `process_frame`, `Streams` the vectors over all
--     streams.
--   The other files prove, and each has its examples in a file Examples.antt.
--
-- Conventions. A class is a record of its members, a method a function from the record to the record and
-- the result, the clock an argument. A mutex makes each method atomic, so a history of concurrent calls
-- is a list of calls (the types `Call`), and a property of `run` holds for every interleaving. Times that
-- the code adds and subtracts as uint64_t wrap at 2^64 (`add64`, `sub64`); a theorem that needs that they
-- do not wrap says so. Counters that go up by one are natural numbers: they would wrap after 2^31 or 2^64
-- increments. An `int` that the code keeps at 0 or more is a natural number; class ids, which may be
-- negative, are integers. Floats are an arbitrary type with comparisons and operations (`Doubles`), and no
-- theorem assumes a law of them. An `unordered_map` is an association list, and its order stands for the
-- iteration order, about which nothing is assumed.
-- Text is a list of byte codes where the code looks into it. All recursion is structural, but for two
-- functions on fuel: the loop over the header lines in Control/Http.antt has the length of the block as
-- fuel, and each turn removes at least one byte; `to_string` in Control/Http/Connection.antt prints at
-- most 20 digits, which is enough below 2^64. The product and the sum that `parse_content_length` computes
-- in int64_t wrap.
--
-- Not modelled: input and output (sockets, files, libcurl, GStreamer, the reading of /proc and /sys), the
-- YAML and JSON libraries, logging, and the waiting of threads. Of the program's own logic: `start`,
-- `stop` and the accept loop of the HTTP server; the handlers of the control server that print JSON, its
-- benchmark window and the splitting of a path; the samples, percentiles and snapshot of the metrics
-- registry; the snapshot store, the source manager, the pipeline's timers and the YOLO output parser.
pub mod Prelude
pub mod Config
pub mod Control
pub mod Events
pub mod Llm
pub mod Metrics
pub mod Pipeline
pub mod Scheduler
pub mod Secrets
