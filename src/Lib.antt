-- ===== src/Lib.antt =====
-- The core of Quent: the schema of a model and its constraints (crates/schema, crates/constraints,
-- crates/fsm), the times of crates/time, the event envelope of crates/events, the binned timelines of
-- crates/analyzer, and the NVTX analyzer of integrations/nvtx that reconstructs a model from a captured
-- stream of events, with the requests of its user interface.
--
-- How the parts interact. A capture is a list of `Event NvtxEvent` (Events, Nvtx/Event). The builder of
-- the model (Nvtx/Model, `build`) puts it in the order of its timestamps with the collector of
-- crates/time (Time/Collector), reads it once for all the names (Nvtx/Tables), and reads it again event
-- by event (Nvtx/Replay): ranges by id and pushed ranges by thread and domain (Nvtx/Ranges), resource
-- lifespans by handle (Nvtx/Resource), counters of what does not pair up (Nvtx/Anomalies). What is
-- still open at the end is drained; the slots of the spans are flattened into the model, over which the
-- statistics (Nvtx/Stats) are taken. The timelines (Analyzer/Timeline, Analyzer/Utilization) weigh values
-- by the overlaps that the binned spans of crates/time (Time/Bin) compute. The user interface makes a
-- catalog of a model (Nvtx/Ui/Catalog) and validates requests against it (Nvtx/Ui/Request).
--
-- A schema is put together by builders (Schema/Builder) from identifiers and paths that are parsed
-- (Schema/Identifier, Schema/TypePath). A visitor walks through its elements (Schema/Visitor); the
-- constraints are visitors, which the validation (Constraints/Validate) runs together in one walk. The
-- constraint of a finite state machine (Fsm/Constraint) is one of them; the builder of an entity from
-- states (Fsm/Builder) runs the same check.
--
-- Files and code:
--   Time/Result, Time/Clock, Time/Collector: crates/time/src/lib.rs (`TimeError`, `timestamp`,
--     `TimeOrderedCollector`). The clocks are what a call reads from them; the static cell of the epoch
--     is passed along as a state.
--   Time/Span: crates/time/src/span.rs (`SpanNanoSec`); Time/Bin: crates/time/src/bin.rs
--     (`BinnedSpan`).
--   Events: crates/events/src/lib.rs (`Event`; its field `data` is `payload` here).
--   Nvtx/Event: integrations/nvtx/events/src (`NvtxEvent`, `NvtxEventAttributes`, `NvtxPayload`).
--   Nvtx/Span, Anomalies, Ranges, Resource, Tables, Stats: the files of these names (lower case) in
--     integrations/nvtx/analyzer/src.
--   Nvtx/Replay and Nvtx/Model: integrations/nvtx/analyzer/src/model.rs; `dispatch` is the match of the
--     loop in `NvtxModelBuilder::build`, with one function for each arm, `drain` and `flatten` what
--     follows the loop.
--   Analyzer/Timeline: crates/analyzer/src/timeline/binned/mod.rs and categorical.rs (`UnitAggregator`,
--     `KeyedAggregator`, `CategoricalTimelineBuilder`); Analyzer/Utilization: resource.rs beside them,
--     both builders as one over the key; Analyzer/Resource: crates/analyzer/src/resource/mod.rs.
--   Analyzer/Float: `f64` as an interface, with the one law that the assertions rely on.
--   Nvtx/Ui: integrations/nvtx/ui/src/lib.rs (`NvtxCatalog`, the types of requests, `span_depths_for`).
--   Schema/Identifier, TypePath, Elements: crates/schema/src/schema (`Path` is `TypePath` here, a field
--     `data` is `payload`); Schema/Builder: crates/schema/src/builder, a file for each of its files;
--     Schema/Visitor: crates/schema/src/visitor.rs, where a cursor and the visitor's state are passed
--     along, and a tuple of visitors is nested pairs; Schema/Keys: the derived equality of keys.
--   Constraints: crates/constraints/src, a file for each of its files, Validate for lib.rs.
--   Fsm, Fsm/Constraint: crates/fsm/src/lib.rs; Fsm/Builder: crates/fsm/src/builder.rs.
--   Base/Text: strings as lists of code points, with the formats of numbers and their order; Base/Result:
--     `Result` with `?`; Base/Graph: reachability, and what petgraph documents of its traversals and of
--     strongly connected components, which are parameters; Base/Graph/Ranked serves the examples.
--   Base: the shared helpers: lists under native indices, machine words, association lists for hash
--     maps, ordered lists for ordered sets, a stable insertion sort for the sorts of the library.
-- The proofs stand in the folder of the part they are about, the examples in Time/Tests, Nvtx/Tests,
-- Nvtx/Ui/Tests, Analyzer/Tests, Schema/Tests, Constraints/Tests and Fsm/Tests.
--
-- Numbers. Timestamps, handles and durations are natural numbers; where the source adds or multiplies
-- with saturation or a check, so do the definitions, at 2 ^ 64 - 1. Where it uses plain operators or
-- asserts, an overflow or a failed assertion is the value `panics`, as under overflow checks. The
-- counters of anomalies count events of a stream in memory and are not bounded. All loops are
-- structural recursion over lists or over a count of steps, but for the chains of `span_depths_for`
-- (Nvtx/Ui/Depths), which run on fuel: a chain visits no span twice, and two steps more than there
-- are spans are given.
--
-- Hash maps are association lists with one entry to a key. Where the source iterates over one, it sorts
-- what it gets or puts it in another map; so do the definitions. Where the order of a hashed set shows in
-- a list of errors, the list of the set stands for it. A map that keeps the order of insertion is the list of
-- its entries.
--
-- Not modelled: floating numbers are a parameter, and so are the traversals of graphs of petgraph and the
-- encoding of serde_json; the interpretation of payload bits; the lanes and statistics of a viewport; the
-- constraints on resources and references, the analyzer's FSMs and resource tree and the query engine,
-- which are planned; the front ends, code generation, exporters and servers, which are input and output
-- or text for other compilers.
mod Base
pub mod Time
pub mod Events
pub mod Nvtx
pub mod Analyzer
pub mod Schema
pub mod Constraints
pub mod Fsm
