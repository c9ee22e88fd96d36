-- ===== src/Lib.antt =====
-- Verification of recourse, a library of retries for Go: policies say how often, how fast and under
-- which budget an operation is tried again, and an executor carries them out.
--
-- An executor resolves the policy of a key (controlplane, policy), asks a budget before each
-- attempt (budget, retry/budget.go), runs the operation, lets a classifier judge the result
-- (classify), sleeps between attempts (retry/executor.go), and may race several attempts in a group
-- (retry/group.go). A circuit breaker per key (circuit) stands in front.
--
-- Files:
--
--   Common and its children: Boolean tests, lists, integers over the native numbers, text,
--     dictionaries, and the operations and laws of float64. Everything else uses Common.
--   Policy: Key is policy/key.go; Schema is policy/schema.go with `DefaultPolicyFor`; Normalize is
--     its `Normalize`, one function per field; Options is policy/options.go.
--   Hedge: Tracker is hedge/tracker.go; Triggers is hedge/fixed_delay.go and hedge/triggers.go;
--     Registry is hedge/registry.go.
--   Errors: the error values of the packages with `errors.Is` and the assertion to HTTPError;
--     Errors/Texts is what their methods `Error` say.
--   Circuit: Breaker is circuit/breaker.go, a record and one function per method; Breaker/Spec is
--     an automaton with no counters that the form of its state does not need; Registry is
--     circuit/registry.go.
--   Budget: Types, Bucket and Registry are budget/types.go, budget/builtins.go and
--     budget/registry.go.
--   Controlplane: Cache, Static and Remote are controlplane/cache.go, controlplane/provider.go and
--     controlplane/remote.go.
--   Classify: Types, Builtins and Registry are classify/outcome.go, the built-in classifiers, and
--     classify/registry.go.
--   Retry: Backoff, Modes, Outcomes, Resolve and Fast are parts of retry/executor.go; Gate is
--     retry/budget.go; Group is retry/group.go as a step relation, Group/Attempt the goroutine of
--     one attempt, Group/Spawner the loop that launches hedges. Fast is `doValueFast` behind the
--     resolutions.
--   Retry/Timeline is `doValueWithTimeline`, with its returns in Timeline/Endings; Retry/Values is
--     `doValueInternal` and `DoValue` over the two paths; Retry/Whole is `doValueFast` with its
--     resolutions; Retry/Executor is the construction of executors in retry/executor.go and
--     retry/defaults.go; Retry/Global is retry/global.go.
--   Observe: Types, Capture and Observers are observe/types.go, observe/timeline_capture.go with
--     observe/attempt_info.go, and observe/observers.go.
--   Scripts/ClaimsCheck is scripts/claims_check/main.go: Rows splits lines and rows, Ledger is
--     `parseLedger`, and the module itself the scan and `main`. Scripts/GenReference is the
--     documents of scripts/gen_reference.go: Tables has its helpers, Documents and Safety the three
--     documents.
--   Examples: Prometheus and Otel are the observers of examples/prometheus and examples/otel.
--   Integrations: Http and Grpc are integrations/http/http.go and integrations/grpc/grpc.go.
--     Recourse is recourse/recourse.go.
--   Tests: each theorem at a concrete input.
--
-- Correspondence. A method is a function that takes and returns the state of its receiver. A mutex
-- makes a method one step. Times and durations are nanoseconds, as integers; `time.Time.Sub` stops
-- at the ends of int64. A clock's reading is an argument. A call that may panic ends in `Exit`.
-- Interfaces (providers, budgets, classifiers, operations) are functions over an abstract state.
--
-- A map is an association list, and what goes through one in the source in any order goes through
-- it in the order of the list; texts are lists of code points. float64 is a parameter, `FloatOps`,
-- and what a theorem needs of IEEE 754 is a hypothesis, `FloatLaws`, `RatioLaws` and `OrderLaws`;
-- the examples instantiate it with integers and a NaN.
--
-- Bounds. Go's int and time.Duration are unbounded integers here. The counters of the modelled code
-- stay near their configured limits, and a sum or product of durations leaves int64 only for delays
-- of many years; the Retry-After of integrations/http keeps its wrap-around; products of a backoff
-- and a multiplier go through float64 and a conversion whose result out of range is left open. The
-- retry loop recurses on the attempts left, and so needs no fuel. A draw of the jitter is made
-- before each sleep, also where the code makes none; its result is then not used.
--
-- The timeline loop takes a retry group as a function of the state, so that a statement about the
-- loop holds for every result that a group can have; Retry/Group says which those are. It recurses
-- on the attempts left, too. Its calls of the observer are a list of events, those that the
-- goroutines of its groups make among them; it ends with the end of the call, and what a goroutine
-- that outlives it still tells the observer is not in it. In a group, a firing of the hedge loop's
-- timer that launches nothing is a step that changes nothing. A crash of the program, which a panic
-- in the goroutine of an attempt is, has no counterpart.
--
-- Not modelled: a nil context, the main programs of the examples, and of scripts/gen_reference.go
-- the collection from syntax trees of go/ast, the flags and the files.
pub mod Common
pub mod Policy
pub mod Errors
pub mod Circuit
pub mod Budget
pub mod Classify
pub mod Retry
pub mod Controlplane
pub mod Hedge
pub mod Observe
pub mod Integrations
pub mod Recourse
pub mod Scripts
pub mod Examples
mod Tests
