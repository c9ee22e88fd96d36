-- ===== src/Retry/Group.antt =====
-- retry/group.go, `doRetryGroup`: one primary attempt and its hedges. The goroutines, the buffered
-- channel, the two atomic counters and the waiting caller are a state, and what each of them may do
-- next is a step; every interleaving is a sequence of steps.
--
-- An attempt's goroutine sends its result, and only then do its deferred calls run, the last of which
-- counts `activeAttempts` down: these are two steps, `finish` and `retire`. The caller receives a
-- result and afterwards loads the counter: `receive` and `decide`.
pub mod Invariant
pub mod Races
pub mod Results
pub mod Termination
pub mod Attempt
pub mod Spawner
use rego.Common.{
  ℕ, zero, suc, ◌+◌, ◌-◌, ◌<◌, ◌≤◌, ◌==◌, ◌≡◌, Bool, true, false, ◌&&◌, String, List, [], ◌∷◌, ◌++◌,
  Option, none, some, get_elem?, set, if◌then◌else◌,
}
use rego.Errors.{Error, message}
use rego.Policy.Key.{PolicyKey}
use rego.Classify.{
  Outcome, OutcomeKind, outcome_success, outcome_non_retryable, outcome_abort, plain, Exit,
  returned, panicked, Classifier,
}
use rego.Retry.Outcomes.{ClassifierMeta, classify_with_recovery, annotate_classifier_fallback}

-- `groupResult`, less the times, which the caller does not read. `val` is `none` where the code
-- leaves a nil value.
pub record GroupResult (T : Type 0) : Type 0 where
  pub val : Option T
  pub err : Option Error
  pub outcome : Outcome
  pub is_hedge : Bool
  pub idx : ℕ
  pub panic_err : Option Error

-- The parts of the hedge policy that the group reads.
pub record GroupConfig : Type 0 where
  pub enabled : Bool
  pub max_hedges : ℕ
  pub cancel_on_first_terminal : Bool

-- `maxHedges`
abbrev pub hedge_limit : GroupConfig → ℕ
hedge_limit c = if c.enabled then c.max_hedges else 0

-- Where an attempt's goroutine stands.
pub data Phase : Type 0 where
  working sent retired : Phase

-- Where the caller stands: waiting in its `select`, behind a receive with the result in hand, or
-- returned with the value, the error, the outcome and whether it is a success.
pub data Caller (T : Type 0) : Type 0 where
  waiting : Caller T
  deciding : GroupResult T → Caller T
  finished : Option T → Option Error → Outcome → Bool → Caller T

pub record Group (T : Type 0) : Type 0 where
  pub phases : List Phase  -- by attempt index: 0 is the primary
  pub active : ℕ  -- activeAttempts
  pub results : List (GroupResult T)  -- the channel, oldest first
  pub hedges_launched : ℕ
  pub spawner_runs : Bool
  pub ctx_err : Option Error  -- of the caller's context
  pub caller : Caller T

-- Which results the attempt of an index can send.
abbrev pub Source : Type 0 → Type 1
Source T = ℕ → GroupResult T → Type 0

-- After the launch of the primary and of the hedge loop, which ends at once if hedging is off.
unfoldable pub start : {T : Type 0} → GroupConfig → Group T
start c = record {
  phases = working ∷ [];
  active = 1;
  results = [];
  hedges_launched = 0;
  spawner_runs = c.enabled;
  ctx_err = none;
  caller = waiting;
}

abbrev pub canceled_outcome : Outcome
canceled_outcome = plain outcome_abort "context_canceled"

abbrev pub is_success : OutcomeKind → Bool
is_success outcome_success = true
is_success _ = false

abbrev pub is_terminal : OutcomeKind → Bool
is_terminal outcome_non_retryable = true
is_terminal outcome_abort = true
is_terminal _ = false

module _ {T : Type 0} where
  -- What the caller does with a result that it has received, up to the load of the counter.
  unfoldable pub receive : GroupConfig → GroupResult T → Caller T
  receive c r =
      if is_success r.outcome.kind
      then finished r.val none r.outcome true
      else if c.cancel_on_first_terminal && is_terminal r.outcome.kind
      then finished r.val r.err r.outcome false
      else deciding r

  -- What it does with the counter's value.
  unfoldable pub decide : ℕ → GroupResult T → Caller T
  decide active r = if active == 0 then finished r.val r.err r.outcome false else waiting

  -- One step of the group. `classified` says of a result that it is one that an attempt can send.
  pub data Step (c : GroupConfig) (classified : Source T) (s : Group T) : Group T → Type 0 where
    finish :
        (i : ℕ) (r : GroupResult T)
        → get_elem? s.phases i ≡ some working
        → classified i r
        → Step c classified s
            (record s { phases = set s.phases i sent; results = s.results ++ r ∷ [] })
    retire :
        (i : ℕ)
        → get_elem? s.phases i ≡ some sent
        → Step c classified s (record s { phases = set s.phases i retired; active = s.active - 1 })
    spawn :
        s.spawner_runs ≡ true
        → s.hedges_launched < hedge_limit c
        → Step c classified s (record s {
          phases = s.phases ++ working ∷ [];
          active = s.active + 1;
          hedges_launched = s.hedges_launched + 1;
        })
    -- The hedge loop's timer fires, and the loop launches nothing and sets the timer again.
    poll : s.spawner_runs ≡ true → Step c classified s s
    stop_spawner : s.spawner_runs ≡ true → Step c classified s (record s { spawner_runs = false })
    take_result :
        (r : GroupResult T) (rest : List (GroupResult T))
        → s.caller ≡ waiting
        → s.results ≡ r ∷ rest
        → Step c classified s (record s { results = rest; caller = receive c r })
    load_active :
        (r : GroupResult T)
        → s.caller ≡ deciding r
        → Step c classified s (record s { caller = decide s.active r })
    cancel : (e : Error) → s.ctx_err ≡ none → Step c classified s (record s { ctx_err = some e })
    give_up :
        (e : Error)
        → s.caller ≡ waiting
        → s.ctx_err ≡ some e
        → Step c classified s (record s { caller = finished none (some e) canceled_outcome false })

  pub data Reach (c : GroupConfig) (classified : Source T) (s : Group T) : Group T → Type 0 where
    here : Reach c classified s s
    next : {t u : Group T} → Reach c classified s t → Step c classified t u → Reach c classified s u
