-- ===== src/Retry/Whole.antt =====
-- retry/executor.go, `doValueFast` with its resolutions, and `doValueInternal` over it.
use rego.Common.{◌≡◌, Bool, true, false, ◌||◌, Option, none, some, FloatOps, if◌then◌else◌, arith}
use rego.Errors.{Error, sentinel, hedging_requires_timeline}
use rego.Policy.Key.{PolicyKey}
use rego.Policy.Schema.{EffectivePolicy}
use rego.Classify.{Classifier, Exit, returned, panicked}
use rego.Classify.Registry.{Registry}
use rego.Observe.Capture.{Context, Captures, timeline_capture_from_context}
use rego.Retry.Modes.{FailureMode}
use rego.Retry.Outcomes.{ClassifierMeta}
use rego.Retry.Resolve.{Provider, resolve_policy_fast, resolve_classifier}
use rego.Retry.Fast.{Env, FastCall, do_value_fast}
use rego.Retry.Values.{Op, Timed, Paths, safe_op, choose, after_fast, do_timed, do_value_internal}

-- What an executor holds for the fast path. The surroundings of a call depend on its operation, and,
-- by the budget, on its policy.
pub record FastExecutor (W T F : Type 0) : Type 0 where
  pub env : Op W T → EffectivePolicy F → Env W Context T F
  pub provider : Provider W F
  pub policy_mode : FailureMode
  pub classifier_mode : FailureMode
  pub recover_panics : Bool
  pub classifiers : Option (Registry T)
  pub default_classifier : Classifier T
  pub zero_value : T

module _ {W T F : Type 0} ⦃f : FloatOps F⦄ (exec : FastExecutor W T F) (key : PolicyKey) where
  unfoldable pub needs_timeline : EffectivePolicy F → Bool
  needs_timeline pol = pol.hedge.enabled || pol.circuit.enabled

  abbrev fast_call : Op W T → EffectivePolicy F → Classifier T → FastCall W Context T F
  fast_call op pol c = record {
    env = exec.env op pol;
    key = key;
    pol = pol;
    classifier = c;
    recover_panics = exec.recover_panics;
  }

  -- With what `resolveClassifier` found.
  unfoldable pub run_classified :
      Op W T → EffectivePolicy F → Option (Classifier T) × ClassifierMeta × Option Error → Op W T
  run_classified op pol (found, meta, some e) ctx w = (returned (exec.zero_value, some e), w)
  run_classified op pol (none, meta, none) ctx w =
      do_value_fast (fast_call op pol exec.default_classifier) exec.zero_value ctx w
  run_classified op pol (some c, meta, none) ctx w =
      do_value_fast (fast_call op pol c) exec.zero_value ctx w

  -- With what `resolvePolicyFast` returned.
  unfoldable pub run_resolved : Op W T → Exit (EffectivePolicy F × Option Error) → Op W T
  run_resolved op (panicked v) ctx w = (panicked v, w)
  run_resolved op (returned (pol, some e)) ctx w = (returned (exec.zero_value, some e), w)
  run_resolved op (returned (pol, none)) ctx w =
      if needs_timeline pol
      then (returned (exec.zero_value, some (sentinel hedging_requires_timeline)), w)
      else run_classified op pol
          (resolve_classifier exec.classifier_mode exec.classifiers exec.default_classifier pol) ctx
          w

  -- `doValueFast`
  unfoldable pub resolve_and_run : Op W T → Op W T
  resolve_and_run op ctx w =
      let (exit, w') =
        resolve_policy_fast exec.policy_mode exec.recover_panics exec.provider key w in
      run_resolved op exit ctx w'

  -- The paths of an executor without an observer.
  abbrev pub quiet_paths :
      (Op W T → Context → W → Timed W T F) → (W → Captures) → (Captures → W → W) → Paths W T F
  quiet_paths timed captures set_captures = record {
    fast = resolve_and_run;
    timed = timed;
    noop_observer = true;
    captures = captures;
    set_captures = set_captures;
  }

  -- Without an observer and without a capture, a call whose policy has hedging or a circuit is
  -- carried out by the path with a timeline, behind the fast path's request to the provider.
  timeline_required :
      (timed : Op W T → Context → W → Timed W T F) (captures : W → Captures)
      (set_captures : Captures → W → W) (op : Op W T) (ctx : Context) (w w' : W)
      (pol : EffectivePolicy F)
      → resolve_policy_fast exec.policy_mode exec.recover_panics exec.provider key w
        ≡ (returned (pol, none), w')
      → (pol.hedge.enabled || pol.circuit.enabled) ≡ true
      → timeline_capture_from_context ctx ≡ none
      → do_value_internal (quiet_paths timed captures set_captures) false op ctx w
        ≡ do_timed
            (quiet_paths timed captures set_captures)
            (safe_op (quiet_paths timed captures set_captures) op)
            ctx
            w'
  unfolding do_value_internal choose resolve_and_run run_resolved needs_timeline after_fast
  timeline_required timed captures set_captures op ctx w w' pol h n c = ground (arith, h, n, c)
