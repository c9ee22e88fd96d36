-- ===== src/Retry/Executor/Laws.antt =====
-- retry/executor.go: what the constructors give.
use rego.Common.{
  ◌≡◌, refl, sym, ap, ◌∙◌, subst, inl, inr, ℤ, pos, ◌≤ℤ◌, Bool, true, false, not, ◌||◌, is_some,
  is_empty, str_eq, List, [], ◌∷◌, Option, none, some, Bool-cases, Option-cases, String, trim_space,
  insert, lookup, lookup-insert, lookup-insert_self, FloatOps, FloatLaws, arith,
}
use rego.Policy.Key.{PolicyKey, Key-eq, key_eq}
use rego.Policy.Schema.{
  EffectivePolicy, zero_policy, is_zero_effective_policy, policy_source_unknown,
}
use rego.Policy.Normalize.{normalize, max_backoff_ceiling}
use rego.Policy.Normalize.Idempotent.{fixed}
use rego.Policy.Options.{PolicyOption, new_from_key}
use rego.Policy.Options.Laws.{options_are_safe}
use rego.Errors.{Error}
use rego.Retry.Resolve.Laws.{settle_accepted}
use rego.Classify.{Classifier, returned}
use rego.Classify.Registry.{Registry, register}
use rego.Classify.Builtins.{Labels}
use rego.Controlplane.Static.{StaticProvider, get_effective_policy, marked_static, selected}
use rego.Hedge.Tracker.{new_tracker, observe}
use rego.Retry.Modes.{FailureMode}
use rego.Retry.Resolve.{Provider, keyed, resolve_policy_fast, settle_fast, fetch, after_error}
use rego.Retry.Executor.{
  Kinds, Clock, Executor, ExecutorOptions, complete_executor, new_executor_from_options,
  new_executor, no_options, register_builtins, with_policy_key, static_provider, get_tracker,
  feed_tracker,
}

-- What is observed for a key is in the tracker that the next call for it gets; other keys keep theirs.
pub tracker_fed :
    {k : Kinds} (key other : PolicyKey) (d : ℤ) (e : Executor k)
    → key_eq key other ≡ false
    → ((get_tracker key (feed_tracker key d e)).1 ≡ observe d (get_tracker key e).1)
      × (lookup other (feed_tracker key d e).trackers ≡ lookup other e.trackers)
unfolding get_tracker feed_tracker
tracker_fed key other d e ne =
    let fresh = new_tracker (pos 256) in
    let made = insert key fresh e.trackers in
    elim (Option-cases (lookup key e.trackers)) [
      | inl n ↦ ground (
        arith,
        n,
        ne,
        lookup-insert_self key (observe d fresh) made,
        lookup-insert key other (observe d fresh) made,
        lookup-insert key other fresh e.trackers,
      )
      | inr (t, n) ↦ ground (
        arith,
        n,
        ne,
        lookup-insert_self key (observe d t) e.trackers,
        lookup-insert key other (observe d t) e.trackers,
      )
    ]

register-IsSome :
    {T : Type 0} (name : String) (c : Classifier T) (r : Option (Registry T))
    → is_some r ≡ true
    → is_some (register name (some c) r) ≡ true
unfolding register
register-IsSome name c none h = cc h
register-IsSome name c (some m) h = elim (Bool-cases (is_empty (trim_space name))) [
  | inl e ↦ rw e refl
  | inr e ↦ rw e refl
]

builtins_some :
    (T : Type 0) (labels : Labels) → is_some (register_builtins {T = T} labels (some [])) ≡ true
unfolding register_builtins
builtins_some T labels =
    register-IsSome "auto" _ _
      (register-IsSome "http" _ _ (register-IsSome "always" _ (some []) refl))

module _ (k : Kinds) ⦃f : FloatOps k.F⦄ (labels : Labels) (time_now : Clock k.W) where
  built_complete :
      (opts : ExecutorOptions k)
      → complete_executor k labels time_now
          (some (new_executor_from_options k labels time_now opts))
        ≡ new_executor_from_options k labels time_now opts
  unfolding complete_executor new_executor_from_options
  built_complete opts = elim (Option-cases opts.classifiers) [
    | inl n ↦ rw (n, builtins_some k.T labels) refl
    | inr (r, n) ↦ rw n refl
  ]

  is_partial : Executor k → Bool
  is_partial e =
      not (is_some e.provider)
      || not (is_some e.clock)
      || not (is_some e.observer)
      || not (is_some e.classifiers)
      || not (is_some e.default_classifier)

  -- Completing an executor that is complete changes nothing.
  pub complete_once :
      (e : Option (Executor k))
      → complete_executor k labels time_now (some (complete_executor k labels time_now e))
        ≡ complete_executor k labels time_now e
  unfolding complete_executor is_partial
  complete_once none = built_complete no_options
  complete_once (some e) = elim (Bool-cases (is_partial e)) [
    | inl p ↦ rw p (built_complete _)
    | inr p ↦ rw (p, p) refl
  ]

  -- A policy that is resolved as it stands.
  abbrev IsSettled : PolicyKey → EffectivePolicy k.F → Type 0
  IsSettled key p =
      (p.key ≡ key)
      × (is_empty p.meta.source ≡ false)
      × (str_eq p.meta.source policy_source_unknown ≡ false)
      × (normalize p ≡ (p, none))
      × (is_zero_effective_policy p ≡ false)

  marked_same :
      (key : PolicyKey) (p : EffectivePolicy k.F) → IsSettled key p → marked_static key p ≡ p
  unfolding marked_static
  marked_same key p (same, source, known, n, z) =
      rw (source, known) (ap (λ (j : PolicyKey). record p { key = j }) (sym same))

  held : EffectivePolicy k.F → StaticProvider k.F
  held p = record { policies = (p.key, p) ∷ []; default = zero_policy }

  selected_single :
      (key : PolicyKey) (p : EffectivePolicy k.F)
      → IsSettled key p
      → selected (some (held p)) key ≡ marked_static key p
  unfolding selected held insert
  selected_single key p h =
      let found : lookup key ((p.key, p) ∷ []) ≡ some p =
        subst (λ (j : PolicyKey). lookup key ((j, p) ∷ []) ≡ some p) (sym h.0)
          (lookup-insert_self key p []) in
      ground (arith, found)

  single :
      (key : PolicyKey) (p : EffectivePolicy k.F)
      → IsSettled key p
      → get_effective_policy (some (held p)) key ≡ (p, none)
  unfolding get_effective_policy
  single key p h = ap normalize (selected_single key p h ∙ marked_same key p h) ∙ h.3

  keyed_same : (key : PolicyKey) (p : EffectivePolicy k.F) → IsSettled key p → keyed key p ≡ p
  keyed_same key p (same, source, known, n, z) =
      rw z (ap (λ (j : PolicyKey). record p { key = j }) (sym same))

  settled :
      (mode : FailureMode) (key : PolicyKey) (p : EffectivePolicy k.F)
      → IsSettled key p
      → settle_fast mode key p none ≡ (p, none)
  unfolding after_error
  settled mode key p h =
      let n : normalize (keyed key p) ≡ (p, none) = ap normalize (keyed_same key p h) ∙ h.3 in
      settle_accepted mode key p p none refl (ap (λ (r : _ × Option Error). r.1) n)
      ∙ ap (λ (r : EffectivePolicy k.F × Option Error). (r.0, none)) n

  -- An executor that is built with one static policy resolves exactly that policy for its key, in
  -- every failure mode, with recovery or without, and without an effect. The options leave the key
  -- and the source of the policy as they are, and its maximal backoff is at most the ceiling.
  pub static_policy_resolved :
      (laws : FloatLaws f) (key : PolicyKey) (opts : List (PolicyOption k.F))
      → (new_from_key key opts).key ≡ key
      → is_empty (new_from_key key opts).meta.source ≡ false
      → str_eq (new_from_key key opts).meta.source policy_source_unknown ≡ false
      → (new_from_key key opts).retry.max_backoff ≤ℤ max_backoff_ceiling
      → (p : Provider k.W k.F) × ((new_executor k labels time_now
            (with_policy_key k labels time_now key opts ∷ [])).provider
          ≡ some p)
        × ((mode : FailureMode) (recover : Bool) (w : k.W)
            → resolve_policy_fast mode recover p key w
              ≡ (returned (new_from_key key opts, none), w))
  unfolding new_executor with_policy_key static_provider new_executor_from_options insert held
      resolve_policy_fast fetch
  static_policy_resolved laws key opts same source known ceiling =
      let safe = options_are_safe laws key opts in
      let h : IsSettled key (new_from_key key opts) =
        (same, source, known, fixed (new_from_key key opts) safe.0 ceiling, safe.1) in
      (
        _,
        refl,
        λ mode recover w.
            rw (single key (new_from_key key opts) h, settled mode key (new_from_key key opts) h)
              refl,
      )
