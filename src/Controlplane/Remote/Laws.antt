-- ===== src/Controlplane/Remote/Laws.antt =====
-- controlplane/remote.go: the policies that a remote provider gives.
use rego.Common.{
  ℤ, ◌≡◌, refl, ap, sym, subst, ◌∙◌, ◌⊎◌, inl, inr, true, false, List, [], ◌∷◌, Option, none, some,
  FloatOps, FloatLaws, All, lookup, insert, Bool-cases, Option-cases, arith,
}
use rego.Errors.{Error, policy_not_found, errors_is}
use rego.Policy.Key.{PolicyKey, Key-eq, key_eq, key_eq_iff}
use rego.Policy.Schema.{EffectivePolicy}
use rego.Policy.Normalize.{normalize}
use rego.Policy.Normalize.Bounds.{IsNormalized}
use rego.Classify.{returned, Exit-cases}
use rego.Retry.Resolve.Laws.{IsReady, accepted-IsReady}
use rego.Controlplane.Cache.{Entry, PolicyCache, get, read, store, set_missing}
use rego.Controlplane.Remote.{
  Source, RemoteProvider, RemoteProviderOption, new_remote_provider, marked_remote, settle,
  get_effective_policy, FetchCall, run, apply, apply_all,
}

module _ {V : Type 0} (P : PolicyKey × V → Type 0) where
  All-insert :
      (k : PolicyKey) (v : V) (m : List (PolicyKey × V)) → All P m → P (k, v) → All P (insert k v m)
  unfolding insert
  All-insert k v [] h p = (p, tt)
  All-insert k v ((j, w) ∷ m) h p = elim (Bool-cases (key_eq j k)) [
    | inl e ↦ rw e (p, h.1)
    | inr e ↦ rw e (h.0, All-insert k v m h.1 p)
  ]

  All-lookup :
      (k : PolicyKey) (v : V) (m : List (PolicyKey × V)) → All P m → lookup k m ≡ some v → P (k, v)
  unfolding lookup
  All-lookup k v [] h l = absurd (cc l)
  All-lookup k v ((j, w) ∷ m) h l = elim (Bool-cases (key_eq j k)) [
    | inl e ↦
        let same_key : j ≡ k = (key_eq_iff j k).0 e in
        let same : w ≡ v = ground (arith, e, l) in
        let both : ◌≡◌ {A = PolicyKey × V} (j, w) (k, v) = cc (same_key, same) in subst P both h.0
    | inr e ↦ All-lookup k v m h.1 (ground (arith, e, l))
  ]

module _ {F : Type 0} ⦃f : FloatOps F⦄ where
  -- An entry is negative, or holds a policy that is normalised and is for its key.
  abbrev IsSoundEntry : PolicyKey × Entry F → Type 0
  IsSoundEntry (key, e) = (e.found ≡ false) ⊎ IsReady key e.policy

  abbrev IsSound : RemoteProvider F → Type 0
  IsSound p = All IsSoundEntry p.cache

  marked_key : (key : PolicyKey) (pol : EffectivePolicy F) → (marked_remote key pol).key ≡ key
  unfolding marked_remote
  marked_key key pol = ground arith

  settle-IsSound :
      (laws : FloatLaws f) (later : ℤ) (key : PolicyKey) (pol : EffectivePolicy F)
      (err : Option Error) (p : RemoteProvider F)
      → IsSound p
      → IsSound (settle later key pol err p).1
  unfolding settle set_missing store
  settle-IsSound laws later key pol (some e) p v =
      elim (Bool-cases (errors_is e policy_not_found)) [
        | inl n ↦ rw n (All-insert IsSoundEntry key _ p.cache v (inl refl))
        | inr n ↦ rw n v
      ]
  settle-IsSound laws later key pol none p v =
      elim (Option-cases (normalize (marked_remote key pol)).1) [
        | inl ok ↦
            let stored : PolicyCache F =
              store later key (normalize (marked_remote key pol)).0 p.cache_ttl p.cache in
            let e : (settle later key pol none p).1 ≡ record p { cache = stored } =
              ground (arith, ok) in
            subst IsSound (sym e) (
              All-insert IsSoundEntry key _ p.cache v
                (inr (accepted-IsReady laws key (marked_remote key pol) (marked_key key pol) ok)))
        | inr (why, bad) ↦
            let e : (settle later key pol none p).1 ≡ p = ground (arith, bad) in
            subst IsSound (sym e) v
      ]

  settle-IsReady :
      (laws : FloatLaws f) (later : ℤ) (key : PolicyKey) (pol q : EffectivePolicy F)
      (err : Option Error) (p : RemoteProvider F)
      → (settle later key pol err p).0 ≡ returned (q, none)
      → IsReady key q
  unfolding settle
  settle-IsReady laws later key pol q (some e) p h = absurd (ground (arith, h))
  settle-IsReady laws later key pol q none p h =
      elim (Option-cases (normalize (marked_remote key pol)).1) [
        | inl ok ↦
            subst (IsReady key) (ground (arith, h, ok))
              (accepted-IsReady laws key (marked_remote key pol) (marked_key key pol) ok)
        | inr (why, bad) ↦ absurd (ground (arith, h, bad))
      ]

  get-IsReady :
      (now : ℤ) (key : PolicyKey) (c : PolicyCache F)
      → All IsSoundEntry c
      → (get now key c).1 ≡ true
      → (get now key c).2 ≡ false
      → IsReady key (get now key c).0
  unfolding get read
  get-IsReady now key c v h n = elim (Option-cases (lookup key c)) [
    | inl l ↦ absurd (ground (arith, h, l))
    | inr (e, l) ↦ elim (All-lookup IsSoundEntry key e c v l) [
      | inl absent ↦ absurd (ground (arith, h, n, l, absent))
      | inr ready ↦ subst (IsReady key) (ground (arith, h, l)) ready
    ]
  ]

  module _ {W : Type 0} (source : Source W F) where
    get_effective_policy-IsSound :
        (laws : FloatLaws f) (now later : ℤ) (key : PolicyKey) (p : RemoteProvider F) (w : W)
        → IsSound p
        → IsSound (get_effective_policy source now later key p w).1
    unfolding get_effective_policy
    get_effective_policy-IsSound laws now later key p w v =
        elim (Bool-cases (get now key p.cache).1) [
          | inl c ↦ elim (Bool-cases (get now key p.cache).2) [
            | inl n ↦ rw (c, n) v
            | inr n ↦ rw (c, n) v
          ]
          | inr c ↦ elim (Exit-cases (source key w).0) [
            | inl ((pol, err), x) ↦ rw (c, x) (settle-IsSound laws later key pol err p v)
            | inr (why, x) ↦ rw (c, x) v
          ]
        ]

    answer-IsReady :
        (laws : FloatLaws f) (now later : ℤ) (key : PolicyKey) (p : RemoteProvider F) (w : W)
        (q : EffectivePolicy F)
        → IsSound p
        → (get_effective_policy source now later key p w).0 ≡ returned (q, none)
        → IsReady key q
    unfolding get_effective_policy
    answer-IsReady laws now later key p w q v h = elim (Bool-cases (get now key p.cache).1) [
      | inl c ↦ elim (Bool-cases (get now key p.cache).2) [
        | inl n ↦ absurd (ground (arith, h, c, n))
        | inr n ↦ subst (IsReady key) (ground (arith, h, c, n)) (get-IsReady now key p.cache v c n)
      ]
      | inr c ↦ elim (Exit-cases (source key w).0) [
        | inl ((pol, err), x) ↦ settle-IsReady laws later key pol q err p (ground (arith, h, c, x))
        | inr (why, x) ↦ absurd (ground (arith, h, c, x))
      ]
    ]

    run-IsSound :
        (laws : FloatLaws f) (calls : List FetchCall) (p : RemoteProvider F) (w : W)
        → IsSound p
        → IsSound (run source calls p w).0
    unfolding run
    run-IsSound laws [] p w v = v
    run-IsSound laws (c ∷ calls) p w v =
        run-IsSound laws calls (get_effective_policy source c.now c.later c.key p w).1
          (get_effective_policy source c.now c.later c.key p w).2
          (get_effective_policy-IsSound laws c.now c.later c.key p w v)

  apply_all_keeps :
      (os : List RemoteProviderOption) (p : RemoteProvider F)
      → p.cache ≡ []
      → (apply_all os p).cache ≡ []
  unfolding apply
  apply_all_keeps [] p h = h
  apply_all_keeps (o ∷ os) p h = apply_all_keeps os (apply o p) (ground (arith, h))

  new-IsSound :
      (opts : List RemoteProviderOption) (p : RemoteProvider F)
      → p ≡ new_remote_provider opts
      → IsSound p
  unfolding new_remote_provider
  new-IsSound opts p e =
      subst (All IsSoundEntry)
        (sym (ap (λ (r : RemoteProvider F). r.cache) e ∙ apply_all_keeps opts _ refl)) tt

  -- Whatever options it was built with, whatever its source answers and whatever requests came
  -- before, a policy that a remote provider gives without an error, fetched or from its cache, is
  -- normalised and is for the key that was asked for.
  pub remote-IsReady :
      {W : Type 0} (source : Source W F) (laws : FloatLaws f) (opts : List RemoteProviderOption)
      (calls : List FetchCall) (now later : ℤ) (key : PolicyKey) (w w' : W) (q : EffectivePolicy F)
      → (get_effective_policy source now later key
          (run source calls (new_remote_provider opts) w).0
          w').0
        ≡ returned (q, none)
      → IsNormalized q × (q.key ≡ key)
  remote-IsReady source laws opts calls now later key w w' q h =
      answer-IsReady source laws now later key (run source calls (new_remote_provider opts) w).0 w'
        q
        (run-IsSound source laws calls (new_remote_provider opts) w
          (new-IsSound opts (new_remote_provider opts) refl))
        h
