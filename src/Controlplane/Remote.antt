-- ===== src/Controlplane/Remote.antt =====
-- controlplane/remote.go. A source is code behind an interface: a function over a state `W`, which
-- may panic.
pub mod Laws
pub mod Caching
use rego.Common.{
  ℤ, pos, String, is_empty, Bool, true, false, List, [], ◌∷◌, Option, none, some, FloatOps,
  if◌then◌else◌,
}
use rego.Errors.{Error, sentinel, policy_not_found, errors_is}
use rego.Policy.Key.{PolicyKey}
use rego.Policy.Schema.{EffectivePolicy, zero_policy, seconds, policy_source_remote}
use rego.Policy.Normalize.{normalize}
use rego.Classify.{Exit, returned, panicked}
use rego.Controlplane.Cache.{PolicyCache, get, store, set_missing}

abbrev pub Source : Type 0 → Type 0 → Type 0
Source W F = PolicyKey → W → Exit (EffectivePolicy F × Option Error) × W

pub record RemoteProvider (F : Type 0) : Type 0 where
  pub cache : PolicyCache F
  pub cache_ttl : ℤ
  pub negative_cache_ttl : ℤ

-- `WithCacheTTL` and `WithNegativeCacheTTL`
pub data RemoteProviderOption : Type 0 where
  with_cache_ttl with_negative_cache_ttl : ℤ → RemoteProviderOption

module _ {F : Type 0} where
  unfoldable pub apply : RemoteProviderOption → RemoteProvider F → RemoteProvider F
  apply (with_cache_ttl ttl) p = record p { cache_ttl = ttl }
  apply (with_negative_cache_ttl ttl) p = record p { negative_cache_ttl = ttl }

  abbrev pub apply_all : List RemoteProviderOption → RemoteProvider F → RemoteProvider F
  apply_all [] p = p
  apply_all (o ∷ os) p = apply_all os (apply o p)

  -- `NewRemoteProvider`
  unfoldable pub new_remote_provider : List RemoteProviderOption → RemoteProvider F
  new_remote_provider opts =
      apply_all opts
        (record { cache = []; cache_ttl = seconds 60; negative_cache_ttl = seconds 10 })

-- A request, with its clock readings.
pub record FetchCall : Type 0 where
  pub key : PolicyKey
  pub now : ℤ
  pub later : ℤ

module _ {F : Type 0} ⦃f : FloatOps F⦄ where
  -- The policy of a source with its key, and with a source name where it has none.
  unfoldable pub marked_remote : PolicyKey → EffectivePolicy F → EffectivePolicy F
  marked_remote key pol =
      if is_empty pol.meta.source
      then record pol { key = key; meta = record (pol.meta) { source = policy_source_remote } }
      else record pol { key = key }

  -- What follows the source's answer; `later` is the clock at the write to the cache.
  unfoldable pub settle :
      ℤ
      → PolicyKey
      → EffectivePolicy F
      → Option Error
      → RemoteProvider F
      → Exit (EffectivePolicy F × Option Error) × RemoteProvider F
  settle later key pol (some err) p =
      if errors_is err policy_not_found
      then (
        returned (zero_policy, some (sentinel policy_not_found)),
        record p { cache = set_missing later key p.negative_cache_ttl p.cache },
      )
      else (returned (zero_policy, some err), p)
  settle later key pol none p =
      let (normal, refused) = normalize (marked_remote key pol) in
      elim refused [
        | some why ↦ (returned (zero_policy, some why), p)
        | none ↦ (
          returned (normal, none),
          record p { cache = store later key normal p.cache_ttl p.cache },
        )
      ]

  -- `GetEffectivePolicy`, with the clock at the read of the cache and at the write.
  unfoldable pub get_effective_policy :
      {W : Type 0}
      → Source W F
      → ℤ
      → ℤ
      → PolicyKey
      → RemoteProvider F
      → W
      → Exit (EffectivePolicy F × Option Error) × RemoteProvider F × W
  get_effective_policy source now later key p w =
      let (pol, cached, negative) = get now key p.cache in
      if cached
      then if negative
        then (returned (zero_policy, some (sentinel policy_not_found)), p, w)
        else (returned (pol, none), p, w)
      else (let (exit, w') = source key w in
          elim exit [
            | panicked v ↦ (panicked v, p, w')
            | returned (fetched, err) ↦
                let (answer, p') = settle later key fetched err p in (answer, p', w')
          ])

  -- What a sequence of requests leaves.
  unfoldable pub run :
      {W : Type 0} → Source W F → List FetchCall → RemoteProvider F → W → RemoteProvider F × W
  run source [] p w = (p, w)
  run source (l ∷ ls) p w =
      let r = get_effective_policy source l.now l.later l.key p w in run source ls r.1 r.2
