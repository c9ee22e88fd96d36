-- ===== src/Controlplane/Cache.antt =====
-- controlplane/cache.go. Times are nanoseconds; `c.now()` is an argument, and the lock makes each
-- method one step.
use rego.Common.{
  ℤ, ◌+ℤ◌, ltb_ℤ, ◌≡◌, Bool, true, false, not, List, Option, none, some, FloatOps, lookup, insert,
  delete, lookup-insert, lookup-delete, arith, if◌then◌else◌,
}
use rego.Policy.Key.{PolicyKey, Key-eq, key_eq}
use rego.Policy.Schema.{EffectivePolicy, zero_policy}

-- `cacheEntry`
pub record Entry (F : Type 0) : Type 0 where
  pub policy : EffectivePolicy F
  pub expires_at : ℤ
  pub found : Bool

-- `PolicyCache`, by its entries.
abbrev pub PolicyCache : Type 0 → Type 0
PolicyCache F = List (PolicyKey × Entry F)

module _ {F : Type 0} ⦃f : FloatOps F⦄ where
  -- What `Get` makes of an entry: the policy, `foundInCache` and `isNegativeCache`.
  unfoldable pub read : ℤ → Option (Entry F) → EffectivePolicy F × Bool × Bool
  read now none = (zero_policy, false, false)
  read now (some e) =
      if ltb_ℤ e.expires_at now then (zero_policy, false, false) else (e.policy, true, not e.found)

  -- `Get`
  unfoldable pub get : ℤ → PolicyKey → PolicyCache F → EffectivePolicy F × Bool × Bool
  get now key c = read now (lookup key c)

  -- `Set`
  unfoldable pub store : ℤ → PolicyKey → EffectivePolicy F → ℤ → PolicyCache F → PolicyCache F
  store now key pol ttl c =
      insert key (record { policy = pol; expires_at = now +ℤ ttl; found = true }) c

  -- `SetMissing`
  unfoldable pub set_missing : ℤ → PolicyKey → ℤ → PolicyCache F → PolicyCache F
  set_missing now key ttl c =
      insert key (record { policy = zero_policy; expires_at = now +ℤ ttl; found = false }) c

  -- `Invalidate`
  unfoldable pub invalidate : PolicyKey → PolicyCache F → PolicyCache F
  invalidate key c = delete key c

  -- What is stored under a key is read back up to and at the end of its time to live, and not after
  -- it; a missing policy is read back as such for as long; an invalidated key reads as absent.
  -- Other keys read what they read before.
  pub cache_reads :
      (then' now ttl : ℤ) (key other : PolicyKey) (pol : EffectivePolicy F) (c : PolicyCache F)
      → (get now other (store then' key pol ttl c) ≡ (
          if key_eq key other
          then if ltb_ℤ (then' +ℤ ttl) now then (zero_policy, false, false) else (pol, true, false)
          else get now other c))
        × (get now other (set_missing then' key ttl c) ≡ (
            if key_eq key other
            then if ltb_ℤ (then' +ℤ ttl) now
              then (zero_policy, false, false)
              else (zero_policy, true, true)
            else get now other c))
        × (get now other (invalidate key c)
            ≡ (if key_eq key other then (zero_policy, false, false) else get now other c))
  unfolding get read store set_missing invalidate
  cache_reads then' now ttl key other pol c = ground (
    arith,
    lookup-insert key other (record { policy = pol; expires_at = then' +ℤ ttl; found = true }) c,
    lookup-insert key other
        (record { policy = zero_policy; expires_at = then' +ℤ ttl; found = false }) c,
    lookup-delete key other c,
  )
