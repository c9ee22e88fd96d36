-- ===== src/Controlplane/Remote/Caching.antt =====
-- controlplane/remote.go: the cache in front of the source.
use rego.Common.{
  ℤ, ◌+ℤ◌, ltb_ℤ, ◌≡◌, sym, subst, inl, inr, true, false, Option, none, some, FloatOps,
  Option-cases, arith, lookup-insert_self,
}
use rego.Errors.{Error}
use rego.Policy.Key.{PolicyKey, Key-eq}
use rego.Policy.Schema.{EffectivePolicy}
use rego.Policy.Normalize.{normalize}
use rego.Classify.{returned, Exit-cases}
use rego.Controlplane.Cache.{get, read, store}
use rego.Controlplane.Remote.{Source, RemoteProvider, marked_remote, settle, get_effective_policy}

module _ {F : Type 0} ⦃f : FloatOps F⦄ where
  settle_stores :
      (later : ℤ) (key : PolicyKey) (pol q : EffectivePolicy F) (err : Option Error)
      (p : RemoteProvider F)
      → (settle later key pol err p).0 ≡ returned (q, none)
      → (settle later key pol err p).1 ≡ record p { cache = store later key q p.cache_ttl p.cache }
  unfolding settle
  settle_stores later key pol q (some e) p h = absurd (ground (arith, h))
  settle_stores later key pol q none p h =
      elim (Option-cases (normalize (marked_remote key pol)).1) [
        | inl ok ↦
            let same : (normalize (marked_remote key pol)).0 ≡ q = ground (arith, h, ok) in
            subst
              (λ r.
                (settle later key pol none p).1
                ≡ record p { cache = store later key r p.cache_ttl p.cache })
              same (ground (arith, ok))
        | inr (why, bad) ↦ absurd (ground (arith, h, bad))
      ]

  fetch_stores :
      {W : Type 0} (source : Source W F) (now later : ℤ) (key : PolicyKey) (p : RemoteProvider F)
      (w : W) (q : EffectivePolicy F)
      → (get now key p.cache).1 ≡ false
      → (get_effective_policy source now later key p w).0 ≡ returned (q, none)
      → (get_effective_policy source now later key p w).1
        ≡ record p { cache = store later key q p.cache_ttl p.cache }
  unfolding get_effective_policy
  fetch_stores source now later key p w q c h = elim (Exit-cases (source key w).0) [
    | inl ((pol, err), x) ↦
        ground (arith, h, c, x, settle_stores later key pol q err p (ground (arith, h, c, x)))
    | inr (why, x) ↦ absurd (ground (arith, h, c, x))
  ]

  stored_answer :
      {W : Type 0} (source : Source W F) (then' now later : ℤ) (key : PolicyKey)
      (p : RemoteProvider F) (q : EffectivePolicy F) (w : W)
      → ltb_ℤ (then' +ℤ p.cache_ttl) now ≡ false
      → let stored : RemoteProvider F = record p {
        cache = store then' key q p.cache_ttl p.cache;
      } in
        get_effective_policy source now later key stored w ≡ (returned (q, none), stored, w)
  unfolding get_effective_policy get read store
  stored_answer source then' now later key p q w h = ground (
    arith,
    h,
    lookup-insert_self key (record { policy = q; expires_at = then' +ℤ p.cache_ttl; found = true })
        p.cache,
  )

  -- A policy that was fetched because the cache had none answers the next request for its key, if
  -- that request's clock is not past the clock at the write to the cache plus the time to live: the
  -- source is not asked, and neither state changes.
  pub cached_until_expiry :
      {W : Type 0} (source : Source W F) (now later again after : ℤ) (key : PolicyKey)
      (p : RemoteProvider F) (w w' : W) (q : EffectivePolicy F)
      → (get now key p.cache).1 ≡ false
      → (get_effective_policy source now later key p w).0 ≡ returned (q, none)
      → ltb_ℤ (later +ℤ p.cache_ttl) again ≡ false
      → let filled = (get_effective_policy source now later key p w).1 in
        get_effective_policy source again after key filled w' ≡ (returned (q, none), filled, w')
  cached_until_expiry source now later again after key p w w' q c h l =
      subst
        (λ (filled : RemoteProvider F).
          get_effective_policy source again after key filled w' ≡ (returned (q, none), filled, w'))
        (sym (fetch_stores source now later key p w q c h))
        (stored_answer source later again after key p q w' l)
