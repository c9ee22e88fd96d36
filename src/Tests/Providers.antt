-- ===== src/Tests/Providers.antt =====
-- The policy cache, and providers with one policy.
use rego.Common.{◌≡◌, ℕ, suc, pos, [], ◌∷◌, none, some, lookup, arith}
use rego.Policy.Key.{PolicyKey, Key-eq}
use rego.Policy.Schema.{EffectivePolicy, zero_policy}
use rego.Policy.Normalize.{normalize, is_jitter_kind}
use rego.Policy.Normalize.Bounds.{IsNormalized, normalize_error_lem}
use rego.Classify.{returned}
use rego.Controlplane.Cache.{get, read}
use rego.Controlplane.Static.{StaticProvider, static-IsReady, selected}
use rego.Controlplane.Static
use rego.Controlplane.Remote.{
  Source, RemoteProvider, new_remote_provider, FetchCall, run, settle, marked_remote,
  with_cache_ttl,
}
use rego.Controlplane.Remote
use rego.Controlplane.Remote.Laws.{remote-IsReady}
use rego.Tests.Floats.{Num, numbers, laws}

abbrev one_key : PolicyKey
one_key = record { namespace = "user"; name = "get" }

abbrev some_policy : EffectivePolicy Num
some_policy = record zero_policy { id = "p1" }

abbrev provider : StaticProvider Num
provider = record { policies = (one_key, some_policy) ∷ []; default = zero_policy }

provided : (Static.get_effective_policy (some provider) one_key).1 ≡ none
unfolding Static.get_effective_policy selected lookup is_jitter_kind Static.marked_static
provided =
    (normalize_error_lem (record some_policy {
      key = one_key;
      meta = record (some_policy.meta) { source = "static" };
    })).0

-- A source that counts its calls.
abbrev source : Source ℕ Num
source key n = (returned (some_policy, none), suc n)

abbrev fresh : RemoteProvider Num
fresh = new_remote_provider []

abbrev fetched : EffectivePolicy Num
fetched = (normalize (marked_remote one_key some_policy)).0

fetched_accepted : (normalize (marked_remote one_key some_policy)).1 ≡ none
unfolding is_jitter_kind marked_remote
fetched_accepted = (normalize_error_lem (marked_remote one_key some_policy)).0

fetches :
    (Remote.get_effective_policy source (pos 1) (pos 2) one_key fresh 0).0
    ≡ returned (fetched, none)
unfolding Remote.get_effective_policy get read lookup new_remote_provider settle
fetches = ground (arith, fetched_accepted)

remote-IsReady_example : IsNormalized fetched × (fetched.key ≡ one_key)
unfolding run
remote-IsReady_example =
    remote-IsReady source laws [] [] (pos 1) (pos 2) one_key 0 0 fetched fetches
