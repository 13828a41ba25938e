-- ===== src/CircuitRegistry/Tests.antt =====
-- src/providers/circuitBreaker.ts: a registry with room for two scopes.
use confidential_content_pla.Prelude.{
  ℕ, ◌≤◌, ◌≡◌, ◌≢◌, refl, ◌↔◌, none, some, List, [], ◌∷◌, ◌++◌, if◌then◌else◌, take,
}
use confidential_content_pla.Breaker.{CircuitBreakerOptions, new}
use confidential_content_pla.CircuitRegistry.{
  VeniceCircuitOperation, chat, image, Registry, RegistryOptions, new_registry, scope_key,
  same_text, get, delete, scoped, scoped_size, scoped_all,
}
use confidential_content_pla.CircuitRegistry.Lookup.{scope_key_iff, Distinct}
use confidential_content_pla.CircuitRegistry.References.{DistinctRefs, NoRef}
use confidential_content_pla.CircuitRegistry.Eviction.{
  Inv, new_registry-Inv, scoped_all-Inv, scoped_all-bounded,
}
use confidential_content_pla.CircuitRegistry.Recency.{forgets, scoped_known, scoped_unknown}

abbrev plain : CircuitBreakerOptions
plain = record {
  consecutive_failure_threshold = none;
  burst_failure_threshold = none;
  burst_window_ms = none;
  open_duration_ms = none;
}

abbrev two_scopes : RegistryOptions
two_scopes = record {
  network_options = plain;
  scoped_options = plain;
  max_scoped_breakers = some 2;
}

abbrev model_a : List ℕ
model_a = b'a' ∷ []

abbrev model_b : List ℕ
model_b = b'b' ∷ []

abbrev full_calls : List (VeniceCircuitOperation × List ℕ)
full_calls = (chat, model_a) ∷ (image, model_a) ∷ []

abbrev full : Registry
full = scoped_all full_calls (new_registry two_scopes)

full-Inv : Inv full
full-Inv = scoped_all-Inv full_calls (new_registry two_scopes) (new_registry-Inv two_scopes)

scope_key_iff_example :
    (scope_key chat model_a ≡ scope_key chat model_b)
    ↔ ((chat ≡ chat) × (take 256 model_a ≡ take 256 model_b))
scope_key_iff_example = scope_key_iff chat chat model_a model_b

scoped_all-bounded_example :
    (scoped_size full ≤ full.max_scoped_breakers)
    × (1 ≤ full.max_scoped_breakers)
    × (full.max_scoped_breakers ≤ 4_096)
    × Distinct full.scoped_breakers
    × DistinctRefs full.scoped_breakers
scoped_all-bounded_example = scoped_all-bounded two_scopes full_calls

scoped_known_example :
    ((scoped chat model_a full).0 ≡ 0)
    × ((j : List ℕ)
        → get j (scoped chat model_a full).1.scoped_breakers ≡ get j full.scoped_breakers)
    × ((scoped chat model_a full).1.scoped_breakers
        ≡ delete (scope_key chat model_a) full.scoped_breakers ++ (scope_key chat model_a, 0) ∷ [])
    × ((scoped chat model_a full).1.store ≡ full.store)
unfolding scoped_all new_registry scoped scope_key get
scoped_known_example = scoped_known chat model_a full 0 full-Inv refl

scoped_unknown_example :
    ((scoped chat model_b full).1.store (scoped chat model_b full).0 ≡ new full.scoped_options)
    × NoRef (scoped chat model_b full).0 full.scoped_breakers
    × ((j : List ℕ)
        → get j (scoped chat model_b full).1.scoped_breakers ≡ (
            if same_text (scope_key chat model_b) j
            then some (scoped chat model_b full).0
            else if forgets full j
            then none
            else get j full.scoped_breakers))
    × ((r : ℕ)
        → r ≢ (scoped chat model_b full).0
        → (scoped chat model_b full).1.store r ≡ full.store r)
unfolding scoped_all new_registry scoped scope_key get
scoped_unknown_example = scoped_unknown chat model_b full full-Inv refl
