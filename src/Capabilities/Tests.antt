-- ===== src/Capabilities/Tests.antt =====
-- src/credentials/consumedCapabilities.ts: two calls with one capability.
use confidential_content_pla.Prelude.{
  ℕ, ◌≡◌, ◌≢◌, refl, Bool, true, false, List, [], ◌∷◌, ok, inl, All, arith, sort_texts,
}
use confidential_content_pla.Prelude.Int.{pos}
use confidential_content_pla.Prelude.Values.{Number, integer}
use confidential_content_pla.Capabilities.{
  absent, World, written, mode_not_set, consume, was_consumed, parse_state, is_capability_id,
  Outcome,
}
use confidential_content_pla.Capabilities.SingleUse.{
  Event, call, restart, run, EarlyCall, consume_once,
}

abbrev fresh : World
fresh = record { file = absent; observed_persisted_state = false }

abbrev at : ℕ → Number
at n = integer (pos n)

abbrev first_use : Outcome Bool
first_use = ok true

first : (consume written fresh "install-1" (at 100) (at 5_000)).1 ≡ first_use
unfolding consume is_capability_id
first = refl

second :
    (consume written
      (consume written fresh "install-1" (at 100) (at 5_000)).0
      "install-1"
      (at 100)
      (at 6_000)).1
    ≡ ok false
unfolding consume parse_state is_capability_id sort_texts
second = refl

recorded :
    (was_consumed (consume written fresh "install-1" (at 100) (at 5_000)).0 "install-1").1 ≡ ok true
unfolding consume was_consumed parse_state is_capability_id sort_texts
recorded = refl

abbrev between : List Event
between = call mode_not_set "revoke-9" (at 200) (at 7_000) ∷ restart ∷ []

early_between : All (EarlyCall 100_000) between
early_between = ((λ t e. ground arith), (tt, tt))

consume_once_example :
    (consume written
      (run (consume written fresh "install-1" (at 100) (at 5_000)).0 between)
      "install-1"
      (at 100)
      (at 8_000)).1
    ≢ first_use
consume_once_example =
    consume_once written fresh "install-1" (at 100) (at 5_000) 100 first refl between early_between
      (inl refl) written (at 100) (at 8_000)
