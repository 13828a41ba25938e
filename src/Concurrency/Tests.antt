-- ===== src/Concurrency/Tests.antt =====
-- src/rate-limit/limiter.ts: a key with room for one lease, with the database in memory.
use confidential_content_pla.Prelude.{
  ◌+◌, ◌*◌, max, ◌≤◌, ◌≡◌, refl, inr, none, some, false, not, List, [], ◌∷◌, leb, length, ok, err,
  if◌then◌else◌, arith, eq_iff,
}
use confidential_content_pla.Valkey.{Valkey, members_of, above, without, valkey_has_write_capacity}
use confidential_content_pla.Valkey.Memory.{Memory, memory, empty_memory}
use confidential_content_pla.Concurrency.{
  protection_state_unavailable, concurrency_limited, concurrency_key, request_key,
  acquire_concurrency, concurrency_acquire_script, concurrency_release_script,
  expire_with_latest_lease, release, release_request_concurrency,
  request_concurrency_release_script,
}
use confidential_content_pla.Concurrency.Effects.{
  members, members-concurrency_release_script, acquire_concurrency_lem, lease_at,
}
use confidential_content_pla.Concurrency.Clients.{
  World, Event, acquires, releases, finishes, waits, step, run,
}
use confidential_content_pla.Concurrency.Scores.{score}
use confidential_content_pla.Concurrency.Bound.{run-bounded}
use confidential_content_pla.Concurrency.Lifetime.{Spares, run-lease_kept}

abbrev start : World memory
start = record { db = empty_memory; clock = 1_000 }

abbrev later : List (Event memory)
later =
    acquires "k" 1 120 660 none "l2"
    ∷ waits 5_000
    ∷ releases (record { redis_key = "conc:k"; lease_id = "l3"; released = false })
    ∷ finishes "r2"
    ∷ []

acquire_example :
    ((acquire_concurrency memory "k" 1 120 660 (some "r") "l1" 1_000 1_001 empty_memory).0 ≡ (
      if not (valkey_has_write_capacity memory empty_memory)
      then err protection_state_unavailable
      else if leb 1 (length (above 1_001 (members memory empty_memory (concurrency_key "k"))))
      then err concurrency_limited
      else ok (lease_at memory "k" "l1")))
    × (members memory
          (acquire_concurrency memory "k" 1 120 660 (some "r") "l1" 1_000 1_001 empty_memory).1
          (concurrency_key "k")
        ≡ (if not (valkey_has_write_capacity memory empty_memory)
            then members memory empty_memory (concurrency_key "k")
            else if leb 1 (length (above 1_001 (members memory empty_memory (concurrency_key "k"))))
            then above 1_001 (members memory empty_memory (concurrency_key "k"))
            else (("l1", 1_000 + max 120 660 * 1_000)
                ∷ without "l1" (above 1_001 (members memory empty_memory (concurrency_key "k"))))))
acquire_example =
    acquire_concurrency_lem memory "k" 1 120 660 (some "r") "l1" 1_000 1_001 empty_memory refl

abbrev one_taken : Memory
one_taken = (acquire_concurrency memory "k" 1 120 660 none "l1" 1_000 1_001 empty_memory).1

release_example :
    members memory (concurrency_release_script memory "conc:k" "l1" 2_000 one_taken) "conc:k"
    ≡ without "l1" (above 2_000 (members memory one_taken "conc:k"))
release_example = members-concurrency_release_script memory "conc:k" "l1" 2_000 one_taken

run-bounded_example :
    length (members_of (Valkey.view memory (run memory start later).db (concurrency_key "k"))) ≤ 1
run-bounded_example = run-bounded memory "k" 1 later start (inr (omega arith), tt) (omega arith)

later-Spares :
    Spares memory "l1" "k" (step memory start (acquires "k" 1 120 660 (some "r") "l1")) later
unfolding step acquire_concurrency concurrency_acquire_script release release_request_concurrency
    request_concurrency_release_script concurrency_release_script expire_with_latest_lease
    concurrency_key request_key valkey_has_write_capacity
later-Spares = (
  inr (λ e. cc ((eq_iff "l2" "l1").1 e)),
  (tt, (inr (λ e. cc ((eq_iff "l3" "l1").1 e)), (tt, tt))),
)

run-lease_kept_example :
    score "l1" (
      members_of (
        Valkey.view memory
          (run memory start (acquires "k" 1 120 660 (some "r") "l1" ∷ later)).db
          (concurrency_key "k")))
    ≡ some (1_000 + max 120 660 * 1_000)
unfolding run step acquire_concurrency concurrency_acquire_script concurrency_key request_key
    valkey_has_write_capacity
run-lease_kept_example =
    run-lease_kept memory "l1" "k" 1 120 660 (some "r") (lease_at memory "k" "l1") start later refl
      refl later-Spares (omega arith)
