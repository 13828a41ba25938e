-- ===== src/Concurrency/Lifetime.antt =====
-- src/rate-limit/limiter.ts: a lease from its acquisition to its deadline.
use confidential_content_pla.Prelude.{
  ℕ, ◌+◌, ◌*◌, max, ◌≤◌, ◌<◌, ◌≡◌, refl, ◌∙◌, ap, ◌≢◌, ◌⊎◌, inl, inr, Option, some, true, List, [],
  ◌∷◌, String, arith, Bool-cases, append-cancel, ok,
}
use confidential_content_pla.Valkey.{Valkey, members_of, at_key_ne, fields_of}
use confidential_content_pla.Concurrency.{
  Acquired, acquired, limited, no_capacity, concurrency_key, current, Lease, zrem_all,
  request_concurrency_release_script, acquire_concurrency, release, release_request_concurrency,
  request_keys, request_key, acquire_result,
}
use confidential_content_pla.Concurrency.Items.{is_set, key-ne-request_key}
use confidential_content_pla.Concurrency.Effects.{request_keys-ne}
use confidential_content_pla.Concurrency.Scores.{score, Running, Running-age, Unnamed}
use confidential_content_pla.Concurrency.Survival.{moved}
use confidential_content_pla.Concurrency.Scripts.{
  Held-acquire_script, Held-release_script, Held-zrem_all, Held-granted,
}
use confidential_content_pla.Concurrency.Clients.{
  World, Event, acquires, releases, finishes, waits, step, run,
}

module _ (V : Valkey) (lease key : String) where
  open V use {Db, view, wait, view-wait, del, view-del}

  -- The step neither acquires under the lease's id on its key, nor releases the lease, nor finishes a
  -- request that the lease is associated with.
  abbrev pub SparesEvent : World V → Event V → Type 0
  SparesEvent w (acquires k limit ttl absolute request m) = (k ≢ key) ⊎ (m ≢ lease)
  SparesEvent w (releases l) = (l.redis_key ≢ concurrency_key key) ⊎ (l.lease_id ≢ lease)
  SparesEvent w (finishes request) =
      Unnamed lease (concurrency_key key) (current V (fields_of (view w.db (request_key request))))
  SparesEvent w (waits ms) = Unit {0}

  abbrev pub Spares : World V → List (Event V) → Type 0
  Spares w [] = Unit {0}
  Spares w (e ∷ es) = SparesEvent w e × Spares (step V w e) es

  clock-le-run : (w : World V) (es : List (Event V)) → w.clock ≤ (run V w es).clock
  unfolding run step
  clock-le-run w [] = omega arith
  clock-le-run w (acquires k limit ttl absolute request m ∷ es) = clock-le-run _ es
  clock-le-run w (releases l ∷ es) = clock-le-run _ es
  clock-le-run w (finishes request ∷ es) = clock-le-run _ es
  clock-le-run w (waits ms ∷ es) = omega (arith, clock-le-run (step V w (waits ms)) es)

  abbrev Alive : ℕ → World V → Type 0
  Alive deadline w = Running lease deadline w.clock (view w.db (concurrency_key key))

  apart : {A : Type 0} (k : String) → (k ≢ key) ⊎ A → (concurrency_key k ≢ concurrency_key key) ⊎ A
  unfolding concurrency_key
  apart k (inl ne) = inl (λ e. ne (append-cancel "conc:" k key e))
  apart k (inr a) = inr a

  release-Alive :
      (deadline : ℕ) (w : World V) (l : Lease)
      → SparesEvent w (releases l)
      → w.clock < deadline
      → Alive deadline w
      → Alive deadline (step V w (releases l))
  unfolding step release
  release-Alive deadline w l spares early alive = elim (Bool-cases l.released) [
    | inl done ↦ rw done alive
    | inr first ↦ rw first (
        Held-release_script V lease deadline w.clock (concurrency_key key) l.redis_key l.lease_id
          w.db spares early alive)
  ]

  finish-Alive :
      (deadline : ℕ) (w : World V) (request : String)
      → SparesEvent w (finishes request)
      → Alive deadline w
      → Alive deadline (step V w (finishes request))
  unfolding step release_request_concurrency request_concurrency_release_script
  finish-Alive deadline w request spares alive =
      let pairs : List (String × String) =
        current V (fields_of (view w.db (request_key request))) in
      moved V lease deadline w.clock (concurrency_key key)
        (view-del (request_key request) (concurrency_key key) (zrem_all V pairs w.db)
          ∙ at_key_ne (request_key request) (concurrency_key key) _ _
              (key-ne-request_key key request))
        (Held-zrem_all V lease deadline w.clock (concurrency_key key) pairs w.db spares alive)

  step-Alive :
      (deadline : ℕ) (w : World V) (e : Event V)
      → SparesEvent w e
      → (step V w e).clock < deadline
      → Alive deadline w
      → Alive deadline (step V w e)
  unfolding step acquire_concurrency
  step-Alive deadline w (acquires k limit ttl absolute request m) spares early alive =
      Held-acquire_script V lease deadline w.clock (concurrency_key key) (concurrency_key k)
        (request_keys V request) m (w.clock + max ttl absolute * 1_000) limit w.db
        (request_keys-ne V request key) (apart k spares) early alive
  step-Alive deadline w (releases l) spares early alive =
      release-Alive deadline w l spares early alive
  step-Alive deadline w (finishes request) spares early alive =
      finish-Alive deadline w request spares alive
  step-Alive deadline w (waits ms) spares early alive =
      rw view-wait
        (Running-age lease deadline w.clock ms (view w.db (concurrency_key key)) early alive)

  run-Alive :
      (deadline : ℕ) (w : World V) (es : List (Event V))
      → Spares w es
      → (run V w es).clock < deadline
      → Alive deadline w
      → Alive deadline (run V w es)
  unfolding run
  run-Alive deadline w [] spares early alive = alive
  run-Alive deadline w (e ∷ es) spares early alive =
      run-Alive deadline (step V w e) es spares.1 early
        (step-Alive deadline w e spares.0 (omega (arith, clock-le-run (step V w e) es)) alive)

  acquired_result :
      (k : String) (l : Lease) (a : Acquired) → acquire_result V k lease a ≡ ok l → a ≡ acquired
  unfolding acquire_result
  acquired_result k l acquired e = refl
  acquired_result k l limited e = cc
  acquired_result k l no_capacity e = cc

  -- A lease that was acquired under a key of leases stands in the key's set with its deadline until the
  -- deadline, whatever else is acquired, released, finished and waited for in between, unless it is
  -- released itself, or by the end of a request that it is associated with, or its id is used again.
  pub run-lease_kept :
      (limit ttl absolute : ℕ) (request : Option String) (l : Lease) (w : World V)
      (es : List (Event V))
      → is_set (view w.db (concurrency_key key)) ≡ true
      → (acquire_concurrency V key limit ttl absolute request lease w.clock w.clock w.db).0 ≡ ok l
      → Spares (step V w (acquires key limit ttl absolute request lease)) es
      → (run V w (acquires key limit ttl absolute request lease ∷ es)).clock
        < w.clock + max ttl absolute * 1_000
      → score lease (
          members_of (
            view
              (run V w (acquires key limit ttl absolute request lease ∷ es)).db
              (concurrency_key key)))
        ≡ some (w.clock + max ttl absolute * 1_000)
  unfolding run step acquire_concurrency
  run-lease_kept limit ttl absolute request l w es h granted spares early =
      let deadline : ℕ = w.clock + max ttl absolute * 1_000 in
      let w' : World V = step V w (acquires key limit ttl absolute request lease) in
      let alive : Alive deadline w' =
        Held-granted V lease deadline w.clock (concurrency_key key) (request_keys V request) limit
          w.db (request_keys-ne V request key) h
          (acquired_result (concurrency_key key) l _ granted) in
      let kept : Alive deadline (run V w' es) = run-Alive deadline w' es spares early alive in
      ap (λ i. score lease (members_of i)) kept.stands ∙ kept.listed
