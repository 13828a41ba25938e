-- ===== src/Concurrency/Clients.antt =====
-- src/rate-limit/limiter.ts: the requests that take and give back leases, in any order, and the clock
-- that Valkey and the callers share.
use confidential_content_pla.Prelude.{ℕ, ◌+◌, Option, List, [], ◌∷◌, String}
use confidential_content_pla.Valkey.{Valkey}
use confidential_content_pla.Concurrency.{
  Lease, acquire_concurrency, release, release_request_concurrency,
}

module _ (V : Valkey) where
  open V use {Db, wait}

  pub record World : Type 0 where
    pub db : Db
    pub clock : ℕ

  pub data Event : Type 0 where
    acquires :
        (key : String) (limit ttl absolute : ℕ) (request : Option String) (lease : String) → Event
    releases : Lease → Event
    finishes : (request : String) → Event
    waits : (ms : ℕ) → Event

  unfoldable pub step : World → Event → World
  step w (acquires key limit ttl absolute request lease) = record w {
    db = (acquire_concurrency V key limit ttl absolute request lease w.clock w.clock w.db).1;
  }
  step w (releases l) = record w { db = (release V w.clock l w.db).1 }
  step w (finishes request) = record w { db = release_request_concurrency V request w.db }
  step w (waits ms) = record { db = wait ms w.db; clock = w.clock + ms }

  unfoldable pub run : World → List Event → World
  run w [] = w
  run w (e ∷ es) = run (step w e) es
