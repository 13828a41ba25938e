-- ===== src/Concurrency.antt =====
-- src/rate-limit/limiter.ts: concurrency leases, kept in sorted sets by their deadlines. A lease's id
-- is an argument, and so are the readings of `Date.now()`.
pub mod Items
pub mod Effects
pub mod Clients
pub mod Bound
pub mod Scores
pub mod Survival
pub mod Scripts
pub mod Lifetime
mod Tests
use confidential_content_pla.Prelude.{
  ℕ, ◌+◌, ◌-◌, ◌*◌, max, Option, none, some, Bool, true, false, not, List, [], ◌∷◌, String, str_eq,
  ◌^^◌, leb, length, Result, ok, err, if◌then◌else◌,
}
use confidential_content_pla.Valkey.{
  Valkey, members_of, fields_of, remaining, valkey_has_write_capacity,
}

pub data AppError : Type 0 where
  protection_state_unavailable concurrency_limited : AppError

-- The highest score, which `ZREVRANGE key 0 0 WITHSCORES` shows.
abbrev pub latest_score : List (String × ℕ) → ℕ
latest_score [] = 0
latest_score ((m, s) ∷ z) = max s (latest_score z)

-- What `concurrencyAcquireScript` returns: 1, 0 or -1.
pub data Acquired : Type 0 where
  acquired limited no_capacity : Acquired

unfoldable pub concurrency_key : String → String
concurrency_key key = "conc:" ^^ key

unfoldable pub request_key : String → String
request_key id = "conc-request:" ^^ id

-- What the caller of `acquireConcurrency` gets: a closure over these.
pub record Lease : Type 0 where
  pub redis_key : String
  pub lease_id : String
  pub released : Bool

module _ (V : Valkey) where
  open V use {Db, view, hset, pexpire, del, zadd, zrem, zremrangebyscore}

  -- `HGETALL` gives each field with its last value.
  abbrev pub has_field : String → List (String × String) → Bool
  has_field f [] = false
  has_field f ((g, v) ∷ m) = if str_eq g f then true else has_field f m

  abbrev pub current : List (String × String) → List (String × String)
  current [] = []
  current ((f, v) ∷ m) = if has_field f m then current m else (f, v) ∷ current m

  expire_by : List (String × ℕ) → String → ℕ → Db → Db
  expire_by [] key now db = del key db
  expire_by (x ∷ z) key now db = pexpire key (max 1 (latest_score (x ∷ z) - now)) db

  unfoldable pub expire_with_latest_lease : String → ℕ → Db → Db
  unfolding expire_by
  expire_with_latest_lease key now db = expire_by (members_of (view db key)) key now db

  pub associate : Option String → (lease key : String) → (now expires : ℕ) → Db → Db
  associate none lease key now expires db = db
  associate (some request) lease key now expires db =
      let db' = hset request ((lease, key) ∷ []) db in
      pexpire request (max 1 (max (expires - now) (remaining (view db' request)))) db'

  unfoldable pub concurrency_acquire_script :
      (key : String) (request : Option String) (lease : String) (now expires limit : ℕ)
      → Db
      → Acquired × Db
  unfolding associate expire_with_latest_lease
  concurrency_acquire_script key request lease now expires limit db =
      if not (valkey_has_write_capacity V db)
      then (no_capacity, db)
      else let pruned = zremrangebyscore key now db in
        if leb limit (length (members_of (view pruned key)))
        then (limited, expire_with_latest_lease key now pruned)
        else (
          acquired,
          associate request lease key now expires
              (expire_with_latest_lease key now (zadd key expires lease pruned)),
        )

  unfoldable pub concurrency_release_script : (key lease : String) → ℕ → Db → Db
  unfolding expire_with_latest_lease
  concurrency_release_script key lease now db =
      expire_with_latest_lease key now (zrem key lease (zremrangebyscore key now db))

  pub zrem_all : List (String × String) → Db → Db
  zrem_all [] db = db
  zrem_all ((lease, key) ∷ m) db = zrem_all m (zrem key lease db)

  unfoldable pub request_concurrency_release_script : String → Db → Db
  unfolding zrem_all
  request_concurrency_release_script request db =
      del request (zrem_all (current (fields_of (view db request))) db)

  pub acquire_result : (key lease : String) → Acquired → Result AppError Lease
  acquire_result key lease acquired =
      ok (record { redis_key = key; lease_id = lease; released = false })
  acquire_result key lease limited = err concurrency_limited
  acquire_result key lease no_capacity = err protection_state_unavailable

  -- `requestId ? … : …`: an empty text is no request.
  abbrev pub request_keys : Option String → Option String
  request_keys none = none
  request_keys (some id) = if str_eq id "" then none else some (request_key id)

  -- `start` is the clock when the deadline is computed, `now` when the script is called.
  unfoldable pub acquire_concurrency :
      (key : String) (limit ttl_seconds absolute_max_seconds : ℕ) (request : Option String)
      (lease : String) (start now : ℕ)
      → Db
      → Result AppError Lease × Db
  unfolding acquire_result
  acquire_concurrency key limit ttl_seconds absolute_max_seconds request lease start now db =
      let deadline = start + max ttl_seconds absolute_max_seconds * 1_000 in
      let (a, db') =
        concurrency_acquire_script (concurrency_key key) (request_keys request) lease now deadline
          limit db in
      (acquire_result (concurrency_key key) lease a, db')

  -- The closure that `acquireConcurrency` returns.
  unfoldable pub release : ℕ → Lease → Db → Lease × Db
  release now l db =
      if l.released
      then (l, db)
      else (record l { released = true }, concurrency_release_script l.redis_key l.lease_id now db)

  unfoldable pub release_request_concurrency : String → Db → Db
  release_request_concurrency id = request_concurrency_release_script (request_key id)
