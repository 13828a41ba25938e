-- ===== src/Concurrency/Bound.antt =====
-- src/rate-limit/limiter.ts: how many leases a set can hold.
use confidential_content_pla.Prelude.{
  ℕ, ◌+◌, ◌-◌, ◌*◌, max, ◌≤◌, ◌<◌, ◌≡◌, ap, ◌≢◌, ◌⊎◌, inl, inr, Option, none, some, false, List, [],
  ◌∷◌, String, str_eq, eq_iff, leb, length, arith, Bool-cases, append-cancel,
}
use confidential_content_pla.Valkey.{
  Valkey, Value, hash, text, sorted_set, Item, members_of, set_members, change_members, change_set,
  without, above, write_hash, extend, expire_item, age, age_ttl, at_key, at_key_ne, fields_of,
  valkey_has_write_capacity,
}
use confidential_content_pla.Concurrency.{
  latest_score, concurrency_key, current, Lease, expire_by, expire_with_latest_lease, associate,
  concurrency_acquire_script, concurrency_release_script, zrem_all,
  request_concurrency_release_script, acquire_concurrency, release, release_request_concurrency,
  request_keys, request_key,
}
use confidential_content_pla.Concurrency.Items.{members-pack, members-expire}
use confidential_content_pla.Concurrency.Clients.{
  World, Event, acquires, releases, finishes, waits, step, run,
}

abbrev Bounded : ℕ → Option Item → Type 0
Bounded n i = length (members_of i) ≤ n

length-above : (limit : ℕ) (z : List (String × ℕ)) → length (above limit z) ≤ length z
length-above limit [] = omega arith
length-above limit ((m, s) ∷ z) = ground (arith, length-above limit z)

length-without : (m : String) (z : List (String × ℕ)) → length (without m z) ≤ length z
length-without m [] = omega arith
length-without m ((k, s) ∷ z) = ground (arith, length-without m z)

module _ (n : ℕ) where
  Bounded-change :
      (f : List (String × ℕ) → List (String × ℕ)) (i : Option Item)
      → length (f (members_of i)) ≤ n
      → Bounded n (change_members f i)
  Bounded-change f none h = omega (arith, ap length (members-pack (f []) none))
  Bounded-change f (some i) h = changed i.value h
    where
      changed : (v : Value) → length (f (set_members v)) ≤ n → Bounded n (change_set f v i.ttl)
      changed (hash m) e = omega arith
      changed (text s) e = omega arith
      changed (sorted_set z) e = omega (arith, ap length (members-pack (f z) i.ttl))

  Bounded-expire : (ms : ℕ) (i : Option Item) → Bounded n i → Bounded n (expire_item ms i)
  Bounded-expire ms i h = omega (arith, ap length (members-expire ms i))

  Bounded-write_hash :
      (m : List (String × String)) (i : Option Item) → Bounded n i → Bounded n (write_hash m i)
  Bounded-write_hash m none h = omega arith
  Bounded-write_hash m (some i) h = written i.value h
    where
      written : (v : Value) → length (set_members v) ≤ n → length (set_members (extend m v)) ≤ n
      written (hash k) e = e
      written (text s) e = e
      written (sorted_set z) e = e

  Bounded-age : (ms : ℕ) (i : Option Item) → Bounded n i → Bounded n (age ms i)
  Bounded-age ms none h = h
  Bounded-age ms (some i) h = aged i.ttl
    where
      aged : (t : Option ℕ) → Bounded n (age_ttl ms i.value t)
      aged none = h
      aged (some t) = elim (Bool-cases (leb t ms)) [
        | inl over ↦ rw over (omega arith)
        | inr early ↦ rw early h
      ]

  Bounded-at_key :
      (k j : String) (x y : Option Item) → Bounded n x → Bounded n y → Bounded n (at_key k j x y)
  Bounded-at_key k j x y hx hy = elim (Bool-cases (str_eq k j)) [
    | inl same ↦ rw same hx
    | inr other ↦ rw other hy
  ]

module _ (V : Valkey) (n : ℕ) (j : String) where
  open V use {
    Db, view, hset, pexpire, del, zadd, zrem, zremrangebyscore, wait, view-hset, view-pexpire,
    view-del, view-zadd, view-zrem, view-zremrangebyscore, view-wait,
  }

  abbrev Fits : Db → Type 0
  Fits db = Bounded n (view db j)

  Fits-del : (k : String) (db : Db) → Fits db → Fits (del k db)
  Fits-del k db h = rw view-del (Bounded-at_key n k j none (view db j) (omega arith) h)

  Fits-pexpire : (k : String) (ms : ℕ) (db : Db) → Fits db → Fits (pexpire k ms db)
  Fits-pexpire k ms db h = rw view-pexpire (
      Bounded-at_key n k j (expire_item ms (view db j)) (view db j)
        (Bounded-expire n ms (view db j) h) h)

  Fits-hset : (k : String) (m : List (String × String)) (db : Db) → Fits db → Fits (hset k m db)
  Fits-hset k m db h = rw view-hset (
      Bounded-at_key n k j (write_hash m (view db j)) (view db j)
        (Bounded-write_hash n m (view db j) h) h)

  Fits-zrem : (k m : String) (db : Db) → Fits db → Fits (zrem k m db)
  Fits-zrem k m db h = rw view-zrem (
      Bounded-at_key n k j (change_members (without m) (view db j)) (view db j)
        (Bounded-change n (without m) (view db j)
          (omega (arith, length-without m (members_of (view db j)))))
        h)

  Fits-zremrangebyscore :
      (k : String) (limit : ℕ) (db : Db) → Fits db → Fits (zremrangebyscore k limit db)
  Fits-zremrangebyscore k limit db h = rw view-zremrangebyscore (
      Bounded-at_key n k j (change_members (above limit) (view db j)) (view db j)
        (Bounded-change n (above limit) (view db j)
          (omega (arith, length-above limit (members_of (view db j)))))
        h)

  -- A member more is no harm at another key, or where there is room.
  Fits-zadd :
      (k m : String) (s : ℕ) (db : Db)
      → Fits db
      → (k ≢ j) ⊎ (length (members_of (view db j)) < n)
      → Fits (zadd k s m db)
  Fits-zadd k m s db h (inl other) = rw (view-zadd, at_key_ne k j _ _ other) h
  Fits-zadd k m s db h (inr room) = rw view-zadd (
      Bounded-at_key n k j (change_members (λ z. (m, s) ∷ without m z) (view db j)) (view db j)
        (Bounded-change n (λ z. (m, s) ∷ without m z) (view db j)
          (omega (arith, length-without m (members_of (view db j)))))
        h)

  Fits-expire_by :
      (z : List (String × ℕ)) (k : String) (now : ℕ) (db : Db)
      → Fits db
      → Fits (expire_by V z k now db)
  unfolding expire_by
  Fits-expire_by [] k now db h = Fits-del k db h
  Fits-expire_by (x ∷ z) k now db h = Fits-pexpire k (max 1 (latest_score (x ∷ z) - now)) db h

  Fits-expire_with_latest_lease :
      (k : String) (now : ℕ) (db : Db) → Fits db → Fits (expire_with_latest_lease V k now db)
  unfolding expire_with_latest_lease
  Fits-expire_with_latest_lease k now db h = Fits-expire_by (members_of (view db k)) k now db h

  Fits-associate :
      (request : Option String) (lease key : String) (now expires : ℕ) (db : Db)
      → Fits db
      → Fits (associate V request lease key now expires db)
  unfolding associate
  Fits-associate none lease key now expires db h = h
  Fits-associate (some r) lease key now expires db h =
      Fits-pexpire r _ (hset r ((lease, key) ∷ []) db) (Fits-hset r ((lease, key) ∷ []) db h)

  Fits-zrem_all : (m : List (String × String)) (db : Db) → Fits db → Fits (zrem_all V m db)
  unfolding zrem_all
  Fits-zrem_all [] db h = h
  Fits-zrem_all ((lease, key) ∷ m) db h =
      Fits-zrem_all m (zrem key lease db) (Fits-zrem key lease db h)

  room_left :
      (k : String) (limit : ℕ) (db : Db)
      → (k ≢ j) ⊎ (limit ≤ n)
      → leb limit (length (members_of (view db k))) ≡ false
      → (k ≢ j) ⊎ (length (members_of (view db j)) < n)
  room_left k limit db (inl other) h = inl other
  room_left k limit db (inr low) h = elim (Bool-cases (str_eq k j)) [
    | inl same ↦
        let k_is_j : k ≡ j = (eq_iff k j).0 same in
        let there : length (members_of (view db k)) ≡ length (members_of (view db j)) =
          ap (λ x. length (members_of (view db x))) k_is_j in
        inr (ground (arith, there))
    | inr other ↦ inl (λ e. ground (arith, eq_iff k j, e))
  ]

  Fits-concurrency_acquire_script :
      (k : String) (request : Option String) (lease : String) (now expires limit : ℕ) (db : Db)
      → (k ≢ j) ⊎ (limit ≤ n)
      → Fits db
      → Fits (concurrency_acquire_script V k request lease now expires limit db).1
  unfolding concurrency_acquire_script expire_with_latest_lease
  Fits-concurrency_acquire_script k request lease now expires limit db low h =
      let pruned : Db = zremrangebyscore k now db in
      let fits : Fits pruned = Fits-zremrangebyscore k now db h in
      elim (Bool-cases (valkey_has_write_capacity V db)) [
        | inr full ↦ rw full h
        | inl room ↦ elim (Bool-cases (leb limit (length (members_of (view pruned k))))) [
          | inl busy ↦ rw (room, busy) (Fits-expire_with_latest_lease k now pruned fits)
          | inr free ↦
              rw (room, free)
                (Fits-associate request lease k now expires _ (
                  Fits-expire_with_latest_lease k now (zadd k expires lease pruned)
                    (Fits-zadd k lease expires pruned fits (room_left k limit pruned low free))))
        ]
      ]

  Fits-release : (now : ℕ) (l : Lease) (db : Db) → Fits db → Fits (release V now l db).1
  unfolding release concurrency_release_script
  Fits-release now l db h = elim (Bool-cases l.released) [
    | inl done ↦ rw done h
    | inr first ↦ rw first (
        Fits-expire_with_latest_lease l.redis_key now _ (
          Fits-zrem l.redis_key l.lease_id (zremrangebyscore l.redis_key now db)
            (Fits-zremrangebyscore l.redis_key now db h)))
  ]

  Fits-release_request :
      (request : String) (db : Db) → Fits db → Fits (release_request_concurrency V request db)
  unfolding release_request_concurrency request_concurrency_release_script
  Fits-release_request request db h =
      Fits-del (request_key request) _
        (Fits-zrem_all (current V (fields_of (view db (request_key request)))) db h)

-- Every acquisition on `key` asks for at most `n` leases.
abbrev pub Capped : (V : Valkey) (key : String) (n : ℕ) → List (Event V) → Type 0
Capped V key n [] = Unit {0}
Capped V key n (acquires k limit ttl absolute request lease ∷ es) =
    ((k ≢ key) ⊎ (limit ≤ n)) × Capped V key n es
Capped V key n (_ ∷ es) = Capped V key n es

keys_apart :
    {A : Type 0} (k key : String) → (k ≢ key) ⊎ A → (concurrency_key k ≢ concurrency_key key) ⊎ A
unfolding concurrency_key
keys_apart k key (inl other) = inl (λ e. other (append-cancel "conc:" k key e))
keys_apart k key (inr a) = inr a

-- Whatever acquisitions, releases, finished requests and waits happen, in any order, the set of a key
-- never holds more leases than the highest limit that acquisitions on this key ask for, if it does not
-- at the start.
pub run-bounded :
    (V : Valkey) (key : String) (n : ℕ) (es : List (Event V)) (w : World V)
    → Capped V key n es
    → length (members_of (Valkey.view V w.db (concurrency_key key))) ≤ n
    → length (members_of (Valkey.view V (run V w es).db (concurrency_key key))) ≤ n
unfolding run step acquire_concurrency
run-bounded V key n [] w c h = h
run-bounded V key n (acquires k limit ttl absolute request lease ∷ es) w c h =
    run-bounded V key n es _ c.1 (
      Fits-concurrency_acquire_script V n (concurrency_key key) (concurrency_key k)
        (request_keys V request) lease w.clock (w.clock + max ttl absolute * 1_000) limit w.db
        (keys_apart k key c.0) h)
run-bounded V key n (releases l ∷ es) w c h =
    run-bounded V key n es _ c (Fits-release V n (concurrency_key key) w.clock l w.db h)
run-bounded V key n (finishes request ∷ es) w c h =
    run-bounded V key n es _ c (Fits-release_request V n (concurrency_key key) request w.db h)
run-bounded V key n (waits ms ∷ es) w c h =
    run-bounded V key n es _ c
      (rw (Valkey.view-wait V) (Bounded-age n ms (Valkey.view V w.db (concurrency_key key)) h))
