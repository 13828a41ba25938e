-- ===== src/Concurrency/Effects.antt =====
-- src/rate-limit/limiter.ts: what the lease scripts decide and leave in the set of a key.
use confidential_content_pla.Prelude.{
  ℕ, ◌+◌, ◌-◌, ◌*◌, max, ◌≡◌, refl, ◌∙◌, ap, inl, inr, Option, none, some, true, false, not, List,
  [], ◌∷◌, String, str_eq, leb, length, ok, err, if◌then◌else◌, Bool-cases, ◌≢◌,
}
use confidential_content_pla.Valkey.{
  Valkey, members_of, without, above, at_key_self, at_key_ne, valkey_has_write_capacity,
}
use confidential_content_pla.Concurrency.{
  protection_state_unavailable, concurrency_limited, latest_score, concurrency_key, request_key,
  Lease, expire_by, expire_with_latest_lease, associate, concurrency_acquire_script,
  concurrency_release_script, acquire_concurrency, request_keys,
}
use confidential_content_pla.Concurrency.Items.{
  members-change, members-expire, members-change_set, is_set, is_set-change, key-ne-request_key,
}

module _ (V : Valkey) where
  open V use {
    Db, view, hset, pexpire, del, zadd, zrem, zremrangebyscore, view-hset, view-pexpire, view-del,
    view-zadd, view-zrem, view-zremrangebyscore,
  }

  abbrev pub members : Db → String → List (String × ℕ)
  members db key = members_of (view db key)

  pub members-zremrangebyscore :
      (key : String) (limit : ℕ) (db : Db)
      → members (zremrangebyscore key limit db) key ≡ above limit (members db key)
  members-zremrangebyscore key limit db =
      rw (view-zremrangebyscore, at_key_self) (members-change (above limit) (view db key) refl)

  pub members-zrem :
      (key m : String) (db : Db) → members (zrem key m db) key ≡ without m (members db key)
  members-zrem key m db =
      rw (view-zrem, at_key_self) (members-change (without m) (view db key) refl)

  expire_by-members :
      (z : List (String × ℕ)) (key : String) (now : ℕ) (db : Db)
      → members db key ≡ z
      → members (expire_by V z key now db) key ≡ z
  unfolding expire_by
  expire_by-members [] key now db e = rw (view-del, at_key_self) refl
  expire_by-members (x ∷ z) key now db e =
      rw (view-pexpire, at_key_self)
        (members-expire (max 1 (latest_score (x ∷ z) - now)) (view db key) ∙ e)

  pub members-expire_with_latest_lease :
      (key : String) (now : ℕ) (db : Db)
      → members (expire_with_latest_lease V key now db) key ≡ members db key
  unfolding expire_with_latest_lease
  members-expire_with_latest_lease key now db = expire_by-members (members db key) key now db refl

  -- Releasing takes the lease out of its set along with the leases that are over, and leaves the others.
  pub members-concurrency_release_script :
      (key lease : String) (now : ℕ) (db : Db)
      → members (concurrency_release_script V key lease now db) key
        ≡ without lease (above now (members db key))
  unfolding concurrency_release_script
  members-concurrency_release_script key lease now db =
      members-expire_with_latest_lease key now (zrem key lease (zremrangebyscore key now db))
      ∙ members-zrem key lease (zremrangebyscore key now db)
      ∙ ap (without lease) (members-zremrangebyscore key now db)

  members-zadd :
      (key m : String) (s : ℕ) (db : Db)
      → is_set (view db key) ≡ true
      → members (zadd key s m db) key ≡ (m, s) ∷ without m (members db key)
  members-zadd key m s db h =
      rw (view-zadd, at_key_self) (members-change_set (λ z. (m, s) ∷ without m z) (view db key) h)

  pub view-associate :
      (request : Option String) (lease key j : String) (now expires : ℕ) (db : Db)
      → request ≢ some j
      → view (associate V request lease key now expires db) j ≡ view db j
  unfolding associate
  view-associate none lease key j now expires db h = refl
  view-associate (some r) lease key j now expires db h =
      let other : r ≢ j = λ e. h (ap some e) in
      view-pexpire r j _ (hset r ((lease, key) ∷ []) db)
      ∙ at_key_ne r j _ _ other
      ∙ view-hset r j ((lease, key) ∷ []) db
      ∙ at_key_ne r j _ _ other

  pub request_keys-ne :
      (request : Option String) (key : String) → request_keys V request ≢ some (concurrency_key key)
  request_keys-ne none key h = cc h
  request_keys-ne (some id) key h = elim (Bool-cases (str_eq id "")) [
    | inl empty ↦ let no : none ≡ some (concurrency_key key) = rw empty at h in cc no
    | inr full ↦
        let same : some (request_key id) ≡ some (concurrency_key key) = rw full at h in
        key-ne-request_key key id (cc same)
  ]

  abbrev pub lease_at : (key lease : String) → Lease
  lease_at key lease = record {
    redis_key = concurrency_key key;
    lease_id = lease;
    released = false;
  }

  members-granted :
      (request : Option String) (key lease : String) (now deadline : ℕ) (db : Db)
      → request ≢ some key
      → is_set (view db key) ≡ true
      → members
          (associate V request lease key now deadline (
            expire_with_latest_lease V key now
              (zadd key deadline lease (zremrangebyscore key now db))))
          key
        ≡ (lease, deadline) ∷ without lease (above now (members db key))
  members-granted request key lease now deadline db ne h =
      let pruned : Db = zremrangebyscore key now db in
      let still_set : is_set (view pruned key) ≡ true =
        rw (view-zremrangebyscore, at_key_self) (is_set-change (above now) (view db key) h) in
      ap members_of (view-associate request lease key key now deadline _ ne)
      ∙ members-expire_with_latest_lease key now (zadd key deadline lease pruned)
      ∙ members-zadd key lease deadline pruned still_set
      ∙ ap (λ z. (lease, deadline) ∷ without lease z) (members-zremrangebyscore key now db)

  -- At a key of leases: without room to write, an acquisition is refused and leaves the set as it is.
  -- Else it succeeds exactly if
  -- fewer leases than the limit are still running; the set then holds these and the new lease with its
  -- deadline. Otherwise it fails and only drops the leases that are over.
  pub acquire_concurrency_lem :
      (key : String) (limit ttl absolute : ℕ) (request : Option String) (lease : String)
      (start now : ℕ) (db : Db)
      → is_set (view db (concurrency_key key)) ≡ true
      → let running = above now (members db (concurrency_key key)) in
        let (result, after) =
          acquire_concurrency V key limit ttl absolute request lease start now db in
        (result ≡ (
          if not (valkey_has_write_capacity V db)
          then err protection_state_unavailable
          else if leb limit (length running)
          then err concurrency_limited
          else ok (lease_at key lease)))
        × (members after (concurrency_key key) ≡ (
            if not (valkey_has_write_capacity V db)
            then members db (concurrency_key key)
            else if leb limit (length running)
            then running
            else (lease, start + max ttl absolute * 1_000) ∷ without lease running))
  unfolding acquire_concurrency concurrency_acquire_script expire_with_latest_lease
  acquire_concurrency_lem key limit ttl absolute request lease start now db h =
      let k : String = concurrency_key key in
      let pruned : Db = zremrangebyscore k now db in
      let seen : members pruned k ≡ above now (members db k) = members-zremrangebyscore k now db in
      elim (Bool-cases (valkey_has_write_capacity V db)) [
        | inr full ↦ rw full (refl, refl)
        | inl room ↦ elim (Bool-cases (leb limit (length (above now (members db k))))) [
          | inl busy ↦
              let stop : leb limit (length (members pruned k)) ≡ true = rw seen busy in
              rw (room, stop, busy) (refl, members-expire_with_latest_lease k now pruned ∙ seen)
          | inr free ↦
              let go : leb limit (length (members pruned k)) ≡ false = rw seen free in
              rw (room, go, free)
                (
                  refl,
                  members-granted (request_keys V request) k lease now
                      (start + max ttl absolute * 1_000) db (request_keys-ne request key) h,
                )
        ]
      ]
