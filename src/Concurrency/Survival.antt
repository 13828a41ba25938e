-- ===== src/Concurrency/Survival.antt =====
-- src/rate-limit/limiter.ts: the steps of the lease scripts leave a running lease in its set.
use mathlib.Core.Path.{subst}
use confidential_content_pla.Prelude.{
  ℕ, ◌-◌, max, ◌<◌, ◌≡◌, ◌∙◌, ap, sym, ◌≢◌, Option, some, List, [], ◌∷◌, String, eq_iff, arith,
}
use confidential_content_pla.Valkey.{
  Valkey, sorted_set, Item, members_of, change_members, without, above, expire_item, at_key_self,
  at_key_ne,
}
use confidential_content_pla.Concurrency.{latest_score, expire_by, expire_with_latest_lease}
use confidential_content_pla.Concurrency.Scores.{
  score, score-above, score-without, latest_score-above, latest_score-without, Running,
  Running-change,
}

module _ (V : Valkey) (lease : String) (deadline clock : ℕ) (j : String) where
  open V use {
    Db, view, hset, pexpire, del, zadd, zrem, zremrangebyscore, wait, view-hset, view-pexpire,
    view-del, view-zadd, view-zrem, view-zremrangebyscore, view-wait,
  }

  abbrev pub Held : Db → Type 0
  Held db = Running lease deadline clock (view db j)

  abbrev pub moved :
      {i k : Option Item} → k ≡ i → Running lease deadline clock i → Running lease deadline clock k
  moved e = subst (Running lease deadline clock) (sym e)

  Held-expire_by :
      (z y : List (String × ℕ)) (t : Option ℕ) (db : Db)
      → z ≡ y
      → view db j ≡ some (record { value = sorted_set y; ttl = t })
      → score lease y ≡ some deadline
      → Held (expire_by V z j clock db)
  unfolding expire_by
  Held-expire_by [] y t db same e h =
      let none_there : score lease [] ≡ some deadline =
        subst (λ x. score lease x ≡ some deadline) (sym same) h in
      cc none_there
  Held-expire_by (x ∷ z) y t db same e h = record {
    set = y;
    ttl = max 1 (latest_score (x ∷ z) - clock);
    stands =
        view-pexpire j j _ db
        ∙ at_key_self j _ _
        ∙ ap (expire_item (max 1 (latest_score (x ∷ z) - clock))) e;
    listed = h;
    outlives = omega (arith, ap latest_score same);
  }

  pub Held-expire_with_latest_lease :
      (z : List (String × ℕ)) (t : Option ℕ) (db : Db)
      → view db j ≡ some (record { value = sorted_set z; ttl = t })
      → score lease z ≡ some deadline
      → Held (expire_with_latest_lease V j clock db)
  unfolding expire_with_latest_lease
  Held-expire_with_latest_lease z t db e h =
      Held-expire_by (members_of (view db j)) z t db (ap members_of e) e h

  pub Held-zremrangebyscore :
      (db : Db) → clock < deadline → Held db → Held (zremrangebyscore j clock db)
  Held-zremrangebyscore db early h =
      moved (view-zremrangebyscore j j clock db ∙ at_key_self j _ _) (
        Running-change lease deadline clock (above clock) (view db j)
          (λ z e. score-above lease deadline clock z e early) (latest_score-above clock) h)

  pub Held-zrem : (m : String) (db : Db) → m ≢ lease → Held db → Held (zrem j m db)
  Held-zrem m db ne h = moved (view-zrem j j m db ∙ at_key_self j _ _) (
      Running-change lease deadline clock (without m) (view db j)
        (λ z. score-without lease m deadline z ne) (latest_score-without m) h)

  -- Another lease is added, and the time to live set anew.
  pub Held-zadd :
      (m : String) (s : ℕ) (db : Db)
      → m ≢ lease
      → Held db
      → Held (expire_with_latest_lease V j clock (zadd j s m db))
  Held-zadd m s db ne h =
      Held-expire_with_latest_lease ((m, s) ∷ without m h.set) (some h.ttl) (zadd j s m db)
        (view-zadd j j m s db
          ∙ at_key_self j _ _
          ∙ ap (change_members (λ z. (m, s) ∷ without m z)) h.stands)
        (ground (arith, eq_iff m lease, score-without lease m deadline h.set ne h.listed))

  pub Held-prune :
      (db : Db)
      → clock < deadline
      → Held db
      → Held (expire_with_latest_lease V j clock (zremrangebyscore j clock db))
  Held-prune db early h =
      let pruned : Held (zremrangebyscore j clock db) = Held-zremrangebyscore db early h in
      Held-expire_with_latest_lease pruned.set (some pruned.ttl) (zremrangebyscore j clock db)
        pruned.stands pruned.listed

  view-expire_by_ne :
      (z : List (String × ℕ)) (k : String) (now : ℕ) (db : Db)
      → k ≢ j
      → view (expire_by V z k now db) j ≡ view db j
  unfolding expire_by
  view-expire_by_ne [] k now db ne = view-del k j db ∙ at_key_ne k j _ _ ne
  view-expire_by_ne (x ∷ z) k now db ne = view-pexpire k j _ db ∙ at_key_ne k j _ _ ne

  pub view-expire_with_latest_lease_ne :
      (k : String) (now : ℕ) (db : Db)
      → k ≢ j
      → view (expire_with_latest_lease V k now db) j ≡ view db j
  unfolding expire_with_latest_lease
  view-expire_with_latest_lease_ne k now db ne =
      view-expire_by_ne (members_of (view db k)) k now db ne

  pub view-pruned_ne :
      (k : String) (now : ℕ) (db : Db) → k ≢ j → view (zremrangebyscore k now db) j ≡ view db j
  view-pruned_ne k now db ne = view-zremrangebyscore k j now db ∙ at_key_ne k j _ _ ne

  pub view-zadd_ne : (k m : String) (s : ℕ) (db : Db) → k ≢ j → view (zadd k s m db) j ≡ view db j
  view-zadd_ne k m s db ne = view-zadd k j m s db ∙ at_key_ne k j _ _ ne

  pub view-zrem_ne : (k m : String) (db : Db) → k ≢ j → view (zrem k m db) j ≡ view db j
  view-zrem_ne k m db ne = view-zrem k j m db ∙ at_key_ne k j _ _ ne
