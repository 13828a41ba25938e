-- ===== src/Concurrency/Scripts.antt =====
-- src/rate-limit/limiter.ts: each whole script leaves a running lease in its set.
use mathlib.Core.Path.{subst}
use confidential_content_pla.Prelude.{
  ℕ, ◌<◌, ◌≡◌, refl, ◌∙◌, sym, ◌≢◌, ◌⊎◌, inl, inr, Option, some, true, List, [], ◌∷◌, String,
  str_eq, eq_iff, eq_refl, leb, length, arith, Bool-cases,
}
use confidential_content_pla.Valkey.{
  Valkey, members_of, without, above, at_key_self, valkey_has_write_capacity,
}
use confidential_content_pla.Concurrency.{
  acquired, limited, no_capacity, expire_with_latest_lease, associate, concurrency_acquire_script,
  concurrency_release_script, zrem_all,
}
use confidential_content_pla.Concurrency.Items.{is_set, is_set-change}
use confidential_content_pla.Concurrency.Effects.{view-associate}
use confidential_content_pla.Concurrency.Scores.{change-add, Unnamed}
use confidential_content_pla.Concurrency.Survival.{
  Held, moved, Held-expire_with_latest_lease, Held-zremrangebyscore, Held-zrem, Held-zadd,
  Held-prune, view-expire_with_latest_lease_ne, view-pruned_ne, view-zadd_ne, view-zrem_ne,
}

module _ (V : Valkey) (lease : String) (deadline clock : ℕ) (j : String) where
  open V use {
    Db, view, hset, pexpire, del, zadd, zrem, zremrangebyscore, wait, view-hset, view-pexpire,
    view-del, view-zadd, view-zrem, view-zremrangebyscore, view-wait,
  }

  acquire_cases :
      (P : Db → Type 0) (k : String) (request : Option String) (m : String) (now expires limit : ℕ)
      (db : Db)
      → P db
      → P (expire_with_latest_lease V k now (zremrangebyscore k now db))
      → P (
          associate V request m k now expires
            (expire_with_latest_lease V k now (zadd k expires m (zremrangebyscore k now db))))
      → P (concurrency_acquire_script V k request m now expires limit db).1
  unfolding concurrency_acquire_script expire_with_latest_lease
  acquire_cases P k request m now expires limit db same pruned granted =
      elim (Bool-cases (valkey_has_write_capacity V db)) [
        | inr full ↦ rw full same
        | inl room ↦
            elim (Bool-cases
              (leb limit (length (members_of (view (zremrangebyscore k now db) k))))) [
                | inl busy ↦ rw (room, busy) pruned
                | inr free ↦ rw (room, free) granted
              ]
      ]

  Held-acquire_self :
      (request : Option String) (m : String) (expires limit : ℕ) (db : Db)
      → request ≢ some j
      → m ≢ lease
      → clock < deadline
      → Held V lease deadline clock j db
      → Held V lease deadline clock j
          (concurrency_acquire_script V j request m clock expires limit db).1
  Held-acquire_self request m expires limit db apart ne early h =
      acquire_cases (Held V lease deadline clock j) j request m clock expires limit db h
        (Held-prune V lease deadline clock j db early h)
        (moved V lease deadline clock j (view-associate V request m j j clock expires _ apart) (
          Held-zadd V lease deadline clock j m expires (zremrangebyscore j clock db) ne
            (Held-zremrangebyscore V lease deadline clock j db early h)))

  Held-acquire_other :
      (k : String) (request : Option String) (m : String) (expires limit : ℕ) (db : Db)
      → request ≢ some j
      → k ≢ j
      → Held V lease deadline clock j db
      → Held V lease deadline clock j
          (concurrency_acquire_script V k request m clock expires limit db).1
  Held-acquire_other k request m expires limit db apart ne h =
      acquire_cases (Held V lease deadline clock j) k request m clock expires limit db h
        (moved V lease deadline clock j
          (view-expire_with_latest_lease_ne V lease deadline clock j k clock _ ne
            ∙ view-pruned_ne V lease deadline clock j k clock db ne)
          h)
        (moved V lease deadline clock j
          (view-associate V request m k j clock expires _ apart
            ∙ view-expire_with_latest_lease_ne V lease deadline clock j k clock _ ne
            ∙ view-zadd_ne V lease deadline clock j k m expires _ ne
            ∙ view-pruned_ne V lease deadline clock j k clock db ne)
          h)

  key_cases : (k : String) → (k ≡ j) ⊎ (k ≢ j)
  key_cases k = elim (Bool-cases (str_eq k j)) [
    | inl same ↦ inl ((eq_iff k j).0 same)
    | inr other ↦ inr (λ e. ground (arith, eq_iff k j, e))
  ]

  pub Held-acquire_script :
      (k : String) (request : Option String) (m : String) (expires limit : ℕ) (db : Db)
      → request ≢ some j
      → (k ≢ j) ⊎ (m ≢ lease)
      → clock < deadline
      → Held V lease deadline clock j db
      → Held V lease deadline clock j
          (concurrency_acquire_script V k request m clock expires limit db).1
  Held-acquire_script k request m expires limit db apart (inl ne) early h =
      Held-acquire_other k request m expires limit db apart ne h
  Held-acquire_script k request m expires limit db apart (inr ne) early h = elim (key_cases k) [
    | inr other ↦ Held-acquire_other k request m expires limit db apart other h
    | inl same ↦
        subst
          (λ x.
            Held V lease deadline clock j
              (concurrency_acquire_script V x request m clock expires limit db).1)
          (sym same) (Held-acquire_self request m expires limit db apart ne early h)
  ]

  Held-release_self :
      (m : String) (db : Db)
      → m ≢ lease
      → clock < deadline
      → Held V lease deadline clock j db
      → Held V lease deadline clock j (concurrency_release_script V j m clock db)
  unfolding concurrency_release_script
  Held-release_self m db ne early h =
      let left : Held V lease deadline clock j (zrem j m (zremrangebyscore j clock db)) =
        Held-zrem V lease deadline clock j m (zremrangebyscore j clock db) ne
          (Held-zremrangebyscore V lease deadline clock j db early h) in
      Held-expire_with_latest_lease V lease deadline clock j left.set (some left.ttl) _ left.stands
        left.listed

  Held-release_other :
      (k m : String) (db : Db)
      → k ≢ j
      → Held V lease deadline clock j db
      → Held V lease deadline clock j (concurrency_release_script V k m clock db)
  unfolding concurrency_release_script
  Held-release_other k m db ne h =
      moved V lease deadline clock j
        (view-expire_with_latest_lease_ne V lease deadline clock j k clock _ ne
          ∙ view-zrem_ne V lease deadline clock j k m (zremrangebyscore k clock db) ne
          ∙ view-pruned_ne V lease deadline clock j k clock db ne)
        h

  pub Held-release_script :
      (k m : String) (db : Db)
      → (k ≢ j) ⊎ (m ≢ lease)
      → clock < deadline
      → Held V lease deadline clock j db
      → Held V lease deadline clock j (concurrency_release_script V k m clock db)
  Held-release_script k m db (inl ne) early h = Held-release_other k m db ne h
  Held-release_script k m db (inr ne) early h = elim (key_cases k) [
    | inr other ↦ Held-release_other k m db other h
    | inl same ↦
        subst (λ x. Held V lease deadline clock j (concurrency_release_script V x m clock db))
          (sym same) (Held-release_self m db ne early h)
  ]

  Held-zrem_any :
      (k m : String) (db : Db)
      → (k ≢ j) ⊎ (m ≢ lease)
      → Held V lease deadline clock j db
      → Held V lease deadline clock j (zrem k m db)
  Held-zrem_any k m db (inl ne) h =
      moved V lease deadline clock j (view-zrem_ne V lease deadline clock j k m db ne) h
  Held-zrem_any k m db (inr ne) h = elim (key_cases k) [
    | inr other ↦
        moved V lease deadline clock j (view-zrem_ne V lease deadline clock j k m db other) h
    | inl same ↦
        subst (λ x. Held V lease deadline clock j (zrem x m db)) (sym same)
          (Held-zrem V lease deadline clock j m db ne h)
  ]

  pub Held-zrem_all :
      (pairs : List (String × String)) (db : Db)
      → Unnamed lease j pairs
      → Held V lease deadline clock j db
      → Held V lease deadline clock j (zrem_all V pairs db)
  unfolding zrem_all
  Held-zrem_all [] db u h = h
  Held-zrem_all ((m, k) ∷ pairs) db u h =
      Held-zrem_all pairs (zrem k m db) u.1 (Held-zrem_any k m db u.0 h)

  -- A lease that is granted stands in the set.
  pub Held-granted :
      (request : Option String) (limit : ℕ) (db : Db)
      → request ≢ some j
      → is_set (view db j) ≡ true
      → (concurrency_acquire_script V j request lease clock deadline limit db).0 ≡ acquired
      → Held V lease deadline clock j
          (concurrency_acquire_script V j request lease clock deadline limit db).1
  unfolding concurrency_acquire_script expire_with_latest_lease
  Held-granted request limit db apart h e =
      let pruned : Db = zremrangebyscore j clock db in
      let still_set : is_set (view pruned j) ≡ true =
        rw (view-zremrangebyscore, at_key_self) (is_set-change (above clock) (view db j) h) in
      let (t, added) = change-add lease deadline (view pruned j) still_set in
      let held : Held V lease deadline clock j
          (expire_with_latest_lease V j clock (zadd j deadline lease pruned)) =
        Held-expire_with_latest_lease V lease deadline clock j
          ((lease, deadline) ∷ without lease (members_of (view pruned j))) t
          (zadd j deadline lease pruned)
          (view-zadd j j lease deadline pruned ∙ at_key_self j _ _ ∙ added)
          (rw (eq_refl lease) refl) in
      elim (Bool-cases (valkey_has_write_capacity V db)) [
        | inr full ↦ let no : no_capacity ≡ acquired = rw full at e in cc no
        | inl room ↦ elim (Bool-cases (leb limit (length (members_of (view pruned j))))) [
          | inl busy ↦ let no : limited ≡ acquired = rw (room, busy) at e in cc no
          | inr free ↦
              rw (room, free)
                (moved V lease deadline clock j
                  (view-associate V request lease j j clock deadline _ apart) held)
        ]
      ]
