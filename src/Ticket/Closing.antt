-- ===== src/Ticket/Closing.antt =====
-- src/inference/tickets.ts: keys at which nobody can redeem, and that the scripts leave them so.
use confidential_content_pla.Prelude.{
  ℕ, ◌*◌, ◌≡◌, refl, ◌∙◌, ◌≢◌, inl, inr, Option, none, some, Bool, false, List, [], ◌∷◌, String,
  str_eq, last_lookup, last_lookup-append, leb, Bool-cases,
}
use confidential_content_pla.Valkey.{
  Valkey, Value, hash, text, sorted_set, Item, fields_of, hash_fields, is_some, age, age_ttl,
  at_key, write_hash, extend, expire_item, set_item, at_key_self, at_key_ne,
  valkey_has_write_capacity,
}
use confidential_content_pla.Ticket.Store.{
  text_is, has_status, exists, issue_script, redeem_script, consume_script,
  consume_into_state_script,
}

abbrev pub item_status : String → Option Item → Bool
item_status s i = text_is s (last_lookup "status" (fields_of i))

-- Nobody can redeem what stands here.
abbrev pub Closed : Option Item → Type 0
Closed i = item_status "issued" i ≡ false

Closed-at_key : (k j : String) (x y : Option Item) → Closed x → Closed y → Closed (at_key k j x y)
Closed-at_key k j x y hx hy = elim (Bool-cases (str_eq k j)) [
  | inl same ↦ rw same hx
  | inr other ↦ rw other hy
]

Closed-redeemed : (i : Option Item) → Closed (write_hash (("status", "redeemed") ∷ []) i)
Closed-redeemed none = refl
Closed-redeemed (some i) = extended i.value
  where
    extended :
        (v : Value)
        → text_is "issued"
            (last_lookup "status" (hash_fields (extend (("status", "redeemed") ∷ []) v)))
          ≡ false
    extended (hash m) = rw (last_lookup-append "status" m (("status", "redeemed") ∷ [])) refl
    extended (text s) = refl
    extended (sorted_set z) = refl

Closed-expire : (ms : ℕ) (i : Option Item) → Closed i → Closed (expire_item ms i)
Closed-expire ms none h = refl
Closed-expire ms (some i) h = h

Closed-set : (v : String) (ms : ℕ) (i : Option Item) → Closed i → Closed (set_item v ms i)
Closed-set v ms none h = refl
Closed-set v ms (some i) h = h

pub Closed-age : (ms : ℕ) (i : Option Item) → Closed i → Closed (age ms i)
Closed-age ms none h = refl
Closed-age ms (some i) h = aged i.ttl
  where
    aged : (t : Option ℕ) → Closed (age_ttl ms i.value t)
    aged none = h
    aged (some t) = elim (Bool-cases (leb t ms)) [
      | inl over ↦ rw over refl
      | inr early ↦ rw early h
    ]

Closed-none : (i : Option Item) → is_some i ≡ false → Closed i
Closed-none none h = refl
Closed-none (some i) h = cc

-- What each script leaves at any key, by the ways in which it can end.
module _ (V : Valkey) where
  open V use {
    Db, view, wait, hset, pexpire, del, set_px_nx, view-hset, view-pexpire, view-del,
    view-set_px_nx, view-wait,
  }

  abbrev pub mark_redeemed : String → Db → Db
  mark_redeemed k db = pexpire k 60_000 (hset k (("status", "redeemed") ∷ []) db)

  redeem_cases :
      (P : Db → Type 0) (k : String) (db : Db)
      → P db
      → P (mark_redeemed k db)
      → P (redeem_script V k db).1
  unfolding redeem_script
  redeem_cases P k db same marked = elim (Bool-cases (exists V db k)) [
    | inr missing ↦ rw missing same
    | inl there ↦ elim (Bool-cases (has_status V "issued" db k)) [
      | inl issued ↦ rw (there, issued) marked
      | inr other ↦ rw (there, other) same
    ]
  ]

  pub consume_cases :
      (P : Db → Type 0) (k : String) (db : Db) → P db → P (del k db) → P (consume_script V k db)
  unfolding consume_script
  consume_cases P k db same deleted = elim (Bool-cases (exists V db k)) [
    | inr missing ↦ rw missing same
    | inl there ↦ elim (Bool-cases (has_status V "redeemed" db k)) [
      | inl redeemed ↦ rw (there, redeemed) deleted
      | inr other ↦ rw (there, other) same
    ]
  ]

  pub consume_into_cases :
      (P : Db → Type 0) (k d v : String) (s : ℕ) (db : Db)
      → P db
      → P (del k (set_px_nx d v (s * 1_000) db))
      → P (consume_into_state_script V k d v s db).1
  unfolding consume_into_state_script
  consume_into_cases P k d v s db same moved = elim (Bool-cases (valkey_has_write_capacity V db)) [
    | inr full ↦ rw full same
    | inl room ↦ elim (Bool-cases (has_status V "redeemed" db k)) [
      | inr other ↦ rw (room, other) same
      | inl redeemed ↦ elim (Bool-cases (exists V db d)) [
        | inl taken ↦ rw (room, redeemed, taken) same
        | inr free ↦ rw (room, redeemed, free) moved
      ]
    ]
  ]

  pub issue_cases :
      (P : Db → Type 0) (k : String) (fields : List (String × String)) (db : Db)
      → P db
      → P (pexpire k (30 * 1_000) (hset k fields db))
      → P (issue_script V k fields db).1
  unfolding issue_script
  issue_cases P k fields db same written = elim (Bool-cases (valkey_has_write_capacity V db)) [
    | inl room ↦ rw room written
    | inr full ↦ rw full same
  ]

  Closed-pexpire :
      (k j : String) (ms : ℕ) (db : Db) → Closed (view db j) → Closed (view (pexpire k ms db) j)
  Closed-pexpire k j ms db h = rw view-pexpire (
      Closed-at_key k j (expire_item ms (view db j)) (view db j) (Closed-expire ms (view db j) h) h)

  Closed-hset :
      (k j : String) (db : Db)
      → Closed (view db j)
      → Closed (view (hset k (("status", "redeemed") ∷ []) db) j)
  Closed-hset k j db h = rw view-hset (
      Closed-at_key k j (write_hash (("status", "redeemed") ∷ []) (view db j)) (view db j)
        (Closed-redeemed (view db j)) h)

  pub Closed-del : (k j : String) (db : Db) → Closed (view db j) → Closed (view (del k db) j)
  Closed-del k j db h = rw view-del (Closed-at_key k j none (view db j) refl h)

  pub Closed-set_px_nx :
      (k j v : String) (ms : ℕ) (db : Db)
      → Closed (view db j)
      → Closed (view (set_px_nx k v ms db) j)
  Closed-set_px_nx k j v ms db h =
      rw view-set_px_nx (
        Closed-at_key k j (set_item v ms (view db j)) (view db j) (Closed-set v ms (view db j) h) h)

  pub view-issued_ne :
      (k j : String) (fields : List (String × String)) (ms : ℕ) (db : Db)
      → k ≢ j
      → view (pexpire k ms (hset k fields db)) j ≡ view db j
  view-issued_ne k j fields ms db h =
      view-pexpire k j ms (hset k fields db)
      ∙ at_key_ne k j _ _ h
      ∙ view-hset k j fields db
      ∙ at_key_ne k j _ _ h

  pub redeem-Closed :
      (k j : String) (db : Db) → Closed (view db j) → Closed (view (redeem_script V k db).1 j)
  redeem-Closed k j db h =
      redeem_cases (λ d. Closed (view d j)) k db h
        (Closed-pexpire k j 60_000 (hset k (("status", "redeemed") ∷ []) db) (Closed-hset k j db h))

  -- The redeem script closes its own key, whether it succeeds or not.
  pub redeem-closes : (k : String) (db : Db) → Closed (view (redeem_script V k db).1 k)
  unfolding redeem_script
  redeem-closes k db = elim (Bool-cases (exists V db k)) [
    | inr missing ↦ rw missing (Closed-none (view db k) missing)
    | inl there ↦ elim (Bool-cases (has_status V "issued" db k)) [
      | inl issued ↦
          rw (there, issued)
            (rw (view-pexpire, at_key_self, view-hset, at_key_self)
              (Closed-expire 60_000 (write_hash (("status", "redeemed") ∷ []) (view db k))
                (Closed-redeemed (view db k))))
      | inr other ↦ rw (there, other) other
    ]
  ]

  pub redeem-refuses : (k : String) (db : Db) → Closed (view db k) → redeem_script V k db ≡ ([], db)
  unfolding redeem_script
  redeem-refuses k db h = elim (Bool-cases (exists V db k)) [
    | inr missing ↦ rw missing refl
    | inl there ↦ rw (there, h) refl
  ]
