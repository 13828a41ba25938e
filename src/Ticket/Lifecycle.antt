-- ===== src/Ticket/Lifecycle.antt =====
-- src/inference/tickets.ts: a ticket from its issue to its redemption.
use confidential_content_pla.Prelude.{
  ℕ, ◌-◌, ◌≤◌, ◌<◌, ◌≡◌, refl, ◌∙◌, ap, ◌≢◌, Option, none, some, true, false, List, [], ◌∷◌, ◌++◌,
  String, default, arith, if◌then◌else◌, last_lookup, last_lookup-append, ok, leb,
}
use confidential_content_pla.Numbers.{Numbers}
use confidential_content_pla.Valkey.{Valkey, hash, at_key_self, valkey_has_write_capacity}
use confidential_content_pla.Ticket.{TicketBinding, is_empty, ticket_fields, binding_from_hash}
use confidential_content_pla.Ticket.Codec.{IsResolved, binding_from_hash-ticket_fields, is_empty-ne}
use confidential_content_pla.Ticket.Store.{
  ticket_key, flatten_fields, pair_up, parse_hash, issue_script, redeem_script, read_redeemed,
  issue_ticket, redeem_ticket, exists, has_status,
}

pair_up-flatten : (m : List (String × String)) → pair_up (flatten_fields m) ≡ m
pair_up-flatten [] = refl
pair_up-flatten ((f, v) ∷ m) = ap (◌∷◌ (f, v)) (pair_up-flatten m)

binding_from_hash-status :
    (N : Numbers) (auto_key auto_json s : String) (h : List (String × String))
    → binding_from_hash N auto_key auto_json (h ++ ("status", s) ∷ [])
      ≡ binding_from_hash N auto_key auto_json h
unfolding binding_from_hash
binding_from_hash-status N auto_key auto_json s h = simp last_lookup-append

module _ (V : Valkey) where
  open V use {Db, view, wait, hset, pexpire, view-hset, view-pexpire, view-wait}

  -- What stands at the key of a ticket some time after its issue.
  view-issue :
      (k : String) (fields : List (String × String)) (db : Db) (ms : ℕ)
      → valkey_has_write_capacity V db ≡ true
      → view db k ≡ none
      → view (wait ms (issue_script V k fields db).1) k ≡ (
          if leb 30_000 ms
          then none
          else some (record { value = hash fields; ttl = some (30_000 - ms) }))
  unfolding issue_script
  view-issue k fields db ms room free =
      rw (room, view-wait, view-pexpire, at_key_self, view-hset, at_key_self, free)

  after_redeem :
      (k : String) (h : List (String × String)) (t : Option ℕ) (db : Db)
      → view db k ≡ some (record { value = hash h; ttl = t })
      → view (pexpire k 60_000 (hset k (("status", "redeemed") ∷ []) db)) k
        ≡ some (record { value = hash (h ++ ("status", "redeemed") ∷ []); ttl = some 60_000 })
  after_redeem k h t db e = rw (view-pexpire, at_key_self, view-hset, at_key_self, e)

  redeem-issued :
      (k : String) (h : List (String × String)) (t : Option ℕ) (db : Db)
      → view db k ≡ some (record { value = hash h; ttl = t })
      → last_lookup "status" h ≡ some "issued"
      → redeem_script V k db ≡ (
        flatten_fields (h ++ ("status", "redeemed") ∷ []),
        pexpire k 60_000 (hset k (("status", "redeemed") ∷ []) db),
      )
  unfolding redeem_script
  redeem-issued k h t db e s =
      let there : exists V db k ≡ true = rw e refl in
      let issued : has_status V "issued" db k ≡ true = rw e (rw s refl) in
      let now_there = after_redeem k h t db e in rw there (rw issued (rw now_there refl))

  redeem-gone : (k : String) (db : Db) → view db k ≡ none → redeem_script V k db ≡ ([], db)
  unfolding redeem_script
  redeem-gone k db e = rw (e, redeem_script)

module _ (V : Valkey) (N : Numbers) (auto_key auto_json : String) where
  open N use {Number}
  open V use {Db, view, wait}

  parse_hash-flatten :
      (f v : String) (m : List (String × String))
      → parse_hash (flatten_fields ((f, v) ∷ m)) ≡ some ((f, v) ∷ m)
  parse_hash-flatten f v m = ap some (pair_up-flatten ((f, v) ∷ m))

  read_redeemed-some :
      (h : List (String × String))
      → is_empty (default "" (last_lookup "accountId" h)) ≡ false
      → read_redeemed V N auto_key auto_json (some h)
        ≡ some (binding_from_hash N auto_key auto_json h)
  unfolding read_redeemed
  read_redeemed-some h e = rw e

  parse_redeemed :
      (b : TicketBinding Number)
      → IsResolved N b
      → b.account_id ≢ ""
      → read_redeemed V N auto_key auto_json
          (parse_hash (flatten_fields (ticket_fields N b ++ ("status", "redeemed") ∷ [])))
        ≡ some b
  unfolding ticket_fields
  parse_redeemed b r a =
      ap (read_redeemed V N auto_key auto_json) (parse_hash-flatten "accountId" b.account_id _)
      ∙ read_redeemed-some _ (is_empty-ne b.account_id a)
      ∙ ap some (
          binding_from_hash-status N auto_key auto_json "redeemed" (ticket_fields N b)
          ∙ binding_from_hash-ticket_fields N auto_key auto_json b r)

  status-ticket_fields :
      (b : TicketBinding Number) → last_lookup "status" (ticket_fields N b) ≡ some "issued"
  unfolding ticket_fields
  status-ticket_fields b = refl

  issued_ok :
      (k : String) (fields : List (String × String)) (db : Db)
      → valkey_has_write_capacity V db ≡ true
      → (issue_script V k fields db).0 ≡ true
  unfolding issue_script
  issued_ok k fields db room = rw room

  -- With room to write, a ticket issued under a fresh id is redeemed, within its thirty seconds, to the very binding that
  -- was issued, if that binding is resolved and names an account.
  pub redeem-issue :
      (id : String) (b : TicketBinding Number) (db : Db) (ms : ℕ)
      → IsResolved N b
      → b.account_id ≢ ""
      → valkey_has_write_capacity V db ≡ true
      → view db (ticket_key id) ≡ none
      → ms < 30_000
      → ((issue_ticket V N id b db).0 ≡ ok id)
        × ((redeem_ticket V N auto_key auto_json id (wait ms (issue_ticket V N id b db).1)).0
            ≡ some b)
  unfolding issue_ticket redeem_ticket
  redeem-issue id b db ms r a room free early =
      let k : String = ticket_key id in
      let fields : List (String × String) = ticket_fields N b in
      let later : Db = wait ms (issue_script V k fields db).1 in
      let in_time : leb 30_000 ms ≡ false = ground arith in
      let seen : view later k ≡ some (record { value = hash fields; ttl = some (30_000 - ms) }) =
        view-issue V k fields db ms room free ∙ rw in_time refl in
      let redeemed =
        redeem-issued V k fields (some (30_000 - ms)) later seen (status-ticket_fields b) in
      (rw (issued_ok k fields db room) refl, rw redeemed (parse_redeemed b r a))

  -- With room to write, a ticket issued under a fresh id cannot be redeemed once its thirty seconds are over, and the attempt
  -- changes nothing.
  pub redeem-expired :
      (id : String) (b : TicketBinding Number) (db : Db) (ms : ℕ)
      → valkey_has_write_capacity V db ≡ true
      → view db (ticket_key id) ≡ none
      → 30_000 ≤ ms
      → let late = wait ms (issue_ticket V N id b db).1 in
        redeem_ticket V N auto_key auto_json id late ≡ (none, late)
  unfolding issue_ticket redeem_ticket read_redeemed
  redeem-expired id b db ms room free late =
      let k : String = ticket_key id in
      let fields : List (String × String) = ticket_fields N b in
      let over : leb 30_000 ms ≡ true = ground arith in
      let seen : view (wait ms (issue_script V k fields db).1) k ≡ none =
        view-issue V k fields db ms room free ∙ rw over refl in
      rw (redeem-gone V k _ seen) refl
