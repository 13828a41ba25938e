-- ===== src/Ticket/Store.antt =====
-- src/inference/tickets.ts: the four Lua scripts and the functions that run them. The random part of a
-- ticket's id is an argument.
use confidential_content_pla.Prelude.{
  ℕ, ◌*◌, Option, none, some, Bool, true, false, not, List, [], ◌∷◌, String, str_eq, default,
  if◌then◌else◌, last_lookup, ◌^^◌, Result, ok, err,
}
use confidential_content_pla.Numbers.{Numbers}
use confidential_content_pla.Valkey.{Valkey, fields_of, is_some, valkey_has_write_capacity}
use confidential_content_pla.Ticket.{TicketBinding, is_empty, ticket_fields, binding_from_hash}

pub data AppError : Type 0 where
  protection_state_unavailable ticket_not_redeemable : AppError

abbrev pub ticket_ttl_seconds : ℕ
ticket_ttl_seconds = 30

abbrev pub redeemed_ttl_ms : ℕ
redeemed_ttl_ms = 60_000

unfoldable pub ticket_key : String → String
ticket_key id = "tkt:" ^^ id

-- What HGETALL replies: fields and values in turn. A field that was assigned again stands at both
-- assignments here, the later one last, which is the one that `parse_hash` keeps.
abbrev pub flatten_fields : List (String × String) → List String
flatten_fields [] = []
flatten_fields ((f, v) ∷ m) = f ∷ v ∷ flatten_fields m

abbrev pub pair_up : List String → List (String × String)
pair_up (f ∷ v ∷ r) = (f, v) ∷ pair_up r
pair_up _ = []

abbrev pub parse_hash : List String → Option (List (String × String))
parse_hash [] = none
parse_hash (f ∷ r) = some (pair_up (f ∷ r))

abbrev pub text_is : String → Option String → Bool
text_is s none = false
text_is s (some t) = str_eq t s

module _ (V : Valkey) where
  open V use {Db, view, hset, pexpire, del, set_px_nx}

  -- `redis.call('HGET', key, 'status')`
  abbrev pub status_of : Db → String → Option String
  status_of db key = last_lookup "status" (fields_of (view db key))

  abbrev pub has_status : String → Db → String → Bool
  has_status s db key = text_is s (status_of db key)

  abbrev pub exists : Db → String → Bool
  exists db key = is_some (view db key)

  -- `issueScript`: what it returns is 1 or -1.
  unfoldable pub issue_script : String → List (String × String) → Db → Bool × Db
  issue_script key fields db =
      if valkey_has_write_capacity V db
      then (true, pexpire key (ticket_ttl_seconds * 1_000) (hset key fields db))
      else (false, db)

  unfoldable pub redeem_script : String → Db → List String × Db
  redeem_script key db =
      if not (exists db key)
      then ([], db)
      else if not (has_status "issued" db key)
      then ([], db)
      else let db' = pexpire key redeemed_ttl_ms (hset key (("status", "redeemed") ∷ []) db) in
        (flatten_fields (fields_of (view db' key)), db')

  unfoldable pub consume_script : String → Db → Db
  consume_script key db =
      if not (exists db key)
      then db
      else if not (has_status "redeemed" db key)
      then db
      else del key db

  pub data Transition : Type 0 where
    done no_capacity not_redeemed : Transition

  -- The life is positive: `SET` with a life of zero is an error of the service, which is left out.
  unfoldable pub consume_into_state_script :
      (source destination value : String) → ℕ → Db → Transition × Db
  consume_into_state_script source destination value ttl_seconds db =
      if not (valkey_has_write_capacity V db)
      then (no_capacity, db)
      else if not (has_status "redeemed" db source)
      then (not_redeemed, db)
      else if exists db destination
      then (no_capacity, db)
      else (done, del source (set_px_nx destination value (ttl_seconds * 1_000) db))

  unfoldable pub consume_ticket : String → Db → Db
  consume_ticket id = consume_script (ticket_key id)

  transition_result : Transition → Result AppError (Unit {0})
  transition_result done = ok tt
  transition_result no_capacity = err protection_state_unavailable
  transition_result not_redeemed = err ticket_not_redeemable

  unfoldable pub consume_ticket_into_state :
      (id destination value : String) → ℕ → Db → Result AppError (Unit {0}) × Db
  unfolding transition_result
  consume_ticket_into_state id destination value ttl_seconds db =
      let (t, db') = consume_into_state_script (ticket_key id) destination value ttl_seconds db in
      (transition_result t, db')

  module _ (N : Numbers) where
    open N use {Number}

    unfoldable pub issue_ticket : String → TicketBinding Number → Db → Result AppError String × Db
    issue_ticket id b db =
        let (issued, db') = issue_script (ticket_key id) (ticket_fields N b) db in
        (if issued then ok id else err protection_state_unavailable, db')

    -- `if (!hash || !hash.accountId) return null;`
    unfoldable pub read_redeemed :
        (auto_key auto_json : String)
        → Option (List (String × String))
        → Option (TicketBinding Number)
    read_redeemed auto_key auto_json none = none
    read_redeemed auto_key auto_json (some h) =
        if is_empty (default "" (last_lookup "accountId" h))
        then none
        else some (binding_from_hash N auto_key auto_json h)

    unfoldable pub redeem_ticket :
        (auto_key auto_json id : String) → Db → Option (TicketBinding Number) × Db
    redeem_ticket auto_key auto_json id db =
        let (flat, db') = redeem_script (ticket_key id) db in
        (read_redeemed auto_key auto_json (parse_hash flat), db')
