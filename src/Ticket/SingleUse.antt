-- ===== src/Ticket/SingleUse.antt =====
-- src/inference/tickets.ts: a ticket is redeemed at most once, whatever else runs in between. Scripts
-- are atomic, so an interleaving of clients is a sequence of steps.
use confidential_content_pla.Prelude.{
  ℕ, ◌*◌, ◌≡◌, refl, ◌≢◌, none, List, [], ◌∷◌, String, append-cancel,
}
use confidential_content_pla.Numbers.{Numbers}
use confidential_content_pla.Valkey.{Valkey}
use confidential_content_pla.Ticket.{TicketBinding}
use confidential_content_pla.Ticket.Store.{
  ticket_key, redeem_script, issue_ticket, redeem_ticket, consume_ticket, consume_ticket_into_state,
  read_redeemed,
}
use confidential_content_pla.Ticket.Closing.{
  Closed, Closed-age, consume_cases, consume_into_cases, issue_cases, Closed-del, Closed-set_px_nx,
  view-issued_ne, redeem-Closed, redeem-closes, redeem-refuses,
}

module _ (V : Valkey) (N : Numbers) (auto_key auto_json : String) where
  open N use {Number}
  open V use {
    Db, view, wait, hset, pexpire, del, set_px_nx, view-hset, view-pexpire, view-del,
    view-set_px_nx, view-wait,
  }

  -- A step of some client, or of the clock.
  pub data Event : Type 0 where
    issues : String → TicketBinding Number → Event
    redeems : String → Event
    consumes : String → Event
    moves : (id destination value : String) → ℕ → Event
    waits : ℕ → Event

  unfoldable pub apply : Event → Db → Db
  apply (issues id b) db = (issue_ticket V N id b db).1
  apply (redeems id) db = (redeem_ticket V N auto_key auto_json id db).1
  apply (consumes id) db = consume_ticket V id db
  apply (moves id destination value s) db =
      (consume_ticket_into_state V id destination value s db).1
  apply (waits ms) db = wait ms db

  unfoldable pub run : List Event → Db → Db
  run [] db = db
  run (e ∷ es) db = run es (apply e db)

  abbrev pub NeverIssues : String → List Event → Type 0
  NeverIssues id [] = Unit {0}
  NeverIssues id (issues i b ∷ es) = (i ≢ id) × NeverIssues id es
  NeverIssues id (_ ∷ es) = NeverIssues id es

  key-ne : (i id : String) → i ≢ id → ticket_key i ≢ ticket_key id
  unfolding ticket_key
  key-ne i id h e = h (append-cancel "tkt:" i id e)

  apply-Closed :
      (id : String) (e : Event) (es : List Event) (db : Db)
      → NeverIssues id (e ∷ es)
      → Closed (view db (ticket_key id))
      → Closed (view (apply e db) (ticket_key id))
  unfolding apply issue_ticket redeem_ticket consume_ticket consume_ticket_into_state
  apply-Closed id (issues i b) es db n h =
      issue_cases V (λ d. Closed (view d (ticket_key id))) (ticket_key i) _ db h
        (rw (view-issued_ne V (ticket_key i) (ticket_key id) _ (30 * 1_000) db (key-ne i id n.0)) h)
  apply-Closed id (redeems i) es db n h = redeem-Closed V (ticket_key i) (ticket_key id) db h
  apply-Closed id (consumes i) es db n h =
      consume_cases V (λ d. Closed (view d (ticket_key id))) (ticket_key i) db h
        (Closed-del V (ticket_key i) (ticket_key id) db h)
  apply-Closed id (moves i d v s) es db n h =
      consume_into_cases V (λ x. Closed (view x (ticket_key id))) (ticket_key i) d v s db h
        (Closed-del V (ticket_key i) (ticket_key id) _
          (Closed-set_px_nx V d (ticket_key id) v (s * 1_000) db h))
  apply-Closed id (waits ms) es db n h = rw view-wait (Closed-age ms (view db (ticket_key id)) h)

  NeverIssues-tail :
      (id : String) (e : Event) (es : List Event) → NeverIssues id (e ∷ es) → NeverIssues id es
  NeverIssues-tail id (issues i b) es n = n.1
  NeverIssues-tail id (redeems i) es n = n
  NeverIssues-tail id (consumes i) es n = n
  NeverIssues-tail id (moves i d v s) es n = n
  NeverIssues-tail id (waits ms) es n = n

  run-Closed :
      (id : String) (es : List Event) (db : Db)
      → NeverIssues id es
      → Closed (view db (ticket_key id))
      → Closed (view (run es db) (ticket_key id))
  unfolding run
  run-Closed id [] db n h = h
  run-Closed id (e ∷ es) db n h =
      run-Closed id es (apply e db) (NeverIssues-tail id e es n) (apply-Closed id e es db n h)

  -- Once a ticket's id has been offered for redemption, successfully or not, no later attempt succeeds
  -- or changes anything, whatever steps run in between (redemptions, consumptions, moves, issues of
  -- other ids, time), unless the id is issued again.
  pub redeem_once :
      (id : String) (es : List Event) (db : Db)
      → NeverIssues id es
      → let later = run es (redeem_ticket V N auto_key auto_json id db).1 in
        redeem_ticket V N auto_key auto_json id later ≡ (none, later)
  unfolding redeem_ticket read_redeemed
  redeem_once id es db n =
      let k : String = ticket_key id in
      let closed = run-Closed id es (redeem_script V k db).1 n (redeem-closes V k db) in
      rw (redeem-refuses V k (run es (redeem_script V k db).1) closed) refl
