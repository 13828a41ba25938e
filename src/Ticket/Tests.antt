-- ===== src/Ticket/Tests.antt =====
-- src/inference/tickets.ts: one ticket, with the database in memory.
use confidential_content_pla.Prelude.{
  ◌≡◌, refl, ◌≢◌, none, some, true, false, List, [], ◌∷◌, ok, arith,
}
use confidential_content_pla.Numbers.Counting.{Count, whole, is_positive, counting}
use confidential_content_pla.Valkey.{Valkey, valkey_has_write_capacity}
use confidential_content_pla.Valkey.Memory.{Memory, memory, empty_memory}
use confidential_content_pla.Ticket.{
  TicketBinding, registered, session, chat, ticket_fields, binding_from_hash,
}
use confidential_content_pla.Ticket.Codec.{IsResolved, binding_from_hash-ticket_fields}
use confidential_content_pla.Ticket.Store.{issue_ticket, redeem_ticket}
use confidential_content_pla.Ticket.Lifecycle.{redeem-issue, redeem-expired}
use confidential_content_pla.Ticket.SingleUse.{Event, redeems, consumes, waits, run, redeem_once}

abbrev booked : TicketBinding Count
booked = record {
  account_id = "acct";
  account_type = registered;
  auth_type = session;
  api_key_id = none;
  api_key_credit_limit_usd = some (whole 3);
  connected_grant_id = none;
  operation = some chat;
  provider_name = "venice";
  public_model_id = "m";
  canonical_model_id = "m";
  requested_model = "m";
  privacy_class = "private";
  context_window = some (whole 2);
  provider_policy_key = "auto";
  provider_policy_json = "{}";
  e2ee = true;
  max_output_tokens = some (whole 0);
  max_output_tokens_explicit = false;
  image_width = none;
  image_height = none;
  image_response_format = none;
  speech_character_count = none;
  speech_voice = some "v";
  speech_response_format = none;
  reasoning_key = "default";
  plan_json = "{}";
  routing_preferences_json = "{}";
  trial = some false;
  trial_pool = some true;
  pool_contract_missed = some false;
  trial_pool_model = some "";
  trial_pool_provider = some "p";
  trial_pool_privacy = some "";
  trial_contract_missed = some false;
}

booked-IsResolved : IsResolved counting booked
unfolding is_positive
booked-IsResolved = record {
  api_key_id = λ h. cc h;
  connected_grant_id = λ h. cc h;
  operation = refl;
  canonical_model_id = λ h. cc h;
  context_window = refl;
  provider_policy_key = λ h. cc h;
  provider_policy_json = λ h. cc h;
  image_response_format = λ h. cc h;
  speech_voice = λ h. cc h;
  speech_response_format = λ h. cc h;
  reasoning_key = λ h. cc h;
  trial = refl;
  trial_pool = refl;
  pool_contract_missed = refl;
  trial_pool_model = refl;
  trial_pool_provider = refl;
  trial_pool_privacy = refl;
  trial_contract_missed = refl;
}

has_account : booked.account_id ≢ ""
has_account h = cc h

round_trip_example : binding_from_hash counting "auto" "{}" (ticket_fields counting booked) ≡ booked
round_trip_example = binding_from_hash-ticket_fields counting "auto" "{}" booked booked-IsResolved

redeem-issue_example :
    ((issue_ticket memory counting "t1" booked empty_memory).0 ≡ ok "t1")
    × ((redeem_ticket memory counting "auto" "{}" "t1"
          (Valkey.wait memory 29_999 (issue_ticket memory counting "t1" booked empty_memory).1)).0
        ≡ some booked)
unfolding valkey_has_write_capacity
redeem-issue_example =
    redeem-issue memory counting "auto" "{}" "t1" booked empty_memory 29_999 booked-IsResolved
      has_account refl refl (omega arith)

redeem-expired_example :
    redeem_ticket memory counting "auto" "{}" "t1"
      (Valkey.wait memory 30_000 (issue_ticket memory counting "t1" booked empty_memory).1)
    ≡ (none, Valkey.wait memory 30_000 (issue_ticket memory counting "t1" booked empty_memory).1)
unfolding valkey_has_write_capacity
redeem-expired_example =
    redeem-expired memory counting "auto" "{}" "t1" booked empty_memory 30_000 refl refl
      (omega arith)

abbrev meanwhile : List (Event memory counting "auto" "{}")
meanwhile = redeems "t1" ∷ waits 5 ∷ consumes "t2" ∷ []

abbrev issued : Memory
issued = (issue_ticket memory counting "t1" booked empty_memory).1

abbrev offered : Memory
offered = (redeem_ticket memory counting "auto" "{}" "t1" issued).1

redeem_once_example :
    redeem_ticket memory counting "auto" "{}" "t1"
      (run memory counting "auto" "{}" meanwhile offered)
    ≡ (none, run memory counting "auto" "{}" meanwhile offered)
redeem_once_example = redeem_once memory counting "auto" "{}" "t1" meanwhile issued tt
