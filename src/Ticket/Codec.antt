-- ===== src/Ticket/Codec.antt =====
-- src/inference/tickets.ts: what `issueTicket` writes, `bindingFromHash` reads back.
use confidential_content_pla.Prelude.{
  ◌≡◌, refl, ◌∙◌, ap, ◌≢◌, Option, none, some, Bool, true, false, String, str_eq, eq_iff, default,
  arith,
}
use confidential_content_pla.Numbers.{Numbers}
use confidential_content_pla.Valkey.{is_some}
use confidential_content_pla.Ticket.{
  AccountType, registered, private, AuthType, session, api_key, management_key, connected_app,
  InferenceOperation, chat, embeddings, image, speech, TicketBinding, account_type_text,
  auth_type_text, operation_text, print_bool, read_account_type, read_auth_type, read_operation,
  is_empty, non_empty_or, text_or_null, print_number, number_or_null, limit_or_null,
  positive_or_zero, ticket_fields, binding_from_hash,
}

read_account_type_text : (a : AccountType) → read_account_type (account_type_text a) ≡ a
read_account_type_text registered = refl
read_account_type_text private = refl

read_auth_type_text : (a : AuthType) → read_auth_type (auth_type_text a) ≡ a
read_auth_type_text session = refl
read_auth_type_text api_key = refl
read_auth_type_text management_key = refl
read_auth_type_text connected_app = refl

read_operation_text :
    (o : Option InferenceOperation)
    → is_some o ≡ true
    → some (read_operation (operation_text (default chat o))) ≡ o
read_operation_text none h = cc
read_operation_text (some chat) h = refl
read_operation_text (some embeddings) h = refl
read_operation_text (some image) h = refl
read_operation_text (some speech) h = refl

read-print_bool : (b : Bool) → str_eq (print_bool b) "true" ≡ b
read-print_bool true = refl
read-print_bool false = refl

read-print_flag :
    (o : Option Bool) → is_some o ≡ true → some (str_eq (print_bool (default false o)) "true") ≡ o
read-print_flag none h = cc
read-print_flag (some b) h = ap some (read-print_bool b)

pub is_empty-ne : (s : String) → s ≢ "" → is_empty s ≡ false
is_empty-ne s h = ground (arith, eq_iff s "")

non_empty_or-ne : (d s : String) → s ≢ "" → non_empty_or d s ≡ s
non_empty_or-ne d s h = rw (is_empty-ne s h)

text_or_null-default : (o : Option String) → o ≢ some "" → text_or_null (some (default "" o)) ≡ o
text_or_null-default none h = refl
text_or_null-default (some s) h = rw (is_empty-ne s (λ e. h (ap some e)))

some-default : (o : Option String) → is_some o ≡ true → some (default "" o) ≡ o
some-default none h = cc
some-default (some s) h = refl

module _ (N : Numbers) where
  open N use {Number, zero_number, is_positive_integer, print, read, read-print, print-ne-empty}

  number_or_null-print : (o : Option Number) → number_or_null N (some (print_number N o)) ≡ o
  number_or_null-print none = refl
  number_or_null-print (some n) = rw (is_empty-ne (print n) (print-ne-empty n), read-print n)

  limit_or_null-print : (o : Option Number) → limit_or_null N (some (print_number N o)) ≡ o
  limit_or_null-print none = refl
  limit_or_null-print (some n) = rw (is_empty-ne (print n) (print-ne-empty n), read-print n)

  -- A binding as the control plane makes them: what the encoding would replace by a default is there.
  pub record IsResolved (b : TicketBinding Number) : Type 0 where
    pub api_key_id : b.api_key_id ≢ some ""
    pub connected_grant_id : b.connected_grant_id ≢ some ""
    pub operation : is_some b.operation ≡ true
    pub canonical_model_id : b.canonical_model_id ≢ ""
    pub context_window :
        some (positive_or_zero N (default zero_number b.context_window)) ≡ b.context_window
    pub provider_policy_key : b.provider_policy_key ≢ ""
    pub provider_policy_json : b.provider_policy_json ≢ ""
    pub image_response_format : b.image_response_format ≢ some ""
    pub speech_voice : b.speech_voice ≢ some ""
    pub speech_response_format : b.speech_response_format ≢ some ""
    pub reasoning_key : b.reasoning_key ≢ ""
    pub trial : is_some b.trial ≡ true
    pub trial_pool : is_some b.trial_pool ≡ true
    pub pool_contract_missed : is_some b.pool_contract_missed ≡ true
    pub trial_pool_model : is_some b.trial_pool_model ≡ true
    pub trial_pool_provider : is_some b.trial_pool_provider ≡ true
    pub trial_pool_privacy : is_some b.trial_pool_privacy ≡ true
    pub trial_contract_missed : is_some b.trial_contract_missed ≡ true

  -- Reading the fields that are written for a resolved binding gives that binding back, every field of
  -- it, whatever the fallback policy is.
  pub binding_from_hash-ticket_fields :
      (auto_key auto_json : String) (b : TicketBinding Number)
      → IsResolved b
      → binding_from_hash N auto_key auto_json (ticket_fields N b) ≡ b
  unfolding binding_from_hash ticket_fields
  binding_from_hash-ticket_fields auto_key auto_json b r i = record {
    account_id = b.account_id;
    account_type = read_account_type_text b.account_type i;
    auth_type = read_auth_type_text b.auth_type i;
    api_key_id = text_or_null-default b.api_key_id r.api_key_id i;
    api_key_credit_limit_usd = limit_or_null-print b.api_key_credit_limit_usd i;
    connected_grant_id = text_or_null-default b.connected_grant_id r.connected_grant_id i;
    operation = read_operation_text b.operation r.operation i;
    provider_name = b.provider_name;
    public_model_id = b.public_model_id;
    canonical_model_id =
        non_empty_or-ne b.public_model_id b.canonical_model_id r.canonical_model_id i;
    requested_model = b.requested_model;
    privacy_class = b.privacy_class;
    context_window =
        (ap (λ n. some (positive_or_zero N n)) (read-print (default zero_number b.context_window))
            ∙ r.context_window)
          i;
    provider_policy_key = non_empty_or-ne auto_key b.provider_policy_key r.provider_policy_key i;
    provider_policy_json =
        non_empty_or-ne auto_json b.provider_policy_json r.provider_policy_json i;
    e2ee = read-print_bool b.e2ee i;
    max_output_tokens = number_or_null-print b.max_output_tokens i;
    max_output_tokens_explicit = read-print_bool b.max_output_tokens_explicit i;
    image_width = number_or_null-print b.image_width i;
    image_height = number_or_null-print b.image_height i;
    image_response_format = text_or_null-default b.image_response_format r.image_response_format i;
    speech_character_count = number_or_null-print b.speech_character_count i;
    speech_voice = text_or_null-default b.speech_voice r.speech_voice i;
    speech_response_format =
        text_or_null-default b.speech_response_format r.speech_response_format i;
    reasoning_key = non_empty_or-ne "default" b.reasoning_key r.reasoning_key i;
    plan_json = b.plan_json;
    routing_preferences_json = b.routing_preferences_json;
    trial = read-print_flag b.trial r.trial i;
    trial_pool = read-print_flag b.trial_pool r.trial_pool i;
    pool_contract_missed = read-print_flag b.pool_contract_missed r.pool_contract_missed i;
    trial_pool_model = some-default b.trial_pool_model r.trial_pool_model i;
    trial_pool_provider = some-default b.trial_pool_provider r.trial_pool_provider i;
    trial_pool_privacy = some-default b.trial_pool_privacy r.trial_pool_privacy i;
    trial_contract_missed = read-print_flag b.trial_contract_missed r.trial_contract_missed i;
  }
