-- ===== src/Ticket.antt =====
-- src/inference/tickets.ts: the binding of a ticket, and its encoding as a Valkey hash. A field that a
-- hash lacks is `undefined` in the source; where the source keeps such a value as a string, the model
-- has the empty text.
pub mod Store
pub mod Codec
pub mod Lifecycle
pub mod Closing
pub mod SingleUse
mod Tests
use confidential_content_pla.Prelude.{
  ◌≡◌, Option, none, some, Bool, true, false, not, ◌&&◌, ◌||◌, List, [], ◌∷◌, String, str_eq,
  default, if◌then◌else◌, last_lookup, ◌^^◌,
}
use confidential_content_pla.Numbers.{Numbers}

pub data AccountType : Type 0 where
  registered private : AccountType

pub data AuthType : Type 0 where
  session api_key management_key connected_app : AuthType

pub data InferenceOperation : Type 0 where
  chat embeddings image speech : InferenceOperation

-- `trial`, `trialPool`, … are optional in the source, and so are the fields with `Option` whose
-- comment says so; the other options are `… | null`.
pub record TicketBinding (Number : Type 0) : Type 0 where
  pub account_id : String
  pub account_type : AccountType
  pub auth_type : AuthType
  pub api_key_id : Option String
  pub api_key_credit_limit_usd : Option Number
  -- optional or null
  pub connected_grant_id : Option String
  -- optional
  pub operation : Option InferenceOperation
  pub provider_name : String
  pub public_model_id : String
  pub canonical_model_id : String
  pub requested_model : String
  pub privacy_class : String
  -- optional
  pub context_window : Option Number
  pub provider_policy_key : String
  pub provider_policy_json : String
  pub e2ee : Bool
  pub max_output_tokens : Option Number
  pub max_output_tokens_explicit : Bool
  pub image_width : Option Number
  pub image_height : Option Number
  pub image_response_format : Option String
  pub speech_character_count : Option Number
  pub speech_voice : Option String
  pub speech_response_format : Option String
  pub reasoning_key : String
  pub plan_json : String
  pub routing_preferences_json : String
  -- optional, from here on
  pub trial : Option Bool
  pub trial_pool : Option Bool
  pub pool_contract_missed : Option Bool
  pub trial_pool_model : Option String
  pub trial_pool_provider : Option String
  pub trial_pool_privacy : Option String
  pub trial_contract_missed : Option Bool

abbrev pub account_type_text : AccountType → String
account_type_text registered = "registered"
account_type_text private = "private"

abbrev pub auth_type_text : AuthType → String
auth_type_text session = "session"
auth_type_text api_key = "api_key"
auth_type_text management_key = "management_key"
auth_type_text connected_app = "connected_app"

abbrev pub operation_text : InferenceOperation → String
operation_text chat = "chat"
operation_text embeddings = "embeddings"
operation_text image = "image"
operation_text speech = "speech"

-- `String(b)`
abbrev pub print_bool : Bool → String
print_bool true = "true"
print_bool false = "false"

abbrev pub read_account_type : String → AccountType
read_account_type s = if str_eq s "private" then private else registered

abbrev pub read_auth_type : String → AuthType
read_auth_type s =
    if str_eq s "api_key"
    then api_key
    else if str_eq s "management_key"
    then management_key
    else if str_eq s "connected_app"
    then connected_app
    else session

abbrev pub read_operation : String → InferenceOperation
read_operation s =
    if str_eq s "embeddings"
    then embeddings
    else if str_eq s "image"
    then image
    else if str_eq s "speech"
    then speech
    else chat

abbrev pub is_empty : String → Bool
is_empty s = str_eq s ""

-- `s || d`
abbrev pub non_empty_or : String → String → String
non_empty_or d s = if is_empty s then d else s

-- `s === "" || s === undefined ? null : s`
abbrev pub text_or_null : Option String → Option String
text_or_null none = none
text_or_null (some s) = if is_empty s then none else some s

module _ (N : Numbers) where
  open N use {Number, nan, zero_number, print, read, is_positive_integer}

  abbrev pub print_number : Option Number → String
  print_number none = ""
  print_number (some n) = print n

  -- `s === "" || s === undefined ? null : Number(s)`
  abbrev pub number_or_null : Option String → Option Number
  number_or_null none = none
  number_or_null (some s) = if is_empty s then none else some (read s)

  -- `s === "" ? null : Number(s)`
  abbrev pub limit_or_null : Option String → Option Number
  limit_or_null none = some nan
  limit_or_null (some s) = if is_empty s then none else some (read s)

  -- `Number(undefined)` is NaN.
  abbrev pub read_number : Option String → Number
  read_number none = nan
  read_number (some s) = read s

  abbrev pub positive_or_zero : Number → Number
  positive_or_zero n = if is_positive_integer n then n else zero_number

  -- The field and value arguments of `issueScript`, the status included.
  unfoldable pub ticket_fields : TicketBinding Number → List (String × String)
  ticket_fields b =
      ("accountId", b.account_id)
      ∷ ("accountType", account_type_text b.account_type)
      ∷ ("authType", auth_type_text b.auth_type)
      ∷ ("apiKeyId", default "" b.api_key_id)
      ∷ ("apiKeyCreditLimitUsd", print_number b.api_key_credit_limit_usd)
      ∷ ("connectedGrantId", default "" b.connected_grant_id)
      ∷ ("operation", operation_text (default chat b.operation))
      ∷ ("providerName", b.provider_name)
      ∷ ("publicModelId", b.public_model_id)
      ∷ ("canonicalModelId", b.canonical_model_id)
      ∷ ("requestedModel", b.requested_model)
      ∷ ("privacyClass", b.privacy_class)
      ∷ ("contextWindow", print (default zero_number b.context_window))
      ∷ ("providerPolicyKey", b.provider_policy_key)
      ∷ ("providerPolicyJson", b.provider_policy_json)
      ∷ ("e2ee", print_bool b.e2ee)
      ∷ ("maxOutputTokens", print_number b.max_output_tokens)
      ∷ ("maxOutputTokensExplicit", print_bool b.max_output_tokens_explicit)
      ∷ ("imageWidth", print_number b.image_width)
      ∷ ("imageHeight", print_number b.image_height)
      ∷ ("imageResponseFormat", default "" b.image_response_format)
      ∷ ("speechCharacterCount", print_number b.speech_character_count)
      ∷ ("speechVoice", default "" b.speech_voice)
      ∷ ("speechResponseFormat", default "" b.speech_response_format)
      ∷ ("reasoningKey", b.reasoning_key)
      ∷ ("planJson", b.plan_json)
      ∷ ("routingPreferencesJson", b.routing_preferences_json)
      ∷ ("trial", print_bool (default false b.trial))
      ∷ ("trialPool", print_bool (default false b.trial_pool))
      ∷ ("poolContractMissed", print_bool (default false b.pool_contract_missed))
      ∷ ("trialPoolModel", default "" b.trial_pool_model)
      ∷ ("trialPoolProvider", default "" b.trial_pool_provider)
      ∷ ("trialPoolPrivacy", default "" b.trial_pool_privacy)
      ∷ ("trialContractMissed", print_bool (default false b.trial_contract_missed))
      ∷ ("status", "issued")
      ∷ []

  -- `explicit === "true" || (explicit === undefined && maxOutputTokens !== "")`
  abbrev pub read_explicit : Option String → Option String → Bool
  read_explicit (some e) tokens = str_eq e "true"
  read_explicit none none = true
  read_explicit none (some t) = not (is_empty t)

  -- `auto_key` and `auto_json` are AUTO_PROVIDER_POLICY_KEY and AUTO_PROVIDER_POLICY_JSON.
  unfoldable pub binding_from_hash :
      (auto_key auto_json : String) → List (String × String) → TicketBinding Number
  binding_from_hash auto_key auto_json h =
      let field = λ (f : String). default "" (last_lookup f h) in
      record {
        account_id = field "accountId";
        account_type = read_account_type (field "accountType");
        auth_type = read_auth_type (field "authType");
        api_key_id = text_or_null (last_lookup "apiKeyId" h);
        api_key_credit_limit_usd = limit_or_null (last_lookup "apiKeyCreditLimitUsd" h);
        connected_grant_id = text_or_null (last_lookup "connectedGrantId" h);
        operation = some (read_operation (field "operation"));
        provider_name = field "providerName";
        public_model_id = field "publicModelId";
        canonical_model_id = non_empty_or (field "publicModelId") (field "canonicalModelId");
        requested_model = default (field "publicModelId") (last_lookup "requestedModel" h);
        privacy_class = field "privacyClass";
        context_window = some (positive_or_zero (read_number (last_lookup "contextWindow" h)));
        provider_policy_key = non_empty_or auto_key (field "providerPolicyKey");
        provider_policy_json = non_empty_or auto_json (field "providerPolicyJson");
        e2ee = str_eq (field "e2ee") "true";
        max_output_tokens = number_or_null (last_lookup "maxOutputTokens" h);
        max_output_tokens_explicit =
            read_explicit (last_lookup "maxOutputTokensExplicit" h)
              (last_lookup "maxOutputTokens" h);
        image_width = number_or_null (last_lookup "imageWidth" h);
        image_height = number_or_null (last_lookup "imageHeight" h);
        image_response_format = text_or_null (last_lookup "imageResponseFormat" h);
        speech_character_count = number_or_null (last_lookup "speechCharacterCount" h);
        speech_voice = text_or_null (last_lookup "speechVoice" h);
        speech_response_format = text_or_null (last_lookup "speechResponseFormat" h);
        reasoning_key = non_empty_or "default" (field "reasoningKey");
        plan_json = default "{}" (last_lookup "planJson" h);
        routing_preferences_json = default "{}" (last_lookup "routingPreferencesJson" h);
        trial = some (str_eq (field "trial") "true");
        trial_pool = some (str_eq (field "trialPool") "true");
        pool_contract_missed = some (str_eq (field "poolContractMissed") "true");
        trial_pool_model = some (field "trialPoolModel");
        trial_pool_provider = some (field "trialPoolProvider");
        trial_pool_privacy = some (field "trialPoolPrivacy");
        trial_contract_missed = some (str_eq (field "trialContractMissed") "true");
      }
