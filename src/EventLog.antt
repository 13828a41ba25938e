-- ===== src/EventLog.antt =====
-- src/gateway/eventLog.ts: the replay of a log of measured events into the registers of a TDX quote. The
-- hash is a parameter, as is JSON.parse of bytes; an event's type is an integer.
pub mod Hex
pub mod Utf8
pub mod Replay
pub mod Commitment
pub mod Payloads
mod Tests
use Prim.Native.Char.{Char, code}
use confidential_content_pla.Prelude.{
  ℕ, zero, suc, ◌+◌, ◌-◌, ◌*◌, ◌/◌, ◌%◌, ◌^◌, ◌≡◌, Option, none, some, Bool, true, false, not, ◌&&◌,
  ◌||◌, List, [], ◌∷◌, ◌++◌, String, str_eq, ◌==◌, ltb, leb, if◌then◌else◌, default, Result, ok,
  err, ◌>>=◌, ◌>>◌, guard, map, select, length, to_lower_case, starts_with, All,
}
use confidential_content_pla.Prelude.Int.{ℤ, pos, negsuc, is_negative}
use confidential_content_pla.Prelude.Values.{
  Number, integer, no_integer, Json, null, boolean, number, string, array, object, Items, Fields,
  get_field,
}

abbrev pub Bytes : Type 0
Bytes = List ℕ

-- SHA-384: 48 bytes of any text.
pub record Sha384 : Type 0 where
  pub hash : Bytes → Bytes
  pub hash_length : (bs : Bytes) → length (hash bs) ≡ 48
  pub hash_bytes : (bs : Bytes) → All (λ b. ltb b 256 ≡ true) (hash bs)

pub record DstackEventLogEntry : Type 0 where
  pub imr : ℕ
  pub event_type : ℤ
  pub digest : String
  pub event : String
  pub event_payload : String
  pub preimage : Option String

pub data EventLogError : Type 0 where
  repeated not_in_rtmr3 not_committed : EventLogError

-- The value of a hexadecimal digit of either case.
abbrev pub hex_value : ℕ → Option ℕ
hex_value c =
    if leb b'0' c && leb c b'9'
    then some (c - 48)
    else if leb b'a' c && leb c b'f'
    then some (c - 87)
    else if leb b'A' c && leb c b'F'
    then some (c - 55)
    else none

abbrev pub with_pair : Option ℕ → Option ℕ → Bytes → Bytes
with_pair (some high) (some low) rest = (16 * high + low) ∷ rest
with_pair _ _ rest = []

-- `Buffer.from(text, "hex")`, which ends at the first pair that is no byte.
unfoldable pub from_hex : String → Bytes
from_hex (String.◌∷◌ c (String.◌∷◌ d s)) =
    with_pair (hex_value (code c)) (hex_value (code d)) (from_hex s)
from_hex (String.◌∷◌ c String.[]) = []
from_hex String.[] = []

abbrev pub hex_character : ℕ → Char
hex_character n =
    if n == 0
    then "0"
    else if n == 1
    then "1"
    else if n == 2
    then "2"
    else if n == 3
    then "3"
    else if n == 4
    then "4"
    else if n == 5
    then "5"
    else if n == 6
    then "6"
    else if n == 7
    then "7"
    else if n == 8
    then "8"
    else if n == 9
    then "9"
    else if n == 10
    then "a"
    else if n == 11
    then "b"
    else if n == 12
    then "c"
    else if n == 13
    then "d"
    else if n == 14
    then "e"
    else "f"

-- `buffer.toString("hex")`
unfoldable pub to_hex : Bytes → String
to_hex [] = String.[]
to_hex (b ∷ bs) =
    String.◌∷◌ (hex_character (b / 16)) (String.◌∷◌ (hex_character (b % 16)) (to_hex bs))

-- The UTF-8 bytes of a code point, and of a text.
abbrev pub utf8_of : ℕ → Bytes → Bytes
utf8_of c rest =
    if ltb c 128
    then c ∷ rest
    else if ltb c 2_048
    then (192 + c / 64) ∷ (128 + c % 64) ∷ rest
    else if ltb c 65_536
    then (224 + c / 4_096) ∷ (128 + c / 64 % 64) ∷ (128 + c % 64) ∷ rest
    else (240 + c / 262_144) ∷ (128 + c / 4_096 % 64) ∷ (128 + c / 64 % 64) ∷ (128 + c % 64) ∷ rest

unfoldable pub utf8 : String → Bytes
utf8 String.[] = []
utf8 (String.◌∷◌ c s) = utf8_of (code c) (utf8 s)

abbrev pub zeros : ℕ → Bytes
zeros zero = []
zeros (suc n) = 0 ∷ zeros n

abbrev pub digest_bytes : ℕ
digest_bytes = 48

-- `RTMR_INITIAL_VALUE`, as the bytes that its 96 digits say.
unfoldable pub rtmr_initial_value : Bytes
rtmr_initial_value = zeros digest_bytes

-- `Buffer.concat([content, Buffer.alloc(48 - content.length, 0)])`
unfoldable pub pad : Bytes → Bytes
pad content = content ++ zeros (digest_bytes - length content)

-- `event.event_type >>> 0`
abbrev pub to_uint32 : ℤ → ℕ
to_uint32 (pos n) = n % 2 ^ 32
to_uint32 (negsuc n) = 2 ^ 32 - 1 - n % 2 ^ 32

abbrev pub little_endian : ℕ → Bytes
little_endian n = n % 256 ∷ n / 256 % 256 ∷ n / 65_536 % 256 ∷ n / 16_777_216 % 256 ∷ []

-- `^[0-9a-f]*$`
abbrev pub is_lower_hex : String → Bool
is_lower_hex String.[] = true
is_lower_hex (String.◌∷◌ c s) =
    ((leb b'0' (code c) && leb (code c) b'9') || (leb b'a' (code c) && leb (code c) b'f'))
    && is_lower_hex s

abbrev pub is_even : String → Bool
is_even String.[] = true
is_even (String.◌∷◌ c String.[]) = false
is_even (String.◌∷◌ c (String.◌∷◌ d s)) = is_even s

abbrev pub is_clean_hex : String → Bool
is_clean_hex s = is_lower_hex s && is_even s

-- `text.replace(/^0x/, "")`
abbrev pub without_0x : String → String
without_0x (String.◌∷◌ c (String.◌∷◌ d s)) =
    if code c == b'0' && code d == b'x' then s else String.◌∷◌ c (String.◌∷◌ d s)
without_0x s = s

abbrev pub same_integer : ℤ → ℤ → Bool
same_integer (pos m) (pos n) = m == n
same_integer (negsuc m) (negsuc n) = m == n
same_integer _ _ = false

-- `record.name === event.event`, and the like for the payload and the type.
abbrev pub says_text : Option Json → String → Bool
says_text (some (string s)) t = str_eq s t
says_text _ t = false

abbrev pub says_payload : Option Json → String → Bool
says_payload (some (string s)) t = str_eq (without_0x (to_lower_case s)) (without_0x t)
says_payload _ t = false

abbrev pub says_type : Option Json → ℤ → Bool
says_type none t = true
says_type (some (number (integer n))) t = same_integer n t
says_type _ t = false

abbrev pub says_event : Option Json → DstackEventLogEntry → Bool
says_event (some (object record_)) e =
    says_text (get_field "name" record_) e.event
    && (says_payload (get_field "payload" record_) e.event_payload
        && says_type (get_field "type" record_) e.event_type)
says_event _ e = false

module _ (sha : Sha384) where
  open sha use {hash}

  -- The loop of `replayRegister`, on the bytes of the register and of the digests.
  unfoldable pub extend : Bytes → List Bytes → Bytes
  extend register [] = register
  extend register (content ∷ rest) = extend (hash (register ++ content)) rest

  unfoldable pub replay_register : List String → String
  unfolding extend from_hex to_hex pad rtmr_initial_value
  replay_register digests = to_hex (extend rtmr_initial_value (map (λ d. pad (from_hex d)) digests))

  unfoldable pub v1_bytes : DstackEventLogEntry → Bytes
  unfolding utf8 from_hex
  v1_bytes e =
      little_endian (to_uint32 e.event_type)
      ++ (b':' ∷ (utf8 e.event ++ (b':' ∷ from_hex e.event_payload)))

  unfoldable pub compute_rtmr3_event_digest_v1 : DstackEventLogEntry → String
  unfolding v1_bytes to_hex
  compute_rtmr3_event_digest_v1 e = to_hex (hash (v1_bytes e))

  module _ (parse_json : Bytes → Option Json) where
    abbrev pub v2_consistent : String → DstackEventLogEntry → Bool
    v2_consistent preimage e =
        is_clean_hex preimage
        && (not (str_eq preimage "")
            && (str_eq (to_hex (hash (from_hex preimage))) e.digest
                && says_event (parse_json (from_hex preimage)) e))

    unfoldable pub v2_digest_is_self_consistent : DstackEventLogEntry → Bool
    unfolding from_hex to_hex to_lower_case
    v2_digest_is_self_consistent e = elim e.preimage [
      | none ↦ false
      | some preimage ↦ v2_consistent preimage e
    ]

    abbrev pub derive : Option String → DstackEventLogEntry → Option String
    derive (some preimage) e = if v2_digest_is_self_consistent e then some e.digest else none
    derive none e =
        if is_negative e.event_type then none else some (compute_rtmr3_event_digest_v1 e)

    unfoldable pub rtmr3_event_digest : DstackEventLogEntry → Option String
    unfolding v2_digest_is_self_consistent compute_rtmr3_event_digest_v1
    rtmr3_event_digest e = if is_clean_hex e.event_payload then derive e.preimage e else none

    abbrev pub agrees : Option String → String → Bool
    agrees none digest = false
    agrees (some derived) digest = str_eq digest "" || str_eq derived digest

    unfoldable pub rtmr3_event_digest_is_self_consistent : DstackEventLogEntry → Bool
    unfolding rtmr3_event_digest
    rtmr3_event_digest_is_self_consistent e = agrees (rtmr3_event_digest e) e.digest

    unfoldable pub inconsistent_rtmr3_events : List DstackEventLogEntry → List DstackEventLogEntry
    unfolding rtmr3_event_digest_is_self_consistent
    inconsistent_rtmr3_events =
        select
          (λ (e : DstackEventLogEntry). e.imr == 3 && not (rtmr3_event_digest_is_self_consistent e))

    -- `"ff".repeat(48)`
    unfoldable pub unhashable : String
    unfolding to_hex
    unhashable = to_hex (map (λ (b : ℕ). b + 255) (zeros digest_bytes))

    unfoldable pub replayed_digest : ℕ → DstackEventLogEntry → String
    unfolding rtmr3_event_digest unhashable
    replayed_digest index e =
        if index == 3 then default unhashable (rtmr3_event_digest e) else e.digest

    unfoldable pub replay_rtmr : List DstackEventLogEntry → ℕ → String
    unfolding replay_register replayed_digest
    replay_rtmr events index =
        replay_register (
          map (replayed_digest index) (select (λ (e : DstackEventLogEntry). e.imr == index) events))

    unfoldable pub replay_rtmrs : List DstackEventLogEntry → String × String × String × String
    unfolding replay_rtmr
    replay_rtmrs events =
        (replay_rtmr events 0, replay_rtmr events 1, replay_rtmr events 2, replay_rtmr events 3)

    abbrev pub payload_of : List DstackEventLogEntry → Result EventLogError (Option String)
    payload_of [] = ok none
    payload_of (e ∷ []) = do
      guard (e.imr == 3) not_in_rtmr3
      guard (rtmr3_event_digest_is_self_consistent e) not_committed
      ok (some e.event_payload)
    payload_of (e ∷ f ∷ es) = err repeated

    unfoldable pub single_event_payload :
        List DstackEventLogEntry → (name : String) → Result EventLogError (Option String)
    unfolding rtmr3_event_digest_is_self_consistent
    single_event_payload events name =
        payload_of (select (λ (e : DstackEventLogEntry). str_eq e.event name) events)
