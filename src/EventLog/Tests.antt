-- ===== src/EventLog/Tests.antt =====
-- src/gateway/eventLog.ts: two logs, and what a colon in a name allows.
use confidential_content_pla.Prelude.{
  ℕ, ◌+◌, ◌*◌, ◌%◌, Result, ◌≡◌, ◌⊎◌, refl, Option, none, some, true, List, [], ◌∷◌, ◌++◌, String,
  ok, length, ltb, All, Member, arith,
}
use confidential_content_pla.Prelude.Int.{pos}
use confidential_content_pla.Prelude.Values.{Json}
use confidential_content_pla.EventLog.{
  Bytes, Sha384, DstackEventLogEntry, EventLogError, zeros, replay_rtmr,
  rtmr3_event_digest_is_self_consistent, v1_bytes, single_event_payload,
}
use confidential_content_pla.EventLog.Replay.{Broken}
use confidential_content_pla.EventLog.Commitment.{IsV1, rtmr3_entries, replayed_texts}
use confidential_content_pla.EventLog.Utf8.{Colonless}
use confidential_content_pla.EventLog.Payloads.{single_event_payload-replay}

abbrev sum_of : Bytes → ℕ
sum_of [] = 0
sum_of (b ∷ bs) = b + 3 * sum_of bs

toy_length : (n : ℕ) → length (n % 256 ∷ zeros 47) ≡ 48
toy_length n = refl

toy_bytes : (n : ℕ) → All (λ b. ltb b 256 ≡ true) (n % 256 ∷ zeros 47)
toy_bytes n = ground arith

abbrev toy : Sha384
toy = record {
  hash = λ bs. sum_of bs % 256 ∷ zeros 47;
  hash_length = λ bs. toy_length (sum_of bs);
  hash_bytes = λ bs. toy_bytes (sum_of bs);
}

abbrev no_json : Bytes → Option Json
no_json bs = none

abbrev compose : DstackEventLogEntry
compose = record {
  imr = 3;
  event_type = pos 134_217_729;
  digest = "";
  event = "compose-hash";
  event_payload = "a0ff";
  preimage = none;
}

abbrev boot : DstackEventLogEntry
boot = record compose { imr = 0; digest = "0102"; event = "boot" }

abbrev log : List DstackEventLogEntry
log = boot ∷ compose ∷ []

abbrev payload_read : String → Result EventLogError (Option String)
payload_read p = ok (some p)

compose_read : single_event_payload toy no_json log "compose-hash" ≡ payload_read "a0ff"
unfolding single_event_payload rtmr3_event_digest_is_self_consistent
compose_read = refl

colonless : Colonless "compose-hash"
colonless = (
  refl,
  (refl, (refl, (refl, (refl, (refl, (refl, (refl, (refl, (refl, (refl, (refl, tt))))))))))),
)

compose_V1 : All IsV1 (rtmr3_entries toy no_json log)
compose_V1 = (record { plain = refl; clean = refl; typed = refl; colonless = colonless }, tt)

replays_alike : replay_rtmr toy no_json log 3 ≡ replay_rtmr toy no_json (compose ∷ []) 3
unfolding replay_rtmr
replays_alike = refl

alone_read : single_event_payload toy no_json (compose ∷ []) "compose-hash" ≡ payload_read "a0ff"
unfolding single_event_payload rtmr3_event_digest_is_self_consistent
alone_read = refl

abbrev payload : String
payload = "a0ff"

payload_example :
    (payload ≡ payload)
    ⊎ Broken toy (λ x.
      Member x (replayed_texts toy no_json log ++ replayed_texts toy no_json (compose ∷ [])))
payload_example =
    single_event_payload-replay toy no_json log (compose ∷ []) "compose-hash" payload payload
      compose_V1 compose_V1 replays_alike compose_read alone_read

-- A name with a colon and another name are measured alike.
colon_in_name :
    v1_bytes toy (record compose { event = "compose-hash:a"; event_payload = "" })
    ≡ v1_bytes toy (record compose { event = "compose-hash"; event_payload = "613a" })
unfolding v1_bytes
colon_in_name = refl
