-- ===== src/EventLog/Payloads.antt =====
-- src/gateway/eventLog.ts: the payload that is read for a name is the one that the register measured.
use mathlib.Core.Path.{subst}
use confidential_content_pla.Prelude.{
  ℕ, ◌≡◌, ◌⊎◌, inl, inr, refl, sym, ap, ◌∙◌, Option, some, Bool, true, false, List, [], ◌∷◌, ◌++◌,
  String, ◌==◌, str_eq, select, Result, ok, >>=-eq-ok, guard, All, Member, Member-select,
  Member-selected, Member-map, Member-mapped, arith,
}
use confidential_content_pla.Prelude.Values.{Json}
use confidential_content_pla.EventLog.{
  Bytes, Sha384, DstackEventLogEntry, EventLogError, not_in_rtmr3, not_committed,
  rtmr3_event_digest_is_self_consistent, replay_rtmr, payload_of, single_event_payload,
}
use confidential_content_pla.EventLog.Replay.{Broken}
use confidential_content_pla.EventLog.Commitment.{
  IsV1, measured, rtmr3_entries, replayed_texts, replay-measured,
}

module _ (sha : Sha384) (parse_json : Bytes → Option Json) where
  -- The one entry that was read.
  record Single (es : List DstackEventLogEntry) (name payload : String) : Type 0 where
    entry : DstackEventLogEntry
    only : select (λ (e : DstackEventLogEntry). str_eq e.event name) es ≡ entry ∷ []
    register : (entry.imr == 3) ≡ true
    says : entry.event_payload ≡ payload

  guard-true : (b : Bool) (e : EventLogError) (u : Unit {0}) → guard b e ≡ ok u → b ≡ true
  guard-true true e u h = refl
  guard-true false e u h = cc h

  some-eq :
      (p q : String)
      → ◌≡◌ {A = Result EventLogError (Option String)} (ok (some p)) (ok (some q))
      → p ≡ q
  some-eq p q h = cc h

  payload_of-Single :
      (es found : List DstackEventLogEntry) (name payload : String)
      → select (λ (e : DstackEventLogEntry). str_eq e.event name) es ≡ found
      → payload_of sha parse_json found ≡ ok (some payload)
      → Single es name payload
  payload_of-Single es [] name payload e h = absurd (ground arith)
  payload_of-Single es (f ∷ g ∷ fs) name payload e h = absurd (ground arith)
  payload_of-Single es (f ∷ []) name payload e h =
      let (u, here, h1) = >>=-eq-ok (guard (f.imr == 3) not_in_rtmr3) _ h in
      let (_, _, h2) =
        >>=-eq-ok (guard (rtmr3_event_digest_is_self_consistent sha parse_json f) not_committed) _
          h1 in
      record {
        entry = f;
        only = e;
        register = guard-true (f.imr == 3) not_in_rtmr3 u here;
        says = some-eq f.event_payload payload h2;
      }

  found_in :
      (es : List DstackEventLogEntry) (name payload : String) (s : Single es name payload)
      → Member s.entry (rtmr3_entries sha parse_json es) × (str_eq s.entry.event name ≡ true)
  found_in es name payload s =
      let (listed, named) =
        Member-selected (λ (e : DstackEventLogEntry). str_eq e.event name) s.entry es
          (subst (Member s.entry) (sym s.only) (inl refl)) in
      (Member-select (λ (e : DstackEventLogEntry). e.imr == 3) s.entry es s.register listed, named)

  -- An entry of that name is the one that was read.
  read_entry :
      (es : List DstackEventLogEntry) (name payload : String) (s : Single es name payload)
      (e : DstackEventLogEntry)
      → Member e (rtmr3_entries sha parse_json es)
      → str_eq e.event name ≡ true
      → e.event_payload ≡ payload
  read_entry es name payload s e m n =
      let (listed, _) = Member-selected (λ (f : DstackEventLogEntry). f.imr == 3) e es m in
      let here : Member e (s.entry ∷ []) =
        subst (Member e) s.only
          (Member-select (λ (f : DstackEventLogEntry). str_eq f.event name) e es n listed) in
      elim here [
        | inl same ↦ ap (λ (f : DstackEventLogEntry). f.event_payload) same ∙ s.says
        | inr none_left ↦ absurd none_left
      ]

  -- If two logs replay to one RTMR3 and both give a payload for a name, they give the same payload, or else
  -- of the texts that the two replays hash, two that differ have one hash, or one has as its hash the
  -- initial value of a register. The entries of RTMR3 carry no preimage, have clean payloads and types that
  -- are not negative, and no colon is in a name.
  pub single_event_payload-replay :
      (es fs : List DstackEventLogEntry) (name p q : String)
      → All IsV1 (rtmr3_entries sha parse_json es)
      → All IsV1 (rtmr3_entries sha parse_json fs)
      → replay_rtmr sha parse_json es 3 ≡ replay_rtmr sha parse_json fs 3
      → single_event_payload sha parse_json es name ≡ ok (some p)
      → single_event_payload sha parse_json fs name ≡ ok (some q)
      → (p ≡ q)
        ⊎ Broken sha
            (λ x. Member x (replayed_texts sha parse_json es ++ replayed_texts sha parse_json fs))
  unfolding single_event_payload
  single_event_payload-replay es fs name p q v w h a b =
      elim (replay-measured sha parse_json es fs v w h) [
        | inr broken ↦ inr broken
        | inl same ↦
            let s = payload_of-Single es _ name p refl a in
            let t = payload_of-Single fs _ name q refl b in
            let (here, named) = found_in es name p s in
            let (f, there, e) =
              Member-mapped measured (measured s.entry) (rtmr3_entries sha parse_json fs) (
                subst (Member (measured s.entry)) same
                  (Member-map measured s.entry (rtmr3_entries sha parse_json es) here)) in
            let named' : str_eq f.event name ≡ true =
              ap (λ (m : ℕ × String × String). str_eq m.1 name) (sym e) ∙ named in
            inl (
              sym s.says
              ∙ ap (λ (m : ℕ × String × String). m.2) e
              ∙ read_entry fs name q t f there named')
      ]
