-- ===== src/Capabilities/Decisions.antt =====
-- src/credentials/consumedCapabilities.ts: what `consume` decides to write: the new entry, and the old ones
-- that are not past their grace.
use mathlib.Core.Path.{subst}
use confidential_content_pla.Prelude.{
  ℕ, ◌+◌, ◌*◌, ◌<◌, ◌≡◌, refl, sym, ap, ◌∙◌, Option, none, some, true, false, List, [], ◌∷◌, ◌++◌,
  String, ltb, leb, lt→ltb, ltb→lt, ok, >>=-eq-ok, guard, eq_refl, length, select, Member,
  Member-append_left, Member-append_last, Member-select, Bool-cases, inl, inr, arith,
}
use confidential_content_pla.Prelude.Values.{Number, safe_natural, max_safe_integer}
use confidential_content_pla.Capabilities.{
  ConsumedEntry, unavailable, max_entries, retention_grace_ms, is_capability_id, decide, is_used,
  is_retained, found, Outcome,
}
use confidential_content_pla.Capabilities.Entries.{
  IsEntry, IsLog, IsLog-added, guard-true, found-safe,
}

-- The list has an entry for the capability that expires then.
abbrev pub Kept : String → ℕ → List ConsumedEntry → Type 0
Kept id x es = (e : ConsumedEntry) × Member e es × (e.capability_id ≡ id) × (e.expires_at_ms ≡ x)

pub Kept-used :
    (id : String) (x : ℕ) (es : List ConsumedEntry) → Kept id x es → is_used id es ≡ true
Kept-used id x [] (e, m, i, t) = absurd m
Kept-used id x (d ∷ es) (e, inl same, i, t) =
    let e1 : d.capability_id ≡ id = ap (λ (c : ConsumedEntry). c.capability_id) (sym same) ∙ i in
    rw (e1, eq_refl id)
Kept-used id x (d ∷ es) (e, inr m, i, t) = ground (arith, Kept-used id x es (e, m, i, t))

-- What `decide` has found out when there is something to write.
record Decided (es : List ConsumedEntry) (id : String) (s n : Number) (after : List ConsumedEntry)
    : Type 0 where
  seconds : ℕ
  time : ℕ
  seconds_safe : safe_natural s ≡ some seconds
  time_safe : safe_natural n ≡ some time
  unused : is_used id es ≡ false
  valid :
      IsEntry
        (record { capability_id = id; consumed_at_ms = time; expires_at_ms = seconds * 1_000 })
  room : length (select (is_retained time) es) < max_entries
  result :
      select (is_retained time) es
        ++ record { capability_id = id; consumed_at_ms = time; expires_at_ms = seconds * 1_000 }
          ∷ []
      ≡ after

nothing_written :
    (after : List ConsumedEntry)
    → ◌≡◌ {A = Outcome (Option (List ConsumedEntry))} (ok none) (ok (some after))
    → ⊥
nothing_written after h = ground arith

found-some : (o : Option ℕ) (t : ℕ) → found o ≡ ok t → o ≡ some t
found-some none t h = cc h
found-some (some u) t h = cc h

safe_natural-small : (n : Number) (t : ℕ) → safe_natural n ≡ some t → leb t max_safe_integer ≡ true
safe_natural-small n t h = found-safe n t (ap found h)

decide-Decided :
    (es : List ConsumedEntry) (id : String) (s n : Number) (after : List ConsumedEntry)
    → decide es id s n ≡ ok (some after)
    → Decided es id s n after
unfolding decide
decide-Decided es id s n after h = elim (Bool-cases (is_used id es)) [
  | inl used ↦ absurd (nothing_written after (rw used at h))
  | inr unused ↦
      let h0 = rw unused at h in
      let (u1, valid, h1) = >>=-eq-ok (guard (is_capability_id id) unavailable) _ h0 in
      let (seconds, s1, h2) = >>=-eq-ok (found (safe_natural s)) _ h1 in
      let (u3, bound, h3) =
        >>=-eq-ok (guard (leb (seconds * 1_000) max_safe_integer) unavailable) _ h2 in
      let (time, t1, h4) = >>=-eq-ok (found (safe_natural n)) _ h3 in
      let (u5, room, h5) =
        >>=-eq-ok (guard (ltb (length (select (is_retained time) es)) max_entries) unavailable) _
          h4 in
      record {
        seconds = seconds;
        time = time;
        seconds_safe = found-some (safe_natural s) seconds s1;
        time_safe = found-some (safe_natural n) time t1;
        unused = unused;
        valid = (
          guard-true (is_capability_id id) unavailable u1 valid,
          safe_natural-small n time (found-some (safe_natural n) time t1),
          guard-true _ unavailable u3 bound,
        );
        room = ltb→lt _ max_entries (guard-true _ unavailable u5 room);
        result = cc h5;
      }
]

-- Writing is deciding well.
pub decide-IsLog :
    (es : List ConsumedEntry) (id : String) (s n : Number) (after : List ConsumedEntry)
    → IsLog es
    → decide es id s n ≡ ok (some after)
    → IsLog after
decide-IsLog es id s n after l h =
    let d = decide-Decided es id s n after h in
    subst IsLog d.result (IsLog-added es (is_retained d.time) _ l d.valid d.unused d.room)

-- The new entry is there.
pub decide-Kept :
    (es : List ConsumedEntry) (id : String) (s n : Number) (after : List ConsumedEntry)
    (seconds : ℕ)
    → decide es id s n ≡ ok (some after)
    → safe_natural s ≡ some seconds
    → Kept id (seconds * 1_000) after
decide-Kept es id s n after seconds h e =
    let d = decide-Decided es id s n after h in
    let same : d.seconds ≡ seconds = cc (d.seconds_safe, e) in
    subst (Kept id (seconds * 1_000)) d.result (
      record { capability_id = id; consumed_at_ms = d.time; expires_at_ms = d.seconds * 1_000 },
      Member-append_last _ (select (is_retained d.time) es),
      refl,
      ap (λ (k : ℕ). k * 1_000) same,
    )

-- It is not yet past the expiry and the grace, if it is a time at all.
abbrev pub IsEarly : (expiry : ℕ) → Number → Type 0
IsEarly x n = (t : ℕ) → safe_natural n ≡ some t → t < x + retention_grace_ms

-- And an older entry stays while it is early.
pub decide-stays :
    (es : List ConsumedEntry) (id i : String) (x : ℕ) (s n : Number) (after : List ConsumedEntry)
    → decide es i s n ≡ ok (some after)
    → IsEarly x n
    → Kept id x es
    → Kept id x after
decide-stays es id i x s n after h early (e, m, same, t) =
    let d = decide-Decided es i s n after h in
    let before : is_retained d.time e ≡ true =
      lt→ltb _ _
        (subst (λ k. d.time < k + retention_grace_ms) (sym t) (early d.time d.time_safe)) in
    subst (Kept id x) d.result (
      e,
      Member-append_left e (select (is_retained d.time) es) _
          (Member-select (is_retained d.time) e es before m),
      same,
      t,
    )
