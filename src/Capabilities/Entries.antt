-- ===== src/Capabilities/Entries.antt =====
-- src/credentials/consumedCapabilities.ts: what is written is read again as it was.
use mathlib.Core.Path.{subst}
use confidential_content_pla.Prelude.{
  ℕ, suc, ◌+◌, ◌≤◌, ◌≡◌, refl, sym, ap, ◌∙◌, Option, none, some, Bool, true, false, not, List, [],
  ◌∷◌, ◌++◌, String, str_eq, leb, leb→le, le→leb, ok, >>=-eq-ok, subst_ok, guard, has, Distinct,
  Distinct-append_new, not-repeated, length, length-append, All, All-append, All-select, ◌<◌,
  append_assoc, append-nil, sort_texts, select, Bool-cases, inl, inr, arith,
}
use confidential_content_pla.Prelude.Int.{pos, negsuc}
use confidential_content_pla.Prelude.Values.{
  Number, integer, no_integer, Json, null, boolean, number, string, array, object, Items, nothing,
  item, Fields, max_safe_integer, safe_natural, get_field, field_names, join, count_items,
}
use confidential_content_pla.Capabilities.{
  ConsumedEntry, ConsumedCapabilityLogError, unavailable, max_entries, is_capability_id, as_id,
  as_time, found, parse_fields, parse_entry, parse_items, parse_state, ids, entry_value,
  entry_items, read,
}

abbrev pub IsEntry : ConsumedEntry → Type 0
IsEntry e =
    (is_capability_id e.capability_id ≡ true)
    × (leb e.consumed_at_ms max_safe_integer ≡ true)
    × (leb e.expires_at_ms max_safe_integer ≡ true)

-- What a log may hold.
pub record IsLog (entries : List ConsumedEntry) : Type 0 where
  pub entries_valid : All IsEntry entries
  pub ids_distinct : Distinct (ids entries)
  pub few : length entries ≤ max_entries

pub ids-append : (xs ys : List ConsumedEntry) → ids (xs ++ ys) ≡ ids xs ++ ids ys
ids-append [] ys = refl
ids-append (x ∷ xs) ys = ap (◌∷◌ x.capability_id) (ids-append xs ys)

parse_entry-entry_value :
    (seen : List String) (e : ConsumedEntry)
    → has e.capability_id seen ≡ false
    → IsEntry e
    → parse_entry seen (entry_value e) ≡ ok e
unfolding parse_fields sort_texts
parse_entry-entry_value seen e new v = rw (v.0, new, v.1, v.2)

parse_items-entry_items :
    (es out : List ConsumedEntry)
    → All IsEntry es
    → Distinct (ids (out ++ es))
    → parse_items (entry_items es) out ≡ ok (out ++ es)
unfolding parse_items
parse_items-entry_items [] out v d = rw append-nil
parse_items-entry_items (e ∷ es) out v d =
    let new : has e.capability_id (ids out) ≡ false =
      not-repeated e.capability_id (ids out) (ids es)
        (subst Distinct (ids-append out (e ∷ es)) d) in
    let regroup : (out ++ e ∷ []) ++ es ≡ out ++ e ∷ es = append_assoc out (e ∷ []) es in
    rw (parse_entry-entry_value (ids out) e new v.0) (
      parse_items-entry_items es (out ++ e ∷ []) v.1 (subst (λ t. Distinct (ids t)) (sym regroup) d)
      ∙ ap ok regroup)

count-entry_items : (es : List ConsumedEntry) → count_items (entry_items es) ≡ length es
count-entry_items [] = refl
count-entry_items (e ∷ es) = ap suc (count-entry_items es)

-- A log that is written is read again as it was.
pub parse-entry_items :
    (es : List ConsumedEntry) → IsLog es → parse_state (array (entry_items es)) ≡ ok es
unfolding parse_state
parse-entry_items es l =
    let short : leb (count_items (entry_items es)) max_entries ≡ true =
      le→leb _ max_entries (subst (λ n. n ≤ max_entries) (sym (count-entry_items es)) l.few) in
    rw short (parse_items-entry_items es [] l.entries_valid l.ids_distinct)

pub guard-true :
    (b : Bool) (e : ConsumedCapabilityLogError) (u : Unit {0}) → guard b e ≡ ok u → b ≡ true
guard-true true e u h = refl
guard-true false e u h = cc h

as_id-valid : (o : Option Json) (s : String) → as_id o ≡ ok s → is_capability_id s ≡ true
as_id-valid (some (string t)) s h = ground arith
as_id-valid none s h = cc h
as_id-valid (some null) s h = cc h
as_id-valid (some (boolean b)) s h = cc h
as_id-valid (some (number n)) s h = cc h
as_id-valid (some (array xs)) s h = cc h
as_id-valid (some (object fs)) s h = cc h

pub found-safe :
    (n : Number) (t : ℕ) → found (safe_natural n) ≡ ok t → leb t max_safe_integer ≡ true
found-safe (integer (pos n)) t h = ground arith
found-safe (integer (negsuc n)) t h = cc h
found-safe no_integer t h = cc h

as_time-safe : (o : Option Json) (t : ℕ) → as_time o ≡ ok t → leb t max_safe_integer ≡ true
as_time-safe (some (number n)) t h = found-safe n t h
as_time-safe none t h = cc h
as_time-safe (some null) t h = cc h
as_time-safe (some (boolean b)) t h = cc h
as_time-safe (some (string s)) t h = cc h
as_time-safe (some (array xs)) t h = cc h
as_time-safe (some (object fs)) t h = cc h

abbrev IsNew : List String → ConsumedEntry → Type 0
IsNew seen e = IsEntry e × (has e.capability_id seen ≡ false)

not-true : (b : Bool) → not b ≡ true → b ≡ false
not-true b h = ground arith

parse_fields-IsNew :
    (seen : List String) (entry : Fields) (e : ConsumedEntry)
    → parse_fields seen entry ≡ ok e
    → IsNew seen e
unfolding parse_fields
parse_fields-IsNew seen entry e h =
    let (_, _, h1) =
      >>=-eq-ok
        (guard
          (str_eq (join (sort_texts (field_names entry))) "capabilityId,consumedAtMs,expiresAtMs")
          unavailable)
        _ h in
    let (id, i, h2) = >>=-eq-ok (as_id (get_field "capabilityId" entry)) _ h1 in
    let (_, n, h3) = >>=-eq-ok (guard (not (has id seen)) unavailable) _ h2 in
    let (c, ci, h4) = >>=-eq-ok (as_time (get_field "consumedAtMs" entry)) _ h3 in
    let (x, xi, h5) = >>=-eq-ok (as_time (get_field "expiresAtMs" entry)) _ h4 in
    subst_ok (IsNew seen) (record { capability_id = id; consumed_at_ms = c; expires_at_ms = x }) e
      h5
      (
        (
          as_id-valid (get_field "capabilityId" entry) id i,
          as_time-safe (get_field "consumedAtMs" entry) c ci,
          as_time-safe (get_field "expiresAtMs" entry) x xi,
        ),
        not-true (has id seen) (guard-true _ unavailable _ n),
      )

parse_entry-IsNew :
    (seen : List String) (raw : Json) (e : ConsumedEntry)
    → parse_entry seen raw ≡ ok e
    → IsNew seen e
parse_entry-IsNew seen (object entry) e h = parse_fields-IsNew seen entry e h
parse_entry-IsNew seen null e h = cc h
parse_entry-IsNew seen (boolean b) e h = cc h
parse_entry-IsNew seen (number n) e h = cc h
parse_entry-IsNew seen (string s) e h = cc h
parse_entry-IsNew seen (array xs) e h = cc h

abbrev Parsed : ℕ → List ConsumedEntry → Type 0
Parsed n es = All IsEntry es × Distinct (ids es) × (length es ≡ n)

parse_items-Parsed :
    (raw : Items) (out es : List ConsumedEntry)
    → parse_items raw out ≡ ok es
    → All IsEntry out
    → Distinct (ids out)
    → Parsed (length out + count_items raw) es
unfolding parse_items
parse_items-Parsed nothing out es h v d =
    subst_ok (Parsed (length out + 0)) out es h (v, d, omega arith)
parse_items-Parsed (item j raw) out es h v d =
    let (e, h1, h2) = >>=-eq-ok (parse_entry (ids out) j) _ h in
    let (valid, new) = parse_entry-IsNew (ids out) j e h1 in
    let p =
      parse_items-Parsed raw (out ++ e ∷ []) es h2 (All-append IsEntry out (e ∷ []) v (valid, tt)) (
        subst Distinct (sym (ids-append out (e ∷ [])))
          (Distinct-append_new e.capability_id (ids out) new d)) in
    (p.0, p.1, omega (arith, p.2, length-append out (e ∷ [])))

-- What is read is a log.
parse_state-IsLog :
    (raw : Items) (es : List ConsumedEntry) → parse_state (array raw) ≡ ok es → IsLog es
unfolding parse_state
parse_state-IsLog raw es h =
    let (u, g, h1) = >>=-eq-ok (guard (leb (count_items raw) max_entries) unavailable) _ h in
    let p = parse_items-Parsed raw [] es h1 tt tt in
    record {
      entries_valid = p.0;
      ids_distinct = p.1;
      few = omega (arith, p.2, leb→le (count_items raw) max_entries (guard-true _ unavailable u g));
    }

pub read-IsLog : (content : Option Json) (es : List ConsumedEntry) → read content ≡ ok es → IsLog es
unfolding parse_state
read-IsLog none es h = cc h
read-IsLog (some (array raw)) es h = parse_state-IsLog raw es h
read-IsLog (some null) es h = cc h
read-IsLog (some (boolean b)) es h = cc h
read-IsLog (some (number n)) es h = cc h
read-IsLog (some (string s)) es h = cc h
read-IsLog (some (object fs)) es h = cc h

has-ids-select :
    (s : String) (p : ConsumedEntry → Bool) (es : List ConsumedEntry)
    → has s (ids es) ≡ false
    → has s (ids (select p es)) ≡ false
has-ids-select s p [] h = refl
has-ids-select s p (e ∷ es) h = ground (arith, has-ids-select s p es)

pub Distinct-ids-select :
    (p : ConsumedEntry → Bool) (es : List ConsumedEntry)
    → Distinct (ids es)
    → Distinct (ids (select p es))
Distinct-ids-select p [] d = tt
Distinct-ids-select p (e ∷ es) d = elim (Bool-cases (p e)) [
  | inl stays ↦ rw stays (has-ids-select e.capability_id p es d.0, Distinct-ids-select p es d.1)
  | inr goes ↦ rw goes (Distinct-ids-select p es d.1)
]

-- A new entry after some of the old ones.
pub IsLog-added :
    (es : List ConsumedEntry) (p : ConsumedEntry → Bool) (e : ConsumedEntry)
    → IsLog es
    → IsEntry e
    → has e.capability_id (ids es) ≡ false
    → length (select p es) < max_entries
    → IsLog (select p es ++ e ∷ [])
IsLog-added es p e l v new short = record {
  entries_valid =
      All-append IsEntry (select p es) (e ∷ []) (All-select IsEntry p es l.entries_valid) (v, tt);
  ids_distinct = subst Distinct (sym (ids-append (select p es) (e ∷ []))) (
      Distinct-append_new e.capability_id (ids (select p es))
        (has-ids-select e.capability_id p es new) (Distinct-ids-select p es l.ids_distinct));
  few = omega (arith, length-append (select p es) (e ∷ []));
}
