-- ===== src/KeyStore/Parsing.antt =====
-- src/providers/veniceKeyStore.ts: what `parseOverlay` accepts is well formed.
use mathlib.Core.Path.{subst}
use confidential_content_pla.Prelude.{
  ◌≡◌, sym, ◌∙◌, Option, none, some, Bool, true, false, ◌||◌, List, [], ◌∷◌, ◌++◌, String, str_eq,
  ok, >>=-eq-ok, subst_ok, guard, has, Distinct, Distinct-append_new, has-append, All, All-append,
  trim, Bool-cases, inl, inr, arith,
}
use confidential_content_pla.Prelude.Trimming.{trim_twice}
use confidential_content_pla.Prelude.Values.{
  Json, null, boolean, number, string, array, object, Items, nothing, item, Fields, get_field,
  field_names,
}
use confidential_content_pla.KeyStore.{
  VeniceKey, KeysetOverlay, unavailable, ids, is_key_id, only_names, as_id, as_secret, as_label,
  as_items, trimmed, parse_fields, parse_key, parse_added, parse_removed, parse_object,
  read_overlay,
}
use confidential_content_pla.KeyStore.Keys.{ids-append}
use confidential_content_pla.KeyStore.Overlays.{IsInk, IsLabel, IsKey, IsOverlay}

abbrev IsNewId : List String → String → Type 0
IsNewId seen s = (is_key_id s ≡ true) × (has s seen ≡ false)

as_id-IsNewId :
    (seen : List String) (o : Option Json) (s : String) → as_id seen o ≡ ok s → IsNewId seen s
as_id-IsNewId seen (some (string t)) s h = ground arith
as_id-IsNewId seen none s h = ground arith
as_id-IsNewId seen (some null) s h = ground arith
as_id-IsNewId seen (some (boolean b)) s h = ground arith
as_id-IsNewId seen (some (number n)) s h = ground arith
as_id-IsNewId seen (some (array xs)) s h = ground arith
as_id-IsNewId seen (some (object fs)) s h = ground arith

as_secret-IsInk : (o : Option Json) (s : String) → as_secret o ≡ ok s → IsInk s
as_secret-IsInk (some (string t)) s h = ground (arith, trim_twice t)
as_secret-IsInk none s h = ground arith
as_secret-IsInk (some null) s h = ground arith
as_secret-IsInk (some (boolean b)) s h = ground arith
as_secret-IsInk (some (number n)) s h = ground arith
as_secret-IsInk (some (array xs)) s h = ground arith
as_secret-IsInk (some (object fs)) s h = ground arith

trimmed-IsLabel : (s : String) → IsLabel (trimmed s)
trimmed-IsLabel s = elim (Bool-cases (str_eq (trim s) "")) [
  | inl empty ↦ rw empty tt
  | inr ink ↦ rw ink (trim_twice s, ink)
]

as_label-IsLabel : (o : Option Json) (l : Option String) → as_label o ≡ ok l → IsLabel l
as_label-IsLabel none l h = subst_ok IsLabel none l h tt
as_label-IsLabel (some null) l h = subst_ok IsLabel none l h tt
as_label-IsLabel (some (string s)) l h = subst_ok IsLabel (trimmed s) l h (trimmed-IsLabel s)
as_label-IsLabel (some (boolean b)) l h = absurd (ground arith)
as_label-IsLabel (some (number n)) l h = absurd (ground arith)
as_label-IsLabel (some (array xs)) l h = absurd (ground arith)
as_label-IsLabel (some (object fs)) l h = absurd (ground arith)

abbrev IsNewKey : List String → VeniceKey → Type 0
IsNewKey seen k = IsKey k × (has k.id seen ≡ false)

parse_fields-IsNewKey :
    (seen : List String) (entry : Fields) (k : VeniceKey)
    → parse_fields seen entry ≡ ok k
    → IsNewKey seen k
unfolding parse_fields
parse_fields-IsNewKey seen entry k h =
    let (_, _, h1) =
      >>=-eq-ok (guard (only_names ("id" ∷ "label" ∷ "key" ∷ []) (field_names entry)) unavailable) _
        h in
    let (id, i, h2) = >>=-eq-ok (as_id seen (get_field "id" entry)) _ h1 in
    let (secret, s, h3) = >>=-eq-ok (as_secret (get_field "key" entry)) _ h2 in
    let (label, l, h4) = >>=-eq-ok (as_label (get_field "label" entry)) _ h3 in
    let new = as_id-IsNewId seen (get_field "id" entry) id i in
    subst_ok (IsNewKey seen) (record { id = id; label = label; key = secret }) k h4
      (
        (
          new.0,
          as_label-IsLabel (get_field "label" entry) label l,
          as_secret-IsInk (get_field "key" entry) secret s,
        ),
        new.1,
      )

parse_key-IsNewKey :
    (seen : List String) (raw : Json) (k : VeniceKey) → parse_key seen raw ≡ ok k → IsNewKey seen k
parse_key-IsNewKey seen (object entry) k h = parse_fields-IsNewKey seen entry k h
parse_key-IsNewKey seen null k h = absurd (ground arith)
parse_key-IsNewKey seen (boolean b) k h = absurd (ground arith)
parse_key-IsNewKey seen (number n) k h = absurd (ground arith)
parse_key-IsNewKey seen (string s) k h = absurd (ground arith)
parse_key-IsNewKey seen (array xs) k h = absurd (ground arith)

abbrev Keyed : List VeniceKey → Type 0
Keyed ks = All IsKey ks × Distinct (ids ks)

parse_added-Keyed :
    (raw : Items) (out ks : List VeniceKey) → parse_added raw out ≡ ok ks → Keyed out → Keyed ks
unfolding parse_added
parse_added-Keyed nothing out ks h v = subst_ok Keyed out ks h v
parse_added-Keyed (item j raw) out ks h v =
    let (k, h1, h2) = >>=-eq-ok (parse_key (ids out) j) _ h in
    let (valid, new) = parse_key-IsNewKey (ids out) j k h1 in
    parse_added-Keyed raw (out ++ k ∷ []) ks h2 (
      All-append IsKey out (k ∷ []) v.0 (valid, tt),
      subst Distinct (sym (ids-append out (k ∷ []))) (Distinct-append_new k.id (ids out) new v.1),
    )

abbrev Gone : List String → List String → Type 0
Gone seen ss = All (λ s. is_key_id s ≡ true) ss × Distinct ss × All (λ s. has s seen ≡ false) ss

neither : (a b : Bool) → (a || b) ≡ false → (a ≡ false) × (b ≡ false)
neither a b h = ground arith

parse_removed-Gone :
    (seen : List String) (raw : Items) (out ss : List String)
    → parse_removed seen raw out ≡ ok ss
    → Gone seen out
    → Gone seen ss
unfolding parse_removed
parse_removed-Gone seen nothing out ss h g = subst_ok (Gone seen) out ss h g
parse_removed-Gone seen (item j raw) out ss h g =
    let (s, h1, h2) = >>=-eq-ok (as_id (seen ++ out) (some j)) _ h in
    let (valid, new) = as_id-IsNewId (seen ++ out) (some j) s h1 in
    let (unseen, fresh) = neither (has s seen) (has s out) (sym (has-append s seen out) ∙ new) in
    parse_removed-Gone seen raw (out ++ s ∷ []) ss h2 (
      All-append (λ t. is_key_id t ≡ true) out (s ∷ []) g.0 (valid, tt),
      Distinct-append_new s out fresh g.1,
      All-append (λ t. has t seen ≡ false) out (s ∷ []) g.2 (unseen, tt),
    )

parse_object-IsOverlay :
    (candidate : Fields) (o : KeysetOverlay) → parse_object candidate ≡ ok o → IsOverlay o
unfolding parse_object
parse_object-IsOverlay candidate o h =
    let (_, _, h1) =
      >>=-eq-ok
        (guard (only_names ("added" ∷ "removedIds" ∷ []) (field_names candidate)) unavailable) _
        h in
    let (xs, _, h2) = >>=-eq-ok (as_items (get_field "added" candidate)) _ h1 in
    let (ys, _, h3) = >>=-eq-ok (as_items (get_field "removedIds" candidate)) _ h2 in
    let (added, a, h4) = >>=-eq-ok (parse_added xs []) _ h3 in
    let (removed, r, h5) = >>=-eq-ok (parse_removed (ids added) ys []) _ h4 in
    let keyed = parse_added-Keyed xs [] added a (tt, tt) in
    let gone = parse_removed-Gone (ids added) ys [] removed r (tt, tt, tt) in
    subst_ok IsOverlay (record { added = added; removed_ids = removed }) o h5
      record {
        keys = keyed.0;
        added_distinct = keyed.1;
        removed_valid = gone.0;
        removed_distinct = gone.1;
        apart = gone.2;
      }

-- What the file is read as is a well-formed overlay.
pub read_overlay-IsOverlay :
    (content : Option Json) (o : KeysetOverlay) → read_overlay content ≡ ok o → IsOverlay o
read_overlay-IsOverlay (some (object fs)) o h = parse_object-IsOverlay fs o h
read_overlay-IsOverlay none o h = absurd (ground arith)
read_overlay-IsOverlay (some null) o h = absurd (ground arith)
read_overlay-IsOverlay (some (boolean b)) o h = absurd (ground arith)
read_overlay-IsOverlay (some (number n)) o h = absurd (ground arith)
read_overlay-IsOverlay (some (string s)) o h = absurd (ground arith)
read_overlay-IsOverlay (some (array xs)) o h = absurd (ground arith)
