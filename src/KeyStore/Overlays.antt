-- ===== src/KeyStore/Overlays.antt =====
-- src/providers/veniceKeyStore.ts: `parseOverlay` accepts well-formed overlays only, and reads what was
-- written as it was.
use mathlib.Core.Path.{subst}
use confidential_content_pla.Prelude.{
  ◌≡◌, refl, sym, ap, ◌∙◌, Option, none, some, true, false, List, [], ◌∷◌, ◌++◌, String, str_eq, ok,
  has, Distinct, not-repeated, has-append, All, append_assoc, append-nil, trim,
}
use confidential_content_pla.Prelude.Values.{string}
use confidential_content_pla.KeyStore.{
  VeniceKey, KeysetOverlay, ids, is_key_id, as_id, as_secret, as_label, parse_fields, parse_key,
  parse_added, parse_removed, parse_object, parse_overlay, label_value, key_value, key_items,
  text_items, overlay_value,
}
use confidential_content_pla.KeyStore.Keys.{ids-append}

-- Trimmed, and not empty.
abbrev pub IsInk : String → Type 0
IsInk s = (trim s ≡ s) × (str_eq s "" ≡ false)

abbrev pub IsLabel : Option String → Type 0
IsLabel none = Unit {0}
IsLabel (some l) = IsInk l

abbrev pub IsKey : VeniceKey → Type 0
IsKey k = (is_key_id k.id ≡ true) × IsLabel k.label × IsInk k.key

abbrev pub Apart : List VeniceKey → String → Type 0
Apart added id = has id (ids added) ≡ false

pub record IsOverlay (o : KeysetOverlay) : Type 0 where
  pub keys : All IsKey o.added
  pub added_distinct : Distinct (ids o.added)
  pub removed_valid : All (λ id. is_key_id id ≡ true) o.removed_ids
  pub removed_distinct : Distinct o.removed_ids
  pub apart : All (Apart o.added) o.removed_ids

as_label-value : (l : Option String) → IsLabel l → as_label (some (label_value l)) ≡ ok l
as_label-value none h = refl
as_label-value (some l) h = rw (h.0, h.1)

as_id-new :
    (seen : List String) (s : String)
    → is_key_id s ≡ true
    → has s seen ≡ false
    → as_id seen (some (string s)) ≡ ok s
as_id-new seen s v n = rw (v, n)

as_secret-ink : (s : String) → IsInk s → as_secret (some (string s)) ≡ ok s
as_secret-ink s h = rw (h.0, h.1)

parse_key-key_value :
    (seen : List String) (k : VeniceKey)
    → has k.id seen ≡ false
    → IsKey k
    → parse_key seen (key_value k) ≡ ok k
unfolding parse_fields
parse_key-key_value seen k new v =
    rw (as_id-new seen k.id v.0 new, as_secret-ink k.key v.2, as_label-value k.label v.1)

parse_added-key_items :
    (ks out : List VeniceKey)
    → All IsKey ks
    → Distinct (ids (out ++ ks))
    → parse_added (key_items ks) out ≡ ok (out ++ ks)
unfolding parse_added
parse_added-key_items [] out v d = rw append-nil
parse_added-key_items (k ∷ ks) out v d =
    let new : has k.id (ids out) ≡ false =
      not-repeated k.id (ids out) (ids ks) (subst Distinct (ids-append out (k ∷ ks)) d) in
    let regroup : (out ++ k ∷ []) ++ ks ≡ out ++ k ∷ ks = append_assoc out (k ∷ []) ks in
    rw (parse_key-key_value (ids out) k new v.0) (
      parse_added-key_items ks (out ++ k ∷ []) v.1 (subst (λ t. Distinct (ids t)) (sym regroup) d)
      ∙ ap ok regroup)

parse_removed-text_items :
    (seen ss out : List String)
    → All (λ s. is_key_id s ≡ true) ss
    → All (λ s. has s seen ≡ false) ss
    → Distinct (out ++ ss)
    → parse_removed seen (text_items ss) out ≡ ok (out ++ ss)
unfolding parse_removed
parse_removed-text_items seen [] out v a d = rw append-nil
parse_removed-text_items seen (s ∷ ss) out v a d =
    let new : has s (seen ++ out) ≡ false =
      has-append s seen out ∙ rw (a.0, not-repeated s out ss d) in
    let regroup : (out ++ s ∷ []) ++ ss ≡ out ++ s ∷ ss = append_assoc out (s ∷ []) ss in
    rw (as_id-new (seen ++ out) s v.0 new) (
      parse_removed-text_items seen ss (out ++ s ∷ []) v.1 a.1 (subst Distinct (sym regroup) d)
      ∙ ap ok regroup)

-- What is written is read again as it was.
pub parse-overlay_value : (o : KeysetOverlay) → IsOverlay o → parse_overlay (overlay_value o) ≡ ok o
unfolding parse_object
parse-overlay_value o v = rw (
  parse_added-key_items o.added [] v.keys v.added_distinct,
  parse_removed-text_items (ids o.added) o.removed_ids [] v.removed_valid v.apart
      v.removed_distinct,
)
