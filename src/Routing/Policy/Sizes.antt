-- ===== src/Routing/Policy/Sizes.antt =====
-- src/providers/routing/policy.ts: normalizing keeps the lists of a policy within the schema's sizes.
use confidential_content_pla.Prelude.{
  ◌+◌, ◌≤◌, ◌≡◌, refl, Option, none, some, true, List, [], ◌∷◌, String, length, length-append, ok,
  subst_ok, >>=-eq-ok, has, insert_new, Bool-cases, inl, inr, arith,
}
use confidential_content_pla.Routing.Policy.{
  is_provider_list, is_ignore_list, max_provider_list, normalize_slug, normalize_slugs,
  normalize_slug_list, normalize_only,
}

length-insert_new :
    (s : String) (out : List String)
    → (1 ≤ length (insert_new s out)) × (length (insert_new s out) ≤ length out + 1)
length-insert_new s [] = omega arith
length-insert_new s (t ∷ out) = elim (Bool-cases (has s (t ∷ out))) [
  | inl there ↦ rw there (omega arith)
  | inr new ↦ rw new (rw (length-append (t ∷ out) (s ∷ [])) (omega arith))
]

length-normalize_slugs :
    (raw out slugs : List String)
    → normalize_slugs raw out ≡ ok slugs
    → 1 ≤ length raw + length out
    → (1 ≤ length slugs) × (length slugs ≤ length out + length raw)
unfolding normalize_slugs
length-normalize_slugs [] out slugs e h =
    subst_ok (λ t. (1 ≤ length t) × (length t ≤ length out + 0)) out slugs e (omega arith)
length-normalize_slugs (v ∷ raw) out slugs e h =
    let (s, e1, e2) =
      >>=-eq-ok (normalize_slug v) (λ s. normalize_slugs raw (insert_new s out)) e in
    omega (
      arith,
      length-insert_new s out,
      length-normalize_slugs raw (insert_new s out) slugs e2
          (omega (arith, length-insert_new s out)),
    )

-- A list that is left out where it is empty.
abbrev pub unless_empty : List String → Option (List String)
unless_empty [] = none
unless_empty (s ∷ ss) = some (s ∷ ss)

module _ (Amount : Type 0) where
  unless_empty-fits :
      (slugs : List String)
      → length slugs ≤ max_provider_list
      → is_provider_list Amount (unless_empty slugs) ≡ true
  unless_empty-fits [] h = refl
  unless_empty-fits (s ∷ ss) h = ground arith

  pub order-fits :
      (o : Option (List String)) (slugs : List String)
      → is_provider_list Amount o ≡ true
      → normalize_slug_list o ≡ ok slugs
      → is_provider_list Amount (unless_empty slugs) ≡ true
  order-fits none slugs h e =
      subst_ok (λ t. is_provider_list Amount (unless_empty t) ≡ true) [] slugs e refl
  order-fits (some raw) slugs h e =
      unless_empty-fits slugs (ground (arith, length-normalize_slugs raw [] slugs e))

  pub only-fits :
      (o only : Option (List String))
      → is_provider_list Amount o ≡ true
      → normalize_only o ≡ ok only
      → is_provider_list Amount only ≡ true
  only-fits none only h e = subst_ok (λ t. is_provider_list Amount t ≡ true) none only e refl
  only-fits (some raw) only h e =
      let (slugs, e1, e2) = >>=-eq-ok (normalize_slugs raw []) (λ slugs. ok (some slugs)) e in
      subst_ok (λ t. is_provider_list Amount t ≡ true) (some slugs) only e2
        (ground (arith, length-normalize_slugs raw [] slugs e1))

  pub ignore-fits :
      (o : Option (List String)) (slugs : List String)
      → is_ignore_list Amount o ≡ true
      → normalize_slug_list o ≡ ok slugs
      → is_ignore_list Amount (some slugs) ≡ true
  unfolding normalize_slugs
  ignore-fits none slugs h e = subst_ok (λ t. is_ignore_list Amount (some t) ≡ true) [] slugs e refl
  ignore-fits (some []) slugs h e =
      subst_ok (λ t. is_ignore_list Amount (some t) ≡ true) [] slugs e refl
  ignore-fits (some (s ∷ raw)) slugs h e =
      ground (arith, length-normalize_slugs (s ∷ raw) [] slugs e)
