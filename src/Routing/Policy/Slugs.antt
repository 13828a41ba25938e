-- ===== src/Routing/Policy/Slugs.antt =====
-- src/providers/routing/policy.ts: normalized lists hold slugs, each once, and a slug normalizes to itself.
use Prim.Native.Char.{Char, char, code}
use mathlib.Core.Logic.{dite}
use mathlib.Core.Path.{subst}
use native.Mathlib.Decide.{dec_lt}
use text.Mathlib.TextEquality.{Char-path}
use confidential_content_pla.Prelude.{
  ℕ, ◌<◌, ◌≡◌, refl, Option, none, some, Bool, true, false, ◌&&◌, ◌||◌, List, [], ◌∷◌, String, has,
  Distinct, Distinct-append_new, ◌==◌, ok, >>=-eq-ok, Bool-cases, inl, inr, All, All-append, arith,
  insert_new, trim, trim_start, trim_end, is_space, lower_of, lower_character, to_lower_case,
  IsScalar-small,
}
use confidential_content_pla.Routing.Policy.{
  normalize_slug, normalize_slugs, provider_slug, matches_from, is_slug_character, room_after,
  stays, refuse_any,
}

abbrev pub IsSlug : String → Type 0
IsSlug s = provider_slug s ≡ true

pub normalize_slug-IsSlug : (raw s : String) → normalize_slug raw ≡ ok s → IsSlug s
unfolding normalize_slug
normalize_slug-IsSlug raw s h = ground arith

insert_new-keeps :
    (s : String) (out : List String)
    → IsSlug s
    → All IsSlug out × Distinct out
    → All IsSlug (insert_new s out) × Distinct (insert_new s out)
insert_new-keeps s out i h = elim (Bool-cases (has s out)) [
  | inl known ↦ rw known h
  | inr new ↦ rw new (All-append IsSlug out (s ∷ []) h.0 (i, tt), Distinct-append_new s out new h.1)
]

pub normalize_slugs-keeps :
    (raw out slugs : List String)
    → normalize_slugs raw out ≡ ok slugs
    → All IsSlug out × Distinct out
    → All IsSlug slugs × Distinct slugs
unfolding normalize_slugs
normalize_slugs-keeps [] out slugs e h = subst (λ t. All IsSlug t × Distinct t) (cc e) h
normalize_slugs-keeps (v ∷ raw) out slugs e h =
    let (s, e1, e2) =
      >>=-eq-ok (normalize_slug v) (λ s. normalize_slugs raw (insert_new s out)) e in
    normalize_slugs-keeps raw (insert_new s out) slugs e2
      (insert_new-keeps s out (normalize_slug-IsSlug v s e1) h)

pub refuse_any-none :
    (p : String → Bool) (ss : List String) (u : Unit {0})
    → refuse_any p ss ≡ ok u
    → All (λ s. p s ≡ false) ss
refuse_any-none p [] u e = tt
refuse_any-none p (s ∷ ss) u e = elim (Bool-cases (p s)) [
  | inl found ↦ ground arith
  | inr fine ↦ (fine, refuse_any-none p ss u (rw fine at e))
]

pub refuse_any-passes :
    (p : String → Bool) (ss : List String) → All (λ s. p s ≡ false) ss → refuse_any p ss ≡ ok tt
refuse_any-passes p [] h = refl
refuse_any-passes p (s ∷ ss) h = rw h.0 (refuse_any-passes p ss h.1)

-- Only these characters stand in a slug.
abbrev is_plain : ℕ → Bool
is_plain c = is_slug_character c || c == b'/'

abbrev Plain : String → Type 0
Plain String.[] = Unit {0}
Plain (String.◌∷◌ c s) = (is_plain (code c) ≡ true) × Plain s

matches_from-Plain :
    (second : Bool) (room : Option ℕ) (s : String) → matches_from second room s ≡ true → Plain s
unfolding matches_from
matches_from-Plain second room String.[] h = tt
matches_from-Plain second none (String.◌∷◌ c s) h =
    ground (arith, matches_from-Plain (second && stays none (code c)) (some 63) s)
matches_from-Plain second (some n) (String.◌∷◌ c s) h =
    ground (
      arith,
      matches_from-Plain (second && stays (some n) (code c)) (room_after (some n) (code c)) s,
    )

plain-not-space : (c : ℕ) → is_plain c ≡ true → is_space c ≡ false
plain-not-space c h = ground arith

plain-lower : (c : Char) → is_plain (code c) ≡ true → lower_of c ≡ code c
plain-lower c h = ground arith

trim_start-Plain : (s : String) → Plain s → trim_start s ≡ s
unfolding trim_start
trim_start-Plain String.[] h = refl
trim_start-Plain (String.◌∷◌ c s) h = rw (plain-not-space (code c) h.0)

trim_end-Plain : (s : String) → Plain s → trim_end s ≡ s
unfolding trim_end
trim_end-Plain String.[] h = refl
trim_end-Plain (String.◌∷◌ c String.[]) h = rw (plain-not-space (code c) h.0)
trim_end-Plain (String.◌∷◌ c (String.◌∷◌ d s)) h = rw (trim_end-Plain (String.◌∷◌ d s) h.1)

either_way :
    (c : Char) (d : Dec (lower_of c < 55_296))
    → lower_of c ≡ code c
    → dite d (λ h. char (lower_of c) (IsScalar-small (lower_of c) h)) (λ _. c) ≡ c
either_way c (yes p) e = Char-path (char (lower_of c) (IsScalar-small (lower_of c) p)) c e
either_way c (no p) e = refl

to_lower_case-Plain : (s : String) → Plain s → to_lower_case s ≡ s
unfolding to_lower_case lower_character
to_lower_case-Plain String.[] h = refl
to_lower_case-Plain (String.◌∷◌ c s) h =
    rw (either_way c (dec_lt (lower_of c) 55_296) (plain-lower c h.0), to_lower_case-Plain s h.1)

pub normalize_slug-slug : (s : String) → IsSlug s → normalize_slug s ≡ ok s
unfolding normalize_slug trim provider_slug
normalize_slug-slug s h =
    let plain = matches_from-Plain true none s h in
    simp (trim_start-Plain s plain, trim_end-Plain s plain, to_lower_case-Plain s plain, h)
