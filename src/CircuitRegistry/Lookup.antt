-- ===== src/CircuitRegistry/Lookup.antt =====
-- src/providers/circuitBreaker.ts: the scope keys, and the Map operations on them.
use confidential_content_pla.Prelude.{
  ℕ, ◌≡◌, refl, ◌≢◌, ◌↔◌, none, some, true, false, List, [], ◌∷◌, ◌++◌, arith, if◌then◌else◌, take,
}
use confidential_content_pla.CircuitRegistry.{
  VeniceCircuitOperation, attestation, chat, stream, embeddings, image, speech, literal, scope_key,
  same_text, get, delete,
}

same_text→eq : (s t : List ℕ) → same_text s t ≡ true → s ≡ t
unfolding same_text
same_text→eq [] [] h = refl
same_text→eq (a ∷ s) (b ∷ t) h = ground (arith, same_text→eq s t)
same_text→eq _ _ h = cc

same_text_refl : (s : List ℕ) → same_text s s ≡ true
unfolding same_text
same_text_refl [] = refl
same_text_refl (a ∷ s) = ground (arith, same_text_refl s)

pub same_text_iff : (s t : List ℕ) → (same_text s t ≡ true) ↔ (s ≡ t)
same_text_iff s t = (same_text→eq s t, λ e. rw e (same_text_refl t))

literal-append_injective :
    (o o' : VeniceCircuitOperation) (s t : List ℕ)
    → literal o ++ 0 ∷ s ≡ literal o' ++ 0 ∷ t
    → (o ≡ o') × (s ≡ t)
unfolding literal
literal-append_injective attestation o' s t h = ground arith
literal-append_injective chat o' s t h = ground arith
literal-append_injective stream o' s t h = ground arith
literal-append_injective embeddings o' s t h = ground arith
literal-append_injective image o' s t h = ground arith
literal-append_injective speech o' s t h = ground arith

-- Two scopes share a key exactly if they have the operation in common and the first 256 code units of
-- the model's id.
pub scope_key_iff :
    (o o' : VeniceCircuitOperation) (m m' : List ℕ)
    → (scope_key o m ≡ scope_key o' m') ↔ ((o ≡ o') × (take 256 m ≡ take 256 m'))
unfolding scope_key
scope_key_iff o o' m m' =
    (literal-append_injective o o' (take 256 m) (take 256 m'), λ h. cc (h.0, h.1))

-- Lookups in the map after each change of it.
pub get-append :
    (j k : List ℕ) (r : ℕ) (m : List (List ℕ × ℕ))
    → get j (m ++ (k, r) ∷ [])
      ≡ (elim (get j m) [ some r' ↦ some r' | none ↦ if same_text k j then some r else none ])
unfolding get
get-append j k r [] = refl
get-append j k r ((i, r') ∷ m) = ground (arith, get-append j k r m)

pub get-delete_ne : (j k : List ℕ) (m : List (List ℕ × ℕ)) → j ≢ k → get j (delete k m) ≡ get j m
unfolding get delete
get-delete_ne j k [] h = refl
get-delete_ne j k ((i, r) ∷ m) h =
    ground (arith, same_text_iff i k, same_text_iff i j, get-delete_ne j k m h)

-- No two entries have one key.
abbrev pub Fresh : List ℕ → List (List ℕ × ℕ) → Type 0
Fresh k [] = Unit {0}
Fresh k ((j, r) ∷ m) = (same_text j k ≡ false) × Fresh k m

abbrev pub Distinct : List (List ℕ × ℕ) → Type 0
Distinct [] = Unit {0}
Distinct ((k, r) ∷ m) = Fresh k m × Distinct m

pub Fresh-get : (k : List ℕ) (m : List (List ℕ × ℕ)) → Fresh k m → get k m ≡ none
unfolding get
Fresh-get k [] h = refl
Fresh-get k ((j, r) ∷ m) h = ground (arith, Fresh-get k m h.1)

pub get-Fresh : (k : List ℕ) (m : List (List ℕ × ℕ)) → get k m ≡ none → Fresh k m
unfolding get
get-Fresh k [] h = tt
get-Fresh k ((j, r) ∷ m) h = ground (arith, get-Fresh k m)
