-- ===== src/CircuitRegistry/References.antt =====
-- src/providers/circuitBreaker.ts: the references that the registry's map holds.
use confidential_content_pla.Prelude.{
  ℕ, ◌+◌, ◌<◌, ◌≡◌, ◌≢◌, sym, inl, inr, some, List, [], ◌∷◌, ◌++◌, arith, Bool-cases,
}
use mathlib.Core.Path.{subst}
use confidential_content_pla.CircuitRegistry.{same_text, get, delete, remove_oldest}

-- Every reference in the map is below `n`; none is `x`; no two entries share one.
abbrev pub RefsBelow : ℕ → List (List ℕ × ℕ) → Type 0
RefsBelow n [] = Unit {0}
RefsBelow n ((k, r) ∷ m) = (r < n) × RefsBelow n m

abbrev pub NoRef : ℕ → List (List ℕ × ℕ) → Type 0
NoRef x [] = Unit {0}
NoRef x ((k, r) ∷ m) = (r ≢ x) × NoRef x m

abbrev pub DistinctRefs : List (List ℕ × ℕ) → Type 0
DistinctRefs [] = Unit {0}
DistinctRefs ((k, r) ∷ m) = NoRef r m × DistinctRefs m

pub RefsBelow-delete :
    (n : ℕ) (k : List ℕ) (m : List (List ℕ × ℕ)) → RefsBelow n m → RefsBelow n (delete k m)
unfolding delete
RefsBelow-delete n k [] h = tt
RefsBelow-delete n k ((i, r) ∷ m) h = ground (arith, RefsBelow-delete n k m h.1)

pub RefsBelow-append :
    (n : ℕ) (k : List ℕ) (r : ℕ) (m : List (List ℕ × ℕ))
    → RefsBelow n m
    → r < n
    → RefsBelow n (m ++ (k, r) ∷ [])
RefsBelow-append n k r [] h l = (l, tt)
RefsBelow-append n k r ((i, s) ∷ m) h l = (h.0, RefsBelow-append n k r m h.1 l)

pub RefsBelow-suc : (n : ℕ) (m : List (List ℕ × ℕ)) → RefsBelow n m → RefsBelow (n + 1) m
RefsBelow-suc n [] h = tt
RefsBelow-suc n ((i, s) ∷ m) h = (omega arith, RefsBelow-suc n m h.1)

pub RefsBelow-NoRef : (n : ℕ) (m : List (List ℕ × ℕ)) → RefsBelow n m → NoRef n m
RefsBelow-NoRef n [] h = tt
RefsBelow-NoRef n ((i, s) ∷ m) h = (omega arith, RefsBelow-NoRef n m h.1)

NoRef-delete : (x : ℕ) (k : List ℕ) (m : List (List ℕ × ℕ)) → NoRef x m → NoRef x (delete k m)
unfolding delete
NoRef-delete x k [] h = tt
NoRef-delete x k ((i, r) ∷ m) h = ground (arith, NoRef-delete x k m h.1)

NoRef-append :
    (x : ℕ) (k : List ℕ) (r : ℕ) (m : List (List ℕ × ℕ))
    → NoRef x m
    → r ≢ x
    → NoRef x (m ++ (k, r) ∷ [])
NoRef-append x k r [] h l = (l, tt)
NoRef-append x k r ((i, s) ∷ m) h l = (h.0, NoRef-append x k r m h.1 l)

get-NoRef :
    (x : ℕ) (k : List ℕ) (r : ℕ) (m : List (List ℕ × ℕ)) → NoRef x m → get k m ≡ some r → r ≢ x
unfolding get
get-NoRef x k r [] n e = cc
get-NoRef x k r ((i, s) ∷ m) n e = ground (arith, get-NoRef x k r m n.1)

pub get-below :
    (n : ℕ) (k : List ℕ) (r : ℕ) (m : List (List ℕ × ℕ)) → RefsBelow n m → get k m ≡ some r → r < n
unfolding get
get-below n k r [] b e = cc
get-below n k r ((i, s) ∷ m) b e = ground (arith, get-below n k r m b.1)

-- What is deleted takes its reference along.
pub get-NoRef-delete :
    (k : List ℕ) (r : ℕ) (m : List (List ℕ × ℕ))
    → DistinctRefs m
    → get k m ≡ some r
    → NoRef r (delete k m)
unfolding get delete
get-NoRef-delete k r [] d e = cc
get-NoRef-delete k r ((i, s) ∷ m) d e = elim (Bool-cases (same_text i k)) [
  | inl same ↦ rw same (subst (λ x. NoRef x m) (ground arith) d.0)
  | inr other ↦
      let found : get k m ≡ some r = ground arith in
      rw other ((λ q. get-NoRef s k r m d.0 found (sym q)), get-NoRef-delete k r m d.1 found)
]

pub DistinctRefs-delete :
    (k : List ℕ) (m : List (List ℕ × ℕ)) → DistinctRefs m → DistinctRefs (delete k m)
unfolding delete
DistinctRefs-delete k [] h = tt
DistinctRefs-delete k ((i, r) ∷ m) h =
    ground (arith, DistinctRefs-delete k m h.1, NoRef-delete r k m h.0)

pub DistinctRefs-append :
    (k : List ℕ) (r : ℕ) (m : List (List ℕ × ℕ))
    → DistinctRefs m
    → NoRef r m
    → DistinctRefs (m ++ (k, r) ∷ [])
DistinctRefs-append k r [] d f = (tt, tt)
DistinctRefs-append k r ((i, s) ∷ m) d f =
    (NoRef-append s k r m d.0 (λ e. f.0 (sym e)), DistinctRefs-append k r m d.1 f.1)

pub remove_oldest-DistinctRefs :
    (m : List (List ℕ × ℕ)) → DistinctRefs m → DistinctRefs (remove_oldest m)
remove_oldest-DistinctRefs [] h = tt
remove_oldest-DistinctRefs (x ∷ m) h = h.1

pub remove_oldest-RefsBelow :
    (n : ℕ) (m : List (List ℕ × ℕ)) → RefsBelow n m → RefsBelow n (remove_oldest m)
remove_oldest-RefsBelow n [] h = tt
remove_oldest-RefsBelow n (x ∷ m) h = h.1
