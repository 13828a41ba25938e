-- ===== src/Breaker/SingleFlight.antt =====
-- src/providers/circuitBreaker.ts: how many half-open probes are in flight, over every history of
-- acquisitions and reports.
use confidential_content_pla.Prelude.{
  ℕ, ◌+◌, ◌≤◌, ◌<◌, ◌≡◌, refl, sym, ◌⊎◌, inl, inr, Bool, true, false, not, ◌&&◌, List, [], ◌∷◌,
  some, arith, ◌==◌, if◌then◌else◌, All, All-map, Option-cases, Bool-cases,
}
use mathlib.Core.Path.{subst}
use confidential_content_pla.Breaker.{
  CircuitPermit, CircuitBreakerOptions, closed, is_half_open, has, new, acquire,
}
use confidential_content_pla.Breaker.Client.{
  Outcome, success, failure, neutral, report, World, Event, acquires, reports, find_permit, step,
  run, start,
}

-- A probe of the present generation whose outcome is still awaited.
abbrev pub in_flight : ℕ → List ℕ → CircuitPermit → Bool
in_flight generation settled p =
    p.half_open_probe && (p.generation == generation && not (has settled p.object))

abbrev pub count_in_flight : ℕ → List ℕ → List CircuitPermit → ℕ
count_in_flight generation settled [] = 0
count_in_flight generation settled (p ∷ ps) =
    (if in_flight generation settled p then 1 else 0) + count_in_flight generation settled ps

abbrev pub probes : World → ℕ
probes w = count_in_flight w.breaker.generation w.breaker.settled_permits w.issued

-- Identities fall along the list and stay under the bound.
abbrev pub Below : ℕ → List CircuitPermit → Type 0
Below n [] = Unit {0}
Below n (p ∷ ps) = (p.object < n) × Below p.object ps

abbrev SettledBelow : ℕ → List ℕ → Type 0
SettledBelow n [] = Unit {0}
SettledBelow n (o ∷ s) = (o < n) × SettledBelow n s

-- The permits of the present generation are probes.
abbrev pub OnlyProbes : ℕ → List CircuitPermit → Type 0
OnlyProbes generation = All (λ p. (p.half_open_probe ≡ true) ⊎ (p.generation < generation))

abbrev pub NotNewer : ℕ → List CircuitPermit → Type 0
NotNewer generation = All (λ p. p.generation ≤ generation)

count-settle_above :
    (g o n : ℕ) (s : List ℕ) (ps : List CircuitPermit)
    → Below n ps
    → n ≤ o
    → count_in_flight g (o ∷ s) ps ≡ count_in_flight g s ps
count-settle_above g o n s [] b h = refl
count-settle_above g o n s (p ∷ ps) b h = ground (arith, count-settle_above g o p.object s ps b.1)

-- Settling one permit takes that one out of the count.
count-settle :
    (g n : ℕ) (s : List ℕ) (ps : List CircuitPermit) (o : ℕ) (p : CircuitPermit)
    → Below n ps
    → find_permit o ps ≡ some p
    → count_in_flight g s ps ≡ count_in_flight g (o ∷ s) ps + (if in_flight g s p then 1 else 0)
unfolding find_permit
count-settle g n s [] o p b e = cc
count-settle g n s (q ∷ ps) o p b e =
    ground (arith, count-settle_above g o q.object s ps b.1, count-settle g q.object s ps o p b.1)

-- No permit of an earlier generation is in flight.
count-later :
    (g : ℕ) (s : List ℕ) (ps : List CircuitPermit)
    → NotNewer g ps
    → count_in_flight (g + 1) s ps ≡ 0
count-later g s [] h = refl
count-later g s (p ∷ ps) h = ground (arith, count-later g s ps h.1)

pub find_permit-object :
    (o : ℕ) (ps : List CircuitPermit) (p : CircuitPermit) → find_permit o ps ≡ some p → p.object ≡ o
unfolding find_permit
find_permit-object o [] p e = cc
find_permit-object o (q ∷ ps) p e = ground (arith, find_permit-object o ps p)

pub find_permit-All :
    (P : CircuitPermit → Type 0) (o : ℕ) (ps : List CircuitPermit) (p : CircuitPermit)
    → All P ps
    → find_permit o ps ≡ some p
    → P p
unfolding find_permit
find_permit-All P o [] p h e = cc
find_permit-All P o (q ∷ ps) p h e = elim (Bool-cases (q.object == o)) [
  | inl same ↦ let found : q ≡ p = ground arith in subst P found h.0
  | inr other ↦ find_permit-All P o ps p h.1 (ground arith)
]

pub record Inv (w : World) : Type 0 where
  pub below : Below w.next w.issued
  pub old_settled : SettledBelow w.next w.breaker.settled_permits
  pub generations : NotNewer w.breaker.generation w.issued
  pub only_probes : (w.breaker.state ≡ closed) ⊎ OnlyProbes w.breaker.generation w.issued
  pub single : probes w ≡ (if is_half_open w.breaker.state then 1 else 0)

pub start-Inv : (options : CircuitBreakerOptions) → Inv (start options)
unfolding new
start-Inv options = ground arith

NotNewer-suc : (g : ℕ) (ps : List CircuitPermit) → NotNewer g ps → NotNewer (g + 1) ps
NotNewer-suc g = All-map (λ p h. omega arith)

OnlyProbes-suc : (g : ℕ) (ps : List CircuitPermit) → NotNewer g ps → OnlyProbes (g + 1) ps
OnlyProbes-suc g = All-map (λ p h. inr (omega arith))

SettledBelow-suc : (n : ℕ) (s : List ℕ) → SettledBelow n s → SettledBelow (n + 1) s
SettledBelow-suc n [] h = tt
SettledBelow-suc n (o ∷ s) h = (omega arith, SettledBelow-suc n s h.1)

pub find_permit-Below :
    (o n : ℕ) (ps : List CircuitPermit) (p : CircuitPermit)
    → Below n ps
    → find_permit o ps ≡ some p
    → p.object < n
unfolding find_permit
find_permit-Below o n [] p b e = cc
find_permit-Below o n (q ∷ ps) p b e = ground (arith, find_permit-Below o q.object ps p b.1)

has_above : (n x : ℕ) (s : List ℕ) → SettledBelow n s → n ≤ x → has s x ≡ false
has_above n x [] h k = refl
has_above n x (y ∷ s) h k = ground (arith, has_above n x s h.1)

acquire-Inv : (w : World) (now : ℕ) → Inv w → Inv (step w (acquires now))
unfolding step acquire
acquire-Inv w now v = ground (
  arith,
  has_above w.next w.next w.breaker.settled_permits v.old_settled,
  SettledBelow-suc w.next w.breaker.settled_permits v.old_settled,
)

-- A report on a permit that the world has issued keeps the invariant.
module _ (w : World) (o now : ℕ) (p : CircuitPermit) (v : Inv w)
    (e : find_permit o w.issued ≡ some p) where
  pub not_newer : p.generation ≤ w.breaker.generation
  not_newer =
      find_permit-All (λ q. q.generation ≤ w.breaker.generation) o w.issued p v.generations e

  pub only_probe :
      (w.breaker.state ≡ closed)
      ⊎ ((p.half_open_probe ≡ true) ⊎ (p.generation < w.breaker.generation))
  only_probe = elim v.only_probes [
    | inl c ↦ inl c
    | inr all ↦ inr (
        find_permit-All (λ q. (q.half_open_probe ≡ true) ⊎ (q.generation < w.breaker.generation)) o
          w.issued p all e)
  ]

  settled_count :
      count_in_flight w.breaker.generation w.breaker.settled_permits w.issued
      ≡ count_in_flight w.breaker.generation (p.object ∷ w.breaker.settled_permits) w.issued
        + (if in_flight w.breaker.generation w.breaker.settled_permits p then 1 else 0)
  settled_count =
      subst
        (λ o'.
          count_in_flight w.breaker.generation w.breaker.settled_permits w.issued
          ≡ count_in_flight w.breaker.generation (o' ∷ w.breaker.settled_permits) w.issued
            + (if in_flight w.breaker.generation w.breaker.settled_permits p then 1 else 0))
        (sym (find_permit-object o w.issued p e))
        (count-settle w.breaker.generation w.next w.breaker.settled_permits w.issued o p v.below e)

  report-Inv : (r : Outcome) → Inv (record w { breaker = report r now p w.breaker })
  unfolding report
  report-Inv success =
      ground (
        arith,
        not_newer,
        only_probe,
        find_permit-Below o w.next w.issued p v.below e,
        settled_count,
      )
  report-Inv neutral =
      ground (
        arith,
        not_newer,
        only_probe,
        find_permit-Below o w.next w.issued p v.below e,
        settled_count,
      )
  report-Inv failure = ground (
    arith,
    not_newer,
    only_probe,
    find_permit-Below o w.next w.issued p v.below e,
    settled_count,
    NotNewer-suc w.breaker.generation w.issued v.generations,
    OnlyProbes-suc w.breaker.generation w.issued v.generations,
    count-later w.breaker.generation (p.object ∷ w.breaker.settled_permits) w.issued v.generations,
  )

pub step-Inv : (w : World) (e : Event) → Inv w → Inv (step w e)
unfolding step
step-Inv w (acquires now) v = acquire-Inv w now v
step-Inv w (reports r now o) v = elim (Option-cases (find_permit o w.issued)) [
  | inl missing ↦ rw (missing, step) v
  | inr (p, e) ↦ rw (e, step) (report-Inv w o now p v e r)
]

pub run-Inv : (w : World) (es : List Event) → Inv w → Inv (run w es)
unfolding run
run-Inv w [] v = v
run-Inv w (e ∷ es) v = run-Inv (step w e) es (step-Inv w e v)

-- After any history of acquisitions and reports (in any order, repeated or late, at any clock
-- readings), exactly one probe of the present generation awaits its outcome if the circuit is half
-- open, and none otherwise.
pub run-single_flight :
    (options : CircuitBreakerOptions) (es : List Event)
    → probes (run (start options) es)
      ≡ (if is_half_open (run (start options) es).breaker.state then 1 else 0)
run-single_flight options es = (run-Inv (start options) es (start-Inv options)).single
