-- ===== src/Concurrency/Scores.antt =====
-- src/rate-limit/limiter.ts: the deadlines in a set, and how long the set lives.
use confidential_content_pla.Prelude.{
  ℕ, ◌+◌, ◌-◌, ◌≤◌, ◌<◌, ◌≡◌, refl, ◌∙◌, ap, ◌≢◌, ◌⊎◌, Option, none, some, true, false, List, [],
  ◌∷◌, String, str_eq, eq_iff, leb, if◌then◌else◌, arith,
}
use confidential_content_pla.Valkey.{
  Value, hash, text, sorted_set, Item, members_of, set_members, change_members, change_set, pack,
  without, above, age,
}
use confidential_content_pla.Concurrency.{latest_score}
use confidential_content_pla.Concurrency.Items.{is_set, is_set_value}

-- `ZSCORE`
abbrev pub score : String → List (String × ℕ) → Option ℕ
score m [] = none
score m ((k, s) ∷ z) = if str_eq k m then some s else score m z

pub score-le-latest_score :
    (m : String) (s : ℕ) (z : List (String × ℕ)) → score m z ≡ some s → s ≤ latest_score z
score-le-latest_score m s [] h = cc
score-le-latest_score m s ((k, r) ∷ z) h = ground (arith, score-le-latest_score m s z)

pub score-above :
    (m : String) (s limit : ℕ) (z : List (String × ℕ))
    → score m z ≡ some s
    → limit < s
    → score m (above limit z) ≡ some s
score-above m s limit [] h l = h
score-above m s limit ((k, r) ∷ z) h l = ground (arith, score-above m s limit z)

pub score-without :
    (m k : String) (s : ℕ) (z : List (String × ℕ))
    → k ≢ m
    → score m z ≡ some s
    → score m (without k z) ≡ some s
score-without m k s [] n h = h
score-without m k s ((i, r) ∷ z) n h =
    ground (arith, score-without m k s z n, eq_iff i k, eq_iff i m)

pub latest_score-above :
    (limit : ℕ) (z : List (String × ℕ)) → latest_score (above limit z) ≤ latest_score z
latest_score-above limit [] = omega arith
latest_score-above limit ((k, r) ∷ z) = ground (arith, latest_score-above limit z)

pub latest_score-without :
    (m : String) (z : List (String × ℕ)) → latest_score (without m z) ≤ latest_score z
latest_score-without m [] = omega arith
latest_score-without m ((k, r) ∷ z) = ground (arith, latest_score-without m z)

-- The lease stands in the set with its deadline, and the set outlives all its leases.
pub record Running (lease : String) (deadline clock : ℕ) (i : Option Item) : Type 0 where
  pub set : List (String × ℕ)
  pub ttl : ℕ
  pub stands : i ≡ some (record { value = sorted_set set; ttl = some ttl })
  pub listed : score lease set ≡ some deadline
  pub outlives : latest_score set ≤ clock + ttl

module _ (lease : String) (deadline clock : ℕ) where
  pub Running-age :
      (ms : ℕ) (i : Option Item)
      → clock + ms < deadline
      → Running lease deadline clock i
      → Running lease deadline (clock + ms) (age ms i)
  Running-age ms i early r =
      let before : deadline ≤ latest_score r.set =
        score-le-latest_score lease deadline r.set r.listed in
      let alive : leb r.ttl ms ≡ false = ground (arith, before, r.outlives) in
      record {
        set = r.set;
        ttl = r.ttl - ms;
        stands = ap (age ms) r.stands ∙ rw alive refl;
        listed = r.listed;
        outlives = omega (arith, before, r.outlives);
      }

  -- In a set that keeps the lease, and its time to live.
  pub Running-change :
      (f : List (String × ℕ) → List (String × ℕ)) (i : Option Item)
      → ((z : List (String × ℕ))
          → score lease z ≡ some deadline
          → score lease (f z) ≡ some deadline)
      → ((z : List (String × ℕ)) → latest_score (f z) ≤ latest_score z)
      → Running lease deadline clock i
      → Running lease deadline clock (change_members f i)
  Running-change f i kept less r = record {
    set = f r.set;
    ttl = r.ttl;
    stands = ap (change_members f) r.stands ∙ packed (f r.set) (kept r.set r.listed);
    listed = kept r.set r.listed;
    outlives = omega (arith, less r.set, r.outlives);
  }
    where
      packed :
          (z : List (String × ℕ))
          → score lease z ≡ some deadline
          → pack z (some r.ttl) ≡ some (record { value = sorted_set z; ttl = some r.ttl })
      packed [] h = cc
      packed (x ∷ z) h = refl

-- A member is added to a set or to nothing.
pub change-add :
    (m : String) (s : ℕ) (i : Option Item)
    → is_set i ≡ true
    → (t : Option ℕ) × (change_members (λ z. (m, s) ∷ without m z) i
        ≡ some (record { value = sorted_set ((m, s) ∷ without m (members_of i)); ttl = t }))
change-add m s none h = (none, refl)
change-add m s (some i) h = (i.ttl, added i.value h)
  where
    added :
        (v : Value)
        → is_set_value v ≡ true
        → change_set (λ z. (m, s) ∷ without m z) v i.ttl
          ≡ some (record { value = sorted_set ((m, s) ∷ without m (set_members v)); ttl = i.ttl })
    added (hash x) e = cc
    added (text x) e = cc
    added (sorted_set x) e = refl

-- No pair of a lease and a key is the one given.
abbrev pub Unnamed : (lease key : String) → List (String × String) → Type 0
Unnamed lease key [] = Unit {0}
Unnamed lease key ((m, k) ∷ pairs) = ((k ≢ key) ⊎ (m ≢ lease)) × Unnamed lease key pairs
