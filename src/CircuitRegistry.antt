-- ===== src/CircuitRegistry.antt =====
-- src/providers/circuitBreaker.ts, class VeniceCircuitBreakerRegistry. The Map is a list in insertion
-- order. A breaker is an object that its users change: the map holds references into `store`.
-- Texts are lists of UTF-16 code units, which is what `slice` counts.
pub mod Lookup
pub mod References
pub mod Eviction
pub mod Recency
mod Tests
use confidential_content_pla.Prelude.{
  ℕ, suc, ◌+◌, min, max, ◌≡◌, refl, ◌↔◌, default, Option, none, some, Bool, true, false, ◌&&◌, List,
  [], ◌∷◌, ◌++◌, arith, ◌==◌, leb, if◌then◌else◌, length, take,
}
use confidential_content_pla.Breaker.{Breaker, CircuitBreakerOptions, new}

pub data VeniceCircuitOperation : Type 0 where
  attestation chat stream embeddings image speech : VeniceCircuitOperation

-- The operation's literal, in code units.
unfoldable pub literal : VeniceCircuitOperation → List ℕ
literal attestation =
    b'a' ∷ b't' ∷ b't' ∷ b'e' ∷ b's' ∷ b't' ∷ b'a' ∷ b't' ∷ b'i' ∷ b'o' ∷ b'n' ∷ []
literal chat = b'c' ∷ b'h' ∷ b'a' ∷ b't' ∷ []
literal stream = b's' ∷ b't' ∷ b'r' ∷ b'e' ∷ b'a' ∷ b'm' ∷ []
literal embeddings = b'e' ∷ b'm' ∷ b'b' ∷ b'e' ∷ b'd' ∷ b'd' ∷ b'i' ∷ b'n' ∷ b'g' ∷ b's' ∷ []
literal image = b'i' ∷ b'm' ∷ b'a' ∷ b'g' ∷ b'e' ∷ []
literal speech = b's' ∷ b'p' ∷ b'e' ∷ b'e' ∷ b'c' ∷ b'h' ∷ []

-- `${operation}\u0000${externalModelId.slice(0, 256)}`
unfoldable pub scope_key : VeniceCircuitOperation → List ℕ → List ℕ
unfolding literal
scope_key operation model = literal operation ++ 0 ∷ take 256 model

pub same_text : List ℕ → List ℕ → Bool
same_text [] [] = true
same_text (a ∷ s) (b ∷ t) = a == b && same_text s t
same_text _ _ = false

pub record Registry : Type 0 where
  pub network : Breaker
  pub scoped_options : CircuitBreakerOptions
  pub max_scoped_breakers : ℕ
  pub scoped_breakers : List (List ℕ × ℕ)
  pub store : ℕ → Breaker
  pub next : ℕ

-- The cap is a natural number here; JavaScript would also take a fraction or NaN, with which nothing is
-- ever evicted.
pub record RegistryOptions : Type 0 where
  pub network_options : CircuitBreakerOptions
  pub scoped_options : CircuitBreakerOptions
  pub max_scoped_breakers : Option ℕ

unfoldable pub new_registry : RegistryOptions → Registry
new_registry options = record {
  network = new options.network_options;
  scoped_options = options.scoped_options;
  max_scoped_breakers = max 1 (min 4_096 (default 512 options.max_scoped_breakers));
  scoped_breakers = [];
  store = λ _. new options.scoped_options;
  next = 0;
}

-- `Map.get`
unfoldable pub get : List ℕ → List (List ℕ × ℕ) → Option ℕ
unfolding same_text
get k [] = none
get k ((j, r) ∷ m) = if same_text j k then some r else get k m

-- `Map.delete`
unfoldable pub delete : List ℕ → List (List ℕ × ℕ) → List (List ℕ × ℕ)
unfolding same_text
delete k [] = []
delete k ((j, r) ∷ m) = if same_text j k then m else (j, r) ∷ delete k m

abbrev pub remove_oldest : List (List ℕ × ℕ) → List (List ℕ × ℕ)
remove_oldest [] = []
remove_oldest (_ ∷ m) = m

refresh : List ℕ → ℕ → Registry → Registry
unfolding delete
refresh k r g = record g { scoped_breakers = delete k g.scoped_breakers ++ (k, r) ∷ [] }

pub evict : Registry → Registry
evict g =
    if leb g.max_scoped_breakers (length g.scoped_breakers)
    then record g { scoped_breakers = remove_oldest g.scoped_breakers }
    else g

create : List ℕ → Registry → Registry
create k g = record g {
  scoped_breakers = g.scoped_breakers ++ (k, g.next) ∷ [];
  store = λ r. if r == g.next then new g.scoped_options else g.store r;
  next = g.next + 1;
}

scoped_with : List ℕ → Registry → Option ℕ → ℕ × Registry
scoped_with k g (some r) = (r, refresh k r g)
scoped_with k g none = (g.next, create k (evict g))

unfoldable pub scoped : VeniceCircuitOperation → List ℕ → Registry → ℕ × Registry
unfolding scoped_with refresh evict create
scoped operation model g =
    let k = scope_key operation model in scoped_with k g (get k g.scoped_breakers)

unfoldable pub scoped_size : Registry → ℕ
scoped_size g = length g.scoped_breakers

-- A sequence of calls of `scoped`.
unfoldable pub scoped_all : List (VeniceCircuitOperation × List ℕ) → Registry → Registry
scoped_all [] g = g
scoped_all ((operation, model) ∷ calls) g = scoped_all calls (scoped operation model g).1
