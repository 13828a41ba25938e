-- ===== src/Valkey.antt =====
-- The Valkey service, which is no part of the repository: an interface with the documented effect of
-- the commands that the Lua scripts of src/inference/tickets.ts and src/rate-limit/limiter.ts call.
-- A script runs alone, so each is a function on the database. A command on a value of another type, which the
-- service refuses with an error, leaves the value as it is. Connection failures are left out.
-- The text of the shared guard comes from src/observability/valkey.ts.
pub mod Memory
use confidential_content_pla.Prelude.{
  eq_refl, eq_iff, arith, ◌≢◌, ℕ, ◌*◌, ◌/◌, ◌-◌, ◌<◌, ◌≡◌, Option, none, some, Bool, true, false,
  List, [], ◌∷◌, ◌++◌, String, str_eq, leb, ltb, ◌==◌, if◌then◌else◌, last_lookup, default,
}

-- A hash is the log of its assignments; a sorted set pairs members with scores.
pub data Value : Type 0 where
  hash : List (String × String) → Value
  text : String → Value
  sorted_set : List (String × ℕ) → Value

-- A key's value, and the milliseconds that it has left to live, if it has an expiry.
pub record Item : Type 0 where
  pub value : Value
  pub ttl : Option ℕ

abbrev pub extend : List (String × String) → Value → Value
extend fields (hash old) = hash (old ++ fields)
extend fields v = v

abbrev pub write_hash : List (String × String) → Option Item → Option Item
write_hash fields none = some (record { value = hash fields; ttl = none })
write_hash fields (some i) = some (record i { value = extend fields i.value })

abbrev pub expire_item : ℕ → Option Item → Option Item
expire_item ms none = none
expire_item ms (some i) = some (record i { ttl = some ms })

abbrev pub set_item : String → ℕ → Option Item → Option Item
set_item v ms none = some (record { value = text v; ttl = some ms })
set_item v ms (some i) = some i

-- Time passes: a key whose time is up is gone.
abbrev pub age_ttl : ℕ → Value → Option ℕ → Option Item
age_ttl ms v none = some (record { value = v; ttl = none })
age_ttl ms v (some t) = if leb t ms then none else some (record { value = v; ttl = some (t - ms) })

abbrev pub age : ℕ → Option Item → Option Item
age ms none = none
age ms (some i) = age_ttl ms i.value i.ttl

-- Members of a sorted set: `ZADD` moves a member that is there; an empty set has no key.
abbrev pub without : String → List (String × ℕ) → List (String × ℕ)
without m [] = []
without m ((n, s) ∷ z) = if str_eq n m then without m z else (n, s) ∷ without m z

abbrev pub above : ℕ → List (String × ℕ) → List (String × ℕ)
above limit [] = []
above limit ((n, s) ∷ z) = if leb s limit then above limit z else (n, s) ∷ above limit z

abbrev pub pack : List (String × ℕ) → Option ℕ → Option Item
pack [] t = none
pack (x ∷ z) t = some (record { value = sorted_set (x ∷ z); ttl = t })

abbrev pub change_set : (List (String × ℕ) → List (String × ℕ)) → Value → Option ℕ → Option Item
change_set f (sorted_set z) t = pack (f z) t
change_set f v t = some (record { value = v; ttl = t })

abbrev pub change_members : (List (String × ℕ) → List (String × ℕ)) → Option Item → Option Item
change_members f none = pack (f []) none
change_members f (some i) = change_set f i.value i.ttl

abbrev pub at_key {ℓ} : {A : Type ℓ} → String → String → A → A → A
at_key k j x y = if str_eq k j then x else y

-- The service. `view db k` is what stands at the key `k`; a law tells what a command does to it.
pub record Valkey : Type 1 where
  pub Db : Type 0
  pub view : Db → String → Option Item
  pub used_memory : Db → Option ℕ
  pub maxmemory : Db → Option ℕ
  pub hset : String → List (String × String) → Db → Db
  pub pexpire : String → ℕ → Db → Db
  pub del : String → Db → Db
  pub set_px_nx : String → String → ℕ → Db → Db
  pub zadd : String → ℕ → String → Db → Db
  pub zrem : String → String → Db → Db
  pub zremrangebyscore : String → ℕ → Db → Db
  pub wait : ℕ → Db → Db
  pub view-hset :
      (k j : String) (fields : List (String × String)) (db : Db)
      → view (hset k fields db) j ≡ at_key k j (write_hash fields (view db j)) (view db j)
  pub view-pexpire :
      (k j : String) (ms : ℕ) (db : Db)
      → view (pexpire k ms db) j ≡ at_key k j (expire_item ms (view db j)) (view db j)
  pub view-del : (k j : String) (db : Db) → view (del k db) j ≡ at_key k j none (view db j)
  pub view-set_px_nx :
      (k j v : String) (ms : ℕ) (db : Db)
      → view (set_px_nx k v ms db) j ≡ at_key k j (set_item v ms (view db j)) (view db j)
  pub view-zadd :
      (k j m : String) (score : ℕ) (db : Db)
      → view (zadd k score m db) j
        ≡ at_key k j (change_members (λ z. (m, score) ∷ without m z) (view db j)) (view db j)
  pub view-zrem :
      (k j m : String) (db : Db)
      → view (zrem k m db) j ≡ at_key k j (change_members (without m) (view db j)) (view db j)
  pub view-zremrangebyscore :
      (k j : String) (limit : ℕ) (db : Db)
      → view (zremrangebyscore k limit db) j
        ≡ at_key k j (change_members (above limit) (view db j)) (view db j)
  pub view-wait : (j : String) (ms : ℕ) (db : Db) → view (wait ms db) j ≡ age ms (view db j)

-- The reading commands.
abbrev pub is_some {ℓ} : {A : Type ℓ} → Option A → Bool
is_some none = false
is_some (some a) = true

-- `used < math.floor(maximum * 0.98)`, in whole numbers.
abbrev pub capacity_left : Option ℕ → Option ℕ → Bool
capacity_left used none = false
capacity_left none (some m) = m == 0
capacity_left (some u) (some m) = if m == 0 then true else ltb u (m * 98 / 100)

abbrev pub hash_fields : Value → List (String × String)
hash_fields (hash m) = m
hash_fields v = []

abbrev pub fields_of : Option Item → List (String × String)
fields_of none = []
fields_of (some i) = hash_fields i.value

abbrev pub set_members : Value → List (String × ℕ)
set_members (sorted_set z) = z
set_members v = []

abbrev pub members_of : Option Item → List (String × ℕ)
members_of none = []
members_of (some i) = set_members i.value

-- `PTTL`, with 0 where it replies with a negative number.
abbrev pub remaining : Option Item → ℕ
remaining none = 0
remaining (some i) = default 0 i.ttl

module _ (V : Valkey) where
  open V use {Db, view, used_memory, maxmemory}

  unfoldable pub valkey_has_write_capacity : Db → Bool
  valkey_has_write_capacity db = capacity_left (used_memory db) (maxmemory db)

pub at_key_self {ℓ} : {A : Type ℓ} (k : String) (x y : A) → at_key k k x y ≡ x
at_key_self k x y = rw (eq_refl k)

pub at_key_ne {ℓ} : {A : Type ℓ} (k j : String) (x y : A) → k ≢ j → at_key k j x y ≡ y
at_key_ne k j x y h = let other : str_eq k j ≡ false = ground (arith, eq_iff k j) in rw other
