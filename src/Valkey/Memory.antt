-- ===== src/Valkey/Memory.antt =====
-- A database in memory that has the documented effects: the interface can be met.
use confidential_content_pla.Prelude.{ℕ, refl, Option, none, some, ◌∷◌, String}
use confidential_content_pla.Valkey.{
  Valkey, Item, write_hash, expire_item, set_item, age, without, above, change_members, at_key,
}

pub record Memory : Type 0 where
  pub keys : String → Option Item
  pub used : Option ℕ
  pub maximum : Option ℕ

abbrev update : (String → Option Item → Option Item) → Memory → Memory
update f m = record m { keys = λ j. f j (m.keys j) }

abbrev pub memory : Valkey
memory = record {
  Db = Memory;
  view = λ m. m.keys;
  used_memory = λ m. m.used;
  maxmemory = λ m. m.maximum;
  hset = λ k fs. update (λ j i. at_key k j (write_hash fs i) i);
  pexpire = λ k ms. update (λ j i. at_key k j (expire_item ms i) i);
  del = λ k. update (λ j i. at_key k j none i);
  set_px_nx = λ k v ms. update (λ j i. at_key k j (set_item v ms i) i);
  zadd = λ k s m. update (λ j i. at_key k j (change_members (λ z. (m, s) ∷ without m z) i) i);
  zrem = λ k m. update (λ j i. at_key k j (change_members (without m) i) i);
  zremrangebyscore = λ k l. update (λ j i. at_key k j (change_members (above l) i) i);
  wait = λ ms. update (λ j i. age ms i);
  view-hset = λ k j fs db. refl;
  view-pexpire = λ k j ms db. refl;
  view-del = λ k j db. refl;
  view-set_px_nx = λ k j v ms db. refl;
  view-zadd = λ k j m s db. refl;
  view-zrem = λ k j m db. refl;
  view-zremrangebyscore = λ k j l db. refl;
  view-wait = λ j ms db. refl;
}

-- An empty database with room.
abbrev pub empty_memory : Memory
empty_memory = record { keys = λ _. none; used = some 1; maximum = some 1_000 }
