-- ===== src/Concurrency/Items.antt =====
-- src/rate-limit/limiter.ts: the values at one key that the lease scripts work on.
use confidential_content_pla.Prelude.{
  ℕ, ◌≡◌, refl, ◌∙◌, sym, Option, none, some, Bool, true, false, List, [], ◌∷◌, String, ◌≢◌, ◌^^◌,
  append-cancel, texts_assoc, heads_differ,
}
use confidential_content_pla.Valkey.{
  Value, hash, text, sorted_set, Item, members_of, set_members, change_members, change_set, pack,
  expire_item,
}
use confidential_content_pla.Concurrency.{concurrency_key, request_key}

-- A change of members, where it leaves the empty set alone.
pub members-change :
    (f : List (String × ℕ) → List (String × ℕ)) (i : Option Item)
    → f [] ≡ []
    → members_of (change_members f i) ≡ f (members_of i)
members-change f none e = packed (f [])
  where
    packed : (z : List (String × ℕ)) → members_of (pack z none) ≡ z
    packed [] = refl
    packed (x ∷ z) = refl
members-change f (some i) e = changed i.value
  where
    packed : (z : List (String × ℕ)) → members_of (pack z i.ttl) ≡ z
    packed [] = refl
    packed (x ∷ z) = refl

    changed : (v : Value) → members_of (change_set f v i.ttl) ≡ f (set_members v)
    changed (hash m) = sym e
    changed (text s) = sym e
    changed (sorted_set z) = packed (f z)

pub members-expire : (ms : ℕ) (i : Option Item) → members_of (expire_item ms i) ≡ members_of i
members-expire ms none = refl
members-expire ms (some i) = refl

-- A key that holds a sorted set or nothing.
abbrev pub is_set_value : Value → Bool
is_set_value (sorted_set z) = true
is_set_value v = false

abbrev pub is_set : Option Item → Bool
is_set none = true
is_set (some i) = is_set_value i.value

pub is_set-pack : (z : List (String × ℕ)) (t : Option ℕ) → is_set (pack z t) ≡ true
is_set-pack [] t = refl
is_set-pack (x ∷ z) t = refl

pub is_set-change :
    (f : List (String × ℕ) → List (String × ℕ)) (i : Option Item)
    → is_set i ≡ true
    → is_set (change_members f i) ≡ true
is_set-change f none h = is_set-pack (f []) none
is_set-change f (some i) h = changed i.value h
  where
    changed : (v : Value) → is_set_value v ≡ true → is_set (change_set f v i.ttl) ≡ true
    changed (hash m) e = cc
    changed (text s) e = cc
    changed (sorted_set z) e = is_set-pack (f z) i.ttl

pub members-pack : (z : List (String × ℕ)) (t : Option ℕ) → members_of (pack z t) ≡ z
members-pack [] t = refl
members-pack (x ∷ z) t = refl

pub members-change_set :
    (f : List (String × ℕ) → List (String × ℕ)) (i : Option Item)
    → is_set i ≡ true
    → members_of (change_members f i) ≡ f (members_of i)
members-change_set f none h = members-pack (f []) none
members-change_set f (some i) h = changed i.value h
  where
    changed :
        (v : Value) → is_set_value v ≡ true → members_of (change_set f v i.ttl) ≡ f (set_members v)
    changed (hash m) e = cc
    changed (text s) e = cc
    changed (sorted_set z) e = members-pack (f z) i.ttl

pub key-ne-request_key : (key id : String) → request_key id ≢ concurrency_key key
unfolding request_key concurrency_key
key-ne-request_key key id h =
    heads_differ "-" ":" "request:" "" id key (λ e. cc e)
      (append-cancel "conc" ("-request:" ^^ id) (":" ^^ key)
        (sym (texts_assoc "conc" "-request:" id) ∙ h ∙ texts_assoc "conc" ":" key))
