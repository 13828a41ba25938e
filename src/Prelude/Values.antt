-- ===== src/Prelude/Values.antt =====
-- What `JSON.parse` gives: an object has its own fields once each, in order. A number is an integer, or
-- some other number, of which nothing more is asked.
use Prim.Native.Nat.{ℕ, suc, ◌^◌, ◌-◌}
use Prim.Native.String.{String}
use mathlib.Core.Bool.{Bool}
use mathlib.Core.Option.{Option, none, some}
use mathlib.Core.List.{List, [], ◌∷◌}
use text.Mathlib.Text.{◌==◌ as str_eq}
use confidential_content_pla.Prelude.Int.{ℤ, pos}
use confidential_content_pla.Prelude.Tests.{leb, if◌then◌else◌}
use confidential_content_pla.Prelude.Texts.{◌^^◌}

pub data Number : Type 0 where
  integer : ℤ → Number
  no_integer : Number

mutual
  pub data Json : Type 0 where
    null : Json
    boolean : Bool → Json
    number : Number → Json
    string : String → Json
    array : Items → Json
    object : Fields → Json

  pub data Items : Type 0 where
    nothing : Items
    item : Json → Items → Items

  pub data Fields : Type 0 where
    no_field : Fields
    field : String → Json → Fields → Fields

abbrev pub max_safe_integer : ℕ
max_safe_integer = 2 ^ 53 - 1

-- `Number.isSafeInteger(n) && n >= 0`, with the number.
abbrev pub safe_natural : Number → Option ℕ
safe_natural (integer (pos n)) = if leb n max_safe_integer then some n else none
safe_natural _ = none

-- `value.name`, where `undefined` is `none`.
abbrev pub get_field : String → Fields → Option Json
get_field name no_field = none
get_field name (field f v fs) = if str_eq f name then some v else get_field name fs

-- `Object.keys`
abbrev pub field_names : Fields → List String
field_names no_field = []
field_names (field f v fs) = f ∷ field_names fs

-- `texts.join(",")`
abbrev pub join : List String → String
join [] = ""
join (s ∷ []) = s
join (s ∷ t ∷ ss) = s ^^ ("," ^^ join (t ∷ ss))

abbrev pub count_items : Items → ℕ
count_items nothing = 0
count_items (item v vs) = suc (count_items vs)
