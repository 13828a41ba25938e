-- ===== src/Prelude/Json.antt =====
-- `JSON.stringify` on texts, lists of texts and natural numbers, and JavaScript's order of texts.
use Prim.Native.Char.{Char, code}
use Prim.Native.Nat.{ℕ, zero, suc, ◌+◌, ◌-◌, ◌/◌, ◌%◌}
use Prim.Native.String.{String}
use mathlib.Core.Bool.{Bool, true, false, ◌&&◌, ◌||◌}
use mathlib.Core.List.{List, [], ◌∷◌}
use confidential_content_pla.Prelude.Tests.{ltb, ◌==◌, if◌then◌else◌}
use confidential_content_pla.Prelude.Texts.{◌^^◌}

abbrev pub digit_text : ℕ → String
digit_text n =
    if n == 0
    then "0"
    else if n == 1
    then "1"
    else if n == 2
    then "2"
    else if n == 3
    then "3"
    else if n == 4
    then "4"
    else if n == 5
    then "5"
    else if n == 6
    then "6"
    else if n == 7
    then "7"
    else if n == 8
    then "8"
    else "9"

-- The digits of a number, with room for as many.
unfoldable pub decimal_in : (room n : ℕ) → String
decimal_in zero n = ""
decimal_in (suc room) n =
    let front = decimal_in room (n / 10) in
    if ltb n 10 then digit_text n else front ^^ digit_text (n % 10)

-- `String(n)`
unfoldable pub decimal : ℕ → String
unfolding decimal_in
decimal n = decimal_in (suc n) n

abbrev pub hexadecimal_text : ℕ → String
hexadecimal_text n =
    if ltb n 10
    then digit_text n
    else if n == 10
    then "a"
    else if n == 11
    then "b"
    else if n == 12
    then "c"
    else if n == 13
    then "d"
    else if n == 14
    then "e"
    else "f"

abbrev pub escape_control : ℕ → String
escape_control c =
    if c == 8
    then "\\b"
    else if c == 9
    then "\\t"
    else if c == 10
    then "\\n"
    else if c == 12
    then "\\f"
    else if c == 13
    then "\\r"
    else "\\u00" ^^ (digit_text (c / 16) ^^ hexadecimal_text (c % 16))

abbrev pub escape_character : Char → String
escape_character c =
    if code c == b'"'
    then "\\\""
    else if code c == 92
    then "\\\\"
    else if ltb (code c) 32
    then escape_control (code c)
    else String.◌∷◌ c String.[]

unfoldable pub escape : String → String
escape String.[] = ""
escape (String.◌∷◌ c s) = escape_character c ^^ escape s

unfoldable pub json_text : String → String
unfolding escape
json_text s = "\"" ^^ (escape s ^^ "\"")

unfoldable pub json_items : List String → String
unfolding json_text
json_items [] = ""
json_items (s ∷ []) = json_text s
json_items (s ∷ t ∷ ss) = json_text s ^^ ("," ^^ json_items (t ∷ ss))

unfoldable pub json_list : List String → String
unfolding json_items
json_list ss = "[" ^^ (json_items ss ^^ "]")

abbrev pub json_bool : Bool → String
json_bool true = "true"
json_bool false = "false"

-- The UTF-16 code units of a text.
abbrev pub units_of : ℕ → List ℕ → List ℕ
units_of c rest =
    if ltb c 65_536
    then c ∷ rest
    else (55_296 + (c - 65_536) / 1_024) ∷ (56_320 + (c - 65_536) % 1_024) ∷ rest

abbrev pub code_units : String → List ℕ
code_units String.[] = []
code_units (String.◌∷◌ c s) = units_of (code c) (code_units s)

unfoldable pub units_before : List ℕ → List ℕ → Bool
units_before [] [] = false
units_before [] (b ∷ t) = true
units_before (a ∷ s) [] = false
units_before (a ∷ s) (b ∷ t) = ltb a b || (a == b && units_before s t)

unfoldable pub text_before : String → String → Bool
unfolding units_before
text_before s t = units_before (code_units s) (code_units t)

-- `[...texts].sort()`
unfoldable pub insert_text : String → List String → List String
unfolding text_before
insert_text s [] = s ∷ []
insert_text s (t ∷ ts) = if text_before t s then t ∷ insert_text s ts else s ∷ t ∷ ts

unfoldable pub sort_texts : List String → List String
unfolding insert_text
sort_texts [] = []
sort_texts (s ∷ ss) = insert_text s (sort_texts ss)
