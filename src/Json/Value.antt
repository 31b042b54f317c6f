-- ===== src/Json/Value.antt =====
-- `Json` and its accessors. A string is a list of characters.
use Prim.Native.Char.{Char, code}
use Prim.Native.String.{String}
use thrax.Prelude.{
  ℕ, Bool, true, false, ◌&&◌, ◌==◌, Option, none, some, List, [], ◌∷◌, if◌then◌else◌,
}

abbrev pub Text : Type 0
Text = List Char

abbrev pub chars : String → Text
chars String.[] = []
chars (String.◌∷◌ c s) = c ∷ chars s

-- `==` on strings
unfoldable pub eq_text : Text → Text → Bool
eq_text [] [] = true
eq_text [] (d ∷ t) = false
eq_text (c ∷ s) [] = false
eq_text (c ∷ s) (d ∷ t) = code c == code d && eq_text s t

-- An `f64`, as the number that its 64 bits are; what the code computes with one is a parameter.
abbrev pub Float : Type 0
Float = ℕ

mutual
  pub data Json : Type 0 where
    null : Json
    bool : Bool → Json
    num : Float → Json
    str : Text → Json
    arr : Items → Json
    obj : Pairs → Json

  pub data Items : Type 0 where
    no_items : Items
    item : Json → Items → Items

  pub data Pairs : Type 0 where
    no_pairs : Pairs
    pair : (key : Text) (value : Json) → Pairs → Pairs

unfoldable pub find_pair : Pairs → Text → Json
unfolding eq_text
find_pair no_pairs key = null
find_pair (pair k v ps) key = let rest = find_pair ps key in if eq_text k key then v else rest

unfoldable pub get : Json → Text → Json
unfolding find_pair
get (obj ps) key = find_pair ps key
get j key = null

-- The first pair of this key gets the value, or a pair is added at the end.
unfoldable pub set_pair : Pairs → Text → Json → Pairs
unfolding eq_text
set_pair no_pairs key value = pair key value no_pairs
set_pair (pair k v ps) key value =
    let rest = set_pair ps key value in if eq_text k key then pair k value ps else pair k v rest

unfoldable pub set : Json → Text → Json → Json
unfolding set_pair
set (obj ps) key value = obj (set_pair ps key value)
set j key value = j

unfoldable pub as_str : Json → Option Text
as_str (str s) = some s
as_str j = none

unfoldable pub as_bool : Json → Option Bool
as_bool (bool b) = some b
as_bool j = none

unfoldable pub as_arr : Json → Items
as_arr (arr xs) = xs
as_arr j = no_items

unfoldable pub is_null : Json → Bool
is_null null = true
is_null j = false
