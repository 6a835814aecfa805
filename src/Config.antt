-- ===== src/Config.antt =====
-- config/config.h and config/config.cpp: the file of keys and values that the server reads at its start.
pub mod Loader
use didactic_pancake_server.Prelude.{
  ℕ, ◌-◌, Bytes, same, precedes, lit, Bool, true, false, not, ◌||◌, ◌&&◌, Option, none, some, List,
  [], ◌∷◌, ◌++◌, leb, ◌==◌, if◌then◌else◌,
}

-- m_Contents is the list of its pairs, in the order of the keys.
pub record Config : Type 0 where
  pub delimiter : Bytes
  pub comment : Bytes
  pub contents : List (Bytes × Bytes)

-- Config(): "=" and "#"
abbrev pub empty_config : Config
empty_config = record { delimiter = 61 ∷ []; comment = 35 ∷ []; contents = [] }

-- m_Contents[key] = value
unfoldable pub store : Bytes → Bytes → List (Bytes × Bytes) → List (Bytes × Bytes)
store key value [] = (key, value) ∷ []
store key value ((k, v) ∷ rest) =
    let later = store key value rest in
    if same k key
    then (k, value) ∷ rest
    else if precedes key k
    then (key, value) ∷ (k, v) ∷ rest
    else (k, v) ∷ later

-- m_Contents.find(key)
unfoldable pub find : Bytes → List (Bytes × Bytes) → Option Bytes
find key [] = none
find key ((k, v) ∷ rest) = let later = find key rest in if same k key then some v else later

-- " \n\t\v\r\f"
abbrev pub is_white : ℕ → Bool
is_white c = c == 32 || (c == 10 || (c == 9 || (c == 11 || (c == 13 || c == 12))))

unfoldable pub trim_start : Bytes → Bytes
trim_start [] = []
trim_start (c ∷ s) = let rest = trim_start s in if is_white c then rest else c ∷ s

abbrev pub join_end : ℕ → Bytes → Bytes
join_end c [] = if is_white c then [] else c ∷ []
join_end c (d ∷ s) = c ∷ d ∷ s

unfoldable pub trim_end : Bytes → Bytes
trim_end [] = []
trim_end (c ∷ s) = join_end c (trim_end s)

unfoldable pub trim : Bytes → Bytes
unfolding trim_start trim_end
trim s = trim_end (trim_start s)

abbrev pub is_nil : Bytes → Bool
is_nil [] = true
is_nil (c ∷ s) = false

unfoldable pub is_blank : Bytes → Bool
unfolding trim
is_blank s = is_nil (trim s)

abbrev pub save : Bytes → Bytes → List (Bytes × Bytes) → List (Bytes × Bytes)
save key line contents = store (trim key) (trim line) contents

unfoldable pub key_exists : Bytes → Config → Bool
unfolding find
key_exists key cf = elim (find key cf.contents) [ none ↦ false | some v ↦ true ]

-- operator<<
unfoldable pub print_entries : Config → List (Bytes × Bytes) → Bytes
print_entries cf [] = []
print_entries cf ((key, value) ∷ rest) =
    (key ++ (lit " " ++ (cf.delimiter ++ (lit " " ++ value)))) ++ (10 ∷ print_entries cf rest)

unfoldable pub print : Config → Bytes
unfolding print_entries
print cf = print_entries cf cf.contents

-- erase(find(key)): `none` where the key is missing, for which find gives end().
unfoldable pub erase_key : Bytes → List (Bytes × Bytes) → Option (List (Bytes × Bytes))
erase_key key [] = none
erase_key key ((k, v) ∷ rest) =
    let later = erase_key key rest in
    if same k key then some rest else elim later [ none ↦ none | some l ↦ some ((k, v) ∷ l) ]

unfoldable pub remove : Bytes → Config → Option Config
unfolding erase_key
remove key cf = elim (erase_key key cf.contents) [
  | none ↦ none
  | some l ↦ some (record cf { contents = l })
]

-- Add, with T_as_string of the value.
unfoldable pub add : Bytes → Bytes → Config → Config
unfolding store trim
add key value cf = record cf { contents = save key value cf.contents }

-- string_as_T<bool>: its test is on the upper-case text.
abbrev pub to_upper : Bytes → Bytes
to_upper [] = []
to_upper (c ∷ s) = (if leb 97 c && leb c 122 then c - 32 else c) ∷ to_upper s

unfoldable pub string_as_bool : Bytes → Bool
string_as_bool s =
    let sup = to_upper s in
    not (
      same sup (lit "FALSE")
      || (same sup (lit "F")
          || (same sup (lit "NO")
              || (same sup (lit "N") || (same sup (lit "0") || same sup (lit "NONE"))))))

module _ {ℓ} {T : Type ℓ} (string_as : Bytes → T) where
  -- Read(key): `none` for Key_not_found.
  unfoldable pub read : Bytes → Config → Option T
  read key cf = elim (find key cf.contents) [ none ↦ none | some v ↦ some (string_as v) ]

  -- Read(key, value)
  unfoldable pub read_or : Bytes → T → Config → T
  read_or key value cf = elim (find key cf.contents) [ none ↦ value | some v ↦ string_as v ]

  -- ReadInto(var, key) and ReadInto(var, key, value): whether the key is found, and var.
  unfoldable pub read_into : Bytes → T → Config → Bool × T
  read_into key var cf = elim (find key cf.contents) [
    | none ↦ (false, var)
    | some v ↦ (true, string_as v)
  ]
