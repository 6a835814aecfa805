-- ===== src/Config/Loader.antt =====
-- config/config.cpp: operator>>, which reads a Config from a stream.
pub mod Printed
pub mod RoundTrip
use didactic_pancake_server.Prelude.{
  ℕ, Bytes, Bool, true, false, Option, none, some, List, [], ◌∷◌, ◌++◌, ◌==◌, if◌then◌else◌,
}
use didactic_pancake_server.Config.{Config, is_nil, is_blank, save}

-- The bytes behind a prefix.
unfoldable pub strip : Bytes → Bytes → Option Bytes
strip [] s = some s
strip (c ∷ p) [] = none
strip (c ∷ p) (d ∷ s) = let rest = strip p s in if c == d then rest else none

-- s.find(p): what stands in front of the first occurrence, and behind it.
abbrev pub found_later : ℕ → Option (Bytes × Bytes) → Option (Bytes × Bytes)
found_later c none = none
found_later c (some (before, behind)) = some (c ∷ before, behind)

abbrev pub found_first : Option Bytes → Option (Bytes × Bytes) → Option (Bytes × Bytes)
found_first none later = later
found_first (some behind) later = some ([], behind)

unfoldable pub split_at : Bytes → Bytes → Option (Bytes × Bytes)
unfolding strip
split_at p [] = found_first (strip p []) none
split_at p (c ∷ s) = found_first (strip p (c ∷ s)) (found_later c (split_at p s))

-- line.substr(0, line.find(comm))
unfoldable pub uncomment : Config → Bytes → Bytes
uncomment cf line = elim (split_at cf.comment line) [ none ↦ line | some (before, behind) ↦ before ]

-- The lines of a file, and whether the last one has no '\n'.
abbrev pub next_char : ℕ → List Bytes × Bool → List Bytes × Bool
next_char c ([], unended) = ((c ∷ []) ∷ [], true)
next_char c (line ∷ lines, unended) = ((c ∷ line) ∷ lines, unended)

unfoldable pub lines_of : Bytes → List Bytes × Bool
lines_of [] = ([], false)
lines_of (c ∷ s) =
    let (lines, unended) = lines_of s in
    let inside = next_char c (lines, unended) in if c == 10 then ([] ∷ lines, unended) else inside

-- Where the loader stands between two lines: at the head of the outer loop with an empty
-- nextline, or in the loop that reads the value of a key, with `nextline` as it is then.
pub data Reading : Type 0 where
  idle : Reading
  entry : Bytes → Bytes → Bytes → Reading

-- One round of the outer loop, over `line`; `go` is what follows.
abbrev pub start_entry :
    Option (Bytes × Bytes) → (Reading → List (Bytes × Bytes)) → List (Bytes × Bytes)
start_entry none go = go idle
start_entry (some (key, rest)) go = go (entry key rest [])

unfoldable pub start : Config → Bytes → (Reading → List (Bytes × Bytes)) → List (Bytes × Bytes)
unfolding uncomment split_at
start cf line go = start_entry (split_at cf.delimiter (uncomment cf line)) go

-- The same, once the stream has failed.
abbrev pub last_entry : Option (Bytes × Bytes) → List (Bytes × Bytes) → List (Bytes × Bytes)
last_entry none contents = contents
last_entry (some (key, rest)) contents = save key rest contents

unfoldable pub last_line : Config → Bytes → List (Bytes × Bytes) → List (Bytes × Bytes)
last_line cf line contents = last_entry (split_at cf.delimiter (uncomment cf line)) contents

unfoldable pub has_delim : Config → Bytes → Bool
has_delim cf line = elim (split_at cf.delimiter line) [ none ↦ false | some found ↦ true ]

-- The value with one more line.
unfoldable pub extend : Bytes → Bytes → Bytes
unfolding is_blank
extend value line = if is_blank line then value ++ line else value ++ (10 ∷ line)

-- The outer loop behind an entry: a nextline that is not empty is the line of the next round.
unfoldable pub resume : Config → Bytes → (Reading → List (Bytes × Bytes)) → List (Bytes × Bytes)
unfolding start
resume cf nextline go = if is_nil nextline then go idle else start cf nextline go

-- The end of the lines. A getline behind a last line that has a '\n' empties nextline; behind one
-- that has none it leaves nextline as it is.
unfoldable pub finish : Config → Bool → Reading → List (Bytes × Bytes) → List (Bytes × Bytes)
unfolding last_line
finish cf unended idle contents = last_line cf [] contents
finish cf false (entry key value nextline) contents = save key value contents
finish cf true (entry key value nextline) contents =
    let cut = uncomment cf nextline in
    let behind : Bytes → List (Bytes × Bytes) → List (Bytes × Bytes) =
      λ line saved. if is_nil line then saved else last_line cf line saved in
    if is_blank nextline
    then behind nextline (save key value contents)
    else if has_delim cf cut
    then behind cut (save key value contents)
    else behind cut (save key (extend value cut) contents)

unfoldable pub load_lines :
    Config → Bool → List Bytes → Reading → List (Bytes × Bytes) → List (Bytes × Bytes)
unfolding start finish resume has_delim extend
load_lines cf unended [] reading contents = finish cf unended reading contents
load_lines cf unended (line ∷ lines) idle contents =
    start cf line (λ r. load_lines cf unended lines r contents)
load_lines cf unended (line ∷ lines) (entry key value nextline) contents =
    let cut = uncomment cf line in
    let saved = save key value contents in
    let go : Reading → List (Bytes × Bytes) = λ r. load_lines cf unended lines r saved in
    let more = load_lines cf unended lines (entry key (extend value cut) cut) contents in
    if is_blank line then resume cf line go else if has_delim cf cut then resume cf cut go else more

-- operator>>
unfoldable pub load : Bytes → Config → Config
unfolding load_lines lines_of
load text cf = record cf {
  contents = load_lines cf (lines_of text).1 (lines_of text).0 idle cf.contents;
}

-- Config(filename, delimiter, comment), when the file has this text; `none` for File_not_found.
unfoldable pub from_file : Bytes → Bytes → Option Bytes → Option Config
unfolding load
from_file delimiter comment none = none
from_file delimiter comment (some text) =
    some (load text (record { delimiter = delimiter; comment = comment; contents = [] }))
