-- ===== src/Config/Loader/RoundTrip.antt =====
-- A configuration that is printed and loaded again.
use mathlib.Core.List.{map, append_assoc}
use didactic_pancake_server.Prelude.{
  Bytes, same, precedes, false, List, [], ◌∷◌, ◌++◌, ◌≡◌, refl, ap, ◌∙◌,
}
use didactic_pancake_server.Config.{empty_config, store, trim, print, is_nil, is_blank, save}
use didactic_pancake_server.Config.Loader.{
  uncomment, Reading, idle, entry, has_delim, resume, finish, last_line, load_lines, load, split_at,
}
use didactic_pancake_server.Config.Loader.Printed.{
  IsPlain, AllPlain, trim_space, is_blank_delim, line_of, plain, lines_of-print_entries,
  uncomment-line, split_line, start-line,
}

-- The key stands behind all keys of the list.
abbrev pub Behind : Bytes → List (Bytes × Bytes) → Type 0
Behind key [] = Unit {0}
Behind key ((k, v) ∷ rest) = (same k key ≡ false) × (precedes key k ≡ false) × Behind key rest

-- Every key stands behind those in front of it, as in a map.
abbrev pub Grows : List (Bytes × Bytes) → List (Bytes × Bytes) → Type 0
Grows done [] = Unit {0}
Grows done ((key, value) ∷ rest) = Behind key done × Grows (done ++ ((key, value) ∷ [])) rest

store_last :
    (key value : Bytes) (done : List (Bytes × Bytes))
    → Behind key done
    → store key value done ≡ done ++ ((key, value) ∷ [])
unfolding store
store_last key value [] h = refl
store_last key value ((k, v) ∷ rest) (other, later, h) =
    rw (other, later, store_last key value rest h) refl

save-plain :
    (key value : Bytes) (done : List (Bytes × Bytes))
    → IsPlain key
    → IsPlain value
    → Behind key done
    → save (key ++ (32 ∷ [])) (32 ∷ value) done ≡ done ++ ((key, value) ∷ [])
unfolding trim
save-plain key value done hk hv h =
    let name : trim (key ++ (32 ∷ [])) ≡ key = trim_space key ∙ hk.trimmed in
    let text : trim (32 ∷ value) ≡ value = hv.trimmed in
    ap (λ k. store k (trim (32 ∷ value)) done) name
    ∙ ap (λ v. store key v done) text
    ∙ store_last key value done h

line_of_full : (key value : Bytes) → is_nil (line_of (key, value)) ≡ false
line_of_full [] value = refl
line_of_full (c ∷ key) value = refl

resume-line :
    (cf : List (Bytes × Bytes)) (key value : Bytes)
    (go : Reading → List (Bytes × Bytes) → List (Bytes × Bytes)) (cs : List (Bytes × Bytes))
    → IsPlain key
    → IsPlain value
    → resume (plain cf) (line_of (key, value)) (λ r. go r cs)
      ≡ go (entry (key ++ (32 ∷ [])) (32 ∷ value) []) cs
unfolding resume
resume-line cf key value go cs hk hv =
    rw (resume, line_of_full key value) (start-line cf key value go cs hk hv)

-- The next entry ends the value of the one in front of it.
next_entry :
    (cf : List (Bytes × Bytes)) (es done : List (Bytes × Bytes)) (name text key value : Bytes)
    → IsPlain key
    → IsPlain value
    → load_lines (plain cf) false (map line_of ((key, value) ∷ es)) (entry name text []) done
      ≡ load_lines
          (plain cf)
          false
          (map line_of es)
          (entry (key ++ (32 ∷ [])) (32 ∷ value) [])
          (save name text done)
unfolding load_lines has_delim
next_entry cf es done name text key value hk hv =
    let not_blank : is_blank (line_of (key, value)) ≡ false =
      is_blank_delim (key ++ (32 ∷ [])) (32 ∷ value) in
    rw
      (load_lines, not_blank, uncomment-line cf key value hk hv, has_delim, split_line key value hk)
      (resume-line cf key value (load_lines (plain cf) false (map line_of es)) (save name text done)
        hk hv)

load-entries :
    (cf : List (Bytes × Bytes)) (es done : List (Bytes × Bytes)) (key value : Bytes)
    → AllPlain ((key, value) ∷ es)
    → Grows done ((key, value) ∷ es)
    → load_lines (plain cf) false (map line_of es) (entry (key ++ (32 ∷ [])) (32 ∷ value) []) done
      ≡ done ++ ((key, value) ∷ es)
unfolding load_lines finish
load-entries cf [] done key value (hk, hv, h) (behind, grows) =
    save-plain key value done hk hv behind
load-entries cf ((key', value') ∷ es) done key value (hk, hv, (hk', hv', h)) (behind, grows) =
    next_entry cf es done (key ++ (32 ∷ [])) (32 ∷ value) key' value' hk' hv'
    ∙ ap (load_lines (plain cf) false (map line_of es) (entry (key' ++ (32 ∷ [])) (32 ∷ value') []))
        (save-plain key value done hk hv behind)
    ∙ load-entries cf es (done ++ ((key, value) ∷ [])) key' value' (hk', hv', h) grows
    ∙ append_assoc done ((key, value) ∷ []) ((key', value') ∷ es)

load_lines-print :
    (es : List (Bytes × Bytes))
    → AllPlain es
    → Grows [] es
    → load_lines empty_config false (map line_of es) idle [] ≡ es
unfolding load_lines finish last_line uncomment split_at
load_lines-print [] h grows = refl
load_lines-print ((key, value) ∷ es) (hk, hv, h) grows =
    start-line [] key value (load_lines empty_config false (map line_of es)) [] hk hv
    ∙ load-entries [] es [] key value (hk, hv, h) grows

-- A configuration with '=' and '#' whose keys are in order, and whose keys and values have no '=',
-- no '#', no line end and no white space at their ends, is loaded from what it prints.
pub load-print :
    (es : List (Bytes × Bytes))
    → AllPlain es
    → Grows [] es
    → load (print (record empty_config { contents = es })) empty_config
      ≡ record empty_config { contents = es }
unfolding load print
load-print es h grows =
    ap (λ r. record empty_config { contents = load_lines empty_config r.1 r.0 idle [] })
      (lines_of-print_entries es es h)
    ∙ ap (λ l. record empty_config { contents = l }) (load_lines-print es h grows)
