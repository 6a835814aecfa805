-- ===== src/BlockQueue/Ring.antt =====
-- The entries of the ring of BlockQueue.antt.
use native.Mathlib.Nat.{mod-add-mod, mod-eq_of_lt, mod-eq-sub-mod, mod-lt}
use native.Mathlib.Decide.{dec_lt}
use didactic_pancake_server.Prelude.{
  ℕ, suc, ◌+◌, ◌-◌, ◌%◌, ◌<◌, some, List, [], ◌∷◌, ◌++◌, length, get_elem?, get_elem?-set_self,
  get_elem?-set_ne, set, ◌≡◌, ◌≢◌, arith, ap, sym, ◌∙◌,
}

module _ {ℓ} {A : Type ℓ} where
  -- The list stands in the array from index `i` on, round at `max`.
  abbrev pub Stands : ℕ → List A → ℕ → List A → Type ℓ
  Stands max array i [] = Unit
  Stands max array i (x ∷ xs) = (get_elem? array i ≡ some x) × Stands max array ((i + 1) % max) xs

no_step : {i max : ℕ} → i < max → (i + 0) % max ≡ i
no_step {i} {max} h = ap (λ k. k % max) (omega arith) ∙ mod-eq_of_lt h

-- The index behind a list of `n` more entries, from the next index.
pub behind : (max i n : ℕ) → ((i + 1) % max + n) % max ≡ (i + suc n) % max
behind max i n = mod-add-mod (i + 1) max n ∙ ap (λ k. k % max) (omega arith)

-- One entry goes in front of at most `max - 2` others: the index behind those is another one.
behind-ne : {max i n : ℕ} → i < max → suc n < max → (i + suc n) % max ≢ i
behind-ne {max} {i} {n} h k e = elim (dec_lt (i + suc n) max) [
  | yes inside ↦ omega (arith, mod-eq_of_lt inside)
  | no round ↦ omega (
    arith,
    mod-eq-sub-mod {n = i + suc n} {m = max} (omega arith),
    mod-eq_of_lt {n = i + suc n - max} {m = max} (omega arith),
  )
]

module _ {ℓ} {A : Type ℓ} where
  -- A write behind the list makes it longer by the entry.
  pub Stands-set :
      (max : ℕ) (array : List A) (i j : ℕ) (xs : List A) (item : A)
      → length array ≡ max
      → i < max
      → length xs < max
      → j ≡ (i + length xs) % max
      → Stands max array i xs
      → Stands max (set array j item) i (xs ++ (item ∷ []))
  Stands-set max array i j [] item e h k at s =
      let here : j ≡ i = at ∙ no_step h in
      (rw here (get_elem?-set_self array i item (omega arith)), tt)
  Stands-set max array i j (x ∷ xs) item e h k at (here, s) =
      let apart : j ≢ i = λ same. behind-ne h k (sym at ∙ same) in
      (
        get_elem?-set_ne array item apart ∙ here,
        Stands-set max array ((i + 1) % max) j xs item e (mod-lt (i + 1) (omega arith))
            (omega arith) (at ∙ sym (behind max i (length xs))) s,
      )
