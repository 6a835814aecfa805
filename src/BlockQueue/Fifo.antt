-- ===== src/BlockQueue/Fifo.antt =====
-- A queue of at most `max` entries, oldest first: what block_queue promises.
use didactic_pancake_server.Prelude.{
  ℕ, Bool, true, false, some, List, [], ◌∷◌, ◌++◌, length, leb, if◌then◌else◌,
}
use didactic_pancake_server.BlockQueue.{
  Reply, waits, says, gives, counts, Section, pushes, pops, pops_timed, pops_woken, clears,
  asks_full, asks_empty, asks_front, asks_back, asks_size, asks_max_size,
}

module _ {ℓ} {A : Type ℓ} where
  -- The reply to a pop that finds no entry differs; else the oldest entry goes out.
  abbrev pub pop_or : Reply A → List A → Reply A × List A
  pop_or reply [] = (reply, [])
  pop_or reply (x ∷ xs) = (gives (some x), xs)

  abbrev pub oldest : List A → Reply A
  oldest [] = says false
  oldest (x ∷ xs) = gives (some x)

  abbrev pub newest : List A → Reply A
  newest [] = says false
  newest (x ∷ []) = gives (some x)
  newest (x ∷ y ∷ xs) = newest (y ∷ xs)

  abbrev pub is_nil : List A → Bool
  is_nil [] = true
  is_nil (x ∷ xs) = false

  unfoldable pub answer : ℕ → Section A → List A → Reply A × List A
  answer max (pushes item) xs =
      if leb max (length xs) then (says false, xs) else (says true, xs ++ (item ∷ []))
  answer max pops xs = pop_or waits xs
  answer max pops_timed xs = pop_or waits xs
  answer max (pops_woken false) xs = (says false, xs)
  answer max (pops_woken true) xs = pop_or (says false) xs
  answer max clears xs = (says true, [])
  answer max asks_full xs = (says (leb max (length xs)), xs)
  answer max asks_empty xs = (says (is_nil xs), xs)
  answer max asks_front xs = (oldest xs, xs)
  answer max asks_back xs = (newest xs, xs)
  answer max asks_size xs = (counts (length xs), xs)
  answer max asks_max_size xs = (counts max, xs)

  -- The section is no call of `front`.
  abbrev pub IsOther : Section A → Type 0
  IsOther asks_front = ⊥
  IsOther section = Unit {0}

  abbrev pub NoFront : List (Section A) → Type 0
  NoFront [] = Unit {0}
  NoFront (s ∷ ss) = IsOther s × NoFront ss

  unfoldable pub answers : ℕ → List A → List (Section A) → List (Reply A)
  answers max xs [] = []
  answers max xs (s ∷ ss) = let (reply, xs') = answer max s xs in reply ∷ answers max xs' ss
