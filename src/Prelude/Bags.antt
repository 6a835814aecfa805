-- ===== src/Prelude/Bags.antt =====
-- What a list of numbers holds when its order is forgotten.
use Prim.Native.Nat.{ℕ, ◌+◌}
use mathlib.Core.Path.{◌≡◌}
use mathlib.Core.List.{List, [], ◌∷◌, ◌++◌}
use mathlib.Core.Quot
use mathlib.Core.Quot.{Quot}
use native.Mathlib.Omega.{arith}
use didactic_pancake_server.Prelude.Tests.{◌==◌, if◌then◌else◌}

-- How often a number stands in a list.
abbrev pub copies : List ℕ → ℕ → ℕ
copies [] n = 0
copies (m ∷ ms) n = copies ms n + (if m == n then 1 else 0)

pub copies-append :
    (n : ℕ) (ms others : List ℕ) → copies (ms ++ others) n ≡ copies ms n + copies others n
copies-append n [] others = omega arith
copies-append n (m ∷ ms) others = let rest = copies-append n ms others in omega (arith, rest)

abbrev Permuted : List ℕ → List ℕ → Type 0
Permuted ms ms' = (n : ℕ) → copies ms n ≡ copies ms' n

abbrev pub unordered : List ℕ → Quot Permuted
unordered ms = Quot.mk ms

pub unordered-copies :
    (ms ms' : List ℕ) → ((n : ℕ) → copies ms n ≡ copies ms' n) → unordered ms ≡ unordered ms'
unordered-copies ms ms' agree = Quot.sound agree
