-- ===== src/Prelude/Maps.antt =====
-- std::map as the function that finds a key, and std::set<string> as its elements in order.
use Prim.Native.Nat.{ℕ}
use mathlib.Core.Path.{◌≡◌, refl}
use mathlib.Core.Bool.{Bool, true, false, not, ◌&&◌, ◌||◌}
use mathlib.Core.List.{List, [], ◌∷◌}
use mathlib.Core.Option.{Option, none, some}
use native.Mathlib.Omega.{arith}
use didactic_pancake_server.Prelude.Tests.{◌==◌, if◌then◌else◌}
use didactic_pancake_server.Prelude.Text.{Bytes, same, same_iff, precedes}

-- map<string, V>: `none` where `find` returns `end()`.
abbrev pub Map {ℓ} : Type ℓ → Type ℓ
Map V = Bytes → Option V

-- map<int, V>
abbrev pub IdMap {ℓ} : Type ℓ → Type ℓ
IdMap V = ℕ → Option V

module _ {ℓ} {V : Type ℓ} where
  -- m[k] = v
  unfoldable pub assign : Bytes → V → Map V → Map V
  assign k v m j = if same k j then some v else m j

  -- m.erase(k)
  unfoldable pub erase : Bytes → Map V → Map V
  erase k m j = if same k j then none else m j

  -- m[k] as it is read: a key that is not there is inserted with the default `d`.
  unfoldable pub touch : Bytes → V → Map V → Map V
  touch k d m j = if same k j then (elim (m k) [ none ↦ some d | some v ↦ some v ]) else m j

  unfoldable pub assign_id : ℕ → V → IdMap V → IdMap V
  assign_id k v m j = if k == j then some v else m j

  unfoldable pub erase_id : ℕ → IdMap V → IdMap V
  erase_id k m j = if k == j then none else m j

  abbrev pub is_some : Option V → Bool
  is_some none = false
  is_some (some v) = true

  abbrev pub some_or : V → Option V → V
  some_or d none = d
  some_or d (some v) = v

-- s.count(x)
unfoldable pub contains : Bytes → List Bytes → Bool
contains x [] = false
contains x (y ∷ ys) = same y x || contains x ys

-- s.insert(x), in the order of the set
unfoldable pub insert : Bytes → List Bytes → List Bytes
insert x [] = x ∷ []
insert x (y ∷ ys) =
    let rest = insert x ys in
    if same y x then y ∷ ys else if precedes x y then x ∷ y ∷ ys else y ∷ rest

-- s.erase(x)
unfoldable pub remove : Bytes → List Bytes → List Bytes
remove x [] = []
remove x (y ∷ ys) = let rest = remove x ys in if same y x then rest else y ∷ rest

-- map<string, set<string>>: a missing key and the empty set look alike to the program, which only
-- ever indexes such a map.
abbrev pub SetMap : Type 0
SetMap = Bytes → List Bytes

-- m[k].insert(x)
unfoldable pub insert_at : Bytes → Bytes → SetMap → SetMap
insert_at k x m j = if same k j then insert x (m k) else m j

-- m[k].erase(x)
unfoldable pub remove_at : Bytes → Bytes → SetMap → SetMap
remove_at k x m j = if same k j then remove x (m k) else m j

pub contains-insert :
    (x z : Bytes) (ys : List Bytes) → contains z (insert x ys) ≡ (same x z || contains z ys)
unfolding contains insert
contains-insert x z [] = refl
contains-insert x z (y ∷ ys) =
    ground (arith, contains-insert x z ys, same_iff y x, same_iff x z, same_iff y z)

pub contains-remove :
    (x z : Bytes) (ys : List Bytes) → contains z (remove x ys) ≡ (not (same x z) && contains z ys)
unfolding contains remove
contains-remove x z [] = ground arith
contains-remove x z (y ∷ ys) =
    ground (arith, contains-remove x z ys, same_iff y x, same_iff x z, same_iff y z)

-- What an indexed set contains after an insertion, and after a removal.
pub contains-insert_at :
    (k x j z : Bytes) (m : SetMap)
    → contains z (insert_at k x m j) ≡ ((same k j && same x z) || contains z (m j))
unfolding insert_at
contains-insert_at k x j z m = ground (arith, contains-insert x z (m k), same_iff k j)

pub contains-remove_at :
    (k x j z : Bytes) (m : SetMap)
    → contains z (remove_at k x m j) ≡ (not (same k j && same x z) && contains z (m j))
unfolding remove_at
contains-remove_at k x j z m = ground (arith, contains-remove x z (m k), same_iff k j)
