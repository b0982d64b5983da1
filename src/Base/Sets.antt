-- ===== src/Base/Sets.antt =====
-- `HashSet<u64>` as a list without repetition. The code never depends on the order of a set.
use Prim.Native.Nat.{ℕ, ◌<◌}
use mathlib.Core.Path.{◌≡◌}
use mathlib.Core.Bool.{Bool, true, false, ◌||◌}
use mathlib.Core.List.{List, [], ◌∷◌}
use native.Mathlib.Omega.{arith}
use just_drop.Base.Tests.{◌==◌, if◌then◌else◌}

abbrev pub contains : List ℕ → ℕ → Bool
contains [] a = false
contains (x ∷ xs) a = x == a || contains xs a

-- `set.insert(a)`
abbrev pub insert : ℕ → List ℕ → List ℕ
insert a xs = if contains xs a then xs else a ∷ xs

-- No element stands twice.
abbrev pub IsSetList : List ℕ → Type 0
IsSetList [] = Unit {0}
IsSetList (x ∷ xs) = (contains xs x ≡ false) × IsSetList xs

abbrev pub AllBelow : ℕ → List ℕ → Type 0
AllBelow n [] = Unit {0}
AllBelow n (x ∷ xs) = (x < n) × AllBelow n xs

pub contains-insert : (a b : ℕ) (xs : List ℕ) → contains (insert a xs) b ≡ (a == b || contains xs b)
contains-insert a b xs = ground (arith, member xs)
  where
    member : (ys : List ℕ) → contains ys a ≡ true → (a == b) ≡ true → contains ys b ≡ true
    member [] h e = h
    member (y ∷ ys) h e = ground (arith, member ys)

pub insert-IsSetList : (a : ℕ) (xs : List ℕ) → IsSetList xs → IsSetList (insert a xs)
insert-IsSetList a xs h = ground arith

pub insert-AllBelow : (n a : ℕ) (xs : List ℕ) → a < n → AllBelow n xs → AllBelow n (insert a xs)
insert-AllBelow n a xs lt h = ground arith
