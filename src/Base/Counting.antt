-- ===== src/Base/Counting.antt =====
-- How many numbers of a range pass a test, and what it says of a set of numbers below a bound.
use Prim.Native.Nat.{ℕ, zero, suc, ◌+◌, ◌≤◌, ◌<◌}
use mathlib.Core.Path.{◌≡◌, refl}
use mathlib.Core.Bool.{Bool, true, false, ◌||◌}
use mathlib.Core.List.{List, [], ◌∷◌}
use native.Mathlib.Omega.{arith}
use just_drop.Base.Tests.{◌==◌, if◌then◌else◌}
use just_drop.Base.Lists.{length}
use just_drop.Base.Sets.{contains, IsSetList, AllBelow}

-- Passes of `p` among `i`, …, `i + n - 1`
abbrev pub count_range : ℕ → ℕ → (ℕ → Bool) → ℕ
count_range i zero p = 0
count_range i (suc n) p = (if p i then 1 else 0) + count_range (suc i) n p

-- Adding a number below the range changes no count.
count_range-below :
    (x i n : ℕ) (p : ℕ → Bool) → x < i → count_range i n (λ k. x == k || p k) ≡ count_range i n p
count_range-below x i zero p h = refl
count_range-below x i (suc n) p h = ground (arith, count_range-below x (suc i) n p)

count_range-add :
    (x i n : ℕ) (p : ℕ → Bool)
    → i ≤ x
    → x < i + n
    → p x ≡ false
    → count_range i n (λ k. x == k || p k) ≡ suc (count_range i n p)
count_range-add x i zero p h lt e = absurd (omega arith)
count_range-add x i (suc n) p h lt e =
    ground (arith, count_range-add x (suc i) n p, count_range-below x (suc i) n p)

count_range-none : (i n : ℕ) → count_range i n (λ _. false) ≡ 0
count_range-none i zero = refl
count_range-none i (suc n) = omega (arith, count_range-none (suc i) n)

-- A set of numbers below `n` has as many elements as the range has members of it.
pub count_range-contains :
    (n : ℕ) (xs : List ℕ) → IsSetList xs → AllBelow n xs → count_range 0 n (contains xs) ≡ length xs
count_range-contains n [] d b = count_range-none 0 n
count_range-contains n (x ∷ xs) d b = omega (
  arith,
  count_range-add x 0 n (contains xs) (omega arith) (omega arith) d.0,
  count_range-contains n xs d.1 b.1,
)

pub count_range-le : (i n : ℕ) (p : ℕ → Bool) → count_range i n p ≤ n
count_range-le i zero p = omega arith
count_range-le i (suc n) p = ground (arith, count_range-le (suc i) n p)

-- Every number of the range passes exactly when the count is the length of the range.
pub count_range-full :
    (i n : ℕ) (p : ℕ → Bool) → count_range i n p ≡ n → (k : ℕ) → i ≤ k → k < i + n → p k ≡ true
count_range-full i zero p e k h lt = absurd (omega arith)
count_range-full i (suc n) p e k h lt = ground (
  arith,
  count_range-le (suc i) n p,
  count_range-full (suc i) n p (ground (arith, count_range-le (suc i) n p)) k,
)

pub full-count_range :
    (i n : ℕ) (p : ℕ → Bool) → ((k : ℕ) → i ≤ k → k < i + n → p k ≡ true) → count_range i n p ≡ n
full-count_range i zero p h = refl
full-count_range i (suc n) p h =
    ground (arith, h i, full-count_range (suc i) n p (λ k a b. h k (omega arith) (omega arith)))
