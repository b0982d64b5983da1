-- ===== src/Storage/Resume/Bytes.antt =====
-- The bits of a byte, as the bitmap sets and tests them: tables, checked by evaluation.
use just_drop.Base.{
  ℕ, zero, suc, ◌<◌, ◌≡◌, refl, Bool, true, false, not, ◌&&◌, ◌||◌, ltb, ◌==◌, arith, ℕ_discrete,
}
use just_drop.Storage.Resume.{test_bit, or_bit}

-- A test that holds of every number under a bound
every_under : (ℕ → Bool) → ℕ → Bool
every_under p zero = true
every_under p (suc n) = every_under p n && p n

every_under-lt : (p : ℕ → Bool) (n : ℕ) {x : ℕ} → x < n → every_under p n ≡ true → p x ≡ true
unfolding every_under
every_under-lt p zero l e = absurd (omega arith)
every_under-lt p (suc n) {x} l e = elim (ℕ_discrete x n) [
  | yes last ↦ rw last (ground (arith, e))
  | no before ↦ every_under-lt p n (omega arith) (ground (arith, e))
]

abbrev same : Bool → Bool → Bool
same true b = b
same false b = not b

abbrev or_bit_cell : ℕ → ℕ → ℕ → Bool
or_bit_cell byte i j = same (test_bit (or_bit byte i) j) (i == j || test_bit byte j)

abbrev or_bit_row : ℕ → ℕ → Bool
or_bit_row byte i = ltb (or_bit byte i) 256 && every_under (or_bit_cell byte i) 8

or_bit_table : every_under (λ byte. every_under (or_bit_row byte) 8) 256 ≡ true
unfolding every_under or_bit test_bit
or_bit_table = refl

or_bit-row_true : (byte i : ℕ) → byte < 256 → i < 8 → or_bit_row byte i ≡ true
or_bit-row_true byte i h k =
    every_under-lt (or_bit_row byte) 8 k
      (every_under-lt (λ b. every_under (or_bit_row b) 8) 256 h or_bit_table)

pub or_bit-lt : (byte i : ℕ) → byte < 256 → i < 8 → or_bit byte i < 256
or_bit-lt byte i h k = ground (arith, or_bit-row_true byte i h k)

pub test_bit-or_bit :
    (byte i j : ℕ)
    → byte < 256
    → i < 8
    → j < 8
    → test_bit (or_bit byte i) j ≡ (i == j || test_bit byte j)
test_bit-or_bit byte i j h k l =
    ground (arith, or_bit-row_true byte i h k, every_under-lt (or_bit_cell byte i) 8 {x = j} l)

blank : ℕ → Bool
blank j = not (test_bit 0 j)

blank_table : every_under blank 8 ≡ true
unfolding every_under blank test_bit
blank_table = refl

pub test_bit-blank : (j : ℕ) → j < 8 → test_bit 0 j ≡ false
unfolding blank
test_bit-blank j h = ground (arith, every_under-lt blank 8 {x = j} h blank_table)
