-- ===== src/Tests/Unary.antt =====
-- Texts of numbers for the tests: as many characters as the number says.
use just_drop.Base.{ℕ, zero, suc, ◌≡◌, ap, ◌∙◌, Option, some}
use Prim.Native.String.{String, [], ◌∷◌, count}
use Prim.Native.String.count as Count

abbrev pub unary : ℕ → String
unary zero = []
unary (suc n) = "|" ∷ unary n

abbrev pub from_unary : String → Option ℕ
from_unary t = some (count t)

count-unary : (n : ℕ) → count (unary n) ≡ n
count-unary zero = Count.nil
count-unary (suc n) = Count.cons "|" (unary n) ∙ ap suc (count-unary n)

pub from_unary-unary : (n : ℕ) → from_unary (unary n) ≡ some n
from_unary-unary n = ap (λ k. some k) (count-unary n)
