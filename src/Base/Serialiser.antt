-- ===== src/Base/Serialiser.antt =====
-- `postcard`, a serialiser that the messages share: an interface for the values of a type.
use mathlib.Core.Path.{◌≡◌}
use mathlib.Core.List.{List}
use Prim.Native.Nat.{ℕ}
use just_drop.Base.Outcome.{Result, ok}

-- An error is the code of a `postcard::Error`.
pub record Postcard (A : Type 0) : Type 0 where
  pub to_allocvec : A → Result ℕ (List ℕ)
  pub from_bytes : List ℕ → Result ℕ A

-- What was serialised is read back.
abbrev pub Reads : (A : Type 0) → Postcard A → Type 0
Reads A P = (a : A) (bytes : List ℕ) → P.to_allocvec a ≡ ok bytes → P.from_bytes bytes ≡ ok a
