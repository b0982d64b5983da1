-- ===== src/Storage/Files/Splice.antt =====
-- Overwriting a part of a file, byte by byte.
use just_drop.Base.{
  ℕ, zero, suc, ◌+◌, ◌-◌, ◌*◌, ◌≤◌, ◌≡◌, refl, List, [], ◌∷◌, ◌++◌, none, ◌&&◌, ltb, leb,
  if◌then◌else◌, length, take, drop, get_elem?, length-drop, length-append, arith, min, length-take,
}
use just_drop.Storage.Files.{splice}

module _ {ℓ} {A : Type ℓ} where
  pub get_elem?-append :
      (xs ys : List A) (i : ℕ)
      → get_elem? (xs ++ ys) i
        ≡ (if ltb i (length xs) then get_elem? xs i else get_elem? ys (i - length xs))
  get_elem?-append [] ys i = ground arith
  get_elem?-append (x ∷ xs) ys zero = ground arith
  get_elem?-append (x ∷ xs) ys (suc i) = ground (arith, get_elem?-append xs ys i)

  pub get_elem?-drop :
      (n : ℕ) (xs : List A) (i : ℕ) → get_elem? (drop n xs) i ≡ get_elem? xs (n + i)
  get_elem?-drop zero xs i = ground arith
  get_elem?-drop (suc n) [] i = ground arith
  get_elem?-drop (suc n) (x ∷ xs) i = ground (arith, get_elem?-drop n xs i)

  pub get_elem?-take :
      (n : ℕ) (xs : List A) (i : ℕ)
      → get_elem? (take n xs) i ≡ (if ltb i n then get_elem? xs i else none)
  get_elem?-take zero xs i = ground arith
  get_elem?-take (suc n) [] i = ground arith
  get_elem?-take (suc n) (x ∷ xs) zero = ground arith
  get_elem?-take (suc n) (x ∷ xs) (suc i) = ground (arith, get_elem?-take n xs i)

  pub get_elem?-past : (xs : List A) (i : ℕ) → length xs ≤ i → get_elem? xs i ≡ none
  get_elem?-past [] i h = refl
  get_elem?-past (x ∷ xs) zero h = absurd (omega arith)
  get_elem?-past (x ∷ xs) (suc i) h = get_elem?-past xs i (omega arith)

pub length-splice :
    (off : ℕ) (d file : List ℕ)
    → off + length d ≤ length file
    → length (splice off d file) ≡ length file
length-splice zero d file h =
    omega (arith, length-append d (drop (length d) file), length-drop (length d) file)
length-splice (suc off) d [] h = absurd (omega arith)
length-splice (suc off) d (b ∷ file) h = omega (arith, length-splice off d file (omega arith))

-- Inside the written range the new bytes stand, outside it the old ones.
pub get_elem?-splice :
    (off : ℕ) (d file : List ℕ) (i : ℕ)
    → off + length d ≤ length file
    → get_elem? (splice off d file) i
      ≡ (if leb off i && ltb i (off + length d) then get_elem? d (i - off) else get_elem? file i)
get_elem?-splice zero d file i h = ground (
  arith,
  get_elem?-append d (drop (length d) file) i,
  get_elem?-drop (length d) file (i - length d),
)
get_elem?-splice (suc off) d [] i h = absurd (omega arith)
get_elem?-splice (suc off) d (b ∷ file) zero h = ground arith
get_elem?-splice (suc off) d (b ∷ file) (suc i) h =
    ground (arith, get_elem?-splice off d file i (omega arith))

-- The bytes of chunk `k`, as the sender reads them
abbrev pub slice : ℕ → List ℕ → ℕ → List ℕ
slice chunk_size content k = take chunk_size (drop (k * chunk_size) content)

pub length-slice :
    (chunk_size : ℕ) (content : List ℕ) (k : ℕ)
    → length (slice chunk_size content k) ≡ min chunk_size (length content - k * chunk_size)
length-slice cs content k =
    omega (arith, length-take cs (drop (k * cs) content), length-drop (k * cs) content)

pub get_elem?-slice :
    (chunk_size : ℕ) (content : List ℕ) (k j : ℕ)
    → get_elem? (slice chunk_size content k) j
      ≡ (if ltb j chunk_size then get_elem? content (k * chunk_size + j) else none)
get_elem?-slice cs content k j =
    ground (arith, get_elem?-take cs (drop (k * cs) content) j, get_elem?-drop (k * cs) content j)
