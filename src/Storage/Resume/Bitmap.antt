-- ===== src/Storage/Resume/Bitmap.antt =====
-- The bitmap of received chunks as a set: the loops against membership.
use just_drop.Base.{
  ℕ, zero, suc, ◌+◌, ◌/◌, ◌%◌, ◌<◌, ◌≡◌, refl, Bool, false, ◌&&◌, ◌||◌, List, [], ◌∷◌, ltb, leb,
  ◌==◌, if◌then◌else◌, div_ceil, div_ceil_bounds, length, get_or, set, length-set, get_or-set_self,
  get_or-set_ne, replicate, length-replicate, contains, insert, contains-insert, AllBelow, arith,
  Bool-cases, inl, inr, ◌∙◌,
}
use just_drop.Storage.Resume.Bytes.{or_bit-lt, test_bit-or_bit, test_bit-blank}
use just_drop.Storage.Resume.{
  test_bit, or_bit, encode_chunks, encode_received_bitmap, decode_chunks, decode_received_bitmap,
}

-- Chunk `c` is marked in the bitmap.
abbrev pub marks : List ℕ → ℕ → Bool
marks bitmap c = ltb (c / 8) (length bitmap) && test_bit (get_or bitmap (c / 8) 0) (c % 8)

get_or-lt : (xs : List ℕ) (i : ℕ) → AllBelow 256 xs → get_or xs i 0 < 256
get_or-lt [] i h = omega arith
get_or-lt (x ∷ xs) zero h = h.0
get_or-lt (x ∷ xs) (suc i) h = get_or-lt xs i h.1

set-AllBelow : (xs : List ℕ) (i v : ℕ) → AllBelow 256 xs → v < 256 → AllBelow 256 (set xs i v)
set-AllBelow [] i v h k = h
set-AllBelow (x ∷ xs) zero v h k = (k, h.1)
set-AllBelow (x ∷ xs) (suc i) v h k = (h.0, set-AllBelow xs i v h.1 k)

replicate-AllBelow : (n : ℕ) → AllBelow 256 (replicate n 0)
replicate-AllBelow zero = tt
replicate-AllBelow (suc n) = (omega arith, replicate-AllBelow n)

-- One round of the encoding loop
abbrev mark : List ℕ → ℕ → List ℕ
mark bitmap a =
    if ltb (a / 8) (length bitmap)
    then set bitmap (a / 8) (or_bit (get_or bitmap (a / 8) 0) (a % 8))
    else bitmap

mark-AllBelow : (bitmap : List ℕ) (a : ℕ) → AllBelow 256 bitmap → AllBelow 256 (mark bitmap a)
mark-AllBelow bitmap a h = elim (Bool-cases (ltb (a / 8) (length bitmap))) [
  | inl t ↦ rw t (
      set-AllBelow bitmap (a / 8) _ h
        (or_bit-lt (get_or bitmap (a / 8) 0) (a % 8) (get_or-lt bitmap (a / 8) h) (omega arith)))
  | inr f ↦ rw f h
]

length-mark : (bitmap : List ℕ) (a : ℕ) → length (mark bitmap a) ≡ length bitmap
length-mark bitmap a =
    ground (arith, length-set bitmap (a / 8) (or_bit (get_or bitmap (a / 8) 0) (a % 8)))

marks-mark :
    (bitmap : List ℕ) (a c : ℕ)
    → AllBelow 256 bitmap
    → marks (mark bitmap a) c ≡ (ltb (c / 8) (length bitmap) && a == c || marks bitmap c)
marks-mark bitmap a c h = ground (
  arith,
  length-mark bitmap a,
  get_or-set_self bitmap (a / 8) (or_bit (get_or bitmap (a / 8) 0) (a % 8)) 0,
  get_or-set_ne bitmap (a / 8) (c / 8) (or_bit (get_or bitmap (a / 8) 0) (a % 8)) 0,
  test_bit-or_bit (get_or bitmap (a / 8) 0) (a % 8) (c % 8) (get_or-lt bitmap (a / 8) h)
      (omega arith) (omega arith),
)

length-encode_chunks :
    (bitmap chunks : List ℕ) → length (encode_chunks bitmap chunks) ≡ length bitmap
unfolding encode_chunks
length-encode_chunks bitmap [] = refl
length-encode_chunks bitmap (a ∷ rest) =
    length-encode_chunks (mark bitmap a) rest ∙ length-mark bitmap a

encode_chunks-AllBelow :
    (bitmap chunks : List ℕ) → AllBelow 256 bitmap → AllBelow 256 (encode_chunks bitmap chunks)
unfolding encode_chunks
encode_chunks-AllBelow bitmap [] h = h
encode_chunks-AllBelow bitmap (a ∷ rest) h =
    encode_chunks-AllBelow (mark bitmap a) rest (mark-AllBelow bitmap a h)

marks-encode_chunks :
    (bitmap chunks : List ℕ) (c : ℕ)
    → AllBelow 256 bitmap
    → marks (encode_chunks bitmap chunks) c
      ≡ (ltb (c / 8) (length bitmap) && contains chunks c || marks bitmap c)
unfolding encode_chunks
marks-encode_chunks bitmap [] c h = ground arith
marks-encode_chunks bitmap (a ∷ rest) c h = ground (
  arith,
  marks-encode_chunks (mark bitmap a) rest c (mark-AllBelow bitmap a h),
  marks-mark bitmap a c h,
  length-mark bitmap a,
)

get_or-replicate : (n i : ℕ) → get_or {A = ℕ} (replicate n 0) i 0 ≡ 0
get_or-replicate zero i = refl
get_or-replicate (suc n) zero = refl
get_or-replicate (suc n) (suc i) = get_or-replicate n i

marks-replicate : (n c : ℕ) → marks (replicate n 0) c ≡ false
marks-replicate n c =
    ground (arith, get_or-replicate n (c / 8), test_bit-blank (c % 8) (omega arith))

marks-encode :
    (completed : List ℕ) (total c : ℕ)
    → c < total
    → marks (encode_received_bitmap completed total) c ≡ contains completed c
unfolding encode_received_bitmap
marks-encode completed total c h = ground (
  arith,
  marks-encode_chunks (replicate (div_ceil total 8) 0) completed c
      (replicate-AllBelow (div_ceil total 8)),
  marks-replicate (div_ceil total 8) c,
  length-replicate {A = ℕ} (div_ceil total 8) 0,
  div_ceil_bounds total 8 (omega arith),
)

contains-decode_chunks :
    (bitmap : List ℕ) (i n : ℕ) (completed : List ℕ) (c : ℕ)
    → contains (decode_chunks bitmap i n completed) c
      ≡ (leb i c && ltb c (i + n) && marks bitmap c || contains completed c)
unfolding decode_chunks
contains-decode_chunks bitmap i zero completed c = ground arith
contains-decode_chunks bitmap i (suc n) completed c = ground (
  arith,
  contains-decode_chunks bitmap (suc i) n (if marks bitmap i then insert i completed else completed)
      c,
  contains-insert i c completed,
)

-- A decoded bitmap holds exactly the chunks below the total that are marked in it.
pub contains-decode :
    (bitmap : List ℕ) (total c : ℕ)
    → contains (decode_received_bitmap bitmap total) c ≡ (ltb c total && marks bitmap c)
unfolding decode_received_bitmap
contains-decode bitmap total c = ground (arith, contains-decode_chunks bitmap 0 total [] c)

-- Decoding an encoded set gives back exactly its members below the total: no chunk is invented and
-- none that counts is lost, whatever numbers the set holds.
pub decode-encode :
    (completed : List ℕ) (total c : ℕ)
    → contains (decode_received_bitmap (encode_received_bitmap completed total) total) c
      ≡ (ltb c total && contains completed c)
decode-encode completed total c = ground (
  arith,
  contains-decode (encode_received_bitmap completed total) total c,
  marks-encode completed total c,
)

-- The bitmap has one byte for every eight chunks, rounded up, and its entries are bytes.
pub encode_bytes :
    (completed : List ℕ) (total : ℕ)
    → (length (encode_received_bitmap completed total) ≡ div_ceil total 8)
      × AllBelow 256 (encode_received_bitmap completed total)
unfolding encode_received_bitmap
encode_bytes completed total = (
  length-encode_chunks (replicate (div_ceil total 8) 0) completed ∙ length-replicate _ _,
  encode_chunks-AllBelow _ completed (replicate-AllBelow (div_ceil total 8)),
)
