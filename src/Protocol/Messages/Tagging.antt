-- ===== src/Protocol/Messages/Tagging.antt =====
-- The tag in front of the payload, and what it does to a round trip.
use just_drop.Base.{ℕ, ◌≤◌, ◌+◌, ◌*◌, ◌-◌, ◌≡◌, ◌≢◌, List, ◌∷◌, some, arith, Option-cases, inl, inr}
use just_drop.Protocol.Messages.{Message, tag, Bincode, encode, decode}

-- What `bincode` documents of an enum: the number of the variant, in four bytes with the lowest
-- first, stands before the fields; a number that is no variant is refused, and another variant is
-- never read for it.
pub record IsBincode (B : Bincode) : Type 0 where
  pub serialize_variant :
      (m : Message) (bytes : List ℕ)
      → B.serialize m ≡ some bytes
      → (rest : List ℕ) × (bytes ≡ (tag m - 1) ∷ 0 ∷ 0 ∷ 0 ∷ rest)
  pub deserialize_variant :
      (a b c d : ℕ) (rest : List ℕ) (m : Message)
      → B.deserialize (a ∷ b ∷ c ∷ d ∷ rest) ≡ some m
      → a + 256 * b + 65536 * c + 16777216 * d ≡ tag m - 1

tag_bounds : (m : Message) → (1 ≤ tag m) × (tag m ≤ 10)
unfolding tag
tag_bounds m = ground arith

-- `decode` never gives back the message that `encode` wrote, if `bincode` writes and reads the
-- variants of an enum as documented.
pub decode-encode_differs :
    (B : Bincode)
    → IsBincode B
    → (m : Message) (bytes : List ℕ) → encode B m ≡ some bytes
    → decode B bytes ≢ some m
unfolding encode decode
decode-encode_differs B L m bytes e d = elim (Option-cases (B.serialize m)) [
  | inl none_written ↦ cc (none_written, e)
  | inr (payload, written) ↦
      let (rest, shape) = L.serialize_variant m payload written in
      let framed : tag m ∷ payload ≡ bytes = ground arith in
      let read : B.deserialize (tag m ∷ (tag m - 1) ∷ 0 ∷ 0 ∷ 0 ∷ rest) ≡ some m =
        rw (← shape) (rw (← framed) at d) in
      omega (arith, L.deserialize_variant (tag m) (tag m - 1) 0 0 (0 ∷ rest) m read, tag_bounds m)
]

-- An encoded message is its tag and a payload, and the payload alone is decoded to the message, if
-- `bincode` reads what it writes and writes variants as documented.
pub decode_payload-encode :
    (B : Bincode)
    → ((m : Message) (bytes : List ℕ) → B.serialize m ≡ some bytes → B.deserialize bytes ≡ some m)
    → IsBincode B
    → (m : Message) (bytes : List ℕ) → encode B m ≡ some bytes
    → (payload : List ℕ) × (bytes ≡ tag m ∷ payload) × (decode B payload ≡ some m)
unfolding encode decode
decode_payload-encode B round L m bytes e = elim (Option-cases (B.serialize m)) [
  | inl none_written ↦ absurd (ground arith)
  | inr (payload, written) ↦
      let (rest, shape) = L.serialize_variant m payload written in
      (payload, ground arith, rw shape (rw shape at (round m payload written)))
]
