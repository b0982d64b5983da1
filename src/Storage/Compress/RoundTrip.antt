-- ===== src/Storage/Compress/RoundTrip.antt =====
-- A compressed chunk is restored, unless it is over the limit.
use just_drop.Base.{
  ℕ, zero, suc, [], ◌∷◌, ◌+◌, ◌≤◌, ◌<◌, ◌≡◌, ◌==◌, refl, ap, List, Result, ok, err, Bool-cases, inl,
  inr, arith, add_u64, u64_mod, ltb, leb, true, false, length, take, length-take, if◌then◌else◌,
}
use just_drop.Storage.Compress.{
  Zstd, compress_failed, too_large, or_failed, compress, decompress, default_level,
}

-- What `zstd` documents: what was encoded is decoded to the same bytes, read up to a limit.
abbrev pub IsZstd : Zstd → Type 0
IsZstd Z =
    (d c : List ℕ) (level : ℕ)
    → Z.encode_all d level ≡ ok c
    → (decoder : Z.Decoder) × (Z.new c ≡ ok decoder)
      × ((limit : ℕ) → Z.read_to_end decoder limit ≡ ok (take limit d))

take_all : (n : ℕ) (d : List ℕ) → length d ≤ n → take n d ≡ d
take_all zero [] h = refl
take_all zero (x ∷ d) h = absurd (omega arith)
take_all (suc n) [] h = refl
take_all (suc n) (x ∷ d) h = ap (λ r. x ∷ r) (take_all n d (omega (arith, h)))

encoded : (r : Result ℕ (List ℕ)) (c : List ℕ) → or_failed compress_failed r ok ≡ ok c → r ≡ ok c
encoded (ok a) c h = ground (arith, h)
encoded (err e) c h = absurd (ground (arith, h))

-- A chunk that was compressed is decompressed to itself when it is not over the limit; over the limit it
-- is refused, and the size reported is the limit and one, whatever the size is. Only when the limit is
-- the greatest `u64`, so that the limit and one wraps to 0 in a release build, nothing is read, and the
-- empty chunk is returned, whatever was compressed. The limit is a `u64`.
pub decompress-compress :
    (Z : Zstd) (L : IsZstd Z) (d c : List ℕ) (max_size : ℕ)
    → max_size < u64_mod
    → compress Z d ≡ ok c
    → decompress Z c max_size ≡ (
        if max_size + 1 == u64_mod
        then ok []
        else if leb (length d) max_size
        then ok d
        else err (too_large (max_size + 1) max_size))
unfolding compress decompress
decompress-compress Z L d c max_size u h =
    let (decoder, new, reads) = L d c default_level (encoded (Z.encode_all d default_level) c h) in
    elim (Bool-cases (max_size + 1 == u64_mod)) [
      | inl greatest ↦
          let wrapped : add_u64 max_size 1 ≡ 0 = ground (arith, greatest) in
          let small : ltb max_size 0 ≡ false = ground arith in
          rw new (rw (reads (add_u64 max_size 1)) (rw wrapped (rw small (rw greatest refl))))
      | inr below ↦
          let limit : add_u64 max_size 1 ≡ max_size + 1 = ground (arith, u, below) in
          elim (Bool-cases (leb (length d) max_size)) [
            | inl fits ↦
                let all = take_all (max_size + 1) d (ground (arith, fits)) in
                let small : ltb max_size (length d) ≡ false = ground (arith, fits) in
                rw new (
                  rw (reads (add_u64 max_size 1))
                    (rw limit (rw all (rw small (rw below (rw fits refl))))))
            | inr over ↦
                let cut : length (take (max_size + 1) d) ≡ max_size + 1 =
                  ground (arith, length-take (max_size + 1) d, over) in
                let large : ltb max_size (max_size + 1) ≡ true = ground arith in
                rw new (
                  rw (reads (add_u64 max_size 1))
                    (rw limit (rw cut (rw large (rw below (rw over refl))))))
          ]
    ]
