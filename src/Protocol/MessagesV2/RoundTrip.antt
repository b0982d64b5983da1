-- ===== src/Protocol/MessagesV2/RoundTrip.antt =====
-- An encoded message is decoded to itself; its tag is not looked at.
use just_drop.Base.{ℕ, ◌≡◌, refl, ap, ◌∙◌, List, ◌∷◌, Result, ok, err, arith, Postcard, Reads}
use just_drop.Protocol.MessagesV2.{MessageV2, tag, tagged, decoded, encode, decode}

tagged-ok :
    (m : MessageV2) (r : Result ℕ (List ℕ)) (bytes : List ℕ)
    → tagged m r ≡ ok bytes
    → (payload : List ℕ) × (r ≡ ok payload) × (bytes ≡ tag m ∷ payload)
tagged-ok m (ok payload) bytes h = (payload, refl, ground (arith, h))
tagged-ok m (err e) bytes h = absurd (ground (arith, h))

-- An encoded message is its tag and a payload, and it is decoded to itself, also under any other tag, when
-- postcard reads back what it serialises.
pub decode-encode_any_tag :
    (P : Postcard MessageV2) (R : Reads MessageV2 P) (m : MessageV2) (bytes : List ℕ) (b : ℕ)
    → encode P m ≡ ok bytes
    → (payload : List ℕ) × (bytes ≡ tag m ∷ payload)
      × (decode P bytes ≡ ok m)
      × (decode P (b ∷ payload) ≡ ok m)
unfolding encode decode
decode-encode_any_tag P R m bytes b h =
    let (payload, e, tagged) = tagged-ok m (P.to_allocvec m) bytes h in
    let reads = ap decoded (R m payload e) in (payload, tagged, ap (decode P) tagged ∙ reads, reads)
