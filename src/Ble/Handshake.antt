-- ===== src/Ble/Handshake.antt =====
-- crates/justdrop-ble/src/handshake.rs: what both sides sign and exchange over GATT.
use just_drop.Base.{
  ℕ, ◌≡◌, refl, String, List, [], ◌∷◌, ◌++◌, Option, Result, arith, length, Postcard,
}

pub data TransportRequest : Type 0 where
  -- the address, if it is known, and the port
  shared_lan : Option String → ℕ → TransportRequest
  request_hotspot offer_hotspot : TransportRequest

pub data TransportAccept : Type 0 where
  shared_lan : String → ℕ → TransportAccept
  -- the name of the network, its passphrase, and the port
  hotspot_created : String → String → ℕ → TransportAccept
  rejected : String → TransportAccept

pub record HandshakeRequest : Type 0 where
  pub version : ℕ
  pub public_key : List ℕ
  pub ephemeral_key : List ℕ
  pub nonce : List ℕ
  pub signature : List ℕ
  pub device_name : String
  pub transport_request : TransportRequest

pub record HandshakeResponse : Type 0 where
  pub version : ℕ
  pub public_key : List ℕ
  pub ephemeral_key : List ℕ
  pub nonce : List ℕ
  pub signature : List ℕ
  pub device_name : String
  pub transport_accept : TransportAccept

-- `HandshakeRequest::signed_payload`, and that of the response
unfoldable pub signed_request : HandshakeRequest → List ℕ
signed_request self = self.version ∷ self.ephemeral_key ++ self.nonce

unfoldable pub signed_response : HandshakeResponse → List ℕ
signed_response self = self.version ∷ self.ephemeral_key ++ self.nonce

module _ (P : Postcard HandshakeRequest) where
  unfoldable pub request_to_bytes : HandshakeRequest → Result ℕ (List ℕ)
  request_to_bytes self = P.to_allocvec self

  unfoldable pub request_from_bytes : List ℕ → Result ℕ HandshakeRequest
  request_from_bytes bytes = P.from_bytes bytes

module _ (P : Postcard HandshakeResponse) where
  unfoldable pub response_to_bytes : HandshakeResponse → Result ℕ (List ℕ)
  response_to_bytes self = P.to_allocvec self

  unfoldable pub response_from_bytes : List ℕ → Result ℕ HandshakeResponse
  response_from_bytes bytes = P.from_bytes bytes

append-injective : (a b c d : List ℕ) → length a ≡ length b → a ++ c ≡ b ++ d → (a ≡ b) × (c ≡ d)
append-injective [] [] c d l e = (refl, e)
append-injective [] (y ∷ b) c d l e = absurd (omega (arith, l))
append-injective (x ∷ a) [] c d l e = absurd (omega (arith, l))
append-injective (x ∷ a) (y ∷ b) c d l e =
    let (same, rest) = append-injective a b c d (omega (arith, l)) (ground (arith, e)) in
    let head : x ≡ y = ground (arith, e) in (cc (head, same), rest)

-- Two requests with the same signed bytes have the same version, ephemeral key and nonce, for keys of one
-- length; and a response with the version, key and nonce of a request has the same signed bytes.
pub signed_request-injective :
    (p q : HandshakeRequest) (r : HandshakeResponse)
    → length p.ephemeral_key ≡ length q.ephemeral_key
    → signed_request p ≡ signed_request q
    → r.version ≡ q.version
    → r.ephemeral_key ≡ q.ephemeral_key
    → r.nonce ≡ q.nonce
    → (p.version ≡ q.version)
      × (p.ephemeral_key ≡ q.ephemeral_key)
      × (p.nonce ≡ q.nonce)
      × (signed_response r ≡ signed_request p)
unfolding signed_request signed_response
signed_request-injective p q r l h v k n =
    let version : p.version ≡ q.version = ground (arith, h) in
    let (key, nonce) =
      append-injective p.ephemeral_key q.ephemeral_key p.nonce q.nonce l (ground (arith, h)) in
    (version, key, nonce, cc (version, key, nonce, v, k, n))
