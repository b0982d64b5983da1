-- ===== src/Ble/Hotspot.antt =====
-- crates/justdrop-ble/src/hotspot.rs, over `postcard`.
use just_drop.Base.{ℕ, ◌≡◌, String, List, Option, Result, ok, Postcard, Reads}

pub record HotspotCredentials : Type 0 where
  pub ssid : String
  pub passphrase : String
  pub bssid : Option String
  pub server_ip : String
  pub port : ℕ

module _ (P : Postcard HotspotCredentials) where
  unfoldable pub to_bytes : HotspotCredentials → Result ℕ (List ℕ)
  to_bytes self = P.to_allocvec self

  unfoldable pub from_bytes : List ℕ → Result ℕ HotspotCredentials
  from_bytes bytes = P.from_bytes bytes

  -- Credentials that were written are read back.
  from_bytes-to_bytes :
      Reads HotspotCredentials P
      → (c : HotspotCredentials) (bytes : List ℕ) → to_bytes c ≡ ok bytes
      → from_bytes bytes ≡ ok c
  unfolding to_bytes from_bytes
  from_bytes-to_bytes r c bytes h = r c bytes h
