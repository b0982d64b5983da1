-- ===== src/Ffi/Legacy/Started.antt =====
-- When the library for C is started, and what it does then.
use just_drop.Base.{List, [], ◌∷◌, ℕ, suc, ◌≡◌, ◌⊎◌, String, true}
use just_drop.Ffi.Legacy.{DiskCall, create_data_dir, open_identity, Statics, is_some}

-- A call that starts the library, or that fails and changes nothing
abbrev Either : ℕ × Statics → Statics → Type 0
Either r s =
    ((t : Statics) × (r ≡ (0, t)) × (is_some t.global ≡ true)) ⊎ ((n : ℕ) × (r ≡ (suc n, s)))

-- The calls on the disk that a failing initialisation has made, for its directory: the first, or both.
abbrev pub AreCalls : String → List DiskCall → Type 0
AreCalls dir calls =
    (calls ≡ create_data_dir dir ∷ []) ⊎ (calls ≡ create_data_dir dir ∷ open_identity dir ∷ [])
