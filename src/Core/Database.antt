-- ===== src/Core/Database.antt =====
-- Trust in crates/justdrop-core/src/db.rs: what is stored and read for a fingerprint. SQLite is an
-- interface: the two statements that the code runs.
pub mod Tables
use just_drop.Base.{
  ℕ, Bool, String, Option, none, some, Result, ok, err, ◌≡◌, ◌≢◌, refl, subst, str_eq, eq_iff,
  if◌then◌else◌, Bool-cases, inl, inr,
}
use just_drop.Core.Trust
use just_drop.Core.Trust.{TrustLevel, unknown, as_str, parse_str}
use just_drop.Core.Trust.Laws.{parse_str-as_str}

pub record Sqlite : Type 1 where
  pub Db : Type 0
  -- `SELECT trust_level FROM peers WHERE fingerprint = ?1`, at most one row
  pub select_trust : String → Db → Result ℕ (Option String)
  -- `INSERT INTO peers … ON CONFLICT(fingerprint) DO UPDATE …`: fingerprint, name, platform, level
  pub upsert_peer : String → String → String → String → Db → Result ℕ (Unit {0}) × Db

-- What SQL says of the two statements
pub record IsSql (S : Sqlite) : Type 0 where
  pub upsert_self :
      (fp name platform level : String) (db t : S.Db)
      → S.upsert_peer fp name platform level db ≡ (ok tt, t)
      → S.select_trust fp t ≡ ok (some level)
  pub upsert_other :
      (fp name platform level : String) (db t : S.Db)
      → S.upsert_peer fp name platform level db ≡ (ok tt, t)
      → (other : String) → fp ≢ other
      → S.select_trust other t ≡ S.select_trust other db

-- `.optional().ok().flatten().map(parse_str).unwrap_or(Unknown)`
abbrev trust_or_unknown : Result ℕ (Option String) → TrustLevel
trust_or_unknown (ok (some s)) = parse_str s
trust_or_unknown (ok none) = unknown
trust_or_unknown (err e) = unknown

module _ (S : Sqlite) where
  unfoldable pub set_trust :
      String → String → String → TrustLevel → S.Db → Result ℕ (Unit {0}) × S.Db
  set_trust fp name platform level db = S.upsert_peer fp name platform (as_str level) db

  unfoldable pub get_trust : String → S.Db → TrustLevel
  get_trust fp db = trust_or_unknown (S.select_trust fp db)

  unfoldable pub is_blocked : String → S.Db → Bool
  is_blocked fp db = Trust.is_blocked (get_trust fp db)

  -- After a level is stored for a fingerprint, that level is read for it, and for every other
  -- fingerprint what was read before.
  pub get_trust-set_trust :
      IsSql S
      → (fp name platform : String) (level : TrustLevel) (db t : S.Db) (other : String)
      → set_trust fp name platform level db ≡ (ok tt, t)
      → get_trust other t ≡ (if str_eq fp other then level else get_trust other db)
  unfolding set_trust get_trust
  get_trust-set_trust L fp name platform level db t other e = elim (Bool-cases (str_eq fp other)) [
    | inl same ↦
        let names : fp ≡ other = (eq_iff fp other).0 same in
        let read : S.select_trust other t ≡ ok (some (as_str level)) =
          subst (λ o. S.select_trust o t ≡ ok (some (as_str level))) names
            (L.upsert_self fp name platform (as_str level) db t e) in
        rw same (rw read (parse_str-as_str level))
    | inr differ ↦
        let apart : fp ≢ other = λ n. cc (differ, (eq_iff fp other).1 n) in
        rw differ (rw (L.upsert_other fp name platform (as_str level) db t e other apart) refl)
  ]
