-- ===== src/Core/Database/Tables.antt =====
-- The other tables of crates/justdrop-core/src/db.rs: the list of peers, the history, and the resume
-- states. SQLite is an interface: the statements that the code runs.
use just_drop.Base.{
  ℕ, String, str_eq, eq_iff, ◌≡◌, ◌≢◌, refl, subst, List, [], Option, none, some, Result, ok, err,
  if◌then◌else◌, Bool-cases, inl, inr,
}
use just_drop.Core.Trust.{TrustLevel, as_str}

pub record Statements : Type 1 where
  pub Db : Type 0
  -- `SELECT fingerprint, name FROM peers WHERE trust_level = ?1 ORDER BY name`, the rows that can be read
  pub select_peers : String → Db → Result ℕ (List (String × String))
  -- `INSERT INTO transfer_history …`
  pub insert_history : String → String → String → ℕ → ℕ → String → Db → Result ℕ (Unit {0}) × Db
  -- `INSERT OR REPLACE INTO resume_state …`: the transfer, the peer, and the state
  pub replace_state : String → String → List ℕ → Db → Result ℕ (Unit {0}) × Db
  -- `SELECT state_blob FROM resume_state WHERE transfer_id = ?1`, at most one row
  pub select_state : String → Db → Result ℕ (Option (List ℕ))
  -- `DELETE FROM resume_state WHERE transfer_id = ?1`
  pub delete_state : String → Db → Result ℕ (Unit {0}) × Db

-- What SQL says of the statements on resume states
pub record IsTable (S : Statements) : Type 0 where
  pub replace_self :
      (id peer : String) (state : List ℕ) (db t : S.Db)
      → S.replace_state id peer state db ≡ (ok tt, t)
      → S.select_state id t ≡ ok (some state)
  pub replace_other :
      (id peer : String) (state : List ℕ) (db t : S.Db) (other : String)
      → S.replace_state id peer state db ≡ (ok tt, t)
      → id ≢ other
      → S.select_state other t ≡ S.select_state other db
  pub delete_self :
      (id : String) (db t : S.Db)
      → S.delete_state id db ≡ (ok tt, t)
      → S.select_state id t ≡ ok none
  pub delete_other :
      (id : String) (db t : S.Db) (other : String)
      → S.delete_state id db ≡ (ok tt, t)
      → id ≢ other
      → S.select_state other t ≡ S.select_state other db

-- `.optional().ok().flatten()`
abbrev found : Result ℕ (Option (List ℕ)) → Option (List ℕ)
found (ok o) = o
found (err e) = none

abbrev rows_or_none : Result ℕ (List (String × String)) → List (String × String)
rows_or_none (ok rows) = rows
rows_or_none (err e) = []

module _ (S : Statements) where
  unfoldable pub peers_with_trust : TrustLevel → S.Db → List (String × String)
  peers_with_trust level db = rows_or_none (S.select_peers (as_str level) db)

  unfoldable pub record_transfer :
      String → String → String → ℕ → ℕ → String → S.Db → Result ℕ (Unit {0}) × S.Db
  record_transfer transfer_id peer_fingerprint direction file_count total_bytes status db =
      S.insert_history transfer_id peer_fingerprint direction file_count total_bytes status db

  unfoldable pub save_resume_state : String → String → List ℕ → S.Db → Result ℕ (Unit {0}) × S.Db
  save_resume_state transfer_id peer_fingerprint state_blob db =
      S.replace_state transfer_id peer_fingerprint state_blob db

  unfoldable pub load_resume_state : String → S.Db → Option (List ℕ)
  load_resume_state transfer_id db = found (S.select_state transfer_id db)

  unfoldable pub clear_resume_state : String → S.Db → Result ℕ (Unit {0}) × S.Db
  clear_resume_state transfer_id db = S.delete_state transfer_id db

  -- A state that was saved is loaded for its transfer until it is cleared, and neither touches the
  -- states of other transfers.
  pub load_resume_state-saved :
      (T : IsTable S) (id peer : String) (state : List ℕ) (db t u : S.Db) (other : String)
      → save_resume_state id peer state db ≡ (ok tt, t)
      → clear_resume_state id t ≡ (ok tt, u)
      → (load_resume_state other t
          ≡ (if str_eq id other then some state else load_resume_state other db))
        × (load_resume_state other u
            ≡ (if str_eq id other then none else load_resume_state other db))
  unfolding save_resume_state clear_resume_state load_resume_state
  load_resume_state-saved T id peer state db t u other saved cleared =
      elim (Bool-cases (str_eq id other)) [
        | inl same ↦
            let e : id ≡ other = (eq_iff id other).0 same in
            let read =
              subst (λ o. S.select_state o t ≡ ok (some state)) e
                (T.replace_self id peer state db t saved) in
            let gone = subst (λ o. S.select_state o u ≡ ok none) e (T.delete_self id t u cleared) in
            (rw same (rw read refl), rw same (rw gone refl))
        | inr differ ↦
            let apart : id ≢ other = λ n. cc (differ, (eq_iff id other).1 n) in
            let kept = T.replace_other id peer state db t other saved apart in
            let left = T.delete_other id t u other cleared apart in
            (rw differ (rw kept refl), rw differ (rw left (rw kept refl)))
      ]
