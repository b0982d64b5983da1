-- ===== src/Engine/Sessions.antt =====
-- The sessions of an engine: cancelling, rejecting, stopping.
use just_drop.Base.{
  ℕ, ◌≡◌, refl, true, not, List, [], ◌∷◌, ◌++◌, Option, none, some, ok, err, if◌then◌else◌, ◌==◌,
  arith, ◌⊎◌, inl, inr,
}
use just_drop.Core.Types.{cancelled}
use just_drop.Core.Database.{Sqlite}
use just_drop.Engine.Session.{TransferSession, cancel, is_terminal}
use just_drop.Engine.{
  transfer_cancelled, stopped, session_not_found, get_session, put_session, cancel_all,
  count_active, State, emit, cancel_transfer, active_transfer_count, stop,
}

count_active-cancel_all :
    (now : ℕ) (sessions : List (ℕ × TransferSession)) → count_active (cancel_all now sessions) ≡ 0
unfolding count_active cancel_all is_terminal cancel
count_active-cancel_all now [] = refl
count_active-cancel_all now ((key, s) ∷ rest) = ground (arith, count_active-cancel_all now rest)

pub get_session-put_session :
    (id other : ℕ) (s : TransferSession) (sessions : List (ℕ × TransferSession))
    → get_session (put_session id s sessions) other
      ≡ (if id == other then some s else get_session sessions other)
unfolding get_session put_session
get_session-put_session id other s [] = ground arith
get_session-put_session id other s ((key, t) ∷ rest) =
    ground (arith, get_session-put_session id other s rest)

get_session-cancel_all :
    (now id : ℕ) (sessions : List (ℕ × TransferSession))
    → get_session (cancel_all now sessions) id ≡ elim (get_session sessions id) [
      | none ↦ none
      | some s ↦ some (if not (is_terminal s) then cancel now s else s)
    ]
unfolding get_session cancel_all
get_session-cancel_all now id [] = refl
get_session-cancel_all now id ((key, s) ∷ rest) = ground (arith, get_session-cancel_all now id rest)

-- A cancellation of an unknown transfer is an error and changes nothing; of a known one, it puts this
-- session, and no other, into `cancelled`, and tells the platform once.
pub cancel_transfer_lem :
    (S : Sqlite) (now id other : ℕ) (s : State S)
    → ((get_session s.sessions id ≡ none)
        × (cancel_transfer S now id s ≡ (err (session_not_found id), s)))
      ⊎ ((x : TransferSession) × (get_session s.sessions id ≡ some x)
          × ((cancel_transfer S now id s).0 ≡ ok tt)
          × (get_session (cancel_transfer S now id s).1.sessions other ≡ (
              if id == other
              then some (record x { state = cancelled; updated_at = now })
              else get_session s.sessions other))
          × ((cancel_transfer S now id s).1.events
              ≡ s.events ++ (transfer_cancelled id "user cancelled" ∷ []))
          × ((cancel_transfer S now id s).1.peers ≡ s.peers))
unfolding cancel_transfer emit cancel
cancel_transfer_lem S now id other s = found (get_session s.sessions id) refl
  where
    found :
        (o : Option TransferSession)
        → get_session s.sessions id ≡ o
        → ((get_session s.sessions id ≡ none)
            × (cancel_transfer S now id s ≡ (err (session_not_found id), s)))
          ⊎ ((x : TransferSession) × (get_session s.sessions id ≡ some x)
              × ((cancel_transfer S now id s).0 ≡ ok tt)
              × (get_session (cancel_transfer S now id s).1.sessions other ≡ (
                  if id == other
                  then some (record x { state = cancelled; updated_at = now })
                  else get_session s.sessions other))
              × ((cancel_transfer S now id s).1.events
                  ≡ s.events ++ (transfer_cancelled id "user cancelled" ∷ []))
              × ((cancel_transfer S now id s).1.peers ≡ s.peers))
    found none e = inl (e, ground (arith, e))
    found (some x) e = inr (
      x,
      e,
      ground (arith, e),
      ground (arith, e, get_session-put_session id other (cancel now x) s.sessions),
      ground (arith, e),
      ground (arith, e),
    )

-- Stopping a running engine leaves no active transfer: each session that was not over is cancelled, and
-- each that was over is as it was. The platform is told once, and stopping again does nothing.
pub stop_lem :
    (S : Sqlite) (now later id : ℕ) (s : State S)
    → s.running ≡ true
    → (active_transfer_count S (stop S now s) ≡ 0)
      × (get_session (stop S now s).sessions id ≡ elim (get_session s.sessions id) [
        | none ↦ none
        | some x ↦ some (if not (is_terminal x) then cancel now x else x)
      ])
      × ((stop S now s).events ≡ s.events ++ (stopped ∷ []))
      × (stop S later (stop S now s) ≡ stop S now s)
unfolding stop active_transfer_count emit
stop_lem S now later id s h = (
  rw h (count_active-cancel_all now s.sessions),
  rw h (get_session-cancel_all now id s.sessions),
  rw h refl,
  rw h refl,
)
