-- ===== src/Protocol/State/Diagram.antt =====
-- The state diagram as a relation, and the machine against it.
use just_drop.Base.{not, ◌⊎◌, ◌≡◌, refl, true, false, ok, err, arith, Bool-cases, inl, inr}
use just_drop.Core.Types.{
  TransferState, handshaking, negotiating, transferring, verifying, completed, failed, cancelled,
  paused,
}
use just_drop.Protocol.State.{
  TransferStateMachine, from_state, unexpected_message, is_valid_transition, transition, is_active,
  is_terminal_state,
}

-- The documented protocol: the normal flow, a repeated negotiation, a pause and its resumption, and
-- a way out by cancellation or failure from every state that is not terminal.
infix 40 ◌⟶◌ ◌⟶*◌
pub data ◌⟶◌ : TransferState → TransferState → Type 0 where
  shake : handshaking ⟶ negotiating
  accept : negotiating ⟶ transferring
  sent : transferring ⟶ verifying
  verified : verifying ⟶ completed
  renegotiate : negotiating ⟶ negotiating
  pause : transferring ⟶ paused
  resume : paused ⟶ transferring
  cancel : {s : TransferState} → is_terminal_state s ≡ false → s ⟶ cancelled
  fail : {s : TransferState} → is_terminal_state s ≡ false → s ⟶ failed

pub data ◌⟶*◌ : TransferState → TransferState → Type 0 where
  here : {s : TransferState} → s ⟶* s
  then : {s t u : TransferState} → s ⟶ t → t ⟶* u → s ⟶* u

valid-⟶ : (s t : TransferState) → is_valid_transition s t ≡ true → s ⟶ t
unfolding is_valid_transition
valid-⟶ s t h =
    grind (arith, shake, accept, sent, verified, renegotiate, pause, resume, cancel, fail)

⟶-valid : {s t : TransferState} → s ⟶ t → is_valid_transition s t ≡ true
unfolding is_valid_transition
⟶-valid shake = refl
⟶-valid accept = refl
⟶-valid sent = refl
⟶-valid verified = refl
⟶-valid renegotiate = refl
⟶-valid pause = refl
⟶-valid resume = refl
⟶-valid (cancel h) = ground arith
⟶-valid (fail h) = ground arith

-- A refused request reports both states and leaves the machine as it was; an accepted one moves it
-- to the requested state.
pub state-transition :
    (m : TransferStateMachine) (t : TransferState)
    → ((transition m t ≡ (ok tt, from_state t)) × (m.state ⟶ t))
      ⊎ ((transition m t ≡ (err (unexpected_message m.state t), m)) × ¬ (m.state ⟶ t))
unfolding transition from_state
state-transition m t = elim (Bool-cases (is_valid_transition m.state t)) [
  | inl good ↦ inl (rw good, valid-⟶ m.state t good)
  | inr bad ↦ inr (rw bad, λ e. cc (⟶-valid e))
]

-- From every active state there is a way to completion, to cancellation and to failure.
pub is_active-ways :
    (m : TransferStateMachine)
    → is_active m ≡ true
    → (m.state ⟶* completed) × (m.state ⟶* cancelled) × (m.state ⟶* failed)
unfolding is_active
is_active-ways m h = ways m.state h
  where
    ways :
        (s : TransferState)
        → not (is_terminal_state s) ≡ true
        → (s ⟶* completed) × (s ⟶* cancelled) × (s ⟶* failed)
    ways handshaking h = (
      then shake (then accept (then sent (then verified here))),
      then (cancel refl) here,
      then (fail refl) here,
    )
    ways negotiating h = (
      then accept (then sent (then verified here)),
      then (cancel refl) here,
      then (fail refl) here,
    )
    ways transferring h =
        (then sent (then verified here), then (cancel refl) here, then (fail refl) here)
    ways verifying h = (then verified here, then (cancel refl) here, then (fail refl) here)
    ways paused h = (
      then resume (then sent (then verified here)),
      then (cancel refl) here,
      then (fail refl) here,
    )
    ways completed h = cc
    ways failed h = cc
    ways cancelled h = cc
