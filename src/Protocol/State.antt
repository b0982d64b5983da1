-- ===== src/Protocol/State.antt =====
-- crates/justdrop-protocol/src/state.rs: the transfer state machine.
pub mod Diagram
pub mod Runs
use just_drop.Base.{Bool, true, false, not, Result, ok, err, List, [], ◌∷◌, if◌then◌else◌}
use just_drop.Core.Types.{
  TransferState, handshaking, negotiating, transferring, verifying, completed, failed, cancelled,
  paused,
}

pub record TransferStateMachine : Type 0 where
  pub state : TransferState

-- `ProtocolError::UnexpectedMessage`, with the states in place of their texts
pub data TransitionError : Type 0 where
  unexpected_message : TransferState → TransferState → TransitionError

unfoldable pub new : TransferStateMachine
new = record { state = handshaking }

unfoldable pub from_state : TransferState → TransferStateMachine
from_state s = record { state = s }

unfoldable pub is_valid_transition : TransferState → TransferState → Bool
is_valid_transition handshaking negotiating = true
is_valid_transition negotiating transferring = true
is_valid_transition transferring verifying = true
is_valid_transition verifying completed = true
is_valid_transition negotiating cancelled = true
is_valid_transition handshaking cancelled = true
is_valid_transition transferring cancelled = true
is_valid_transition verifying cancelled = true
is_valid_transition handshaking failed = true
is_valid_transition negotiating failed = true
is_valid_transition transferring failed = true
is_valid_transition verifying failed = true
is_valid_transition transferring paused = true
is_valid_transition paused transferring = true
is_valid_transition paused cancelled = true
is_valid_transition paused failed = true
is_valid_transition negotiating negotiating = true
is_valid_transition _ _ = false

unfoldable pub transition :
    TransferStateMachine → TransferState → Result TransitionError (Unit {0}) × TransferStateMachine
transition m to =
    if is_valid_transition m.state to
    then (ok tt, record m { state = to })
    else (err (unexpected_message m.state to), m)

abbrev pub is_terminal_state : TransferState → Bool
is_terminal_state completed = true
is_terminal_state failed = true
is_terminal_state cancelled = true
is_terminal_state _ = false

unfoldable pub is_terminal : TransferStateMachine → Bool
is_terminal m = is_terminal_state m.state

unfoldable pub is_active : TransferStateMachine → Bool
unfolding is_terminal
is_active m = not (is_terminal m)

-- A client's requests in order; a refused one leaves the machine as it is.
unfoldable pub run : TransferStateMachine → List TransferState → TransferStateMachine
run m [] = m
run m (t ∷ ts) = run (transition m t).1 ts
