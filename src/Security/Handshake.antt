-- ===== src/Security/Handshake.antt =====
-- crates/justdrop-security/src/handshake.rs: the three messages of the Noise XX handshake, sent and
-- received by functions that the caller gives. The handshake state of `snow` is an interface.
use just_drop.Base.{
  ℕ, ◌≤◌, ◌≡◌, List, Option, none, some, Result, ok, err, Action, pure, ◌>>=◌, ◌>>◌, length,
}
use just_drop.Security.Session.{
  SecurityError, handshake_failed, peer_verification_failed, Snow, IsNoise, max_noise_message,
}

-- `snow::Builder` with a private key, and `snow::HandshakeState`. A message carries no payload.
pub record NoiseXx (S : Snow) : Type 1 where
  pub HandshakeState : Type 0
  pub build_initiator : List ℕ → Result ℕ HandshakeState
  pub build_responder : List ℕ → Result ℕ HandshakeState
  pub write_message : HandshakeState → Result ℕ (List ℕ × HandshakeState)
  pub read_message : List ℕ → HandshakeState → Result ℕ HandshakeState
  pub get_remote_static : HandshakeState → Option (List ℕ)
  pub into_transport_mode : HandshakeState → Result ℕ S.TransportState

-- What `snow` documents: a message fits the buffer, and a handshake that both sides complete, each having
-- read what the other wrote, links their sessions both ways.
pub record IsXx (S : Snow) (N : IsNoise S) (X : NoiseXx S) : Type 1 where
  pub fits :
      (h h' : X.HandshakeState) (m : List ℕ)
      → X.write_message h ≡ ok (m, h')
      → length m ≤ max_noise_message
  pub links :
      (ka kb m1 m2 m3 : List ℕ) (a0 a1 a2 a3 b0 b1 b2 b3 : X.HandshakeState)
      (ta tb : S.TransportState)
      → X.build_initiator ka ≡ ok a0
      → X.build_responder kb ≡ ok b0
      → X.write_message a0 ≡ ok (m1, a1)
      → X.read_message m1 b0 ≡ ok b1
      → X.write_message b1 ≡ ok (m2, b2)
      → X.read_message m2 a1 ≡ ok a2
      → X.write_message a2 ≡ ok (m3, a3)
      → X.read_message m3 b2 ≡ ok b3
      → X.into_transport_mode a3 ≡ ok ta
      → X.into_transport_mode b3 ≡ ok tb
      → N.Linked ta tb × N.Linked tb ta

module _ (S : Snow) (X : NoiseXx S) {W : Type 0} where
  abbrev failing : {A : Type 0} → Result ℕ A → Action W SecurityError A
  failing (ok a) w = (ok a, w)
  failing (err e) w = (err (handshake_failed e), w)

  abbrev verified : Option (List ℕ) → Action W SecurityError (List ℕ)
  verified (some key) w = (ok key, w)
  verified none w = (err peer_verification_failed, w)

  -- The end of a handshake: the session and the key of the peer
  unfoldable pub finish : X.HandshakeState → Action W SecurityError (S.TransportState × List ℕ)
  finish state = do
    remote_static ← verified (X.get_remote_static state)
    transport ← failing (X.into_transport_mode state)
    pure (transport, remote_static)

  module _ (send : List ℕ → Action W SecurityError (Unit {0}))
      (recv : Action W SecurityError (List ℕ)) where
    -- `NoiseInitiator::new` and `handshake`
    unfoldable pub initiator_handshake : List ℕ → Action W SecurityError (S.TransportState × List ℕ)
    initiator_handshake private_key = do
      state ← failing (X.build_initiator private_key)
      (msg1, state1) ← failing (X.write_message state)
      send msg1
      msg2 ← recv
      state2 ← failing (X.read_message msg2 state1)
      (msg3, state3) ← failing (X.write_message state2)
      send msg3
      finish state3

    -- `NoiseResponder::new` and `handshake`
    unfoldable pub responder_handshake : List ℕ → Action W SecurityError (S.TransportState × List ℕ)
    responder_handshake private_key = do
      state ← failing (X.build_responder private_key)
      msg1 ← recv
      state1 ← failing (X.read_message msg1 state)
      (msg2, state2) ← failing (X.write_message state1)
      send msg2
      msg3 ← recv
      state3 ← failing (X.read_message msg3 state2)
      finish state3
