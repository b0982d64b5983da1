-- ===== src/Tests/Handshake.antt =====
-- A handshake whose states are counted, then a message, over streams that arrive in pieces.
use just_drop.Base.{ℕ, suc, ◌≤◌, length, subst, ◌≡◌, refl, sym, ◌∙◌, arith, [], ◌∷◌, ◌++◌, some, ok}
use just_drop.Security.Session.{max_noise_message}
use just_drop.Security.Handshake.{NoiseXx, IsXx}
use just_drop.Network.Frames.{Transport, to_be_bytes, from_be_bytes, fill}
use just_drop.Network.Frames
use just_drop.Network.Frames.Segments.{concat, HasNoEmpty}
use just_drop.Protocol.Messages.{ping}
use just_drop.Protocol.Codec.{send, send_all, recv_all}
use just_drop.Protocol.Handshake.{
  TcpStream, read_exact, read_raw_frame, write_raw_frame, handshake_initiator, handshake_responder,
}
use just_drop.Protocol.Handshake.Agreement.{handshake-Linked}
use just_drop.Protocol.Handshake.Session.{recv_all-handshake}
use just_drop.Tests.Network.{zeros, plain, plain_noise, short_codec, short_codec-reads}

abbrev counted : NoiseXx plain
counted = record {
  HandshakeState = ℕ;
  build_initiator = λ key. ok 0;
  build_responder = λ key. ok 0;
  write_message = λ h. ok (h ∷ [], suc h);
  read_message = λ m h. ok (suc h);
  get_remote_static = λ h. some [];
  into_transport_mode = λ h. ok 0;
}

counted-IsXx : IsXx plain plain_noise counted
unfolding plain_noise
counted-IsXx = record {
  fits = λ h h' m e.
      let same : h ∷ [] ≡ m = ground (arith, e) in
      subst (λ z. length z ≤ max_noise_message) same (omega arith);
  links = λ ka kb m1 m2 m3 a0 a1 a2 a3 b0 b1 b2 b3 ta tb e0 e1 e2 e3 e4 e5 e6 e7 ea eb.
      let a : 0 ≡ ta = ground (arith, ea) in
      let b : 0 ≡ tb = ground (arith, eb) in (sym a ∙ b, sym b ∙ a);
}

abbrev initiator_stream : TcpStream
initiator_stream = record { segments = (0 ∷ 0 ∷ []) ∷ (0 ∷ 1 ∷ 1 ∷ []) ∷ []; written = [] }

-- The message is `ping`, with its tag of sixteen bytes.
abbrev responder_stream : TcpStream
responder_stream = record {
  segments = (0 ∷ 0 ∷ 0 ∷ 1 ∷ 0 ∷ 0 ∷ []) ∷ (0 ∷ 0 ∷ 1 ∷ 2 ∷ 0 ∷ 0 ∷ 0 ∷ 17 ∷ 8 ∷ zeros 16) ∷ [];
  written = [];
}

abbrev initiator_codec : Transport plain
initiator_codec = record {
  segments = [];
  written = 0 ∷ 0 ∷ 0 ∷ 1 ∷ 0 ∷ 0 ∷ 0 ∷ 0 ∷ 1 ∷ 2 ∷ [];
  read_buf = [];
  session = 0;
}

abbrev initiator_codec_sent : Transport plain
initiator_codec_sent = record {
  segments = [];
  written = 0 ∷ 0 ∷ 0 ∷ 1 ∷ 0 ∷ 0 ∷ 0 ∷ 0 ∷ 1 ∷ 2 ∷ 0 ∷ 0 ∷ 0 ∷ 17 ∷ 8 ∷ zeros 16;
  read_buf = [];
  session = 1;
}

abbrev responder_codec : Transport plain
responder_codec = record {
  segments = (0 ∷ 0 ∷ 0 ∷ 17 ∷ 8 ∷ zeros 16) ∷ [];
  written = 0 ∷ 0 ∷ 0 ∷ 1 ∷ 1 ∷ [];
  read_buf = [];
  session = 0;
}

abbrev initiator_left : TcpStream
initiator_left = record { segments = []; written = initiator_codec.written }

abbrev responder_left : TcpStream
responder_left = record { segments = responder_codec.segments; written = responder_codec.written }

initiator_runs :
    handshake_initiator plain counted [] initiator_stream ≡ (ok initiator_codec, initiator_left)
unfolding handshake_initiator read_raw_frame read_exact write_raw_frame to_be_bytes from_be_bytes
    fill
initiator_runs = refl

responder_runs :
    handshake_responder plain counted [] responder_stream ≡ (ok responder_codec, responder_left)
unfolding handshake_responder read_raw_frame read_exact write_raw_frame to_be_bytes from_be_bytes
    fill
responder_runs = refl

message_sent :
    send_all plain short_codec (ping ∷ []) initiator_codec ≡ (ok tt, initiator_codec_sent)
unfolding send_all send Frames.send just_drop.Security.Session.encrypt to_be_bytes
message_sent = refl

flowing : HasNoEmpty responder_stream.segments
flowing = (omega arith, (omega arith, tt))

handshake-Linked_example :
    ((initiator_codec.session ≡ responder_codec.session)
      × (responder_codec.session ≡ initiator_codec.session))
    × (initiator_codec.read_buf ++ concat initiator_codec.segments ≡ [])
    × (concat responder_codec.segments ≡ 0 ∷ 0 ∷ 0 ∷ 17 ∷ 8 ∷ zeros 16)
    × HasNoEmpty []
    × HasNoEmpty responder_codec.segments
unfolding plain_noise
handshake-Linked_example =
    handshake-Linked plain plain_noise counted counted-IsXx [] [] [] (0 ∷ 0 ∷ 0 ∷ 17 ∷ 8 ∷ zeros 16)
      initiator_stream initiator_left responder_stream responder_left initiator_codec
      responder_codec initiator_runs responder_runs refl refl (omega arith, (omega arith, tt))
      flowing refl refl

recv_all-handshake_example :
    (tb' : Transport plain) × (recv_all plain short_codec 2 responder_codec ≡ (ok (ping ∷ []), tb'))
recv_all-handshake_example =
    recv_all-handshake plain plain_noise counted counted-IsXx short_codec short_codec-reads [] [] []
      initiator_stream initiator_left responder_stream responder_left initiator_codec
      initiator_codec_sent responder_codec (ping ∷ []) initiator_runs responder_runs refl refl
      (omega arith, (omega arith, tt)) flowing refl message_sent refl
