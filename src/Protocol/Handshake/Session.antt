-- ===== src/Protocol/Handshake/Session.antt =====
-- From two fresh connections to the messages that arrive.
use just_drop.Base.{ℕ, suc, ◌≡◌, sym, ap, ◌∙◌, List, [], ◌++◌, some, ok, length}
use just_drop.Security.Session.{Snow, IsNoise}
use just_drop.Security.Handshake.{NoiseXx, IsXx}
use just_drop.Network.Frames.{Transport}
use just_drop.Network.Frames.Segments.{concat, HasNoEmpty}
use just_drop.Protocol.Messages.{Message, Bincode}
use just_drop.Protocol.Codec.{send_all, recv_all}
use just_drop.Protocol.Codec.Conversation.{send_all-Conveys, recv_all-send_all}
use just_drop.Protocol.Handshake.{TcpStream, handshake_initiator, handshake_responder}
use just_drop.Protocol.Handshake.Agreement.{handshake-Linked}

-- The initiator of a handshake sends messages afterwards, and the responder receives the same messages in
-- the same order, and then the end of the stream. Both sides end the handshake with success, and all
-- messages are sent with success; the responder's stream holds what the initiator wrote, and the
-- initiator's what the responder wrote in the handshake and more, however they are cut, where no read
-- returns nothing before the end; and what the codec serialises it reads back.
pub recv_all-handshake :
    (S : Snow) (N : IsNoise S) (X : NoiseXx S) (L : IsXx S N X) (B : Bincode)
    (reads : (m : Message) (p : List ℕ) → B.serialize m ≡ some p → B.deserialize p ≡ some m)
    (ka kb xa : List ℕ) (sa sa' sb sb' : TcpStream) (ta ta' tb : Transport S) (ms : List Message)
    → handshake_initiator S X ka sa ≡ (ok ta, sa')
    → handshake_responder S X kb sb ≡ (ok tb, sb')
    → sa.written ≡ []
    → sb.written ≡ []
    → HasNoEmpty sa.segments
    → HasNoEmpty sb.segments
    → concat sa.segments ≡ tb.written ++ xa
    → send_all S B ms ta ≡ (ok tt, ta')
    → concat sb.segments ≡ ta'.written
    → (tb' : Transport S) × (recv_all S B (suc (length ms)) tb ≡ (ok ms, tb'))
recv_all-handshake S N X L B reads ka kb xa sa sa' sb sb' ta ta' tb ms ha hb fa fb na nb ca h cb =
    let (w, (written, receives)) = send_all-Conveys S N B reads ms ta ta' h in
    let (linked, left_a, left_b, flows_a, flows_b) =
      handshake-Linked S N X L ka kb xa w sa sa' sb sb' ta tb ha hb fa fb na nb ca (cb ∙ written) in
    recv_all-send_all S N B reads ms ta ta' tb h linked.0 flows_b
      (written ∙ ap (λ z. ta.written ++ z) (sym left_b))
