-- ===== src/Protocol/Codec/Limit.antt =====
-- A Noise message has 65,535 bytes at most, with the tag.
use just_drop.Base.{ℕ, ◌+◌, ◌<◌, ◌≡◌, refl, ap, ◌∙◌, List, some, err, length}
use just_drop.Security.Session.{
  Snow, IsNoise, encrypt, encryption_failed, max_noise_message, tag_len, failing,
}
use just_drop.Network.Frames.{Transport, framed}
use just_drop.Network.Frames
use just_drop.Protocol.Messages.{Message, Bincode}
use just_drop.Protocol.Link.{serialization}
use just_drop.Protocol.Codec.{send, sending, send_bytes}

-- A message that is longer than a Noise message once it is serialised and has its tag is not sent: the
-- codec says that it cannot be serialised, and nothing is written.
pub send-too_long :
    (S : Snow) (N : IsNoise S) (B : Bincode) (m : Message) (p : List ℕ) (t : Transport S)
    → B.serialize m ≡ some p
    → max_noise_message < length p + tag_len
    → (t' : Transport S) × (send S B m t ≡ (err serialization, t')) × (t'.written ≡ t.written)
unfolding send Frames.send encrypt
send-too_long S N B m p t e l =
    let (code, s, refused) = N.too_long p (length p + tag_len) t.session l in
    (
      record t { session = s },
      ap (λ o. send_bytes S B o t) e
          ∙ ap (λ r. sending S B (framed S (failing encryption_failed r.0, r.1) t)) refused,
      refl,
    )
