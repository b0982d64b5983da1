-- ===== src/Tests/Network.antt =====
-- A session that appends a tag of sixteen bytes, and frames that arrive in pieces: one of two bytes in
-- three segments, the last with the start of the next frame, and a conversation of two messages.
use just_drop.Base.{
  ℕ, zero, suc, ◌+◌, ◌-◌, ◌≤◌, ◌≡◌, refl, ap, ◌∙◌, List, [], ◌∷◌, ◌++◌, Option, none, some, Result,
  ◌<◌, Bool, ok, err, length, length-append, take, arith, get_or, ◌==◌, ltb, true, false,
  Bool-cases, inl, inr, if◌then◌else◌,
}
use just_drop.Security.Session.{decrypt, Snow, IsNoise, max_noise_message, tag_len}
use just_drop.Core.Config.{default_network}
use just_drop.Network.Connector.{
  Dialed, timed_out, refused, dialed, ConnectError, timeout, connection_failed, connect_with_retry,
}
use just_drop.Network.Connector.Retries.{outcome, connect_with_retry-until}
use just_drop.Network.Frames.{Transport, to_be_bytes}
use just_drop.Network.Frames.Segments.{concat, HasNoEmpty, recv-frame}
use just_drop.Network.Frames
use just_drop.Protocol.Messages.{Message, Bincode, ping, pong}
use just_drop.Protocol.Link.{serialization}
use just_drop.Protocol.Codec.{send, send_all}
use just_drop.Protocol.Codec.Limit.{send-too_long}

abbrev pub zeros : ℕ → List ℕ
zeros zero = []
zeros (suc n) = 0 ∷ zeros n

abbrev pub tagged : List ℕ → ℕ → ℕ → Result ℕ (List ℕ) × ℕ
tagged p n s =
    if ltb max_noise_message (length p + tag_len)
    then (err 1, s)
    else (ok (p ++ zeros tag_len), suc s)

abbrev pub untagged : List ℕ → ℕ → ℕ → Result ℕ (List ℕ) × ℕ
untagged c n s =
    if ltb (length c) tag_len then (err 2, s) else (ok (take (length c - tag_len) c), suc s)

abbrev pub plain : Snow
plain = record {
  TransportState = ℕ;
  write_message = tagged;
  read_message = untagged;
  is_initiator = λ s. true;
}

take-prefix : (p q : List ℕ) → take (length p) (p ++ q) ≡ p
take-prefix [] q = refl
take-prefix (x ∷ p) q = ap (λ r. x ∷ r) (take-prefix p q)

pub tagged_short :
    (p : List ℕ) (n s : ℕ) (c : List ℕ) (s' : ℕ)
    → tagged p n s ≡ (ok c, s')
    → (length p + tag_len ≤ max_noise_message) × (c ≡ p ++ zeros tag_len) × (s' ≡ suc s)
tagged_short p n s c s' h = elim (Bool-cases (ltb max_noise_message (length p + tag_len))) [
  | inl long ↦ absurd (ground (arith, long, h))
  | inr short ↦ ground (arith, short, h)
]

length-zeros : (n : ℕ) → length (zeros n) ≡ n
length-zeros zero = refl
length-zeros (suc n) = ap suc (length-zeros n)

pub length_tagged : (p : List ℕ) → length (p ++ zeros tag_len) ≡ length p + tag_len
length_tagged p = length-append p (zeros tag_len)

pub untagged-tagged : (p : List ℕ) (n s : ℕ) → untagged (p ++ zeros tag_len) n s ≡ (ok p, suc s)
untagged-tagged p n s =
    let l = length_tagged p in
    let long : ltb (length (p ++ zeros tag_len)) tag_len ≡ false = ground (arith, l) in
    let rest : length (p ++ zeros tag_len) - tag_len ≡ length p = omega (arith, l) in
    rw long (rw rest (ap (λ q. (ok q, suc s)) (take-prefix p (zeros tag_len))))

unfoldable pub plain_noise : IsNoise plain
plain_noise = record {
  Linked = λ s r. s ≡ r;
  too_long = λ p n s l. (1, s, ground (arith, l));
  expands = λ p c n s s' h.
      let (short, e, same) = tagged_short p n s c s' h in ground (arith, short, e, length_tagged p);
  reads = λ p c n s s' r l h.
      let (short, e, same) = tagged_short p n s c s' h in
      (suc r, rw e (untagged-tagged p (length (p ++ zeros tag_len)) r), same ∙ ap suc l);
}

abbrev body : List ℕ
body = 7 ∷ 8 ∷ []

abbrev connection : Transport plain
connection = record {
  segments = (0 ∷ 0 ∷ 18 ∷ []) ∷ (7 ∷ []) ∷ (8 ∷ zeros tag_len ++ (0 ∷ [])) ∷ [];
  written = [];
  read_buf = 0 ∷ [];
  session = 4;
}

arrives_so :
    connection.read_buf ++ concat connection.segments
    ≡ to_be_bytes (length (body ++ zeros tag_len)) ++ ((body ++ zeros tag_len) ++ (0 ∷ []))
unfolding to_be_bytes
arrives_so = refl

recv-frame_example :
    (t' : Transport plain) × (Frames.recv plain connection ≡ (ok (some body), t'))
    × (t'.read_buf ++ concat t'.segments ≡ 0 ∷ [])
    × (t'.session ≡ 5)
    × HasNoEmpty t'.segments
unfolding decrypt
recv-frame_example =
    recv-frame plain connection (body ++ zeros tag_len) (0 ∷ []) body 5
      (omega arith, (omega arith, (omega arith, tt))) arrives_so (omega arith) refl

abbrev pub pinged : Message → Option (List ℕ)
pinged ping = some (8 ∷ [])
pinged pong = some (9 ∷ [])
pinged m = none

abbrev pub short_codec : Bincode
short_codec = record {
  serialize = pinged;
  deserialize = λ bytes.
      if length bytes == 1
      then (if get_or bytes 0 0 == 8
          then some ping
          else if get_or bytes 0 0 == 9
          then some pong
          else none)
      else none;
}

pub short_codec-reads :
    (m : Message) (p : List ℕ)
    → short_codec.serialize m ≡ some p
    → short_codec.deserialize p ≡ some m
short_codec-reads m p h = ground arith

abbrev sender : Transport plain
sender = record { segments = []; written = []; read_buf = []; session = 0 }

abbrev sent : Transport plain
sent = record {
  segments = [];
  written = 0 ∷ 0 ∷ 0 ∷ 17 ∷ 8 ∷ zeros 16 ++ (0 ∷ 0 ∷ 0 ∷ 17 ∷ 9 ∷ zeros 16);
  read_buf = [];
  session = 2;
}

abbrev receiver : Transport plain
receiver = record {
  segments = (8 ∷ zeros 16 ++ (0 ∷ 0 ∷ 0 ∷ 17 ∷ [])) ∷ (9 ∷ zeros 16) ∷ [];
  written = [];
  read_buf = 0 ∷ 0 ∷ 0 ∷ 17 ∷ [];
  session = 0;
}

two_sent : send_all plain short_codec (ping ∷ pong ∷ []) sender ≡ (ok tt, sent)
unfolding send_all send Frames.send just_drop.Security.Session.encrypt to_be_bytes
two_sent = refl

abbrev long_codec : Bincode
long_codec = record { serialize = λ m. some (zeros 65520); deserialize = λ bytes. some ping }

send-too_long_example :
    (t' : Transport plain) × (send plain long_codec ping sender ≡ (err serialization, t'))
    × (t'.written ≡ [])
send-too_long_example =
    send-too_long plain plain_noise long_codec ping (zeros 65520) sender refl
      (omega (arith, length-zeros 65520))

-- The first call is too slow, the second is refused, and the third connects.
abbrev dial : ℕ → ℕ → Bool → Dialed ℕ
dial k secs nodelay = if k == 0 then timed_out else if k == 1 then refused 111 else dialed 5 (ok tt)

abbrev failure : ℕ → ConnectError
failure k = if k == 0 then timeout else connection_failed 111

failure-outcome : (j : ℕ) → j < 2 → outcome dial default_network j ≡ err (failure j)
failure-outcome j h = ground arith

connect_with_retry-until_example :
    connect_with_retry dial default_network 5 30 record { dials = 0; slept = 0 }
    ≡ (outcome dial default_network 2, record { dials = 3; slept = 60 })
connect_with_retry-until_example =
    connect_with_retry-until dial default_network 5 30 2 failure failure-outcome (omega arith)
      (inl refl)
