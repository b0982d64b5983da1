-- ===== src/Protocol/Handshake/Agreement.antt =====
-- Both sides of a handshake end with linked sessions.
use just_drop.Base.{
  ℕ, ◌≤◌, ◌≡◌, sym, ap, ◌∙◌, subst, List, [], ◌++◌, ok, length, append_assoc, arith,
}
use just_drop.Core.Types.{max_message_size}
use just_drop.Security.Session.{Snow, IsNoise}
use just_drop.Security.Handshake.{NoiseXx, IsXx}
use just_drop.Network.Frames.{Transport}
use just_drop.Network.Frames.Segments.{concat, HasNoEmpty}
use just_drop.Protocol.Handshake.{
  TcpStream, read_raw_frame, write_raw_frame, handshake_initiator, handshake_responder,
}
use just_drop.Protocol.Handshake.Frames.{
  Holds, frame, read_raw_frame-Holds, write_raw_frame-frame, read_raw_frame-written,
}
use just_drop.Protocol.Handshake.Steps.{Initiated, Responded, initiated, responded}

-- A frame read from a stream that holds it
read_raw_frame-is :
    (m m' rest : List ℕ) (t t' : TcpStream)
    → length m ≤ max_message_size
    → Holds (frame m ++ rest) t
    → read_raw_frame t ≡ (ok m', t')
    → (m' ≡ m) × (t'.written ≡ t.written) × Holds rest t'
read_raw_frame-is m m' rest t t' l h e =
    let (u, r, w, holds) = read_raw_frame-Holds m rest t l h in
    let same : m' ≡ m = ground (arith, e, r) in
    let left : t' ≡ u = ap (λ z. z.1) (sym e ∙ r) in
    (same, ap (λ z. z.written) left ∙ w, subst (Holds rest) (sym left) holds)

write_raw_frame-is :
    (m : List ℕ) (t t' : TcpStream)
    → length m ≤ max_message_size
    → write_raw_frame m t ≡ (ok tt, t')
    → t' ≡ (record t { written = t.written ++ frame m })
write_raw_frame-is m t t' l e = ap (λ z. z.1) (sym e ∙ write_raw_frame-frame m t l)

read-written :
    (t t' : TcpStream) (m : List ℕ) → read_raw_frame t ≡ (ok m, t') → t'.written ≡ t.written
read-written t t' m e = sym (ap (λ z. z.1.written) e) ∙ read_raw_frame-written t

-- Only the segments count for what a stream holds.
Holds-moved :
    (bytes : List ℕ) (t t' : TcpStream) → t'.segments ≡ t.segments → Holds bytes t → Holds bytes t'
Holds-moved bytes t t' e h = record {
  flows = subst HasNoEmpty (sym e) h.flows;
  content = ap concat e ∙ h.content;
}

module _ (S : Snow) (N : IsNoise S) (X : NoiseXx S) (L : IsXx S N X) where
  -- What each side writes in the handshake
  initiator-writes :
      (k : List ℕ) (s : TcpStream) (t : Transport S) (i : Initiated S X k s t)
      → s.written ≡ []
      → t.written ≡ frame i.m1 ++ frame i.m3
  initiator-writes k s t i f =
      let first =
        write_raw_frame-is i.m1 s i.first (omega (arith, L.fits i.h0 i.h1 i.m1 i.wrote)) i.sent in
      let last =
        write_raw_frame-is i.m3 i.after i.last (omega (arith, L.fits i.h2 i.h3 i.m3 i.wrote3))
          i.sent3 in
      ap (λ z. z.written) i.codec
      ∙ (ap (λ z. z.written) last
          ∙ ap (λ w. w ++ frame i.m3)
              (read-written i.first i.after i.m2 i.received
                ∙ (ap (λ z. z.written) first ∙ ap (λ w. w ++ frame i.m1) f)))

  responder-writes :
      (k : List ℕ) (s : TcpStream) (t : Transport S) (r : Responded S X k s t)
      → s.written ≡ []
      → t.written ≡ frame r.m2
  responder-writes k s t r f =
      let after =
        write_raw_frame-is r.m2 r.first r.after (omega (arith, L.fits r.h1 r.h2 r.m2 r.wrote))
          r.sent in
      ap (λ z. z.written) r.codec
      ∙ (read-written r.after r.last r.m3 r.received3
          ∙ (ap (λ z. z.written) after
              ∙ ap (λ w. w ++ frame r.m2) (read-written s r.first r.m1 r.received ∙ f)))

  linked :
      (ka kb xa xb : List ℕ) (sa sb : TcpStream) (ta tb : Transport S)
      → Initiated S X ka sa ta
      → Responded S X kb sb tb
      → sa.written ≡ []
      → sb.written ≡ []
      → Holds (tb.written ++ xa) sa
      → Holds (ta.written ++ xb) sb
      → (N.Linked ta.session tb.session × N.Linked tb.session ta.session)
        × (Holds xa record { segments = ta.segments; written = [] })
        × (Holds xb record { segments = tb.segments; written = [] })
  linked ka kb xa xb sa sb ta tb i r fa fb ha hb =
      let l1 : length i.m1 ≤ max_message_size = omega (arith, L.fits i.h0 i.h1 i.m1 i.wrote) in
      let l2 : length r.m2 ≤ max_message_size = omega (arith, L.fits r.h1 r.h2 r.m2 r.wrote) in
      let l3 : length i.m3 ≤ max_message_size = omega (arith, L.fits i.h2 i.h3 i.m3 i.wrote3) in
      let first = write_raw_frame-is i.m1 sa i.first l1 i.sent in
      let last = write_raw_frame-is i.m3 i.after i.last l3 i.sent3 in
      let after = write_raw_frame-is r.m2 r.first r.after l2 r.sent in
      let arrives : (ta.written ++ xb) ≡ frame i.m1 ++ (frame i.m3 ++ xb) =
        ap (λ w. w ++ xb) (initiator-writes ka sa ta i fa)
        ∙ append_assoc (frame i.m1) (frame i.m3) xb in
      let (s1, w1, g1) =
        read_raw_frame-is i.m1 r.m1 (frame i.m3 ++ xb) sb r.first l1
          (subst (λ c. Holds c sb) arrives hb) r.received in
      let (s2, w2, g2) =
        read_raw_frame-is r.m2 i.m2 xa i.first i.after l2
          (Holds-moved (frame r.m2 ++ xa) sa i.first (ap (λ z. z.segments) first)
            (subst (λ c. Holds c sa) (ap (λ w. w ++ xa) (responder-writes kb sb tb r fb)) ha))
          i.received in
      let (s3, w3, g3) =
        read_raw_frame-is i.m3 r.m3 xb r.after r.last l3
          (Holds-moved (frame i.m3 ++ xb) r.first r.after (ap (λ z. z.segments) after) g1)
          r.received3 in
      (
        L.links ka kb i.m1 r.m2 i.m3 i.h0 i.h1 i.h2 i.h3 r.h0 r.h1 r.h2 r.h3 ta.session tb.session
            i.built r.built i.wrote (subst (λ m. X.read_message m r.h0 ≡ ok r.h1) s1 r.reads)
            r.wrote (subst (λ m. X.read_message m i.h1 ≡ ok i.h2) s2 i.reads) i.wrote3
            (subst (λ m. X.read_message m r.h2 ≡ ok r.h3) s3 r.reads3) i.session r.session,
        Holds-moved xa i.after record { segments = ta.segments; written = [] }
            (ap (λ z. z.segments) i.codec ∙ ap (λ z. z.segments) last) g2,
        Holds-moved xb r.last record { segments = tb.segments; written = [] }
            (ap (λ z. z.segments) r.codec) g3,
      )

  -- A handshake that both sides end with success links their sessions both ways, and leaves on each
  -- stream what follows the handshake. The streams begin with nothing written; each holds what the other
  -- side wrote and what follows it, however it is cut, and no read returns nothing before the end.
  pub handshake-Linked :
      (ka kb xa xb : List ℕ) (sa sa' sb sb' : TcpStream) (ta tb : Transport S)
      → handshake_initiator S X ka sa ≡ (ok ta, sa')
      → handshake_responder S X kb sb ≡ (ok tb, sb')
      → sa.written ≡ []
      → sb.written ≡ []
      → HasNoEmpty sa.segments
      → HasNoEmpty sb.segments
      → concat sa.segments ≡ tb.written ++ xa
      → concat sb.segments ≡ ta.written ++ xb
      → (N.Linked ta.session tb.session × N.Linked tb.session ta.session)
        × (ta.read_buf ++ concat ta.segments ≡ xa)
        × (tb.read_buf ++ concat tb.segments ≡ xb)
        × HasNoEmpty ta.segments
        × HasNoEmpty tb.segments
  handshake-Linked ka kb xa xb sa sa' sb sb' ta tb ha hb fa fb na nb ca cb =
      let i = initiated S X ka sa sa' ta ha in
      let r = responded S X kb sb sb' tb hb in
      let (both, ga, gb) =
        linked ka kb xa xb sa sb ta tb i r fa fb record { flows = na; content = ca }
          record { flows = nb; content = cb } in
      (
        both,
        ap (λ z. z.read_buf ++ concat ta.segments) i.codec ∙ ga.content,
        ap (λ z. z.read_buf ++ concat tb.segments) r.codec ∙ gb.content,
        ga.flows,
        gb.flows,
      )
