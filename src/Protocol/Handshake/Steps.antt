-- ===== src/Protocol/Handshake/Steps.antt =====
-- The steps of a handshake that succeeded.
use just_drop.Base.{
  ℕ, ◌≡◌, sym, ap, ◌∙◌, subst, List, [], Result, ok, err, arith, >>=-eq-ok, >>-eq-ok,
}
use just_drop.Security.Session.{Snow}
use just_drop.Security.Handshake.{NoiseXx}
use just_drop.Network.Frames.{Transport}
use just_drop.Protocol.Handshake.{
  TcpStream, serial, deserial, secured, read_raw_frame, write_raw_frame, handshake_initiator,
  handshake_responder,
}

serial-ok :
    {A : Type 0} (r : Result ℕ A) (a : A) (t t' : TcpStream)
    → serial r t ≡ (ok a, t')
    → (r ≡ ok a) × (t ≡ t')
serial-ok (ok b) a t t' h = (ground (arith, h), ap (λ z. z.1) h)
serial-ok (err e) a t t' h = absurd (ground (arith, h))

deserial-ok :
    {A : Type 0} (r : Result ℕ A) (a : A) (t t' : TcpStream)
    → deserial r t ≡ (ok a, t')
    → (r ≡ ok a) × (t ≡ t')
deserial-ok (ok b) a t t' h = (ground (arith, h), ap (λ z. z.1) h)
deserial-ok (err e) a t t' h = absurd (ground (arith, h))

module _ (S : Snow) (X : NoiseXx S) where
  secured-ok :
      (n : S.TransportState) (u v w : TcpStream) (t : Transport S)
      → u ≡ v
      → secured S X n v ≡ (ok t, w)
      → (n ≡ t.session)
        × (t ≡ (record {
          segments = u.segments;
          written = u.written;
          read_buf = [];
          session = t.session;
        }))
  secured-ok n u v w t e h =
      let made : Transport S = record {
        segments = v.segments;
        written = v.written;
        read_buf = [];
        session = n;
      } in
      let same : made ≡ t = ground (arith, h) in
      let session : n ≡ t.session = ap (λ z. z.session) same in
      (
        session,
        sym same
            ∙ (ap
                  (λ z. record {
                    segments = z.segments;
                    written = z.written;
                    read_buf = [];
                    session = n;
                  })
                  (sym e)
                ∙ ap
                    (λ k. record {
                      segments = u.segments;
                      written = u.written;
                      read_buf = [];
                      session = k;
                    })
                    session),
      )

  -- A handshake of the initiator that succeeded
  pub record Initiated (key : List ℕ) (s : TcpStream) (t : Transport S) : Type 0 where
    pub h0 : X.HandshakeState
    pub h1 : X.HandshakeState
    pub h2 : X.HandshakeState
    pub h3 : X.HandshakeState
    pub m1 : List ℕ
    pub m2 : List ℕ
    pub m3 : List ℕ
    pub first : TcpStream
    pub after : TcpStream
    pub last : TcpStream
    pub built : X.build_initiator key ≡ ok h0
    pub wrote : X.write_message h0 ≡ ok (m1, h1)
    pub sent : write_raw_frame m1 s ≡ (ok tt, first)
    pub received : read_raw_frame first ≡ (ok m2, after)
    pub reads : X.read_message m2 h1 ≡ ok h2
    pub wrote3 : X.write_message h2 ≡ ok (m3, h3)
    pub sent3 : write_raw_frame m3 after ≡ (ok tt, last)
    pub session : X.into_transport_mode h3 ≡ ok t.session
    pub codec : t ≡ (record {
      segments = last.segments;
      written = last.written;
      read_buf = [];
      session = t.session;
    })

  pub initiated :
      (key : List ℕ) (s s' : TcpStream) (t : Transport S)
      → handshake_initiator S X key s ≡ (ok t, s')
      → Initiated key s t
  unfolding handshake_initiator
  initiated key s s' t h =
      let (h0, u0, e0, k0) = >>=-eq-ok (serial (X.build_initiator key)) _ s h in
      let (built, w0) = serial-ok (X.build_initiator key) h0 s u0 e0 in
      let (p1, u1, e1, k1) = >>=-eq-ok (serial (X.write_message h0)) _ u0 k0 in
      let (wrote, w1) = serial-ok (X.write_message h0) p1 u0 u1 e1 in
      let (u2, e2, k2) = >>-eq-ok (write_raw_frame p1.0) _ u1 k1 in
      let (m2, u3, e3, k3) = >>=-eq-ok read_raw_frame _ u2 k2 in
      let (h2, u4, e4, k4) = >>=-eq-ok (deserial (X.read_message m2 p1.1)) _ u3 k3 in
      let (reads, w4) = deserial-ok (X.read_message m2 p1.1) h2 u3 u4 e4 in
      let (p3, u5, e5, k5) = >>=-eq-ok (serial (X.write_message h2)) _ u4 k4 in
      let (wrote3, w5) = serial-ok (X.write_message h2) p3 u4 u5 e5 in
      let (u6, e6, k6) = >>-eq-ok (write_raw_frame p3.0) _ u5 k5 in
      let (n, u7, e7, k7) = >>=-eq-ok (serial (X.into_transport_mode p3.1)) _ u6 k6 in
      let (moved, w7) = serial-ok (X.into_transport_mode p3.1) n u6 u7 e7 in
      let (moved_session, moved_codec) = secured-ok n u6 u7 s' t w7 k7 in
      record {
        h0 = h0;
        h1 = p1.1;
        h2 = h2;
        h3 = p3.1;
        m1 = p1.0;
        m2 = m2;
        m3 = p3.0;
        first = u2;
        after = u3;
        last = u6;
        built = built;
        wrote = wrote;
        sent = subst (λ z. write_raw_frame p1.0 z ≡ (ok tt, u2)) (sym (w0 ∙ w1)) e2;
        received = e3;
        reads = reads;
        wrote3 = wrote3;
        sent3 = subst (λ z. write_raw_frame p3.0 z ≡ (ok tt, u6)) (sym (w4 ∙ w5)) e6;
        session = moved ∙ ap ok moved_session;
        codec = moved_codec;
      }

  -- A handshake of the responder that succeeded
  pub record Responded (key : List ℕ) (s : TcpStream) (t : Transport S) : Type 0 where
    pub h0 : X.HandshakeState
    pub h1 : X.HandshakeState
    pub h2 : X.HandshakeState
    pub h3 : X.HandshakeState
    pub m1 : List ℕ
    pub m2 : List ℕ
    pub m3 : List ℕ
    pub first : TcpStream
    pub after : TcpStream
    pub last : TcpStream
    pub built : X.build_responder key ≡ ok h0
    pub received : read_raw_frame s ≡ (ok m1, first)
    pub reads : X.read_message m1 h0 ≡ ok h1
    pub wrote : X.write_message h1 ≡ ok (m2, h2)
    pub sent : write_raw_frame m2 first ≡ (ok tt, after)
    pub received3 : read_raw_frame after ≡ (ok m3, last)
    pub reads3 : X.read_message m3 h2 ≡ ok h3
    pub session : X.into_transport_mode h3 ≡ ok t.session
    pub codec : t ≡ (record {
      segments = last.segments;
      written = last.written;
      read_buf = [];
      session = t.session;
    })

  pub responded :
      (key : List ℕ) (s s' : TcpStream) (t : Transport S)
      → handshake_responder S X key s ≡ (ok t, s')
      → Responded key s t
  unfolding handshake_responder
  responded key s s' t h =
      let (h0, u0, e0, k0) = >>=-eq-ok (serial (X.build_responder key)) _ s h in
      let (built, w0) = serial-ok (X.build_responder key) h0 s u0 e0 in
      let (m1, u1, e1, k1) = >>=-eq-ok read_raw_frame _ u0 k0 in
      let (h1, u2, e2, k2) = >>=-eq-ok (deserial (X.read_message m1 h0)) _ u1 k1 in
      let (reads, w2) = deserial-ok (X.read_message m1 h0) h1 u1 u2 e2 in
      let (p2, u3, e3, k3) = >>=-eq-ok (serial (X.write_message h1)) _ u2 k2 in
      let (wrote, w3) = serial-ok (X.write_message h1) p2 u2 u3 e3 in
      let (u4, e4, k4) = >>-eq-ok (write_raw_frame p2.0) _ u3 k3 in
      let (m3, u5, e5, k5) = >>=-eq-ok read_raw_frame _ u4 k4 in
      let (h3, u6, e6, k6) = >>=-eq-ok (deserial (X.read_message m3 p2.1)) _ u5 k5 in
      let (reads3, w6) = deserial-ok (X.read_message m3 p2.1) h3 u5 u6 e6 in
      let (n, u7, e7, k7) = >>=-eq-ok (serial (X.into_transport_mode h3)) _ u6 k6 in
      let (moved, w7) = serial-ok (X.into_transport_mode h3) n u6 u7 e7 in
      let (moved_session, moved_codec) = secured-ok n u5 u7 s' t (w6 ∙ w7) k7 in
      record {
        h0 = h0;
        h1 = h1;
        h2 = p2.1;
        h3 = h3;
        m1 = m1;
        m2 = p2.0;
        m3 = m3;
        first = u1;
        after = u4;
        last = u5;
        built = built;
        received = subst (λ z. read_raw_frame z ≡ (ok m1, u1)) (sym w0) e1;
        reads = reads;
        wrote = wrote;
        sent = subst (λ z. write_raw_frame p2.0 z ≡ (ok tt, u4)) (sym (w2 ∙ w3)) e4;
        received3 = e5;
        reads3 = reads3;
        session = moved ∙ ap ok moved_session;
        codec = moved_codec;
      }
