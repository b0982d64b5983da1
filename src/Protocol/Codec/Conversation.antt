-- ===== src/Protocol/Codec/Conversation.antt =====
-- What one side sends is what the other receives.
use just_drop.Base.{
  ℕ, zero, suc, ◌+◌, ◌%◌, ◌^◌, ◌≤◌, ◌≡◌, refl, sym, subst, ap, ◌∙◌, List, [], ◌∷◌, ◌++◌, none, some,
  Result, ok, err, length, false, append-nil, Option-cases, inl, inr, append_assoc, arith,
  >>=-eq-ok, continue, pure,
}
use just_drop.Security.Session.{
  Snow, IsNoise, encrypt, decrypt, max_noise_message, tag_len, encryption_failed, decryption_failed,
  failing,
}
use just_drop.Network.Frames.{
  SecureTransport, Transport, NetworkError, to_be_bytes, fill, read_frame, framed,
}
use just_drop.Network.Frames
use just_drop.Network.Frames.Segments.{concat, HasNoEmpty, recv-frame}
use just_drop.Protocol.Messages.{Message, Bincode}
use just_drop.Protocol.Codec.{
  send, recv, send_all, recv_all, sending, send_bytes, received, deserialized, more,
}

fill-nothing :
    (buf : List ℕ) (segs : List (List ℕ))
    → HasNoEmpty segs
    → buf ++ concat segs ≡ []
    → fill 4 buf segs ≡ (false, [], [])
unfolding fill
fill-nothing [] [] n e = refl
fill-nothing [] ([] ∷ segs) n e = absurd (omega (arith, n.0))
fill-nothing [] ((x ∷ seg) ∷ segs) n e = absurd (ground (arith, e))
fill-nothing (x ∷ buf) segs n e = absurd (ground (arith, e))

cancel_left : (xs ys zs : List ℕ) → xs ++ ys ≡ xs ++ zs → ys ≡ zs
cancel_left [] ys zs e = e
cancel_left (x ∷ xs) ys zs e = cancel_left xs ys zs (ground (arith, e))

append_sent : (a h c w : List ℕ) → (a ++ (h ++ c)) ++ w ≡ a ++ (h ++ (c ++ w))
append_sent a h c w = append_assoc a (h ++ c) w ∙ ap (λ xs. a ++ xs) (append_assoc h c w)

module _ (S : Snow) (N : IsNoise S) where
  -- A frame sent: the ciphertext, and what the receiver's session makes of it
  record Sent (p : List ℕ) (t t' : Transport S) : Type 0 where
    ciphertext : List ℕ
    short : length ciphertext ≤ max_noise_message
    frame : t'.written ≡ t.written ++ (to_be_bytes (length ciphertext) ++ ciphertext)
    opens :
        (r : S.TransportState)
        → N.Linked t.session r
        → (r' : S.TransportState) × (decrypt S ciphertext r ≡ (ok p, r')) × N.Linked t'.session r'

  framed-Sent :
      (p : List ℕ) (t t' : Transport S) (r : Result ℕ (List ℕ)) (s : S.TransportState)
      → S.write_message p (length p + tag_len) t.session ≡ (r, s)
      → framed S (failing encryption_failed r, s) t ≡ (ok tt, t')
      → Sent p t t'
  unfolding decrypt
  framed-Sent p t t' (err e) s w h = absurd (ground (arith, h))
  framed-Sent p t t' (ok c) s w h =
      let short = N.expands p c (length p + tag_len) t.session s w in
      let same : t' ≡ record t {
        session = s;
        written = t.written ++ (to_be_bytes (length c % 2 ^ 32) ++ c);
      } =
        sym (ap (λ z. z.1) h) in
      let small : length c % 2 ^ 32 ≡ length c = omega (arith, short.1) in
      record {
        ciphertext = c;
        short = short.1;
        frame = ap (λ z. z.written) same ∙ ap (λ n. t.written ++ (to_be_bytes n ++ c)) small;
        opens = λ r l.
            let (r', reads, linked) = N.reads p c (length p + tag_len) t.session s r l w in
            (
              r',
              ap (λ z. (failing decryption_failed z.0, z.1)) reads,
              subst (λ z. N.Linked z.session r') (sym same) linked,
            );
      }

  send-Sent : (p : List ℕ) (t t' : Transport S) → Frames.send S p t ≡ (ok tt, t') → Sent p t t'
  unfolding Frames.send encrypt
  send-Sent p t t' h =
      let w = S.write_message p (length p + tag_len) t.session in framed-Sent p t t' w.0 w.1 refl h

  -- At the end of the stream there is no message.
  recv-end :
      (t : Transport S)
      → t.read_buf ++ concat t.segments ≡ []
      → HasNoEmpty t.segments
      → (t' : Transport S) × (Frames.recv S t ≡ (ok none, t'))
  unfolding Frames.recv read_frame fill
  recv-end t e n =
      let h = fill-nothing t.read_buf t.segments n e in
      (record t { segments = []; read_buf = [] }, rw h refl)

  module _ (B : Bincode) where
    sending-ok :
        (t' : Transport S) (r : Result NetworkError (Unit {0}) × Transport S)
        → sending S B r ≡ (ok tt, t')
        → r ≡ (ok tt, t')
    sending-ok t' (ok x, t) h = ap (λ z. (ok tt, z.1)) h
    sending-ok t' (err e, t) h = absurd (ground (arith, h))

    send-bytes :
        (m : Message) (t t' : Transport S)
        → send S B m t ≡ (ok tt, t')
        → (p : List ℕ) × (B.serialize m ≡ some p) × (Frames.send S p t ≡ (ok tt, t'))
    unfolding send
    send-bytes m t t' h = elim (Option-cases (B.serialize m)) [
      | inl e ↦ absurd (ground (arith, e, h))
      | inr (p, e) ↦
          (p, e, sending-ok t' (Frames.send S p t) (sym (ap (λ o. send_bytes S B o t) e) ∙ h))
    ]

    -- What is still to be received, by the session that follows
    pub record Awaits (bytes : List ℕ) (s : S.TransportState) (u : Transport S) : Type 0 where
      pub flows : HasNoEmpty u.segments
      pub content : u.read_buf ++ concat u.segments ≡ bytes
      pub linked : N.Linked s u.session

    recv-Sent :
        (m : Message) (t t' : Transport S) (u : Transport S) (p w : List ℕ) (s : Sent p t t')
        → Awaits (to_be_bytes (length s.ciphertext) ++ (s.ciphertext ++ w)) t.session u
        → B.deserialize p ≡ some m
        → (u' : Transport S) × (recv S B u ≡ (ok (some m), u')) × Awaits w t'.session u'
    unfolding recv
    recv-Sent m t t' u p w s a d =
        let (r, opens, linked) = s.opens u.session a.linked in
        let (u', runs, content, session, flows) =
          recv-frame S u s.ciphertext w p r a.flows a.content (omega (arith, s.short)) opens in
        (
          u',
          ap (received S B) runs ∙ ap (λ o. deserialized S B o u') d,
          record {
            flows = flows;
            content = content;
            linked = subst (N.Linked t'.session) (sym session) linked;
          },
        )

    -- What was sent: the bytes, and that it is received from them
    abbrev pub Conveys : List Message → Transport S → Transport S → List ℕ → Type 0
    Conveys ms t t' w =
        (t'.written ≡ t.written ++ w)
        × ((u : Transport S)
            → Awaits w t.session u
            → (u' : Transport S) × (recv_all S B (suc (length ms)) u ≡ (ok ms, u')))

    pub send_all-Conveys :
        (reads : (m : Message) (p : List ℕ) → B.serialize m ≡ some p → B.deserialize p ≡ some m)
        (ms : List Message) (t t' : Transport S)
        → send_all S B ms t ≡ (ok tt, t')
        → (w : List ℕ) × Conveys ms t t' w
    unfolding send_all recv_all recv
    send_all-Conveys reads [] t t' h = (
      [],
      (
        ap (λ z. z.1.written) (sym h) ∙ sym (append-nil t.written),
        λ u a.
            let (u', e) = recv-end u a.content a.flows in
            (
              u',
              ap
                  (λ z.
                    continue (received S B z).0 (more S B (recv_all S B zero)) (received S B z).1)
                  e,
            ),
      ),
    )
    send_all-Conveys reads (m ∷ ms) t t' h =
        let (a, t1, h1, h2) = >>=-eq-ok (send S B m) (λ a. send_all S B ms) t h in
        let (p, e, sends) = send-bytes m t t1 h1 in
        let s = send-Sent p t t1 sends in
        let (w, (written, reads_rest)) = send_all-Conveys reads ms t1 t' h2 in
        (
          to_be_bytes (length s.ciphertext) ++ (s.ciphertext ++ w),
          (
            written
                ∙ (ap (λ b. b ++ w) s.frame
                    ∙ append_sent t.written (to_be_bytes (length s.ciphertext)) s.ciphertext w),
            λ u a.
                let (u1, r1, a1) = recv-Sent m t t1 u p w s a (reads m p e) in
                let (u2, r2) = reads_rest u1 a1 in
                (
                  u2,
                  ap (λ z. continue z.0 (more S B (recv_all S B (suc (length ms)))) z.1) r1
                      ∙ ap (λ z. continue z.0 (λ xs. pure (m ∷ xs)) z.1) r2,
                ),
          ),
        )

    -- Messages that one side sends, all of them with success, the other side receives: the same
    -- messages in the same order, and then the end of the stream. The two sessions are linked, what the
    -- codec serialises it reads back, the receiver's stream holds what the sender wrote, however it is
    -- cut into segments, and no read returns nothing before the end.
    pub recv_all-send_all :
        (reads : (m : Message) (p : List ℕ) → B.serialize m ≡ some p → B.deserialize p ≡ some m)
        (ms : List Message) (t t' u : Transport S)
        → send_all S B ms t ≡ (ok tt, t')
        → N.Linked t.session u.session
        → HasNoEmpty u.segments
        → t'.written ≡ t.written ++ (u.read_buf ++ concat u.segments)
        → (u' : Transport S) × (recv_all S B (suc (length ms)) u ≡ (ok ms, u'))
    recv_all-send_all reads ms t t' u h l n e =
        let (w, (written, receives)) = send_all-Conveys reads ms t t' h in
        receives u record {
          flows = n;
          content = cancel_left t.written (u.read_buf ++ concat u.segments) w (sym e ∙ written);
          linked = l;
        }
