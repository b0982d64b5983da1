-- ===== src/Protocol/Receive/Whole.antt =====
-- A whole incoming transfer, from the request to the verdict.
use just_drop.Base.{
  ℕ, zero, suc, ◌<◌, ◌≡◌, refl, subst, ap, ◌∙◌, true, false, List, [], ◌∷◌, ◌++◌, Option, none,
  some, Result, ok, err, ◌>>◌, get_elem?, arith, >>=-eq-ok,
}
use just_drop.Core.Types.{TransferManifest, TransferResponse, FileEntry, chunk_count}
use just_drop.Storage.Files.{Files}
use just_drop.Storage.Resume.Manager.{load, TransferResumeState}
use just_drop.Storage.Writer.{ChunkWriter, new}
use just_drop.Storage.Writer.Completion.{IsValid, new-IsValid}
use just_drop.Protocol.Messages.{transfer_request, transfer_response}
use just_drop.Protocol.Link.{
  ProtocolError, Arrival, message, World, send, incoming_request, recv, emit, shutdown, lift_fs,
}
use just_drop.Protocol.Receive.{
  IncomingTransferDecision, accept, reject, bytes_before, Receiver, Setting, get_writer,
  new_writers, receive_loop, handle_incoming, receives, request_of, load_resume_state, answer,
  decide, response_to,
}
use just_drop.Protocol.Receive.Steps.{says_verified, says_verified-++, arrives}
use just_drop.Protocol.Receive.Verified.{IsBacked, loop-verified}

module _ (F : Files) (X : Setting F.Fs) where
  -- What `new_writers` gives: a fresh writer for each file, and nothing said.
  record Fresh (m : TransferManifest) (files : List FileEntry) (ws : List (Option ChunkWriter))
      (w t : World F.Fs) : Type 0 where
    silent : t.sent ≡ w.sent
    waiting : t.inbox ≡ w.inbox
    valid :
        (i : ℕ) (wr : ChunkWriter)
        → get_writer ws i ≡ some wr
        → IsValid wr × (wr.completed_chunks ≡ [])
    total :
        (i : ℕ) (entry : FileEntry)
        → get_elem? files i ≡ some entry
        → (wr : ChunkWriter) × (get_writer ws i ≡ some wr)
          × (wr.total_chunks ≡ chunk_count entry.size m.chunk_size)

  consed :
      {m : TransferManifest} {files : List FileEntry} {w t : World F.Fs}
      {ws : List (Option ChunkWriter)} (wr : ChunkWriter) (ws' : List (Option ChunkWriter))
      (u : World F.Fs) (entry : FileEntry)
      → Fresh m files ws' u t
      → IsValid wr
        × (wr.completed_chunks ≡ [])
        × (wr.total_chunks ≡ chunk_count entry.size m.chunk_size)
      → some wr ∷ ws' ≡ ws
      → u.sent ≡ w.sent
      → u.inbox ≡ w.inbox
      → Fresh m (entry ∷ files) ws w t
  unfolding get_writer
  consed {m} {files} {w} {t} wr ws' u entry old made e sent inbox =
      subst (λ ws. Fresh m (entry ∷ files) ws w t) e
        (record {
          silent = old.silent ∙ sent;
          waiting = old.waiting ∙ inbox;
          valid = valid;
          total = total;
        })
    where
      valid :
          (i : ℕ) (v : ChunkWriter)
          → get_writer (some wr ∷ ws') i ≡ some v
          → IsValid v × (v.completed_chunks ≡ [])
      valid zero v g =
          let same : wr ≡ v = ground (arith, g) in
          subst (λ v. IsValid v × (v.completed_chunks ≡ [])) same (made.0, made.1)
      valid (suc i) v g = old.valid i v g

      total :
          (i : ℕ) (f : FileEntry)
          → get_elem? (entry ∷ files) i ≡ some f
          → (v : ChunkWriter) × (get_writer (some wr ∷ ws') i ≡ some v)
            × (v.total_chunks ≡ chunk_count f.size m.chunk_size)
      total zero f g = (wr, refl, ground (arith, g, made.2))
      total (suc i) f g = old.total i f g

  new_writers-Fresh :
      (m : TransferManifest) (files : List FileEntry) (w : World F.Fs)
      {ws : List (Option ChunkWriter)} {t : World F.Fs}
      → new_writers F X m files w ≡ (ok ws, t)
      → Fresh m files ws w t
  unfolding new_writers lift_fs get_writer
  new_writers-Fresh m [] w h = record {
    silent = ground arith;
    waiting = ground arith;
    valid = λ i wr g. absurd (ground arith);
    total = λ i entry g. absurd (ground arith);
  }
  new_writers-Fresh m (entry ∷ files) w {ws} {t} h =
      let create = lift_fs (
        new F m.transfer_id entry.index (F.join X.download_dir entry.relative_path) m.chunk_size
          entry.size) in
      let (wr, u, e, h1) = >>=-eq-ok create _ w {b = ws} {t = t} h in
      let (ws', v, e2, h2) = >>=-eq-ok (new_writers F X m files) _ u h1 in
      let old = new_writers-Fresh m files u e2 in
      let made =
        new-IsValid F m.transfer_id entry.index (F.join X.download_dir entry.relative_path)
          m.chunk_size entry.size w.fs {w = wr} {t = u.fs} (ground (arith, e)) in
      subst (λ z. Fresh m (entry ∷ files) ws w z) (ap (λ x. x.1) h2)
        (consed wr ws' u entry old made (ground (arith, h2)) (ground (arith, e))
          (ground (arith, e)))

  Fresh-IsBacked :
      {m : TransferManifest} {files : List FileEntry} {ws : List (Option ChunkWriter)}
      {w t : World F.Fs} (n : ℕ)
      → Fresh m files ws w t
      → IsBacked (λ i k. false) (record { writers = ws; bytes_received = n })
  Fresh-IsBacked n f i wr g =
      let (v, none_yet) = f.valid i wr g in (v, λ k h. ground (arith, h, none_yet))

  new_writers-sent :
      (m : TransferManifest) (files : List FileEntry) (w : World F.Fs)
      → (new_writers F X m files w).1.sent ≡ w.sent
  unfolding new_writers lift_fs
  new_writers-sent m [] w = refl
  new_writers-sent m (entry ∷ files) w =
      let dest = F.join X.download_dir entry.relative_path in
      ground (
        arith,
        new_writers-sent m files (record w {
          fs = (new F m.transfer_id entry.index dest m.chunk_size entry.size w.fs).1;
        }),
      )

  -- From the writers on
  receives-verified :
      (m : TransferManifest) (arrivals : List Arrival) (n : ℕ) (w : World F.Fs)
      → w.inbox ≡ arrivals
      → says_verified w.sent ≡ false
      → says_verified (receives F X m n w).1.sent ≡ true
      → (i k : ℕ) (entry : FileEntry) → get_elem? m.files i ≡ some entry
      → k < chunk_count entry.size m.chunk_size
      → arrives arrivals i k ≡ true
  unfolding receives shutdown
  receives-verified m arrivals n w inbox unsaid said i k entry e l =
      made (new_writers F X m m.files w).0 (new_writers F X m m.files w).1 refl
    where
      made :
          (res : Result ProtocolError (List (Option ChunkWriter))) (u : World F.Fs)
          → new_writers F X m m.files w ≡ (res, u)
          → arrives arrivals i k ≡ true
      made (err x) u h = absurd (ground (arith, new_writers-sent m m.files w, h, said, unsaid))
      made (ok ws) u h =
          let f = new_writers-Fresh m m.files w h in
          let (wr, found, total) = f.total i entry e in
          let r : Receiver = record { writers = ws; bytes_received = n } in
          let ended : says_verified (receive_loop F X m r u.inbox u).1.sent ≡ true =
            ground (arith, h, said) in
          subst (λ came. arrives came i k ≡ true) (f.waiting ∙ inbox)
            (loop-verified F X m (λ i k. false) r u.inbox u (Fresh-IsBacked n f)
              (ground (arith, f.silent, unsaid)) ended i k wr found (omega (arith, total, l)))

  answer-unsaid :
      (m : TransferManifest) (state : Option TransferResumeState) (d : IncomingTransferDecision)
      (w : World F.Fs)
      → says_verified (answer F X m state d w).1.sent ≡ says_verified w.sent
  unfolding answer send response_to
  answer-unsaid m state (reject reason) w =
      ground
        (arith, says_verified-++ w.sent (transfer_response (TransferResponse.reject reason) ∷ []))
  answer-unsaid m none accept w =
      ground (arith, says_verified-++ w.sent (transfer_response TransferResponse.accept ∷ []))
  answer-unsaid m (some state) accept w =
      ground (arith, says_verified-++ w.sent (response_to F X m (some state) ∷ []))

  answer-inbox :
      (m : TransferManifest) (state : Option TransferResumeState) (d : IncomingTransferDecision)
      (w : World F.Fs)
      → (answer F X m state d w).1.inbox ≡ w.inbox
  unfolding answer send
  answer-inbox m state (reject reason) w = ground arith
  answer-inbox m none accept w = ground arith
  answer-inbox m (some state) accept w = ground arith

  -- When a connection starts with a request, the receiver says that the transfer is verified only if
  -- every chunk of every file in the manifest came on this connection after the request; what an earlier
  -- connection has stored does not count.
  pub handle_incoming-verified :
      (d : Option IncomingTransferDecision) (m : TransferManifest) (arrivals : List Arrival)
      (w : World F.Fs)
      → w.inbox ≡ message (transfer_request m) ∷ arrivals
      → says_verified w.sent ≡ false
      → says_verified (handle_incoming F X d w).1.sent ≡ true
      → (i k : ℕ) (entry : FileEntry) → get_elem? m.files i ≡ some entry
      → k < chunk_count entry.size m.chunk_size
      → arrives arrivals i k ≡ true
  unfolding handle_incoming recv emit request_of load_resume_state
  handle_incoming-verified d m arrivals w inbox unsaid said i k entry e l =
      answered (answer F X m state (decide F X d) w').0 (answer F X m state (decide F X d) w').1
        refl
    where
      w' : World F.Fs
      w' = record {
        fs = (load X.state_files X.resume_manager m.transfer_id w.fs).1;
        inbox = arrivals;
        sent = w.sent;
        room = w.room;
        can_shutdown = w.can_shutdown;
        events = w.events ++ (incoming_request m.transfer_id m m.sender_name ∷ []);
      }

      state : Option TransferResumeState
      state = elim (load X.state_files X.resume_manager m.transfer_id w.fs).0 [
        | ok found ↦ found
        | err x ↦ none
      ]

      runs :
          (handle_incoming F X d w)
          ≡ ((answer F X m state (decide F X d) >> receives F X m (bytes_before F X state)) w')
      runs = rw inbox

      answered :
          (res : Result ProtocolError (Unit {0})) (u : World F.Fs)
          → answer F X m state (decide F X d) w' ≡ (res, u)
          → arrives arrivals i k ≡ true
      answered (err x) u h =
          absurd (ground (arith, h, runs, said, unsaid, answer-unsaid m state (decide F X d) w'))
      answered (ok x) u h =
          receives-verified m arrivals (bytes_before F X state) u
            (ground (arith, h, answer-inbox m state (decide F X d) w'))
            (ground (arith, h, unsaid, answer-unsaid m state (decide F X d) w'))
            (ground (arith, h, runs, said)) i k entry e l
