-- ===== src/Protocol/Receive/Delivered.antt =====
-- A transfer that arrives whole is verified, and its files have the contents that were sent.
use just_drop.Base.{
  ℕ, suc, ◌+◌, ◌<◌, ◌≡◌, refl, ap, ◌∙◌, List, [], ◌∷◌, ◌++◌, Option, none, some, true, ok, length,
  get_elem?, ◌>>◌, continue, arith,
}
use just_drop.Core.Types.{TransferManifest, FileEntry, ChunkId, accept}
use just_drop.Storage.Files.{Files, IsLawful, IsReliable, IsSeparate, IsCreating}
use just_drop.Storage.Resume.Manager.{load}
use just_drop.Protocol.Messages.{
  transfer_request, transfer_response, transfer_complete, transfer_verified,
}
use just_drop.Protocol.Link.{Arrival, message, World, incoming_request, send, recv, emit, shutdown}
use just_drop.Protocol.Receive.{
  IncomingTransferDecision, Receiver, Setting, get_writer, new_writers, finalize_all,
  receive_complete, receive_loop, receives, handle_incoming, request_of, load_resume_state, answer,
  response_to, decide,
}
use just_drop.Protocol.Receive
use just_drop.Protocol.Receive.Opening.{temp_of, AreApart}
use just_drop.Protocol.Receive.Marks.{chunks_of}
use just_drop.Protocol.Receive.Finished.{receive_complete-says}
use just_drop.Protocol.Receive.Stored.{AreChunks, NamesAll, HaveSizes, Stored, receives-Stored}

module _ (F : Files) (X : Setting F.Fs) (L : IsLawful F) (R : IsReliable F) (S : IsSeparate F)
    (C : IsCreating F) (contents : ℕ → List ℕ) where
  -- What is said of a transfer that arrived whole.
  pub record Delivered (d : Option IncomingTransferDecision) (m : TransferManifest) (w : World F.Fs)
      : Type 0 where
    pub receiver : Receiver
    pub before_end : World F.Fs
    pub ended : World F.Fs
    -- The call is, at its end, the naming of the files and the verdict.
    pub runs : handle_incoming F X d w ≡ (receive_complete F X m receiver >> shutdown) before_end
    pub succeeds : handle_incoming F X d w ≡ (ok tt, ended)
    pub verdict : ended.sent ≡ before_end.sent ++ (transfer_verified true none ∷ [])
    pub files :
        (i : ℕ) (entry : FileEntry)
        → get_elem? m.files i ≡ some entry
        → F.bytes before_end.fs (temp_of F X entry) ≡ contents i

  -- The receiver up to the writers, when it accepts and has no resume state
  handle_incoming-accepts :
      (d : Option IncomingTransferDecision) (m : TransferManifest) (arrivals : List Arrival)
      (w : World F.Fs) (n : ℕ)
      → w.inbox ≡ message (transfer_request m) ∷ arrivals
      → decide F X d ≡ Receive.accept
      → (load X.state_files X.resume_manager m.transfer_id w.fs).0 ≡ ok none
      → w.room ≡ suc n
      → (u : World F.Fs) × (handle_incoming F X d w ≡ receives F X m 0 u)
        × (u.inbox ≡ arrivals)
        × (u.room ≡ n)
        × (u.can_shutdown ≡ w.can_shutdown)
  unfolding handle_incoming request_of load_resume_state answer response_to send recv emit
  handle_incoming-accepts d m arrivals w n inbox accepts fresh room = (
    record {
      fs = (load X.state_files X.resume_manager m.transfer_id w.fs).1;
      inbox = arrivals;
      sent = w.sent ++ (transfer_response accept ∷ []);
      room = n;
      can_shutdown = w.can_shutdown;
      events = w.events ++ (incoming_request m.transfer_id m m.sender_name ∷ []);
    },
    ground (arith, inbox, accepts, fresh, room),
    refl,
    refl,
    refl,
  )

  loop-end :
      (m : TransferManifest) (r : Receiver) (h : List ℕ) (later : List Arrival) (w : World F.Fs)
      → (receive_loop F X m r (message (transfer_complete h) ∷ later) >> shutdown) w
        ≡ (receive_complete F X m r >> shutdown) (record w { inbox = later })
  unfolding receive_loop
  loop-end m r h later w = refl

  shutdown-open : (t : World F.Fs) → t.can_shutdown ≡ true → shutdown t ≡ (ok tt, t)
  unfolding shutdown
  shutdown-open t h = ground (arith, h)

  ends :
      (d : Option IncomingTransferDecision) (m : TransferManifest) (h : List ℕ)
      (later : List Arrival) (n : ℕ) (w u : World F.Fs)
      → handle_incoming F X d w ≡ receives F X m 0 u
      → u.can_shutdown ≡ true
      → Stored F X L R S C contents m h later 0 n u
      → Delivered d m w
  ends d m h later n w u runs open_ s =
      let arrived : World F.Fs = record s.after { inbox = later } in
      let (t, said, verdict, shut) =
        receive_complete-says F X C m s.receiver arrived n s.complete s.room in
      let whole_run : handle_incoming F X d w
          ≡ (receive_complete F X m s.receiver >> shutdown) arrived =
        runs ∙ s.runs ∙ loop-end m s.receiver h later s.after in
      record {
        receiver = s.receiver;
        before_end = arrived;
        ended = t;
        runs = whole_run;
        succeeds =
            whole_run
            ∙ ap (λ x. continue x.0 (λ y. shutdown) x.1) said
            ∙ shutdown-open t (shut ∙ s.can_shutdown ∙ open_);
        verdict = verdict;
        files = s.files;
      }

  -- A transfer that is accepted, without resume state, arrives when every chunk of every file comes
  -- once or more and in any order, then the end: the receiver succeeds and says that it is verified,
  -- and before the files are named, the temporary file of each has exactly the contents of its
  -- chunks. The chunk size is positive, the temporary files are different ones, the contents have the
  -- sizes of the manifest, which are `u64`, no file operation fails, and the connection takes the
  -- answers and closes.
  pub handle_incoming-delivers :
      (d : Option IncomingTransferDecision) (m : TransferManifest) (ids : List ChunkId) (h : List ℕ)
      (later : List Arrival) (n : ℕ) (w : World F.Fs)
      → w.inbox
        ≡ message (transfer_request m)
          ∷ chunks_of contents m.chunk_size ids (message (transfer_complete h) ∷ later)
      → decide F X d ≡ Receive.accept
      → (load X.state_files X.resume_manager m.transfer_id w.fs).0 ≡ ok none
      → w.room ≡ suc (length ids + suc n)
      → w.can_shutdown ≡ true
      → 0 < m.chunk_size
      → AreApart F X m.files
      → HaveSizes m contents
      → AreChunks m ids
      → NamesAll m ids
      → Delivered d m w
  handle_incoming-delivers d m ids h later n w inbox accepts fresh room open_ pos apart sizes inside
        all =
      let arrivals = chunks_of contents m.chunk_size ids (message (transfer_complete h) ∷ later) in
      let (u, runs, inbox', room', shut) =
        handle_incoming-accepts d m arrivals w (length ids + suc n) inbox accepts fresh room in
      ends d m h later n w u runs (shut ∙ open_) (
        receives-Stored F X L R S C contents m ids h later 0 n u inbox' room' pos apart sizes inside
          all)
