-- ===== src/Protocol/Transfer.antt =====
-- A whole transfer: what `SendTransfer::send_files` sends is what `RecvTransfer::handle_incoming`
-- gets, of crates/justdrop-protocol/src/transfer.rs.
pub mod Planned
use just_drop.Base.{
  ℕ, suc, ◌+◌, ◌≤◌, ◌<◌, ◌≡◌, refl, sym, ap, ◌∙◌, subst, String, List, [], ◌∷◌, ◌++◌, Option, some,
  none, true, ok, length, length-append, map, append_assoc, u32_mod, u64_mod, arith,
}
use just_drop.Core.Types.{TransferManifest, ChunkId, accept}
use just_drop.Storage.Files.{
  Files, IsLawful, IsReliable, IsReadable, HasLengths, IsSeparate, IsCreating,
}
use just_drop.Storage.Resume.Manager.{load}
use just_drop.Protocol.Messages.{Message, transfer_request, transfer_response, transfer_complete}
use just_drop.Protocol.Link.{Arrival, message, World, send, recv}
use just_drop.Protocol.Send.{negotiate, skip_of, send_files}
use just_drop.Protocol.Send.Plan.{plan, whole_plan}
use just_drop.Protocol.Send.Sent.{send_files-sent}
use just_drop.Protocol.Receive.{IncomingTransferDecision, Setting, decide}
use just_drop.Protocol.Receive
use just_drop.Protocol.Receive.Opening.{AreApart}
use just_drop.Protocol.Receive.Marks.{chunks_of}
use just_drop.Protocol.Receive.Delivered.{Delivered, handle_incoming-delivers}
use just_drop.Protocol.Transfer.Planned.{
  all_ids, content_at, AreSent, plan-chunks_of, all_ids-NamesAll, all_ids-AreChunks, AreSent-sizes,
}

length-arrivals : (ms : List Message) → length (map message ms) ≡ length ms
length-arrivals [] = refl
length-arrivals (m ∷ ms) = ap suc (length-arrivals ms)

length-chunks_of :
    (contents : ℕ → List ℕ) (cs : ℕ) (ids : List ChunkId) (rest : List Arrival)
    → length (chunks_of contents cs ids rest) ≡ length ids + length rest
length-chunks_of contents cs [] rest = omega arith
length-chunks_of contents cs (id ∷ ids) rest = omega (arith, length-chunks_of contents cs ids rest)

module _ (hash : TransferManifest → List ℕ) (m : TransferManifest) (bytes : String → List ℕ)
    (paths : List String) (sent : AreSent bytes m.files paths) where
  -- The messages of a sender that skips nothing, as they arrive
  whole_plan-arrives :
      (later : List Arrival)
      → map message (whole_plan hash m [] bytes paths) ++ later
        ≡ message (transfer_request m)
          ∷ chunks_of
              (content_at bytes paths)
              m.chunk_size
              (all_ids m.chunk_size m.files 0)
              (message (transfer_complete (hash m)) ∷ later)
  whole_plan-arrives later =
      let chunks = plan m [] bytes m.files paths 0 in
      let done = message (transfer_complete (hash m)) in
      ap (λ r. message (transfer_request m) ∷ r)
        (map-append-end chunks
          ∙ plan-chunks_of m bytes (content_at bytes paths) m.files paths 0 (done ∷ later) sent
              (λ j. ap (content_at bytes paths) (omega arith)))
    where
      map-append-end :
          (xs : List Message)
          → map message (xs ++ (transfer_complete (hash m) ∷ [])) ++ later
            ≡ map message xs ++ (message (transfer_complete (hash m)) ∷ later)
      map-append-end [] = refl
      map-append-end (x ∷ xs) = ap (λ r. message x ∷ r) (map-append-end xs)

  length-whole_plan :
      length (whole_plan hash m [] bytes paths) ≡ suc (length (all_ids m.chunk_size m.files 0) + 1)
  length-whole_plan =
      let ids = all_ids m.chunk_size m.files 0 in
      let done : List Arrival = message (transfer_complete (hash m)) ∷ [] in
      let counted : length (map message (whole_plan hash m [] bytes paths) ++ [])
          ≡ suc (length ids + 1) =
        ap length (whole_plan-arrives [])
        ∙ ap suc (length-chunks_of (content_at bytes paths) m.chunk_size ids done) in
      omega (
        arith,
        counted,
        length-append (map message (whole_plan hash m [] bytes paths)) [],
        length-arrivals (whole_plan hash m [] bytes paths),
      )

module _ (F : Files) (R : IsReadable F) (H : HasLengths F) (speed : ℕ → ℕ)
    (hash : TransferManifest → List ℕ) where
  negotiate-accepted :
      (m : TransferManifest) (answers : List Arrival) (w : World F.Fs) {skip : List ℕ}
      {t : World F.Fs}
      → w.inbox ≡ message (transfer_response accept) ∷ answers
      → negotiate F speed hash m w ≡ (ok skip, t)
      → skip ≡ []
  unfolding negotiate skip_of send recv
  negotiate-accepted m answers w inbox h = ground (arith, inbox, h)

  module _ (G : Files) (X : Setting G.Fs) (L : IsLawful G) (Q : IsReliable G) (S : IsSeparate G)
      (C : IsCreating G) where
    -- When a sender succeeds after the receiver accepted, and all that it sent arrives at a receiver
    -- that accepts without resume state, then the receiver succeeds and says that the transfer is
    -- verified, and before the files are named, the temporary file of each has exactly the bytes of
    -- the sender's file. Each file has the size of its entry, 1 GiB at most; the chunk size is
    -- positive and a `u32`; the temporary files are different ones; no file operation fails; and the
    -- receiver's connection takes an answer to each message, and closes.
    pub send_files-delivers :
        (d : Option IncomingTransferDecision) (m : TransferManifest) (paths : List String)
        (answers later : List Arrival) (n : ℕ) (w : World F.Fs) (v : World G.Fs) {id : ℕ}
        {t : World F.Fs}
        → w.inbox ≡ message (transfer_response accept) ∷ answers
        → w.sent ≡ []
        → 0 < m.chunk_size
        → m.chunk_size < u32_mod
        → ((p : String) → length (F.bytes w.fs p) < u64_mod)
        → AreSent (F.bytes w.fs) m.files paths
        → send_files F speed hash m paths w ≡ (ok id, t)
        → v.inbox ≡ map message t.sent ++ later
        → decide G X d ≡ Receive.accept
        → (load X.state_files X.resume_manager m.transfer_id v.fs).0 ≡ ok none
        → v.room ≡ length t.sent + n
        → v.can_shutdown ≡ true
        → AreApart G X m.files
        → Delivered G X L Q S C (content_at (F.bytes w.fs) paths) d m v
    send_files-delivers d m paths answers later n w v {id} {t} inbox silent pos u32 fits sent runs
          arrives accepts fresh room open_ apart =
        let bytes = F.bytes w.fs in
        let (skip, u, e, said) =
          send_files-sent F R H speed hash m paths w {id = id} {t = t} pos u32 fits runs in
        let none_skipped = negotiate-accepted m answers w {skip = skip} {t = u} inbox e in
        let all : t.sent ≡ whole_plan hash m [] bytes paths =
          said
          ∙ ap (λ s. s ++ whole_plan hash m skip bytes paths) silent
          ∙ ap (λ s. whole_plan hash m s bytes paths) none_skipped in
        let counted = ap length all ∙ length-whole_plan hash m bytes paths sent in
        handle_incoming-delivers G X L Q S C (content_at bytes paths) d m
          (all_ids m.chunk_size m.files 0) (hash m) later n v
          (arrives
            ∙ ap (λ s. map message s ++ later) all
            ∙ whole_plan-arrives hash m bytes paths sent later)
          accepts fresh (omega (arith, room, counted)) open_ pos apart
          (λ i entry g. AreSent-sizes bytes m.files paths i entry sent g) (all_ids-AreChunks m)
          (all_ids-NamesAll m)
