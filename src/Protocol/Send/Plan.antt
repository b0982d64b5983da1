-- ===== src/Protocol/Send/Plan.antt =====
-- What a sender sends: the request, the chunks that the receiver has not, in order, and the end.
use just_drop.Base.{
  ℕ, zero, suc, ◌+◌, ◌<◌, ◌≡◌, refl, sym, subst, ◌∙◌, List, [], ◌∷◌, ◌++◌, Result, ok, err, String,
  if◌then◌else◌, contains, length, append-nil, append_assoc, u64_mod, u32_mod, arith, >>=-eq-ok,
  add_u64, ◌>>=◌, Bool-cases, inl, inr, ◌≤◌,
}
use just_drop.Core.Types.{FileEntry, TransferManifest, chunk_count, effective_chunk_size}
use just_drop.Core.Types.Chunks.{effective_chunk_size_bounds}
use just_drop.Storage.Files.{Files, IsReadable, HasLengths}
use just_drop.Storage.Files.Splice.{slice}
use just_drop.Storage.Chunker.{FileChunker, open_file, chunker_count}
use just_drop.Storage.Chunker.Reading.{read_chunk-slice}
use just_drop.Protocol.Messages.{Message, transfer_request, chunk_data, transfer_complete}
use just_drop.Protocol.Link.{World, send, recv, emit, lift_fs}
use just_drop.Protocol.Offsets.{global_chunk_offset}
use just_drop.Protocol.Send.{check_ack, send_chunk, send_chunks, send_all}

-- The chunks `offset`, …, `offset + n - 1` of one file, but those to skip
abbrev pub file_plan : TransferManifest → List ℕ → ℕ → ℕ → List ℕ → ℕ → ℕ → List Message
file_plan m skip file_index chunk_size content offset zero = []
file_plan m skip file_index chunk_size content offset (suc n) =
    let rest = file_plan m skip file_index chunk_size content (suc offset) n in
    if contains skip (global_chunk_offset m file_index offset)
    then rest
    else chunk_data (record { file_index = file_index; chunk_offset = offset })
        (slice chunk_size content offset)
      ∷ rest

-- The chunks of all files, whose contents are found by their paths
abbrev pub plan :
    TransferManifest → List ℕ → (String → List ℕ) → List FileEntry → List String → ℕ → List Message
plan m skip contents (entry ∷ files) (path ∷ paths) i =
    let chunk_size = effective_chunk_size entry.size m.chunk_size in
    let content = contents path in
    file_plan m skip i chunk_size content 0 (chunk_count (length content) chunk_size)
    ++ plan m skip contents files paths (suc i)
plan m skip contents _ _ i = []

-- The messages of a whole transfer
abbrev pub whole_plan :
    (TransferManifest → List ℕ)
    → TransferManifest
    → List ℕ
    → (String → List ℕ)
    → List String
    → List Message
whole_plan hash m skip contents paths =
    transfer_request m ∷ (plan m skip contents m.files paths 0 ++ (transfer_complete (hash m) ∷ []))

module _ (F : Files) (R : IsReadable F) (L : HasLengths F) (speed : ℕ → ℕ)
    (hash : TransferManifest → List ℕ) where
  -- A chunk sent: nothing else is, and the files are as they were.
  send_chunk-sent :
      (m : TransferManifest) (c : FileChunker) (i offset n : ℕ) (w : World F.Fs) {r : ℕ}
      {t : World F.Fs}
      → 0 < c.chunk_size
      → length (F.bytes w.fs c.path) ≡ c.file_size
      → c.file_size < u64_mod
      → offset < chunker_count c
      → send_chunk F speed hash m c i offset n w ≡ (ok r, t)
      → (t.sent
          ≡ w.sent
            ++ (chunk_data
                  (record { file_index = i; chunk_offset = offset })
                  (slice c.chunk_size (F.bytes w.fs c.path) offset)
                ∷ []))
        × (F.bytes t.fs ≡ F.bytes w.fs)
  unfolding send_chunk lift_fs send recv emit check_ack
  send_chunk-sent m c i offset n w p l u o h =
      let (s, runs, same) = read_chunk-slice F R c offset w.fs p l u o in
      ground (arith, runs, same, h)

  send_chunks-sent :
      (m : TransferManifest) (skip : List ℕ) (c : FileChunker) (i offset k n : ℕ) (w : World F.Fs)
      {r : ℕ} {t : World F.Fs}
      → 0 < c.chunk_size
      → length (F.bytes w.fs c.path) ≡ c.file_size
      → c.file_size < u64_mod
      → offset + k ≤ chunker_count c
      → send_chunks F speed hash m skip c i offset k n w ≡ (ok r, t)
      → (t.sent ≡ w.sent ++ file_plan m skip i c.chunk_size (F.bytes w.fs c.path) offset k)
        × (F.bytes t.fs ≡ F.bytes w.fs)
  unfolding send_chunks
  send_chunks-sent m skip c i offset zero n w p l u o h =
      (ground (arith, h, append-nil w.sent), ground (arith, h))
  send_chunks-sent m skip c i offset (suc k) n w {r} {t} p l u o h =
      elim (Bool-cases (contains skip (global_chunk_offset m i offset))) [
        | inl skipped ↦
            let tail : send_chunks F speed hash m skip c i (suc offset) k (add_u64 n c.chunk_size) w
                ≡ (ok r, t) =
              ground (arith, h, skipped) in
            let (sent, same) =
              send_chunks-sent m skip c i (suc offset) k (add_u64 n c.chunk_size) w p l u
                (omega (arith, o)) tail in
            (ground (arith, skipped, sent), same)
        | inr fresh ↦
            let go : (send_chunk F speed hash m c i offset n
                    >>= (λ n'. send_chunks F speed hash m skip c i (suc offset) k n'))
                  w
                ≡ (ok r, t) =
              ground (arith, h, fresh) in
            let (n', v, e, tail) = >>=-eq-ok (send_chunk F speed hash m c i offset n) _ w go in
            let (first, same) =
              send_chunk-sent m c i offset n w {r = n'} {t = v} p l u (omega (arith, o)) e in
            let (sent, same2) =
              send_chunks-sent m skip c i (suc offset) k n' v {r = r} {t = t} p (cc (same, l)) u
                (omega (arith, o)) tail in
            (
              ground (
                arith,
                fresh,
                sent,
                same,
                first,
                append_assoc w.sent
                    (chunk_data (record { file_index = i; chunk_offset = offset })
                        (slice c.chunk_size (F.bytes w.fs c.path) offset)
                      ∷ [])
                    (file_plan m skip i c.chunk_size (F.bytes w.fs c.path) (suc offset) k),
              ),
              cc (same2, same),
            )
      ]

  open_file-lem :
      (path : String) (i chunk_size : ℕ) (w : World F.Fs) {c : FileChunker} {t : World F.Fs}
      → lift_fs (open_file F path i chunk_size) w ≡ (ok c, t)
      → (t.sent ≡ w.sent)
        × (F.bytes t.fs ≡ F.bytes w.fs)
        × (c.path ≡ path)
        × (c.chunk_size ≡ chunk_size)
        × (c.file_size ≡ length (F.bytes w.fs path))
  unfolding open_file lift_fs
  open_file-lem path i cs w {c} {t} h =
      measured (F.metadata_len path w.fs).0 (F.metadata_len path w.fs).1 refl
    where
      measured :
          (res : Result ℕ ℕ) (s : F.Fs)
          → F.metadata_len path w.fs ≡ (res, s)
          → (t.sent ≡ w.sent)
            × (F.bytes t.fs ≡ F.bytes w.fs)
            × (c.path ≡ path)
            × (c.chunk_size ≡ cs)
            × (c.file_size ≡ length (F.bytes w.fs path))
      measured (ok n) s e = ground (arith, e, h, L path w.fs n s e)
      measured (err x) s e = absurd (ground (arith, e, h))

  pub send_all-sent :
      (m : TransferManifest) (skip : List ℕ) (files : List FileEntry) (paths : List String)
      (i n : ℕ) (w : World F.Fs) {r : ℕ} {t : World F.Fs}
      → 0 < m.chunk_size
      → m.chunk_size < u32_mod
      → ((p : String) → length (F.bytes w.fs p) < u64_mod)
      → send_all F speed hash m skip files paths i n w ≡ (ok r, t)
      → (t.sent ≡ w.sent ++ plan m skip (F.bytes w.fs) files paths i)
        × (F.bytes t.fs ≡ F.bytes w.fs)
  unfolding send_all chunker_count
  send_all-sent m skip [] paths i n w p u fits h =
      (ground (arith, h, append-nil w.sent), ground (arith, h))
  send_all-sent m skip (entry ∷ files) [] i n w p u fits h =
      (ground (arith, h, append-nil w.sent), ground (arith, h))
  send_all-sent m skip (entry ∷ files) (path ∷ paths) i n w {r} {t} p u fits h =
      let cs = effective_chunk_size entry.size m.chunk_size in
      let (c, v, e, h1) = >>=-eq-ok (lift_fs (open_file F path i cs)) _ w {b = r} {t = t} h in
      let (n', x, e2, h2) =
        >>=-eq-ok (send_chunks F speed hash m skip c i 0 (chunker_count c) n) _ v {b = r} {t = t}
          h1 in
      let o = open_file-lem path i cs w {c = c} {t = v} e in
      let b = effective_chunk_size_bounds entry.size m.chunk_size p u in
      let sent =
        send_chunks-sent m skip c i 0 (chunker_count c) n v {r = n'} {t = x}
          (ground (arith, o.3, b)) (ground (arith, o)) (ground (arith, o.4, fits path))
          (omega arith) e2 in
      let rest =
        send_all-sent m skip files paths (suc i) n' x {r = r} {t = t} p u
          (λ q. subst (λ by. length (by q) < u64_mod) (sym (sent.1 ∙ o.1)) (fits q)) h2 in
      let content = F.bytes w.fs path in
      let mine = file_plan m skip i cs content 0 (chunk_count (length content) cs) in
      let same : file_plan m skip i c.chunk_size (F.bytes v.fs c.path) 0
            (chunk_count c.file_size c.chunk_size)
          ≡ mine =
        cc (o.1, o.2, o.3, o.4) in
      let kept : F.bytes x.fs ≡ F.bytes w.fs = sent.1 ∙ o.1 in
      (
        rest.0
            ∙ cc (
              sent.0,
              o.0,
              same,
              kept,
              append_assoc w.sent mine (plan m skip (F.bytes w.fs) files paths (suc i)),
            ),
        rest.1 ∙ kept,
      )
