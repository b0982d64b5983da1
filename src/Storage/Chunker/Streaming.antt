-- ===== src/Storage/Chunker/Streaming.antt =====
-- The chunks of a file are streamed in their order.
use just_drop.Base.{
  String, ℕ, zero, suc, ◌+◌, ◌-◌, ◌≤◌, ◌<◌, ◌≡◌, refl, ◌∙◌, ap, sym, List, [], ◌∷◌, ◌++◌, Result,
  ok, map, u64_mod, length, take, ◌==◌, arith, append_assoc, append-nil, false, range_from,
}
use just_drop.Storage.Files.{Files, IsReadable}
use just_drop.Storage.Files.Splice.{slice}
use just_drop.Storage.Chunker.{
  FileChunker, ReadError, ReadChunk, Sender, chunker_count, tx_send, stream_next, stream_loop,
  stream_chunks,
}
use just_drop.Storage.Chunker.Reading.{read_chunk-slice}

module _ (F : Files) (R : IsReadable F) where
  -- A chunk of a file with the given bytes
  unfoldable pub chunk_of : FileChunker → List ℕ → ℕ → Result ReadError ReadChunk
  chunk_of c file offset = ok record {
    id = record { file_index = c.file_index; chunk_offset = offset };
    bytes = slice c.chunk_size file offset;
    sha256 = F.sha256 (slice c.chunk_size file offset);
  }

  -- One chunk is taken if there is room, and then the rest.
  stream_next-taken :
      (chunk : ReadChunk) (t : F.Fs) (rest : F.Fs → Sender F → F.Fs × Sender F) (tx : Sender F)
      (chunks : List (Result ReadError ReadChunk)) (room : ℕ)
      → tx.room ≡ room
      → (h : (tx' : Sender F) → (rest t tx').1.sent ≡ tx'.sent ++ take tx'.room chunks)
      → (stream_next F (ok chunk, t) rest tx).1.sent ≡ tx.sent ++ take room (ok chunk ∷ chunks)
  unfolding tx_send
  stream_next-taken chunk t rest tx chunks zero e h = rw e (sym (append-nil tx.sent))
  stream_next-taken chunk t rest tx chunks (suc room) e h =
      let left : tx.room - 1 ≡ room = omega (arith, e) in
      let some_left : (tx.room == 0) ≡ false = ground (arith, e) in
      rw some_left (
        h record { sent = tx.sent ++ (ok chunk ∷ []); room = tx.room - 1 }
        ∙ (ap (λ r. (tx.sent ++ (ok chunk ∷ [])) ++ take r chunks) left
            ∙ append_assoc tx.sent (ok chunk ∷ []) (take room chunks)))

  stream_loop-taken :
      (c : FileChunker) (offset n : ℕ) (s : F.Fs) (tx : Sender F) (file : List ℕ)
      → 0 < c.chunk_size
      → F.bytes s c.path ≡ file
      → length file ≡ c.file_size
      → c.file_size < u64_mod
      → offset + n ≤ chunker_count c
      → (stream_loop F c offset n s tx).1.sent
        ≡ tx.sent ++ take tx.room (map (chunk_of c file) (range_from offset n))
  unfolding stream_loop chunk_of
  stream_loop-taken c offset zero s tx file p b l u o =
      sym (ap (λ r. tx.sent ++ r) (take_nil tx.room) ∙ append-nil tx.sent)
    where
      take_nil : (n : ℕ) → take {A = Result ReadError ReadChunk} n [] ≡ []
      take_nil zero = refl
      take_nil (suc n) = refl
  stream_loop-taken c offset (suc n) s tx file p b l u o =
      let (t, reads, kept) =
        read_chunk-slice F R c offset s p (ap length b ∙ l) u (omega (arith, o)) in
      let same : F.bytes t c.path ≡ file = ap (λ (f : String → List ℕ). f c.path) kept ∙ b in
      rw reads (
        rw b (
          stream_next-taken _ t (stream_loop F c (suc offset) n) tx
            (map (chunk_of c file) (range_from (suc offset) n)) tx.room refl
            λ tx'. stream_loop-taken c (suc offset) n t tx' file p same l u (omega (arith, o))))

  -- The sender's channel is given the chunks of the file from `start` to the last, in order, each with
  -- its own bytes and hash, or as many of them as there is room for before the receiver is dropped. The
  -- chunk size is positive, the length of the file is the one found when it was opened, and no read
  -- fails.
  pub stream_chunks-in_order :
      (c : FileChunker) (start : ℕ) (s : F.Fs) (tx : Sender F)
      → 0 < c.chunk_size
      → length (F.bytes s c.path) ≡ c.file_size
      → c.file_size < u64_mod
      → start ≤ chunker_count c
      → (stream_chunks F c start s tx).1.sent
        ≡ tx.sent
          ++ take tx.room
              (map (chunk_of c (F.bytes s c.path)) (range_from start (chunker_count c - start)))
  unfolding stream_chunks
  stream_chunks-in_order c start s tx p l u o =
      stream_loop-taken c start (chunker_count c - start) s tx (F.bytes s c.path) p refl l u
        (omega (arith, o))
