-- ===== src/Protocol/Receive/Verified.antt =====
-- The receiver says that a transfer is verified only when every chunk of every file has come.
use just_drop.Base.{
  ℕ, ◌<◌, ◌≡◌, sym, subst, inl, inr, refl, ◌&&◌, ◌||◌, Bool, true, false, List, [], ◌∷◌, some,
  Result, ok, err, ◌==◌, contains, insert, contains-insert, arith,
}
use just_drop.Core.Types.{TransferManifest, ChunkId}
use just_drop.Storage.Files.{Files}
use just_drop.Storage.Writer.{ChunkWriter}
use just_drop.Storage.Writer.Completion.{IsValid, insert-IsValid, is_complete_iff}
use just_drop.Protocol.Messages.{chunk_data, transfer_complete, cancel}
use just_drop.Protocol.Link.{Arrival, message, broken, World, emit, ProtocolError}
use just_drop.Protocol.Receive.{
  Receiver, Setting, get_writer, receive_chunk, receive_loop, save_resume_state,
}
use just_drop.Protocol.Receive.Steps.{
  says_verified, arrives, get_writer-set_old, get_writer-set_new, receive_complete-verified,
  Received, receive_chunk-sent, receive_chunk-Received,
}

-- Every writer is valid, and each chunk that one has completed has come.
abbrev pub IsBacked : (ℕ → ℕ → Bool) → Receiver → Type 0
IsBacked came r =
    (i : ℕ) (wr : ChunkWriter)
    → get_writer r.writers i ≡ some wr
    → IsValid wr × ((k : ℕ) → contains wr.completed_chunks k ≡ true → came i k ≡ true)

abbrev and_also : (ℕ → ℕ → Bool) → ChunkId → ℕ → ℕ → Bool
and_also came id i k = (id.file_index == i && id.chunk_offset == k) || came i k

Received-IsBacked :
    (came : ℕ → ℕ → Bool) (id : ChunkId) (r r' : Receiver)
    → IsBacked came r
    → Received r r' id.file_index id.chunk_offset
    → IsBacked (and_also came id) r'
Received-IsBacked came id r r' b x i wr g =
    elim (get_writer-set_old r.writers id.file_index i new_writer {v = wr}
      (subst (λ ws. get_writer ws i ≡ some wr) x.writers g)) [
        | inl (same, e) ↦ (
          subst IsValid (sym e) (
              insert-IsValid x.writer id.chunk_offset (b id.file_index x.writer x.found).0
                x.inside),
          λ k h. ground (
            arith,
            h,
            same,
            e,
            contains-insert id.chunk_offset k x.writer.completed_chunks,
            (b id.file_index x.writer x.found).1 k,
          ),
        )
        | inr (differ, old) ↦ ((b i wr old).0, λ k h. ground (arith, (b i wr old).1 k h))
      ]
  where
    new_writer : ChunkWriter
    new_writer = record x.writer {
      completed_chunks = insert id.chunk_offset x.writer.completed_chunks;
    }

Received-total :
    (r r' : Receiver) (id : ChunkId) (i : ℕ) (wr : ChunkWriter)
    → Received r r' id.file_index id.chunk_offset
    → get_writer r.writers i ≡ some wr
    → (wr' : ChunkWriter) × (get_writer r'.writers i ≡ some wr')
      × (wr'.total_chunks ≡ wr.total_chunks)
Received-total r r' id i wr x g =
    let new_writer : ChunkWriter = record x.writer {
      completed_chunks = insert id.chunk_offset x.writer.completed_chunks;
    } in
    elim (get_writer-set_new r.writers id.file_index i new_writer {v = wr} g) [
      | inl (same, e) ↦ (new_writer, ground (arith, e, x.writers), ground (arith, same, x.found, g))
      | inr e ↦ (wr, ground (arith, e, x.writers), refl)
    ]

module _ (F : Files) (X : Setting F.Fs) where
  -- The loop with any chunks already come
  pub loop-verified :
      (m : TransferManifest) (came : ℕ → ℕ → Bool) (r : Receiver) (inbox : List Arrival)
      (w : World F.Fs)
      → IsBacked came r
      → says_verified w.sent ≡ false
      → says_verified (receive_loop F X m r inbox w).1.sent ≡ true
      → (i k : ℕ) (wr : ChunkWriter) → get_writer r.writers i ≡ some wr
      → k < wr.total_chunks
      → (came i k || arrives inbox i k) ≡ true
  unfolding receive_loop save_resume_state emit
  loop-verified m came r [] w b e v i k wr g l = absurd (ground arith)
  loop-verified m came r (broken ∷ rest) w b e v i k wr g l = absurd (ground arith)
  loop-verified m came r (message (chunk_data id d) ∷ rest) w b e v i k wr g l =
      next (λ r' u b' e' v'. loop-verified m (and_also came id) r' rest u b' e' v' i k)
        (receive_chunk F X m r id d w') refl
    where
      w' : World F.Fs
      w' = record w { inbox = rest }

      Rest : Type 0
      Rest =
          (r' : Receiver) (u : World F.Fs)
          → IsBacked (and_also came id) r'
          → says_verified u.sent ≡ false
          → says_verified (receive_loop F X m r' rest u).1.sent ≡ true
          → (wr' : ChunkWriter) → get_writer r'.writers i ≡ some wr'
          → k < wr'.total_chunks
          → (and_also came id i k || arrives rest i k) ≡ true

      next :
          Rest
          → (res : Result ProtocolError Receiver × World F.Fs) → receive_chunk F X m r id d w' ≡ res
          → (came i k || arrives (message (chunk_data id d) ∷ rest) i k) ≡ true
      next again (err x, u) h = absurd (ground (arith, receive_chunk-sent F X m r id d w', h, v, e))
      next again (ok r', u) h =
          let x = receive_chunk-Received F X m r id d w' h in
          let (wr', kept, size) = Received-total r r' id i wr x g in
          let unsaid : says_verified u.sent ≡ false =
            ground (arith, receive_chunk-sent F X m r id d w', h, e) in
          let said : says_verified (receive_loop F X m r' rest u).1.sent ≡ true =
            ground (arith, h, v) in
          ground (
            arith,
            again r' u (Received-IsBacked came id r r' b x) unsaid said wr' kept
                (omega (arith, l, size)),
          )
  loop-verified m came r (message (transfer_complete h) ∷ rest) w b e v i k wr g l =
      let done = receive_complete-verified F X m r (record w { inbox = rest }) e v i g in
      let (valid, backed) = b i wr g in
      ground (arith, backed k ((is_complete_iff wr valid).0 done k l))
  loop-verified m came r (message (cancel reason) ∷ rest) w b e v i k wr g l = absurd (ground arith)
  loop-verified m came r (message other ∷ rest) w b e v i k wr g l = absurd (ground arith)
