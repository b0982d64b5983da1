-- ===== src/Protocol/Receive/Steps.antt =====
-- What one arrival does to the messages sent and to the writers.
use just_drop.Base.{
  ℕ, zero, suc, ◌<◌, ◌≡◌, ◌≢◌, ◌⊎◌, refl, ◌&&◌, ◌||◌, Bool, true, false, List, [], ◌∷◌, ◌++◌,
  Option, none, some, Result, ok, err, ◌==◌, set, insert, arith,
}
use just_drop.Core.Types.{TransferManifest, ChunkId}
use just_drop.Storage.Files.{Files}
use just_drop.Storage.Writer.{ChunkWriter, is_complete, write_chunk, StorageError, finalize}
use just_drop.Storage.Writer.Completion.{write_chunk-stores}
use just_drop.Protocol.Messages.{Message, chunk_ack, chunk_data, transfer_verified}
use just_drop.Protocol.Link.{Arrival, message, World, send, emit, lift_fs, ProtocolError}
use just_drop.Protocol.Receive.{
  Receiver, Setting, get_writer, receive_chunk, finalize_all, receive_complete,
}

-- `TransferVerified { ok: true, .. }` is among the messages.
abbrev pub says_verified : List Message → Bool
says_verified [] = false
says_verified (transfer_verified true e ∷ ms) = true
says_verified (m ∷ ms) = says_verified ms

-- The chunk is among the arrivals.
abbrev pub arrives : List Arrival → ℕ → ℕ → Bool
arrives [] i k = false
arrives (message (chunk_data id d) ∷ rest) i k =
    (id.file_index == i && id.chunk_offset == k) || arrives rest i k
arrives (a ∷ rest) i k = arrives rest i k

pub says_verified-++ :
    (xs ys : List Message) → says_verified (xs ++ ys) ≡ (says_verified xs || says_verified ys)
says_verified-++ [] ys = refl
says_verified-++ (x ∷ xs) ys = ground (arith, says_verified-++ xs ys)

pub get_writer-set_old :
    (ws : List (Option ChunkWriter)) (i j : ℕ) (w : ChunkWriter) {v : ChunkWriter}
    → get_writer (set ws i (some w)) j ≡ some v
    → ((i ≡ j) × (v ≡ w)) ⊎ ((i ≢ j) × (get_writer ws j ≡ some v))
unfolding get_writer
get_writer-set_old [] i j w h = absurd (ground arith)
get_writer-set_old (x ∷ ws) zero zero w h = ground arith
get_writer-set_old (x ∷ ws) zero (suc j) w h = ground arith
get_writer-set_old (x ∷ ws) (suc i) zero w h = ground arith
get_writer-set_old (x ∷ ws) (suc i) (suc j) w {v} h =
    ground (arith, get_writer-set_old ws i j w {v = v} h)

pub get_writer-set_new :
    (ws : List (Option ChunkWriter)) (i j : ℕ) (w : ChunkWriter) {v : ChunkWriter}
    → get_writer ws j ≡ some v
    → ((i ≡ j) × (get_writer (set ws i (some w)) j ≡ some w))
      ⊎ (get_writer (set ws i (some w)) j ≡ some v)
unfolding get_writer
get_writer-set_new [] i j w h = absurd (ground arith)
get_writer-set_new (x ∷ ws) zero zero w h = ground arith
get_writer-set_new (x ∷ ws) zero (suc j) w h = ground arith
get_writer-set_new (x ∷ ws) (suc i) zero w h = ground arith
get_writer-set_new (x ∷ ws) (suc i) (suc j) w {v} h =
    ground (arith, get_writer-set_new ws i j w {v = v} h)

-- A chunk that came: what the loop has after it
pub record Received (r r' : Receiver) (file_index offset : ℕ) : Type 0 where
  pub writer : ChunkWriter
  pub hash : List ℕ
  pub found : get_writer r.writers file_index ≡ some writer
  pub inside : offset < writer.total_chunks
  pub writers :
      r'.writers
      ≡ set r.writers file_index
          (some (record writer { completed_chunks = insert offset writer.completed_chunks }))

module _ (F : Files) (X : Setting F.Fs) where
  finalize_all-sent :
      (i : ℕ) (ws : List (Option ChunkWriter)) (w : World F.Fs)
      → (finalize_all F X i ws w).1.sent ≡ w.sent
  unfolding finalize_all lift_fs
  finalize_all-sent i [] w = refl
  finalize_all-sent i (none ∷ ws) w = finalize_all-sent (suc i) ws w
  finalize_all-sent i (some wr ∷ ws) w = ground (
    arith,
    finalize_all-sent (suc i) ws w,
    finalize_all-sent (suc i) ws (record w { fs = (finalize F (X.uuid i) wr w.fs).1 }),
  )

  finalize_all_complete :
      (i : ℕ) (ws : List (Option ChunkWriter)) (w : World F.Fs) {t : World F.Fs}
      → finalize_all F X i ws w ≡ (ok true, t)
      → (j : ℕ) {wr : ChunkWriter} → get_writer ws j ≡ some wr
      → is_complete wr ≡ true
  unfolding finalize_all get_writer lift_fs
  finalize_all_complete i [] w e j g = absurd (ground arith)
  finalize_all_complete i (none ∷ ws) w e zero g = absurd (ground arith)
  finalize_all_complete i (none ∷ ws) w e (suc j) g = finalize_all_complete (suc i) ws w e j g
  finalize_all_complete i (some v ∷ ws) w e zero g = ground arith
  finalize_all_complete i (some v ∷ ws) w {t} e (suc j) g =
      let w' : World F.Fs = record w { fs = (finalize F (X.uuid i) v w.fs).1 } in
      let rest : finalize_all F X (suc i) ws w' ≡ (ok true, t) = ground arith in
      finalize_all_complete (suc i) ws w' rest j g

  -- What the receiver sends at the end, and when it says that all is verified
  pub receive_complete-verified :
      (m : TransferManifest) (r : Receiver) (w : World F.Fs)
      → says_verified w.sent ≡ false
      → says_verified (receive_complete F X m r w).1.sent ≡ true
      → (j : ℕ) {wr : ChunkWriter} → get_writer r.writers j ≡ some wr
      → is_complete wr ≡ true
  unfolding receive_complete send emit
  receive_complete-verified m r w e v j {wr} g =
      decided (finalize_all F X 0 r.writers w).0 (finalize_all F X 0 r.writers w).1 refl
    where
      decided :
          (res : Result ProtocolError Bool) (u : World F.Fs)
          → finalize_all F X 0 r.writers w ≡ (res, u)
          → is_complete wr ≡ true
      decided (ok true) u h = finalize_all_complete 0 r.writers w h j g
      decided (ok false) u h = ground (
        arith,
        finalize_all-sent 0 r.writers w,
        h,
        v,
        e,
        says_verified-++ u.sent (transfer_verified false (some "some files incomplete") ∷ []),
      )
      decided (err x) u h = ground (arith, finalize_all-sent 0 r.writers w, h, v, e)

  pub receive_chunk-sent :
      (m : TransferManifest) (r : Receiver) (id : ChunkId) (d : List ℕ) (w : World F.Fs)
      → says_verified (receive_chunk F X m r id d w).1.sent ≡ says_verified w.sent
  unfolding receive_chunk lift_fs send emit
  receive_chunk-sent m r id d w = found (get_writer r.writers id.file_index) refl
    where
      written :
          (wr : ChunkWriter) (res : Result StorageError (ChunkWriter × List ℕ))
          → get_writer r.writers id.file_index ≡ some wr
          → (write_chunk F wr id.chunk_offset d w.fs).0 ≡ res
          → says_verified (receive_chunk F X m r id d w).1.sent ≡ says_verified w.sent
      written wr (err x) g e = ground arith
      written wr (ok (wr', hash)) g e =
          ground
            (arith, says_verified-++ w.sent (chunk_ack (record { id = id; sha256 = hash }) ∷ []))

      found :
          (o : Option ChunkWriter)
          → get_writer r.writers id.file_index ≡ o
          → says_verified (receive_chunk F X m r id d w).1.sent ≡ says_verified w.sent
      found none g = ground arith
      found (some wr) g = written wr (write_chunk F wr id.chunk_offset d w.fs).0 g refl

  pub receive_chunk-Received :
      (m : TransferManifest) (r : Receiver) (id : ChunkId) (d : List ℕ) (w : World F.Fs)
      {r' : Receiver} {t : World F.Fs}
      → receive_chunk F X m r id d w ≡ (ok r', t)
      → Received r r' id.file_index id.chunk_offset
  unfolding receive_chunk lift_fs send emit
  receive_chunk-Received m r id d w {r'} {t} h = found (get_writer r.writers id.file_index) refl
    where
      written :
          (wr : ChunkWriter) (res : Result StorageError (ChunkWriter × List ℕ)) (s : F.Fs)
          → get_writer r.writers id.file_index ≡ some wr
          → write_chunk F wr id.chunk_offset d w.fs ≡ (res, s)
          → Received r r' id.file_index id.chunk_offset
      written wr (err x) s g e = absurd (ground arith)
      written wr (ok (wr', hash)) s g e =
          let (inside, stored, same) = write_chunk-stores F wr id.chunk_offset d w.fs e in
          record { writer = wr; hash = hash; found = g; inside = inside; writers = ground arith }

      found :
          (o : Option ChunkWriter)
          → get_writer r.writers id.file_index ≡ o
          → Received r r' id.file_index id.chunk_offset
      found none g = absurd (ground arith)
      found (some wr) g =
          let res = write_chunk F wr id.chunk_offset d w.fs in written wr res.0 res.1 g refl
