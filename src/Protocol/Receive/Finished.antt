-- ===== src/Protocol/Receive/Finished.antt =====
-- How a transfer ends at the receiver: the files are named, and the verdict is sent.
use just_drop.Base.{ℕ, suc, ◌≡◌, refl, List, [], ◌∷◌, ◌++◌, Option, none, some, true, ok, arith}
use just_drop.Core.Types.{TransferManifest}
use just_drop.Storage.Files.{Files, IsCreating}
use just_drop.Storage.Writer.{ChunkWriter, is_complete, finalize, unique_path}
use just_drop.Protocol.Messages.{transfer_verified}
use just_drop.Protocol.Link.{World, send, emit, lift_fs}
use just_drop.Protocol.Receive.{Receiver, Setting, get_writer, finalize_all, receive_complete}

module _ (F : Files) (X : Setting F.Fs) (C : IsCreating F) where
  finalize-renames :
      (uuid : _) (wr : ChunkWriter) (s : F.Fs) → (t : F.Fs) × (finalize F uuid wr s ≡ (ok tt, t))
  unfolding finalize
  finalize-renames uuid wr s =
      let (t, e) = C.renames wr.temp_path (unique_path F wr.dest_path uuid s) s in (t, rw e)

  finalize_all-renames :
      (i : ℕ) (ws : List (Option ChunkWriter)) (w : World F.Fs)
      → ((j : ℕ) (wr : ChunkWriter) → get_writer ws j ≡ some wr → is_complete wr ≡ true)
      → (t : F.Fs) × (finalize_all F X i ws w ≡ (ok true, record w { fs = t }))
  unfolding finalize_all lift_fs get_writer
  finalize_all-renames i [] w all = (w.fs, refl)
  finalize_all-renames i (none ∷ ws) w all = finalize_all-renames (suc i) ws w (λ j. all (suc j))
  finalize_all-renames i (some wr ∷ ws) w all =
      let (s, e) = finalize-renames (X.uuid i) wr w.fs in
      let (t, rest) = finalize_all-renames (suc i) ws (record w { fs = s }) (λ j. all (suc j)) in
      (t, ground (arith, all 0 wr refl, e, rest))

  -- When all writers are complete, the files are named, and the verdict is positive.
  pub receive_complete-says :
      (m : TransferManifest) (r : Receiver) (w : World F.Fs) (n : ℕ)
      → ((j : ℕ) (wr : ChunkWriter) → get_writer r.writers j ≡ some wr → is_complete wr ≡ true)
      → w.room ≡ suc n
      → (t : World F.Fs) × (receive_complete F X m r w ≡ (ok tt, t))
        × (t.sent ≡ w.sent ++ (transfer_verified true none ∷ []))
        × (t.can_shutdown ≡ w.can_shutdown)
  unfolding receive_complete send emit
  receive_complete-says m r w n all room =
      let (s, e) = finalize_all-renames 0 r.writers w all in
      (
        (receive_complete F X m r w).1,
        ground (arith, e, room),
        ground (arith, e, room),
        ground (arith, e, room),
      )
