-- ===== src/Protocol/Receive/Resume.antt =====
-- The two sides on a resumed transfer: the receiver names what it has, and the sender reads it.
use just_drop.Base.{
  ℕ, ◌<◌, ◌≡◌, refl, Bool, false, ◌&&◌, ◌||◌, List, [], ◌∷◌, some, ok, ◌==◌, ltb, contains, insert,
  contains-insert, arith,
}
use just_drop.Core.Types.{TransferManifest, total_chunks, count_panics}
use just_drop.Storage.Files.{Files}
use just_drop.Storage.Resume.{decode_received_bitmap, encode_received_bitmap}
use just_drop.Storage.Resume.Bitmap.{decode-encode}
use just_drop.Storage.Resume.Manager.{FileResumeState, TransferResumeState}
use just_drop.Protocol.Link.{World, send}
use just_drop.Protocol.Offsets.{global_chunk_offset}
use just_drop.Protocol.Send.{skip_of}
use just_drop.Protocol.Receive.{Setting, completed_of, all_completed, response_to, answer}
use just_drop.Protocol.Receive

-- The chunk with the number `g` is among these chunks of a file.
abbrev pub names_chunk : TransferManifest → ℕ → List ℕ → ℕ → Bool
names_chunk m file_index [] g = false
names_chunk m file_index (chunk ∷ chunks) g =
    global_chunk_offset m file_index chunk == g || names_chunk m file_index chunks g

-- … of the files in a resume state
abbrev pub names : TransferManifest → List FileResumeState → ℕ → Bool
names m [] g = false
names m (f ∷ fs) g = names_chunk m f.file_index f.completed_chunks g || names m fs g

contains-completed_of :
    (m : TransferManifest) (i : ℕ) (chunks all : List ℕ) (g : ℕ)
    → contains (completed_of m i chunks all) g ≡ (names_chunk m i chunks g || contains all g)
unfolding completed_of
contains-completed_of m i [] all g = refl
contains-completed_of m i (c ∷ chunks) all g =
    let n = global_chunk_offset m i c in
    ground (arith, contains-completed_of m i chunks (insert n all) g, contains-insert n g all)

contains-all_completed :
    (m : TransferManifest) (files : List FileResumeState) (all : List ℕ) (g : ℕ)
    → contains (all_completed m files all) g ≡ (names m files g || contains all g)
unfolding all_completed
contains-all_completed m [] all g = refl
contains-all_completed m (f ∷ fs) all g =
    let here = completed_of m f.file_index f.completed_chunks all in
    ground (
      arith,
      contains-all_completed m fs here g,
      contains-completed_of m f.file_index f.completed_chunks all g,
    )

no_panic : (m : TransferManifest) → 0 < m.chunk_size → count_panics m ≡ false
unfolding count_panics
no_panic m pos = ground (arith, pos)

-- When the receiver accepts a transfer that it has a resume state for, it sends the response that names
-- its chunks, and the chunks that the sender skips after this response are exactly those that the resume
-- state names and that the transfer has. Neither side panics. The chunk size is positive.
pub skip_of-response_to :
    (F : Files) (X : Setting F.Fs) (speed : ℕ → ℕ) (hash : TransferManifest → List ℕ)
    (m : TransferManifest) (state : TransferResumeState) (v w : World F.Fs)
    → 0 < m.chunk_size
    → (answer F X m (some state) Receive.accept v ≡ send (response_to F X m (some state)) v)
      × ((skip : List ℕ) × (skip_of F speed hash m (some (response_to F X m (some state))) w
            ≡ (ok skip, w))
          × ((g : ℕ) → contains skip g ≡ (ltb g (total_chunks m) && names m state.files g)))
unfolding skip_of response_to answer
skip_of-response_to F X speed hash m state v w pos =
    let received = all_completed m state.files [] in
    let total = total_chunks m in
    let fine = no_panic m pos in
    (
      rw fine,
      (
        decode_received_bitmap (encode_received_bitmap received total) total,
        rw fine,
        λ g.
            ground
              (arith, decode-encode received total g, contains-all_completed m state.files [] g),
      ),
    )
