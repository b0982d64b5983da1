-- ===== src/Protocol/Receive/Marks.antt =====
-- Chunks that come, and the offsets that the writers have completed after them.
use just_drop.Base.{
  ℕ, zero, suc, ◌<◌, ◌≡◌, refl, ◌∙◌, List, [], ◌∷◌, Option, none, some, Bool, false, ◌&&◌, ◌||◌,
  ◌==◌, if◌then◌else◌, set, insert, contains, contains-insert, arith,
}
use just_drop.Core.Types.{ChunkId}
use just_drop.Storage.Files.Splice.{slice}
use just_drop.Storage.Writer.{ChunkWriter}
use just_drop.Protocol.Messages.{chunk_data}
use just_drop.Protocol.Link.{Arrival, message}
use just_drop.Protocol.Receive.{get_writer}

-- The chunks of the contents, as they arrive
abbrev pub chunks_of : (ℕ → List ℕ) → ℕ → List ChunkId → List Arrival → List Arrival
chunks_of contents cs [] rest = rest
chunks_of contents cs (id ∷ ids) rest =
    message (chunk_data id (slice cs (contents id.file_index) id.chunk_offset))
    ∷ chunks_of contents cs ids rest

abbrev pub names : List ChunkId → ℕ → ℕ → Bool
names [] i k = false
names (id ∷ ids) i k = (id.file_index == i && id.chunk_offset == k) || names ids i k

-- The completed chunks of file `i` once the chunks have come
abbrev pub marked : List ChunkId → ℕ → List ℕ → List ℕ
marked [] i done = done
marked (id ∷ ids) i done =
    marked ids i (if id.file_index == i then insert id.chunk_offset done else done)

abbrev pub mark : List ChunkId → ℕ → ChunkWriter → ChunkWriter
mark ids i wr = record wr { completed_chunks = marked ids i wr.completed_chunks }

abbrev pub mark_at : List ChunkId → ℕ → Option ChunkWriter → Option ChunkWriter
mark_at ids i none = none
mark_at ids i (some wr) = some (mark ids i wr)

pub contains-marked :
    (ids : List ChunkId) (i k : ℕ) (done : List ℕ)
    → contains (marked ids i done) k ≡ (names ids i k || contains done k)
contains-marked [] i k done = refl
contains-marked (id ∷ ids) i k done = ground (
  arith,
  contains-marked ids i k (if id.file_index == i then insert id.chunk_offset done else done),
  contains-insert id.chunk_offset k done,
)

-- Each chunk is one of a file that has a writer.
abbrev pub AreInside : List (Option ChunkWriter) → List ChunkId → Type 0
AreInside ws [] = Unit {0}
AreInside ws (id ∷ ids) =
    ((wr : ChunkWriter) × (get_writer ws id.file_index ≡ some wr)
      × (id.chunk_offset < wr.total_chunks))
    × AreInside ws ids

pub get_writer-set :
    (ws : List (Option ChunkWriter)) (j i offset : ℕ) (wr : ChunkWriter)
    → get_writer ws j ≡ some wr
    → get_writer
        (set ws j (some (record wr { completed_chunks = insert offset wr.completed_chunks })))
        i
      ≡ mark_at (record { file_index = j; chunk_offset = offset } ∷ []) i (get_writer ws i)
unfolding get_writer
get_writer-set [] j i offset wr h = absurd (ground arith)
get_writer-set (w ∷ ws) zero zero offset wr h = rw h
get_writer-set (none ∷ ws) zero (suc i) offset wr h = cc
get_writer-set (some v ∷ ws) zero (suc i) offset wr h = unmarked (get_writer ws i)
  where
    unmarked :
        (o : Option ChunkWriter)
        → o ≡ mark_at (record { file_index = 0; chunk_offset = offset } ∷ []) (suc i) o
    unmarked none = refl
    unmarked (some x) = ground arith
get_writer-set (none ∷ ws) (suc j) zero offset wr h = refl
get_writer-set (some v ∷ ws) (suc j) zero offset wr h = ground arith
get_writer-set (w ∷ ws) (suc j) (suc i) offset wr h =
    get_writer-set ws j i offset wr h ∙ shift (get_writer ws i)
  where
    shift :
        (o : Option ChunkWriter)
        → mark_at (record { file_index = j; chunk_offset = offset } ∷ []) i o
          ≡ mark_at (record { file_index = suc j; chunk_offset = offset } ∷ []) (suc i) o
    shift none = refl
    shift (some x) = ground arith

pub mark_at-mark_at :
    (id : ChunkId) (ids : List ChunkId) (i : ℕ) (o : Option ChunkWriter)
    → mark_at ids i (mark_at (id ∷ []) i o) ≡ mark_at (id ∷ ids) i o
mark_at-mark_at id ids i none = refl
mark_at-mark_at id ids i (some wr) = refl
