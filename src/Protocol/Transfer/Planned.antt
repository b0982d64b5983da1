-- ===== src/Protocol/Transfer/Planned.antt =====
-- What a sender plans to send, as the chunks that a receiver waits for.
use just_drop.Base.{
  ℕ, zero, suc, ◌+◌, ◌≤◌, ◌<◌, ◌≡◌, refl, sym, ap, ◌∙◌, subst, String, List, [], ◌∷◌, ◌++◌, some,
  true, ◌||◌, length, get_elem?, map, arith, ℕ_discrete, u64_mod,
}
use just_drop.Core.Types.{
  TransferManifest, FileEntry, ChunkId, chunk_count, effective_chunk_size, large_file_threshold,
}
use just_drop.Protocol.Messages.{Message}
use just_drop.Protocol.Link.{Arrival, message}
use just_drop.Protocol.Send.Plan.{file_plan, plan}
use just_drop.Protocol.Receive.Marks.{chunks_of, names}
use just_drop.Protocol.Receive.Stored.{AreChunks, NamesAll}

-- The chunks `o`, …, `o + n - 1` of file `i`
abbrev pub file_ids : ℕ → ℕ → ℕ → List ChunkId
file_ids i o zero = []
file_ids i o (suc n) = record { file_index = i; chunk_offset = o } ∷ file_ids i (suc o) n

-- The chunks of all files, from index `i` on
abbrev pub all_ids : ℕ → List FileEntry → ℕ → List ChunkId
all_ids cs [] i = []
all_ids cs (e ∷ files) i = file_ids i 0 (chunk_count e.size cs) ++ all_ids cs files (suc i)

-- The content of each file of the sender
abbrev pub content_at : (String → List ℕ) → List String → ℕ → List ℕ
content_at bytes [] i = []
content_at bytes (p ∷ paths) zero = bytes p
content_at bytes (p ∷ paths) (suc i) = content_at bytes paths i

-- Each path is that of a file with the size of its entry, which is at most 1 GiB.
abbrev pub AreSent : (String → List ℕ) → List FileEntry → List String → Type 0
AreSent bytes [] [] = Unit {0}
AreSent bytes [] (p ∷ paths) = ⊥
AreSent bytes (e ∷ files) [] = ⊥
AreSent bytes (e ∷ files) (p ∷ paths) =
    (length (bytes p) ≡ e.size) × (e.size ≤ large_file_threshold) × AreSent bytes files paths

same_chunk_size : (size cs : ℕ) → size ≤ large_file_threshold → effective_chunk_size size cs ≡ cs
unfolding effective_chunk_size
same_chunk_size size cs h = ground arith

chunks_of-append :
    (contents : ℕ → List ℕ) (cs : ℕ) (xs ys : List ChunkId) (rest : List Arrival)
    → chunks_of contents cs (xs ++ ys) rest
      ≡ chunks_of contents cs xs (chunks_of contents cs ys rest)
chunks_of-append contents cs [] ys rest = refl
chunks_of-append contents cs (x ∷ xs) ys rest = cc (chunks_of-append contents cs xs ys rest)

file_plan-chunks_of :
    (m : TransferManifest) (contents : ℕ → List ℕ) (i cs o n : ℕ) (rest : List Arrival)
    → map message (file_plan m [] i cs (contents i) o n) ++ rest
      ≡ chunks_of contents cs (file_ids i o n) rest
file_plan-chunks_of m contents i cs o zero rest = refl
file_plan-chunks_of m contents i cs o (suc n) rest =
    cc (file_plan-chunks_of m contents i cs (suc o) n rest)

map-append-rest :
    (xs ys : List Message) (rest : List Arrival)
    → map message (xs ++ ys) ++ rest ≡ map message xs ++ (map message ys ++ rest)
map-append-rest [] ys rest = refl
map-append-rest (x ∷ xs) ys rest = ap (λ r. message x ∷ r) (map-append-rest xs ys rest)

-- The messages of a plan that skips nothing are the chunks of the files.
pub plan-chunks_of :
    (m : TransferManifest) (bytes : String → List ℕ) (contents : ℕ → List ℕ)
    (files : List FileEntry) (paths : List String) (i : ℕ) (rest : List Arrival)
    → AreSent bytes files paths
    → ((j : ℕ) → contents (j + i) ≡ content_at bytes paths j)
    → map message (plan m [] bytes files paths i) ++ rest
      ≡ chunks_of contents m.chunk_size (all_ids m.chunk_size files i) rest
plan-chunks_of m bytes contents [] [] i rest h at = refl
plan-chunks_of m bytes contents [] (p ∷ paths) i rest h at = absurd h
plan-chunks_of m bytes contents (e ∷ files) [] i rest h at = absurd h
plan-chunks_of m bytes contents (e ∷ files) (p ∷ paths) i rest h at =
    let cs = m.chunk_size in
    let n = chunk_count e.size cs in
    let later = plan m [] bytes files paths (suc i) in
    let here : contents i ≡ bytes p = ap contents (omega arith) ∙ at 0 in
    let there : (j : ℕ) → contents (j + suc i) ≡ content_at bytes paths j =
      λ j. ap contents (omega arith) ∙ at (suc j) in
    let same : file_plan m [] i (effective_chunk_size e.size cs) (bytes p) 0
          (chunk_count (length (bytes p)) (effective_chunk_size e.size cs))
        ≡ file_plan m [] i cs (contents i) 0 n =
      ap (λ c. file_plan m [] i c (bytes p) 0 (chunk_count (length (bytes p)) c))
        (same_chunk_size e.size cs h.1)
      ∙ ap (λ l. file_plan m [] i cs (bytes p) 0 (chunk_count l cs)) h.0
      ∙ ap (λ b. file_plan m [] i cs b 0 n) (sym here) in
    ap (λ x. map message (x ++ later) ++ rest) same
    ∙ map-append-rest (file_plan m [] i cs (contents i) 0 n) later rest
    ∙ file_plan-chunks_of m contents i cs 0 n (map message later ++ rest)
    ∙ ap (chunks_of contents cs (file_ids i 0 n))
        (plan-chunks_of m bytes contents files paths (suc i) rest h.2 there)
    ∙ sym (chunks_of-append contents cs (file_ids i 0 n) (all_ids cs files (suc i)) rest)

names-append :
    (xs ys : List ChunkId) (i k : ℕ) → names (xs ++ ys) i k ≡ (names xs i k || names ys i k)
names-append [] ys i k = refl
names-append (x ∷ xs) ys i k = ground (arith, names-append xs ys i k)

names-file_ids : (i o n k : ℕ) → o ≤ k → k < o + n → names (file_ids i o n) i k ≡ true
names-file_ids i o zero k lo hi = absurd (omega arith)
names-file_ids i o (suc n) k lo hi = elim (ℕ_discrete o k) [
  | yes e ↦ ground (arith, e)
  | no ne ↦ ground (arith, names-file_ids i (suc o) n k (omega (arith, ne)) (omega arith))
]

names-all_ids :
    (cs : ℕ) (files : List FileEntry) (i j k : ℕ) (e : FileEntry)
    → get_elem? files j ≡ some e
    → k < chunk_count e.size cs
    → names (all_ids cs files i) (j + i) k ≡ true
names-all_ids cs [] i j k e g lt = absurd (ground arith)
names-all_ids cs (f ∷ files) i zero k e g lt =
    let same : f ≡ e = cc in
    let here =
      names-file_ids i 0 (chunk_count f.size cs) k (omega arith)
        (subst (λ x. k < 0 + chunk_count x.size cs) (sym same) (omega (arith, lt))) in
    subst (λ x. names (all_ids cs (f ∷ files) i) x k ≡ true) {x = i} {y = 0 + i} (omega arith)
      (ground (
        arith,
        here,
        names-append (file_ids i 0 (chunk_count f.size cs)) (all_ids cs files (suc i)) i k,
      ))
names-all_ids cs (f ∷ files) i (suc j) k e g lt =
    let later =
      subst (λ x. names (all_ids cs files (suc i)) x k ≡ true) {x = j + suc i} {y = suc j + i}
        (omega arith) (names-all_ids cs files (suc i) j k e g lt) in
    ground (
      arith,
      later,
      names-append (file_ids i 0 (chunk_count f.size cs)) (all_ids cs files (suc i)) (suc j + i) k,
    )

-- Every chunk of every file is planned.
pub all_ids-NamesAll : (m : TransferManifest) → NamesAll m (all_ids m.chunk_size m.files 0)
all_ids-NamesAll m i k e g lt =
    subst (λ x. names (all_ids m.chunk_size m.files 0) x k ≡ true) {x = i + 0} {y = i} (omega arith)
      (names-all_ids m.chunk_size m.files 0 i k e g lt)

AreChunks-append :
    (m : TransferManifest) (xs ys : List ChunkId)
    → AreChunks m xs
    → AreChunks m ys
    → AreChunks m (xs ++ ys)
AreChunks-append m [] ys h k = k
AreChunks-append m (x ∷ xs) ys h k = (h.0, AreChunks-append m xs ys h.1 k)

file_ids-AreChunks :
    (m : TransferManifest) (i o n : ℕ) (e : FileEntry)
    → get_elem? m.files i ≡ some e
    → o + n ≤ chunk_count e.size m.chunk_size
    → AreChunks m (file_ids i o n)
file_ids-AreChunks m i o zero e g le = tt
file_ids-AreChunks m i o (suc n) e g le =
    ((e, g, omega (arith, le)), file_ids-AreChunks m i (suc o) n e g (omega (arith, le)))

all_ids-AreChunks_from :
    (m : TransferManifest) (files : List FileEntry) (i : ℕ)
    → ((j : ℕ) (e : FileEntry) → get_elem? files j ≡ some e → get_elem? m.files (j + i) ≡ some e)
    → AreChunks m (all_ids m.chunk_size files i)
all_ids-AreChunks_from m [] i at = tt
all_ids-AreChunks_from m (f ∷ files) i at =
    AreChunks-append m (file_ids i 0 (chunk_count f.size m.chunk_size))
      (all_ids m.chunk_size files (suc i))
      (file_ids-AreChunks m i 0 (chunk_count f.size m.chunk_size) f
        (ap (get_elem? m.files) (omega arith) ∙ at 0 f refl) (omega arith))
      (all_ids-AreChunks_from m files (suc i)
        (λ j e g. ap (get_elem? m.files) (omega arith) ∙ at (suc j) e g))

pub all_ids-AreChunks : (m : TransferManifest) → AreChunks m (all_ids m.chunk_size m.files 0)
all_ids-AreChunks m =
    all_ids-AreChunks_from m m.files 0 (λ j e g. ap (get_elem? m.files) (omega arith) ∙ g)

pub AreSent-sizes :
    (bytes : String → List ℕ) (files : List FileEntry) (paths : List String) (i : ℕ) (e : FileEntry)
    → AreSent bytes files paths
    → get_elem? files i ≡ some e
    → (length (content_at bytes paths i) ≡ e.size) × (e.size < u64_mod)
AreSent-sizes bytes [] paths i e h g = absurd (ground arith)
AreSent-sizes bytes (f ∷ files) [] i e h g = absurd h
AreSent-sizes bytes (f ∷ files) (p ∷ paths) zero e h g =
    let same : f ≡ e = cc in
    subst (λ x. (length (bytes p) ≡ x.size) × (x.size < u64_mod)) same (h.0, omega (arith, h.1))
AreSent-sizes bytes (f ∷ files) (p ∷ paths) (suc i) e h g =
    AreSent-sizes bytes files paths i e h.2 g
