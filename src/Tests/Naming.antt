-- ===== src/Tests/Naming.antt =====
-- Two finished files with the same name as a file that is there already.
use just_drop.Base.{
  ℕ, zero, suc, ◌≡◌, ◌≢◌, refl, sym, ap, true, List, [], ◌∷◌, Option, some, ok, arith, str_eq,
  eq_iff, if◌then◌else◌, String, ◌⊎◌, inl, inr, subst, ◌∙◌,
}
use just_drop.Storage.Files.Memory.{Memory, memory_files, memory_files-IsRenaming}
use just_drop.Storage.Writer.{
  ChunkWriter, is_complete, finalize, unique_path, first_free, numbered_path, uuid_path,
}
use just_drop.Protocol.Link.{World}
use just_drop.Protocol.Receive.{get_writer, finalize_all}
use just_drop.Protocol.Receive.Names.{AreComplete, AreThere, HaveOwn, AreFresh, Named}
use just_drop.Protocol.Receive.Named.{finalize_all-Named}
use just_drop.Tests.Transfer.{setting}

abbrev finished : String → ChunkWriter
finished temp = record {
  transfer_id = 7;
  file_index = 0;
  dest_path = "a";
  temp_path = temp;
  chunk_size = 2;
  file_size = 2;
  total_chunks = 1;
  completed_chunks = 0 ∷ [];
}

abbrev two_writers : List (Option ChunkWriter)
two_writers = some (finished "x.part") ∷ some (finished "y.part") ∷ []

abbrev holding : Memory
holding p =
    if str_eq p "a"
    then 1 ∷ []
    else if str_eq p "x.part"
    then 10 ∷ 20 ∷ []
    else if str_eq p "y.part"
    then 30 ∷ 40 ∷ []
    else []

abbrev before : World Memory
before = record { fs = holding; inbox = []; sent = []; room = 9; can_shutdown = true; events = [] }

one_of :
    (j : ℕ) (wr : ChunkWriter)
    → get_writer two_writers j ≡ some wr
    → ((j ≡ 0) × (finished "x.part" ≡ wr)) ⊎ ((j ≡ 1) × (finished "y.part" ≡ wr))
unfolding get_writer
one_of zero wr g = inl (refl, cc)
one_of (suc zero) wr g = inr (refl, cc)
one_of (suc (suc j)) wr g = absurd (ground arith)

all_complete : AreComplete memory_files setting two_writers
unfolding is_complete
all_complete j wr g = elim (one_of j wr g) [
  | inl (_, same) ↦ subst (λ x. is_complete x ≡ true) same refl
  | inr (_, same) ↦ subst (λ x. is_complete x ≡ true) same refl
]

all_there : AreThere memory_files setting two_writers holding
all_there j wr g = elim (one_of j wr g) [
  | inl (_, same) ↦ subst (λ x. memory_files.exists x.temp_path holding ≡ true) same refl
  | inr (_, same) ↦ subst (λ x. memory_files.exists x.temp_path holding ≡ true) same refl
]

differ : ◌≢◌ {A = String} "x.part" "y.part"
differ e = absurd (ground (arith, eq_iff "x.part" "y.part", e))

all_own : HaveOwn memory_files setting two_writers
all_own j k v wr g h ne = elim (one_of j v g) [
  | inl (a, x) ↦ elim (one_of k wr h) [
    | inl (b, y) ↦ absurd (ne (a ∙ sym b))
    | inr (b, y) ↦ λ e. differ (ap (λ w. w.temp_path) x ∙ e ∙ sym (ap (λ w. w.temp_path) y))
  ]
  | inr (a, x) ↦ elim (one_of k wr h) [
    | inl (b, y) ↦ λ e. differ (ap (λ w. w.temp_path) y ∙ sym e ∙ sym (ap (λ w. w.temp_path) x))
    | inr (b, y) ↦ absurd (ne (a ∙ sym b))
  ]
]

all_fresh : AreFresh memory_files setting 0 two_writers holding
unfolding unique_path first_free numbered_path uuid_path finalize
all_fresh = (refl, (refl, tt))

finalize_all-Named_example :
    (t : Memory) × (finalize_all memory_files setting 0 two_writers before
      ≡ (ok true, record before { fs = t }))
    × Named memory_files setting two_writers holding t
finalize_all-Named_example =
    finalize_all-Named memory_files setting memory_files-IsRenaming 0 two_writers before
      all_complete all_there all_own all_fresh
