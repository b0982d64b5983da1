-- ===== src/Tests/Sendfile.antt =====
-- A file sent in pieces of three bytes at most, and an interruption.
use just_drop.Base.{
  ℕ, ◌-◌, ◌≡◌, refl, String, List, [], ◌∷◌, ◌++◌, some, ok, min, length, take, drop, arith,
}
use just_drop.Network.Sendfile.{Kernel, IsSending, sendfile_linux}
use just_drop.Network.Sendfile.Linux.{sendfile_linux-sends}
use just_drop.Network.Sendfile.Macos.{
  Call, interrupted, completed, macos_loop, macos_loop-interrupted,
}

abbrev content : List ℕ
content = 10 ∷ 20 ∷ 30 ∷ 40 ∷ 50 ∷ []

-- The state is what the socket has.
abbrev kernel : Kernel
kernel = record {
  Sys = List ℕ;
  File = String;
  open_file = λ p s. (ok p, s);
  file_len = λ f s. (ok (length content), s);
  sendfile = λ f off n s.
      let k = min (min n 3) (length content - off) in (ok k, s ++ take k (drop off content));
  read_len = λ f n s. (ok (0, f), s);
  seek = λ f off s. (ok f, s);
  join = λ s. (ok tt, s);
  path_of = λ f. f;
  bytes = λ s p. content;
  written = λ s. s;
}

kernel-IsSending : IsSending kernel
kernel-IsSending = record {
  opens = λ p s. (p, s, refl, refl, refl, refl);
  lens = λ f s. (s, refl, refl, refl);
  sends = λ f off n s.
      let k = min (min n 3) (length content - off) in
      (
        k,
        s ++ take k (drop off content),
        refl,
        omega arith,
        omega arith,
        (λ e. omega arith),
        refl,
        refl,
      );
  joins = λ s. (s, refl, refl);
}

sendfile_linux-sends_example :
    (t : List ℕ) × (sendfile_linux kernel 6 "a" 1 0 (7 ∷ [])
      ≡ (ok (some (record { bytes_sent = 4 })), t))
    × (t ≡ 7 ∷ 20 ∷ 30 ∷ 40 ∷ 50 ∷ [])
sendfile_linux-sends_example =
    sendfile_linux-sends kernel kernel-IsSending 6 1 0 "a" (7 ∷ []) (omega arith) (omega arith)
      (omega arith)

-- Two bytes go out before the signal, and once more after it.
abbrev signal : Call
signal = record { ending = interrupted; len = 2 }

abbrev rest : Call
rest = record { ending = completed; len = 9 }

abbrev twice : List ℕ
twice = 10 ∷ 20 ∷ 10 ∷ 20 ∷ 30 ∷ 40 ∷ 50 ∷ []

interrupted_runs : macos_loop (signal ∷ rest ∷ []) content 5 0 0 [] ≡ (ok (some 5), twice)
unfolding macos_loop
interrupted_runs = refl

macos_loop-interrupted_example : twice ≡ 10 ∷ 20 ∷ 10 ∷ 20 ∷ 30 ∷ 40 ∷ 50 ∷ []
macos_loop-interrupted_example =
    macos_loop-interrupted signal (rest ∷ []) content 5 0 [] refl ((λ e. cc), tt) (omega arith)
      interrupted_runs
