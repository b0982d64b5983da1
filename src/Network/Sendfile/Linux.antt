-- ===== src/Network/Sendfile/Linux.antt =====
-- What `sendfile_linux` puts on the socket.
use just_drop.Base.{
  ℕ, zero, suc, ◌+◌, ◌-◌, ◌<◌, ◌≤◌, ◌≡◌, refl, sym, ap, ◌∙◌, subst, String, List, [], ◌∷◌, ◌++◌,
  some, ok, if◌then◌else◌, ltb, ◌==◌, true, false, length, take, drop, min, sub_u64, u64_mod,
  ℕ_discrete, append-nil, append_assoc, length-take, length-drop, length-append, arith,
}
use just_drop.Storage.Chunker.Reading.{take-drop-split, take-drop-past}
use just_drop.Network.Sendfile.{
  Kernel, IsSending, linux_loop, sendfile_linux, bytes_to_send, max_chunk,
}

take-none : (k : ℕ) (xs : List ℕ) → k ≡ 0 → take k xs ≡ []
take-none zero xs e = refl
take-none (suc k) xs e = absurd (omega arith)

take-all : (n : ℕ) (xs : List ℕ) → length xs ≤ n → take n xs ≡ xs
take-all zero [] h = refl
take-all zero (x ∷ xs) h = absurd (omega arith)
take-all (suc n) [] h = refl
take-all (suc n) (x ∷ xs) h = ap (λ r. x ∷ r) (take-all n xs (omega arith))

take-min : (a b : ℕ) (xs : List ℕ) → min a (length xs) ≡ min b (length xs) → take a xs ≡ take b xs
take-min zero zero xs h = refl
take-min zero (suc b) [] h = refl
take-min zero (suc b) (x ∷ xs) h = absurd (omega arith)
take-min (suc a) zero [] h = refl
take-min (suc a) zero (x ∷ xs) h = absurd (omega arith)
take-min (suc a) (suc b) [] h = refl
take-min (suc a) (suc b) (x ∷ xs) h = ap (λ r. x ∷ r) (take-min a b xs (omega arith))

-- The stretch of a file that is asked for; a count of 0 asks for all.
abbrev pub region : ℕ → ℕ → List ℕ → List ℕ
region offset count file = if count == 0 then drop offset file else take count (drop offset file)

module _ (K : Kernel) (S : IsSending K) where
  record Sent (fuel : ℕ) (f : K.File) (total left off : ℕ) (s : K.Sys) : Type 0 where
    after : K.Sys
    runs :
        linux_loop K fuel f (total + left) total off s
        ≡ (ok (some (total + length (take left (drop off (K.bytes s (K.path_of f)))))), after)
    written : K.written after ≡ K.written s ++ take left (drop off (K.bytes s (K.path_of f)))

  linux_loop-Sent :
      (fuel : ℕ) (f : K.File) (total left off : ℕ) (s : K.Sys)
      → length (K.bytes s (K.path_of f)) - off < fuel
      → Sent fuel f total left off s
  unfolding linux_loop
  linux_loop-Sent zero f total left off s h = absurd (omega arith)
  linux_loop-Sent (suc fuel) f total left off s h = elim (ℕ_discrete left 0) [
    | yes e ↦
        let none_left : ltb total (total + left) ≡ false = ground arith in
        let empty = take-none left (drop off (K.bytes s (K.path_of f))) e in
        record {
          after = s;
          runs = rw none_left (ap (λ n. (ok (some n), s)) (omega (arith, ap length empty)));
          written = sym (append-nil (K.written s)) ∙ ap (λ d. K.written s ++ d) (sym empty);
        }
    | no ne ↦
        let file = K.bytes s (K.path_of f) in
        let (k, t, got, upto, inside, stop, kept, sent) =
          S.sends f off (min (total + left - total) max_chunk) s in
        let some_left : ltb total (total + left) ≡ true = ground arith in
        elim (ℕ_discrete k 0) [
          | yes e ↦
              let past : length file ≤ off = ground (arith, stop e) in
              let empty = take-drop-past off left file past in
              let nothing : (k == 0) ≡ true = ground arith in
              record {
                after = t;
                runs = rw some_left (
                    rw got
                      (rw nothing (ap (λ n. (ok (some n), t)) (omega (arith, ap length empty)))));
                written =
                    sent ∙ ap (λ d. K.written s ++ d) (take-none k (drop off file) e ∙ sym empty);
              }
          | no nz ↦
              let something : (k == 0) ≡ false = ground arith in
              let here : K.bytes t (K.path_of f) ≡ file = ap (λ b. b (K.path_of f)) kept in
              let split : take k (drop off file) ++ take (left - k) (drop (off + k) file)
                  ≡ take left (drop off file) =
                take-drop-split off k left file (omega arith) inside in
              let size : length (take k (drop off file)) ≡ k =
                omega (arith, length-take k (drop off file), length-drop off file) in
              let rest =
                linux_loop-Sent fuel f (total + k) (left - k) (off + k) t
                  (subst (λ b. length b - (off + k) < fuel) (sym here) (omega arith)) in
              let later : take (left - k) (drop (off + k) (K.bytes t (K.path_of f)))
                  ≡ take (left - k) (drop (off + k) file) =
                ap (λ b. take (left - k) (drop (off + k) b)) here in
              let goal : total + k + (left - k) ≡ total + left = omega arith in
              record {
                after = rest.after;
                runs = rw some_left (
                    rw got (
                      rw something (
                        subst
                          (λ x.
                            linux_loop K fuel f x (total + k) (off + k) t
                            ≡ (ok (some (total + length (take left (drop off file)))), rest.after))
                          goal
                          (rest.runs
                            ∙ ap (λ n. (ok (some n), rest.after))
                                (omega (
                                  arith,
                                  size,
                                  ap length later,
                                  ap length split,
                                  length-append (take k (drop off file))
                                      (take (left - k) (drop (off + k) file)),
                                ))))));
                written =
                    rest.written
                    ∙ ap (λ d. K.written t ++ d) later
                    ∙ ap (λ x. x ++ take (left - k) (drop (off + k) file)) sent
                    ∙ append_assoc (K.written s) (take k (drop off file))
                        (take (left - k) (drop (off + k) file))
                    ∙ ap (λ d. K.written s ++ d) split;
              }
        ]
  ]

-- At most what is asked for, however the subtraction of the code wraps
region-take :
    (offset count : ℕ) (file : List ℕ)
    → length file < u64_mod
    → offset < u64_mod
    → take (bytes_to_send offset count (length file)) (drop offset file) ≡ region offset count file
unfolding bytes_to_send
region-take offset count file l o = elim (ℕ_discrete count 0) [
  | yes e ↦
      let all : (count == 0) ≡ true = ground arith in
      rw all (
        take-all (sub_u64 (length file) offset) (drop offset file)
          (omega (arith, length-drop offset file)))
  | no ne ↦
      let part : (count == 0) ≡ false = ground arith in
      rw part (
        take-min (min count (sub_u64 (length file) offset)) count (drop offset file)
          (omega (arith, length-drop offset file)))
]

module _ (K : Kernel) (S : IsSending K) where
  -- `sendfile` of Linux puts exactly the stretch of the file that is asked for on the socket, behind
  -- what was written before, and reports its length, however the system cuts it, and also when the
  -- offset is past the end of the file, where the subtraction of the code wraps. No call fails, the
  -- length of the file and the offset are `u64`, and there are more rounds than the file has bytes.
  pub sendfile_linux-sends :
      (fuel offset count : ℕ) (path : String) (s : K.Sys)
      → length (K.bytes s path) < u64_mod
      → offset < u64_mod
      → length (K.bytes s path) < fuel
      → (t : K.Sys) × (sendfile_linux K fuel path offset count s
          ≡ (ok (some (record { bytes_sent = length (region offset count (K.bytes s path)) })), t))
        × (K.written t ≡ K.written s ++ region offset count (K.bytes s path))
  unfolding sendfile_linux
  sendfile_linux-sends fuel offset count path s l o enough =
      let (f, s1, e1, path1, kept1, w1) = S.opens path s in
      let (s2, e2, kept2, w2) = S.lens f s1 in
      let file = K.bytes s path in
      let here1 : K.bytes s1 (K.path_of f) ≡ file =
        ap (λ b. b (K.path_of f)) kept1 ∙ ap (K.bytes s) path1 in
      let here2 : K.bytes s2 (K.path_of f) ≡ file = ap (λ b. b (K.path_of f)) kept2 ∙ here1 in
      let left = bytes_to_send offset count (length file) in
      let sent =
        linux_loop-Sent K S fuel f 0 left offset s2
          (subst (λ b. length b - offset < fuel) (sym here2) (omega arith)) in
      let (s4, e4, w4) = S.joins sent.after in
      let stretch : take left (drop offset (K.bytes s2 (K.path_of f))) ≡ region offset count file =
        ap (λ b. take left (drop offset b)) here2 ∙ region-take offset count file l o in
      let e2' : K.file_len f s1 ≡ (ok (length file), s2) =
        subst (λ b. K.file_len f s1 ≡ (ok (length b), s2)) here1 e2 in
      let loop : linux_loop K fuel f left 0 offset s2
          ≡ (ok (some (length (region offset count file))), sent.after) =
        ap (λ x. linux_loop K fuel f x 0 offset s2) (omega arith)
        ∙ sent.runs
        ∙ ap (λ n. (ok (some n), sent.after)) (omega (arith, ap length stretch)) in
      (s4, rw e1 (rw e2' (rw loop (rw e4))), w4 ∙ sent.written ∙ cc (w1, w2, stretch))
