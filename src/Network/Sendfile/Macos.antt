-- ===== src/Network/Sendfile/Macos.antt =====
-- The loop of `sendfile_macos`, whose calls have their outcomes as an argument, and what an interruption does.
use just_drop.Base.{
  ℕ, zero, suc, ◌+◌, ◌-◌, ◌<◌, ◌≤◌, ◌≡◌, ◌≢◌, refl, sym, ap, ◌∙◌, true, List, [], ◌∷◌, ◌++◌, Option,
  none, some, Result, ok, err, if◌then◌else◌, ltb, ◌==◌, length, take, drop, min, append-nil,
  append_assoc, length-take, length-drop, Bool-cases, inl, inr, arith,
}
use just_drop.Storage.Chunker.Reading.{take-drop-split}
use just_drop.Network.Sendfile.{max_chunk}

-- What one `sendfile(2)` of macOS ends with, and the bytes of it that reached the socket, which `len`
-- tells: all, or those before a signal, before the socket was full (`EAGAIN`), or before an error.
pub data Ending : Type 0 where
  completed : Ending
  interrupted : Ending
  again : Ending
  failed : ℕ → Ending

pub record Call : Type 0 where
  pub ending : Ending
  pub len : ℕ

-- The code of `EAGAIN`
abbrev pub eagain : ℕ
eagain = 35

-- The bytes that a call puts on the socket: no more than it was asked for, and than the file has.
abbrev pub passed : Call → List ℕ → ℕ → ℕ → List ℕ
passed c file left offset = take c.len (take (min left max_chunk) (drop offset file))

abbrev pub Outcome : Type 0
Outcome = Result ℕ (Option ℕ) × List ℕ

-- One round for a call that ended so, with the rest of the loop: from the same place, or behind
abbrev pub after_call : Ending → ℕ → ℕ → List ℕ → Outcome → Outcome → Outcome
after_call completed n total_sent written same behind =
    if n == 0 then (ok (some total_sent), written) else behind
after_call interrupted n total_sent written same behind = same
after_call again n total_sent written same behind =
    if ltb 0 n then behind else (err eagain, written)
after_call (failed e) n total_sent written same behind = (err e, written)

-- The loop, for the calls in turn: the result, none when there are more rounds, and what the socket has
unfoldable pub macos_loop : List Call → List ℕ → ℕ → ℕ → ℕ → List ℕ → Outcome
macos_loop [] file to_send total_sent current_offset written =
    (ok (if ltb total_sent to_send then none else some total_sent), written)
macos_loop (c ∷ calls) file to_send total_sent current_offset written =
    let sent = passed c file (to_send - total_sent) current_offset in
    let same = macos_loop calls file to_send total_sent current_offset (written ++ sent) in
    let behind =
      macos_loop calls file to_send (total_sent + length sent) (current_offset + length sent)
        (written ++ sent) in
    if ltb total_sent to_send
    then after_call c.ending (length sent) total_sent (written ++ sent) same behind
    else (ok (some total_sent), written)

-- No call is interrupted by a signal.
abbrev pub IsUninterrupted : List Call → Type 0
IsUninterrupted [] = Unit {0}
IsUninterrupted (c ∷ calls) = (c.ending ≢ interrupted) × IsUninterrupted calls

take-take : (a b : ℕ) (xs : List ℕ) → take a (take b xs) ≡ take (length (take a (take b xs))) xs
take-take zero b xs = refl
take-take (suc a) zero xs = refl
take-take (suc a) (suc b) [] = refl
take-take (suc a) (suc b) (x ∷ xs) = ap (λ r. x ∷ r) (take-take a b xs)

empty-of-length : (xs : List ℕ) → length xs ≡ 0 → xs ≡ []
empty-of-length [] h = refl
empty-of-length (x ∷ xs) h = absurd (omega arith)

-- What a loop that ends with success has written from where it was
record Wrote (file : List ℕ) (total off r : ℕ) (written after : List ℕ) : Type 0 where
  upto : total ≤ r
  stretch : after ≡ written ++ take (r - total) (drop off file)

stopped :
    (file : List ℕ) (total off r : ℕ) (written after sent : List ℕ)
    → total ≡ r
    → sent ≡ []
    → written ++ sent ≡ after
    → Wrote file total off r written after
stopped file total off r written after sent e none_sent w = record {
  upto = omega arith;
  stretch =
      sym w
      ∙ ap (λ d. written ++ d)
          (none_sent ∙ ap (λ n. take n (drop off file)) {x = 0} {y = r - total} (omega (arith, e)));
}

behind-Wrote :
    (c : Call) (file : List ℕ) (left total off r : ℕ) (written after : List ℕ)
    → Wrote file
        (total + length (passed c file left off))
        (off + length (passed c file left off))
        r
        (written ++ passed c file left off)
        after
    → Wrote file total off r written after
behind-Wrote c file left total off r written after w =
    let sent = passed c file left off in
    let n = length sent in
    let whole : sent ≡ take n (drop off file) =
      take-take c.len (min left max_chunk) (drop off file) in
    let size : n ≤ length file - off =
      omega (arith, ap length whole, length-take n (drop off file), length-drop off file) in
    record {
      upto = omega (arith, w.upto);
      stretch =
          w.stretch
          ∙ append_assoc written sent (take (r - (total + n)) (drop (off + n) file))
          ∙ ap (λ d. written ++ d)
              (ap (λ d. d ++ take (r - (total + n)) (drop (off + n) file)) whole
                ∙ ap (λ k. take n (drop off file) ++ take k (drop (off + n) file))
                    (omega (arith, w.upto))
                ∙ take-drop-split off n (r - total) file (omega (arith, w.upto)) size);
    }

after_call-Wrote :
    (c : Call) (file : List ℕ) (left total off r : ℕ) (written after : List ℕ)
    (same behind : Outcome)
    → c.ending ≢ interrupted
    → (behind ≡ (ok (some r), after)
        → Wrote file
            (total + length (passed c file left off))
            (off + length (passed c file left off))
            r
            (written ++ passed c file left off)
            after)
    → after_call c.ending
        (length (passed c file left off))
        total
        (written ++ passed c file left off)
        same
        behind
      ≡ (ok (some r), after)
    → Wrote file total off r written after
after_call-Wrote c file left total off r written after same behind unbroken ih h =
    by_ending c.ending refl h
  where
    sent : List ℕ
    sent = passed c file left off

    moved : behind ≡ (ok (some r), after) → Wrote file total off r written after
    moved k = behind-Wrote c file left total off r written after (ih k)

    by_ending :
        (e : Ending)
        → c.ending ≡ e
        → after_call e (length sent) total (written ++ sent) same behind ≡ (ok (some r), after)
        → Wrote file total off r written after
    by_ending completed ee k = elim (Bool-cases (length sent == 0)) [
      | inl empty ↦
          let none_sent : sent ≡ [] = empty-of-length sent (ground (arith, empty)) in
          stopped file total off r written after sent (ground (arith, k, empty)) none_sent
            (ground (arith, k, empty))
      | inr some_sent ↦ moved (ground (arith, k, some_sent))
    ]
    by_ending interrupted ee k = absurd (unbroken ee)
    by_ending again ee k = moved (ground (arith, k))
    by_ending (failed e) ee k = absurd (ground (arith, k))

macos_loop-Wrote :
    (calls : List Call) (file : List ℕ) (to_send total off : ℕ) (written : List ℕ) {r : ℕ}
    {after : List ℕ}
    → IsUninterrupted calls
    → macos_loop calls file to_send total off written ≡ (ok (some r), after)
    → Wrote file total off r written after
unfolding macos_loop
macos_loop-Wrote [] file to_send total off written {r} {after} u h =
    stopped file total off r written after [] (ground (arith, h)) refl
      (append-nil written ∙ ground (arith, h))
macos_loop-Wrote (c ∷ calls) file to_send total off written {r} {after} u h =
    let left = to_send - total in
    let sent = passed c file left off in
    let n = length sent in
    let same = macos_loop calls file to_send total off (written ++ sent) in
    let behind = macos_loop calls file to_send (total + n) (off + n) (written ++ sent) in
    elim (Bool-cases (ltb total to_send)) [
      | inl more ↦
          after_call-Wrote c file left total off r written after same behind u.0
            (macos_loop-Wrote calls file to_send (total + n) (off + n) (written ++ sent) {r = r}
              {after = after} u.1)
            (sym (if_more more (after_call c.ending n total (written ++ sent) same behind)) ∙ h)
      | inr enough ↦
          stopped file total off r written after [] (ground (arith, h, enough)) refl
            (append-nil written ∙ ground (arith, h, enough))
    ]
  where
    if_more :
        ltb total to_send ≡ true
        → (x : Outcome) → (if ltb total to_send then x else (ok (some total), written)) ≡ x
    if_more more x = rw more

-- A loop that is interrupted once, at its first call, and ends with success, has put the bytes of that
-- call on the socket twice: behind them stands all that it counts, from the same offset on.
pub macos_loop-interrupted :
    (c : Call) (calls : List Call) (file : List ℕ) (to_send off : ℕ) (written : List ℕ) {r : ℕ}
    {after : List ℕ}
    → c.ending ≡ interrupted
    → IsUninterrupted calls
    → 0 < to_send
    → macos_loop (c ∷ calls) file to_send 0 off written ≡ (ok (some r), after)
    → after ≡ written ++ (passed c file to_send off ++ take r (drop off file))
unfolding macos_loop
macos_loop-interrupted c calls file to_send off written {r} {after} e u pos h =
    let sent = passed c file to_send off in
    let more : ltb 0 to_send ≡ true = ground arith in
    let first = passed c file (to_send - 0) off in
    let n = length first in
    let same = macos_loop calls file to_send 0 off (written ++ first) in
    let behind = macos_loop calls file to_send (0 + n) (off + n) (written ++ first) in
    let round = after_call c.ending n 0 (written ++ first) same behind in
    let later : macos_loop calls file to_send 0 off (written ++ sent) ≡ (ok (some r), after) =
      ap (λ n. macos_loop calls file to_send 0 off (written ++ passed c file n off)) {x = to_send}
        {y = to_send - 0} (omega arith)
      ∙ sym (
          ap (λ b. if b then round else (ok (some 0), written)) more
          ∙ ap (λ x. after_call x n 0 (written ++ first) same behind) e)
      ∙ h in
    let w =
      macos_loop-Wrote calls file to_send 0 off (written ++ sent) {r = r} {after = after} u later in
    w.stretch
    ∙ append_assoc written sent (take (r - 0) (drop off file))
    ∙ ap (λ n. written ++ (sent ++ take n (drop off file))) (omega arith)

-- A loop that no signal interrupts, and that ends with success, has put exactly the bytes that it
-- counts on the socket.
pub macos_loop-uninterrupted :
    (calls : List Call) (file : List ℕ) (to_send off : ℕ) (written : List ℕ) {r : ℕ}
    {after : List ℕ}
    → IsUninterrupted calls
    → macos_loop calls file to_send 0 off written ≡ (ok (some r), after)
    → after ≡ written ++ take r (drop off file)
macos_loop-uninterrupted calls file to_send off written {r} {after} u h =
    (macos_loop-Wrote calls file to_send 0 off written {r = r} {after = after} u h).stretch
    ∙ ap (λ n. written ++ take n (drop off file)) (omega arith)
