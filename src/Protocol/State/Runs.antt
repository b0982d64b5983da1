-- ===== src/Protocol/State/Runs.antt =====
-- Whole runs of the transfer state machine: requests in any order, refused ones among them.
use just_drop.Base.{subst, ◌≡◌, refl, true, arith, inl, inr, List, [], ◌∷◌, ◌⊎◌}
use just_drop.Core.Types.{
  TransferState, handshaking, negotiating, transferring, verifying, completed, failed, cancelled,
  paused,
}
use just_drop.Protocol.State.{
  TransferStateMachine, new, is_valid_transition, transition, is_terminal, run,
}

-- `xs` is what remains of `ys` after some entries are left out.
pub data Subsequence : List TransferState → List TransferState → Type 0 where
  nil : {ys : List TransferState} → Subsequence [] ys
  keep :
      {x : TransferState} {xs ys : List TransferState}
      → Subsequence xs ys
      → Subsequence (x ∷ xs) (x ∷ ys)
  skip :
      {y : TransferState} {xs ys : List TransferState} → Subsequence xs ys → Subsequence xs (y ∷ ys)

transition-terminal :
    (m : TransferStateMachine) (t : TransferState) → is_terminal m ≡ true → (transition m t).1 ≡ m
unfolding transition is_valid_transition is_terminal
transition-terminal m t h = ground arith

-- A terminal state absorbs every sequence of requests.
pub run-terminal :
    (m : TransferStateMachine) (ts : List TransferState) → is_terminal m ≡ true → run m ts ≡ m
unfolding run
run-terminal m [] h = refl
run-terminal m (t ∷ ts) h = rw (transition-terminal m t h) (run-terminal m ts h)

-- The steps that a transfer still owes before it is completed.
abbrev owed : TransferState → List TransferState
owed handshaking = negotiating ∷ transferring ∷ verifying ∷ completed ∷ []
owed negotiating = transferring ∷ verifying ∷ completed ∷ []
owed transferring = verifying ∷ completed ∷ []
owed paused = verifying ∷ completed ∷ []
owed verifying = completed ∷ []
owed _ = []

-- A request pays at most the next step owed.
owed-transition :
    (s t : TransferState) (m : TransferStateMachine)
    → m ≡ (transition (record { state = s }) t).1
    → (m.state ≡ failed)
      ⊎ (m.state ≡ cancelled)
      ⊎ (owed m.state ≡ owed s)
      ⊎ (t ∷ owed m.state ≡ owed s)
unfolding transition is_valid_transition
owed-transition s t m e = ground arith

ended-ne-completed :
    (m : TransferStateMachine) (ts : List TransferState)
    → (m.state ≡ failed) ⊎ (m.state ≡ cancelled)
    → (run m ts).state ≡ completed
    → ⊥
unfolding is_terminal
ended-ne-completed m ts e h = ground (arith, run-terminal m ts)

run-owed :
    (m : TransferStateMachine) (ts : List TransferState)
    → (run m ts).state ≡ completed
    → Subsequence (owed m.state) ts
unfolding run
run-owed m [] h = rw h nil
run-owed m (t ∷ ts) h =
    let m' = (transition m t).1 in
    let ih = run-owed m' ts h in
    elim (owed-transition m.state t m' refl) [
      | inl e ↦ absurd (ended-ne-completed m' ts (inl e) h)
      | inr (inl e) ↦ absurd (ended-ne-completed m' ts (inr e) h)
      | inr (inr (inl e)) ↦ skip (subst (λ o. Subsequence o ts) e ih)
      | inr (inr (inr e)) ↦ subst (λ o. Subsequence o (t ∷ ts)) e (keep ih)
    ]

-- A new transfer is completed only by requests among which, in this order, are negotiation,
-- transfer, verification and completion.
pub completed_in_order :
    (ts : List TransferState)
    → (run new ts).state ≡ completed
    → Subsequence (negotiating ∷ transferring ∷ verifying ∷ completed ∷ []) ts
unfolding new
completed_in_order ts h = run-owed new ts h
