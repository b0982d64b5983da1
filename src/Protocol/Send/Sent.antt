-- ===== src/Protocol/Send/Sent.antt =====
-- What a whole successful send has sent.
use just_drop.Base.{
  ℕ, ◌<◌, ◌≡◌, sym, subst, ◌∙◌, List, [], ◌∷◌, ◌++◌, ok, String, length, append_assoc, u64_mod,
  u32_mod, arith, >>=-eq-ok, ◌>>=◌, ◌>>◌, pure,
}
use just_drop.Core.Types.{TransferManifest}
use just_drop.Storage.Files.{Files, IsReadable, HasLengths}
use just_drop.Protocol.Messages.{transfer_request, transfer_complete}
use just_drop.Protocol.Link.{World, send, recv, emit, shutdown}
use just_drop.Protocol.Send.{negotiate, skip_of, send_all, check_verified, send_files}
use just_drop.Protocol.Send.Plan.{plan, whole_plan, send_all-sent}

module _ (F : Files) (R : IsReadable F) (L : HasLengths F) (speed : ℕ → ℕ)
    (hash : TransferManifest → List ℕ) where
  negotiate-sent :
      (m : TransferManifest) (w : World F.Fs) {skip : List ℕ} {t : World F.Fs}
      → negotiate F speed hash m w ≡ (ok skip, t)
      → (t.sent ≡ w.sent ++ (transfer_request m ∷ [])) × (F.bytes t.fs ≡ F.bytes w.fs)
  unfolding negotiate skip_of send recv
  negotiate-sent m w h = ground (arith, h)

  end-sent :
      (m : TransferManifest) (w : World F.Fs) {id : ℕ} {t : World F.Fs}
      → (send (transfer_complete (hash m))
            >> (recv >>= λ answer.
                check_verified F speed hash m answer >> (shutdown >> pure m.transfer_id)))
          w
        ≡ (ok id, t)
      → t.sent ≡ w.sent ++ (transfer_complete (hash m) ∷ [])
  unfolding check_verified send recv shutdown emit
  end-sent m w h = ground (arith, h)

  -- A send that succeeds has sent the request, then, file by file and in order, exactly the chunks that
  -- the receiver's answer does not name as received, each with the bytes of the file at its place, then
  -- the end; however the reads of the files are cut. The chunk size is positive and a `u32`, the length
  -- of each file is a `u64`, and no read fails.
  pub send_files-sent :
      (m : TransferManifest) (paths : List String) (w : World F.Fs) {id : ℕ} {t : World F.Fs}
      → 0 < m.chunk_size
      → m.chunk_size < u32_mod
      → ((p : String) → length (F.bytes w.fs p) < u64_mod)
      → send_files F speed hash m paths w ≡ (ok id, t)
      → (skip : List ℕ) × (u : World F.Fs) × (negotiate F speed hash m w ≡ (ok skip, u))
        × (t.sent ≡ w.sent ++ whole_plan hash m skip (F.bytes w.fs) paths)
  unfolding send_files
  send_files-sent m paths w {id} {t} p u fits h =
      let (skip, v, e, h1) = >>=-eq-ok (negotiate F speed hash m) _ w {b = id} {t = t} h in
      let (n', x, e2, h2) =
        >>=-eq-ok (send_all F speed hash m skip m.files paths 0 0) _ v {b = id} {t = t} h1 in
      let (sent, kept) = negotiate-sent m w {skip = skip} {t = v} e in
      let rest =
        send_all-sent F R L speed hash m skip m.files paths 0 0 v {r = n'} {t = x} p u
          (λ q. subst (λ by. length (by q) < u64_mod) (sym kept) (fits q)) e2 in
      let ends = end-sent m x {id = id} {t = t} h2 in
      let chunks = plan m skip (F.bytes w.fs) m.files paths 0 in
      (
        skip,
        v,
        e,
        ends
            ∙ cc (
              rest.0,
              kept,
              sent,
              append_assoc w.sent (transfer_request m ∷ []) chunks,
              append_assoc w.sent (transfer_request m ∷ chunks) (transfer_complete (hash m) ∷ []),
            ),
      )
