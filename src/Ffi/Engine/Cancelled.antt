-- ===== src/Ffi/Engine/Cancelled.antt =====
-- A transfer that the application started, and cancels by the text it was given.
use just_drop.Base.{
  ℕ, ◌≡◌, refl, sym, ap, ◌∙◌, String, List, [], ◌∷◌, ◌++◌, Option, none, some, ok, arith, ==_self,
  if◌then◌else◌,
}
use mathlib.Core.List.{map-append}
use just_drop.Core.Types.{TransferProgress}
use just_drop.Core.Types
use just_drop.Core.Database.{Sqlite}
use just_drop.Engine.Device.{Peer}
use just_drop.Engine.Session.{TransferSession, new_send, cancel}
use just_drop.Engine
use just_drop.Engine.{
  EngineEvent, EngineError, State, get_peer, get_session, put_session, transfer_cancelled, emit,
}
use just_drop.Engine.Sessions.{get_session-put_session}
use just_drop.Ffi.Bridge.{on_transfer_cancelled, on_event, callbacks}
use just_drop.Ffi.Engine.{send_files, cancel_transfer}

module _ (S : Sqlite) (to_text : ℕ → String) (parse_str : String → Option ℕ)
    (percent : TransferProgress → ℕ) (round : (id : ℕ) → parse_str (to_text id) ≡ some id) where
  -- What a successful start leaves
  send_files-session :
      (uuid now : ℕ) (device : String) (paths : List String) (s : State S) {text : String}
      {t : State S}
      → send_files S to_text parse_str uuid now device paths s ≡ (ok text, t)
      → (x : TransferSession) × (text ≡ to_text uuid)
        × (get_session t.sessions uuid ≡ some x)
        × (x.source_paths ≡ paths)
        × (t.events ≡ s.events)
  unfolding send_files Engine.send_files new_send
  send_files-session uuid now device paths s {text} {t} h = found (get_peer s.peers device) refl
    where
      fp_of : Peer → String
      fp_of p = elim p.fingerprint [ none ↦ "" | some f ↦ f ]

      left :
          (p : Peer)
          → get_peer s.peers device ≡ some p
          → t ≡ record s {
            sessions = put_session uuid (new_send uuid now (fp_of p) p.name paths) s.sessions;
          }
      left p e = ground (arith, e, h)

      found :
          (o : Option Peer)
          → get_peer s.peers device ≡ o
          → (x : TransferSession) × (text ≡ to_text uuid)
            × (get_session t.sessions uuid ≡ some x)
            × (x.source_paths ≡ paths)
            × (t.events ≡ s.events)
      found none e = absurd (ground (arith, e, h))
      found (some p) e =
          let x = new_send uuid now (fp_of p) p.name paths in
          (
            x,
            ground (arith, e, h),
            ap (λ y. get_session y.sessions uuid) (left p e)
                ∙ get_session-put_session uuid uuid x s.sessions
                ∙ ap (λ b. if b then some x else get_session s.sessions uuid) (==_self uuid),
            refl,
            ground (arith, e, h),
          )

  -- A transfer that the application has started is cancelled by the text that it was given: the call
  -- succeeds, the session of the transfer, with the paths that were given, is cancelled, and the
  -- application is called once, with the same text. A UUID is read back from its text.
  pub send_files-cancel_transfer :
      (uuid now later : ℕ) (device : String) (paths : List String) (s : State S) {text : String}
      {t : State S}
      → send_files S to_text parse_str uuid now device paths s ≡ (ok text, t)
      → (u : State S) × (x : TransferSession) × (cancel_transfer S to_text parse_str later text t
          ≡ (ok tt, u))
        × (get_session u.sessions uuid ≡ some x)
        × (x.state ≡ Types.cancelled)
        × (x.source_paths ≡ paths)
        × (callbacks to_text percent u.events
            ≡ callbacks to_text percent s.events
              ++ (on_transfer_cancelled text "user cancelled" ∷ []))
  unfolding cancel_transfer Engine.cancel_transfer cancel emit on_event
  send_files-cancel_transfer uuid now later device paths s {text} {t} h =
      let (x, same_text, found, given, same_events) =
        send_files-session uuid now device paths s {text = text} {t = t} h in
      let parsed : parse_str text ≡ some uuid = ap parse_str same_text ∙ round uuid in
      let last = transfer_cancelled uuid "user cancelled" in
      let y : TransferSession = record x { state = Types.cancelled; updated_at = later } in
      let u : State S = record t {
        sessions = put_session uuid y t.sessions;
        events = t.events ++ (transfer_cancelled uuid "user cancelled" ∷ []);
      } in
      (
        u,
        y,
        ground (arith, parsed, found),
        get_session-put_session uuid uuid y t.sessions
            ∙ ap (λ b. if b then some y else get_session t.sessions uuid) (==_self uuid),
        refl,
        given,
        ap (λ es. callbacks to_text percent (es ++ (last ∷ []))) same_events
            ∙ map-append (on_event to_text percent) s.events (last ∷ [])
            ∙ ap
                (λ txt.
                  callbacks to_text percent s.events
                  ++ (on_transfer_cancelled txt "user cancelled" ∷ []))
                (sym same_text),
      )
