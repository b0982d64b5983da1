-- ===== src/Tests/Engine.antt =====
-- An engine with one device and one session, over a database in memory.
use just_drop.Base.{
  ◌≡◌, refl, String, true, not, [], ◌∷◌, ◌++◌, Option, none, some, ok, if◌then◌else◌, str_eq,
}
use just_drop.Core.Types.{linux}
use just_drop.Core.Database.{Sqlite}
use just_drop.Engine.Device.{Peer, from_mdns}
use just_drop.Engine.Session.{new_send, cancel, is_terminal}
use just_drop.Engine.{
  State, set_peer_trust, stopped, get_session, active_transfer_count, stop, on_peer_discovered, new,
}
use just_drop.Core.Trust.{blocked}
use just_drop.Engine.Sessions.{stop_lem}
use just_drop.Engine.Peers.{IsClean, new-IsClean, on_peer_discovered-IsClean}

abbrev Rows : Type 0
Rows = String → Option String

abbrev with_row : String → String → Rows → Rows
with_row fp level db other = if str_eq fp other then some level else db other

abbrev pub memory_db : Sqlite
memory_db = record {
  Db = Rows;
  select_trust = λ fp db. ok (db fp);
  upsert_peer = λ fp name platform level db. (ok tt, with_row fp level db);
}

abbrev rows : Rows
rows = with_row "ab" "trusted" (λ fp. none)

abbrev phone : Peer
phone = from_mdns "ab" 5 "Phone" "10.0.0.2" "ab" linux

abbrev fresh : State memory_db
fresh = new memory_db rows

abbrev pub running : State memory_db
running = record {
  db = rows;
  peers = ("ab", phone) ∷ [];
  sessions = (7, new_send 7 1 "ab" "Phone" []) ∷ [];
  events = [];
  running = true;
}

stop_lem_example :
    (active_transfer_count memory_db (stop memory_db 3 running) ≡ 0)
    × (get_session (stop memory_db 3 running).sessions 7 ≡ elim (get_session running.sessions 7) [
      | none ↦ none
      | some x ↦ some (if not (is_terminal x) then cancel 3 x else x)
    ])
    × ((stop memory_db 3 running).events ≡ running.events ++ (stopped ∷ []))
    × (stop memory_db 4 (stop memory_db 3 running) ≡ stop memory_db 3 running)
stop_lem_example = stop_lem memory_db 3 4 7 running refl

on_peer_discovered-IsClean_example : IsClean memory_db (on_peer_discovered memory_db phone fresh)
on_peer_discovered-IsClean_example =
    on_peer_discovered-IsClean memory_db phone fresh (new-IsClean memory_db rows)

abbrev after_block : State memory_db
after_block = (set_peer_trust memory_db (λ p. "Linux") "ab" blocked running).1
