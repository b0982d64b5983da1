-- ===== src/Engine/Peers.antt =====
-- Which devices an engine knows: a blocked one is never among them.
use just_drop.Base.{
  ◌≡◌, refl, String, false, List, [], ◌∷◌, Option, none, some, if◌then◌else◌, str_eq, eq_iff, arith,
}
use just_drop.Core.Trust.{is_blocked}
use just_drop.Core.Database.{Sqlite, get_trust}
use just_drop.Engine.Device.{Peer}
use just_drop.Engine.{
  State, get_peer, remove_peer, insert_peer, merge, with_stored_trust, on_peer_discovered,
  on_peer_lost, emit, new,
}

pub get_peer-remove_peer :
    (id other : String) (peers : List (String × Peer))
    → get_peer (remove_peer id peers) other
      ≡ (if str_eq id other then none else get_peer peers other)
unfolding get_peer remove_peer
get_peer-remove_peer id other [] = ground arith
get_peer-remove_peer id other ((key, p) ∷ rest) =
    ground
      (arith, get_peer-remove_peer id other rest, eq_iff key id, eq_iff key other, eq_iff id other)

get_peer-insert_peer :
    (id other : String) (p : Peer) (peers : List (String × Peer))
    → get_peer (insert_peer id p peers) other
      ≡ (if str_eq id other then some p else get_peer peers other)
unfolding get_peer insert_peer
get_peer-insert_peer id other p peers = ground (arith, get_peer-remove_peer id other peers)

module _ (S : Sqlite) where
  -- No known device has a fingerprint that the database blocks.
  abbrev pub IsClean : State S → Type 0
  IsClean s =
      (id : String) (p : Peer) (fp : String)
      → get_peer s.peers id ≡ some p
      → p.fingerprint ≡ some fp
      → is_blocked (get_trust S fp s.db) ≡ false

  -- A fresh engine knows no blocked device.
  pub new-IsClean : (db : S.Db) → IsClean (new S db)
  unfolding new emit get_peer
  new-IsClean db id p fp g e = absurd (ground (arith, g))

  -- A discovered device that is blocked is not taken up, and a merge does not bring one in: if no known
  -- device was blocked, none is after a discovery.
  pub on_peer_discovered-IsClean :
      (p : Peer) (s : State S) → IsClean s → IsClean (on_peer_discovered S p s)
  unfolding on_peer_discovered with_stored_trust merge emit
  on_peer_discovered-IsClean p s clean id q fp g e =
      known p.fingerprint (get_peer s.peers p.device_id) refl refl
    where
      known :
          (f : Option String) (o : Option Peer)
          → p.fingerprint ≡ f
          → get_peer s.peers p.device_id ≡ o
          → is_blocked (get_trust S fp (on_peer_discovered S p s).db) ≡ false
      known none none h k =
          ground (arith, h, k, g, e, clean id q fp, get_peer-insert_peer p.device_id id p s.peers)
      known none (some x) h k = ground (
        arith,
        h,
        k,
        g,
        e,
        clean id q fp,
        clean p.device_id x fp,
        get_peer-insert_peer p.device_id id (merge x p) s.peers,
      )
      known (some f) none h k =
          let p' = record p { trust = get_trust S f s.db } in
          ground (arith, h, k, g, e, clean id q fp, get_peer-insert_peer p.device_id id p' s.peers)
      known (some f) (some x) h k =
          let p' = record p { trust = get_trust S f s.db } in
          ground (
            arith,
            h,
            k,
            g,
            e,
            clean id q fp,
            clean p.device_id x fp,
            get_peer-insert_peer p.device_id id (merge x p') s.peers,
          )

  -- The loss of a device keeps it so.
  pub on_peer_lost-IsClean :
      (lost : String) (s : State S) → IsClean s → IsClean (on_peer_lost S lost s)
  unfolding on_peer_lost emit
  on_peer_lost-IsClean lost s clean id q fp g e =
      ground (arith, clean id q fp, g, e, get_peer-remove_peer lost id s.peers)
