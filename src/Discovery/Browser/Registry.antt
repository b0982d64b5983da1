-- ===== src/Discovery/Browser/Registry.antt =====
-- The map of known devices stays consistent, and this device is never in it.
use just_drop.Base.{
  ℕ, ◌≡◌, refl, ap, ◌∙◌, subst, String, true, false, ◌||◌, List, [], ◌∷◌, Option, none, some,
  Result, ok, err, arith, take, Bool-cases, inl, inr,
}
use just_drop.Discovery.Hex.{Panic, hex_encode}
use just_drop.Discovery.Browser.{
  Text, DeviceInfo, ServiceInfo, ServiceEvent, service_resolved, service_removed, search_started,
  search_stopped, service_found, ServiceBrowser, text_eq, get, has_key, insert_peer, remove_peer,
  find_named, get_peer, fingerprint_of, device_of, is_self, resolved, removed, addressed,
  handle_event, browse, then_browse, new, set_self_fingerprint, or_panic,
}

pub text_eq→eq : (s t : Text) → text_eq s t ≡ true → s ≡ t
unfolding text_eq
text_eq→eq [] [] h = refl
text_eq→eq [] (b ∷ t) h = absurd (ground (arith, h))
text_eq→eq (a ∷ s) [] h = absurd (ground (arith, h))
text_eq→eq (a ∷ s) (b ∷ t) h =
    let tails : s ≡ t = text_eq→eq s t (ground (arith, h)) in
    let heads : a ≡ b = ground (arith, h) in cc

pub text_eq_self : (s : Text) → text_eq s s ≡ true
unfolding text_eq
text_eq_self [] = refl
text_eq_self (a ∷ s) = ground (arith, text_eq_self s)

pub text_eq_comm : (s t : Text) → text_eq s t ≡ text_eq t s
unfolding text_eq
text_eq_comm [] [] = refl
text_eq_comm [] (b ∷ t) = refl
text_eq_comm (a ∷ s) [] = refl
text_eq_comm (a ∷ s) (b ∷ t) = ground (arith, text_eq_comm s t)

-- Every entry has the key of its device, which is made of its fingerprint and is not `our`, and no key
-- stands twice.
pub AreKnown : Option Text → List (Text × DeviceInfo) → Type 0
AreKnown our [] = Unit {0}
AreKnown our ((key, info) ∷ peers) =
    (key ≡ info.id)
    × (info.id ≡ hex_encode (take 8 info.fingerprint))
    × (is_self our key ≡ false)
    × (has_key peers key ≡ false)
    × AreKnown our peers

has_key-insert_peer :
    (id : Text) (d : DeviceInfo) (peers : List (Text × DeviceInfo)) (k : Text)
    → has_key (insert_peer id d peers) k ≡ (has_key peers k || text_eq id k)
unfolding has_key insert_peer
has_key-insert_peer id d [] k = ground arith
has_key-insert_peer id d ((key, info) ∷ peers) k = elim (Bool-cases (text_eq key id)) [
  | inl same ↦ ground (arith, same, ap (λ z. text_eq z k) (text_eq→eq key id same))
  | inr other ↦ ground (arith, other, has_key-insert_peer id d peers k)
]

has_key-remove_peer :
    (id : Text) (peers : List (Text × DeviceInfo)) (k : Text)
    → has_key peers k ≡ false
    → has_key (remove_peer id peers) k ≡ false
unfolding has_key remove_peer
has_key-remove_peer id [] k h = refl
has_key-remove_peer id ((key, info) ∷ peers) k h =
    ground (arith, has_key-remove_peer id peers k (ground (arith, h)))

insert_peer-AreKnown :
    (our : Option Text) (d : DeviceInfo) (peers : List (Text × DeviceInfo))
    → d.id ≡ hex_encode (take 8 d.fingerprint)
    → is_self our d.id ≡ false
    → AreKnown our peers
    → AreKnown our (insert_peer d.id d peers)
unfolding insert_peer has_key AreKnown
insert_peer-AreKnown our d [] made not_self k = (refl, made, not_self, refl, tt)
insert_peer-AreKnown our d ((key, info) ∷ peers) made not_self k =
    elim (Bool-cases (text_eq key d.id)) [
      | inl same ↦ rw same (text_eq→eq key d.id same, made, k.2, k.3, k.4)
      | inr other ↦ rw other (
        k.0,
        k.1,
        k.2,
        ground (arith, has_key-insert_peer d.id d peers key, k.3, text_eq_comm key d.id, other),
        insert_peer-AreKnown our d peers made not_self k.4,
      )
    ]

remove_peer-AreKnown :
    (our : Option Text) (id : Text) (peers : List (Text × DeviceInfo))
    → AreKnown our peers
    → AreKnown our (remove_peer id peers)
unfolding remove_peer AreKnown
remove_peer-AreKnown our id [] k = tt
remove_peer-AreKnown our id ((key, info) ∷ peers) k = elim (Bool-cases (text_eq key id)) [
  | inl same ↦ rw same k.4
  | inr other ↦
      rw other
        (k.0, k.1, k.2, has_key-remove_peer id peers key k.3, remove_peer-AreKnown our id peers k.4)
]

resolved-AreKnown :
    (d : DeviceInfo) (self : ServiceBrowser)
    → d.id ≡ hex_encode (take 8 d.fingerprint)
    → AreKnown self.self_id self.peers
    → AreKnown (resolved d self).self_id (resolved d self).peers
unfolding resolved
resolved-AreKnown d self made k = elim (Bool-cases (is_self self.self_id d.id)) [
  | inl itself ↦ rw itself k
  | inr other ↦ rw other (insert_peer-AreKnown self.self_id d self.peers made other k)
]

removed-AreKnown :
    (found : Option Text) (self : ServiceBrowser)
    → AreKnown self.self_id self.peers
    → AreKnown (removed found self).self_id (removed found self).peers
removed-AreKnown none self k = k
removed-AreKnown (some id) self k = remove_peer-AreKnown self.self_id id self.peers k

-- What a step ends with, if it does not panic
Keeps : ServiceBrowser → Result Panic ServiceBrowser → Type 0
Keeps self (err p) = Unit {0}
Keeps self (ok self') = (self'.self_id ≡ self.self_id) × AreKnown self'.self_id self'.peers

resolved-self_id :
    (d : DeviceInfo) (self : ServiceBrowser) → (resolved d self).self_id ≡ self.self_id
unfolding resolved
resolved-self_id d self = elim (Bool-cases (is_self self.self_id d.id)) [
  | inl itself ↦ rw itself refl
  | inr other ↦ rw other refl
]

removed-self_id :
    (found : Option Text) (self : ServiceBrowser) → (removed found self).self_id ≡ self.self_id
removed-self_id none self = refl
removed-self_id (some id) self = refl

parsed-Keeps :
    (info : ServiceInfo) (ipv4 now : ℕ) (self : ServiceBrowser)
    (fingerprint : Result Panic (List ℕ))
    → AreKnown self.self_id self.peers
    → Keeps self (or_panic fingerprint λ f. resolved (device_of info ipv4 now f) self)
unfolding Keeps device_of
parsed-Keeps info ipv4 now self (err p) k = tt
parsed-Keeps info ipv4 now self (ok f) k = (
  resolved-self_id (device_of info ipv4 now f) self,
  resolved-AreKnown (device_of info ipv4 now f) self refl k,
)

addressed-Keeps :
    (addresses : List ℕ) (info : ServiceInfo) (now : ℕ) (self : ServiceBrowser)
    → AreKnown self.self_id self.peers
    → Keeps self (addressed addresses info now self)
unfolding Keeps
addressed-Keeps [] info now self k = (refl, k)
addressed-Keeps (ipv4 ∷ others) info now self k =
    parsed-Keeps info ipv4 now self (fingerprint_of info) k

handle_event-Keeps :
    (event : ServiceEvent) (now : ℕ) (self : ServiceBrowser)
    → AreKnown self.self_id self.peers
    → Keeps self (handle_event event now self)
unfolding handle_event Keeps device_of
handle_event-Keeps (service_resolved info) now self k =
    addressed-Keeps info.addresses_v4 info now self k
handle_event-Keeps (service_removed ty fullname) now self k = (
  removed-self_id (find_named fullname self.peers) self,
  removed-AreKnown (find_named fullname self.peers) self k,
)
handle_event-Keeps (search_started ty) now self k = (refl, k)
handle_event-Keeps (search_stopped ty) now self k = (refl, k)
handle_event-Keeps (service_found ty name) now self k = (refl, k)

then_browse-Keeps :
    (self : ServiceBrowser) (r : Result Panic ServiceBrowser)
    (f : ServiceBrowser → Result Panic ServiceBrowser)
    → Keeps self r
    → (h : (s : ServiceBrowser) → AreKnown s.self_id s.peers → Keeps s (f s))
    → Keeps self (then_browse r f)
unfolding Keeps
then_browse-Keeps self (err p) f k h = tt
then_browse-Keeps self (ok s) f k h = carried self s (f s) k.0 (h s k.1)
  where
    carried :
        (self s : ServiceBrowser) (r : Result Panic ServiceBrowser)
        → s.self_id ≡ self.self_id
        → Keeps s r
        → Keeps self r
    carried self s (err p) e k = tt
    carried self s (ok t) e k = (k.0 ∙ e, k.1)

browse-Keeps :
    (events : List (ServiceEvent × ℕ)) (self : ServiceBrowser)
    → AreKnown self.self_id self.peers
    → Keeps self (browse events self)
unfolding browse Keeps
browse-Keeps [] self k = (refl, k)
browse-Keeps ((event, now) ∷ events) self k =
    then_browse-Keeps self (handle_event event now self) (browse events)
      (handle_event-Keeps event now self k) (browse-Keeps events)

AreKnown-get_self :
    (id : Text) (peers : List (Text × DeviceInfo)) → AreKnown (some id) peers → get peers id ≡ none
unfolding AreKnown get is_self
AreKnown-get_self id [] k = refl
AreKnown-get_self id ((key, info) ∷ peers) k = ground (arith, k.2, AreKnown-get_self id peers k.4)

-- Whatever mDNS reports, the devices that are known are always listed under their own ids, which are
-- made of the first eight bytes of their fingerprints, none of them twice, and never this device itself,
-- once the browser was told its fingerprint.
pub browse-AreKnown :
    (ty : String) (fingerprint : List ℕ) (events : List (ServiceEvent × ℕ)) (self : ServiceBrowser)
    → browse events (set_self_fingerprint fingerprint (new ty)) ≡ ok self
    → AreKnown (some (hex_encode (take 8 fingerprint))) self.peers
      × (get_peer self (hex_encode (take 8 fingerprint)) ≡ none)
unfolding set_self_fingerprint new get_peer Keeps AreKnown
browse-AreKnown ty fingerprint events self h =
    let start = set_self_fingerprint fingerprint (new ty) in
    let k = subst (Keeps start) h (browse-Keeps events start tt) in
    let known = subst (λ our. AreKnown our self.peers) k.0 k.1 in
    (known, AreKnown-get_self (hex_encode (take 8 fingerprint)) self.peers known)
