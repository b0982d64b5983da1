-- ===== src/Discovery/Registrar.antt =====
-- `ServiceRegistrar` of crates/justdrop-discovery/src/registrar.rs: this device advertised by mDNS. The
-- daemon of `mdns_sd` is an interface; a name is the list of its characters.
use just_drop.Base.{
  ℕ, ◌≡◌, sym, ap, ◌∙◌, String, Bool, true, false, not, ◌&&◌, List, [], ◌∷◌, ◌++◌, Option, none,
  some, Result, ok, err, if◌then◌else◌, ◌==◌, arith, Bool-cases, inl, inr,
}
use just_drop.Discovery.Hex.{hex_encode}

-- `DiscoveryError`, with the code of the daemon's error
pub data DiscoveryError : Type 0 where
  daemon_creation : ℕ → DiscoveryError
  registration : ℕ → DiscoveryError

-- What is advertised: the type of the service, its name, host and address, the port, and the TXT records
pub record Advertised : Type 0 where
  pub service_type : List ℕ
  pub instance_name : List ℕ
  pub hostname : List ℕ
  pub ip : String
  pub port : ℕ
  pub version : ℕ
  pub platform : String
  pub fingerprint : List ℕ

pub record Mdns : Type 1 where
  pub Daemon : Type 0
  pub new_daemon : Result ℕ Daemon
  -- `ServiceInfo::new` refuses what is no name.
  pub accepts : Advertised → Result ℕ (Unit {0})
  pub register : Advertised → Daemon → Result ℕ (Unit {0}) × Daemon
  pub unregister : List ℕ → Daemon → Result ℕ (Unit {0}) × Daemon
  -- Unicode's alphanumeric characters
  pub is_alphanumeric : ℕ → Bool

-- `replace(|c| !c.is_alphanumeric() && c != '-', "-")`
unfoldable pub sanitized : (ℕ → Bool) → List ℕ → List ℕ
sanitized is_alphanumeric [] = []
sanitized is_alphanumeric (c ∷ name) =
    (if not (is_alphanumeric c) && not (c == 45) then 45 else c) ∷ sanitized is_alphanumeric name

-- `.local.`
abbrev pub local_suffix : List ℕ
local_suffix = 46 ∷ 108 ∷ 111 ∷ 99 ∷ 97 ∷ 108 ∷ 46 ∷ []

module _ (D : Mdns) where
  pub record ServiceRegistrar : Type 0 where
    pub daemon : D.Daemon
    pub service_type : List ℕ
    pub instance_name : List ℕ
    pub registered : Bool

  abbrev created : List ℕ → List ℕ → Result ℕ D.Daemon → Result DiscoveryError ServiceRegistrar
  created service_type device_name (err e) = err (daemon_creation e)
  created service_type device_name (ok daemon) = ok (record {
    daemon = daemon;
    service_type = service_type;
    instance_name = device_name;
    registered = false;
  })

  unfoldable pub new_registrar : List ℕ → List ℕ → Result DiscoveryError ServiceRegistrar
  new_registrar service_type device_name = created service_type device_name D.new_daemon

  -- The service for a port and a fingerprint, with the local address, if there is one, and the platform
  unfoldable pub service_of :
      Option String → String → ℕ → ℕ → List ℕ → ServiceRegistrar → Advertised
  service_of local_ip platform version port fingerprint self = record {
    service_type = self.service_type;
    instance_name = self.instance_name;
    hostname = sanitized D.is_alphanumeric self.instance_name ++ local_suffix;
    ip = elim local_ip [ none ↦ "0.0.0.0" | some ip ↦ ip ];
    port = port;
    version = version;
    platform = platform;
    fingerprint = hex_encode fingerprint;
  }

  abbrev announced :
      Result ℕ (Unit {0}) × D.Daemon
      → ServiceRegistrar
      → Result DiscoveryError (Unit {0}) × ServiceRegistrar
  announced (err e, daemon) self = (err (registration e), record self { daemon = daemon })
  announced (ok x, daemon) self = (ok tt, record self { daemon = daemon; registered = true })

  abbrev accepted :
      Result ℕ (Unit {0})
      → Advertised
      → ServiceRegistrar
      → Result DiscoveryError (Unit {0}) × ServiceRegistrar
  accepted (err e) service self = (err (registration e), self)
  accepted (ok x) service self = announced (D.register service self.daemon) self

  unfoldable pub register :
      Option String
      → String
      → ℕ
      → ℕ
      → List ℕ
      → ServiceRegistrar
      → Result DiscoveryError (Unit {0}) × ServiceRegistrar
  register local_ip platform version port fingerprint self =
      let service = service_of local_ip platform version port fingerprint self in
      accepted (D.accepts service) service self

  abbrev withdrawn :
      Result ℕ (Unit {0}) × D.Daemon
      → ServiceRegistrar
      → Result DiscoveryError (Unit {0}) × ServiceRegistrar
  withdrawn (err e, daemon) self = (err (registration e), record self { daemon = daemon })
  withdrawn (ok x, daemon) self = (ok tt, record self { daemon = daemon; registered = false })

  unfoldable pub unregister : ServiceRegistrar → Result DiscoveryError (Unit {0}) × ServiceRegistrar
  unregister self =
      if not self.registered
      then (ok tt, self)
      else withdrawn (D.unregister (self.instance_name ++ (46 ∷ self.service_type)) self.daemon)
          self

  withdrawn_clears :
      (r : Result ℕ (Unit {0}) × D.Daemon) (self self' : ServiceRegistrar)
      → withdrawn r self ≡ (ok tt, self')
      → self'.registered ≡ false
  withdrawn_clears (ok x, daemon) self self' h = ap (λ z. z.1.registered) (sym h)
  withdrawn_clears (err e, daemon) self self' h = absurd (ground (arith, h))

  unregister_clears :
      (self self' : ServiceRegistrar) → unregister self ≡ (ok tt, self') → self'.registered ≡ false
  unfolding unregister
  unregister_clears self self' h = elim (Bool-cases self.registered) [
    | inl on ↦
        withdrawn_clears (D.unregister (self.instance_name ++ (46 ∷ self.service_type)) self.daemon)
          self self'
          (ap
              (λ b.
                if not b
                then (ok tt, self)
                else withdrawn
                    (D.unregister (self.instance_name ++ (46 ∷ self.service_type)) self.daemon)
                    self)
              (sym on)
            ∙ h)
    | inr off ↦
        ap (λ z. z.1.registered)
          (sym h
            ∙ ap
                (λ b.
                  if not b
                  then (ok tt, self)
                  else withdrawn
                      (D.unregister (self.instance_name ++ (46 ∷ self.service_type)) self.daemon)
                      self)
                off)
        ∙ off
  ]

  -- Withdrawing twice is withdrawing once: after a success the second call changes nothing.
  unregister_idempotent :
      (self self' : ServiceRegistrar)
      → unregister self ≡ (ok tt, self')
      → unregister self' ≡ (ok tt, self')
  unfolding unregister
  unregister_idempotent self self' h =
      ap
        (λ b.
          if not b
          then (ok tt, self')
          else withdrawn
              (D.unregister (self'.instance_name ++ (46 ∷ self'.service_type)) self'.daemon) self')
        (unregister_clears self self' h)
