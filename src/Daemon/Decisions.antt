-- ===== src/Daemon/Decisions.antt =====
-- What the two programs decide on a request that comes in.
use just_drop.Base.{◌≡◌, if◌then◌else◌, arith}
use just_drop.Core.Config.{Config}
use just_drop.Storage.Files.{Files}
use just_drop.Protocol.Receive.{Setting, accept, reject, decide}
use just_drop.Ffi.Legacy.{decision}
use just_drop.Daemon.{offered}

-- The daemon accepts every request or rejects every one, as `auto_accept_all` says, since without it
-- no decision is ever made; the library for C accepts every one, whatever the setting says. Each gives
-- the receiver its own configuration.
pub decide-offered :
    (F : Files) (X : Setting F.Fs) (config : Config)
    → X.auto_accept_all ≡ config.security.auto_accept_all
    → (decide F X (offered config)
        ≡ (if config.security.auto_accept_all then accept else reject "no response"))
      × (decide F X decision ≡ accept)
unfolding decide offered decision
decide-offered F X config h = (ground (arith, h), ground arith)
