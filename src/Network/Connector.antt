-- ===== src/Network/Connector.antt =====
-- crates/justdrop-network/src/connector.rs: a connection with a timeout, and with retries. What the calls
-- of the system meet is an argument: the outcome of each of them in turn.
pub mod Retries
use just_drop.Base.{
  ℕ, zero, suc, ◌+◌, Bool, Option, none, some, Result, ok, err, if◌then◌else◌, ltb,
}
use just_drop.Core.Config.{NetworkConfig}

-- `NetworkError`, as far as it is returned here, with the code of a `std::io::Error`
pub data ConnectError : Type 0 where
  timeout : ConnectError
  connection_failed : ℕ → ConnectError
  io : ℕ → ConnectError

-- What one `TcpStream::connect` ends with, in the time that is given, and then `set_nodelay`
pub data Dialed (Stream : Type 0) : Type 0 where
  timed_out : Dialed Stream
  refused : ℕ → Dialed Stream
  -- with what setting the option returns
  dialed : Stream → Result ℕ (Unit {0}) → Dialed Stream

-- The calls made: connections tried, and seconds slept
pub record Calls : Type 0 where
  pub dials : ℕ
  pub slept : ℕ

module _ {Stream : Type 0} (dial : ℕ → ℕ → Bool → Dialed Stream) where
  abbrev pub tuned : Stream → Result ℕ (Unit {0}) → Result ConnectError Stream
  tuned stream (ok x) = ok stream
  tuned stream (err e) = err (io e)

  abbrev pub connected : Dialed Stream → Result ConnectError Stream
  connected timed_out = err timeout
  connected (refused e) = err (connection_failed e)
  connected (dialed stream nodelay) = tuned stream nodelay

  -- `connect`: the outcome depends on the call's number, the timeout and the option.
  unfoldable pub connect : NetworkConfig → Calls → Result ConnectError Stream × Calls
  connect config w = (
    connected (dial w.dials config.connect_timeout_secs config.tcp_nodelay),
    record w { dials = suc w.dials },
  )

  abbrev pub last_or_timeout : Option ConnectError → ConnectError
  last_or_timeout none = timeout
  last_or_timeout (some e) = e

  abbrev pub or_retry :
      Result ConnectError Stream × Calls
      → (Option ConnectError → Calls → Result ConnectError Stream × Calls)
      → Result ConnectError Stream × Calls
  or_retry (ok stream, w) retry = (ok stream, w)
  or_retry (err e, w) retry = retry (some e) w

  abbrev pub sleep_before : ℕ → ℕ → Calls → Calls
  sleep_before attempt delay w = if ltb 0 attempt then record w { slept = w.slept + delay } else w

  -- `n` attempts from the given one on
  unfoldable pub attempts :
      NetworkConfig → ℕ → ℕ → ℕ → Option ConnectError → Calls → Result ConnectError Stream × Calls
  attempts config delay zero attempt last_err w = (err (last_or_timeout last_err), w)
  attempts config delay (suc n) attempt last_err w =
      or_retry (connect config (sleep_before attempt delay w))
        (attempts config delay n (suc attempt))

  -- `connect_with_retry`
  unfoldable pub connect_with_retry :
      NetworkConfig → ℕ → ℕ → Calls → Result ConnectError Stream × Calls
  connect_with_retry config max_retries retry_delay w =
      attempts config retry_delay (suc max_retries) 0 none w
