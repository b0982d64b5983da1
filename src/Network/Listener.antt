-- ===== src/Network/Listener.antt =====
-- crates/justdrop-network/src/listener.rs: the calls that set the listening socket up, in order; what
-- each ends with is an argument.
use just_drop.Base.{ℕ, String, Bool, List, [], ◌∷◌, Option, none, some, Result, ok, err}
use just_drop.Core.Config.{NetworkConfig}

-- A call of `socket2` or `tokio`, with what it sets
pub data Call : Type 0 where
  new_socket : Call
  set_reuse_address : Bool → Call
  set_nodelay : Bool → Call
  set_send_buffer_size : ℕ → Call
  set_recv_buffer_size : ℕ → Call
  -- the port, on all addresses
  bind_address : ℕ → Call
  -- the backlog
  listen : ℕ → Call
  set_nonblocking : Bool → Call
  from_std : Call
  local_addr : Call

-- `NetworkError`, as far as it is returned here, with the code of a `std::io::Error`
pub data ListenError : Type 0 where
  bind_failed : ℕ → ℕ → ListenError
  io : ℕ → ListenError

pub record TransferListener : Type 0 where
  pub local_addr : String

abbrev pub calls_of : NetworkConfig → List Call
calls_of config =
    new_socket
    ∷ set_reuse_address Bool.true
    ∷ set_nodelay config.tcp_nodelay
    ∷ set_send_buffer_size config.send_buffer_size
    ∷ set_recv_buffer_size config.recv_buffer_size
    ∷ bind_address config.listen_port
    ∷ listen 128
    ∷ set_nonblocking Bool.true
    ∷ from_std
    ∷ local_addr
    ∷ []

module _ (outcome : Call → Option ℕ) (addr : String) where
  -- The calls in turn until one fails: the error's code, and the calls made
  unfoldable pub run_calls : List Call → Option ℕ × List Call
  run_calls [] = (none, [])
  run_calls (c ∷ cs) =
      let rest = run_calls cs in
      elim (outcome c) [ none ↦ (rest.0, c ∷ rest.1) | some e ↦ (some e, c ∷ []) ]

  abbrev pub listener_or : ℕ → Option ℕ → Result ListenError TransferListener
  listener_or port none = ok (record { local_addr = addr })
  listener_or port (some e) = err (bind_failed port e)

  unfoldable pub bind : NetworkConfig → Result ListenError TransferListener
  unfolding run_calls
  bind config = listener_or config.listen_port (run_calls (calls_of config)).0

-- `accept` and `tune_stream`: an error is passed on.
unfoldable pub accept : {Stream : Type 0} → Result ℕ Stream → Result ListenError Stream
accept (ok stream) = ok stream
accept (err e) = err (io e)

unfoldable pub tune_stream :
    (Bool → Result ℕ (Unit {0})) → NetworkConfig → Result ListenError (Unit {0})
tune_stream set config = elim (set config.tcp_nodelay) [ ok x ↦ ok tt | err e ↦ err (io e) ]
