-- ===== src/Socket/Defs.antt =====
-- The state of a connection, and the calls it makes.
use spamass.Base.{ℕ, Bool, true, false, Option, none, some, List, [], ◌∷◌, ◌++◌, Bytes}
use spamass.Command.{Command}
use spamass.Dispatch.{DispatchData}
use spamass.Tls.{Block}

-- `emailz_socket_state_t`.
pub data SocketState : Type 0 where
  open_state close_state : SocketState

-- What the completion handler of a write does: by default it stops the socket on an error; the
-- reply to QUIT stops it in any case.
pub data Completion : Type 0 where
  stop_on_error stop_when_done : Completion

-- A call of the system, or of a block of the user. `queue_` is `dispatch_async` on the user's
-- queue; `call_auth` is `dispatch_sync`.
pub data Event : Type 0 where
  io_write : Bytes → Completion → Event
  io_close : Event
  fd_close : ℕ → Event
  file_write : Bytes → Event
  file_close : Event
  queue_smtp : Block → Command → Bytes → Event
  -- `none` is a NULL pointer with length 0
  queue_data : Block → Option Bytes → Bool → Event
  call_auth : Block → Bytes → Bytes → Event
  queue_socket : Block → SocketState → Event
  block_copy block_release : Block → Event
  io_release ssl_dispose data_release free_socket : Event
  make_directory file_open : Bytes → Event
  io_create io_read : Event

-- `struct emailz_s`; queues, listeners and the certificate by their presence.
pub record Emailz : Type 0 where
  pub socket_handler : Option Block
  pub handler_queue : Bool
  pub socket_record : Bool
  pub record_base : Bytes
  pub listener_queue : Bool
  pub socket_queue : Bool
  pub has_identity : Bool
  pub bytes_rcvd : ℕ
  pub bytes_sent : ℕ
  pub sockets_open : ℕ
  pub sockets_total : ℕ

-- `struct emailz_socket_s`. `line` and `cmnd` hold the bytes before the terminator.
pub record Socket (Context : Type 0) : Type 0 where
  pub emailz : Emailz
  pub socket_handler : Option Block
  pub smtp_handler : Option Block
  pub auth_handler : Option Block
  pub header_handler : Option Block
  pub data_handler : Option Block
  pub smtp_handler_mask : ℕ
  pub handler_queue : Bool
  pub channel : Bool
  pub queue : Bool
  pub indata : DispatchData
  pub tmpdata : DispatchData
  pub inbytes : ℕ
  pub outbytes : ℕ
  pub connect_time : ℕ
  pub last_read_time : ℕ
  pub state : Command
  pub email_size : ℕ
  pub line : Bytes
  pub cmnd : Bytes
  pub lineoff : ℕ
  pub linelen : ℕ
  pub cmndlen : ℕ
  pub socketfd : ℕ
  pub addr : ℕ
  pub port : ℕ
  pub addrstr : Bytes
  pub stop : Bool
  pub sslcontext : Option Context
  pub peerid_addr : ℕ
  pub peerid_port : ℕ
  pub is_handshaking : Bool
  pub is_secure : Bool
  pub has_identity : Bool
  pub record_path : Bytes
  pub record_name : Bytes
  -- whether `record` is an open file
  pub record_file : Bool
  -- all calls so far, in order
  pub trace : List Event

-- Another call.
abbrev pub emit : {Context : Type 0} → Socket Context → Event → Socket Context
emit s e = record s { trace = s.trace ++ e ∷ [] }

abbrev pub is_some {ℓ} : {A : Type ℓ} → Option A → Bool
is_some none = false
is_some (some a) = true
