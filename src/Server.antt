-- ===== src/Server.antt =====
-- The server: `emailz_create`, `_start`, `_stop`, `_destroy` and its setters of
-- libEmailz/src/emailz.c, and the connections that belong to it.
pub mod Count
pub mod Open
pub mod Changes
pub mod Accepted
pub mod Starting
pub mod Accepting
use spamass.Base.{
  ℕ, Bool, true, false, not, ◌&&◌, Option, none, some, List, [], ◌∷◌, ◌++◌, Bytes, length, leb,
  if◌then◌else◌, Outcome, ok, ◌>>=◌,
}
use spamass.Connection.{on_read}
use spamass.Connection.Handlers.{released, copied}
use spamass.Connection.Start.{SockAddr, handle_accept, on_cleanup}
use spamass.Dispatch.{DispatchData}
use spamass.Os.{Os}
use spamass.Listener.{Listener, Kernel, listener_create, set_accept_handler, listener_start}
use spamass.Socket.Defs.{Emailz, Event, Socket}
use spamass.Tls.{Block, Env}

-- What becomes of the key file: whether `CFDataCreate`, `SecPKCS12Import` and `CFArrayCreate`
-- succeed.
pub record KeyFile : Type 0 where
  pub data_created : Bool
  pub imported : Bool
  pub array_created : Bool

-- The calls on the key file.
pub data KeyCall : Type 0 where
  open_key map_key unmap_key close_key : KeyCall

-- `struct emailz_s` with its listeners, the connections that point to it, and the calls so far. Each
-- connection has the server's own fields as its `emailz`; `emailz` here is what they all point to.
pub record Server (Context : Type 0) : Type 0 where
  pub emailz : Emailz
  pub smtp_v4_listener : Option Listener
  pub smtp_tls_v4_listener : Option Listener
  pub sockets : List (Socket Context)
  pub trace : List Event
  pub key_calls : List KeyCall

-- The block that both listeners call, by its address.
abbrev pub accept_block : Block
accept_block = 0

-- All zero.
unfoldable pub emailz_zero : Emailz
emailz_zero = record {
  socket_handler = none;
  handler_queue = false;
  socket_record = false;
  record_base = [];
  listener_queue = false;
  socket_queue = false;
  has_identity = false;
  bytes_rcvd = 0;
  bytes_sent = 0;
  sockets_open = 0;
  sockets_total = 0;
}

-- One of the two blocks of `emailz_start` that make a listener; the result of the start is dropped.
unfoldable pub make_listener : Kernel → ℕ → Emailz → Listener
unfolding listener_create set_accept_handler listener_start
make_listener kernel port emailz =
    (listener_start kernel (
      set_accept_handler (some accept_block)
        (listener_create emailz.listener_queue emailz.handler_queue port))).0

module _ {Context : Type 0} where
  -- `emailz_create`.
  unfoldable pub emailz_create : Server Context
  unfolding emailz_zero
  emailz_create = record {
    emailz = emailz_zero;
    smtp_v4_listener = none;
    smtp_tls_v4_listener = none;
    sockets = [];
    trace = [];
    key_calls = [];
  }

  -- `emailz_destroy` and `emailz_stop`, which are not implemented.
  unfoldable pub emailz_destroy : Server Context → Server Context
  emailz_destroy v = v

  unfoldable pub emailz_stop : Server Context → Server Context × Bool
  emailz_stop v = (v, true)

  -- `emailz_set_handler_queue`.
  unfoldable pub set_handler_queue : Bool → Server Context → Server Context
  set_handler_queue queue v = record v { emailz = record v.emailz { handler_queue = queue } }

  -- `emailz_set_socket_handler`.
  unfoldable pub set_socket_handler : Option Block → Server Context → Server Context
  set_socket_handler handler v = record v {
    trace = copied handler (released v.emailz.socket_handler v.trace);
    emailz = record v.emailz { socket_handler = handler };
  }

  -- `emailz_record_enable`, on a text that ends in a NUL; `record_base` has 1000 bytes.
  unfoldable pub record_enable : Bool → Bytes → Server Context → Server Context
  record_enable enable base v =
      let enabled = record v.emailz { socket_record = enable } in
      record v {
        emailz = if leb 1000 (length base) then enabled else record enabled { record_base = base };
      }

  -- `emailz_start` once the key is there.
  unfoldable pub start_listeners : Kernel → Kernel → Server Context → Server Context
  start_listeners smtp tls v =
      let identified = record v.emailz { has_identity = true } in
      record v {
        emailz = identified;
        smtp_v4_listener = some (make_listener smtp 10025 identified);
        smtp_tls_v4_listener = some (make_listener tls 10587 identified);
      }

  -- `emailz_start`, with what the kernel says to the one listener and to the other.
  unfoldable pub emailz_start : KeyFile → Kernel → Kernel → Server Context → Server Context × Bool
  unfolding start_listeners
  emailz_start key smtp tls v =
      let queued = record v {
        emailz = record v.emailz { listener_queue = true; socket_queue = true };
        key_calls = v.key_calls ++ open_key ∷ map_key ∷ [];
      } in
      let read = record queued { key_calls = queued.key_calls ++ unmap_key ∷ close_key ∷ [] } in
      if not key.data_created
      then (queued, false)
      else if not key.imported
      then (read, false)
      else if not key.array_created
      then (read, false)
      else (start_listeners smtp tls read, true)

  -- `main` of SpamassCLI/SpamassCLI/main.c, up to `dispatch_main`; the result of the start is dropped.
  unfoldable pub main : KeyFile → Kernel → Kernel → Server Context
  unfolding emailz_create emailz_start
  main key smtp tls = (emailz_start key smtp tls emailz_create).0

  -- A connection whose `emailz` is the server's.
  abbrev pub attached : Server Context → Socket Context → Socket Context
  attached v s = record s { emailz = v.emailz }

  -- The clean-up block of the connection `s` runs, which is the last of it; `rest` are the others. The
  -- block is one step here: in the source its `sockets_open -= 1` runs on a concurrent queue, and
  -- nothing keeps it apart from another block's or from the `sockets_open += 1` of a new connection.
  unfoldable pub cleanup_socket :
      Server Context → Socket Context → List (Socket Context) → Server Context
  unfolding on_cleanup
  cleanup_socket v s rest = record v { emailz = (on_cleanup (attached v s)).emailz; sockets = rest }

module _ (env : Env) where
  open env use {Context}

  -- The block that both listeners call: the new connection joins the others. It is one step here, its
  -- `sockets_open += 1` included, which nothing in the source keeps apart from a clean-up block.
  unfoldable pub accept_socket :
      Os → Server Context → ℕ → ℕ → ℕ → SockAddr → Outcome (Server Context)
  unfolding handle_accept
  accept_socket os v now later socketfd addr = do
    s ← handle_accept env os v.emailz now later socketfd addr
    ok (record v { emailz = s.emailz; sockets = v.sockets ++ s ∷ [] })

  -- The read handler of the connection `s` runs, which stands behind `before` and in front of `after`.
  unfoldable pub read_socket :
      ℕ
      → Bool
      → Option DispatchData
      → ℕ
      → ℕ
      → ℕ
      → Server Context
      → List (Socket Context)
      → Socket Context
      → List (Socket Context)
      → Outcome (Server Context)
  unfolding on_read
  read_socket fuel over received error now later v before s after = do
    t ← on_read env fuel over received error now later (attached v s)
    ok (record v { emailz = t.emailz; sockets = before ++ t ∷ after })
