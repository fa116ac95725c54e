-- ===== src/Listener.antt =====
-- The listeners of libEmailz/src/emailz.c: `emailz_listener_create`, `_start`, `_stop` and
-- `_set_accept_handler`, and the event handler that takes a connection.
pub mod Sockets
use spamass.Base.{
  ℕ, Bool, true, false, not, Option, none, some, List, [], ◌∷◌, ◌++◌, ◌==◌, if◌then◌else◌,
}
use spamass.Connection.Start.{SockAddr}
use spamass.Tls.{Block}

-- A call of the kernel, of libdispatch or of a block.
pub data Call : Type 0 where
  open_listening close_listening watch : ℕ → Call
  copy_accept release_accept : Block → Call
  -- `dispatch_async` on the handler's queue; `none` is the -1 of a failed `accept`
  queue_accept : Block → Option ℕ → SockAddr → Call

-- `struct emailz_listener_s`; queues and the source by their presence.
pub record Listener : Type 0 where
  pub accept_handler : Option Block
  pub handler_queue : Bool
  pub queue : Bool
  pub source : Bool
  pub socketfd : ℕ
  pub addr_port : ℕ
  pub port : ℕ
  pub inconns : ℕ
  -- all calls so far
  pub calls : List Call

-- What the kernel says to the calls of `emailz_listener_start`.
pub record Kernel : Type 0 where
  -- `none` is -1
  pub socket : Option ℕ
  pub reuse : Bool
  pub nodelay : Bool
  pub bind : Bool
  pub listen : Bool

abbrev pub call : Listener → Call → Listener
call l c = record l { calls = l.calls ++ c ∷ [] }

-- `emailz_listener_create`, with the queues of the server.
unfoldable pub listener_create : Bool → Bool → ℕ → Listener
listener_create listener_queue handler_queue port = record {
  accept_handler = none;
  handler_queue = handler_queue;
  queue = listener_queue;
  source = false;
  socketfd = 0;
  addr_port = 0;
  port = port;
  inconns = 0;
  calls = [];
}

-- `emailz_listener_set_accept_handler`.
unfoldable pub release_old : Option Block → Listener → Listener
release_old none l = l
release_old (some handler) l = record (call l (release_accept handler)) { accept_handler = none }

unfoldable pub install : Option Block → Listener → Listener
install none l = l
install (some handler) l = record (call l (copy_accept handler)) { accept_handler = some handler }

unfoldable pub set_accept_handler : Option Block → Listener → Listener
unfolding release_old install
set_accept_handler handler l = install handler (release_old l.accept_handler l)

-- The label `fail`.
abbrev fail : ℕ → Listener → Listener × Bool
fail sock l = (call l (close_listening sock), false)

-- `emailz_listener_start` behind the call of `socket`.
unfoldable pub start_on : Kernel → ℕ → Listener → Listener × Bool
start_on kernel sock l =
    if not kernel.reuse
    then fail sock l
    else if not kernel.nodelay
    then fail sock l
    else if not kernel.bind
    then fail sock l
    else if not kernel.listen
    then fail sock l
    else (call (record l { socketfd = sock; addr_port = l.port; source = true }) (watch sock), true)

unfoldable pub start_with : Option ℕ → Kernel → Listener → Listener × Bool
unfolding start_on
start_with none kernel l = (l, false)
start_with (some sock) kernel l = start_on kernel sock (call l (open_listening sock))

-- `emailz_listener_start`.
unfoldable pub listener_start : Kernel → Listener → Listener × Bool
unfolding start_with
listener_start kernel l = start_with kernel.socket kernel l

-- `emailz_listener_stop`, which is not implemented.
unfoldable pub listener_stop : Listener → Listener × Bool
listener_stop l = (l, false)

-- `if (sock)` on the result of `accept`.
abbrev pub is_truthy : Option ℕ → Bool
is_truthy none = true
is_truthy (some sock) = not (sock == 0)

unfoldable pub notify_accept : Option Block → Option ℕ → SockAddr → Listener → Listener
notify_accept none sock addr l = l
notify_accept (some handler) sock addr l =
    if l.handler_queue then call l (queue_accept handler sock addr) else l

-- The event handler of the source, on what `accept` gives.
unfoldable pub on_readable : Option ℕ → SockAddr → Listener → Listener
unfolding notify_accept
on_readable sock addr l = if is_truthy sock then notify_accept l.accept_handler sock addr l else l
