-- ===== src/Connection/Start.antt =====
-- The beginning and the end of a connection: `emailz_socket_create`, `emailz_socket_start` with the
-- clean-up block of its channel, `emailz_addrstr` and `emailz_handle_accept` of
-- libEmailz/src/emailz.c.
use spamass.Base.{
  ℕ, ◌+◌, ◌-◌, ◌*◌, ◌/◌, ◌^◌, ◌%◌, Bool, true, false, not, Option, none, some, [], ◌++◌, Bytes,
  replicate, if◌then◌else◌, Outcome, ok, ◌>>=◌,
}
use spamass.Command.{no_command}
use spamass.Connection.Handlers.{socket_destroy}
use spamass.Cursor.{puts, terminate, ◌then◌}
use spamass.Os.{Os}
use spamass.Recording.{name_socket, record_open}
use spamass.Session.Replies.{reply_greeting}
use spamass.Socket.Defs.{
  Emailz, Socket, SocketState, open_state, close_state, queue_socket, io_create, io_read, emit,
  stop_on_error,
}
use spamass.Socket.Transport.{handle_write}
use spamass.Tls.{Block, Env}

-- `struct sockaddr_in`: `s_addr` as `ntohl` gives it, `sin_port` as it is stored.
pub record SockAddr : Type 0 where
  pub sin_family : ℕ
  pub s_addr : ℕ
  pub sin_port : ℕ

-- The text of the address in an array, or the array as it was.
unfoldable pub write_addrstr : Option Bytes → Bytes → Outcome Bytes
unfolding puts terminate
write_addrstr none addrstr = ok addrstr
write_addrstr (some text) addrstr = do
  p ← (puts text then terminate) (record { before = []; after = addrstr })
  ok (p.before ++ p.after)

-- `emailz_addrstr`.
abbrev pub emailz_addrstr : Os → ℕ → ℕ → Bytes → Outcome Bytes
emailz_addrstr os addr family = write_addrstr (os.inet_ntop family addr)

-- `emailz_current_time_millis`, on what `gettimeofday` gives.
abbrev pub current_time_millis : ℕ → ℕ → ℕ
current_time_millis tv_sec tv_usec = tv_sec * 1000 + tv_usec / 1000

-- The counters of the server when there is one more connection.
abbrev pub count_socket : Emailz → Emailz
count_socket emailz = record emailz {
  sockets_open = (emailz.sockets_open + 1) % 2 ^ 64;
  sockets_total = (emailz.sockets_total + 1) % 2 ^ 64;
}

module _ {Context : Type 0} where
  -- `emailz_socket_create`, on the two readings of the clock; the rest is zero.
  unfoldable pub socket_create : Emailz → ℕ → ℕ → Socket Context
  socket_create emailz now later = record {
    emailz = emailz;
    socket_handler = none;
    smtp_handler = none;
    auth_handler = none;
    header_handler = none;
    data_handler = none;
    smtp_handler_mask = 0;
    handler_queue = false;
    channel = false;
    queue = emailz.socket_queue;
    indata = [];
    tmpdata = [];
    inbytes = 0;
    outbytes = 0;
    connect_time = now;
    last_read_time = later;
    state = no_command;
    email_size = 0;
    line = [];
    cmnd = [];
    lineoff = 0;
    linelen = 0;
    cmndlen = 0;
    socketfd = 0;
    addr = 0;
    port = 0;
    addrstr = replicate 46 0;
    stop = false;
    sslcontext = none;
    peerid_addr = 0;
    peerid_port = 0;
    is_handshaking = false;
    is_secure = false;
    has_identity = false;
    record_path = replicate 1000 0;
    record_name = replicate 100 0;
    record_file = false;
    trace = [];
  }

  -- The assignments of `emailz_handle_accept` in front of the call of `emailz_addrstr`.
  abbrev pub accepted : Emailz → ℕ → ℕ → ℕ → SockAddr → Socket Context
  accepted emailz now later socketfd addr = record (socket_create emailz now later) {
    socketfd = socketfd;
    addr = addr.s_addr;
    port = addr.sin_port;
    socket_handler = emailz.socket_handler;
    handler_queue = emailz.handler_queue;
    has_identity = emailz.has_identity;
    peerid_addr = addr.s_addr;
    peerid_port = addr.sin_port;
  }

  -- The call of the socket handler, if there are a handler and a queue.
  unfoldable pub notify_state : Option Block → SocketState → Socket Context → Socket Context
  notify_state none state s = s
  notify_state (some handler) state s =
      if s.handler_queue then emit s (queue_socket handler state) else s

  abbrev pub notify_socket : SocketState → Socket Context → Socket Context
  notify_socket state s = notify_state s.socket_handler state s

  -- The record file is opened if it is asked for; that it cannot be is only logged.
  unfoldable pub open_if : Bool → Os → Socket Context → Outcome (Socket Context)
  unfolding record_open
  open_if true os s = do (s', opened) ← record_open os s; ok s'
  open_if false os s = ok s

  -- The data objects and the channel, and the read that has `on_read` for its handler.
  unfoldable pub open_channel : Socket Context → Socket Context
  open_channel s =
      emit (emit (record s { indata = []; tmpdata = []; channel = true }) io_create) io_read

  -- `emailz_socket_start`; the flag is its result.
  unfoldable pub socket_start : Os → Bool → Socket Context → Outcome (Socket Context × Bool)
  unfolding name_socket open_if notify_state open_channel
  socket_start os record_it s =
      let started = do
        named ← name_socket os s
        opened ← open_if record_it os (notify_socket open_state named)
        ok (open_channel opened, true)
      in if not s.queue
        then ok (s, false)
        else if os.set_nodelay s.socketfd
        then started
        else ok (s, false)

  -- The clean-up block of the channel.
  unfoldable pub on_cleanup : Socket Context → Socket Context
  unfolding notify_state socket_destroy
  on_cleanup s =
      let told = notify_socket close_state s in
      let emailz = told.emailz in
      socket_destroy (record told {
        emailz = record emailz { sockets_open = (emailz.sockets_open + (2 ^ 64 - 1)) % 2 ^ 64 };
      })

module _ (env : Env) where
  open env use {Context}

  -- `emailz_handle_accept`, on the two readings of the clock.
  unfoldable pub handle_accept : Os → Emailz → ℕ → ℕ → ℕ → SockAddr → Outcome (Socket Context)
  unfolding socket_create write_addrstr socket_start handle_write
  handle_accept os emailz now later socketfd addr = do
    let s = accepted emailz now later socketfd addr
    text ← emailz_addrstr os addr.s_addr addr.sin_family s.addrstr
    let counted = record s { addrstr = text; emailz = count_socket emailz }
    (started, success) ← socket_start os emailz.socket_record counted
    ok (handle_write env started reply_greeting stop_on_error)
