-- ===== src/Server/Accepting.antt =====
-- A connection that can be started, from `emailz_handle_accept` of libEmailz/src/emailz.c to the
-- greeting.
use spamass.Base.{
  ℕ, ◌+◌, ◌^◌, ◌/◌, ◌%◌, ◌≤◌, ◌<◌, ◌≡◌, refl, sym, ap, ◌∙◌, Bool, true, false, not, ◌&&◌, Option,
  none, some, List, [], ◌∷◌, ◌++◌, append-nil, append_assoc, Bytes, length, replicate, c_string,
  arith, if◌then◌else◌, Outcome, ok, ◌>>=◌, Returns,
}
use spamass.Command.{no_command}
use spamass.Connection.Start.{
  SockAddr, handle_accept, accepted, emailz_addrstr, count_socket, socket_create, socket_start,
  notify_state, notify_socket, open_if, open_channel,
}
use spamass.Number.Printing.{CountsDigits}
use spamass.Os.{Os}
use spamass.Recording.Name.{IsDate, name_text}
use spamass.Recording.Opened.{
  opening, opened, socket_name, name_socket_lem, record_open_lem, name_text-HasNoNul,
  length-name_text,
}
use spamass.Recording.Path.{path_of}
use spamass.Recording.Steps.{HasNoNul, c_string-zeros}
use spamass.Recording.{name_socket, record_open}
use spamass.Session.Replies.{reply_greeting}
use spamass.Socket.Defs.{
  Emailz, Socket, open_state, Event, queue_socket, io_create, io_read, io_write, emit,
  stop_on_error,
}
use spamass.Socket.Transport.{handle_write, write_to}
use spamass.Tls.{Block, Env}

-- The call that tells the user of a new connection.
abbrev pub told : Option Block → Bool → List Event
told none queue = []
told (some handler) true = queue_socket handler open_state ∷ []
told (some handler) false = []

-- The calls for the record file, if it is asked for.
abbrev pub recorded : Bool → Bytes → Bytes → List Event
recorded true base name = opening base name
recorded false base name = []

-- A connection that has been taken by a server with the fields `emailz`: the user is told, the record
-- file is opened if it is asked for, the channel is made and read, and the client is greeted.
pub record IsAccepted {Context : Type 0} (os : Os) (emailz : Emailz) (name text : Bytes)
    (t : Socket Context) : Type 0 where
  pub trace_eq :
      t.trace
      ≡ (told emailz.socket_handler emailz.handler_queue
          ++ recorded emailz.socket_record emailz.record_base name)
        ++ io_create ∷ io_read ∷ io_write reply_greeting stop_on_error ∷ []
  pub has_channel : t.channel ≡ true
  pub file_eq : t.record_file ≡ (emailz.socket_record && os.fopen (path_of emailz.record_base name))
  pub name_eq : c_string t.record_name ≡ name
  pub addrstr_eq : t.addrstr ≡ text
  pub plain : t.is_secure ≡ false
  pub before_helo : t.state ≡ no_command
  pub counted : t.emailz.sockets_open ≡ (emailz.sockets_open + 1) % 2 ^ 64

trace_lem :
    (calls : List Event) (a b c : Event)
    → ((calls ++ a ∷ []) ++ b ∷ []) ++ c ∷ [] ≡ calls ++ a ∷ b ∷ c ∷ []
trace_lem calls a b c =
    ap (λ t. t ++ c ∷ []) (append_assoc calls (a ∷ []) (b ∷ []))
    ∙ append_assoc calls (a ∷ b ∷ []) (c ∷ [])

module _ {Context : Type 0} where
  notify_if :
      (b : Bool) (handler : Block) (s : Socket Context)
      → (if b then emit s (queue_socket handler open_state) else s)
        ≡ record s { trace = s.trace ++ told (some handler) b }
  notify_if true handler s = refl
  notify_if false handler s = λ i. record s { trace = sym (append-nil s.trace) i }

  notify_state_lem :
      (o : Option Block) (s : Socket Context)
      → notify_state o open_state s ≡ record s { trace = s.trace ++ told o s.handler_queue }
  unfolding notify_state
  notify_state_lem none s = λ i. record s { trace = sym (append-nil s.trace) i }
  notify_state_lem (some handler) s = notify_if s.handler_queue handler s

  started_if :
      (b c : Bool) (s : Socket Context) (m : Outcome (Socket Context × Bool))
      → b ≡ true
      → c ≡ true
      → (if not b then ok (s, false) else if c then m else ok (s, false)) ≡ m
  started_if true true s m e f = refl
  started_if true false s m e f = absurd cc
  started_if false c s m e f = absurd cc

  abbrev opened_if : Bool → Os → Bytes → Socket Context → Socket Context
  opened_if true os name s = opened os name s
  opened_if false os name s = s

  open_if_lem :
      (b : Bool) (os : Os) (name : Bytes) (s : Socket Context)
      → record_open os s ≡ ok (opened os name s, os.fopen (path_of s.emailz.record_base name))
      → open_if b os s ≡ ok (opened_if b os name s)
  unfolding open_if
  open_if_lem true os name s e = rw e refl
  open_if_lem false os name s e = refl

module _ {Context : Type 0} (os : Os) (s : Socket Context) where
  abbrev noted : Socket Context
  noted = record s {
    record_name = socket_name os s ++ replicate 61 0;
    trace = s.trace ++ told s.socket_handler s.handler_queue;
  }

  socket_start_lem :
      (b : Bool)
      → s.queue ≡ true
      → os.set_nodelay s.socketfd ≡ true
      → CountsDigits os.digits
      → IsDate (os.gmtime (s.connect_time / 1000))
      → s.port < 2 ^ 16
      → HasNoNul s.emailz.record_base
      → length s.emailz.record_base ≤ 933
      → s.record_name ≡ replicate 100 0
      → s.record_path ≡ replicate 1000 0
      → socket_start os b s ≡ ok (open_channel (opened_if b os (socket_name os s) noted), true)
  unfolding socket_start
  socket_start_lem b queue nodelay counts date small base room names paths =
      let name = socket_name os s in
      let no_nul =
        name_text-HasNoNul (os.gmtime (s.connect_time / 1000)) s.connect_time s.addr s.port in
      let long =
        length-name_text (os.gmtime (s.connect_time / 1000)) s.connect_time s.addr s.port in
      let open_up : Socket Context → Outcome (Socket Context × Bool) =
        λ u. ok (open_channel u, true) in
      let go_on : Socket Context → Outcome (Socket Context × Bool) =
        λ t. open_if b os (notify_socket open_state t) >>= open_up in
      started_if s.queue (os.set_nodelay s.socketfd) s (name_socket os s >>= go_on) queue nodelay
      ∙ ap (λ m. m >>= go_on) (name_socket_lem os s counts date small names)
      ∙ ap (λ t. open_if b os t >>= open_up)
          (notify_state_lem s.socket_handler (record s { record_name = name ++ replicate 61 0 }))
      ∙ ap (λ m. m >>= open_up)
          (open_if_lem b os name noted
            (record_open_lem os noted name base no_nul long (omega arith) paths refl))

module _ (env : Env) (os : Os) (emailz : Emailz) (now later socketfd : ℕ) (addr : SockAddr)
    (text : Bytes) where
  open env use {Context}

  -- The connection in front of its start.
  abbrev counted_socket : Socket Context
  counted_socket = record (accepted emailz now later socketfd addr) {
    addrstr = text;
    emailz = count_socket emailz;
  }

  abbrev accepted_name : Bytes
  accepted_name = name_text (os.gmtime (now / 1000)) now addr.s_addr addr.sin_port

  greeted :
      (b : Bool)
      → IsAccepted os
          (record emailz { socket_record = b })
          accepted_name
          text
          (handle_write env
            (open_channel (opened_if b os accepted_name (noted os counted_socket)))
            reply_greeting
            stop_on_error)
  unfolding handle_write write_to open_channel socket_create
  greeted true =
      let no_nul = name_text-HasNoNul (os.gmtime (now / 1000)) now addr.s_addr addr.sin_port in
      record {
        trace_eq = trace_lem _ io_create io_read (io_write reply_greeting stop_on_error);
        has_channel = refl;
        file_eq = refl;
        name_eq = c_string-zeros accepted_name 61 no_nul;
        addrstr_eq = refl;
        plain = refl;
        before_helo = refl;
        counted = refl;
      }
  greeted false =
      let no_nul = name_text-HasNoNul (os.gmtime (now / 1000)) now addr.s_addr addr.sin_port in
      let calls = told emailz.socket_handler emailz.handler_queue in
      record {
        trace_eq =
            trace_lem calls io_create io_read (io_write reply_greeting stop_on_error)
            ∙ ap (λ t. t ++ io_create ∷ io_read ∷ io_write reply_greeting stop_on_error ∷ [])
                (sym (append-nil calls));
        has_channel = refl;
        file_eq = refl;
        name_eq = c_string-zeros accepted_name 61 no_nul;
        addrstr_eq = refl;
        plain = refl;
        before_helo = refl;
        counted = refl;
      }

  -- If its address can be printed, the server has a queue for its sockets, the kernel takes the
  -- option, the digits of a positive number are counted as documented and those of zero, where C
  -- leaves the conversion of minus infinity undefined, come out as one at most, the date and the
  -- port are in their ranges, and the directory for the records has no NUL and at most 933 bytes, a
  -- new connection is taken and counted, with a name that tells its date, address and port: the
  -- user is told if there are a handler and a queue, the record file is opened if it is asked for,
  -- and then there are the channel, its read handler and the greeting.
  pub handle_accept-IsAccepted :
      emailz_addrstr os addr.s_addr addr.sin_family (replicate 46 0) ≡ ok text
      → emailz.socket_queue ≡ true
      → os.set_nodelay socketfd ≡ true
      → CountsDigits os.digits
      → IsDate (os.gmtime (now / 1000))
      → addr.sin_port < 2 ^ 16
      → HasNoNul emailz.record_base
      → length emailz.record_base ≤ 933
      → Returns
          (handle_accept env os emailz now later socketfd addr)
          (IsAccepted os emailz accepted_name text)
  unfolding handle_accept socket_create
  handle_accept-IsAccepted printed queue nodelay counts date small base room =
      rw
        (
          printed,
          socket_start_lem os counted_socket emailz.socket_record queue nodelay counts date small
              base room refl refl,
        )
        (greeted emailz.socket_record)
