-- ===== src/Session/View.antt =====
-- What the protocol sees of a socket. The transport (writing, encrypting, recording, stopping) leaves
-- it alone.
use spamass.Base.{
  ℕ, Bool, true, false, Option, none, some, List, [], ◌∷◌, ◌++◌, Bytes, ◌≡◌, refl, ◌∙◌, append-nil,
  length, take, if◌then◌else◌, Bool-cases, inl, inr, ◌==◌,
}
use spamass.Command.{Command}
use spamass.Dispatch.{DispatchData, contents}
use spamass.Dispatch
use spamass.Socket.Defs.{
  Event, io_write, io_close, fd_close, file_write, file_close, queue_smtp, queue_data, call_auth,
  queue_socket, Socket, emit, Completion, stop_on_error,
}
use spamass.Socket.Transport.{
  sslsocket_read, sslsocket_write, run_ssl, record_close, record_region, record_data, close_ssl,
  socket_stop, handle_write, write_to, setup_with, after_first_handshake, configure,
  configure_calls, first_handshake, setup_ssl,
}
use spamass.Tls.{Block, SslIo, done, recv, send, Env, OsStatus, no_err}

-- The calls of the user's blocks.
abbrev pub user_calls : List Event → List Event
user_calls [] = []
user_calls (queue_smtp h c a ∷ es) = queue_smtp h c a ∷ user_calls es
user_calls (queue_data h b d ∷ es) = queue_data h b d ∷ user_calls es
user_calls (call_auth h u p ∷ es) = call_auth h u p ∷ user_calls es
user_calls (queue_socket h s ∷ es) = queue_socket h s ∷ user_calls es
user_calls (_ ∷ es) = user_calls es

pub user_calls-append :
    (xs ys : List Event) → user_calls (xs ++ ys) ≡ user_calls xs ++ user_calls ys
user_calls-append [] ys = refl
user_calls-append (queue_smtp h c a ∷ es) ys = rw (user_calls-append es ys)
user_calls-append (queue_data h b d ∷ es) ys = rw (user_calls-append es ys)
user_calls-append (call_auth h u p ∷ es) ys = rw (user_calls-append es ys)
user_calls-append (queue_socket h s ∷ es) ys = rw (user_calls-append es ys)
user_calls-append (_ ∷ es) ys = user_calls-append es ys

pub record View : Type 0 where
  -- the bytes not yet read, however they lie in memory
  pub unread : Bytes
  pub state : Command
  pub email_size : ℕ
  pub is_secure : Bool
  pub handler_queue : Bool
  pub data_handler : Option Block
  pub smtp_handler : Option Block
  pub auth_handler : Option Block
  pub smtp_handler_mask : ℕ
  pub line : Bytes
  pub linelen : ℕ
  pub lineoff : ℕ
  pub cmnd : Bytes
  pub cmndlen : ℕ
  -- of the server
  pub sockets_open : ℕ
  pub calls : List Event

module _ {Context : Type 0} where
  abbrev pub view : Socket Context → View
  view s = record {
    unread = contents s.indata;
    state = s.state;
    email_size = s.email_size;
    is_secure = s.is_secure;
    handler_queue = s.handler_queue;
    data_handler = s.data_handler;
    smtp_handler = s.smtp_handler;
    auth_handler = s.auth_handler;
    smtp_handler_mask = s.smtp_handler_mask;
    line = s.line;
    linelen = s.linelen;
    lineoff = s.lineoff;
    cmnd = s.cmnd;
    cmndlen = s.cmndlen;
    sockets_open = s.emailz.sockets_open;
    calls = user_calls s.trace;
  }

  -- A call of the system is none of the user's.
  pub view-emit :
      (s : Socket Context) (e : Event) → user_calls (e ∷ []) ≡ [] → view (emit s e) ≡ view s
  view-emit s e none_of = rw (user_calls-append s.trace (e ∷ []), none_of, append-nil)

  view-sslsocket_write : (s : Socket Context) (b : Bytes) → view (sslsocket_write s b).1 ≡ view s
  unfolding sslsocket_write
  view-sslsocket_write s b = elim (Bool-cases s.channel) [
    | inl is_open ↦ rw is_open (view-emit s (io_write b stop_on_error) refl)
    | inr closed ↦ rw closed
  ]

  pub view-run_ssl :
      {A : Type 0} (io : SslIo A) (s : Socket Context) → view (run_ssl io s).1 ≡ view s
  unfolding run_ssl
  view-run_ssl (done a) s = refl
  view-run_ssl (recv n k) s = view-run_ssl (k _ _ _) (sslsocket_read s n).1
  view-run_ssl (send b k) s = view-run_ssl (k _) (sslsocket_write s b).1 ∙ view-sslsocket_write s b

  view-record_close : (s : Socket Context) → view (record_close s) ≡ view s
  unfolding record_close
  view-record_close s = elim (Bool-cases s.record_file) [
    | inl is_open ↦ rw is_open (view-emit s file_close refl)
    | inr closed ↦ rw closed
  ]

module _ {Context : Type 0} {v : View} where
  pub view-if :
      (b : Bool) (x y : Socket Context) → view x ≡ v → view y ≡ v → view (if b then x else y) ≡ v
  view-if true x y p q = p
  view-if false x y p q = q

module _ (env : Env) where
  open env use {Context}

  view-close_ssl : (o : Option Context) (s : Socket Context) → view (close_ssl env o s) ≡ view s
  unfolding close_ssl
  view-close_ssl none s = refl
  view-close_ssl (some context) s = view-run_ssl (env.ssl_close context) s

  pub view-socket_stop : (s : Socket Context) → view (socket_stop env s) ≡ view s
  unfolding socket_stop
  view-socket_stop s =
      let stopped = record s { stop = true } in
      let closed =
        if s.channel then emit (close_ssl env s.sslcontext stopped) io_close else stopped in
      view-record_close _
      ∙ view-if (s.socketfd == 0) _ _ refl (
          view-emit closed (fd_close s.socketfd) refl
          ∙ view-if s.channel _ _
              (view-emit (close_ssl env s.sslcontext stopped) io_close refl
                ∙ view-close_ssl s.sslcontext stopped)
              refl)

  view-record_region : (s : Socket Context) (r : Bytes) → view (record_region env s r).0 ≡ view s
  view-record_region s r =
      let written = emit s (file_write (take (env.fwrite r) r)) in
      view-if (length r == env.fwrite r) _ _ refl (view-record_close written)
      ∙ view-emit s (file_write (take (env.fwrite r) r)) refl

  view-apply-record :
      (s : Socket Context) (d : DispatchData)
      → view (Dispatch.apply (record_region env) s d) ≡ view s
  unfolding Dispatch.apply
  view-apply-record s [] = refl
  view-apply-record s (r ∷ d) =
      view-if (record_region env s r).1 _ _ (view-apply-record (record_region env s r).0 d) refl
      ∙ view-record_region s r

  pub view-record_data :
      (s : Socket Context) (d : DispatchData) → view (record_data env s d) ≡ view s
  unfolding record_data
  view-record_data s d = view-if s.record_file _ _ (view-apply-record s d) refl

  view-write_to :
      (o : Option Context) (s : Socket Context) (b : Bytes) (c : Completion)
      → view (write_to env o s b c) ≡ view s
  unfolding write_to
  view-write_to none s b c = view-emit s (io_write b c) refl
  view-write_to (some context) s b c = view-run_ssl (env.ssl_write context b) s

  pub view-handle_write :
      (s : Socket Context) (b : Bytes) (c : Completion) → view (handle_write env s b c) ≡ view s
  unfolding handle_write
  view-handle_write s = view-write_to s.sslcontext s

  view-after_first_handshake :
      (status : OsStatus) (s : Socket Context) → view (after_first_handshake env status s) ≡ view s
  unfolding after_first_handshake
  view-after_first_handshake no_err s = refl
  view-after_first_handshake _ s = refl

  view-first_handshake :
      (s : Socket Context) (context : Context) → view (first_handshake env s context) ≡ view s
  unfolding first_handshake
  view-first_handshake s context =
      view-after_first_handshake _ _ ∙ view-run_ssl (env.ssl_handshake context) _

  view-setup_with : (o : Option Context) (s : Socket Context) → view (setup_with env o s) ≡ view s
  unfolding setup_with
  view-setup_with none s = refl
  view-setup_with (some context) s =
      view-if _ _ _
        (view-first_handshake
          (record s { sslcontext = some (configure env (configure_calls env) context).0 }) _)
        refl

  pub view-setup_ssl : (s : Socket Context) → view (setup_ssl env s) ≡ view s
  unfolding setup_ssl
  view-setup_ssl = view-setup_with env.ssl_new_context
