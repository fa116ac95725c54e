-- ===== src/Server/Accepted.antt =====
-- What `emailz_handle_accept` and the clean-up block of libEmailz/src/emailz.c do to the count of open
-- connections.
use spamass.Base.{
  ℕ, ◌+◌, ◌-◌, ◌^◌, ◌%◌, ◌/◌, ◌≡◌, refl, ap, ◌∙◌, Bool, true, false, not, Option, none, some, [],
  Bool-cases, inl, inr, ok, WhenReturns, WhenReturns-bind, WhenReturns-if, WhenReturns-weaken,
  WhenReturns-after,
}
use spamass.Connection.Start.{
  SockAddr, handle_accept, accepted, emailz_addrstr, count_socket, socket_start, open_if,
  open_channel, notify_state, notify_socket, on_cleanup,
}
use spamass.Os.{Os}
use spamass.Recording.{name_socket, record_open, print_name, make_path}
use spamass.Server.Open.{open_of, open-view}
use spamass.Session.Replies.{reply_greeting}
use spamass.Session.View.{view-handle_write}
use spamass.Socket.Defs.{Emailz, Socket, SocketState, open_state, close_state, stop_on_error}
use spamass.Tls.{Block, Env}

module _ (env : Env) where
  open env use {Context}

  notify_state-open :
      (o : Option Block) (state : SocketState) (s : Socket Context)
      → open_of (notify_state o state s) ≡ open_of s
  unfolding notify_state
  notify_state-open none state s = refl
  notify_state-open (some handler) state s = elim (Bool-cases s.handler_queue) [
    | inl e ↦ rw e refl
    | inr e ↦ rw e refl
  ]

  name_socket-open :
      (os : Os) (s : Socket Context) → WhenReturns (name_socket os s) (λ t. open_of t ≡ open_of s)
  unfolding name_socket
  name_socket-open os s =
      WhenReturns-after
        (print_name os (os.gmtime (s.connect_time / 1000)) s.connect_time s.addr s.port
          (record { before = []; after = s.record_name }))
        _ (λ t. open_of t ≡ open_of s) (λ p. refl)

  open_if-open :
      (b : Bool) (os : Os) (s : Socket Context)
      → WhenReturns (open_if b os s) (λ t. open_of t ≡ open_of s)
  unfolding open_if record_open
  open_if-open true os s =
      WhenReturns-bind (record_open os s) (λ r. ok r.0) (λ r. open_of r.0 ≡ open_of s) _
        (WhenReturns-after
          (make_path s.emailz.record_base s.record_name
            (record { cursor = record { before = []; after = s.record_path }; made = [] }))
          _ (λ r. open_of r.0 ≡ open_of s) (λ m. refl))
        (λ r e. e)
  open_if-open false os s = refl

  socket_start-open :
      (os : Os) (b : Bool) (s : Socket Context)
      → WhenReturns (socket_start os b s) (λ r. open_of r.0 ≡ open_of s)
  unfolding socket_start open_channel
  socket_start-open os b s =
      WhenReturns-if (not s.queue) _ _ (λ r. open_of r.0 ≡ open_of s) refl
        (WhenReturns-if (os.set_nodelay s.socketfd) _ _ (λ r. open_of r.0 ≡ open_of s)
          (WhenReturns-bind (name_socket os s) _ (λ t. open_of t ≡ open_of s) _
            (name_socket-open os s)
            (λ t e.
              WhenReturns-bind (open_if b os (notify_socket open_state t)) _
                (λ u. open_of u ≡ open_of s) _
                (WhenReturns-weaken (open_if b os (notify_socket open_state t)) _ _
                  (open_if-open b os (notify_socket open_state t))
                  (λ u f. f ∙ notify_state-open t.socket_handler open_state t ∙ e))
                (λ u f. f)))
          refl)

  pub handle_accept-open :
      (os : Os) (emailz : Emailz) (now later socketfd : ℕ) (addr : SockAddr)
      → WhenReturns
          (handle_accept env os emailz now later socketfd addr)
          (λ s. open_of s ≡ (emailz.sockets_open + 1) % 2 ^ 64)
  unfolding handle_accept
  handle_accept-open os emailz now later socketfd addr =
      let s = accepted emailz now later socketfd addr in
      WhenReturns-after (emailz_addrstr os addr.s_addr addr.sin_family s.addrstr) _
        (λ t. open_of t ≡ (emailz.sockets_open + 1) % 2 ^ 64)
        (λ text.
          WhenReturns-bind
            (socket_start os emailz.socket_record
              (record s { addrstr = text; emailz = count_socket emailz }))
            _ (λ r. open_of r.0 ≡ (emailz.sockets_open + 1) % 2 ^ 64)
            (λ t. open_of t ≡ (emailz.sockets_open + 1) % 2 ^ 64)
            (socket_start-open os emailz.socket_record
              (record s { addrstr = text; emailz = count_socket emailz }))
            (λ r e. open-view (view-handle_write env r.0 reply_greeting stop_on_error) ∙ e))

  pub on_cleanup-open :
      (s : Socket Context) → open_of (on_cleanup s) ≡ (open_of s + (2 ^ 64 - 1)) % 2 ^ 64
  unfolding on_cleanup
  on_cleanup-open s =
      ap (λ n. (n + (2 ^ 64 - 1)) % 2 ^ 64) (notify_state-open s.socket_handler close_state s)
