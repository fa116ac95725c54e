-- ===== src/Connection/Stop.antt =====
-- What `emailz_socket_stop` of libEmailz/src/emailz.c leaves.
use spamass.Base.{
  ◌≡◌, refl, sym, ap, ◌∙◌, Bool, true, false, Option, none, some, Bytes, List, [], ◌∷◌, ◌++◌,
  append_assoc, append-nil, ◌==◌, if◌then◌else◌, Bool-cases, inl, inr, arith,
}
use spamass.Socket.Defs.{Socket, Event, emit, io_close, fd_close, file_close}
use spamass.Socket.Transport.{
  sslsocket_read, sslsocket_write, run_ssl, record_close, close_ssl, socket_stop,
}
use spamass.Tls.{SslIo, done, recv, send, Env}

-- The flag is set, the descriptor is forgotten, and no record file is open.
pub record IsStopped {Context : Type 0} (s : Socket Context) : Type 0 where
  pub stopped : s.stop ≡ true
  pub no_socketfd : s.socketfd ≡ 0
  pub no_record : s.record_file ≡ false

if_first : {A : Type 0} (b : Bool) (x y : A) → b ≡ true → (if b then x else y) ≡ x
if_first b x y e = rw e

if_second : {A : Type 0} (b : Bool) (x y : A) → b ≡ false → (if b then x else y) ≡ y
if_second b x y e = rw e

module _ {Context : Type 0} where
  write-stop : (s : Socket Context) (b : Bytes) → (sslsocket_write s b).1.stop ≡ s.stop
  unfolding sslsocket_write
  write-stop s b = elim (Bool-cases s.channel) [ inl e ↦ rw e | inr e ↦ rw e ]

  run_ssl-stop : {A : Type 0} (io : SslIo A) (s : Socket Context) → (run_ssl io s).1.stop ≡ s.stop
  unfolding run_ssl
  run_ssl-stop (done a) s = refl
  run_ssl-stop (recv n k) s = run_ssl-stop (k _ _ _) (sslsocket_read s n).1
  run_ssl-stop (send b k) s = run_ssl-stop (k _) (sslsocket_write s b).1 ∙ write-stop s b

  write-record_file :
      (s : Socket Context) (b : Bytes) → (sslsocket_write s b).1.record_file ≡ s.record_file
  unfolding sslsocket_write
  write-record_file s b = elim (Bool-cases s.channel) [ inl e ↦ rw e | inr e ↦ rw e ]

  run_ssl-record_file :
      {A : Type 0} (io : SslIo A) (s : Socket Context)
      → (run_ssl io s).1.record_file ≡ s.record_file
  unfolding run_ssl sslsocket_read
  run_ssl-record_file (done a) s = refl
  run_ssl-record_file (recv n k) s = run_ssl-record_file (k _ _ _) (sslsocket_read s n).1
  run_ssl-record_file (send b k) s =
      run_ssl-record_file (k _) (sslsocket_write s b).1 ∙ write-record_file s b

  record_close-IsStopped :
      (s : Socket Context) → s.stop ≡ true → s.socketfd ≡ 0 → IsStopped (record_close s)
  unfolding record_close
  record_close-IsStopped s p q = elim (Bool-cases s.record_file) [
    | inl e ↦ rw e (record { stopped = p; no_socketfd = q; no_record = refl })
    | inr e ↦ rw e (record { stopped = p; no_socketfd = q; no_record = refl })
  ]

  record_close-same : (s : Socket Context) → s.record_file ≡ false → record_close s ≡ s
  unfolding record_close
  record_close-same s e = if_second s.record_file _ _ e

  if-stop :
      (b : Bool) (x y : Socket Context)
      → x.stop ≡ true
      → y.stop ≡ true
      → (if b then x else y).stop ≡ true
  if-stop true x y p q = p
  if-stop false x y p q = q

  if-socketfd :
      (b : Bool) (x y : Socket Context)
      → (b ≡ true → x.socketfd ≡ 0)
      → y.socketfd ≡ 0
      → (if b then x else y).socketfd ≡ 0
  if-socketfd true x y p q = p refl
  if-socketfd false x y p q = q

module _ (env : Env) where
  open env use {Context}

  close_ssl-stop : (o : Option Context) (s : Socket Context) → (close_ssl env o s).stop ≡ s.stop
  unfolding close_ssl
  close_ssl-stop none s = refl
  close_ssl-stop (some context) s = run_ssl-stop (env.ssl_close context) s

  -- After a stop the flag is set, the descriptor is forgotten and no record file is open, whatever
  -- the state of the connection was.
  pub socket_stop-IsStopped : (s : Socket Context) → IsStopped (socket_stop env s)
  unfolding socket_stop
  socket_stop-IsStopped s =
      let stopped = record s { stop = true } in
      let closed =
        if s.channel then emit (close_ssl env s.sslcontext stopped) io_close else stopped in
      let opened = record (emit closed (fd_close s.socketfd)) { socketfd = 0 } in
      record_close-IsStopped (if s.socketfd == 0 then stopped else opened)
        (if-stop (s.socketfd == 0) stopped opened refl (
          if-stop s.channel (emit (close_ssl env s.sslcontext stopped) io_close) stopped
            (close_ssl-stop s.sslcontext stopped) refl))
        (if-socketfd (s.socketfd == 0) stopped opened (λ e. ground (arith, e)) refl)

  close_ssl-record_file :
      (o : Option Context) (s : Socket Context) → (close_ssl env o s).record_file ≡ s.record_file
  unfolding close_ssl
  close_ssl-record_file none s = refl
  close_ssl-record_file (some context) s = run_ssl-record_file (env.ssl_close context) s

  -- The calls up to the end of the encryption, of a connection with a channel.
  abbrev pub taken_down : Bool → Socket Context → List Event
  taken_down true s = (close_ssl env s.sslcontext (record s { stop = true })).trace
  taken_down false s = s.trace

  abbrev pub channel_calls : Bool → List Event
  channel_calls true = io_close ∷ []
  channel_calls false = []

  abbrev pub record_calls : Bool → List Event
  record_calls true = file_close ∷ []
  record_calls false = []

  -- All calls behind a stop; the first argument says that there is no descriptor, the second that
  -- there is a channel.
  abbrev pub stop_calls : Bool → Bool → Socket Context → List Event
  stop_calls true channel s = s.trace ++ record_calls s.record_file
  stop_calls false channel s =
      taken_down channel s
      ++ (channel_calls channel ++ (fd_close s.socketfd ∷ record_calls s.record_file))

  -- A connection that has been stopped, from `s` to `t`.
  pub record IsClosed (s t : Socket Context) : Type 0 where
    pub is_stopped : IsStopped t
    pub calls_eq : t.trace ≡ stop_calls (s.socketfd == 0) s.channel s

  record_close-calls :
      (s : Socket Context) → (record_close s).trace ≡ s.trace ++ record_calls s.record_file
  unfolding record_close
  record_close-calls s = elim (Bool-cases s.record_file) [
    | inl e ↦ rw e refl
    | inr e ↦ rw e (sym (append-nil s.trace))
  ]

  before_close :
      (no_fd channel : Bool) (s : Socket Context)
      → let stopped = record s { stop = true } in
        let closed =
          if channel then emit (close_ssl env s.sslcontext stopped) io_close else stopped in
        let t =
          if no_fd then stopped else record (emit closed (fd_close s.socketfd)) { socketfd = 0 } in
        t.trace ++ record_calls t.record_file ≡ stop_calls no_fd channel s
  before_close true channel s = refl
  before_close false false s =
      append_assoc s.trace (fd_close s.socketfd ∷ []) (record_calls s.record_file)
  before_close false true s =
      let calls = taken_down true s in
      let fd = fd_close s.socketfd ∷ [] in
      ap (λ b. ((calls ++ io_close ∷ []) ++ fd) ++ record_calls b)
        (close_ssl-record_file s.sslcontext (record s { stop = true }))
      ∙ append_assoc (calls ++ io_close ∷ []) fd (record_calls s.record_file)
      ∙ append_assoc calls (io_close ∷ []) (fd ++ record_calls s.record_file)

  socket_stop-calls :
      (s : Socket Context) → (socket_stop env s).trace ≡ stop_calls (s.socketfd == 0) s.channel s
  unfolding socket_stop
  socket_stop-calls s = record_close-calls _ ∙ before_close (s.socketfd == 0) s.channel s

  pub socket_stop-IsClosed : (s : Socket Context) → IsClosed s (socket_stop env s)
  socket_stop-IsClosed s = record {
    is_stopped = socket_stop-IsStopped s;
    calls_eq = socket_stop-calls s;
  }

  -- A stopped socket is left as it is.
  socket_stop-same : (s : Socket Context) → IsStopped s → socket_stop env s ≡ s
  unfolding socket_stop
  socket_stop-same s h =
      ap record_close (
        if_first (s.socketfd == 0) _ _ (ground (arith, h.no_socketfd))
        ∙ ap (λ (b : Bool). record s { stop = b }) (sym h.stopped))
      ∙ record_close-same s h.no_record

  -- To stop a socket twice is to stop it once: nothing is closed again, in particular no descriptor
  -- that has been given to another connection.
  pub socket_stop_idem :
      (s : Socket Context) → socket_stop env (socket_stop env s) ≡ socket_stop env s
  socket_stop_idem s = socket_stop-same (socket_stop env s) (socket_stop-IsStopped s)
