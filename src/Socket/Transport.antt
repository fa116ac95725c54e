-- ===== src/Socket/Transport.antt =====
-- The transport below a connection: the two callbacks of Secure Transport, writing, recording,
-- stopping, and the set-up of an encrypted connection.
pub mod Receive
use spamass.Base.{
  ℕ, zero, suc, ◌+◌, ◌-◌, ◌^◌, ◌%◌, Bool, true, false, not, ◌&&◌, Option, none, some, List, [], ◌∷◌,
  ◌++◌, Bytes, length, take, min, ◌==◌, ltb, if◌then◌else◌,
}
use spamass.Dispatch.{DispatchData, get_size, concat, subrange}
use spamass.Dispatch
use spamass.Socket.Defs.{
  Event, io_write, io_close, fd_close, file_write, file_close, Completion, stop_on_error,
  stop_when_done, Socket, emit,
}
use spamass.Tls.{
  OsStatus, no_err, would_block, closed_abort, SslIo, done, recv, send, ConfigureCall, set_io_funcs,
  set_protocol_version_enabled, set_connection, set_allows_expired_certs, set_enable_cert_verify,
  set_allows_any_root, set_certificate, set_peer_id, Env,
}

-- What the read callback leaves: its result, `*datalen`, and the bytes copied to `data`.
pub record Received : Type 0 where
  pub status : OsStatus
  pub datalen : ℕ
  pub bytes : Bytes

-- The block of `emailz_sslsocket_read`, on what remains to be copied and what has been.
abbrev pub copy_region : ℕ × Bytes → Bytes → (ℕ × Bytes) × Bool
copy_region (remaining, copied) region =
    let size = min remaining (length region) in
    ((remaining - size, copied ++ take size region), not (remaining - size == 0))

-- `emailz_sslsocket_read` on `tmpdata`.
unfoldable pub receive : DispatchData → ℕ → Received × DispatchData
receive tmpdata requested =
    let available = get_size tmpdata in
    let copied = Dispatch.apply copy_region (requested, []) tmpdata in
    let returning = requested - copied.0 in
    if available == 0
    then (record { status = would_block; datalen = 0; bytes = [] }, tmpdata)
    else (
      record {
        status = if ltb available requested then would_block else no_err;
        datalen = if ltb available requested then available else requested;
        bytes = copied.1;
      },
      subrange tmpdata returning (available - returning),
    )

module _ {Context : Type 0} where
  unfoldable pub sslsocket_read : Socket Context → ℕ → Received × Socket Context
  sslsocket_read s requested =
      let (received, rest) = receive s.tmpdata requested in (received, record s { tmpdata = rest })

  unfoldable pub sslsocket_write : Socket Context → Bytes → OsStatus × Socket Context
  sslsocket_write s buffer =
      if s.channel then (no_err, emit s (io_write buffer stop_on_error)) else (closed_abort, s)

  -- A call into Secure Transport, with its callbacks into the socket.
  unfoldable pub run_ssl : {A : Type 0} → SslIo A → Socket Context → A × Socket Context
  unfolding sslsocket_read sslsocket_write
  run_ssl (done a) s = (a, s)
  run_ssl (recv n k) s =
      let (r, s') = sslsocket_read s n in run_ssl (k r.status r.datalen r.bytes) s'
  run_ssl (send b k) s = let (status, s') = sslsocket_write s b in run_ssl (k status) s'

  -- `emailz_socket_record_close`.
  unfoldable pub record_close : Socket Context → Socket Context
  record_close s = if s.record_file then record (emit s file_close) { record_file = false } else s

abbrev u64 : ℕ → ℕ
u64 n = n % 2 ^ 64

module _ (env : Env) where
  open env use {
    Context, ssl_new_context, ssl_configure, ssl_handshake, ssl_write, ssl_close, fwrite,
  }

  -- The block of `emailz_socket_record`.
  abbrev pub record_region : Socket Context → Bytes → Socket Context × Bool
  record_region s region =
      let s' = emit s (file_write (take (fwrite region) region)) in
      let written = length region == fwrite region in
      (if written then s' else record_close s', written)

  -- `emailz_socket_record`.
  unfoldable pub record_data : Socket Context → DispatchData → Socket Context
  unfolding record_close Dispatch.apply
  record_data s d = if s.record_file then Dispatch.apply record_region s d else s

  -- The part of `emailz_socket_stop` that closes an encrypted connection.
  unfoldable pub close_ssl : Option Context → Socket Context → Socket Context
  unfolding run_ssl
  close_ssl none s = s
  close_ssl (some context) s =
      let (context', s') = run_ssl (ssl_close context) s in record s' { sslcontext = some context' }

  -- `emailz_socket_stop`.
  unfoldable pub socket_stop : Socket Context → Socket Context
  unfolding close_ssl record_close
  socket_stop s =
      let stopped = record s { stop = true } in
      let closed = if s.channel then emit (close_ssl s.sslcontext stopped) io_close else stopped in
      record_close (
        if s.socketfd == 0
        then stopped
        else record (emit closed (fd_close s.socketfd)) { socketfd = 0 })

  -- `emailz_socket_handle_write` with or without an SSL context.
  unfoldable pub write_to : Option Context → Socket Context → Bytes → Completion → Socket Context
  unfolding run_ssl
  write_to (some context) s buffer handler =
      let (result, s') = run_ssl (ssl_write context buffer) s in
      record s' { sslcontext = some result.1 }
  write_to none s buffer handler =
      emit
        (record s {
          outbytes = u64 (s.outbytes + length buffer);
          emailz = record s.emailz { bytes_sent = u64 (s.emailz.bytes_sent + length buffer) };
        })
        (io_write buffer handler)

  -- `emailz_socket_handle_write` of a text; a NULL handler is `stop_on_error`.
  unfoldable pub handle_write : Socket Context → Bytes → Completion → Socket Context
  unfolding write_to
  handle_write s = write_to s.sslcontext s

  -- The block of a write that has come to its end, which has failed if there is an `error`.
  unfoldable pub on_written : Completion → ℕ → Socket Context → Socket Context
  unfolding socket_stop
  on_written stop_on_error error s = if error == 0 then s else socket_stop s
  on_written stop_when_done error s = socket_stop s

  -- The calls in order; the first failure ends them.
  unfoldable pub configure : List ConfigureCall → Context → Context × Bool
  configure [] context = (context, true)
  configure (call ∷ calls) context =
      let (status, context') = ssl_configure call context in
      let rest = configure calls context' in elim status [ no_err ↦ rest | _ ↦ (context', false) ]

  abbrev pub configure_calls : List ConfigureCall
  configure_calls =
      set_io_funcs ∷ set_protocol_version_enabled ∷ set_connection ∷ set_allows_expired_certs
      ∷ set_enable_cert_verify ∷ set_allows_any_root ∷ set_certificate ∷ set_peer_id ∷ []

  -- The tests behind the first handshake.
  unfoldable pub after_first_handshake : OsStatus → Socket Context → Socket Context
  after_first_handshake no_err s = record s { is_handshaking = false }
  after_first_handshake _ s = s

  -- The handshake at the end of `emailz_socket_setup_ssl`.
  unfoldable pub first_handshake : Socket Context → Context → Socket Context
  unfolding run_ssl after_first_handshake
  first_handshake s context =
      let (result, s') = run_ssl (ssl_handshake context) (record s { is_handshaking = true }) in
      after_first_handshake result.0 (record s' { sslcontext = some result.1 })

  -- `emailz_socket_setup_ssl`, on what `SSLNewContext` gives.
  unfoldable pub setup_with : Option Context → Socket Context → Socket Context
  unfolding configure first_handshake
  setup_with none s = s
  setup_with (some context) s =
      let (context', configured) = configure configure_calls context in
      let s' = record s { sslcontext = some context' } in
      if configured then first_handshake s' context' else s'

  -- `emailz_socket_setup_ssl`.
  unfoldable pub setup_ssl : Socket Context → Socket Context
  unfolding setup_with
  setup_ssl = setup_with ssl_new_context
