-- ===== src/Session.antt =====
-- The protocol: `emailz_socket_handle_read` of libEmailz/src/emailz.c, line by line. Replies are in
-- Replies, the answer to a command in Commands; this file has the data phase, the loop over the
-- lines, and the loop over decrypted data.
pub mod Replies
pub mod Commands
pub mod View
pub mod Spec
pub mod Loop
pub mod Auth
pub mod Quit
pub mod Starttls
use spamass.Base.{
  ℕ, zero, suc, ◌+◌, ◌-◌, ◌^◌, ◌%◌, ◌≡◌, Bool, true, false, not, ◌&&◌, ◌||◌, Option, none, some, [],
  ◌∷◌, Bytes, length, codes, ◌==◌, ltb, if◌then◌else◌, Outcome, ok, out_of_bounds, out_of_fuel,
  ◌>>=◌,
}
use spamass.Command.{no_command, is_data}
use spamass.Dispatch.{DispatchData, get_size, concat}
use spamass.Line.{is_in_line}
use spamass.Session.Replies.{reply_accepted}
use spamass.Session.Commands.{handle_command_line}
use spamass.Socket.Defs.{Socket, emit, queue_data, stop_on_error}
use spamass.Socket.Lines.{read_line}
use spamass.Socket.Transport.{handle_write, socket_stop, record_data, run_ssl}
use spamass.Tls.{OsStatus, no_err, would_block, Block, Env}

-- `EMAILZ_MAX_INDATA_SIZE`.
abbrev pub max_indata_size : ℕ
max_indata_size = 1048576

-- How the loop over the lines was left: by its condition, or by a `break`.
pub data LoopExit : Type 0 where
  drained broken : LoopExit

-- The line is a period alone.
abbrev pub is_end_of_data : ℕ → Bytes → Bool
is_end_of_data linelen (a ∷ b ∷ c ∷ []) = linelen == 3 && a == b'.' && b == b'\r' && c == b'\n'
is_end_of_data linelen _ = false

module _ (env : Env) where
  open env use {Context, ssl_handshake, ssl_read}

  -- The call of the data handler, if there are a handler and a queue.
  unfoldable pub notify_with : Option Block → Socket Context → Option Bytes → Bool → Socket Context
  notify_with none s bytes done = s
  notify_with (some handler) s bytes done =
      if s.handler_queue then emit s (queue_data handler bytes done) else s

  abbrev pub notify_data : Socket Context → Option Bytes → Bool → Socket Context
  notify_data s = notify_with s.data_handler s

  abbrev pub oversized : Socket Context → Bool
  oversized s = ltb max_indata_size s.email_size

  -- The line in the data phase; the flag says whether the loop goes on.
  unfoldable pub handle_data_line : Socket Context → Socket Context × Bool
  unfolding notify_with
  handle_data_line s =
      let counted = record s { email_size = (s.email_size + s.linelen) % 2 ^ 64 } in
      let notified = notify_data counted (some s.line) (oversized counted) in
      if is_end_of_data s.linelen s.line
      then (
        handle_write env (record (notify_data s none true) { state = no_command }) reply_accepted
            stop_on_error,
        true,
      )
      else if oversized counted
      then (socket_stop env notified, false)
      else (notified, true)

  -- The terminator that `emailz_socket_read_line` stores behind a line, and the body of the loop.
  unfoldable pub handle_line : Socket Context → Outcome (Socket Context × Bool)
  unfolding handle_data_line
  handle_line s =
      if is_in_line s.linelen
      then (if is_data s.state then ok (handle_data_line s) else handle_command_line env s)
      else out_of_bounds

  -- The loop over the lines. Each line takes a byte at least, so `suc (get_size s.indata)` rounds
  -- are enough.
  unfoldable pub process : ℕ → Socket Context → Outcome (Socket Context × LoopExit)
  process zero s = out_of_fuel
  process (suc fuel) s =
      let line = read_line s in
      let on = do
        (s', go_on) ← handle_line line.0
        let rest = process fuel s'
        if go_on then rest else ok (s', broken)
      in if get_size s.indata == 0
        then ok (s, drained)
        else if line.1
        then on
        else ok (line.0, drained)

  unfoldable pub process_all : Socket Context → Outcome (Socket Context × LoopExit)
  process_all s = process (suc (get_size s.indata)) s

  -- What the loop over `SSLRead` does with a status; the flag is false behind a stop.
  unfoldable pub after_read : OsStatus → Socket Context → Socket Context × Bool
  unfolding socket_stop
  after_read no_err s = (s, true)
  after_read would_block s = (s, true)
  after_read _ s = (socket_stop env s, false)

  -- The loop over `SSLRead`.
  unfoldable pub read_decrypted : ℕ → Socket Context → Context → Outcome (Socket Context)
  unfolding run_ssl record_data after_read
  read_decrypted zero s context = out_of_fuel
  read_decrypted (suc fuel) s context =
      let (result, s₁) = run_ssl (ssl_read context 1000) s in
      let processed = result.1 in
      let s₂ = record s₁ { sslcontext = some result.2 } in
      let appended = record s₂ { indata = concat s₂.indata (processed ∷ []) } in
      let again = read_decrypted fuel (record_data env appended (processed ∷ [])) result.2 in
      let (s₃, go_on) = after_read result.0 s₂ in
      if go_on && not (length processed == 0) then again else ok s₃

  -- What a socket that waits for the end of its handshake does with a status; the flag says
  -- whether the handler goes on.
  unfoldable pub after_handshake : OsStatus → Socket Context → Socket Context × Bool
  unfolding socket_stop
  after_handshake would_block s = (s, false)
  after_handshake no_err s = (record s { is_handshaking = false; is_secure = true }, true)
  after_handshake _ s = (socket_stop env s, false)

  unfoldable pub continue_handshake : Socket Context → Context → Socket Context × Context × Bool
  unfolding run_ssl after_handshake
  continue_handshake s context =
      let (result, s₁) = run_ssl (ssl_handshake context) s in
      let (s₂, go_on) = after_handshake result.0 (record s₁ { sslcontext = some result.1 }) in
      if s.is_handshaking then (s₂, result.1, go_on) else (s, context, true)

  -- `emailz_socket_handle_read` with or without an SSL context; `fuel` bounds the rounds of the
  -- loop over `SSLRead`.
  unfoldable pub read_from :
      ℕ → Option Context → Socket Context → DispatchData → Outcome (Socket Context × LoopExit)
  read_from fuel none s received =
      let recorded = record_data env s received in
      process_all (record recorded { indata = concat recorded.indata received })
  read_from fuel (some context) s received =
      let (s₁, context', go_on) =
        continue_handshake (record s { tmpdata = concat s.tmpdata received }) context in
      let rest = read_decrypted fuel s₁ context' >>= process_all in
      if go_on then rest else ok (s₁, drained)

  -- `emailz_socket_handle_read`.
  unfoldable pub handle_read : ℕ → Socket Context → DispatchData → Outcome (Socket Context)
  handle_read fuel s received = do (s', exit) ← read_from fuel s.sslcontext s received; ok s'
