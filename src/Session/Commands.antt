-- ===== src/Session/Commands.antt =====
-- A command line outside the data phase (libEmailz/src/emailz.c, `emailz_socket_handle_read`): the
-- command is recognised, the user's handler is told of it, and it is answered.
use Prim.Native.Nat.{bit_and}
use spamass.Base.{
  ◌+◌, ◌-◌, Bool, true, false, not, ◌&&◌, Option, none, some, Bytes, length, take, drop, replicate,
  codes, c_string, starts_with, ◌==◌, ltb, leb, if◌then◌else◌, Outcome, ok, ◌>>=◌,
}
use spamass.Base64
use spamass.Command.{
  Command, no_command, helo, ehlo, mail, rcpt, data_command, quit, rset, noop, help, vrfy, auth,
  starttls, classify, bit,
}
use spamass.Session.Replies.{
  reply_helo, reply_ehlo_plain, reply_ehlo_secure, reply_ok, reply_recipient, reply_enter_mail,
  reply_closing, reply_help, reply_vrfy, reply_authenticated, reply_not_authenticated,
  reply_start_tls, reply_unsupported,
}
use spamass.Socket.Defs.{Socket, emit, queue_smtp, call_auth, stop_on_error, stop_when_done}
use spamass.Socket.Lines.{socket_read_command}
use spamass.Socket.Transport.{handle_write, setup_ssl}
use spamass.Tls.{Block, Env}

-- `decodeBuf` as it is declared.
abbrev pub decode_buf : Bytes
decode_buf = replicate 150 0

-- The two texts that the decoded buffer holds behind its first byte.
abbrev pub user_of : Bytes → Bytes
user_of buffer = c_string (drop 1 buffer)

abbrev pub password_of : Bytes → Bytes
password_of buffer = c_string (drop (1 + length (user_of buffer) + 1) buffer)

module _ (env : Env) where
  open env use {Context, authorize}

  -- The block is asked if there is one, and a queue; otherwise everybody is let in.
  unfoldable pub ask_handler : Option Block → Socket Context → Bytes → Bytes → Socket Context × Bool
  ask_handler none s user password = (s, true)
  ask_handler (some handler) s user password =
      if s.handler_queue
      then (emit s (call_auth handler user password), authorize handler user password)
      else (s, true)

  unfoldable pub ask_user : Socket Context → Bytes → Bytes → Socket Context × Bool
  unfolding ask_handler
  ask_user s = ask_handler s.auth_handler s

  -- The value of `isauth` for the line.
  unfoldable pub authenticate : Socket Context → Outcome (Socket Context × Bool)
  unfolding ask_user Base64.decode
  authenticate s =
      let asked = do
        (buffer, len) ← Base64.decode (take (s.linelen - 13) (drop 11 s.line)) decode_buf
        ok (if leb 3 len then ask_user s (user_of buffer) (password_of buffer) else (s, false))
      in if starts_with (codes "AUTH PLAIN ") s.line && ltb 13 s.linelen && ltb s.linelen 150
        then asked
        else ok (s, false)

  abbrev pub reply : Socket Context → Bytes → Outcome (Socket Context)
  reply s text = ok (handle_write env s text stop_on_error)

  unfoldable pub respond_auth : Socket Context → Outcome (Socket Context)
  unfolding authenticate
  respond_auth s =
      let answered = do
        (s', isauth) ← authenticate s
        reply s' (if isauth then reply_authenticated else reply_not_authenticated)
      in if s.is_secure then answered else reply s reply_unsupported

  -- The `switch`.
  unfoldable pub respond : Command → Socket Context → Outcome (Socket Context)
  unfolding respond_auth
  respond helo s = reply s reply_helo
  respond ehlo s = reply s (if s.is_secure then reply_ehlo_secure else reply_ehlo_plain)
  respond mail s = reply s reply_ok
  respond rcpt s = reply s reply_recipient
  respond data_command s = reply (record s { email_size = 0 }) reply_enter_mail
  respond quit s = ok (handle_write env s reply_closing stop_when_done)
  respond rset s = reply s reply_ok
  respond noop s = reply s reply_ok
  respond help s = reply s reply_help
  respond vrfy s = reply s reply_vrfy
  respond auth s = respond_auth s
  respond starttls s =
      if s.is_secure
      then reply s reply_unsupported
      else ok (setup_ssl env (handle_write env s reply_start_tls stop_on_error))
  respond no_command s = reply s reply_unsupported

  -- The call of the command handler, if there are a handler and a queue and the mask has the bit.
  unfoldable pub notify_handler : Option Block → Command → Socket Context → Socket Context
  unfolding bit
  notify_handler none _ s = s
  notify_handler (some handler) command s =
      if s.handler_queue && not (bit_and (bit command) s.smtp_handler_mask == 0)
      then emit s (queue_smtp handler command (c_string (drop s.lineoff s.line)))
      else s

  unfoldable pub notify_smtp : Command → Socket Context → Socket Context
  unfolding notify_handler
  notify_smtp command s = notify_handler s.smtp_handler command s

  -- The branch of the loop for a command line; the flag says whether the loop goes on.
  unfoldable pub handle_command_line : Socket Context → Outcome (Socket Context × Bool)
  unfolding respond notify_smtp socket_read_command classify
  handle_command_line s =
      let parsed = socket_read_command s in
      let command = classify parsed.cmnd in
      let answered = do
        s' ← respond command (notify_smtp command (record parsed { state = command }))
        ok (s', true)
      in if parsed.cmndlen == 0 then ok (parsed, false) else answered
