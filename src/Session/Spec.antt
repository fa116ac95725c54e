-- ===== src/Session/Spec.antt =====
-- The protocol without its transport: what a line does to the view of a session.
pub mod Answer
pub mod Refine
pub mod Kept
pub mod More
pub mod Run
pub mod Mail
pub mod Size
pub mod Total
use Prim.Native.Nat.{bit_and}
use spamass.Base.{
  ℕ, ◌+◌, ◌-◌, ◌%◌, ◌^◌, Bool, true, false, not, ◌&&◌, Option, none, some, List, [], ◌∷◌, ◌++◌,
  Bytes, take, drop, codes, c_string, starts_with, ◌==◌, ltb, leb, if◌then◌else◌, Outcome, ok,
  out_of_bounds, out_of_fuel, ◌>>=◌,
}
use spamass.Base64
use spamass.Command.{
  Command, no_command, data_command, auth, is_data, classify, bit, read_command, Parsed,
}
use spamass.Line.{is_in_line}
use spamass.Session.Commands.{decode_buf, user_of, password_of}
use spamass.Session.View.{View}
use spamass.Session.{max_indata_size, is_end_of_data}
use spamass.Socket.Defs.{Event, queue_smtp, queue_data, call_auth}
use spamass.Tls.{Block, Env}

-- The call of a handler, if it is installed with a queue.
abbrev pub call_of : Option Block → Bool → (Block → Event) → List Event
call_of none queue call = []
call_of (some handler) queue call = if queue then call handler ∷ [] else []

abbrev pub called : View → List Event → View
called v es = record v { calls = v.calls ++ es }

-- In the data phase: every line goes to the data handler, and is marked as the last one when the
-- mail has grown too large; a period alone ends the phase.
unfoldable pub spec_data_line : View → View × Bool
spec_data_line v =
    let size = (v.email_size + v.linelen) % 2 ^ 64 in
    let too_large = ltb max_indata_size size in
    if is_end_of_data v.linelen v.line
    then (
      record (called v (call_of v.data_handler v.handler_queue (λ h. queue_data h none true))) {
        state = no_command;
      },
      true,
    )
    else (
      record (called v
          (call_of v.data_handler v.handler_queue (λ h. queue_data h (some v.line) too_large))) {
            email_size = size;
          },
      not too_large,
    )

-- The argument that the command handler is given.
abbrev pub argument_of : View → Bytes
argument_of v = c_string (drop v.lineoff v.line)

abbrev pub smtp_calls : Command → View → List Event
smtp_calls c v =
    call_of v.smtp_handler (v.handler_queue && not (bit_and (bit c) v.smtp_handler_mask == 0))
      (λ h. queue_smtp h c (argument_of v))

-- Whom the line asks to be let in.
unfoldable pub credentials : View → Outcome (Option (Bytes × Bytes))
credentials v =
    let decoded = do
      (buffer, len) ← Base64.decode (take (v.linelen - 13) (drop 11 v.line)) decode_buf
      ok (if leb 3 len then some (user_of buffer, password_of buffer) else none)
    in if starts_with (codes "AUTH PLAIN ") v.line && ltb 13 v.linelen && ltb v.linelen 150
      then decoded
      else ok none

abbrev pub auth_calls : View → Option (Bytes × Bytes) → List Event
auth_calls v none = []
auth_calls v (some (user, password)) =
    call_of v.auth_handler v.handler_queue (λ h. call_auth h user password)

-- Only DATA and AUTH do more than be noted; AUTH only on an encrypted connection.
unfoldable pub spec_answer : Command → View → Outcome View
spec_answer data_command v = ok (record v { email_size = 0 })
spec_answer auth v =
    let asked = credentials v >>= λ who. ok (called v (auth_calls v who)) in
    if v.is_secure then asked else ok v
spec_answer _ v = ok v

unfoldable pub spec_command_line : View → Outcome (View × Bool)
spec_command_line v =
    let p = read_command v.line v.lineoff in
    let parsed = record v { cmnd = p.cmnd; cmndlen = p.cmndlen; lineoff = p.lineoff } in
    let c = classify p.cmnd in
    let answered = do
      v' ← spec_answer c (called (record parsed { state = c }) (smtp_calls c parsed))
      ok (v', true)
    in if p.cmndlen == 0 then ok (parsed, false) else answered

-- A line needs room for a terminator behind it.
unfoldable pub spec_line : View → Outcome (View × Bool)
spec_line v =
    if is_in_line v.linelen
    then (if is_data v.state then ok (spec_data_line v) else spec_command_line v)
    else out_of_bounds
