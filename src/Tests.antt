-- ===== src/Tests.antt =====
-- A server and a few connections, and the theorems of the other modules applied to them.
pub mod Server
pub mod Recording
pub mod App
pub mod Search
use spamass.Base.{
  ℕ, ◌+◌, ◌-◌, ◌≡◌, ◌≢◌, refl, Bool, true, false, ◌&&◌, none, some, [], ◌∷◌, ◌++◌, Bytes, codes,
  starts_with, drop, ◌^◌, length, All, arith, ltb, if◌then◌else◌, Outcome, ok, out_of_bounds,
  out_of_fuel, Returns, inr, map, ◌<◌, ◌≤◌, ◌⊎◌,
}
use spamass.Connection.Handlers.{
  set_smtp_handler, set_auth_handler, set_header_handler, set_data_handler, IsBalanced,
  set_handler-IsBalanced,
}
use spamass.Line.Short.{fits-HasShortLines}
use spamass.Line.{max_line_size}
use spamass.Socket.Defs.{block_copy}
use spamass.Connection.Stop.{socket_stop-IsStopped, socket_stop_idem}
use spamass.Socket.Transport.{socket_stop}
use spamass.Base.{not, ◌||◌}
use spamass.Base64.Bounds.{IsAscii, decode-Returns}
use spamass.Base64.NoDigits.{HasNoDigits, decode_no_digits}
use spamass.Base64.{decode, decode_lookup}
use spamass.Command.Names.{name, classify-name, classify-starts_with}
use spamass.Command.Word.{IsCommandLine, command_line, read_command_lem, read_command-argument}
use spamass.Command.{no_command, data_command, rset, quit, classify, read_command, to_upper}
use spamass.Dispatch
use spamass.Dispatch.{DispatchData, contents, concat}
use spamass.Line.Split.{scan_line-contents, split_line}
use spamass.Line.{scan_line, scan_region, scan_start}
use spamass.Session.Auth.{empty_login, authenticate_no_digits}
use spamass.Session.Commands.{
  authenticate, ask_user, decode_buf, respond, handle_command_line, notify_smtp,
}
use spamass.Session.Loop.Fragments.{idled, run_view, process_all-spec_run, process_all-concat}
use spamass.Session.Loop.Mail.{process_all-mailed}
use spamass.Session.Loop.Size.{IsBounded, process_all-IsBounded}
use spamass.Session.Loop.Total.{Consumes, process_all-Consumes}
use spamass.Session.Quit.{stopping_writes, respond_quit-stopping_writes}
use spamass.Session.Spec.Kept.{Kept}
use spamass.Session.Spec.Mail.{IsText, mailed}
use spamass.Session.Spec.Refine.{view_of, handle_line-spec_line}
use spamass.Session.Spec.Run.{spec_run_all}
use spamass.Session.Spec.Total.{handle_line-Returns, StopsFor}
use spamass.Session.Spec.{spec_line}
use spamass.Socket.Transport.{run_ssl}
use spamass.Session.Starttls.{is_no_err, continue_handshake-view}
use spamass.Session.View.{view}
use spamass.Session.{
  process, process_all, handle_line, continue_handshake, LoopExit, drained, broken,
}
use spamass.Socket.Defs.{Emailz, Socket}
use spamass.Socket.Lines.Found.{Found, read_line-Found}
use spamass.Socket.Lines.{read_line, socket_read_command}
use spamass.Socket.Transport.Receive.{IsReceived, receive_lem}
use spamass.Socket.Transport.{receive, handle_write}
use spamass.Tls.{Env, no_err, done, recv, send}

-- A TLS layer that hands everything through; the block lets everybody in.
abbrev pub plain : Env
plain = record {
  Context = ℕ;
  ssl_new_context = some 0;
  ssl_configure = λ call context. (no_err, context + 1);
  ssl_handshake = λ context. recv 5 (λ status len bytes. done (status, context));
  ssl_read = λ context n. recv n (λ status len bytes. done (status, bytes, context));
  ssl_write = λ context bytes. send bytes (λ status. done (status, context));
  ssl_close = λ context. done context;
  authorize = λ handler user password. true;
  fwrite = λ bytes. length bytes;
}

abbrev server : Emailz
server = record {
  socket_handler = none;
  handler_queue = true;
  socket_record = false;
  record_base = [];
  listener_queue = true;
  socket_queue = true;
  has_identity = true;
  bytes_rcvd = 0;
  bytes_sent = 0;
  sockets_open = 1;
  sockets_total = 1;
}

-- A connection with these bytes to be read.
abbrev unread : DispatchData → Socket ℕ
unread d = record {
  emailz = server;
  socket_handler = none;
  smtp_handler = some 1;
  auth_handler = some 2;
  header_handler = none;
  data_handler = some 3;
  smtp_handler_mask = 4095;
  handler_queue = true;
  channel = true;
  queue = true;
  indata = d;
  tmpdata = [];
  inbytes = 0;
  outbytes = 0;
  connect_time = 0;
  last_read_time = 0;
  state = no_command;
  email_size = 0;
  line = [];
  cmnd = [];
  lineoff = 0;
  linelen = 0;
  cmndlen = 0;
  socketfd = 7;
  addr = 0;
  port = 25;
  addrstr = [];
  stop = false;
  sslcontext = none;
  peerid_addr = 0;
  peerid_port = 25;
  is_handshaking = false;
  is_secure = false;
  has_identity = true;
  record_path = [];
  record_name = [];
  record_file = false;
  trace = [];
}

-- The line has been read.
abbrev with_line : Bytes → Socket ℕ
with_line bs = record (unread []) { line = bs; linelen = length bs }

abbrev two_regions : DispatchData
two_regions = codes "HELO there\r" ∷ codes "\nRSET\r\nNO" ∷ []

abbrev all_ascii : Bytes → Bool
all_ascii [] = true
all_ascii (b ∷ bs) = ltb b 128 && all_ascii bs

all_ascii-IsAscii : (bs : Bytes) → all_ascii bs ≡ true → IsAscii bs
all_ascii-IsAscii [] e = tt
all_ascii-IsAscii (b ∷ bs) e = (ground (arith, e), all_ascii-IsAscii bs (ground (arith, e)))

process_all-Consumes_example :
    Returns (process_all plain (unread two_regions)) (λ r. Consumes (unread two_regions) r.0 r.1)
process_all-Consumes_example =
    process_all-Consumes plain (unread two_regions) (all_ascii-IsAscii (contents two_regions) refl)
      (fits-HasShortLines (contents two_regions) (omega arith))

handle_line-spec_line_example :
    view_of (handle_line plain (with_line (codes "RSET\r\n")))
    ≡ spec_line (view (with_line (codes "RSET\r\n")))
handle_line-spec_line_example = handle_line-spec_line plain (with_line (codes "RSET\r\n"))

abbrev pub greeting : Bytes
greeting = codes "Hi.\n"

pub greeting-IsText : All IsText (greeting ∷ [])
greeting-IsText = (
  record {
    no_cr = (omega arith, (omega arith, (omega arith, (omega arith, tt))));
    fits = omega arith;
    not_the_end = λ e. cc;
  },
  tt,
)

abbrev pub mail_regions : DispatchData
mail_regions = codes "Hi.\n\r\n." ∷ codes "\r\n" ∷ []

process_all-mailed_example :
    run_view plain (
      process_all plain (record (unread []) {
        state = data_command;
        data_handler = some 9;
        handler_queue = true;
        indata = mail_regions;
      }))
    ≡ ok (mailed (view (unread [])) (greeting ∷ []) [] 9, drained)
process_all-mailed_example =
    process_all-mailed plain (unread []) 9 (greeting ∷ []) mail_regions refl greeting-IsText
      (omega arith)

-- The socket that a run leaves.
abbrev left_by : Outcome (Socket ℕ × LoopExit) → Socket ℕ
left_by (ok r) = r.0
left_by _ = unread []

abbrev first_part : Socket ℕ
first_part = left_by (process_all plain (unread two_regions))

abbrev is_drained : Outcome (Socket ℕ × LoopExit) → Bool
is_drained (ok (s, drained)) = true
is_drained _ = false

is_drained-eq_ok :
    (m : Outcome (Socket ℕ × LoopExit)) → is_drained m ≡ true → m ≡ ok (left_by m, drained)
is_drained-eq_ok (ok (s, drained)) e = refl
is_drained-eq_ok (ok (s, broken)) e = cc
is_drained-eq_ok out_of_bounds e = cc
is_drained-eq_ok out_of_fuel e = cc

first_part_test : is_drained (process_all plain (unread two_regions)) ≡ true
unfolding process_all process read_line scan_line Dispatch.apply handle_line handle_command_line
    handle_write Dispatch.subrange socket_read_command classify respond notify_smtp
first_part_test = refl

first_part_drained : process_all plain (unread two_regions) ≡ ok (first_part, drained)
first_part_drained = is_drained-eq_ok (process_all plain (unread two_regions)) first_part_test

process_all-concat_example :
    run_view plain (
      process_all plain
        (record (unread two_regions) { indata = concat two_regions (codes "OP\r\n" ∷ []) }))
    ≡ run_view plain (
        process_all plain
          (record first_part { indata = concat first_part.indata (codes "OP\r\n" ∷ []) }))
process_all-concat_example =
    process_all-concat plain (unread two_regions) first_part (codes "OP\r\n" ∷ [])
      first_part_drained

process_all-IsBounded_example : Returns (process_all plain (unread two_regions)) (IsBounded plain)
process_all-IsBounded_example =
    process_all-IsBounded plain (unread two_regions) (all_ascii-IsAscii (contents two_regions) refl)
      (fits-HasShortLines (contents two_regions) (omega arith)) (omega arith)

process_all-spec_run_example :
    run_view plain (process_all plain (unread two_regions))
    ≡ idled (spec_run_all (view (unread two_regions)))
process_all-spec_run_example = process_all-spec_run plain (unread two_regions)

handle_line-Returns_example :
    ((length (codes "AUTH PLAIN AGEAYg==\r\n") < max_line_size)
      × Returns (handle_line plain (with_line (codes "AUTH PLAIN AGEAYg==\r\n"))) (λ r.
        Kept (view (with_line (codes "AUTH PLAIN AGEAYg==\r\n"))) (view r.0)
        × StopsFor (view r.0) r.1))
    ⊎ ((max_line_size ≤ length (codes "AUTH PLAIN AGEAYg==\r\n"))
        × (handle_line plain (with_line (codes "AUTH PLAIN AGEAYg==\r\n")) ≡ out_of_bounds))
handle_line-Returns_example =
    handle_line-Returns plain (with_line (codes "AUTH PLAIN AGEAYg==\r\n"))
      (all_ascii-IsAscii (codes "AUTH PLAIN AGEAYg==\r\n") refl)

read_line-Found_example :
    Found
      (unread two_regions)
      (read_line (unread two_regions))
      (split_line false 0 (contents two_regions))
read_line-Found_example = read_line-Found (unread two_regions)

mail_from-IsCommandLine : IsCommandLine (codes "mail") (codes " : ") (codes "<a@b>\r\n")
mail_from-IsCommandLine = record {
  letters = (refl, (refl, (refl, (refl, tt))));
  some_letter = omega arith;
  fits = omega arith;
  separators = (refl, (refl, (refl, tt)));
  argument = refl;
  ends = inr (omega arith);
}

read_command_example :
    read_command (command_line 2 (codes "mail") (codes " : ") (codes "<a@b>\r\n")) 0 ≡ record {
      cmnd = map to_upper (codes "mail");
      cmndlen = length (codes "mail");
      lineoff = length (codes "mail") + length (codes " : ");
    }
read_command_example =
    read_command_lem 2 (codes "mail") (codes " : ") (codes "<a@b>\r\n") 0 mail_from-IsCommandLine

read_command-argument_example :
    let line = command_line 2 (codes "mail") (codes " : ") (codes "<a@b>\r\n") in
    let off = (read_command line 0).lineoff in
    (drop (2 + off) line ≡ codes "<a@b>\r\n")
    × (length (drop off line) ≡ 2 + length (codes "<a@b>\r\n"))
read_command-argument_example =
    read_command-argument 2 (codes "mail") (codes " : ") (codes "<a@b>\r\n") 0
      mail_from-IsCommandLine

rset_no_command : rset ≢ no_command
rset_no_command e = cc

classify-name_example : classify (name rset ++ codes "TLE") ≡ rset
classify-name_example = classify-name rset (codes "TLE") rset_no_command

classify_database : classify (codes "DATABASE") ≢ no_command
unfolding classify
classify_database e = cc

decode-Returns_example :
    Returns (decode (codes "AGEAYg==") decode_buf) (λ r. length r.0 ≡ length decode_buf)
decode-Returns_example =
    decode-Returns (codes "AGEAYg==") decode_buf (all_ascii-IsAscii (codes "AGEAYg==") refl)
      (omega arith) (omega arith)

equals_no_digits : HasNoDigits (codes "====")
unfolding decode_lookup
equals_no_digits = (refl, (refl, (refl, (refl, tt))))

abbrev auth_equals : Socket ℕ
auth_equals = with_line (codes "AUTH PLAIN ====\r\n")

authenticate_no_digits_example :
    authenticate plain auth_equals
    ≡ ok (empty_login plain auth_equals.auth_handler auth_equals.handler_queue auth_equals)
authenticate_no_digits_example =
    authenticate_no_digits plain auth_equals refl refl (omega arith) (omega arith) equals_no_digits

abbrev encrypted : Socket ℕ
encrypted = record (unread two_regions) { sslcontext = some 0; is_handshaking = true }

respond_quit-stopping_writes_example :
    (t : Socket ℕ) × (respond plain quit encrypted ≡ ok t)
    × (stopping_writes t.trace ≡ 0 + stopping_writes encrypted.trace)
respond_quit-stopping_writes_example = respond_quit-stopping_writes plain encrypted

receive_example : IsReceived two_regions 13 (receive two_regions 13)
receive_example = receive_lem two_regions 13

continue_handshake-view_example :
    let r = continue_handshake plain encrypted 0 in
    let complete = is_no_err (run_ssl (plain.ssl_handshake 0) encrypted).0.0 in
    (view r.0 ≡ record (view encrypted) {
      is_secure = if encrypted.is_handshaking && complete then true else encrypted.is_secure;
    })
    × (r.2 ≡ (not encrypted.is_handshaking || complete))
continue_handshake-view_example = continue_handshake-view plain encrypted 0

abbrev last_words : DispatchData
last_words = codes "OP\r\nQU" ∷ codes "IT\r\n" ∷ []

-- The handlers have been installed.
abbrev installed : Socket ℕ
installed = record (unread two_regions) { trace = block_copy 1 ∷ block_copy 2 ∷ block_copy 3 ∷ [] }
