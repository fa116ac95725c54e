-- ===== src/App/Mail.antt =====
-- What the application does with the calls of the library: `handleFrom:`, `handleRcpt:`,
-- `handleData:` and `handleEmailWithSocket:` of Spamass/Spamass/SMAppDelegate.m and the two blocks
-- that call them, with SMSocket.m. Its database and its files are a list of calls.
pub mod Lines
pub mod Stored
pub mod Received
pub mod Safe
pub mod Sound
pub mod Whole
pub mod Fresh
pub mod Unique
use spamass.App.Path.{path_with_socket_id}
use spamass.App.Email.{
  Header, one, many, Email, Result, returned, raised, find_header, header_text, handle_header,
}
use spamass.App.{Foundation}
use spamass.Base.{
  ℕ, zero, suc, ◌+◌, ◌%◌, ◌^◌, Bool, true, false, ◌||◌, Option, none, some, List, [], ◌∷◌, ◌++◌,
  map, Bytes, codes, starts_with, drop, ◌==◌, if◌then◌else◌, Outcome, ok, ◌>>=◌,
}
use spamass.Command.{Command, mail, rcpt}
use spamass.Socket.Defs.{Event, queue_smtp, queue_data}

-- The characters of `mEmailSplitSet`.
abbrev pub is_split : ℕ → Bool
is_split b = b == b' ' || b == b'<' || b == b'>' || b == b',' || b == b'\r' || b == b'\n'

abbrev pub prepend : ℕ → List Bytes → List Bytes
prepend b [] = (b ∷ []) ∷ []
prepend b (part ∷ parts) = (b ∷ part) ∷ parts

-- `componentsSeparatedByCharactersInSet:mEmailSplitSet`.
unfoldable pub split_parts : Bytes → List Bytes
split_parts [] = [] ∷ []
split_parts (b ∷ text) = if is_split b then [] ∷ split_parts text else prepend b (split_parts text)

-- The parts whose length is not 0.
unfoldable pub nonempty : List Bytes → List Bytes
nonempty [] = []
nonempty ([] ∷ parts) = nonempty parts
nonempty ((b ∷ part) ∷ parts) = (b ∷ part) ∷ nonempty parts

-- The argument without its prefix, in parts; of nil there are none.
unfoldable pub arg_parts : Bytes → ℕ → Option Bytes → List Bytes
unfolding split_parts nonempty
arg_parts prefix n none = []
arg_parts prefix n (some arg) =
    nonempty (split_parts (if starts_with prefix arg then drop n arg else arg))

-- The sender stays nil if no part is left.
abbrev pub first_part : List Bytes → Option Bytes
first_part [] = none
first_part (part ∷ parts) = some part

-- A call of the database, of the file system, or of an `NSData`; `none` is nil.
pub data AppCall : Type 0 where
  db_put : Option Bytes → Option Bytes → AppCall
  make_directory : Bytes → AppCall
  write_file : Bytes → Bytes → AppCall

-- `SMSocket`, and the calls that have been made.
pub record SmSocket : Type 0 where
  pub socket_id : Option Bytes
  pub email : Option Email
  pub email_count : ℕ
  pub calls : List AppCall

-- `setEmail:`.
abbrev pub set_email : Option Email → SmSocket → SmSocket
set_email email socket = record socket {
  email = email;
  email_count = (socket.email_count + 1) % 2 ^ 64;
}

abbrev pub add_recipients : List Bytes → Option Email → Option Email
add_recipients parts none = none
add_recipients parts (some email) = some (record email { recipients = email.recipients ++ parts })

-- The key under which the mails of an address end.
abbrev pub last_key : Bytes
last_key = codes "__99999999999999999-999.999.999.999-99999__999999"

-- `dbprefix`.
abbrev pub db_prefix : Bytes → Bytes → Bytes → Bytes
db_prefix recipient socket_id serial =
    recipient ++ (codes "__" ++ (socket_id ++ (codes "__" ++ (serial ++ codes "__"))))

abbrev pub file_calls : Option Bytes → Bytes → List AppCall
file_calls none content = []
file_calls (some path) content = write_file path content ∷ []

abbrev pub finish : List AppCall → SmSocket → SmSocket
finish calls socket = set_email none (record socket { calls = socket.calls ++ calls })

abbrev pub bytes_of : Option Bytes → Bytes
bytes_of none = []
bytes_of (some bytes) = bytes

abbrev pub unless_raised :
    (SmSocket → Outcome (Result SmSocket)) → Result SmSocket → Outcome (Result SmSocket)
unless_raised f raised = ok raised
unless_raised f (returned socket) = f socket

module _ (fnd : Foundation) where
  -- `handleFrom:withSocket:`.
  unfoldable pub handle_from : Option Bytes → SmSocket → SmSocket
  unfolding arg_parts
  handle_from arg socket =
      let count = (socket.email_count + 1) % 2 ^ 64 in
      set_email
        (some (record {
          sender = first_part (arg_parts (codes "FROM:") 5 arg);
          recipients = [];
          socket_id = socket.socket_id;
          serial = fnd.padded count;
          data_size = 0;
          headers = [];
          last_header = none;
          is_in_headers = true;
          content = [];
        }))
        socket

  -- `handleRcpt:withSocket:`.
  unfoldable pub handle_rcpt : Option Bytes → SmSocket → SmSocket
  unfolding arg_parts
  handle_rcpt arg socket = record socket {
    email = add_recipients (arg_parts (codes "TO:") 3 arg) socket.email;
  }

  abbrev units_of : Option Bytes → ℕ
  units_of none = 0
  units_of (some arg) = fnd.units arg

  abbrev pub sized : Option Bytes → SmSocket → Result Email → Result SmSocket
  sized arg socket raised = raised
  sized arg socket (returned email) =
      let size = (email.data_size + units_of arg) % 2 ^ 64 in
      returned (record socket { email = some (record email { data_size = size }) })

  -- `handleData:withSocket:`; without a mail it does nothing.
  unfoldable pub data_email : Bytes → Option Email → SmSocket → Result SmSocket
  unfolding handle_header
  data_email bytes none socket = returned socket
  data_email bytes (some email) socket =
      let arg = fnd.string bytes in
      let appended = record email { content = email.content ++ bytes } in
      sized arg socket
        (if email.is_in_headers then handle_header fnd arg appended else returned appended)

  abbrev pub handle_data : Bytes → SmSocket → Result SmSocket
  handle_data bytes socket = data_email bytes socket.email socket

  abbrev pub db_puts : Email → Bytes → Bytes → List AppCall
  db_puts email recipient prefix =
      db_put (some (prefix ++ codes "subject"))
        (header_text (find_header (codes "subject") email.headers))
      ∷ db_put (some (prefix ++ codes "sender")) email.sender
      ∷ db_put (some (prefix ++ codes "size")) (some (fnd.number email.data_size))
      ∷ db_put (some (recipient ++ last_key)) (some (codes "1"))
      ∷ []

  -- The same calls on nil: every key is nil.
  abbrev pub nil_puts : List AppCall
  nil_puts =
      db_put none none
      ∷ db_put none none
      ∷ db_put none (some (fnd.number 0))
      ∷ db_put none (some (codes "1"))
      ∷ []

  -- A mail with these recipients and this socket id; `dbprefix` raises without either.
  unfoldable pub store_email :
      Email → List Bytes → Option Bytes → SmSocket → Outcome (Result SmSocket)
  store_email email [] socket_id socket = ok raised
  store_email email (recipient ∷ recipients) none socket = ok raised
  store_email email (recipient ∷ recipients) (some socket_id) socket = do
    (path, made) ← path_with_socket_id fnd.units socket_id email.serial true
    ok (
        returned (
          finish
            (db_puts email recipient (db_prefix recipient socket_id email.serial)
              ++ (map make_directory made ++ file_calls path email.content))
            socket))

  -- `handleEmailWithSocket:`; the path of nil is nil.
  unfoldable pub handle_email : Option Email → SmSocket → Outcome (Result SmSocket)
  unfolding store_email
  handle_email none socket = ok (returned (finish nil_puts socket))
  handle_email (some email) socket = store_email email email.recipients email.socket_id socket

  abbrev pub smtp_block : Command → Option Bytes → SmSocket → SmSocket
  smtp_block mail arg socket = handle_from arg socket
  smtp_block rcpt arg socket = handle_rcpt arg socket
  smtp_block _ arg socket = socket

  -- The blocks that are given to the library, called as the library's calls say.
  unfoldable pub app_event : Event → SmSocket → Outcome (Result SmSocket)
  unfolding handle_from handle_rcpt data_email handle_email
  app_event (queue_smtp h command arg) socket =
      ok (returned (smtp_block command (fnd.string arg) socket))
  app_event (queue_data h bytes true) socket = handle_email socket.email socket
  app_event (queue_data h bytes false) socket = ok (handle_data (bytes_of bytes) socket)
  app_event _ socket = ok (returned socket)

  -- One call after the other, as the handler queue is serial; an exception ends the application.
  unfoldable pub app_run : List Event → SmSocket → Outcome (Result SmSocket)
  unfolding app_event
  app_run [] socket = ok (returned socket)
  app_run (event ∷ events) socket = app_event event socket >>= unless_raised (app_run events)
