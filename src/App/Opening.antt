-- ===== src/App/Opening.antt =====
-- The socket handler that Spamass/Spamass/SMAppDelegate.m gives to the library, and what a new
-- connection starts with.
use Prim.Native.Nat.{bit_or}
use spamass.App.Mail.Fresh.{IsFresh}
use spamass.App.Mail.Safe.{IsSound}
use spamass.App.Mail.{SmSocket}
use spamass.App.{Foundation}
use spamass.Base.{
  ◌≡◌, ◌∙◌, refl, ap, Bool, true, false, Option, none, some, [], Bytes, c_string, drop,
  if◌then◌else◌,
}
use spamass.Command.{Command, mail, rcpt, bit}
use spamass.Connection.Handlers.{set_smtp_handler, set_data_handler, get_name}
use spamass.Session.Commands.{notify_handler, notify_smtp}
use spamass.Socket.Defs.{Socket, SocketState, open_state, close_state, emit, queue_smtp}
use spamass.Tls.{Block, Env}

-- The `SMSocket` of a new connection.
abbrev pub new_socket : {Context : Type 0} → Foundation → Socket Context → SmSocket
new_socket fnd s = record {
  socket_id = fnd.string (c_string (get_name s));
  email = none;
  email_count = 0;
  calls = [];
}

-- It has the invariants that the calls of the library keep.
new_socket-IsSound :
    {Context : Type 0} (fnd : Foundation) (s : Socket Context) (id : Bytes)
    → IsSound fnd (new_socket fnd s) × IsFresh fnd id (new_socket fnd s)
new_socket-IsSound fnd s id =
    (record { calls_safe = tt; email_current = tt }, record { below = tt; distinct = tt })

module _ {Context : Type 0} (fnd : Foundation) (smtp data_block : Block) where
  -- The block for a new connection, but for the sound, the map and the place of the address, which
  -- show it: the connection's `SMSocket`, its context, and the two handlers. Of a closed connection
  -- only the map is told.
  unfoldable pub socket_block :
      SocketState → Option SmSocket → Socket Context → Option SmSocket × Socket Context
  unfolding set_smtp_handler set_data_handler bit
  socket_block close_state context s = (context, s)
  socket_block open_state context s = (
    some (new_socket fnd s),
    set_data_handler (some data_block)
        (set_smtp_handler (some smtp) (bit_or (bit mail) (bit rcpt)) s),
  )

-- The commands that the application asks for.
abbrev pub is_wanted : Command → Bool
is_wanted mail = true
is_wanted rcpt = true
is_wanted _ = false

module _ (env : Env) where
  open env use {Context}

  -- The connection once the application has been told of a command.
  abbrev pub told_of : Block → Command → Socket Context → Socket Context
  told_of smtp c s =
      if is_wanted c then emit s (queue_smtp smtp c (c_string (drop s.lineoff s.line))) else s

  wanted_lem :
      (smtp : Block) (c : Command) (s : Socket Context)
      → s.handler_queue ≡ true
      → s.smtp_handler_mask ≡ bit_or (bit mail) (bit rcpt)
      → notify_handler env (some smtp) c s ≡ told_of smtp c s
  unfolding notify_handler bit
  wanted_lem smtp mail s q e = rw (q, e) refl
  wanted_lem smtp rcpt s q e = rw (q, e) refl
  wanted_lem smtp _ s q e = rw (q, e) refl

  -- On a connection that has a queue and the handler and the mask which the application's block has
  -- given to `s`, the application is told of MAIL and of RCPT, with their arguments, and of no other
  -- command.
  pub socket_block-told_of :
      (fnd : Foundation) (smtp data_block : Block) (context : Option SmSocket)
      (s u : Socket Context) (c : Command)
      → u.smtp_handler ≡ (socket_block fnd smtp data_block open_state context s).1.smtp_handler
      → u.smtp_handler_mask
        ≡ (socket_block fnd smtp data_block open_state context s).1.smtp_handler_mask
      → u.handler_queue ≡ true
      → notify_smtp env c u ≡ told_of smtp c u
  unfolding socket_block set_data_handler set_smtp_handler notify_smtp
  socket_block-told_of fnd smtp data_block context s u c h m q =
      ap (λ o. notify_handler env o c u) h ∙ wanted_lem smtp c u q m
