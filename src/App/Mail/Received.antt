-- ===== src/App/Mail/Received.antt =====
-- A mail from the bytes of the connection to its file: `emailz_socket_handle_read` of
-- libEmailz/src/emailz.c, and the blocks of Spamass/Spamass/SMAppDelegate.m behind it.
use spamass.App.Email.{Email}
use spamass.App.Mail.Stored.{IsUtf8, IsStored, units_total, app_run-IsStored}
use spamass.App.Mail.{SmSocket, app_run}
use spamass.App.Path.{path_with_socket_id}
use spamass.App.{Foundation}
use spamass.Base.{
  ◌+◌, ◌≤◌, ◌≡◌, subst, true, none, some, List, [], ◌∷◌, ◌++◌, drop, drop-length-append, length,
  Bytes, All, ok, ◌>>=◌, Returns,
}
use spamass.Command.{data_command}
use spamass.Dispatch.{DispatchData, contents}
use spamass.Session.Loop.Mail.{process_all-mailed}
use spamass.Session.Spec.Mail.{IsText, wire, wire_size, period_line, deliveries}
use spamass.Session.Loop.Fragments.{run_view}
use spamass.Session.View.{View, user_calls}
use spamass.Session.{process_all, max_indata_size}
use spamass.Socket.Defs.{Socket, Event, queue_data}
use spamass.Tls.{Block, Env}

module _ (env : Env) where
  open env use {Context}

  -- The calls of blocks that a run has added.
  abbrev pub new_calls : {A : Type 0} → Socket Context → View × A → List Event
  new_calls s r = drop (length (user_calls s.trace)) r.0.calls

  -- A connection in the data phase whose calls go to the application, and whose unread bytes are a
  -- whole mail of lines in UTF-8, each with room in `line` for a terminator, that is not over the
  -- limit, however they lie in regions: with the first recipient, the socket id and the path of its
  -- mail known, no exception is raised, and the mail is kept under that recipient, its file with
  -- the bytes between DATA and the period as they came.
  pub process_all-IsStored :
      (fnd : Foundation) (s : Socket Context) (h : Block) (bodies : List Bytes) (d : DispatchData)
      (recipient id path : Bytes) (recipients made : List Bytes) (email : Email) (socket : SmSocket)
      → contents d ≡ wire bodies (period_line [])
      → All IsText bodies
      → s.email_size + wire_size bodies ≤ max_indata_size
      → IsUtf8 fnd bodies
      → socket.email ≡ some email
      → email.recipients ≡ recipient ∷ recipients
      → email.socket_id ≡ some id
      → email.content ≡ []
      → path_with_socket_id fnd.units id email.serial true ≡ ok (some path, made)
      → Returns
          (run_view env (
              process_all env (record s {
                state = data_command;
                data_handler = some h;
                handler_queue = true;
                indata = d;
              }))
            >>= λ r. app_run fnd (new_calls s r) socket)
          (IsStored fnd recipient id path
            (wire bodies [])
            (units_total fnd bodies)
            made
            email
            socket)
  process_all-IsStored fnd s h bodies d recipient id path recipients made email socket e t small
        utf8 given rcpts ids fresh found =
      let whole = deliveries h bodies ++ queue_data h none true ∷ [] in
      let stored =
        app_run-IsStored fnd h recipient id path recipients made bodies email socket utf8 given
          rcpts ids found in
      rw
        (
          process_all-mailed env s h bodies d e t small,
          drop-length-append (user_calls s.trace)
              (deliveries h bodies ++ queue_data h none true ∷ []),
        )
        (subst
          (λ c. Returns (app_run fnd whole socket) (
            IsStored fnd recipient id path (c ++ wire bodies []) (units_total fnd bodies) made email
              socket))
          fresh stored)
