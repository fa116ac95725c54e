-- ===== src/App/Mail/Sound.antt =====
-- The invariant of the blocks of Spamass/Spamass/SMAppDelegate.m, over any calls of the library.
use spamass.App.Mail.Safe.{IsSound, UnlessRaised, handle_email-IsSound}
use spamass.App.Email.{
  Header, one, many, Email, Result, returned, raised, find_header, extend_header, store_header,
  field_of, put_field, handle_header,
}
use spamass.App.Mail.Lines.{SameMail, same_mail, same_headers, handle_header-SameMail, Returned}
use spamass.App.Mail.{
  SmSocket, handle_from, handle_rcpt, sized, data_email, add_recipients, bytes_of, smtp_block,
  app_event, app_run, unless_raised,
}
use spamass.App.{Foundation, CountsUnits}
use spamass.Base.{
  refl, ◌∙◌, Bool, true, false, Option, none, some, List, [], ◌∷◌, ◌++◌, Bytes, if◌then◌else◌,
  Outcome, Returns, Returns-bind,
}
use spamass.Command.{Command, mail, rcpt}
use spamass.Socket.Defs.{Event, queue_smtp, queue_data}

pub unless_raised-Returns :
    (f : SmSocket → Outcome (Result SmSocket)) (P Q : SmSocket → Type 0)
    → ((socket : SmSocket) → P socket → Returns (f socket) (UnlessRaised Q))
    → (r : Result SmSocket) → UnlessRaised P r
    → Returns (unless_raised f r) (UnlessRaised Q)
unless_raised-Returns f P Q h raised p = tt
unless_raised-Returns f P Q h (returned socket) p = h socket p

module _ (fnd : Foundation) (counts : CountsUnits fnd.units) where
  -- A mail in the place of another with the same serial and socket id.
  sized-IsSound :
      (arg : Option Bytes) (email : Email) (socket : SmSocket) (r : Result Email)
      → IsSound fnd (record socket { email = some email })
      → UnlessRaised (SameMail email) r
      → UnlessRaised (IsSound fnd) (sized fnd arg socket r)
  sized-IsSound arg email socket raised h p = tt
  sized-IsSound arg email socket (returned after) h p = record {
    calls_safe = h.calls_safe;
    email_current = (p.serial_eq ∙ h.email_current.0, p.socket_id_eq ∙ h.email_current.1);
  }

  nil-SameMail :
      (name : Bytes) (old : Option Header) (email : Email)
      → UnlessRaised (SameMail email) (store_header name (extend_header old none) email)
  unfolding extend_header
  nil-SameMail name none email = tt
  nil-SameMail name (some (one old)) email = same_headers name (many (old ∷ [])) email
  nil-SameMail name (some (many olds)) email = tt

  nil_field-SameMail :
      (last : Option Bytes) (email : Email)
      → UnlessRaised (SameMail email) (put_field fnd (field_of fnd last none) email)
  unfolding field_of
  nil_field-SameMail none email = tt
  nil_field-SameMail (some name) email = nil-SameMail name (find_header name email.headers) email

  weaken_raised : (P : Email → Type 0) (r : Result Email) → Returned P r → UnlessRaised P r
  weaken_raised P raised p = tt
  weaken_raised P (returned email) p = p

  header-SameMail :
      (arg : Option Bytes) (email : Email)
      → UnlessRaised (SameMail email) (handle_header fnd arg email)
  unfolding handle_header
  header-SameMail none email = nil_field-SameMail email.last_header email
  header-SameMail (some line) email =
      weaken_raised (SameMail email) _ (handle_header-SameMail fnd line email)

  inside-SameMail :
      (inside : Bool) (arg : Option Bytes) (email : Email)
      → UnlessRaised
          (SameMail email)
          (if inside then handle_header fnd arg email else returned email)
  inside-SameMail true arg email = header-SameMail arg email
  inside-SameMail false arg email =
      same_mail email email.headers email.last_header email.is_in_headers

  data-IsSound :
      (bytes : Bytes) (email : Option Email) (socket : SmSocket)
      → IsSound fnd (record socket { email = email })
      → UnlessRaised (IsSound fnd) (data_email fnd bytes email (record socket { email = email }))
  unfolding data_email
  data-IsSound bytes none socket h = h
  data-IsSound bytes (some email) socket h =
      let appended = record email { content = email.content ++ bytes } in
      sized-IsSound (fnd.string bytes) appended (record socket { email = some email }) _
        (record { calls_safe = h.calls_safe; email_current = h.email_current })
        (inside-SameMail email.is_in_headers (fnd.string bytes) appended)

  rcpt-IsSound :
      (parts : List Bytes) (email : Option Email) (socket : SmSocket)
      → IsSound fnd (record socket { email = email })
      → IsSound fnd (record socket { email = add_recipients parts email })
  rcpt-IsSound parts none socket h = h
  rcpt-IsSound parts (some email) socket h = record {
    calls_safe = h.calls_safe;
    email_current = h.email_current;
  }

  smtp-IsSound :
      (command : Command) (arg : Option Bytes) (socket : SmSocket)
      → IsSound fnd socket
      → IsSound fnd (smtp_block fnd command arg socket)
  unfolding handle_from handle_rcpt
  smtp-IsSound mail arg socket h = record {
    calls_safe = h.calls_safe;
    email_current = (refl, refl);
  }
  smtp-IsSound rcpt arg socket h = rcpt-IsSound _ socket.email socket h
  smtp-IsSound _ arg socket h = h

  pub event-IsSound :
      (event : Event) (socket : SmSocket)
      → IsSound fnd socket
      → Returns (app_event fnd event socket) (UnlessRaised (IsSound fnd))
  unfolding app_event
  event-IsSound (queue_smtp h command arg) socket s = smtp-IsSound command (fnd.string arg) socket s
  event-IsSound (queue_data h bytes true) socket s =
      handle_email-IsSound fnd counts socket.email socket s
  event-IsSound (queue_data h bytes false) socket s =
      data-IsSound (bytes_of bytes) socket.email socket s
  event-IsSound _ socket s = s

  -- Whatever the calls of the library are, their handling comes to an end and writes no byte
  -- outside an array; unless an exception ends the application, every file that has been written is
  -- the file of a mail below the directory for the records, in directories of digits only, every
  -- directory that has been made is one of these, and the mail that is coming in has the serial of
  -- its number in the connection.
  pub app_run-IsSound :
      (events : List Event) (socket : SmSocket)
      → IsSound fnd socket
      → Returns (app_run fnd events socket) (UnlessRaised (IsSound fnd))
  unfolding app_run
  app_run-IsSound [] socket s = s
  app_run-IsSound (event ∷ events) socket s =
      Returns-bind (app_event fnd event socket) (unless_raised (app_run fnd events))
        (UnlessRaised (IsSound fnd)) (UnlessRaised (IsSound fnd)) (event-IsSound event socket s)
        (unless_raised-Returns (app_run fnd events) (IsSound fnd) (IsSound fnd)
          (app_run-IsSound events))
