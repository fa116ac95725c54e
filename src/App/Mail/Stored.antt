-- ===== src/App/Mail/Stored.antt =====
-- A mail from its MAIL to its end, as the application keeps it: the calls of the library, one after
-- the other, through the blocks of Spamass/Spamass/SMAppDelegate.m.
use spamass.App.Email.{Email, Result, returned}
use spamass.App.Mail.Lines.{IsAppended, data_email-IsAppended}
use spamass.App.Mail.{
  write_file, make_directory, SmSocket, db_prefix, db_puts, store_email, handle_email, app_event,
  app_run,
}
use spamass.App.Path.{path_with_socket_id}
use spamass.App.{Foundation}
use spamass.Base.{
  ℕ, ◌+◌, ◌%◌, ◌^◌, ◌≡◌, refl, sym, subst, ◌∙◌, true, none, some, List, [], ◌∷◌, ◌++◌, append_assoc,
  append-nil, map, Bytes, ok, Returns, Returns-map, arith,
}
use spamass.Session.Spec.Mail.{terminated, wire, deliveries}
use spamass.Socket.Defs.{queue_data}
use spamass.Tls.{Block}

-- Every line is text in UTF-8.
abbrev pub IsUtf8 : Foundation → List Bytes → Type 0
IsUtf8 fnd [] = Unit
IsUtf8 fnd (body ∷ bodies) =
    (fnd.string (terminated body) ≡ some (terminated body)) × IsUtf8 fnd bodies

-- The connection behind a mail that has been kept under its first recipient: its record in the
-- database, the directories of its path, and its file.
pub record IsStored (fnd : Foundation) (recipient id path content : Bytes) (units : ℕ)
    (made : List Bytes) (email : Email) (socket : SmSocket) (r : Result SmSocket) : Type 0 where
  pub after : SmSocket
  -- the mail as it was when its end came
  pub whole : Email
  pub returned_eq : r ≡ returned after
  pub email_eq : after.email ≡ none
  pub socket_id_eq : after.socket_id ≡ socket.socket_id
  pub count_eq : after.email_count ≡ (socket.email_count + 1) % 2 ^ 64
  pub sender_eq : whole.sender ≡ email.sender
  pub size_eq : whole.data_size % 2 ^ 64 ≡ (email.data_size + units) % 2 ^ 64
  pub calls_eq :
      after.calls
      ≡ socket.calls
        ++ (db_puts fnd whole recipient (db_prefix recipient id email.serial)
            ++ (map make_directory made ++ write_file path content ∷ []))

-- The units of the lines.
abbrev pub units_total : Foundation → List Bytes → ℕ
units_total fnd [] = 0
units_total fnd (body ∷ bodies) = fnd.units (terminated body) + units_total fnd bodies

module _ (fnd : Foundation) (h : Block) (recipient id path : Bytes)
    (recipients made : List Bytes) where
  ended_lem :
      (email : Email) (socket : SmSocket)
      → email.recipients ≡ recipient ∷ recipients
      → email.socket_id ≡ some id
      → path_with_socket_id fnd.units id email.serial true ≡ ok (some path, made)
      → Returns
          (app_run fnd (queue_data h none true ∷ []) (record socket { email = some email }))
          (IsStored fnd recipient id path email.content 0 made email socket)
  unfolding app_run handle_email store_email app_event
  ended_lem email socket rcpts ids found =
      rw (rcpts, ids, found)
        (record {
          after = _;
          whole = email;
          returned_eq = refl;
          email_eq = refl;
          socket_id_eq = refl;
          count_eq = refl;
          sender_eq = refl;
          size_eq = omega arith;
          calls_eq = refl;
        })

  -- What is kept of a mail with a line behind it is kept of the mail.
  line_lem :
      (line content : Bytes) (units : ℕ) (email : Email) (socket : SmSocket) {r : Result SmSocket}
      (p : IsAppended fnd line line email (record socket { email = some email }) r)
      (s : Result SmSocket)
      → IsStored fnd recipient id path (p.after.content ++ content) units made p.after socket s
      → IsStored fnd recipient id path
          (email.content ++ (line ++ content))
          (fnd.units line + units)
          made
          email
          socket
          s
  line_lem line content units email socket p s q =
      let same : p.after.content ++ content ≡ email.content ++ (line ++ content) =
        rw p.content_eq (append_assoc email.content line content) in
      record {
        after = q.after;
        whole = q.whole;
        returned_eq = q.returned_eq;
        email_eq = q.email_eq;
        socket_id_eq = q.socket_id_eq;
        count_eq = q.count_eq;
        sender_eq = q.sender_eq ∙ p.sender_eq;
        size_eq = omega (arith, q.size_eq, p.size_eq);
        calls_eq = rw (sym p.serial_eq, sym same) q.calls_eq;
      }

  delivered_lem :
      (bodies : List Bytes) (email : Email) (socket : SmSocket)
      → IsUtf8 fnd bodies
      → email.recipients ≡ recipient ∷ recipients
      → email.socket_id ≡ some id
      → path_with_socket_id fnd.units id email.serial true ≡ ok (some path, made)
      → Returns
          (app_run fnd
            (deliveries h bodies ++ queue_data h none true ∷ [])
            (record socket { email = some email }))
          (IsStored fnd recipient id path
            (email.content ++ wire bodies [])
            (units_total fnd bodies)
            made
            email
            socket)
  unfolding app_run app_event
  delivered_lem [] email socket utf8 rcpts ids found =
      rw (append-nil email.content) (ended_lem email socket rcpts ids found)
  delivered_lem (body ∷ bodies) email socket utf8 rcpts ids found =
      let line = terminated body in
      let p =
        data_email-IsAppended fnd line line email (record socket { email = some email }) utf8.0 in
      let end = deliveries h bodies ++ queue_data h none true ∷ [] in
      let P =
        IsStored fnd recipient id path (p.after.content ++ wire bodies []) (units_total fnd bodies)
          made p.after socket in
      let Q =
        IsStored fnd recipient id path (email.content ++ (line ++ wire bodies []))
          (units_total fnd (body ∷ bodies)) made email socket in
      let rest =
        delivered_lem bodies p.after socket utf8.1 (p.recipients_eq ∙ rcpts) (p.socket_id_eq ∙ ids)
          (rw p.serial_eq found) in
      let kept : Returns (app_run fnd end (record socket { email = some p.after })) Q =
        Returns-map _ P Q (line_lem line (wire bodies []) (units_total fnd bodies) email socket p)
          rest in
      rw (p.returned_eq, sym (append_assoc body (b'\r' ∷ b'\n' ∷ []) (wire bodies []))) kept

  -- With a mail whose recipients, socket id and path are known, lines in UTF-8 and then the end: no
  -- exception is raised, and the mail is kept under its first recipient, in a file of what it held
  -- before and then the lines as they were sent, with its sender and the size of its text.
  pub app_run-IsStored :
      (bodies : List Bytes) (email : Email) (socket : SmSocket)
      → IsUtf8 fnd bodies
      → socket.email ≡ some email
      → email.recipients ≡ recipient ∷ recipients
      → email.socket_id ≡ some id
      → path_with_socket_id fnd.units id email.serial true ≡ ok (some path, made)
      → Returns (app_run fnd (deliveries h bodies ++ queue_data h none true ∷ []) socket) (
          IsStored fnd recipient id path
            (email.content ++ wire bodies [])
            (units_total fnd bodies)
            made
            email
            socket)
  app_run-IsStored bodies email socket utf8 given rcpts ids found =
      let whole = deliveries h bodies ++ queue_data h none true ∷ [] in
      let Q =
        IsStored fnd recipient id path (email.content ++ wire bodies []) (units_total fnd bodies)
          made email socket in
      subst (λ e. Returns (app_run fnd whole (record socket { email = e })) Q) (sym given)
        (delivered_lem bodies email socket utf8 rcpts ids found)
