-- ===== src/App/Mail/Whole.antt =====
-- A mail from MAIL on, and one without recipients, as `handleFrom:`, `handleRcpt:` and
-- `handleEmailWithSocket:` of Spamass/Spamass/SMAppDelegate.m take them.
use spamass.App.Email.{Email, raised}
use spamass.App.Mail.Stored.{IsUtf8, IsStored, units_total, app_run-IsStored}
use spamass.App.Mail.{
  SmSocket, is_split, split_parts, nonempty, arg_parts, handle_from, handle_rcpt, store_email,
  handle_email, app_event, app_run,
}
use spamass.App.Path.Accepted.{path_with_socket_id_lem, IsMailPath}
use spamass.App.Path.{path_with_socket_id}
use spamass.App.{Foundation, CountsUnits}
use spamass.Base.{
  ℕ, ◌+◌, ◌%◌, ◌^◌, ◌≡◌, ◌≢◌, ◌⊎◌, inl, inr, ◌↔◌, refl, true, false, Option, none, some, List, [],
  ◌∷◌, ◌++◌, Bytes, codes, All, drop, starts_with-append, ok, Returns, Returns-bind,
}
use spamass.Command.{mail, rcpt}
use spamass.Session.Spec.Mail.{wire, deliveries}
use spamass.Socket.Defs.{queue_smtp, queue_data}
use spamass.Tls.{Block}

-- An address that the application does not split, and that is not empty.
pub record IsAddress (address : Bytes) : Type 0 where
  pub whole : All (λ b. is_split b ≡ false) address
  pub some_bytes : address ≢ []

split_parts-address :
    (address rest : Bytes) (x : ℕ)
    → All (λ b. is_split b ≡ false) address
    → is_split x ≡ true
    → split_parts (address ++ x ∷ rest) ≡ address ∷ split_parts rest
unfolding split_parts
split_parts-address [] rest x p e = rw e refl
split_parts-address (b ∷ address) rest x (p, ps) e =
    rw (p, split_parts-address address rest x ps e) refl

nonempty-address :
    (address : Bytes) (parts : List Bytes)
    → address ≢ []
    → nonempty (address ∷ parts) ≡ address ∷ nonempty parts
unfolding nonempty
nonempty-address [] parts p = absurd (p refl)
nonempty-address (b ∷ address) parts p = refl

-- `FROM:<address>` and `TO:<address>`, with what may be behind it.
abbrev pub bracketed : Bytes → Bytes → Bytes → Bytes
bracketed prefix address rest = prefix ++ (b'<' ∷ (address ++ b'>' ∷ rest))

arg_parts-address :
    (prefix address rest : Bytes) (n : ℕ)
    → IsAddress address
    → drop n (bracketed prefix address rest) ≡ b'<' ∷ (address ++ b'>' ∷ rest)
    → arg_parts prefix n (some (bracketed prefix address rest))
      ≡ address ∷ nonempty (split_parts rest)
unfolding arg_parts split_parts nonempty
arg_parts-address prefix address rest n a e =
    rw
      (
        starts_with-append prefix (b'<' ∷ (address ++ b'>' ∷ rest)),
        e,
        split_parts-address address rest b'>' a.whole refl,
      )
      (nonempty-address address (split_parts rest) a.some_bytes)

no_parts : nonempty (split_parts []) ≡ []
unfolding nonempty split_parts
no_parts = refl

module _ (fnd : Foundation) (counts : CountsUnits fnd.units) where
  store_raised :
      (email : Email) (recipients : List Bytes) (id : Option Bytes) (socket : SmSocket)
      → Returns
          (store_email fnd email recipients id socket)
          (λ r. (r ≡ raised) ↔ ((recipients ≡ []) ⊎ (id ≡ none)))
  unfolding store_email
  store_raised email [] id socket = ((λ e. inl refl), (λ h. refl))
  store_raised email (recipient ∷ recipients) none socket = ((λ e. inr refl), (λ h. refl))
  store_raised email (recipient ∷ recipients) (some id) socket =
      Returns-bind (path_with_socket_id fnd.units id email.serial true) _
        (λ r. (r ≡ (none, [])) ⊎ IsMailPath id email.serial true r)
        (λ r. (r ≡ raised) ↔ ((recipient ∷ recipients ≡ []) ⊎ (some id ≡ none)))
        (path_with_socket_id_lem fnd.units counts id email.serial true)
        (λ r p. (cc, elim [ inl e ↦ cc | inr e ↦ cc ]))

  -- The end of a mail raises an exception exactly if the mail has no recipient or no socket id; in
  -- every other case it is handled to its end, inside the arrays.
  pub handle_email-raised :
      (email : Email) (socket : SmSocket)
      → Returns
          (handle_email fnd (some email) socket)
          (λ r. (r ≡ raised) ↔ ((email.recipients ≡ []) ⊎ (email.socket_id ≡ none)))
  unfolding handle_email
  handle_email-raised email socket = store_raised email email.recipients email.socket_id socket

-- A mail behind its MAIL and one RCPT.
abbrev pub new_mail : Foundation → Bytes → Bytes → SmSocket → Email
new_mail fnd sender recipient socket = record {
  sender = some sender;
  recipients = recipient ∷ [];
  socket_id = socket.socket_id;
  serial = fnd.padded ((socket.email_count + 1) % 2 ^ 64);
  data_size = 0;
  headers = [];
  last_header = none;
  is_in_headers = true;
  content = [];
}

-- The connection there.
abbrev pub addressed : Foundation → Bytes → Bytes → SmSocket → SmSocket
addressed fnd sender recipient socket = record socket {
  email = some (new_mail fnd sender recipient socket);
  email_count = (socket.email_count + 1) % 2 ^ 64;
}

module _ (fnd : Foundation) (g h : Block) (sender recipient after : Bytes) (a : IsAddress sender)
    (b : IsAddress recipient) where
  from_lem :
      (socket : SmSocket)
      → handle_rcpt fnd
          (some (bracketed (codes "TO:") recipient []))
          (handle_from fnd (some (bracketed (codes "FROM:") sender after)) socket)
        ≡ addressed fnd sender recipient socket
  unfolding handle_from handle_rcpt
  from_lem socket =
      rw
        (
          arg_parts-address (codes "FROM:") sender after 5 a refl,
          arg_parts-address (codes "TO:") recipient [] 3 b refl,
          no_parts,
        )
        refl

  -- A mail from MAIL to its end, with one sender and one recipient in angle brackets and anything
  -- behind the sender, all in UTF-8, over a connection whose socket id gives a path with the next
  -- number: no exception is raised, and the mail is kept under its recipient with its sender, its file
  -- with the bytes of its lines as they came.
  pub app_run-whole_mail :
      (bodies : List Bytes) (id path : Bytes) (made : List Bytes) (socket : SmSocket)
      → fnd.string (bracketed (codes "FROM:") sender after)
        ≡ some (bracketed (codes "FROM:") sender after)
      → fnd.string (bracketed (codes "TO:") recipient [])
        ≡ some (bracketed (codes "TO:") recipient [])
      → IsUtf8 fnd bodies
      → socket.socket_id ≡ some id
      → path_with_socket_id fnd.units id (fnd.padded ((socket.email_count + 1) % 2 ^ 64)) true
        ≡ ok (some path, made)
      → Returns
          (app_run fnd
            (queue_smtp g mail (bracketed (codes "FROM:") sender after)
              ∷ queue_smtp g rcpt (bracketed (codes "TO:") recipient [])
              ∷ (deliveries h bodies ++ queue_data h none true ∷ []))
            socket)
          (IsStored fnd recipient id path
            (wire bodies [])
            (units_total fnd bodies)
            made
            (new_mail fnd sender recipient socket)
            (addressed fnd sender recipient socket))
  unfolding app_run app_event
  app_run-whole_mail bodies id path made socket from to utf8 ids found =
      rw (from, to, from_lem socket)
        (app_run-IsStored fnd h recipient id path [] made bodies
          (new_mail fnd sender recipient socket) (addressed fnd sender recipient socket) utf8 refl
          refl ids found)
