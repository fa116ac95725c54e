-- ===== src/App/Mail/Safe.antt =====
-- The files that the application writes, and the directories that it makes, whatever the calls of
-- the library are: the invariant of the blocks of Spamass/Spamass/SMAppDelegate.m.
use spamass.App.Email.{Email, Result, returned, raised}
use spamass.App.Mail.{
  AppCall, db_put, make_directory, write_file, SmSocket, file_calls, finish, store_email,
  handle_email,
}
use spamass.App.Path.Accepted.{IsMailPath, path_with_socket_id_lem}
use spamass.App.Path.Form.{IsPlain, IsDigit}
use spamass.App.Path.Steps.{email_path_of}
use spamass.App.Path.{record_dir, path_with_socket_id}
use spamass.App.{Foundation, CountsUnits}
use spamass.Base.{
  ℕ, ◌≡◌, ◌⊎◌, inl, inr, refl, sym, ◌∙◌, true, Option, none, some, List, [], ◌∷◌, ◌++◌, map, Bytes,
  All, All-append, append_assoc, length, take, Returns, Returns-bind,
}
use spamass.Recording.Path.{nested, parts_of}

-- A directory of a date under the directory for the records: the parts of it that follow there are
-- digits only.
pub record IsRecordDir (dir : Bytes) : Type 0 where
  pub id : Bytes
  pub id_long : length id ≡ 39
  pub date_digits : All IsDigit (take 17 id)
  pub outer : List Bytes
  pub inner : List Bytes
  pub dirs_eq : nested record_dir (parts_of id) ≡ outer ++ dir ∷ inner

-- The file of a mail in such a directory: of a socket id of 39 bytes that begins with 17 digits, and
-- a serial of 6 digits, neither with a slash in it.
pub record IsMailFile (path : Bytes) : Type 0 where
  pub id : Bytes
  pub serial : Bytes
  pub path_eq : path ≡ email_path_of id serial
  pub id_long : length id ≡ 39
  pub serial_long : length serial ≡ 6
  pub date_digits : All IsDigit (take 17 id)
  pub serial_digits : All IsDigit serial
  pub id_plain : All IsPlain id
  pub serial_plain : All IsPlain serial

abbrev pub IsSafeCall : AppCall → Type 0
IsSafeCall (db_put key value) = Unit
IsSafeCall (make_directory dir) = IsRecordDir dir
IsSafeCall (write_file path content) = IsMailFile path

-- A mail has the serial of its number in the connection, and the connection's socket id.
abbrev pub IsCurrent : Foundation → Option Email → Option Bytes → ℕ → Type 0
IsCurrent fnd none socket_id count = Unit
IsCurrent fnd (some email) socket_id count =
    (email.serial ≡ fnd.padded count) × (email.socket_id ≡ socket_id)

pub record IsSound (fnd : Foundation) (socket : SmSocket) : Type 0 where
  pub calls_safe : All IsSafeCall socket.calls
  pub email_current : IsCurrent fnd socket.email socket.socket_id socket.email_count

-- What holds of the connection, unless an exception was raised.
abbrev pub UnlessRaised : {A : Type 0} → (A → Type 0) → Result A → Type 0
UnlessRaised P raised = Unit
UnlessRaised P (returned socket) = P socket

made-IsSafeCall :
    (id : Bytes) (outer dirs : List Bytes)
    → length id ≡ 39
    → All IsDigit (take 17 id)
    → nested record_dir (parts_of id) ≡ outer ++ dirs
    → All IsSafeCall (map make_directory dirs)
made-IsSafeCall id outer [] long digits e = tt
made-IsSafeCall id outer (dir ∷ dirs) long digits e = (
  record {
    id = id;
    id_long = long;
    date_digits = digits;
    outer = outer;
    inner = dirs;
    dirs_eq = e;
  },
  made-IsSafeCall id (outer ++ dir ∷ []) dirs long digits
      (e ∙ sym (append_assoc outer (dir ∷ []) dirs)),
)

-- What a mail adds to the calls behind those of the database.
stored-IsSafeCall :
    (id serial content : Bytes) (r : Option Bytes × List Bytes)
    → (r ≡ (none, [])) ⊎ IsMailPath id serial true r
    → All IsSafeCall (map make_directory r.1 ++ file_calls r.0 content)
stored-IsSafeCall id serial content r (inl e) = rw e tt
stored-IsSafeCall id serial content r (inr p) =
    let file : IsMailFile (email_path_of id serial) = record {
      id = id;
      serial = serial;
      path_eq = refl;
      id_long = p.id_long;
      serial_long = p.serial_long;
      date_digits = p.date_digits;
      serial_digits = p.serial_digits;
      id_plain = p.id_plain;
      serial_plain = p.serial_plain;
    } in
    rw (p.path_eq, p.made_eq)
      (All-append IsSafeCall (map make_directory (nested record_dir (parts_of id)))
        (write_file (email_path_of id serial) content ∷ [])
        (made-IsSafeCall id [] (nested record_dir (parts_of id)) p.id_long p.date_digits refl)
        (file, tt))

module _ (fnd : Foundation) (counts : CountsUnits fnd.units) where
  finish-IsSound :
      (calls : List AppCall) (socket : SmSocket)
      → IsSound fnd socket
      → All IsSafeCall calls
      → IsSound fnd (finish calls socket)
  finish-IsSound calls socket h p = record {
    calls_safe = All-append IsSafeCall socket.calls calls h.calls_safe p;
    email_current = tt;
  }

  store_email-IsSound :
      (email : Email) (recipients : List Bytes) (id : Option Bytes) (socket : SmSocket)
      → IsSound fnd socket
      → Returns (store_email fnd email recipients id socket) (UnlessRaised (IsSound fnd))
  unfolding store_email
  store_email-IsSound email [] id socket h = tt
  store_email-IsSound email (recipient ∷ recipients) none socket h = tt
  store_email-IsSound email (recipient ∷ recipients) (some id) socket h =
      Returns-bind (path_with_socket_id fnd.units id email.serial true) _
        (λ r. (r ≡ (none, [])) ⊎ IsMailPath id email.serial true r) (UnlessRaised (IsSound fnd))
        (path_with_socket_id_lem fnd.units counts id email.serial true)
        (λ r p.
          finish-IsSound _ socket h
            (tt, (tt, (tt, (tt, stored-IsSafeCall id email.serial email.content r p)))))

  pub handle_email-IsSound :
      (email : Option Email) (socket : SmSocket)
      → IsSound fnd socket
      → Returns (handle_email fnd email socket) (UnlessRaised (IsSound fnd))
  unfolding handle_email
  handle_email-IsSound none socket h = finish-IsSound _ socket h (tt, (tt, (tt, (tt, tt))))
  handle_email-IsSound (some email) socket h =
      store_email-IsSound email email.recipients email.socket_id socket h
