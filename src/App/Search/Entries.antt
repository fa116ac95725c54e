-- ===== src/App/Search/Entries.antt =====
-- The entries of the database that `handleEmailWithSocket:` of Spamass/Spamass/SMAppDelegate.m puts
-- for a mail, and the mail that `emailsForAddress:withBlock:` makes of them.
use spamass.App.Email.{one, Email, find_header, header_text}
use spamass.App.Mail.{AppCall, db_put, db_puts, db_prefix, last_key}
use spamass.App.Search.Keys.{IsPart, key_of, same_bytes_eq}
use spamass.App.Search.{found_email, is_other}
use spamass.App.Email.{same_bytes}
use spamass.App.{Foundation}
use spamass.Base.{
  ℕ, ◌≡◌, ◌≢◌, ◌⊎◌, inl, inr, refl, true, false, Bool-cases, some, List, [], ◌∷◌, ◌++◌, Bytes,
  codes, starts_with, arith,
}

-- What is in the database of a mail.
pub record StoredMail : Type 0 where
  pub id : Bytes
  pub serial : Bytes
  pub sender : Bytes
  pub subject : Bytes
  pub size : ℕ

-- No underscore is in the id and in the serial, and the size is read back as it was written.
pub record IsReadable (fnd : Foundation) (m : StoredMail) : Type 0 where
  pub id_part : IsPart m.id
  pub serial_part : IsPart m.serial
  pub size_back : fnd.integer (fnd.number m.size) ≡ m.size

-- A call of the database.
abbrev put_entry : Bytes × Bytes → AppCall
put_entry (key, value) = db_put (some key) (some value)

-- Its entries, in the descending order of their keys.
abbrev pub entries_of : Foundation → Bytes → StoredMail → List (Bytes × Bytes)
entries_of fnd address m =
    (key_of address m.id m.serial (codes "subject"), m.subject)
    ∷ (key_of address m.id m.serial (codes "size"), fnd.number m.size)
    ∷ (key_of address m.id m.serial (codes "sender"), m.sender)
    ∷ []

abbrev pub all_entries : Foundation → Bytes → List StoredMail → List (Bytes × Bytes)
all_entries fnd address [] = []
all_entries fnd address (m ∷ ms) = entries_of fnd address m ++ all_entries fnd address ms

-- The mail as the search puts it together.
abbrev pub as_email : Bytes → StoredMail → Email
as_email address m = record (found_email address m.id m.serial) {
  sender = some m.sender;
  data_size = m.size;
  headers = (codes "subject", one m.subject) ∷ [];
}

-- They are what the end of a mail puts into the database, but for the key that marks the end of the
-- address.
db_puts-entries_of :
    (fnd : Foundation) (address : Bytes) (m : StoredMail) (email : Email)
    → email.sender ≡ some m.sender
    → email.data_size ≡ m.size
    → header_text (find_header (codes "subject") email.headers) ≡ some m.subject
    → db_puts fnd email address (db_prefix address m.id m.serial)
      ≡ put_entry (key_of address m.id m.serial (codes "subject"), m.subject)
        ∷ put_entry (key_of address m.id m.serial (codes "sender"), m.sender)
        ∷ put_entry (key_of address m.id m.serial (codes "size"), fnd.number m.size)
        ∷ put_entry (address ++ last_key, codes "1")
        ∷ []
db_puts-entries_of fnd address m email sender size subject = rw (sender, size, subject) refl

-- Two mails that follow one another differ in the id or in the serial.
abbrev pub Differ : StoredMail → StoredMail → Type 0
Differ m n = (m.id ≢ n.id) ⊎ (m.serial ≢ n.serial)

abbrev pub Chain : List StoredMail → Type 0
Chain [] = Unit
Chain (m ∷ []) = Unit
Chain (m ∷ n ∷ ms) = Differ m n × Chain (n ∷ ms)

-- Behind the entries of an address there are none, or none whose key begins with it.
abbrev pub Ends : Bytes → List (Bytes × Bytes) → Type 0
Ends address [] = Unit
Ends address ((key, value) ∷ entries) = starts_with address key ≡ false

pub other_lem :
    (m n : StoredMail) (address : Bytes)
    → Differ m n
    → is_other (some (as_email address m)) n.id n.serial ≡ true
other_lem m n address (inl d) = elim (Bool-cases (same_bytes m.id n.id)) [
  | inl e ↦ absurd (d (same_bytes_eq m.id n.id e))
  | inr e ↦ rw e refl
]
other_lem m n address (inr d) = elim (Bool-cases (same_bytes m.serial n.serial)) [
  | inl e ↦ absurd (d (same_bytes_eq m.serial n.serial e))
  | inr e ↦ ground (arith, e)
]
