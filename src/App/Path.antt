-- ===== src/App/Path.antt =====
-- `pathWithSocketId:serial:mkdir:` of Spamass/Spamass/SMAppDelegate.m: the file of a mail, from a
-- socket id and a serial that may come from a user.
pub mod Form
pub mod Steps
pub mod Accepted
pub mod Named
use spamass.Base.{
  ℕ, ◌==◌, Bool, true, false, not, ◌&&◌, ◌||◌, Option, none, some, List, [], ◌∷◌, ◌++◌, Bytes,
  codes, c_string, take, drop, length, leb, replicate, if◌then◌else◌, Outcome, ok, ◌>>=◌,
}
use spamass.Cursor.{Cursor, Writer, puts, put, move, terminate, ◌then◌}
use spamass.Recording.{Making, Maker, ◌next◌, writing, make, copy}

-- What a byte is compared with.
pub data Kind : Type 0 where
  digit : Kind
  char : ℕ → Kind

abbrev pub is_kind : Kind → ℕ → Bool
is_kind digit b = leb b'0' b && leb b b'9'
is_kind (char c) b = b == c

-- The tests one by one; a text that ends has a NUL there, which fits nothing.
unfoldable pub has_form : List Kind → Bytes → Bool
has_form [] text = true
has_form (k ∷ ks) [] = false
has_form (k ∷ ks) (b ∷ text) = is_kind k b && has_form ks text

-- YYYYMMDDHHMMSSSSS-XXX.XXX.XXX.XXX-XXXXX.
abbrev pub id_form : List Kind
id_form =
    replicate 17 digit
    ++ char b'-'
      ∷ digit
      ∷ digit
      ∷ digit
      ∷ char b'.'
      ∷ digit
      ∷ digit
      ∷ digit
      ∷ char b'.'
      ∷ digit
      ∷ digit
      ∷ digit
      ∷ char b'.'
      ∷ digit
      ∷ digit
      ∷ digit
      ∷ char b'-'
      ∷ digit
      ∷ digit
      ∷ digit
      ∷ digit
      ∷ digit
      ∷ []

abbrev pub serial_form : List Kind
serial_form = replicate 6 digit

abbrev pub record_dir : Bytes
record_dir = codes "/Volumes/StoreX/Spamass/Record/"

-- `if (_mkdir) mkdir(path_str)`.
abbrev pub make_if : Bool → Maker
make_if true = make
make_if false = λ m. ok m

-- Some bytes of the id, a slash, and the directory.
abbrev pub directory_if : Bool → Bytes → Maker
directory_if mkdir part = writing (puts part then put b'/') next make_if mkdir

-- `strcpy(ptr, text); ptr += n`.
unfoldable pub copy_move : Bytes → ℕ → Writer
unfolding puts terminate
copy_move text n p = do
  q ← (puts text then terminate) p
  ok (move n (record { before = p.before; after = drop (length p.before) (q.before ++ q.after) }))

-- From the first `strcpy` to the last; the pointer is not used behind it.
unfoldable pub email_path : Bool → Bytes → Bytes → ℕ → Maker
unfolding puts put terminate copy_move
email_path mkdir id serial serial_length =
    let part = λ (i n : ℕ). directory_if mkdir (take n (drop i id)) in
    copy record_dir
    next part 0 4
    next part 4 2
    next part 6 2
    next part 8 2
    next part 10 2
    next part 12 2
    next copy id
    next writing (put b'_' then put b'_')
    next writing (copy_move serial serial_length)
    next copy (codes ".email")

-- The path, or nil, and the directories that have been made. `units` is `length` of an `NSString`.
unfoldable pub path_with_socket_id :
    (Bytes → ℕ) → Bytes → Bytes → Bool → Outcome (Option Bytes × List Bytes)
unfolding has_form email_path
path_with_socket_id units id serial mkdir =
    let path = do
      m ←
          email_path mkdir id serial (units serial)
            (record { cursor = record { before = []; after = replicate 1000 0 }; made = [] })
      ok (some (c_string (m.cursor.before ++ m.cursor.after)), m.made)
    in if not (units id == 39) || not (units serial == 6)
      then ok (none, [])
      else if not (has_form id_form id)
      then ok (none, [])
      else if not (has_form serial_form serial)
      then ok (none, [])
      else path
