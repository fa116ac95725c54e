-- ===== src/Recording.antt =====
-- The record file of a connection: its name, which `emailz_socket_start` of libEmailz/src/emailz.c
-- makes, and its path, which `emailz_socket_record_open` makes.
pub mod Name
pub mod Reading
pub mod Steps
pub mod Path
pub mod Opened
pub mod RoundTrip
use spamass.Base.{
  ℕ, ◌+◌, ◌/◌, ◌%◌, ◌^◌, Bool, true, false, List, [], ◌∷◌, ◌++◌, map, Bytes, codes, c_string, take,
  drop, if◌then◌else◌, Outcome, ok, out_of_bounds, ◌>>=◌,
}
use spamass.Cursor.{Cursor, Writer, put, puts, terminate, ◌then◌}
use spamass.Number.{print_number}
use spamass.Os.{Os, Tm}
use spamass.Socket.Defs.{Socket, emit, Event, make_directory, file_open}

-- A byte of the address, from the highest.
abbrev pub octet : ℕ → ℕ → ℕ
octet addr shift = addr / 2 ^ shift % 256

-- What `emailz_socket_start` prints into `record_name`: the time in UTC, its milliseconds, the
-- address and the port.
unfoldable pub print_name : Os → Tm → ℕ → ℕ → ℕ → Writer
unfolding print_number put
print_name os date connect_time addr port =
    let print = λ (pad num : ℕ). print_number os.digits num pad in
    print 4 (1900 + date.tm_year)
    then print 2 (1 + date.tm_mon)
    then print 2 date.tm_mday
    then print 2 (1 + date.tm_hour)
    then print 2 date.tm_min
    then print 2 date.tm_sec
    then print 3 (connect_time % 1000)
    then put b'-'
    then print 3 (octet addr 24)
    then put b'.'
    then print 3 (octet addr 16)
    then put b'.'
    then print 3 (octet addr 8)
    then put b'.'
    then print 3 (octet addr 0)
    then put b'-'
    then print 5 port

-- A path in the making, and the directories that have been made so far.
pub record Making : Type 0 where
  pub cursor : Cursor
  pub made : List Bytes

abbrev pub Maker : Type 0
Maker = Making → Outcome Making

infixr 6 ◌next◌
abbrev pub ◌next◌ : Maker → Maker → Maker
◌next◌ f g m = f m >>= g

abbrev pub writing : Writer → Maker
writing f m = do cursor ← f m.cursor; ok (record m { cursor = cursor })

-- `mkdir(path)`, on the whole text in the array.
abbrev pub make : Maker
make m = ok (record m { made = m.made ++ c_string (m.cursor.before ++ m.cursor.after) ∷ [] })

-- `strcpy(ptr, text); ptr += strlen(text)`.
abbrev pub copy : Bytes → Maker
copy text = writing (puts text then terminate)

-- Some bytes of the name, a slash, and the directory.
abbrev pub directory : Bytes → Maker
directory part = writing (puts part then put b'/') next make

-- The body of `emailz_socket_record_open` up to `fopen`.
unfoldable pub make_path : Bytes → Bytes → Maker
unfolding puts put terminate
make_path base name =
    let part = λ (i n : ℕ). directory (take n (drop i name)) in
    (copy base next make)
    next part 0 4
    next part 4 2
    next part 6 2
    next part 8 2
    next part 10 2
    next part 12 2
    next copy (c_string name)
    next copy (codes ".socket")

module _ {Context : Type 0} where
  abbrev emit_all : Socket Context → List Bytes → Socket Context
  emit_all s dirs = record s { trace = s.trace ++ map make_directory dirs }

  -- `emailz_socket_record_open`.
  unfoldable pub record_open : Os → Socket Context → Outcome (Socket Context × Bool)
  unfolding make_path
  record_open os s = do
    m ←
        make_path s.emailz.record_base s.record_name
          (record { cursor = record { before = []; after = s.record_path }; made = [] })
    let path = m.cursor.before ++ m.cursor.after
    let opened =
        emit (record (emit_all s m.made) { record_path = path }) (file_open (c_string path))
    ok (record opened { record_file = os.fopen (c_string path) }, os.fopen (c_string path))

  -- The part of `emailz_socket_start` that makes the name.
  unfoldable pub name_socket : Os → Socket Context → Outcome (Socket Context)
  unfolding print_name
  name_socket os s = do
    p ←
        print_name os (os.gmtime (s.connect_time / 1000)) s.connect_time s.addr s.port
          (record { before = []; after = s.record_name })
    ok (record s { record_name = p.before ++ p.after })
