-- ===== src/Recording/Opened.antt =====
-- The name and the path of a new connection's record file together, as `emailz_socket_start` of
-- libEmailz/src/emailz.c calls for them.
use spamass.Base.{
  ℕ, ◌+◌, ◌-◌, ◌/◌, ◌%◌, ◌^◌, ◌≤◌, ◌<◌, ◌≡◌, ◌≢◌, refl, ap, ◌∙◌, zero, suc, Bool, List, [], ◌∷◌,
  ◌++◌, append_assoc, map, Bytes, length, length-append, length-replicate, replicate, drop,
  c_string, All-append, arith, ok, ◌>>=◌, Returns,
}
use spamass.Number.Decimal.{decimal, length-decimal}
use spamass.Number.Printing.{CountsDigits}
use spamass.Os.{Os, Tm}
use spamass.Recording.Name.{IsDate, name_text, print_name-Appends}
use spamass.Recording.Path.{path_of, parts_of, nested, path_of-HasNoNul, make_path-path_of}
use spamass.Recording.Steps.{HasNoNul, c_string-zeros, drop-zeros}
use spamass.Recording.{octet, name_socket, record_open}
use spamass.Socket.Defs.{Socket, Event, make_directory, file_open}

dot : ◌≢◌ {A = ℕ} b'.' 0
dot e = omega arith

dash : ◌≢◌ {A = ℕ} b'-' 0
dash e = omega arith

decimal-HasNoNul : (k n : ℕ) → HasNoNul (decimal k n)
unfolding decimal
decimal-HasNoNul zero n = tt
decimal-HasNoNul (suc k) n = (λ e. omega arith, decimal-HasNoNul k (n % 10 ^ k))

field-HasNoNul : (k n : ℕ) (bs : Bytes) → HasNoNul bs → HasNoNul (decimal k n ++ bs)
field-HasNoNul k n bs h = All-append (λ b. b ≢ 0) (decimal k n) bs (decimal-HasNoNul k n) h

pub name_text-HasNoNul :
    (date : Tm) (connect_time addr port : ℕ) → HasNoNul (name_text date connect_time addr port)
unfolding name_text
name_text-HasNoNul date connect_time addr port =
    let field = field-HasNoNul in
    let host : HasNoNul (b'-' ∷ [] ++ decimal 5 port) = (dash, decimal-HasNoNul 5 port) in
    let low = field 3 (octet addr 8) _ (dot, field 3 (octet addr 0) _ host) in
    let high = field 3 (octet addr 24) _ (dot, field 3 (octet addr 16) _ (dot, low)) in
    let time = field 2 date.tm_sec _ (field 3 (connect_time % 1000) _ (dash, high)) in
    let day = field 2 date.tm_mday _ (field 2 (1 + date.tm_hour) _ (field 2 date.tm_min _ time)) in
    field 4 (1900 + date.tm_year) _ (field 2 (1 + date.tm_mon) _ day)

length-field : (k n m : ℕ) (bs : Bytes) → length bs ≡ m → length (decimal k n ++ bs) ≡ k + m
length-field k n m bs h = omega (arith, length-append (decimal k n) bs, length-decimal k n)

pub length-name_text :
    (date : Tm) (connect_time addr port : ℕ) → length (name_text date connect_time addr port) ≡ 39
unfolding name_text
length-name_text date connect_time addr port =
    let field = length-field in
    let host : length (b'-' ∷ [] ++ decimal 5 port) ≡ 6 = ap suc (length-decimal 5 port) in
    let low = field 3 (octet addr 8) 10 _ (ap suc (field 3 (octet addr 0) 6 _ host)) in
    let high = field 3 (octet addr 24) 18 _ (ap suc (field 3 (octet addr 16) 14 _ (ap suc low))) in
    let time = field 2 date.tm_sec 25 _ (field 3 (connect_time % 1000) 22 _ (ap suc high)) in
    let day =
      field 2 date.tm_mday 31 _ (field 2 (1 + date.tm_hour) 29 _ (field 2 date.tm_min 27 _ time)) in
    field 4 (1900 + date.tm_year) 35 _ (field 2 (1 + date.tm_mon) 33 _ day)

-- The name of the connection `s`.
abbrev pub socket_name : {Context : Type 0} → Os → Socket Context → Bytes
socket_name os s = name_text (os.gmtime (s.connect_time / 1000)) s.connect_time s.addr s.port

-- The calls that make the directories and open the file.
abbrev pub opening : Bytes → Bytes → List Event
opening base name =
    map make_directory (base ∷ nested base (parts_of name)) ++ file_open (path_of base name) ∷ []

-- A connection of this name whose record file has been opened.
abbrev pub opened : {Context : Type 0} → Os → Bytes → Socket Context → Socket Context
opened os name s =
    let path = path_of s.emailz.record_base name in
    record s {
      record_path = path ++ replicate (1000 - length path) 0;
      record_file = os.fopen path;
      trace = s.trace ++ opening s.emailz.record_base name;
    }

-- The calls that open a file at the path, and what comes of it.
pub record IsOpened {Context : Type 0} (os : Os) (base name : Bytes) (trace : List Event)
    (t : Socket Context) (opened : Bool) : Type 0 where
  pub path : Bytes
  pub path_eq : path ≡ path_of base name
  pub opened_eq : opened ≡ os.fopen path
  pub file_eq : t.record_file ≡ os.fopen path
  pub name_eq : c_string t.record_name ≡ name
  pub trace_eq : t.trace ≡ trace ++ opening base name

module _ {Context : Type 0} (os : Os) (s : Socket Context) where
  pub name_socket_lem :
      CountsDigits os.digits
      → IsDate (os.gmtime (s.connect_time / 1000))
      → s.port < 2 ^ 16
      → s.record_name ≡ replicate 100 0
      → name_socket os s ≡ ok (record s { record_name = socket_name os s ++ replicate 61 0 })
  unfolding name_socket
  name_socket_lem counts date small zeros =
      let name = socket_name os s in
      let wide : length name ≡ 39 =
        length-name_text (os.gmtime (s.connect_time / 1000)) s.connect_time s.addr s.port in
      let printed =
        print_name-Appends os (os.gmtime (s.connect_time / 1000)) s.connect_time s.addr s.port
          counts date small (record { before = []; after = replicate 100 0 })
          (omega (arith, wide, length-replicate {A = ℕ} 100 0)) in
      let rest : drop (length name) (replicate 100 0) ≡ replicate 61 0 =
        drop-zeros (length name) 100 ∙ ap (λ n. replicate (100 - n) 0) wide in
      rw (zeros, printed, rest) refl

  pub record_open_lem :
      (name : Bytes)
      → HasNoNul s.emailz.record_base
      → HasNoNul name
      → length name ≡ 39
      → length s.emailz.record_base + 67 ≤ 1000
      → s.record_path ≡ replicate 1000 0
      → s.record_name ≡ name ++ replicate 61 0
      → record_open os s ≡ ok (opened os name s, os.fopen (path_of s.emailz.record_base name))
  unfolding record_open
  record_open_lem name b n long room zeros named =
      let base = s.emailz.record_base in
      let path = path_of base name in
      let text : (k : ℕ) → c_string (path ++ replicate k 0) ≡ path =
        λ k. c_string-zeros path k (path_of-HasNoNul base name 61 b n (omega arith)) in
      let made = make_path-path_of base name 61 b n (omega arith) 1000 (omega arith) in
      rw (zeros, named, made, text (1000 - length path))
        (ap
          (λ (trace : List Event). ok (
            record (opened os name s) { trace = trace; record_name = name ++ replicate 61 0 },
            os.fopen path,
          ))
          (append_assoc s.trace (map make_directory (base ∷ nested base (parts_of name)))
            (file_open path ∷ [])))

module _ {Context : Type 0} (os : Os) (s : Socket Context) where
  -- A new connection's record file, if the digits of a positive number are counted as documented
  -- and those of zero, where C leaves the conversion of minus infinity undefined, come out as one
  -- at most, the date and the port are in their ranges, both arrays hold zeros, and the directory
  -- for the records has no NUL and at most 933 bytes: its name is the printed one, its path is made
  -- of the directory, the date's directories and the name, the directories are made from the
  -- outermost on and then the file is opened, and the connection has a record file exactly if it
  -- could be opened.
  pub name_socket-IsOpened :
      CountsDigits os.digits
      → IsDate (os.gmtime (s.connect_time / 1000))
      → s.port < 2 ^ 16
      → HasNoNul s.emailz.record_base
      → length s.emailz.record_base ≤ 933
      → s.record_name ≡ replicate 100 0
      → s.record_path ≡ replicate 1000 0
      → Returns
          (name_socket os s >>= record_open os)
          (λ r. IsOpened os s.emailz.record_base (socket_name os s) s.trace r.0 r.1)
  name_socket-IsOpened counts date small b room names paths =
      let name = socket_name os s in
      let named = record s { record_name = name ++ replicate 61 0 } in
      let no_nul =
        name_text-HasNoNul (os.gmtime (s.connect_time / 1000)) s.connect_time s.addr s.port in
      let long =
        length-name_text (os.gmtime (s.connect_time / 1000)) s.connect_time s.addr s.port in
      rw
        (
          name_socket_lem os s counts date small names,
          record_open_lem os named name b no_nul long (omega arith) paths refl,
        )
        (record {
          path = path_of s.emailz.record_base name;
          path_eq = refl;
          opened_eq = refl;
          file_eq = refl;
          name_eq = c_string-zeros name 61 no_nul;
          trace_eq = refl;
        })
