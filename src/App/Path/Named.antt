-- ===== src/App/Path/Named.antt =====
-- The name of a connection as a socket id: the file of a mail beside the record file.
use spamass.App.Path.Accepted.{IsMailPath, path_lem}
use spamass.App.Path.Form.{IsPlain, IsPlainKind, has_form-IsPlain, All-ascii}
use spamass.App.Path.{
  Kind, digit, char, is_kind, has_form, id_form, serial_form, record_dir, path_with_socket_id,
}
use spamass.App.{CountsUnits}
use spamass.Base.{
  ℕ, zero, suc, ◌+◌, ◌-◌, ◌/◌, ◌%◌, ◌^◌, ◌<◌, ◌≡◌, refl, sym, ap, subst, ◌∙◌, Bool, true, Option,
  some, List, [], ◌∷◌, ◌++◌, map, append-nil, append_assoc, Bytes, codes, c_string, All, arith,
  length, replicate, take_all, ◌==◌, Outcome, ok, ◌>>=◌, Returns, Returns-bind,
}
use spamass.Number.Decimal.{decimal, digit_lt, rest_lt, length-decimal}
use spamass.Number.Printing.{CountsDigits}
use spamass.Os.{Os, Tm}
use spamass.Recording.Name.{IsDate, name_text}
use spamass.Recording.Opened.{
  length-name_text, name_text-HasNoNul, name_socket_lem, record_open_lem, socket_name, opened,
}
use spamass.Recording.Path.{path_of, parts_of, joined, path_of-HasNoNul}
use spamass.Recording.Steps.{HasNoNul, c_string-zeros}
use spamass.Recording.{octet, name_socket, record_open}
use spamass.Socket.Defs.{Socket, Event, make_directory, file_open}

-- A field of digits.
has_form-decimal :
    (k n : ℕ) (ks : List Kind) (text : Bytes)
    → n < 10 ^ k
    → has_form ks text ≡ true
    → has_form (replicate k digit ++ ks) (decimal k n ++ text) ≡ true
unfolding has_form decimal
has_form-decimal zero n ks text small e = e
has_form-decimal (suc k) n ks text small e =
    let d : is_kind digit (b'0' + n / 10 ^ k) ≡ true = ground (arith, digit_lt k n small) in
    rw (d, has_form-decimal k (n % 10 ^ k) ks text (rest_lt k n) e) refl

has_form-char :
    (c : ℕ) (ks : List Kind) (text : Bytes)
    → has_form ks text ≡ true
    → has_form (char c ∷ ks) (c ∷ text) ≡ true
unfolding has_form
has_form-char c ks text e = let same : (c == c) ≡ true = ground arith in rw (same, e) refl

has_form-digits : (k n : ℕ) → n < 10 ^ k → has_form (replicate k digit) (decimal k n) ≡ true
unfolding has_form decimal
has_form-digits zero n small = refl
has_form-digits (suc k) n small =
    let d : is_kind digit (b'0' + n / 10 ^ k) ≡ true = ground (arith, digit_lt k n small) in
    rw (d, has_form-digits k (n % 10 ^ k) (rest_lt k n)) refl

form-IsPlain :
    (ks : List Kind) (text : Bytes)
    → All IsPlainKind ks
    → has_form ks text ≡ true
    → length text ≡ length ks
    → All IsPlain text
form-IsPlain ks text p e n =
    rw (sym (take_all (length ks) text (omega (arith, n)))) (has_form-IsPlain ks text p e).1

-- The name of a connection has the form of a socket id.
module _ (date : Tm) (connect_time addr port : ℕ) (d : IsDate date) (small : port < 2 ^ 16) where
  has_form-name_text : has_form id_form (name_text date connect_time addr port) ≡ true
  unfolding name_text
  has_form-name_text =
      let field = has_form-decimal in
      let host = has_form-char b'-' _ _ (has_form-digits 5 port (omega arith)) in
      let low =
        field 3 (octet addr 8) _ _ (omega arith)
          (has_form-char b'.' _ _ (field 3 (octet addr 0) _ _ (omega arith) host)) in
      let high = field 3 (octet addr 24) _ _ (omega arith) (
        has_form-char b'.' _ _
          (field 3 (octet addr 16) _ _ (omega arith) (has_form-char b'.' _ _ low))) in
      let time =
        field 2 date.tm_sec _ _ (omega (arith, d))
          (field 3 (connect_time % 1000) _ _ (omega arith) (has_form-char b'-' _ _ high)) in
      let day = field 2 date.tm_mday _ _ (omega (arith, d)) (
        field 2 (1 + date.tm_hour) _ _ (omega (arith, d))
          (field 2 date.tm_min _ _ (omega (arith, d)) time)) in
      field 4 (1900 + date.tm_year) _ _ (omega (arith, d))
        (field 2 (1 + date.tm_mon) _ _ (omega (arith, d)) day)

  module _ (units : Bytes → ℕ) (counts : CountsUnits units) where
    units_plain : (text : Bytes) → All IsPlain text → units text ≡ length text
    units_plain text plain = omega (
      arith,
      ap units (append-nil text),
      counts.ascii text [] (All-ascii text plain),
      counts.empty,
    )

    -- With `n` mails before it, the file of a mail of this connection.
    name_text-path :
        (n : ℕ) (mkdir : Bool)
        → n < 10 ^ 6
        → Returns
            (path_with_socket_id units (name_text date connect_time addr port) (decimal 6 n) mkdir)
            (IsMailPath (name_text date connect_time addr port) (decimal 6 n) mkdir)
    name_text-path n mkdir few =
        let name = name_text date connect_time addr port in
        let wide = length-name_text date connect_time addr port in
        let six = length-decimal 6 n in
        let form = has_form-name_text in
        let form' = has_form-digits 6 n few in
        path_lem units counts name (decimal 6 n) mkdir
          (omega
            (arith, wide, units_plain name (form-IsPlain id_form name (omega arith) form wide)))
          (omega (
            arith,
            six,
            units_plain (decimal 6 n)
                (form-IsPlain serial_form (decimal 6 n) (omega arith) form' six),
          ))
          form form'

-- The file of a mail over a connection whose record file has been opened.
abbrev pub mail_path :
    {Context : Type 0}
    → (Bytes → ℕ)
    → Bytes
    → Socket Context × Bool
    → Outcome (Socket Context × (Option Bytes × List Bytes))
mail_path units serial (t, opened) = do
  r ← path_with_socket_id units (c_string t.record_name) serial true
  ok (t, r)

-- A record file and the file of a mail, in the same directories.
pub record IsBeside (name serial : Bytes) (trace : List Event) {Context : Type 0}
    (t : Socket Context) (r : Option Bytes × List Bytes) : Type 0 where
  pub dir : Bytes
  pub record_path_eq : c_string t.record_path ≡ dir ++ (name ++ codes ".socket")
  pub mail_path_eq : r.0 ≡ some (dir ++ (name ++ (codes "__" ++ (serial ++ codes ".email"))))
  pub trace_eq :
      t.trace
      ≡ trace ++ (map make_directory (record_dir ∷ r.1) ++ file_open (c_string t.record_path) ∷ [])

-- What the two paths have in common.
beside_lem :
    {Context : Type 0} (os : Os) (s named : Socket Context) (n : ℕ)
    → s.emailz.record_base ≡ record_dir
    → (r : Option Bytes × List Bytes) → HasNoNul (socket_name os s)
    → length (socket_name os s) ≡ 39
    → IsMailPath (socket_name os s) (decimal 6 n) true r
    → IsBeside
        (socket_name os s)
        (decimal 6 n)
        s.trace
        (record (opened os (socket_name os s) s) { record_name = named.record_name })
        r
beside_lem os s named n base r no_nul long p =
    let name = socket_name os s in
    let path = path_of s.emailz.record_base name in
    let same : c_string (path ++ replicate (1000 - length path) 0) ≡ path =
      c_string-zeros path (1000 - length path) (
        path_of-HasNoNul s.emailz.record_base name 61 (subst HasNoNul (sym base) (omega arith))
          no_nul (omega (arith, long))) in
    record {
      dir = record_dir ++ joined (parts_of name);
      record_path_eq =
          same
          ∙ rw base
              (sym (append_assoc record_dir (joined (parts_of name)) (name ++ codes ".socket")));
      mail_path_eq = p.path_eq ∙ ap some (sym (append_assoc record_dir (joined (parts_of name)) _));
      trace_eq = rw (same, p.made_eq, base) refl;
    }

module _ {Context : Type 0} (os : Os) (s : Socket Context) (units : Bytes → ℕ)
    (counted : CountsUnits units) where
  -- A new connection's record file and the file of a mail that came over it, if the digits of a
  -- positive number are counted as documented and those of zero, where C leaves the conversion of
  -- minus infinity undefined, come out as one at most, the date and the port are in their ranges,
  -- both arrays hold zeros, the records are kept in the directory of the application, and fewer
  -- than a million mails came before: the name of the connection is taken as a socket id, both
  -- files are in one directory, and the directories that are made for the mail are those that were
  -- made for the record file.
  pub name_socket-IsBeside :
      (n : ℕ)
      → CountsDigits os.digits
      → IsDate (os.gmtime (s.connect_time / 1000))
      → s.port < 2 ^ 16
      → s.emailz.record_base ≡ record_dir
      → s.record_name ≡ replicate 100 0
      → s.record_path ≡ replicate 1000 0
      → n < 10 ^ 6
      → Returns
          ((name_socket os s >>= record_open os) >>= mail_path units (decimal 6 n))
          (λ q. IsBeside (socket_name os s) (decimal 6 n) s.trace q.0 q.1)
  name_socket-IsBeside n counts date small base names paths few =
      let connect_date = os.gmtime (s.connect_time / 1000) in
      let name = socket_name os s in
      let named = record s { record_name = name ++ replicate 61 0 } in
      let no_nul = name_text-HasNoNul connect_date s.connect_time s.addr s.port in
      let long = length-name_text connect_date s.connect_time s.addr s.port in
      let no_nul' : HasNoNul s.emailz.record_base = subst HasNoNul (sym base) (omega arith) in
      rw
        (
          name_socket_lem os s counts date small names,
          record_open_lem os named name no_nul' no_nul long (rw base (omega arith)) paths refl,
          c_string-zeros name 61 no_nul,
        )
        (Returns-bind (path_with_socket_id units name (decimal 6 n) true) _
          (IsMailPath name (decimal 6 n) true) _
          (name_text-path connect_date s.connect_time s.addr s.port date small units counted n true
            few)
          (λ r p. beside_lem os s named n base r no_nul long p))
