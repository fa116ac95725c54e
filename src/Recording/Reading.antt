-- ===== src/Recording/Reading.antt =====
-- Reading the name of a record file back.
use spamass.Base.{
  ℕ, ◌+◌, ◌-◌, ◌*◌, ◌%◌, ◌^◌, ◌<◌, ◌≡◌, refl, sym, ap, ◌∙◌, List, [], ◌∷◌, ◌++◌, append-nil, Bytes,
  get_or, take, drop, take-length-append, drop-length-append, arith,
}
use spamass.Number.Decimal.{decimal, length-decimal, value, value-decimal}
use spamass.Os.{Tm}
use spamass.Recording.Name.{IsDate, name_text}
use spamass.Recording.{octet}

-- What a name is made of: numbers of some width, and a byte between them.
pub data Piece : Type 0 where
  number : ℕ → Piece
  separator : Piece

-- The numbers in a name.
unfoldable pub read_pieces : List Piece → Bytes → List ℕ
read_pieces [] bs = []
read_pieces (number k ∷ ps) bs = value 0 (take k bs) ∷ read_pieces ps (drop k bs)
read_pieces (separator ∷ ps) bs = read_pieces ps (drop 1 bs)

-- yyyymmddhhmmssmmm-xxx.xxx.xxx.xxx-xxxxx.
abbrev pub pieces : List Piece
pieces =
    number 4
    ∷ number 2
    ∷ number 2
    ∷ number 2
    ∷ number 2
    ∷ number 2
    ∷ number 3
    ∷ separator
    ∷ number 3
    ∷ separator
    ∷ number 3
    ∷ separator
    ∷ number 3
    ∷ separator
    ∷ number 3
    ∷ separator
    ∷ number 5
    ∷ []

read-number :
    (k n : ℕ) (ps : List Piece) (rest : Bytes) (ns : List ℕ)
    → n < 10 ^ k
    → read_pieces ps rest ≡ ns
    → read_pieces (number k ∷ ps) (decimal k n ++ rest) ≡ n ∷ ns
unfolding read_pieces
read-number k n ps rest ns h e =
    let field = decimal k n in
    let wide = length-decimal k n in
    let first : take k (field ++ rest) ≡ field =
      ap (λ j. take j (field ++ rest)) (sym wide) ∙ take-length-append field rest in
    let behind : drop k (field ++ rest) ≡ rest =
      ap (λ j. drop j (field ++ rest)) (sym wide) ∙ drop-length-append field rest in
    let read : value 0 field ≡ n = value-decimal k n 0 h ∙ omega arith in
    rw (first, behind, read, e)

read-separator :
    (c : ℕ) (ps : List Piece) (rest : Bytes) (ns : List ℕ)
    → read_pieces ps rest ≡ ns
    → read_pieces (separator ∷ ps) (c ∷ [] ++ rest) ≡ ns
unfolding read_pieces
read-separator c ps rest ns e = e

read-last : (k n : ℕ) → n < 10 ^ k → read_pieces (number k ∷ []) (decimal k n) ≡ n ∷ []
unfolding read_pieces
read-last k n h =
    ap (read_pieces (number k ∷ [])) (sym (append-nil (decimal k n)))
    ∙ read-number k n [] [] [] h (unfold read_pieces in refl)

-- What the name of a record file tells.
pub record Origin : Type 0 where
  pub date : Tm
  pub millis : ℕ
  pub addr : ℕ
  pub port : ℕ

-- The numbers' meaning, as `emailz_socket_start` prints them.
unfoldable pub origin_of : List ℕ → Origin
origin_of ns = record {
  date = record {
    tm_year = get_or ns 0 0 - 1900;
    tm_mon = get_or ns 1 0 - 1;
    tm_mday = get_or ns 2 0;
    tm_hour = get_or ns 3 0 - 1;
    tm_min = get_or ns 4 0;
    tm_sec = get_or ns 5 0;
  };
  millis = get_or ns 6 0;
  addr = get_or ns 7 0 * 2 ^ 24 + get_or ns 8 0 * 2 ^ 16 + get_or ns 9 0 * 2 ^ 8 + get_or ns 10 0;
  port = get_or ns 11 0;
}

unfoldable pub read_name : Bytes → Origin
unfolding read_pieces origin_of
read_name name = origin_of (read_pieces pieces name)

read_pieces-name_text :
    (date : Tm) (connect_time addr port : ℕ)
    → IsDate date
    → port < 2 ^ 16
    → read_pieces pieces (name_text date connect_time addr port)
      ≡ (1900 + date.tm_year)
        ∷ (1 + date.tm_mon)
        ∷ date.tm_mday
        ∷ (1 + date.tm_hour)
        ∷ date.tm_min
        ∷ date.tm_sec
        ∷ (connect_time % 1000)
        ∷ octet addr 24
        ∷ octet addr 16
        ∷ octet addr 8
        ∷ octet addr 0
        ∷ port
        ∷ []
unfolding name_text
read_pieces-name_text date connect_time addr port d small =
    read-number 4 (1900 + date.tm_year) _ _ _ (omega (arith, d)) (
      read-number 2 (1 + date.tm_mon) _ _ _ (omega (arith, d)) (
        read-number 2 date.tm_mday _ _ _ (omega (arith, d)) (
          read-number 2 (1 + date.tm_hour) _ _ _ (omega (arith, d)) (
            read-number 2 date.tm_min _ _ _ (omega (arith, d)) (
              read-number 2 date.tm_sec _ _ _ (omega (arith, d)) (
                read-number 3 (connect_time % 1000) _ _ _ (omega arith) (
                  read-separator b'-' _ _ _ (
                    read-number 3 (octet addr 24) _ _ _ (omega arith) (
                      read-separator b'.' _ _ _ (
                        read-number 3 (octet addr 16) _ _ _ (omega arith) (
                          read-separator b'.' _ _ _ (
                            read-number 3 (octet addr 8) _ _ _ (omega arith) (
                              read-separator b'.' _ _ _ (
                                read-number 3 (octet addr 0) _ _ _ (omega arith) (
                                  read-separator b'-' _ _ _
                                    (read-last 5 port (omega arith)))))))))))))))))

-- The laid out text is read back.
pub read_name-name_text :
    (date : Tm) (connect_time addr port : ℕ)
    → IsDate date
    → addr < 2 ^ 32
    → port < 2 ^ 16
    → read_name (name_text date connect_time addr port)
      ≡ record { date = date; millis = connect_time % 1000; addr = addr; port = port }
unfolding read_name
read_name-name_text date connect_time addr port d a small =
    ap origin_of (read_pieces-name_text date connect_time addr port d small)
    ∙ unfold origin_of in ground arith
