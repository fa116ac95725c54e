-- ===== src/Tests/Recording.antt =====
-- A connection of which everything is known, its record file, and the base 64 and the dump of a few
-- bytes.
use spamass.Base.{
  ℕ, suc, ◌^◌, ◌≡◌, ◌≤◌, ◌<◌, refl, Bool, true, false, ◌&&◌, Option, none, some, [], ◌∷◌, ◌++◌,
  Bytes, codes, drop, length, arith, ltb, ◌==◌, if◌then◌else◌, ok, out_of_bounds, ◌>>=◌, Returns,
  replicate,
}
use spamass.Base64.Encode.{digit, output_size, encode}
use spamass.Base64.Encoded.{IsBytes, encoded, encode-encoded}
use spamass.Base64.RoundTrip.{read_back, decode-encode}
use spamass.Number.Printing.{CountsDigits}
use spamass.Os.{Os, Tm}
use spamass.Recording.Name.{IsDate}
use spamass.Recording.Opened.{IsOpened, socket_name, name_socket-IsOpened}
use spamass.Recording.Path.{make_path-out_of_bounds}
use spamass.Recording.Reading.{read_name}
use spamass.Recording.RoundTrip.{read_name-print_name}
use spamass.Recording.Steps.{HasNoNul, at}
use spamass.Recording.{print_name, make_path, name_socket, record_open}
use spamass.Socket.Defs.{Socket}
use spamass.Tests.{unread, server}

-- One less than the number of digits.
abbrev pub counted : ℕ → ℕ
counted n =
    if ltb n 10
    then 0
    else if ltb n 100
    then 1
    else if ltb n 1000
    then 2
    else if ltb n 10000
    then 3
    else if ltb n 100000
    then 4
    else 5

abbrev IsCount : ℕ → ℕ → Type 0
IsCount n d = (10 ^ d ≤ n) × (n < 10 ^ suc d)

IsCount-if :
    (n : ℕ) (b : Bool) (d e : ℕ)
    → (b ≡ true → IsCount n d)
    → (b ≡ false → IsCount n e)
    → IsCount n (if b then d else e)
IsCount-if n true d e p q = p refl
IsCount-if n false d e p q = q refl

IsCount-counted : (n : ℕ) → 0 < n → n < 10 ^ 6 → IsCount n (counted n)
IsCount-counted n pos small =
    IsCount-if n (ltb n 10) _ _ (λ e. (omega arith, ground (arith, e)))
      (λ a.
        IsCount-if n (ltb n 100) _ _ (λ e. (ground (arith, a), ground (arith, e)))
          (λ b.
            IsCount-if n (ltb n 1000) _ _ (λ e. (ground (arith, b), ground (arith, e)))
              (λ c.
                IsCount-if n (ltb n 10000) _ _ (λ e. (ground (arith, c), ground (arith, e)))
                  (λ d.
                    IsCount-if n (ltb n 100000) _ _ (λ e. (ground (arith, d), ground (arith, e)))
                      (λ f. (ground (arith, f), omega arith))))))

abbrev pub count_digits : ℕ → Option ℕ
count_digits n = if n == 0 then none else some (suc (counted n))

pub count_digits-CountsDigits : CountsDigits count_digits
count_digits-CountsDigits = record {
  few_at_zero = λ d e. cc;
  positive = λ n pos small.
      let not_zero : (n == 0) ≡ false = ground arith in
      let (low, high) = IsCount-counted n pos small in (counted n, rw not_zero refl, low, high);
}

-- 2012-09-14 21:05:09.
abbrev pub september : Tm
september = record { tm_year = 112; tm_mon = 8; tm_mday = 14; tm_hour = 21; tm_min = 5; tm_sec = 9 }

pub september-IsDate : IsDate september
september-IsDate = record {
  year = omega arith;
  mon = omega arith;
  mday = omega arith;
  hour = omega arith;
  min = omega arith;
  sec = omega arith;
}

abbrev pub unix : Os
unix = record {
  digits = count_digits;
  gmtime = λ clock. september;
  set_nodelay = λ socketfd. socketfd == 7;
  fopen = λ path. true;
  inet_ntop = λ family addr. some (codes "127.0.0.1");
}

read_name-print_name_example :
    Returns
      (print_name unix september 1347656709123 2130706433 54321
        (record { before = []; after = replicate 100 0 }))
      (λ p.
        read_name p.before
        ≡ record { date = september; millis = 123; addr = 2130706433; port = 54321 })
read_name-print_name_example =
    read_name-print_name unix september 1347656709123 2130706433 54321 (replicate 100 0)
      count_digits-CountsDigits september-IsDate (omega arith) (omega arith) (omega arith)

abbrev pub no_nul : Bytes → Bool
no_nul [] = true
no_nul (b ∷ bs) = ltb 0 b && no_nul bs

pub no_nul-HasNoNul : (bs : Bytes) → no_nul bs ≡ true → HasNoNul bs
no_nul-HasNoNul [] e = tt
no_nul-HasNoNul (b ∷ bs) e = (λ z. ground (arith, e, z), no_nul-HasNoNul bs (ground (arith, e)))

abbrev some_name : Bytes
some_name = codes "20120914220509123-127.000.000.001-54321"

make_path-out_of_bounds_example :
    make_path (codes "/tmp/") (some_name ++ replicate 61 0) (at [] 71 []) ≡ out_of_bounds
make_path-out_of_bounds_example =
    make_path-out_of_bounds (codes "/tmp/") some_name 61 (no_nul-HasNoNul (codes "/tmp/") refl)
      (no_nul-HasNoNul some_name refl) (omega arith) 71 (omega arith)

abbrev pub fresh : Socket ℕ
fresh = record (unread []) {
  emailz = record server { record_base = codes "/tmp/" };
  connect_time = 1347656709123;
  addr = 2130706433;
  port = 54321;
  record_name = replicate 100 0;
  record_path = replicate 1000 0;
}

name_socket-IsOpened_example :
    Returns
      (name_socket unix fresh >>= record_open unix)
      (λ r. IsOpened unix (codes "/tmp/") (socket_name unix fresh) [] r.0 r.1)
name_socket-IsOpened_example =
    name_socket-IsOpened unix fresh count_digits-CountsDigits september-IsDate (omega arith)
      (no_nul-HasNoNul (codes "/tmp/") refl) (omega arith) refl refl

corvette-IsBytes : IsBytes (codes "corvette")
corvette-IsBytes = (
  omega arith,
  (
    omega arith,
    (omega arith, (omega arith, (omega arith, (omega arith, (omega arith, (omega arith, tt)))))),
  ),
)

abbrev zeros : ℕ → Option Bytes
zeros n = some (replicate n 0)

encode-encoded_example :
    encode zeros false (codes "corvette")
    ≡ ok (some (encoded (codes "corvette") ++ 0 ∷ [], length (encoded (codes "corvette"))))
unfolding output_size
encode-encoded_example =
    encode-encoded zeros (codes "corvette") (replicate 13 0) corvette-IsBytes refl refl
      (omega arith)

corvette_test : encoded (codes "corvette") ≡ codes "Y29ydmV0dGU="
unfolding encoded digit
corvette_test = refl

decode-encode_example :
    (encode zeros false (codes "corvette") >>= λ o. read_back o (replicate 10 7))
    ≡ ok (codes "corvette" ++ drop 8 (replicate 10 7), 8)
unfolding output_size
decode-encode_example =
    decode-encode zeros (codes "corvette") (replicate 13 0) (replicate 10 7) corvette-IsBytes refl
      refl (omega arith) (omega arith)
