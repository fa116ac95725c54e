-- ===== src/Recording/RoundTrip.antt =====
-- The record name that libEmailz/src/emailz.c prints, read back.
use spamass.Base.{ℕ, ◌%◌, ◌^◌, ◌≤◌, ◌<◌, ◌≡◌, [], Bytes, length, arith, Returns}
use spamass.Number.Printing.{CountsDigits}
use spamass.Os.{Os, Tm}
use spamass.Recording.Name.{IsDate, print_name-Appends}
use spamass.Recording.Opened.{length-name_text}
use spamass.Recording.Reading.{read_name, read_name-name_text}
use spamass.Recording.{print_name}

-- If the digits of a positive number are counted as documented and those of zero, where C leaves
-- the conversion of minus infinity undefined, come out as one at most, and the date, the address
-- and the port are in their ranges: printed into an array with room for 39 bytes, the name tells
-- the date, the milliseconds, the address and the port of its connection, so that connections which
-- differ in one of these have different names.
pub read_name-print_name :
    (os : Os) (date : Tm) (connect_time addr port : ℕ) (after : Bytes)
    → CountsDigits os.digits
    → IsDate date
    → addr < 2 ^ 32
    → port < 2 ^ 16
    → 39 ≤ length after
    → Returns
        (print_name os date connect_time addr port (record { before = []; after = after }))
        (λ p.
          read_name p.before
          ≡ record { date = date; millis = connect_time % 1000; addr = addr; port = port })
read_name-print_name os date connect_time addr port after counts d a small room =
    let printed =
      print_name-Appends os date connect_time addr port counts d small
        (record { before = []; after = after })
        (omega (arith, length-name_text date connect_time addr port)) in
    rw printed (read_name-name_text date connect_time addr port d a small)
