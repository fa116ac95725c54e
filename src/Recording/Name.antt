-- ===== src/Recording/Name.antt =====
-- The name of a record file.
use spamass.Base.{ℕ, ◌+◌, ◌%◌, ◌^◌, ◌≤◌, ◌<◌, [], ◌∷◌, ◌++◌, Bytes, arith}
use spamass.Cursor.Appends.{Appends, put-Appends, then-Appends}
use spamass.Number.Decimal.{decimal}
use spamass.Number.Printing.{CountsDigits, print_number-Appends}
use spamass.Os.{Os, Tm}
use spamass.Recording.{octet, print_name}

-- The fields of a date have the ranges that `gmtime` documents, up to the year 9999.
pub record IsDate (date : Tm) : Type 0 where
  pub year : date.tm_year < 8100
  pub mon : date.tm_mon < 12
  pub mday : date.tm_mday ≤ 31
  pub hour : date.tm_hour < 24
  pub min : date.tm_min < 60
  pub sec : date.tm_sec ≤ 60

-- The layout: yyyymmddhhmmssmmm-xxx.xxx.xxx.xxx-xxxxx.
unfoldable pub name_text : Tm → ℕ → ℕ → ℕ → Bytes
name_text date connect_time addr port =
    decimal 4 (1900 + date.tm_year)
    ++ (decimal 2 (1 + date.tm_mon)
        ++ (decimal 2 date.tm_mday
            ++ (decimal 2 (1 + date.tm_hour)
                ++ (decimal 2 date.tm_min
                    ++ (decimal 2 date.tm_sec
                        ++ (decimal 3 (connect_time % 1000)
                            ++ (b'-' ∷ []
                                ++ (decimal 3 (octet addr 24)
                                    ++ (b'.' ∷ []
                                        ++ (decimal 3 (octet addr 16)
                                            ++ (b'.' ∷ []
                                                ++ (decimal 3 (octet addr 8)
                                                    ++ (b'.' ∷ []
                                                        ++ (decimal 3 (octet addr 0)
                                                            ++ (b'-' ∷ []
                                                            ++ decimal 5 port)))))))))))))))

-- If the digits of a positive number are counted as documented and those of zero, where C leaves the
-- conversion of minus infinity undefined, come out as one at most, and the date and the port are in
-- their ranges, the name is laid out as its comment says and nothing else is written; the array needs
-- 39 bytes.
pub print_name-Appends :
    (os : Os) (date : Tm) (connect_time addr port : ℕ)
    → CountsDigits os.digits
    → IsDate date
    → port < 2 ^ 16
    → Appends (print_name os date connect_time addr port) (name_text date connect_time addr port)
unfolding print_name name_text
print_name-Appends os date connect_time addr port counts d small =
    let field = λ (pad num : ℕ) (p : 1 ≤ pad) (q : pad ≤ 6) (r : num < 10 ^ pad).
      print_number-Appends os.digits counts num pad p q r in
    let two = λ (num : ℕ) (r : num < 100). field 2 num (omega arith) (omega arith) r in
    let three = λ (num : ℕ) (r : num < 1000). field 3 num (omega arith) (omega arith) r in
    then-Appends _ _ _ _ (field 4 _ (omega arith) (omega arith) (omega (arith, d))) (
      then-Appends _ _ _ _ (two _ (omega (arith, d))) (
        then-Appends _ _ _ _ (two _ (omega (arith, d))) (
          then-Appends _ _ _ _ (two _ (omega (arith, d))) (
            then-Appends _ _ _ _ (two _ (omega (arith, d))) (
              then-Appends _ _ _ _ (two _ (omega (arith, d))) (
                then-Appends _ _ _ _ (three _ (omega arith)) (
                  then-Appends _ _ _ _ (put-Appends b'-') (
                    then-Appends _ _ _ _ (three _ (omega arith)) (
                      then-Appends _ _ _ _ (put-Appends b'.') (
                        then-Appends _ _ _ _ (three _ (omega arith)) (
                          then-Appends _ _ _ _ (put-Appends b'.') (
                            then-Appends _ _ _ _ (three _ (omega arith)) (
                              then-Appends _ _ _ _ (put-Appends b'.') (
                                then-Appends _ _ _ _ (three _ (omega arith)) (
                                  then-Appends _ _ _ _ (put-Appends b'-') (
                                    field 5 _ (omega arith) (omega arith)
                                      (omega arith)))))))))))))))))
