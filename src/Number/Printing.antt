-- ===== src/Number/Printing.antt =====
-- What `emailz_print_number` prints.
use spamass.Base.{
  ℕ, zero, suc, ◌+◌, ◌-◌, ◌/◌, ◌%◌, ◌^◌, ◌≤◌, ◌<◌, ◌≡◌, refl, sym, ap, ◌∙◌, Option, none, some, [],
  ◌∷◌, ◌++◌, append_assoc, append-nil, Bytes, length, length-append, length-replicate, take, drop,
  replicate, take-length-append, drop-length-append, true, false, ltb, leb, if◌then◌else◌, arith,
  ok, ◌>>=◌, Bool-cases, inl, inr,
}
use native.Mathlib.Nat.{mod-eq-sub-div-mul, lt_of_lt_of_le, pow-le-pow_right}
use spamass.Cursor.Appends.{Appends}
use spamass.Number.Decimal.{decimal, length-decimal, decimal_pad, digit_lt, rest_lt, ten_pow_pos}
use spamass.Number.{fill, write_cases, write_digits, at_offset, print_with, width, print_number}

-- What is assumed of `(int)floor(1. + log10((double)num))`: for a positive number of up to six digits
-- it is their count, as the C library documents. At zero `log10` gives minus infinity, and C leaves
-- its conversion undefined; what is assumed there is only that a count that is not negative is one at
-- most. The manuals of the processors promise more: for minus infinity CVTTSD2SI of x86-64 gives the
-- integer indefinite value and FCVTZS of ARM saturates, which is the least int on both.
pub record CountsDigits (digits : ℕ → Option ℕ) : Type 0 where
  pub few_at_zero : (d : ℕ) → digits 0 ≡ some d → d ≤ 1
  pub positive :
      (n : ℕ)
      → 0 < n
      → n < 10 ^ 6
      → (d : ℕ) × (digits n ≡ some (suc d)) × (10 ^ d ≤ n) × (n < 10 ^ suc d)

fill_lem :
    (pad : ℕ) (after : Bytes)
    → pad ≤ length after
    → fill pad after ≡ ok (replicate pad b'0' ++ drop pad after)
unfolding fill
fill_lem zero after h = refl
fill_lem (suc pad) [] h = absurd (omega arith)
fill_lem (suc pad) (x ∷ after) h = rw (fill_lem pad after (omega arith))

write_cases_lem :
    (k num : ℕ) (after : Bytes)
    → k ≤ length after
    → num < 10 ^ k
    → write_cases k num after ≡ ok (decimal k num ++ drop k after)
unfolding write_cases decimal
write_cases_lem zero num after h s = refl
write_cases_lem (suc k) num [] h s = absurd (omega arith)
write_cases_lem (suc k) num (x ∷ after) h s =
    let small = digit_lt k num s in
    let one_byte : (48 + num / 10 ^ k) % 256 ≡ 48 + num / 10 ^ k = omega arith in
    rw (
      ← mod-eq-sub-div-mul num (10 ^ k),
      write_cases_lem k (num % 10 ^ k) after (omega arith) (rest_lt k num),
      one_byte,
    )

replicate-add : (m d : ℕ) → replicate {A = ℕ} (m + d) b'0' ≡ replicate m b'0' ++ replicate d b'0'
replicate-add zero d = ap (λ k. replicate k b'0') (omega arith)
replicate-add (suc m) d =
    let e : suc m + d ≡ suc (m + d) = omega arith in rw e (ap (◌∷◌ b'0') (replicate-add m d))

drop-replicate : (m : ℕ) (bs : Bytes) → drop m (replicate m b'0' ++ bs) ≡ bs
drop-replicate zero bs = refl
drop-replicate (suc m) bs = drop-replicate m bs

take-replicate : (m : ℕ) (bs : Bytes) → take m (replicate m b'0' ++ bs) ≡ replicate m b'0'
take-replicate zero bs = refl
take-replicate (suc m) bs = ap (◌∷◌ b'0') (take-replicate m bs)

fill_then_cases :
    (m d num : ℕ) (after : Bytes)
    → m + d ≤ length after
    → num < 10 ^ d
    → (fill (m + d) after >>= at_offset m (write_cases d num))
      ≡ ok (decimal (m + d) num ++ drop (m + d) after)
fill_then_cases m d num after room small =
    let zeros = replicate m b'0' in
    let zeros' = replicate d b'0' in
    let rest = drop (m + d) after in
    let split : replicate (m + d) b'0' ++ rest ≡ zeros ++ (zeros' ++ rest) =
      ap (λ (bs : Bytes). bs ++ rest) (replicate-add m d) ∙ append_assoc zeros zeros' rest in
    let at : drop m (zeros ++ (zeros' ++ rest)) ≡ zeros' ++ rest =
      drop-replicate m (zeros' ++ rest) in
    let before : take m (zeros ++ (zeros' ++ rest)) ≡ zeros = take-replicate m (zeros' ++ rest) in
    let behind : drop d (zeros' ++ rest) ≡ rest = drop-replicate d rest in
    rw (fill_lem (m + d) after room, split, at, before)
      (rw
        (
          write_cases_lem d num (zeros' ++ rest)
              (omega (arith, length-append zeros' rest, length-replicate {A = ℕ} d b'0')) small,
          behind,
        )
        (ap ok (
          sym (append_assoc zeros (decimal d num) rest)
          ∙ ap (λ (bs : Bytes). bs ++ rest) (sym (decimal_pad m d num small)))))

-- With fewer digits than the width, or as many.
print_with_lem :
    (m d num : ℕ) (after : Bytes)
    → m + d ≤ 6
    → m + d ≤ length after
    → num < 10 ^ d
    → print_with (some d) num (m + d) after ≡ ok (decimal (m + d) num ++ drop (m + d) after)
unfolding print_with
print_with_lem zero d num after six room small =
    let e : 0 + d ≡ d = omega arith in
    let same : ltb d d ≡ false = ground arith in
    let few : leb d 6 ≡ true = ground arith in
    rw (e, same, few) (write_cases_lem d num after (omega arith) small)
print_with_lem (suc m) d num after six room small =
    let fewer : ltb d (suc m + d) ≡ true = ground arith in
    let few : leb d 6 ≡ true = ground arith in
    let fits : leb (suc m + d) 6 ≡ true = ground arith in
    let gap : suc m + d - d ≡ suc m = omega arith in
    let cases : write_digits d num ≡ write_cases d num =
      λ i bs. ap (λ b. if b then write_cases d num bs else ok bs) few i in
    rw (fewer, fits, gap)
      (ap (λ f. fill (suc m + d) after >>= at_offset (suc m) f) cases
        ∙ fill_then_cases (suc m) d num after room small)

decimal-zero : (pad : ℕ) → decimal pad 0 ≡ replicate pad b'0'
unfolding decimal
decimal-zero pad =
    ap (λ k. decimal k 0) (omega arith)
    ∙ decimal_pad pad 0 0 (omega arith)
    ∙ append-nil (replicate pad b'0')

small_num : (num pad : ℕ) → pad ≤ 6 → num < 10 ^ pad → num < 10 ^ 6
small_num num pad six s =
    lt_of_lt_of_le s (pow-le-pow_right {n = 10} (omega arith) {i = pad} {j = 6} six)

digits_le : (d num pad : ℕ) → 10 ^ d ≤ num → num < 10 ^ pad → suc d ≤ pad
digits_le d num pad low s = elim (Bool-cases (ltb d pad)) [
  | inl fewer ↦ ground (arith, fewer)
  | inr more ↦
      let pad_le : pad ≤ d = ground (arith, more) in
      let powers : 10 ^ pad ≤ 10 ^ d =
        pow-le-pow_right {n = 10} (omega arith) {i = pad} {j = d} pad_le in
      absurd (omega (arith, powers))
]

-- Zero, whether its count is negative, none or one.
print_zero :
    (o : Option ℕ) (pad : ℕ) (after : Bytes)
    → 1 ≤ pad
    → pad ≤ 6
    → pad ≤ length after
    → ((d : ℕ) → o ≡ some d → d ≤ 1)
    → (print_with o 0 pad after ≡ ok (decimal pad 0 ++ drop pad after)) × (width o pad ≡ pad)
unfolding print_with
print_zero none pad after p six room h =
    let few : leb pad 6 ≡ true = ground arith in
    (rw few (fill_lem pad after room ∙ rw (decimal-zero pad)), refl)
print_zero (some d) pad after p six room h =
    let fits : d ≤ 1 = h d refl in
    let gap : pad - d + d ≡ pad = omega (arith, fits) in
    let small : 0 < 10 ^ d = ten_pow_pos d in
    (
      ap (λ k. print_with (some d) 0 k after) (sym gap)
          ∙ print_with_lem (pad - d) d 0 after (omega (arith, gap)) (omega (arith, gap)) small
          ∙ ap (λ k. ok (decimal k 0 ++ drop k after)) gap,
      omega (arith, fits),
    )

-- The bytes and the width, for each count of digits.
module _ (digits : ℕ → Option ℕ) (counts : CountsDigits digits) where
  print_with-decimal :
      (num pad : ℕ) (after : Bytes)
      → 1 ≤ pad
      → pad ≤ 6
      → num < 10 ^ pad
      → pad ≤ length after
      → (print_with (digits num) num pad after ≡ ok (decimal pad num ++ drop pad after))
        × (width (digits num) pad ≡ pad)
  unfolding print_with
  print_with-decimal zero pad after p six s room =
      print_zero (digits 0) pad after p six room counts.few_at_zero
  print_with-decimal (suc n) pad after p six s room =
      let num = suc n in
      let (d, e, low, high) = counts.positive num (omega arith) (small_num num pad six s) in
      let fits : suc d ≤ pad = digits_le d num pad low s in
      let gap : pad - suc d + suc d ≡ pad = omega arith in
      rw e (
        ap (λ k. print_with (some (suc d)) num k after) (sym gap)
            ∙ print_with_lem (pad - suc d) (suc d) num after (omega arith) (omega arith) high
            ∙ ap (λ k. ok (decimal k num ++ drop k after)) gap,
        omega arith,
      )

  -- A number that has room in its field, of one to six digits, is printed with zeros in front, and the
  -- pointer is left behind it: nothing else is written.
  pub print_number-Appends :
      (num pad : ℕ)
      → 1 ≤ pad
      → pad ≤ 6
      → num < 10 ^ pad
      → Appends (print_number digits num pad) (decimal pad num)
  unfolding print_number
  print_number-Appends num pad p six s cursor room =
      let field = decimal pad num in
      let rest = drop pad cursor.after in
      let wide : length field ≡ pad = length-decimal pad num in
      let (printed, moves) =
        print_with-decimal num pad cursor.after p six s (omega (arith, wide)) in
      rw (printed, moves)
        (ap ok (λ i. record {
          before =
              cursor.before
              ++ (ap (λ k. take k (field ++ rest)) (sym wide) ∙ take-length-append field rest) i;
          after =
              (ap (λ k. drop k (field ++ rest)) (sym wide)
                  ∙ drop-length-append field rest
                  ∙ ap (λ k. drop k cursor.after) (sym wide))
                i;
        }))
