-- ===== src/Number.antt =====
-- `emailz_print_number` of libEmailz/src/emailz.c.
pub mod Decimal
pub mod Printing
use spamass.Base.{
  ℕ, zero, suc, ◌+◌, ◌-◌, ◌*◌, ◌/◌, ◌%◌, ◌^◌, max, Option, none, some, [], ◌∷◌, ◌++◌, Bytes, take,
  drop, ltb, leb, if◌then◌else◌, Outcome, ok, out_of_bounds, ◌>>=◌,
}
use spamass.Cursor.{Cursor, Writer, move}

-- `*dst` to `*(dst + pad - 1)` are set to '0'; the cases fall through.
unfoldable pub fill : ℕ → Bytes → Outcome Bytes
fill zero after = ok after
fill (suc pad) [] = out_of_bounds
fill (suc pad) (x ∷ after) = do rest ← fill pad after; ok (b'0' ∷ rest)

-- The first `switch`, which has cases up to 6.
abbrev pub zero_padding : ℕ → Bytes → Outcome Bytes
zero_padding pad after = if leb pad 6 then fill pad after else ok after

-- The case `digits` of the second `switch` with all below it: each stores a digit and falls through.
unfoldable pub write_cases : ℕ → ℕ → Bytes → Outcome Bytes
write_cases zero num after = ok after
write_cases (suc k) num [] = out_of_bounds
write_cases (suc k) num (x ∷ after) = do
  let tmp = num / 10 ^ k
  rest ← write_cases k (num - tmp * 10 ^ k) after
  ok ((b'0' + tmp) % 256 ∷ rest)

abbrev pub write_digits : ℕ → ℕ → Bytes → Outcome Bytes
write_digits digits num after = if leb digits 6 then write_cases digits num after else ok after

-- On the bytes from `dst`, where that is `offset` bytes further.
abbrev pub at_offset : ℕ → (Bytes → Outcome Bytes) → Bytes → Outcome Bytes
at_offset offset f after = f (drop offset after) >>= λ rest. ok (take offset after ++ rest)

-- The two parts of the body. `none` is a value of `digits` that is negative.
unfoldable pub print_with : Option ℕ → ℕ → ℕ → Bytes → Outcome Bytes
unfolding fill write_cases
print_with none num pad after = zero_padding pad after
print_with (some digits) num pad after =
    if ltb digits pad
    then (zero_padding pad after >>= at_offset (pad - digits) (write_digits digits num))
    else write_digits digits num after

-- `MAX(pad, digits)`.
abbrev pub width : Option ℕ → ℕ → ℕ
width none pad = pad
width (some digits) pad = max pad digits

-- `emailz_print_number(ptr, num, pad)`; `digits` stands for `(int)floor(1. + log10((double)num))`.
unfoldable pub print_number : (ℕ → Option ℕ) → ℕ → ℕ → Writer
unfolding print_with
print_number digits num pad p = do
  after ← print_with (digits num) num pad p.after
  ok (move (width (digits num) pad) (record { before = p.before; after = after }))
