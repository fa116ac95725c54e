-- ===== src/Base64.antt =====
-- `NewBase64Decode` of libEmailz/src/emailz.c.
pub mod Bounds
pub mod NoDigits
pub mod Encode
pub mod Digits
pub mod Encoded
pub mod Groups
pub mod RoundTrip
use Prim.Native.Nat.{bit_or}
use spamass.Base.{
  ℕ, zero, suc, ◌+◌, ◌-◌, ◌*◌, ◌/◌, ◌%◌, ◌^◌, ◌≡◌, Bool, true, false, not, ◌&&◌, List, [], ◌∷◌,
  ◌++◌, Bytes, length, get_or, set, ◌==◌, ltb, leb, if◌then◌else◌, Outcome, ok, out_of_bounds,
  out_of_fuel, ◌>>=◌,
}

-- `xx`, the table's mark for a byte that is no base 64 digit.
abbrev pub xx : ℕ
xx = 65

abbrev pub row : (a b c d e f g h i j k l m n o p : ℕ) → Bytes → Bytes
row a b c d e f g h i j k l m n o p rest =
    a ∷ b ∷ c ∷ d ∷ e ∷ f ∷ g ∷ h ∷ i ∷ j ∷ k ∷ l ∷ m ∷ n ∷ o ∷ p ∷ rest

abbrev blank : Bytes → Bytes
blank = row xx xx xx xx xx xx xx xx xx xx xx xx xx xx xx xx

-- `base64DecodeLookup`, all 256 entries.
unfoldable pub decode_table : Bytes
decode_table = blank (
    blank (
      row xx xx xx xx xx xx xx xx xx xx xx 62 xx xx xx 63 (
        row 52 53 54 55 56 57 58 59 60 61 xx xx xx xx xx xx (
          row xx 0 1 2 3 4 5 6 7 8 9 10 11 12 13 14 (
            row 15 16 17 18 19 20 21 22 23 24 25 xx xx xx xx xx (
              row xx 26 27 28 29 30 31 32 33 34 35 36 37 38 39 40 (
                row 41 42 43 44 45 46 47 48 49 50 51 xx xx xx xx xx
                  (blank (blank (blank (blank (blank (blank (blank (blank [])))))))))))))))

-- `base64DecodeLookup[inputBuffer[i]]`: the index is a `char`, which is signed, so a byte from 128
-- on is a negative index.
unfoldable pub decode_lookup : ℕ → Outcome ℕ
unfolding decode_table
decode_lookup c = if ltb c 128 then ok (get_or decode_table c xx) else out_of_bounds

-- The inner loop: digits are collected in `accumulated` until it has four of them or the input ends.
unfoldable pub collect : Bytes → Bytes → Outcome (Bytes × Bytes)
collect accumulated [] = ok (accumulated, [])
collect accumulated (c ∷ cs) = do
  decode ← decode_lookup c
  let next = if decode == xx then accumulated else accumulated ++ decode ∷ []
  let rest = collect next cs
  if not (decode == xx) && length next == 4 then ok (next, cs) else rest

-- `outputBuffer[j] = v`.
abbrev pub store : Bytes → ℕ → ℕ → Outcome Bytes
store buffer j v = if ltb j (length buffer) then ok (set buffer j (v % 256)) else out_of_bounds

abbrev pub store_if : Bool → Bytes → ℕ → ℕ → Outcome Bytes
store_if true buffer j v = store buffer j v
store_if false buffer j v = ok buffer

-- `size_t` arithmetic.
abbrev pub size_mod : ℕ
size_mod = 2 ^ 64

-- The stores behind the inner loop.
unfoldable pub store_group : Bytes → ℕ → Bytes → Outcome Bytes
store_group accumulated j buffer = do
  let digit = λ (k : ℕ). get_or accumulated k 0
  let digits = length accumulated
  first ← store_if (leb 2 digits) buffer j (bit_or (digit 0 * 4) (digit 1 / 16))
  second ← store_if (leb 3 digits) first ((j + 1) % size_mod) (bit_or (digit 1 * 16) (digit 2 / 4))
  store_if (leb 4 digits) second ((j + 2) % size_mod) (bit_or (digit 2 * 64) (digit 3))

-- `j += accumulateIndex - 1`, which wraps round if no digit has been collected.
abbrev pub advance : ℕ → ℕ → ℕ
advance j index = (j + index + (size_mod - 1)) % size_mod

-- The outer loop; every round takes a byte, so `length input` rounds are enough.
unfoldable pub decode_loop : ℕ → Bytes → ℕ → Bytes → Outcome (Bytes × ℕ)
decode_loop fuel [] j buffer = ok (buffer, j)
decode_loop zero (c ∷ cs) j buffer = out_of_fuel
decode_loop (suc fuel) (c ∷ cs) j buffer = do
  (accumulated, rest) ← collect [] (c ∷ cs)
  buffer' ← store_group accumulated j buffer
  decode_loop fuel rest (advance j (length accumulated)) buffer'

-- The buffer as it is left, and `*outputLength`.
unfoldable pub decode : Bytes → Bytes → Outcome (Bytes × ℕ)
decode input buffer = decode_loop (length input) input 0 buffer
