-- ===== src/Base64/Encode.antt =====
-- `NewBase64Encode` of libEmailz/src/emailz.c.
use Prim.Native.Nat.{bit_and, bit_or}
use spamass.Base.{
  ℕ, zero, suc, ◌+◌, ◌-◌, ◌*◌, ◌/◌, ◌%◌, ◌^◌, Bool, Option, none, some, [], ◌∷◌, ◌++◌, Bytes, codes,
  length, get_or, ltb, leb, ◌==◌, if◌then◌else◌, Outcome, ok, out_of_fuel, ◌>>=◌,
}
use spamass.Cursor.{Cursor, Writer, put, terminate, ◌then◌}

-- `base64EncodeLookup`, without the NUL at its end.
abbrev pub encode_table : Bytes
encode_table = codes "ABCDEFGHIJKLMNOPQRSTUVWXYZabcdefghijklmnopqrstuvwxyz0123456789+/"

-- `base64EncodeLookup[i]`.
unfoldable pub digit : ℕ → ℕ
digit i = get_or encode_table i 0

-- The indices that the code makes of the bytes.
abbrev pub first_index : ℕ → ℕ
first_index a = bit_and a 0xFC / 4

abbrev pub second_index : ℕ → ℕ → ℕ
second_index a b = bit_or (bit_and a 0x03 * 16) (bit_and b 0xF0 / 16)

abbrev pub third_index : ℕ → ℕ → ℕ
third_index b c = bit_or (bit_and b 0x0F * 4) (bit_and c 0xC0 / 64)

abbrev pub fourth_index : ℕ → ℕ
fourth_index c = bit_and c 0x3F

-- The body of the inner loop.
abbrev pub encode_four : ℕ → ℕ → ℕ → Writer
encode_four a b c =
    put (digit (first_index a))
    then put (digit (second_index a b))
    then put (digit (third_index b c))
    then put (digit (fourth_index c))

-- The inner loop: `n` bytes are left up to `lineEnd`; the input is given from `i` on. What is left of
-- both, and the output.
unfoldable pub encode_groups : ℕ → Bytes → Cursor → Outcome (ℕ × Bytes × Cursor)
unfolding put
encode_groups n [] p = ok (n, [], p)
encode_groups n (a ∷ []) p = ok (n, a ∷ [], p)
encode_groups n (a ∷ b ∷ []) p = ok (n, a ∷ b ∷ [], p)
encode_groups n (a ∷ b ∷ c ∷ input) p =
    let more = encode_four a b c p >>= λ q. encode_groups (n - 3) input q in
    if leb 3 n then more else ok (n, a ∷ b ∷ c ∷ input, p)

-- The outer loop: a round for every line.
unfoldable pub encode_lines : ℕ → ℕ → ℕ → Bytes → Cursor → Outcome (Bytes × Cursor)
unfolding encode_groups put
encode_lines zero line_length n input p = out_of_fuel
encode_lines (suc fuel) line_length n input p = do
  (left, input', p') ← encode_groups (if ltb (length input) n then length input else n) input p
  let more = (put b'\r' then put b'\n') p' >>= λ q.
      encode_lines fuel line_length (left + line_length) input' q
  if left == length input' then ok (input', p') else more

-- The padding behind the loops.
unfoldable pub encode_rest : Bytes → Writer
unfolding put
encode_rest [] = λ p. ok p
encode_rest (a ∷ []) =
    put (digit (first_index a)) then put (digit (bit_and a 0x03 * 16)) then put b'=' then put b'='
encode_rest (a ∷ b ∷ input) =
    put (digit (first_index a))
    then put (digit (second_index a b))
    then put (digit (bit_and b 0x0F * 4))
    then put b'='

-- `outputBufferSize`, in `size_t`.
unfoldable pub output_size : Bool → ℕ → ℕ
output_size separate_lines n =
    let digits = (n / 3 + (if n % 3 == 0 then 0 else 1)) * 4 % 2 ^ 64 in
    ((if separate_lines then (digits + digits / 64 * 2) % 2 ^ 64 else digits) + 1) % 2 ^ 64

-- With the memory that `malloc` gives; every line takes a byte at least.
unfoldable pub encode_into : Option Bytes → Bool → Bytes → Outcome (Option (Bytes × ℕ))
unfolding encode_lines encode_rest terminate
encode_into none separate_lines input = ok none
encode_into (some memory) separate_lines input = do
  let line_length = if separate_lines then 48 else length input
  (rest, p) ←
      encode_lines (suc (length input)) line_length line_length input
        (record { before = []; after = memory })
  q ← (encode_rest rest then terminate) p
  ok (some (q.before ++ q.after, length q.before))

-- The text in its array and its length.
abbrev pub encode : (ℕ → Option Bytes) → Bool → Bytes → Outcome (Option (Bytes × ℕ))
encode malloc separate_lines input =
    encode_into (malloc (output_size separate_lines (length input))) separate_lines input
