-- ===== src/Base64/Encoded.antt =====
-- The text that the encoder makes without line breaks, described by division, and that the code,
-- with its masks and shifts, makes it.
use spamass.Base.{
  ℕ, zero, suc, ◌+◌, ◌-◌, ◌*◌, ◌/◌, ◌%◌, ◌^◌, ◌≤◌, ◌<◌, ◌≡◌, refl, sym, ap, ◌∙◌, append-nil, true,
  false, Option, some, [], ◌∷◌, ◌++◌, Bytes, arith, length, length-append, length-drop, drop, All,
  leb, ltb, ◌==◌, Bool-cases, inl, inr, Outcome, ok, ◌>>=◌,
}
use spamass.Base64.Digits.{
  high_six, low_two, high_four, low_four, high_two, low_six, join_two, join_four,
}
use spamass.Base64.Encode.{
  digit, second_index, third_index, encode_four, encode_groups, encode_lines, encode_rest,
  output_size, encode_into, encode,
}
use spamass.Cursor.Appends.{written, Appends, put-Appends, then-Appends, written-written}
use spamass.Cursor.{Cursor, put, terminate}

abbrev pub IsBytes : Bytes → Type 0
IsBytes bs = All (λ b. b < 256) bs

-- Base 64 as it is defined: the bits of three bytes in four digits of six bits, with `=` for digits
-- that the end of the input leaves out.
unfoldable pub encoded : Bytes → Bytes
encoded [] = []
encoded (a ∷ []) = digit (a / 4) ∷ digit (a % 4 * 16) ∷ b'=' ∷ b'=' ∷ []
encoded (a ∷ b ∷ []) = digit (a / 4) ∷ digit (a % 4 * 16 + b / 16) ∷ digit (b % 16 * 4) ∷ b'=' ∷ []
encoded (a ∷ b ∷ c ∷ bs) =
    digit (a / 4)
    ∷ digit (a % 4 * 16 + b / 16)
    ∷ digit (b % 16 * 4 + c / 64)
    ∷ digit (c % 64)
    ∷ encoded bs

second_index_lem : (a b : ℕ) → a < 256 → b < 256 → second_index a b ≡ a % 4 * 16 + b / 16
second_index_lem a b h k =
    rw (low_two a h, high_four b k) (join_four (a % 4) (b / 16) (omega arith) (omega arith))

third_index_lem : (b c : ℕ) → b < 256 → c < 256 → third_index b c ≡ b % 16 * 4 + c / 64
third_index_lem b c h k =
    rw (low_four b h, high_two c k) (join_two (b % 16) (c / 64) (omega arith) (omega arith))

put_eq : (i j : ℕ) → i ≡ j → Appends (put (digit i)) (digit j ∷ [])
put_eq i j e = rw e (put-Appends (digit j))

encode_four-Appends :
    (a b c : ℕ)
    → a < 256
    → b < 256
    → c < 256
    → Appends (encode_four a b c) (
        digit (a / 4)
        ∷ digit (a % 4 * 16 + b / 16)
        ∷ digit (b % 16 * 4 + c / 64)
        ∷ digit (c % 64)
        ∷ [])
encode_four-Appends a b c f g h =
    then-Appends _ _ (digit (a / 4) ∷ []) _ (put_eq _ _ (high_six a f)) (
      then-Appends _ _ (digit (a % 4 * 16 + b / 16) ∷ []) _ (put_eq _ _ (second_index_lem a b f g))
        (then-Appends _ _ (digit (b % 16 * 4 + c / 64) ∷ []) _
          (put_eq _ _ (third_index_lem b c g h)) (put_eq _ _ (low_six c h))))

-- What the inner loop leaves of the input.
abbrev left_over : Bytes → Bytes
left_over [] = []
left_over (a ∷ []) = a ∷ []
left_over (a ∷ b ∷ []) = a ∷ b ∷ []
left_over (a ∷ b ∷ c ∷ bs) = left_over bs

-- The text of the inner loop.
abbrev groups_text : Bytes → Bytes
groups_text [] = []
groups_text (a ∷ []) = []
groups_text (a ∷ b ∷ []) = []
groups_text (a ∷ b ∷ c ∷ bs) =
    digit (a / 4)
    ∷ digit (a % 4 * 16 + b / 16)
    ∷ digit (b % 16 * 4 + c / 64)
    ∷ digit (c % 64)
    ∷ groups_text bs

written_nil : (p : Cursor) → p ≡ written [] p
written_nil p = λ i. record { before = sym (append-nil p.before) i; after = p.after }

encode_groups_lem :
    (input : Bytes) (p : Cursor)
    → IsBytes input
    → length (groups_text input) ≤ length p.after
    → encode_groups (length input) input p
      ≡ ok (length (left_over input), left_over input, written (groups_text input) p)
unfolding encode_groups
encode_groups_lem [] p h room = ap (λ q. ok (0, [], q)) (written_nil p)
encode_groups_lem (a ∷ []) p h room = ap (λ q. ok (1, a ∷ [], q)) (written_nil p)
encode_groups_lem (a ∷ b ∷ []) p h room = ap (λ q. ok (2, a ∷ b ∷ [], q)) (written_nil p)
encode_groups_lem (a ∷ b ∷ c ∷ input) p (f, (g, (h, hs))) room =
    let four =
      digit (a / 4)
      ∷ digit (a % 4 * 16 + b / 16)
      ∷ digit (b % 16 * 4 + c / 64)
      ∷ digit (c % 64)
      ∷ [] in
    let enough : leb 3 (length (a ∷ b ∷ c ∷ input)) ≡ true = ground arith in
    let fewer : length (a ∷ b ∷ c ∷ input) - 3 ≡ length input = omega arith in
    rw (enough, encode_four-Appends a b c f g h p (omega arith), fewer)
      (encode_groups_lem input (written four p) hs (omega (arith, length-drop 4 p.after))
        ∙ ap (λ q. ok (length (left_over input), left_over input, q))
            (written-written four (groups_text input) p))

encode_lines_lem :
    (fuel : ℕ) (input : Bytes) (p : Cursor)
    → IsBytes input
    → length (groups_text input) ≤ length p.after
    → encode_lines (suc fuel) (length input) (length input) input p
      ≡ ok (left_over input, written (groups_text input) p)
unfolding encode_lines
encode_lines_lem fuel input p h room =
    let whole : ltb (length input) (length input) ≡ false = ground arith in
    let over : (length (left_over input) == length (left_over input)) ≡ true = ground arith in
    rw (whole, encode_groups_lem input p h room, over) refl

rest_text : Bytes → Bytes
rest_text input = encoded (left_over input)

encoded_split : (input : Bytes) → encoded input ≡ groups_text input ++ rest_text input
unfolding encoded rest_text
encoded_split [] = refl
encoded_split (a ∷ []) = refl
encoded_split (a ∷ b ∷ []) = refl
encoded_split (a ∷ b ∷ c ∷ input) =
    ap
      (λ t.
        digit (a / 4)
        ∷ digit (a % 4 * 16 + b / 16)
        ∷ digit (b % 16 * 4 + c / 64)
        ∷ digit (c % 64)
        ∷ t)
      (encoded_split input)

encode_rest-Appends :
    (input : Bytes) → IsBytes input → Appends (encode_rest (left_over input)) (rest_text input)
unfolding encode_rest encoded rest_text
encode_rest-Appends [] h = λ p room. ap ok (written_nil p)
encode_rest-Appends (a ∷ []) (f, u) =
    then-Appends _ _ (digit (a / 4) ∷ []) _ (put_eq _ _ (high_six a f)) (
      then-Appends _ _ (digit (a % 4 * 16) ∷ []) _ (put_eq _ _ (ap (λ k. k * 16) (low_two a f)))
        (then-Appends _ _ (b'=' ∷ []) _ (put-Appends b'=') (put-Appends b'=')))
encode_rest-Appends (a ∷ b ∷ []) (f, (g, u)) =
    then-Appends _ _ (digit (a / 4) ∷ []) _ (put_eq _ _ (high_six a f)) (
      then-Appends _ _ (digit (a % 4 * 16 + b / 16) ∷ []) _ (put_eq _ _ (second_index_lem a b f g))
        (then-Appends _ _ (digit (b % 16 * 4) ∷ []) _ (put_eq _ _ (ap (λ k. k * 4) (low_four b g)))
          (put-Appends b'=')))
encode_rest-Appends (a ∷ b ∷ c ∷ input) (f, (g, (h, hs))) = encode_rest-Appends input hs

pub length-encoded : (input : Bytes) → length (encoded input) ≡ (length input + 2) / 3 * 4
unfolding encoded
length-encoded [] = refl
length-encoded (a ∷ []) = refl
length-encoded (a ∷ b ∷ []) = refl
length-encoded (a ∷ b ∷ c ∷ input) = omega (arith, length-encoded input)

output_size_lem : (n : ℕ) → n < 2 ^ 62 → output_size false n ≡ (n + 2) / 3 * 4 + 1
unfolding output_size
output_size_lem n small = elim (Bool-cases (n % 3 == 0)) [
  | inl e ↦ rw e (ground (arith, e))
  | inr e ↦ rw e (ground (arith, e))
]

terminate_lem :
    (before : Bytes) (x : ℕ) (after : Bytes)
    → terminate (record { before = before; after = x ∷ after })
      ≡ ok (record { before = before; after = 0 ∷ after })
unfolding terminate
terminate_lem before x after = refl

-- The last byte of an array.
last_byte : (n : ℕ) (bs : Bytes) → length bs ≡ n + 1 → (x : ℕ) × (drop n bs ≡ x ∷ [])
last_byte n [] e = absurd (omega arith)
last_byte zero (x ∷ []) e = (x, refl)
last_byte zero (x ∷ y ∷ bs) e = absurd (omega arith)
last_byte (suc n) (x ∷ bs) e = last_byte n bs (omega arith)

-- Without line breaks, on fewer than 2^62 bytes, and if there is memory of the size asked for, the
-- encoder returns the base 64 text of its input with a NUL behind it, which fills the memory, and the
-- length of the text.
pub encode-encoded :
    (malloc : ℕ → Option Bytes) (input memory : Bytes)
    → IsBytes input
    → malloc (output_size false (length input)) ≡ some memory
    → length memory ≡ output_size false (length input)
    → length input < 2 ^ 62
    → encode malloc false input ≡ ok (some (encoded input ++ 0 ∷ [], length (encoded input)))
unfolding encode_into
encode-encoded malloc input memory h given size small =
    let start : Cursor = record { before = []; after = memory } in
    let wide =
      ap length (encoded_split input) ∙ length-append (groups_text input) (rest_text input) in
    let exact : length memory ≡ length (encoded input) + 1 =
      omega (arith, size, output_size_lem (length input) small, length-encoded input) in
    let (x, last) = last_byte (length (encoded input)) memory exact in
    let text : written (rest_text input) (written (groups_text input) start)
        ≡ record { before = encoded input; after = x ∷ [] } =
      written-written (groups_text input) (rest_text input) start
      ∙ ap (λ t. written t start) (sym (encoded_split input))
      ∙ ap (λ (after : Bytes). record { before = encoded input; after = after }) last in
    let finish : Cursor → Outcome (Option (Bytes × ℕ)) =
      λ q. ok (some (q.before ++ q.after, length q.before)) in
    rw
      (
        given,
        encode_lines_lem (length input) input start h (omega (arith, wide)),
        encode_rest-Appends input h (written (groups_text input) start)
            (omega (arith, wide, length-drop (length (groups_text input)) memory)),
      )
      (ap (λ q. terminate q >>= finish) text
        ∙ ap (λ q. q >>= finish) (terminate_lem (encoded input) x []))
