-- ===== src/Hexdump/Rows.antt =====
-- How wide the rows of `hexdump` in libEmailz/src/emailz.c are.
use spamass.Base.{
  ℕ, zero, suc, ◌+◌, ◌-◌, ◌*◌, ◌/◌, ◌%◌, ◌≤◌, ◌<◌, ◌≡◌, refl, ap, ◌∙◌, max, min, Bool, true, false,
  ◌||◌, [], ◌∷◌, ◌++◌, map, Bytes, codes, arith, length, length-append, length-take, length-drop,
  take, drop, leb, ltb, ◌==◌, if◌then◌else◌, ok,
}
use spamass.Hexdump.{hex_bytes, blanks, printed, hex_row, hex_rows, ruler, hexdump}

length-hex_bytes : (bs : Bytes) → length (hex_bytes bs) ≡ 3 * length bs
unfolding hex_bytes
length-hex_bytes [] = refl
length-hex_bytes (b ∷ bs) = omega (arith, length-hex_bytes bs)

length-blanks : (n : ℕ) → length (blanks n) ≡ 3 * n
unfolding blanks
length-blanks zero = refl
length-blanks (suc n) = omega (arith, length-blanks n)

length-printed : (bs : Bytes) → length (map printed bs) ≡ length bs
length-printed [] = refl
length-printed (b ∷ bs) = ap suc (length-printed bs)

length-blanks_if :
    (b : Bool) (n : ℕ) → length (if b then blanks n else []) ≡ (if b then 3 * n else 0)
length-blanks_if true n = length-blanks n
length-blanks_if false n = refl

-- The parts of a row.
length-parts :
    (first second pad pad' text : Bytes)
    → length (
        codes "     "
        ++ (first
            ++ (pad
                ++ (codes "  " ++ (second ++ (pad' ++ (codes "  |  " ++ (text ++ codes "\n"))))))))
      ≡ 13 + length first + length pad + length second + length pad' + length text
length-parts first second pad pad' text = omega (
  arith,
  length-append first
      (pad ++ (codes "  " ++ (second ++ (pad' ++ (codes "  |  " ++ (text ++ codes "\n")))))),
  length-append pad (codes "  " ++ (second ++ (pad' ++ (codes "  |  " ++ (text ++ codes "\n"))))),
  length-append second (pad' ++ (codes "  |  " ++ (text ++ codes "\n"))),
  length-append pad' (codes "  |  " ++ (text ++ codes "\n")),
  length-append text (codes "\n"),
)

-- The row that begins at a multiple of 16 with `n` bytes left from there on has its text in the same
-- column as every other, except if 16 or 17 bytes are left: there 24 columns of padding are added to
-- a row that is already full.
pub length-hex_row :
    (buf : Bytes) (i n : ℕ)
    → length buf ≡ i + n
    → i % 16 ≡ 0
    → 1 ≤ n
    → length (hex_row buf i) ≡ 61 + min 16 n + (if n == 16 || n == 17 then 24 else 0)
unfolding hex_row
length-hex_row buf i n long start some_left =
    let len = length buf in
    let first = take 8 (drop i buf) in
    let second = take 8 (drop (i + 8) buf) in
    let b = leb len (i + length first + 1) in
    let c = leb len (i + 8 + length second + 1) in
    length-parts (hex_bytes first) (hex_bytes second) (if b then blanks (8 - len % 16) else [])
      (if c then blanks (16 - max 8 (len % 16)) else []) (map printed (take 16 (drop i buf)))
    ∙ rw
        (
          length-hex_bytes first,
          length-hex_bytes second,
          length-blanks_if b (8 - len % 16),
          length-blanks_if c (16 - max 8 (len % 16)),
          length-printed (take 16 (drop i buf)),
          length-take 8 (drop i buf),
          length-take 8 (drop (i + 8) buf),
          length-take 16 (drop i buf),
          length-drop i buf,
          length-drop (i + 8) buf,
          long,
        )
        (ground arith)

-- `n` rows, from the one that begins at `i`.
unfoldable pub all_rows : ℕ → Bytes → ℕ → Bytes
all_rows zero buf i = []
all_rows (suc n) buf i = hex_row buf i ++ all_rows n buf (i + 16)

hex_rows-all_rows :
    (fuel : ℕ) (buf : Bytes) (i n : ℕ)
    → n ≡ (length buf - i + 15) / 16
    → length buf - i < fuel
    → hex_rows fuel buf i ≡ ok (all_rows n buf i)
unfolding hex_rows all_rows
hex_rows-all_rows zero buf i n e h = absurd (omega arith)
hex_rows-all_rows (suc fuel) buf i zero e h =
    let over : ltb i (length buf) ≡ false = ground arith in rw over refl
hex_rows-all_rows (suc fuel) buf i (suc n) e h =
    let more : ltb i (length buf) ≡ true = ground arith in
    rw (more, hex_rows-all_rows fuel buf (i + 16) n (omega arith) (omega arith)) refl

-- For any input the loop ends: between two rulers stand the rows of the input, one for every 16 bytes
-- and one for what is left of them.
pub hexdump-all_rows :
    (buf : Bytes) → hexdump buf ≡ ok (ruler ++ (all_rows ((length buf + 15) / 16) buf 0 ++ ruler))
unfolding hexdump
hexdump-all_rows buf =
    rw
      (hex_rows-all_rows (suc (length buf)) buf 0 ((length buf + 15) / 16) (omega arith)
        (omega arith))
      refl
