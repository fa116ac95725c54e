-- ===== src/Hexdump.antt =====
-- `hexdump` of libEmailz/src/emailz.c, as the text that it prints.
pub mod Rows
use spamass.Base.{
  ℕ, zero, suc, ◌+◌, ◌-◌, ◌/◌, ◌%◌, max, Bool, true, false, ◌&&◌, List, [], ◌∷◌, ◌++◌, map, Bytes,
  codes, length, take, drop, replicate, ltb, leb, if◌then◌else◌, Outcome, ok, out_of_fuel, ◌>>=◌,
}

abbrev pub hex_digit : ℕ → ℕ
hex_digit d = if ltb d 10 then b'0' + d else b'a' + (d - 10)

-- `printf("%02x ", b)` for each byte.
unfoldable pub hex_bytes : Bytes → Bytes
hex_bytes [] = []
hex_bytes (b ∷ bs) = hex_digit (b / 16) ∷ hex_digit (b % 16) ∷ b' ' ∷ hex_bytes bs

-- `printf("   ")`, `n` times.
unfoldable pub blanks : ℕ → Bytes
blanks zero = []
blanks (suc n) = b' ' ∷ b' ' ∷ b' ' ∷ blanks n

abbrev pub printed : ℕ → ℕ
printed b = if leb 32 b && leb b 126 then b else b'.'

-- The body of the loop, on the row that begins at `i`.
unfoldable pub hex_row : Bytes → ℕ → Bytes
unfolding hex_bytes blanks
hex_row buf i =
    let len = length buf in
    let first = take 8 (drop i buf) in
    let second = take 8 (drop (i + 8) buf) in
    codes "     "
    ++ (hex_bytes first
        ++ ((if leb len (i + length first + 1) then blanks (8 - len % 16) else [])
            ++ (codes "  "
                ++ (hex_bytes second
                    ++ ((if leb len (i + 8 + length second + 1)
                          then blanks (16 - max 8 (len % 16))
                          else [])
                        ++ (codes "  |  "
                            ++ (map printed (take 16 (drop i buf)) ++ codes "\n")))))))

-- The loop from `i` on.
unfoldable pub hex_rows : ℕ → Bytes → ℕ → Outcome Bytes
unfolding hex_row
hex_rows zero buf i = out_of_fuel
hex_rows (suc fuel) buf i = do
  rest ← if ltb i (length buf) then hex_rows fuel buf (i + 16) else ok []
  ok (if ltb i (length buf) then hex_row buf i ++ rest else [])

abbrev pub ruler : Bytes
ruler =
    codes "     -------------------------------------------------------------------------------\n"

-- `hexdump`; every row takes a byte at least.
unfoldable pub hexdump : Bytes → Outcome Bytes
unfolding hex_rows
hexdump buf = do text ← hex_rows (suc (length buf)) buf 0; ok (ruler ++ (text ++ ruler))
