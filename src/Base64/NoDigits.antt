-- ===== src/Base64/NoDigits.antt =====
-- The decoder on input that holds no base 64 digit at all.
use spamass.Base.{ℕ, ◌-◌, ◌^◌, ◌<◌, ◌≡◌, refl, [], ◌∷◌, Bytes, length, All, arith, ok}
use spamass.Base64.{decode_lookup, collect, store_group, decode_loop, decode, xx}

-- No byte is a digit, and none is outside the table.
abbrev pub HasNoDigits : Bytes → Type 0
HasNoDigits bs = All (λ b. decode_lookup b ≡ ok xx) bs

collect_no_digits : (bs : Bytes) → HasNoDigits bs → collect [] bs ≡ ok ([], [])
unfolding collect
collect_no_digits [] h = refl
collect_no_digits (b ∷ bs) h = rw h.0 (collect_no_digits bs h.1)

store_no_digits : (j : ℕ) (buffer : Bytes) → store_group [] j buffer ≡ ok buffer
unfolding store_group
store_no_digits j buffer = refl

-- On input that is not empty and has no base 64 digit, the decoder writes nothing and gives the
-- greatest `size_t` as the length of its output: one has been taken from zero.
pub decode_no_digits :
    (bs buffer : Bytes)
    → 0 < length bs
    → HasNoDigits bs
    → decode bs buffer ≡ ok (buffer, 2 ^ 64 - 1)
unfolding decode decode_loop
decode_no_digits [] buffer l h = absurd (omega arith)
decode_no_digits (b ∷ bs) buffer l h = rw (collect_no_digits (b ∷ bs) h, store_no_digits 0 buffer)
