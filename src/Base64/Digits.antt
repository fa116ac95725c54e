-- ===== src/Base64/Digits.antt =====
-- The digits of base 64: the two tables are inverse to each other, and so are the shifts of the
-- encoder and the decoder.
use Prim.Native.Nat.{bit_and, bit_or}
use spamass.Base.{
  ℕ, zero, suc, ◌+◌, ◌*◌, ◌/◌, ◌%◌, ◌<◌, ◌≡◌, refl, Bool, true, ◌&&◌, get_or, ltb, ◌==◌, ==_iff,
  arith, ok,
}
use spamass.Base64.Encode.{digit}
use spamass.Base64.{decode_lookup, decode_table, xx}

-- Whether a test holds for all numbers below `n`.
unfoldable holds_below : (ℕ → Bool) → ℕ → Bool
holds_below test zero = true
holds_below test (suc n) = holds_below test n && test n

holds_below_lem : (test : ℕ → Bool) (n x : ℕ) → holds_below test n ≡ true → x < n → test x ≡ true
unfolding holds_below
holds_below_lem test zero x h lt = absurd (omega arith)
holds_below_lem test (suc n) x h lt = ground (arith, holds_below_lem test n x)

-- An equation that holds below `n`.
equal_below : (f g : ℕ → ℕ) (n x : ℕ) → holds_below (λ k. f k == g k) n ≡ true → x < n → f x ≡ g x
equal_below f g n x h lt = (==_iff (f x) (g x)).0 (holds_below_lem (λ k. f k == g k) n x h lt)

pub digit_ascii : (d : ℕ) → d < 64 → ltb (digit d) 128 ≡ true
digit_ascii d h = holds_below_lem (λ k. ltb (digit k) 128) 64 d (unfold holds_below digit in refl) h

digit_decoded : (d : ℕ) → d < 64 → get_or decode_table (digit d) xx ≡ d
digit_decoded d h =
    equal_below (λ k. get_or decode_table (digit k) xx) (λ k. k) 64 d
      (unfold holds_below digit decode_table in refl) h

-- The decoder reads a digit as its index.
pub decode_lookup-digit : (d : ℕ) → d < 64 → decode_lookup (digit d) ≡ ok d
unfolding decode_lookup
decode_lookup-digit d h = rw (digit_ascii d h, digit_decoded d h)

-- The masks and shifts of a byte.
pub high_six : (a : ℕ) → a < 256 → bit_and a 0xFC / 4 ≡ a / 4
high_six a h =
    equal_below (λ k. bit_and k 0xFC / 4) (λ k. k / 4) 256 a (unfold holds_below in refl) h

pub low_two : (a : ℕ) → a < 256 → bit_and a 0x03 ≡ a % 4
low_two a h = equal_below (λ k. bit_and k 0x03) (λ k. k % 4) 256 a (unfold holds_below in refl) h

pub high_four : (a : ℕ) → a < 256 → bit_and a 0xF0 / 16 ≡ a / 16
high_four a h =
    equal_below (λ k. bit_and k 0xF0 / 16) (λ k. k / 16) 256 a (unfold holds_below in refl) h

pub low_four : (a : ℕ) → a < 256 → bit_and a 0x0F ≡ a % 16
low_four a h = equal_below (λ k. bit_and k 0x0F) (λ k. k % 16) 256 a (unfold holds_below in refl) h

pub high_two : (a : ℕ) → a < 256 → bit_and a 0xC0 / 64 ≡ a / 64
high_two a h =
    equal_below (λ k. bit_and k 0xC0 / 64) (λ k. k / 64) 256 a (unfold holds_below in refl) h

pub low_six : (a : ℕ) → a < 256 → bit_and a 0x3F ≡ a % 64
low_six a h = equal_below (λ k. bit_and k 0x3F) (λ k. k % 64) 256 a (unfold holds_below in refl) h

-- Digits that do not overlap are joined by addition.
or_two : (n : ℕ) → n < 256 → bit_or (n / 4 * 4) (n % 4) ≡ n
or_two n h =
    equal_below (λ k. bit_or (k / 4 * 4) (k % 4)) (λ k. k) 256 n (unfold holds_below in refl) h

or_four : (n : ℕ) → n < 1024 → bit_or (n / 16 * 16) (n % 16) ≡ n
or_four n h =
    equal_below (λ k. bit_or (k / 16 * 16) (k % 16)) (λ k. k) 1024 n (unfold holds_below in refl) h

or_six : (n : ℕ) → n < 4096 → bit_or (n / 64 * 64) (n % 64) ≡ n
or_six n h =
    equal_below (λ k. bit_or (k / 64 * 64) (k % 64)) (λ k. k) 4096 n (unfold holds_below in refl) h

pub join_two : (x y : ℕ) → x < 64 → y < 4 → bit_or (x * 4) y ≡ x * 4 + y
join_two x y h k =
    let (high, low) : (((x * 4 + y) / 4 ≡ x) × ((x * 4 + y) % 4 ≡ y)) =
      (omega arith, omega arith) in
    rw (high, low) at (or_two (x * 4 + y) (omega arith))

pub join_four : (x y : ℕ) → x < 64 → y < 16 → bit_or (x * 16) y ≡ x * 16 + y
join_four x y h k =
    let (high, low) : (((x * 16 + y) / 16 ≡ x) × ((x * 16 + y) % 16 ≡ y)) =
      (omega arith, omega arith) in
    rw (high, low) at (or_four (x * 16 + y) (omega arith))

pub join_six : (x y : ℕ) → x < 64 → y < 64 → bit_or (x * 64) y ≡ x * 64 + y
join_six x y h k =
    let (high, low) : (((x * 64 + y) / 64 ≡ x) × ((x * 64 + y) % 64 ≡ y)) =
      (omega arith, omega arith) in
    rw (high, low) at (or_six (x * 64 + y) (omega arith))
