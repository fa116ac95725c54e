-- ===== src/Number/Decimal.antt =====
-- Numbers with a fixed count of decimal digits.
use native.Mathlib.Nat.{
  pow-suc, div-add-mod', mod-lt, div-lt_iff_lt-mul, one-le-pow, mod-eq_of_lt, div-eq_of_lt,
  pow-le-pow_right, mul_comm, add-mul, mul_assoc, lt_of_lt_of_le,
}
use spamass.Base.{
  ℕ, zero, suc, ◌+◌, ◌-◌, ◌*◌, ◌/◌, ◌%◌, ◌^◌, ◌<◌, ◌≡◌, refl, ap, ◌∙◌, [], ◌∷◌, ◌++◌, Bytes, length,
  replicate, arith,
}

-- `k` digits, the last ones of the number.
unfoldable pub decimal : ℕ → ℕ → Bytes
decimal zero n = []
decimal (suc k) n = (b'0' + n / 10 ^ k) ∷ decimal k (n % 10 ^ k)

-- The number that digits spell behind `acc`.
unfoldable pub value : ℕ → Bytes → ℕ
value acc [] = acc
value acc (c ∷ cs) = value (acc * 10 + (c - b'0')) cs

pub length-decimal : (k n : ℕ) → length (decimal k n) ≡ k
unfolding decimal
length-decimal zero n = refl
length-decimal (suc k) n = ap suc (length-decimal k (n % 10 ^ k))

pub ten_pow_pos : (k : ℕ) → 0 < 10 ^ k
ten_pow_pos k = one-le-pow k 10 (omega arith)

lt_pow : (m k n : ℕ) → n < 10 ^ k → n < 10 ^ (m + k)
lt_pow m k n h =
    lt_of_lt_of_le h (pow-le-pow_right {n = 10} (omega arith) {i = k} {j = m + k} (omega arith))

-- The first of `suc k` digits.
pub digit_lt : (k n : ℕ) → n < 10 ^ suc k → n / 10 ^ k < 10
digit_lt k n h =
    (div-lt_iff_lt-mul {k = 10 ^ k} {x = n} {y = 10} (ten_pow_pos k)).1
      (omega (arith, pow-suc 10 k))

pub rest_lt : (k n : ℕ) → n % 10 ^ k < 10 ^ k
rest_lt k n = mod-lt n (ten_pow_pos k)

-- The digits that are printed are read back as the number.
pub value-decimal : (k n acc : ℕ) → n < 10 ^ k → value acc (decimal k n) ≡ acc * 10 ^ k + n
unfolding value decimal
value-decimal zero n acc h = omega arith
value-decimal (suc k) n acc h =
    let d = n / 10 ^ k in
    ap (λ a. value a (decimal k (n % 10 ^ k))) (omega arith)
    ∙ value-decimal k (n % 10 ^ k) (acc * 10 + d) (rest_lt k n)
    ∙ omega (
      arith,
      add-mul (acc * 10) d (10 ^ k),
      mul_assoc acc 10 (10 ^ k),
      ap (λ (t : ℕ). acc * t) (pow-suc 10 k ∙ mul_comm (10 ^ k) 10),
      div-add-mod' n (10 ^ k),
    )

-- A number with few digits has zeros in front.
pub decimal_pad : (m k n : ℕ) → n < 10 ^ k → decimal (m + k) n ≡ replicate m b'0' ++ decimal k n
unfolding decimal
decimal_pad zero k n h = ap (λ j. decimal j n) (omega arith)
decimal_pad (suc m) k n h =
    let small : n < 10 ^ (m + k) = lt_pow m k n h in
    let e : suc m + k ≡ suc (m + k) = omega arith in
    rw (e, div-eq_of_lt small, mod-eq_of_lt small, decimal_pad m k n h)
