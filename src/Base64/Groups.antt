-- ===== src/Base64/Groups.antt =====
-- One round of the decoder on one group of digits: what is collected and what is stored.
use Prim.Native.Nat.{bit_or}
use spamass.Base.{
  ℕ, suc, ◌+◌, ◌*◌, ◌/◌, ◌%◌, ◌^◌, ◌<◌, ◌≡◌, refl, ap, ◌∙◌, false, [], ◌∷◌, ◌++◌, Bytes, arith,
  length, length-append, set, lt→ltb, ◌==◌, if◌then◌else◌, ok,
}
use spamass.Base64.Digits.{decode_lookup-digit, join_two, join_four, join_six}
use spamass.Base64.Encode.{digit}
use spamass.Base64.{xx, decode_lookup, decode_table, collect, store, store_group, advance, size_mod}

not_xx : (d : ℕ) → d < 64 → (d == xx) ≡ false
not_xx d h = ground arith

-- A digit is collected; the fourth ends the loop.
collect-digit :
    (accumulated : Bytes) (d : ℕ) (cs : Bytes)
    → d < 64
    → collect accumulated (digit d ∷ cs) ≡ (
        if length (accumulated ++ d ∷ []) == 4
        then ok (accumulated ++ d ∷ [], cs)
        else collect (accumulated ++ d ∷ []) cs)
unfolding collect
collect-digit accumulated d cs h = rw (decode_lookup-digit d h, not_xx d h) refl

collect-padding :
    (accumulated cs : Bytes) → collect accumulated (b'=' ∷ cs) ≡ collect accumulated cs
unfolding collect decode_lookup decode_table
collect-padding accumulated cs = refl

collect-end : (accumulated : Bytes) → collect accumulated [] ≡ ok (accumulated, [])
unfolding collect
collect-end accumulated = refl

set-behind :
    (before after : Bytes) (k v : ℕ)
    → set (before ++ after) (length before + k) v ≡ before ++ set after k v
set-behind [] after k v = ap (λ i. set after i v) (omega arith)
set-behind (x ∷ before) after k v =
    let e : length (x ∷ before) + k ≡ suc (length before + k) = omega arith in
    rw e (ap (λ bs. x ∷ bs) (set-behind before after k v))

store-behind :
    (before after : Bytes) (k v : ℕ)
    → k < length after
    → store (before ++ after) (length before + k) v ≡ ok (before ++ set after k (v % 256))
store-behind before after k v h =
    let inside =
      lt→ltb (length before + k) (length (before ++ after))
        (omega (arith, length-append before after)) in
    rw (inside, set-behind before after k (v % 256)) refl

pub collect_four :
    (d e f g : ℕ) (cs : Bytes)
    → d < 64
    → e < 64
    → f < 64
    → g < 64
    → collect [] (digit d ∷ digit e ∷ digit f ∷ digit g ∷ cs) ≡ ok (d ∷ e ∷ f ∷ g ∷ [], cs)
collect_four d e f g cs h i j k =
    collect-digit [] d _ h
    ∙ collect-digit (d ∷ []) e _ i
    ∙ collect-digit (d ∷ e ∷ []) f _ j
    ∙ collect-digit (d ∷ e ∷ f ∷ []) g cs k

pub collect_three :
    (d e f : ℕ)
    → d < 64
    → e < 64
    → f < 64
    → collect [] (digit d ∷ digit e ∷ digit f ∷ b'=' ∷ []) ≡ ok (d ∷ e ∷ f ∷ [], [])
collect_three d e f h i j =
    collect-digit [] d _ h
    ∙ collect-digit (d ∷ []) e _ i
    ∙ collect-digit (d ∷ e ∷ []) f _ j
    ∙ collect-padding (d ∷ e ∷ f ∷ []) []
    ∙ collect-end (d ∷ e ∷ f ∷ [])

pub collect_two :
    (d e : ℕ)
    → d < 64
    → e < 64
    → collect [] (digit d ∷ digit e ∷ b'=' ∷ b'=' ∷ []) ≡ ok (d ∷ e ∷ [], [])
collect_two d e h i =
    collect-digit [] d _ h
    ∙ collect-digit (d ∷ []) e _ i
    ∙ collect-padding (d ∷ e ∷ []) (b'=' ∷ [])
    ∙ collect-padding (d ∷ e ∷ []) []
    ∙ collect-end (d ∷ e ∷ [])

-- The three bytes that four digits give.
first_byte : (a e : ℕ) → a < 256 → e / 16 ≡ a % 4 → bit_or (a / 4 * 4) (e / 16) % 256 ≡ a
first_byte a e h p = rw (p, join_two (a / 4) (a % 4) (omega arith) (omega arith)) (omega arith)

second_byte :
    (b e f : ℕ)
    → b < 256
    → e < 64
    → e % 16 ≡ b / 16
    → f / 4 ≡ b % 16
    → bit_or (e * 16) (f / 4) % 256 ≡ b
second_byte b e f h i p q = rw (q, join_four e (b % 16) i (omega arith)) (omega arith)

third_byte : (c f : ℕ) → c < 256 → f < 64 → f % 4 ≡ c / 64 → bit_or (f * 64) (c % 64) % 256 ≡ c
third_byte c f h i p = rw (join_six f (c % 64) i (omega arith)) (omega arith)

module _ (before : Bytes) (small : length before < 2 ^ 62) where
  at_front :
      (after : Bytes) (v : ℕ)
      → 0 < length after
      → store (before ++ after) (length before) v ≡ ok (before ++ set after 0 (v % 256))
  at_front after v h =
      let e : length before ≡ length before + 0 = omega arith in
      ap (λ j. store (before ++ after) j v) e ∙ store-behind before after 0 v h

  at_next :
      (after : Bytes) (k v : ℕ)
      → k < 3
      → k < length after
      → store (before ++ after) ((length before + k) % size_mod) v
        ≡ ok (before ++ set after k (v % 256))
  at_next after k v few h =
      let e : (length before + k) % size_mod ≡ length before + k = omega arith in
      ap (λ j. store (before ++ after) j v) e ∙ store-behind before after k v h

  pub advance_lem : (k : ℕ) → k < 4 → advance (length before) (suc k) ≡ length before + k
  advance_lem k few = omega arith

  pub store_two :
      (a e x : ℕ) (after : Bytes)
      → a < 256
      → e / 16 ≡ a % 4
      → store_group (a / 4 ∷ e ∷ []) (length before) (before ++ x ∷ after)
        ≡ ok (before ++ a ∷ after)
  unfolding store_group
  store_two a e x after h p =
      rw (at_front (x ∷ after) (bit_or (a / 4 * 4) (e / 16)) (omega arith), first_byte a e h p) refl

  pub store_three :
      (a e b f x y : ℕ) (after : Bytes)
      → a < 256
      → b < 256
      → e < 64
      → e / 16 ≡ a % 4
      → e % 16 ≡ b / 16
      → f / 4 ≡ b % 16
      → store_group (a / 4 ∷ e ∷ f ∷ []) (length before) (before ++ x ∷ y ∷ after)
        ≡ ok (before ++ a ∷ b ∷ after)
  unfolding store_group
  store_three a e b f x y after h i j p q r =
      rw
        (
          at_front (x ∷ y ∷ after) (bit_or (a / 4 * 4) (e / 16)) (omega arith),
          first_byte a e h p,
          at_next (a ∷ y ∷ after) 1 (bit_or (e * 16) (f / 4)) (omega arith) (omega arith),
          second_byte b e f i j q r,
        )
        refl

  pub store_four :
      (a e b f c x y z : ℕ) (after : Bytes)
      → a < 256
      → b < 256
      → c < 256
      → e < 64
      → f < 64
      → e / 16 ≡ a % 4
      → e % 16 ≡ b / 16
      → f / 4 ≡ b % 16
      → f % 4 ≡ c / 64
      → store_group (a / 4 ∷ e ∷ f ∷ c % 64 ∷ []) (length before) (before ++ x ∷ y ∷ z ∷ after)
        ≡ ok (before ++ a ∷ b ∷ c ∷ after)
  unfolding store_group
  store_four a e b f c x y z after h i j k l p q r s =
      rw
        (
          at_front (x ∷ y ∷ z ∷ after) (bit_or (a / 4 * 4) (e / 16)) (omega arith),
          first_byte a e h p,
          at_next (a ∷ y ∷ z ∷ after) 1 (bit_or (e * 16) (f / 4)) (omega arith) (omega arith),
          second_byte b e f i k q r,
          at_next (a ∷ b ∷ z ∷ after) 2 (bit_or (f * 64) (c % 64)) (omega arith) (omega arith),
          third_byte c f j l s,
        )
        refl
