-- ===== src/Base64/Bounds.antt =====
-- The decoder keeps to its arrays, as long as the input is ASCII and the output buffer has three
-- bytes for every four of the input.
use Prim.Native.Nat.{bit_or}
use spamass.Base.{
  ℕ, zero, suc, ◌+◌, ◌*◌, ◌/◌, ◌%◌, ◌^◌, ◌≤◌, ◌<◌, ◌≡◌, refl, ◌∙◌, Bool, true, false, [], ◌∷◌, ◌++◌,
  Bytes, arith, length, length-set, length-append, All, set, leb, ◌==◌, Outcome, ok, out_of_bounds,
  out_of_fuel, ◌>>=◌, Returns, Returns-eq_ok, Bool-cases, ◌⊎◌, inl, inr, lt→ltb, get_or,
}
use spamass.Base64.{
  decode_lookup, collect, store_if, store_group, decode_loop, decode, advance, size_mod, xx,
  decode_table,
}

abbrev pub IsAscii : Bytes → Type 0
IsAscii bs = All (λ b. b < 128) bs

-- What the inner loop promises: digits, at most four; fewer only at the end of the input.
pub record Collected (given : ℕ) (left : ℕ) (r : Bytes × Bytes) : Type 0 where
  pub few : length r.0 ≤ 4
  pub bounded : length r.0 + length r.1 ≤ given + left
  pub ascii : IsAscii r.1
  pub full : (r.1 ≡ []) ⊎ (length r.0 ≡ 4)

Collected-weaken :
    (g l g' l' : ℕ) (m : Outcome (Bytes × Bytes))
    → g + l ≤ g' + l'
    → Returns m (Collected g l)
    → Returns m (Collected g' l')
Collected-weaken g l g' l' (ok r) h c = record {
  few = c.few;
  bounded = omega (arith, c.bounded);
  ascii = c.ascii;
  full = c.full;
}
Collected-weaken g l g' l' out_of_bounds h c = c
Collected-weaken g l g' l' out_of_fuel h c = c

decode_lookup_ascii : (c : ℕ) → c < 128 → decode_lookup c ≡ ok (get_or decode_table c xx)
unfolding decode_lookup decode_table
decode_lookup_ascii c h = rw (lt→ltb c 128 h)

collect-Collected :
    (accumulated input : Bytes)
    → length accumulated ≤ 3
    → IsAscii input
    → Returns (collect accumulated input) (Collected (length accumulated) (length input))
unfolding collect
collect-Collected accumulated [] h a = record {
  few = omega arith;
  bounded = omega arith;
  ascii = tt;
  full = inl refl;
}
collect-Collected accumulated (c ∷ cs) h a =
    let d = get_or decode_table c xx in
    let next = accumulated ++ d ∷ [] in
    let longer = length-append accumulated (d ∷ []) in
    rw (decode_lookup_ascii c a.0) (elim (Bool-cases (d == xx)) [
      | inl skipped ↦ rw skipped (
          Collected-weaken (length accumulated) (length cs) (length accumulated) (suc (length cs)) _
            (omega arith) (collect-Collected accumulated cs h a.1))
      | inr digit ↦ elim (Bool-cases (length next == 4)) [
        | inl full ↦
            rw (digit, full)
              (record {
                few = ground (arith, full);
                bounded = omega (arith, longer);
                ascii = a.1;
                full = inr (ground (arith, full));
              })
        | inr more ↦
            rw (digit, more)
              (Collected-weaken (length next) (length cs) (length accumulated) (suc (length cs)) _
                (omega (arith, longer))
                (collect-Collected next cs (ground (arith, more, longer)) a.1))
      ]
    ])

store_if_lem :
    (b : Bool) (buffer : Bytes) (j v : ℕ)
    → (b ≡ true → j < length buffer)
    → (after : Bytes) × (store_if b buffer j v ≡ ok after) × (length after ≡ length buffer)
store_if_lem true buffer j v h =
    (set buffer j (v % 256), rw (lt→ltb j _ (h refl)), length-set buffer j (v % 256))
store_if_lem false buffer j v h = (buffer, refl, refl)

store_group_lem :
    (digits : Bytes) (j : ℕ) (buffer : Bytes)
    → length digits ≤ 4
    → (2 ≤ length digits → j + length digits ≤ length buffer + 1)
    → length buffer < 2 ^ 32
    → (after : Bytes) × (store_group digits j buffer ≡ ok after) × (length after ≡ length buffer)
unfolding store_group
store_group_lem digits j buffer few room small =
    let (b₁, e₁, l₁) =
      store_if_lem (leb 2 (length digits)) buffer j
        (bit_or (get_or digits 0 0 * 4) (get_or digits 1 0 / 16)) (λ e. ground arith) in
    let (b₂, e₂, l₂) =
      store_if_lem (leb 3 (length digits)) b₁ ((j + 1) % size_mod)
        (bit_or (get_or digits 1 0 * 16) (get_or digits 2 0 / 4)) (λ e. ground arith) in
    let (b₃, e₃, l₃) =
      store_if_lem (leb 4 (length digits)) b₂ ((j + 2) % size_mod)
        (bit_or (get_or digits 2 0 * 64) (get_or digits 3 0)) (λ e. ground arith) in
    (b₃, rw (e₁, e₂, e₃), l₃ ∙ l₂ ∙ l₁)

-- While the loop runs, three bytes are free for every four of the input.
abbrev Room : Bytes → ℕ → ℕ → Type 0
Room input j size = (input ≡ []) ⊎ (4 * j + 3 * length input ≤ 4 * size)

Room-next :
    (digits rest : Bytes) (n j size : ℕ)
    → Collected 0 n (digits, rest)
    → 4 * j + 3 * n ≤ 4 * size
    → size < 2 ^ 32
    → Room rest (advance j (length digits)) size
Room-next digits rest n j size c room small = elim c.full [
  | inl e ↦ inl e
  | inr four ↦ inr (rw four (omega (arith, c.bounded, four)))
]

rest_le :
    (digits rest : Bytes) (n fuel : ℕ)
    → Collected 0 n (digits, rest)
    → n ≤ suc fuel
    → length rest ≤ fuel
rest_le digits rest n fuel c f = elim c.full [
  | inl e ↦ rw e (omega arith)
  | inr four ↦ omega (arith, c.bounded, four)
]

-- A round of the outer loop, from what the inner loop has collected.
decode_round :
    (fuel : ℕ) (input digits rest : Bytes) (j : ℕ) (buffer : Bytes)
    → collect [] input ≡ ok (digits, rest)
    → Collected 0 (length input) (digits, rest)
    → 4 * j + 3 * length input ≤ 4 * length buffer
    → length buffer < 2 ^ 32
    → ((after : Bytes)
        → length after ≡ length buffer
        → Returns
            (decode_loop fuel rest (advance j (length digits)) after)
            (λ r. length r.0 ≡ length after))
    → Returns
        (collect [] input >>= λ g.
          store_group g.0 j buffer >>= λ b. decode_loop fuel g.1 (advance j (length g.0)) b)
        (λ r. length r.0 ≡ length buffer)
decode_round fuel input digits rest j buffer e c room small go =
    let (after, e', same) =
      store_group_lem digits j buffer c.few (λ two. omega (arith, c.bounded, c.few)) small in
    rw (e, e', ← same) (go after same)

Room-cons :
    (c : ℕ) (cs : Bytes) (j size : ℕ)
    → Room (c ∷ cs) j size
    → 4 * j + 3 * length (c ∷ cs) ≤ 4 * size
Room-cons c cs j size room = ground arith

decode_loop-Returns :
    (fuel : ℕ) (input : Bytes) (j : ℕ) (buffer : Bytes)
    → length input ≤ fuel
    → IsAscii input
    → Room input j (length buffer)
    → length buffer < 2 ^ 32
    → Returns (decode_loop fuel input j buffer) (λ r. length r.0 ≡ length buffer)
unfolding decode_loop
decode_loop-Returns fuel [] j buffer f a room small = refl
decode_loop-Returns zero (c ∷ cs) j buffer f a room small = absurd (omega arith)
decode_loop-Returns (suc fuel) (c ∷ cs) j buffer f a room small =
    let ((digits, rest), e, got) =
      Returns-eq_ok (collect [] (c ∷ cs)) {P = Collected 0 (length (c ∷ cs))}
        (collect-Collected [] (c ∷ cs) (omega arith) a) in
    let free = Room-cons c cs j (length buffer) room in
    decode_round fuel (c ∷ cs) digits rest j buffer e got free small λ after same.
      decode_loop-Returns fuel rest (advance j (length digits)) after
        (rest_le digits rest (length (c ∷ cs)) fuel got f) got.ascii
        (rw same (Room-next digits rest (length (c ∷ cs)) j (length buffer) got free small))
        (rw same small)

-- On ASCII input, with three bytes of output buffer at least for every four of input and a buffer of
-- less than 2 ^ 32 bytes, the decoder returns: nothing is read or written outside an array. The
-- buffer is as long as before.
pub decode-Returns :
    (input buffer : Bytes)
    → IsAscii input
    → 3 * length input ≤ 4 * length buffer
    → length buffer < 2 ^ 32
    → Returns (decode input buffer) (λ r. length r.0 ≡ length buffer)
unfolding decode
decode-Returns input buffer a room small =
    decode_loop-Returns (length input) input 0 buffer (omega arith) a (inr (omega arith)) small
