-- ===== src/Base64/RoundTrip.antt =====
-- What the encoder makes, the decoder reads back.
use spamass.Base.{
  ℕ, zero, suc, ◌+◌, ◌*◌, ◌/◌, ◌%◌, ◌^◌, ◌≤◌, ◌<◌, ◌≡◌, refl, sym, ap, ◌∙◌, false, Option, none,
  some, [], ◌∷◌, ◌++◌, Bytes, arith, append_assoc, length, length-append, take, drop,
  take-length-append, Outcome, ok, ◌>>=◌,
}
use spamass.Base64.Encode.{output_size, encode}
use spamass.Base64.Encoded.{IsBytes, encoded, length-encoded, encode-encoded}
use spamass.Base64.{decode_loop, decode}
use spamass.Base64.Groups.{
  collect_two, collect_three, collect_four, store_two, store_three, store_four, advance_lem,
}

-- The decoder's loop, from a position with room for the bytes.
decode_loop-encoded :
    (fuel : ℕ) (input before after : Bytes)
    → IsBytes input
    → length input ≤ length after
    → length before + length input < 2 ^ 62
    → length input ≤ fuel
    → decode_loop fuel (encoded input) (length before) (before ++ after)
      ≡ ok (before ++ (input ++ drop (length input) after), length before + length input)
unfolding decode_loop encoded
decode_loop-encoded fuel [] before after h room small enough =
    ap (λ n. ok (before ++ after, n)) (omega arith)
decode_loop-encoded fuel (a ∷ input) before [] h room small enough = absurd (omega arith)
decode_loop-encoded zero (a ∷ input) before after h room small enough = absurd (omega arith)
decode_loop-encoded (suc fuel) (a ∷ []) before (x ∷ after) (f, u) room small enough =
    rw
      (
        collect_two (a / 4) (a % 4 * 16) (omega arith) (omega arith),
        store_two before (omega arith) a (a % 4 * 16) x after f (omega arith),
        advance_lem before (omega arith) 1 (omega arith),
      )
      refl
decode_loop-encoded fuel (a ∷ b ∷ input) before (x ∷ []) h room small enough = absurd (omega arith)
decode_loop-encoded (suc fuel) (a ∷ b ∷ []) before (x ∷ y ∷ after) (f, (g, u)) room small enough =
    rw
      (
        collect_three (a / 4) (a % 4 * 16 + b / 16) (b % 16 * 4) (omega arith) (omega arith)
            (omega arith),
        store_three before (omega arith) a (a % 4 * 16 + b / 16) b (b % 16 * 4) x y after f g
            (omega arith) (omega arith) (omega arith) (omega arith),
        advance_lem before (omega arith) 2 (omega arith),
      )
      refl
decode_loop-encoded fuel (a ∷ b ∷ c ∷ input) before (x ∷ y ∷ []) h room small enough =
    absurd (omega arith)
decode_loop-encoded (suc fuel) (a ∷ b ∷ c ∷ input) before (x ∷ y ∷ z ∷ after) (f, (g, (h, hs))) room
      small enough =
    let three = a ∷ b ∷ c ∷ [] in
    let longer = length-append before three in
    rw
      (
        collect_four (a / 4) (a % 4 * 16 + b / 16) (b % 16 * 4 + c / 64) (c % 64) (encoded input)
            (omega arith) (omega arith) (omega arith) (omega arith),
        store_four before (omega arith) a (a % 4 * 16 + b / 16) b (b % 16 * 4 + c / 64) c x y z
            after f g h (omega arith) (omega arith) (omega arith) (omega arith) (omega arith)
            (omega arith),
        advance_lem before (omega arith) 3 (omega arith),
      )
      (ap (λ j. decode_loop fuel (encoded input) j (before ++ a ∷ b ∷ c ∷ after)) (sym longer)
        ∙ ap (decode_loop fuel (encoded input) (length (before ++ three)))
            (sym (append_assoc before three after))
        ∙ decode_loop-encoded fuel input (before ++ three) after hs (omega arith)
            (omega (arith, longer)) (omega arith)
        ∙ ap (λ r. ok r)
            (λ i. (
              append_assoc before three (input ++ drop (length input) after) i,
              (let e : length (before ++ three) + length input
                        ≡ length before + length (a ∷ b ∷ c ∷ input) =
                      omega (arith, longer) in
                    e)
                  i,
            )))

decode-encoded :
    (input buffer : Bytes)
    → IsBytes input
    → length input ≤ length buffer
    → length input < 2 ^ 62
    → decode (encoded input) buffer ≡ ok (input ++ drop (length input) buffer, length input)
unfolding decode
decode-encoded input buffer h room small =
    decode_loop-encoded (length (encoded input)) input [] buffer h room (omega arith)
      (omega (arith, length-encoded input))
    ∙ ap (λ n. ok (input ++ drop (length input) buffer, n)) (omega arith)

-- The decoder on a text of the given length.
abbrev pub read_back : Option (Bytes × ℕ) → Bytes → Outcome (Bytes × ℕ)
read_back none buffer = ok (buffer, 0)
read_back (some (text, n)) buffer = decode (take n text) buffer

-- Fewer than 2^62 bytes, encoded without line breaks in the memory that was asked for and decoded
-- into a buffer that has room for them, are the same bytes, with their number; the rest of the
-- buffer is as it was.
pub decode-encode :
    (malloc : ℕ → Option Bytes) (input memory buffer : Bytes)
    → IsBytes input
    → malloc (output_size false (length input)) ≡ some memory
    → length memory ≡ output_size false (length input)
    → length input ≤ length buffer
    → length input < 2 ^ 62
    → (encode malloc false input >>= λ o. read_back o buffer)
      ≡ ok (input ++ drop (length input) buffer, length input)
decode-encode malloc input memory buffer h given size room small =
    rw
      (
        encode-encoded malloc input memory h given size small,
        take-length-append (encoded input) (0 ∷ []),
      )
      (decode-encoded input buffer h room small)
