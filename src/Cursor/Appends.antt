-- ===== src/Cursor/Appends.antt =====
-- Writers that put known bytes at the pointer and move it behind them.
use spamass.Base.{
  ℕ, zero, suc, ◌+◌, ◌≤◌, ◌≡◌, refl, sym, ap, ◌∙◌, [], ◌∷◌, ◌++◌, append_assoc, append-nil, Bytes,
  length, length-append, length-drop, drop, drop_all, arith, ok,
}
use spamass.Cursor.{Cursor, Writer, put, puts, ◌then◌}

-- The bytes stored at the pointer, and the pointer behind them.
abbrev pub written : Bytes → Cursor → Cursor
written bs p = record { before = p.before ++ bs; after = drop (length bs) p.after }

-- If there is room for the bytes, the writer stores them and nothing else.
abbrev pub Appends : Writer → Bytes → Type 0
Appends f bs = (p : Cursor) → length bs ≤ length p.after → f p ≡ ok (written bs p)

pub drop-drop : (m n : ℕ) (xs : Bytes) → drop n (drop m xs) ≡ drop (m + n) xs
drop-drop zero n xs = ap (λ k. drop k xs) (omega arith)
drop-drop (suc m) n [] =
    drop_all n [] (omega arith) ∙ sym (drop_all {A = ℕ} (suc m + n) [] (omega arith))
drop-drop (suc m) n (x ∷ xs) =
    let e : suc m + n ≡ suc (m + n) = omega arith in rw e (drop-drop m n xs)

pub written-written :
    (xs ys : Bytes) (p : Cursor) → written ys (written xs p) ≡ written (xs ++ ys) p
written-written xs ys p =
    let behind : drop (length ys) (drop (length xs) p.after) ≡ drop (length (xs ++ ys)) p.after =
      drop-drop (length xs) (length ys) p.after
      ∙ ap (λ k. drop k p.after) (sym (length-append xs ys)) in
    λ i. record { before = append_assoc p.before xs ys i; after = behind i }

put_at_lem :
    (c : ℕ) (before after : Bytes)
    → 1 ≤ length after
    → put c (record { before = before; after = after })
      ≡ ok (record { before = before ++ c ∷ []; after = drop 1 after })
unfolding put
put_at_lem c before [] h = absurd (omega arith)
put_at_lem c before (x ∷ after) h = refl

pub put-Appends : (c : ℕ) → Appends (put c) (c ∷ [])
put-Appends c p h = put_at_lem c p.before p.after h

pub then-Appends :
    (f g : Writer) (xs ys : Bytes) → Appends f xs → Appends g ys → Appends (f then g) (xs ++ ys)
then-Appends f g xs ys hf hg p room =
    let total = length-append xs ys in
    rw (hf p (omega (arith, total))) (
      hg (written xs p) (omega (arith, total, length-drop (length xs) p.after))
      ∙ ap ok (written-written xs ys p))

pub puts-Appends : (bs : Bytes) → Appends (puts bs) bs
unfolding puts
puts-Appends [] p h =
    ap (λ (b : Bytes). ok (record { before = b; after = p.after })) (sym (append-nil p.before))
puts-Appends (c ∷ cs) p h =
    then-Appends (put c) (puts cs) (c ∷ []) cs (put-Appends c) (puts-Appends cs) p h
