-- ===== src/Dispatch/Contents.antt =====
-- What the operations on dispatch data objects do to the bytes that they hold.
use spamass.Base.{
  ℕ, zero, suc, ◌-◌, ◌≡◌, refl, ap, ◌∙◌, List, [], ◌∷◌, ◌++◌, length, take, drop, append_assoc,
  arith, length-append, length-drop, take_all, drop_all, leb, leb→le, inl, inr, Bool-cases,
}
use spamass.Dispatch.{DispatchData, contents, get_size, concat, skip, limit, subrange}

pub get_size-contents : (d : DispatchData) → get_size d ≡ length (contents d)
get_size-contents [] = refl
get_size-contents (r ∷ d) = omega (arith, get_size-contents d, length-append r (contents d))

pub contents-concat : (a b : DispatchData) → contents (concat a b) ≡ contents a ++ contents b
contents-concat [] b = refl
contents-concat (r ∷ a) b = rw (contents-concat a b, append_assoc)

pub drop-append {ℓ} :
    {A : Type ℓ} (n : ℕ) (xs ys : List A) → drop n (xs ++ ys) ≡ drop n xs ++ drop (n - length xs) ys
drop-append zero xs ys = let e : 0 - length xs ≡ 0 = omega arith in rw e
drop-append (suc n) [] ys = let e : suc n - 0 ≡ suc n = omega arith in rw e
drop-append (suc n) (x ∷ xs) ys =
    let e : suc n - suc (length xs) ≡ n - length xs = omega arith in rw e (drop-append n xs ys)

pub take-append {ℓ} :
    {A : Type ℓ} (n : ℕ) (xs ys : List A) → take n (xs ++ ys) ≡ take n xs ++ take (n - length xs) ys
take-append zero xs ys = let e : 0 - length xs ≡ 0 = omega arith in rw e
take-append (suc n) [] ys = let e : suc n - 0 ≡ suc n = omega arith in rw e
take-append (suc n) (x ∷ xs) ys =
    let e : suc n - suc (length xs) ≡ n - length xs = omega arith in
    ap (◌∷◌ x) (rw e (take-append n xs ys))

contents-skip : (n : ℕ) (d : DispatchData) → contents (skip n d) ≡ drop n (contents d)
unfolding skip
contents-skip zero [] = refl
contents-skip (suc n) [] = refl
contents-skip n (r ∷ d) = elim (Bool-cases (leb (length r) n)) [
  | inl whole ↦
      rw (whole, drop-append n r (contents d), drop_all n r (leb→le _ _ whole))
        (contents-skip (n - length r) d)
  | inr part ↦ let e : n - length r ≡ 0 = ground arith in rw (part, drop-append n r (contents d), e)
]

contents-limit : (n : ℕ) (d : DispatchData) → contents (limit n d) ≡ take n (contents d)
unfolding limit
contents-limit zero [] = refl
contents-limit (suc n) [] = refl
contents-limit n (r ∷ d) = elim (Bool-cases (leb (length r) n)) [
  | inl whole ↦
      rw (whole, take-append n r (contents d), take_all n r (leb→le _ _ whole))
        (ap (◌++◌ r) (contents-limit (n - length r) d))
  | inr part ↦ let e : n - length r ≡ 0 = ground arith in rw (part, take-append n r (contents d), e)
]

pub contents-subrange :
    (d : DispatchData) (off n : ℕ) → contents (subrange d off n) ≡ take n (drop off (contents d))
unfolding subrange
contents-subrange d off n = contents-limit n (skip off d) ∙ ap (take n) (contents-skip off d)

-- All but the first `off` bytes, as the callers ask for it.
pub contents-subrange_rest :
    (d : DispatchData) (off : ℕ)
    → contents (subrange d off (get_size d - off)) ≡ drop off (contents d)
contents-subrange_rest d off =
    contents-subrange d off _
    ∙ take_all _ _ (omega (arith, length-drop off (contents d), get_size-contents d))
