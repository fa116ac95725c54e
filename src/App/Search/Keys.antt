-- ===== src/App/Search/Keys.antt =====
-- The keys that `handleEmailWithSocket:` of Spamass/Spamass/SMAppDelegate.m puts into the database,
-- and the step of `emailsForAddress:withBlock:` for one of them.
use spamass.App.Email.{Email, same_bytes}
use spamass.App.Mail.{db_prefix}
use spamass.App.Search.{
  split_key, found_email, email_or, is_other, put_value, end_search, hand_over, email_left, search,
}
use spamass.App.{Foundation}
use spamass.Base.{
  ◌≡◌, ◌≢◌, refl, ap, ◌∙◌, Bool, true, false, Option, some, List, [], ◌∷◌, ◌++◌, append_assoc,
  Bytes, codes, All, starts_with, starts_with-append, ◌==◌, arith,
}

pub same_bytes_refl : (xs : Bytes) → same_bytes xs xs ≡ true
same_bytes_refl [] = refl
same_bytes_refl (x ∷ xs) =
    let same : (x == x) ≡ true = ground arith in rw (same, same_bytes_refl xs) refl

pub same_bytes_eq : (xs ys : Bytes) → same_bytes xs ys ≡ true → xs ≡ ys
same_bytes_eq [] [] e = refl
same_bytes_eq [] (y ∷ ys) e = cc
same_bytes_eq (x ∷ xs) [] e = cc
same_bytes_eq (x ∷ xs) (y ∷ ys) e =
    let first : x ≡ y = ground (arith, e) in
    let rest : same_bytes xs ys ≡ true = ground (arith, e) in
    rw (first, same_bytes_eq xs ys rest) refl

-- A part of a key that no underscore splits.
abbrev pub IsPart : Bytes → Type 0
IsPart part = All (λ b. b ≢ b'_') part

abbrev pub key_of : Bytes → Bytes → Bytes → Bytes → Bytes
key_of address id serial field = db_prefix address id serial ++ field

split_key-part :
    (part rest : Bytes)
    → IsPart part
    → split_key false (part ++ (codes "__" ++ rest)) ≡ part ∷ split_key false rest
unfolding split_key
split_key-part [] rest p = refl
split_key-part (b ∷ part) rest (p, ps) =
    let other : (b == b'_') ≡ false = ground (arith, p) in
    rw (other, split_key-part part rest ps) refl

split_key_last : (part : Bytes) → IsPart part → split_key false part ≡ part ∷ []
unfolding split_key
split_key_last [] p = refl
split_key_last (b ∷ part) (p, ps) =
    let other : (b == b'_') ≡ false = ground (arith, p) in rw (other, split_key_last part ps) refl

key_of_flat :
    (address id serial field : Bytes)
    → key_of address id serial field
      ≡ address ++ (codes "__" ++ (id ++ (codes "__" ++ (serial ++ (codes "__" ++ field)))))
key_of_flat address id serial field = simp append_assoc

starts_with-key_of :
    (address id serial field : Bytes) → starts_with address (key_of address id serial field) ≡ true
starts_with-key_of address id serial field =
    ap (starts_with address) (key_of_flat address id serial field) ∙ starts_with-append address _

split_key-key_of :
    (address id serial field : Bytes)
    → IsPart address
    → IsPart id
    → IsPart serial
    → IsPart field
    → split_key false (key_of address id serial field) ≡ address ∷ id ∷ serial ∷ field ∷ []
split_key-key_of address id serial field a i s f =
    rw
      (
        key_of_flat address id serial field,
        split_key-part address (id ++ (codes "__" ++ (serial ++ (codes "__" ++ field)))) a,
        split_key-part id (serial ++ (codes "__" ++ field)) i,
        split_key-part serial field s,
        split_key_last field f,
      )
      refl

module _ (fnd : Foundation) {State : Type 0} (handler : Option Email → State → State × Bool)
    (address : Bytes) (a : IsPart address) where
  -- A key of the address.
  pub step_lem :
      (id serial field value : Bytes) (entries : List (Bytes × Bytes)) (found : Option Email)
      (s : State)
      → IsPart id
      → IsPart serial
      → IsPart field
      → (hand_over handler (is_other found id serial) found s).1 ≡ true
      → search fnd handler address ((key_of address id serial field, value) ∷ entries) found s
        ≡ search fnd handler address entries
            (some (
              put_value fnd field value (
                email_or
                  (email_left (is_other found id serial) found)
                  (found_email address id serial))))
            (hand_over handler (is_other found id serial) found s).0
  unfolding search
  step_lem id serial field value entries found s i r f go =
      rw
        (
          starts_with-key_of address id serial field,
          split_key-key_of address id serial field a i r f,
          same_bytes_refl address,
          go,
        )
        refl

  -- A key of the address at which the block asks to stop.
  pub stop_lem :
      (id serial field value : Bytes) (entries : List (Bytes × Bytes)) (found : Option Email)
      (s : State)
      → IsPart id
      → IsPart serial
      → IsPart field
      → (hand_over handler (is_other found id serial) found s).1 ≡ false
      → search fnd handler address ((key_of address id serial field, value) ∷ entries) found s
        ≡ end_search handler found (hand_over handler (is_other found id serial) found s).0
  unfolding search
  stop_lem id serial field value entries found s i r f go =
      rw
        (
          starts_with-key_of address id serial field,
          split_key-key_of address id serial field a i r f,
          same_bytes_refl address,
          go,
        )
        refl
