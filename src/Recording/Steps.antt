-- ===== src/Recording/Steps.antt =====
-- The steps of making a path, in an array that holds zeros from the pointer on.
use spamass.Base.{
  ℕ, zero, suc, ◌+◌, ◌-◌, ◌≤◌, ◌<◌, ◌≡◌, ◌≢◌, refl, sym, ap, ◌∙◌, max, List, [], ◌∷◌, ◌++◌,
  append_assoc, append-nil, Bytes, length, length-append, replicate, drop, c_string, All,
  All-append, arith, Outcome, ok, out_of_bounds, out_of_fuel, ◌>>=◌, ltb, Bool-cases, inl, inr,
  if◌then◌else◌,
}
use spamass.Cursor.{Cursor, Writer, put, puts, terminate, ◌then◌}
use spamass.Cursor.Appends.{puts-Appends}
use spamass.Recording.{Making, Maker, ◌next◌, writing, make}

abbrev pub HasNoNul : Bytes → Type 0
HasNoNul bs = All (λ b. b ≢ 0) bs

pub c_string-zeros : (bs : Bytes) (r : ℕ) → HasNoNul bs → c_string (bs ++ replicate r 0) ≡ bs
c_string-zeros [] zero h = refl
c_string-zeros [] (suc r) h = refl
c_string-zeros (b ∷ bs) r h = ground (arith, c_string-zeros bs r h.1)

pub drop-zeros : (n r : ℕ) → drop {A = ℕ} n (replicate r 0) ≡ replicate (r - n) 0
drop-zeros zero r = ap (λ k. replicate k 0) (omega arith)
drop-zeros (suc n) zero = ap (λ k. replicate k 0) {x = 0} {y = 0 - suc n} (omega arith)
drop-zeros (suc n) (suc r) = drop-zeros n r ∙ ap (λ k. replicate k 0) (omega arith)

-- With `r` zeros behind the pointer.
abbrev pub at : Bytes → ℕ → List Bytes → Making
at before r made = record {
  cursor = record { before = before; after = replicate r 0 };
  made = made;
}

-- A step that needs room for `need` bytes, puts `bs` at the pointer and moves it behind them, and
-- makes the directories `dirs`, which depend on what stands in front.
pub record Makes (f : Maker) (bs : Bytes) (need : ℕ) (dirs : Bytes → List Bytes) : Type 0 where
  pub no_nul : HasNoNul bs
  pub fits : length bs ≤ need
  pub room :
      (before : Bytes) (r : ℕ) (made : List Bytes)
      → HasNoNul before
      → need ≤ r
      → f (at before r made) ≡ ok (at (before ++ bs) (r - length bs) (made ++ dirs before))
  pub no_room :
      (before : Bytes) (r : ℕ) (made : List Bytes)
      → HasNoNul before
      → r < need
      → f (at before r made) ≡ out_of_bounds

abbrev pub no_dirs : Bytes → List Bytes
no_dirs before = []

pub at_eq :
    {b c : Bytes} {q r : ℕ} {made more : List Bytes}
    → b ≡ c
    → q ≡ r
    → made ≡ more
    → ◌≡◌ {A = Outcome Making} (ok (at b q made)) (ok (at c r more))
at_eq p q s = λ i. ok (at (p i) (q i) (s i))

puts_short :
    (bs before after : Bytes)
    → length after < length bs
    → puts bs (record { before = before; after = after }) ≡ out_of_bounds
unfolding puts put
puts_short [] before after h = absurd (omega arith)
puts_short (c ∷ cs) before [] h = refl
puts_short (c ∷ cs) before (x ∷ after) h = puts_short cs (before ++ c ∷ []) after (omega arith)

length-zeros : (r : ℕ) → length (replicate {A = ℕ} r 0) ≡ r
length-zeros zero = refl
length-zeros (suc r) = ap suc (length-zeros r)

pub puts-Makes : (bs : Bytes) → HasNoNul bs → Makes (writing (puts bs)) bs (length bs) no_dirs
puts-Makes bs h = record {
  no_nul = h;
  fits = omega arith;
  room = λ before r made n enough.
      rw
        (puts-Appends bs (record { before = before; after = replicate r 0 })
          (omega (arith, length-zeros r)))
        (λ i. ok (record {
          cursor = record { before = before ++ bs; after = drop-zeros (length bs) r i };
          made = sym (append-nil made) i;
        }));
  no_room = λ before r made n short.
      rw (puts_short bs before (replicate r 0) (omega (arith, length-zeros r))) refl;
}

terminate_zeros :
    (before : Bytes) (r : ℕ)
    → 1 ≤ r
    → terminate (record { before = before; after = replicate r 0 })
      ≡ ok (record { before = before; after = replicate r 0 })
unfolding terminate
terminate_zeros before zero h = absurd (omega arith)
terminate_zeros before (suc r) h = refl

pub terminate-Makes : Makes (writing terminate) [] 1 no_dirs
terminate-Makes = record {
  no_nul = tt;
  fits = omega arith;
  room = λ before r made n enough.
      rw (terminate_zeros before r enough)
        (at_eq (sym (append-nil before)) (omega arith) (sym (append-nil made)));
  no_room = λ before r made n short. let e : r ≡ 0 = omega arith in rw e (unfold terminate in refl);
}

pub make-Makes : Makes make [] 0 (λ before. before ∷ [])
make-Makes = record {
  no_nul = tt;
  fits = omega arith;
  room = λ before r made n enough.
      rw (c_string-zeros before r n) (at_eq (sym (append-nil before)) (omega arith) refl);
  no_room = λ before r made n short. absurd (omega arith);
}

module _ {f g : Maker} {xs ys : Bytes} {n k : ℕ} {df dg : Bytes → List Bytes} (p : Makes f xs n df)
    (q : Makes g ys k dg) where
  -- One step, then the other.
  pub next-Makes :
      Makes (f next g) (xs ++ ys) (max n (length xs + k)) (λ before. df before ++ dg (before ++ xs))
  next-Makes = record {
    no_nul = All-append (λ b. b ≢ 0) xs ys p.no_nul q.no_nul;
    fits = omega (arith, p.fits, q.fits, length-append xs ys);
    room = λ before r made h enough. rw (p.room before r made h (omega arith)) (
        q.room (before ++ xs) (r - length xs) (made ++ df before)
          (All-append (λ b. b ≢ 0) before xs h p.no_nul) (omega arith)
        ∙ at_eq (append_assoc before xs ys) (omega (arith, length-append xs ys))
            (append_assoc made (df before) (dg (before ++ xs))));
    no_room = λ before r made h short. elim (Bool-cases (ltb r n)) [
      | inl first ↦ rw (p.no_room before r made h (ground (arith, first)))
      | inr second ↦ rw (p.room before r made h (ground (arith, second))) (
          q.no_room (before ++ xs) (r - length xs) (made ++ df before)
            (All-append (λ b. b ≢ 0) before xs h p.no_nul) (ground (arith, p.fits, second)))
    ];
  }

bind_assoc :
    (m : Outcome Cursor) (g : Writer) (made : List Bytes)
    → ((m >>= g) >>= λ c. ok (record { cursor = c; made = made }))
      ≡ ((m >>= λ c. ok (record { cursor = c; made = made })) >>= writing g)
bind_assoc (ok c) g made = refl
bind_assoc out_of_bounds g made = refl
bind_assoc out_of_fuel g made = refl

-- Two writers as one step.
pub then-Makes :
    (f g : Writer) {bs : Bytes} {need : ℕ} {dirs : Bytes → List Bytes}
    → Makes (writing f next writing g) bs need dirs
    → Makes (writing (f then g)) bs need dirs
then-Makes f g p = record {
  no_nul = p.no_nul;
  fits = p.fits;
  room = λ before r made h enough.
      bind_assoc (f (record { before = before; after = replicate r 0 })) g made
      ∙ p.room before r made h enough;
  no_room = λ before r made h short.
      bind_assoc (f (record { before = before; after = replicate r 0 })) g made
      ∙ p.no_room before r made h short;
}

bind_ok : (m : Outcome Cursor) → (m >>= λ c. ok c) ≡ m
bind_ok (ok c) = refl
bind_ok out_of_bounds = refl
bind_ok out_of_fuel = refl

puts_one : (c : ℕ) (m : Making) → writing (put c) m ≡ writing (puts (c ∷ [])) m
unfolding puts
puts_one c m =
    ap (λ (o : Outcome Cursor). o >>= λ p. ok (record m { cursor = p }))
      (sym (bind_ok (put c m.cursor)))

pub put-Makes : (c : ℕ) → c ≢ 0 → Makes (writing (put c)) (c ∷ []) 1 no_dirs
put-Makes c h =
    let p = puts-Makes (c ∷ []) (h, tt) in
    record {
      no_nul = (h, tt);
      fits = omega arith;
      room =
          λ before r made n enough. puts_one c (at before r made) ∙ p.room before r made n enough;
      no_room =
          λ before r made n short. puts_one c (at before r made) ∙ p.no_room before r made n short;
    }
