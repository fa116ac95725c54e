-- ===== src/Line/Split.antt =====
-- The scanner against a plain recursion over the bytes.
use spamass.Base.{
  ℕ, ◌+◌, ◌≤◌, ◌<◌, ◌≡◌, refl, ◌∙◌, Bool, true, false, not, ◌&&◌, ◌||◌, [], ◌∷◌, ◌++◌, Bytes, ◌==◌,
  leb, if◌then◌else◌, Option, All, ◌≢◌, none, some, append_assoc, arith, length, Bool-cases,
  Option-cases, inl, inr,
}
use spamass.Dispatch.{DispatchData, contents}
use spamass.Dispatch
use spamass.Line.{Scan, scan_start, scan_byte, scan_region, scan_line, is_complete, max_line_size}

-- Where the first line of `bs` ends: at a line feed behind a carriage return that is not itself
-- read as the partner of the one before, or when the line is as long as the buffer. `n` bytes of
-- it have been read, and `cr` tells of the last one.
pub split_line : Bool → ℕ → Bytes → Option (Bytes × Bytes)
split_line cr n [] = none
split_line cr n (b ∷ bs) =
    let rest = split_line (not cr && b == b'\r') (n + 1) bs in
    if cr && b == b'\n'
    then some (b ∷ [], bs)
    else if leb max_line_size (n + 1)
    then some (b ∷ [], bs)
    else elim rest [ none ↦ none | some (line, left) ↦ some (b ∷ line, left) ]

scan_region-append :
    (s : Scan) (xs ys : Bytes)
    → (scan_region s (xs ++ ys)).0 ≡ (
        if (scan_region s xs).1
        then (scan_region (scan_region s xs).0 ys).0
        else (scan_region s xs).0)
unfolding scan_region
scan_region-append s [] ys = refl
scan_region-append s (b ∷ xs) ys = ground (arith, scan_region-append (scan_byte s b) xs ys)

apply-scan_region :
    (s : Scan) (d : DispatchData) → Dispatch.apply scan_region s d ≡ (scan_region s (contents d)).0
unfolding Dispatch.apply
apply-scan_region s [] = unfold scan_region in refl
apply-scan_region s (r ∷ d) = elim (Bool-cases (scan_region s r).1) [
  | inl more ↦
      rw (scan_region-append s r (contents d), more) (apply-scan_region (scan_region s r).0 d)
  | inr done ↦ rw (scan_region-append s r (contents d), done)
]

-- How the bytes lie in regions makes no difference to what the scanner finds.
pub scan_line-contents : (d : DispatchData) → scan_line d ≡ (scan_region scan_start (contents d)).0
unfolding scan_line
scan_line-contents d = apply-scan_region scan_start d

-- The scanner at work in state `s` on `bs`, with the result `r`, finds what the recursion finds.
abbrev pub Agrees : Scan → Scan × Bool → Option (Bytes × Bytes) → Type 0
Agrees s r none = (r.1 ≡ true) × (is_complete r.0 ≡ false)
Agrees s r (some (line, left)) =
    (r.1 ≡ false)
    × (is_complete r.0 ≡ true)
    × (r.0.linelen ≡ s.linelen + length line)
    × (r.0.line ≡ s.line ++ line)

-- One round, in closed form.
abbrev after_byte : Scan → ℕ → Scan
after_byte s b = record {
  found_cr = (s.found_cr && b == b'\n') || (not s.found_cr && b == b'\r');
  found_lf = s.found_cr && b == b'\n';
  linelen = s.linelen + 1;
  line = s.line ++ b ∷ [];
}

scan_byte_lem : (s : Scan) (b : ℕ) → s.found_lf ≡ false → scan_byte s b ≡ after_byte s b
unfolding scan_byte
scan_byte_lem s b nl = ground arith

abbrev cons_line : ℕ → Option (Bytes × Bytes) → Option (Bytes × Bytes)
cons_line b none = none
cons_line b (some (line, left)) = some (b ∷ line, left)

Agrees-cons :
    (s : Scan) (b : ℕ) (r : Scan × Bool) (o : Option (Bytes × Bytes))
    → Agrees (after_byte s b) r o
    → Agrees s r (cons_line b o)
Agrees-cons s b r none h = h
Agrees-cons s b r (some (line, left)) h =
    (h.0, h.1, omega (arith, h.2), h.3 ∙ append_assoc s.line (b ∷ []) line)

split_line_end :
    (cr : Bool) (n b : ℕ) (bs : Bytes)
    → (cr && b == b'\n') ≡ true
    → split_line cr n (b ∷ bs) ≡ some (b ∷ [], bs)
unfolding split_line
split_line_end cr n b bs h = rw h

split_line_full :
    (cr : Bool) (n b : ℕ) (bs : Bytes)
    → leb max_line_size (n + 1) ≡ true
    → split_line cr n (b ∷ bs) ≡ some (b ∷ [], bs)
unfolding split_line
split_line_full cr n b bs h = ground arith

split_line_more :
    (cr : Bool) (n b : ℕ) (bs : Bytes)
    → (cr && b == b'\n') ≡ false
    → leb max_line_size (n + 1) ≡ false
    → split_line cr n (b ∷ bs) ≡ cons_line b (split_line (not cr && b == b'\r') (n + 1) bs)
unfolding split_line
split_line_more cr n b bs e f = ground arith

scan_region_step :
    (s : Scan) (b : ℕ) (bs : Bytes)
    → s.found_lf ≡ false
    → scan_region s (b ∷ bs) ≡ (
        if (s.found_cr && b == b'\n')
        then (after_byte s b, false)
        else if leb max_line_size (s.linelen + 1)
        then (after_byte s b, false)
        else scan_region (after_byte s b) bs)
unfolding scan_region
scan_region_step s b bs nl = rw (scan_byte_lem s b nl) (ground arith)

pub scan_region-Agrees :
    (s : Scan) (bs : Bytes)
    → s.found_lf ≡ false
    → s.linelen < max_line_size
    → Agrees s (scan_region s bs) (split_line s.found_cr s.linelen bs)
scan_region-Agrees s [] nl h = unfold scan_region split_line in ground arith
scan_region-Agrees s (b ∷ bs) nl h = elim (Bool-cases (s.found_cr && b == b'\n')) [
  | inl lf ↦
      rw (split_line_end _ s.linelen b bs lf, scan_region_step s b bs nl, lf)
        (refl, refl, refl, refl)
  | inr e ↦ elim (Bool-cases (leb max_line_size (s.linelen + 1))) [
    | inl full ↦
        rw (split_line_full s.found_cr _ b bs full, scan_region_step s b bs nl, e, full)
          (refl, ground arith, refl, refl)
    | inr f ↦ rw (split_line_more s.found_cr _ b bs e f) (
        Agrees-cons s b (scan_region s (b ∷ bs))
          (split_line (not s.found_cr && b == b'\r') (s.linelen + 1) bs)
          (rw (scan_region_step s b bs nl, e, f)
            (rw e at (scan_region-Agrees (after_byte s b) bs e (ground arith)))))
  ]
]

-- The line and what is left make up the input; the line is not empty and fits the buffer.
pub split_line-append_eq :
    (cr : Bool) (n : ℕ) (bs : Bytes) {line left : Bytes}
    → split_line cr n bs ≡ some (line, left)
    → (line ++ left ≡ bs)
      × (0 < length line)
      × (n < max_line_size → n + length line ≤ max_line_size)
unfolding split_line
split_line-append_eq cr n [] e = cc
split_line-append_eq cr n (b ∷ bs) e =
    elim (Option-cases (split_line (not cr && b == b'\r') (n + 1) bs)) [
      | inl miss ↦ ground arith
      | inr ((l, r), hit) ↦
          ground (arith, split_line-append_eq (not cr && b == b'\r') (n + 1) bs hit)
    ]

-- More input behind a line changes nothing about it.
pub split_line-append :
    (cr : Bool) (n : ℕ) (xs ys : Bytes) {line left : Bytes}
    → split_line cr n xs ≡ some (line, left)
    → split_line cr n (xs ++ ys) ≡ some (line, left ++ ys)
unfolding split_line
split_line-append cr n [] ys e = cc
split_line-append cr n (b ∷ xs) ys e =
    elim (Option-cases (split_line (not cr && b == b'\r') (n + 1) xs)) [
      | inl miss ↦ ground arith
      | inr ((l, r), hit) ↦
          ground (arith, split_line-append (not cr && b == b'\r') (n + 1) xs ys hit)
    ]

-- A line without carriage returns of its own ends at the first CR LF.
pub split_line_plain :
    (n : ℕ) (body rest : Bytes)
    → All (λ b. b ≢ b'\r') body
    → n + length body + 2 ≤ max_line_size
    → split_line false n (body ++ b'\r' ∷ b'\n' ∷ rest) ≡ some (body ++ b'\r' ∷ b'\n' ∷ [], rest)
unfolding split_line
split_line_plain n [] rest h k = ground arith
split_line_plain n (b ∷ body) rest h k = ground (arith, split_line_plain (n + 1) body rest h.1)

pub split_line_empty : (cr : Bool) (n : ℕ) (bs : Bytes) → length bs ≡ 0 → split_line cr n bs ≡ none
unfolding split_line
split_line_empty cr n [] h = refl
split_line_empty cr n (b ∷ bs) h = absurd (omega arith)
