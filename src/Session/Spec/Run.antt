-- ===== src/Session/Spec/Run.antt =====
-- The loop over the lines in the specification, and that it does not matter how the input is cut.
use spamass.Base.{
  ℕ, zero, suc, ◌<◌, ◌≡◌, refl, sym, ap, ◌∙◌, Bool, true, false, Option, none, some, [], ◌++◌,
  Bytes, length, length-append, arith, inl, inr, Option-cases, Outcome, ok, out_of_bounds,
  out_of_fuel, ◌>>=◌,
}
use spamass.Line.Split.{split_line, split_line-append_eq, split_line-append}
use spamass.Session.Spec.Kept.{KeptBy, spec_line-Kept}
use spamass.Session.Spec.More.{more, more_first, spec_line-more}
use spamass.Session.Spec.{spec_line}
use spamass.Session.View.{View}
use spamass.Session.{LoopExit, drained, broken}

-- No line is being read.
abbrev pub idle : View → View
idle v = record v { line = []; linelen = 0; lineoff = 0 }

-- The first line has been read.
abbrev pub reading : View → Bytes → Bytes → View
reading v line left = record v { unread = left; line = line; linelen = length line; lineoff = 0 }

abbrev pub next : View → Option (Bytes × Bytes)
next v = split_line false 0 v.unread

unfoldable pub spec_run : ℕ → View → Outcome (View × LoopExit)
spec_run zero v = out_of_fuel
spec_run (suc fuel) v = elim (next v) [
  | none ↦ ok (idle v, drained)
  | some (line, left) ↦ spec_line (reading v line left) >>= λ r. elim r.1 [
    | true ↦ spec_run fuel r.0
    | false ↦ ok (r.0, broken)
  ]
]

-- Each line takes a byte at least.
unfoldable pub spec_run_all : View → Outcome (View × LoopExit)
spec_run_all v = spec_run (suc (length v.unread)) v

pub spec_run-none :
    (fuel : ℕ) (v : View) → next v ≡ none → spec_run (suc fuel) v ≡ ok (idle v, drained)
unfolding spec_run
spec_run-none fuel v e = rw (e, spec_run)

-- What is done with the result of a line.
abbrev pub continue_with :
    (View → Outcome (View × LoopExit)) → View × Bool → Outcome (View × LoopExit)
continue_with f r = elim r.1 [ true ↦ f r.0 | false ↦ ok (r.0, broken) ]

pub spec_run-some :
    (fuel : ℕ) (v : View) {line left : Bytes}
    → next v ≡ some (line, left)
    → spec_run (suc fuel) v ≡ (spec_line (reading v line left) >>= continue_with (spec_run fuel))
unfolding spec_run
spec_run-some fuel v e = rw (e, spec_run)

-- The result of a line, with what is kept.
abbrev Keeps : View → Outcome (View × Bool) → Type 0
Keeps v m = KeptBy v (λ r. r.0) m

continue-same :
    (f g : View → Outcome (View × LoopExit)) (v : View) (m : Outcome (View × Bool))
    → Keeps v m
    → ((w : View) → w.unread ≡ v.unread → f w ≡ g w)
    → (m >>= continue_with f) ≡ (m >>= continue_with g)
continue-same f g v (ok (w, true)) k h = h w k.same_unread
continue-same f g v (ok (w, false)) k h = refl
continue-same f g v out_of_bounds k h = refl
continue-same f g v out_of_fuel k h = refl

left-lt :
    (v : View) {line left : Bytes} (n : ℕ)
    → next v ≡ some (line, left)
    → length v.unread < suc n
    → length left < n
left-lt v {line} {left} n e h =
    let (joined, byte, _) = split_line-append_eq false 0 v.unread e in
    omega (arith, ap length joined, length-append line left)

-- With a round for every byte, and one more, the number of rounds makes no difference.
spec_run-fuel :
    (f g : ℕ) (v : View) → length v.unread < f → length v.unread < g → spec_run f v ≡ spec_run g v
spec_run-fuel zero g v h k = absurd (omega arith)
spec_run-fuel (suc f) zero v h k = absurd (omega arith)
spec_run-fuel (suc f) (suc g) v h k = elim (Option-cases (next v)) [
  | inl e ↦ spec_run-none f v e ∙ sym (spec_run-none g v e)
  | inr ((line, left), e) ↦
      let r = reading v line left in
      spec_run-some f v e
      ∙ continue-same (spec_run f) (spec_run g) r (spec_line r) (spec_line-Kept r)
          (λ w u. spec_run-fuel f g w (rw u (left-lt v f e h)) (rw u (left-lt v g e k)))
      ∙ sym (spec_run-some g v e)
]

continue-more :
    (f g : View → Outcome (View × LoopExit)) (ys : Bytes) (v t : View) (m : Outcome (View × Bool))
    (r : Outcome (View × LoopExit))
    → Keeps v m
    → (m >>= continue_with g) ≡ ok (t, drained)
    → ((w : View) → w.unread ≡ v.unread → g w ≡ ok (t, drained) → f (more w ys) ≡ r)
    → (more_first ys m >>= continue_with f) ≡ r
continue-more f g ys v t (ok (w, true)) r k e h = h w k.same_unread e
continue-more f g ys v t (ok (w, false)) r k e h = cc
continue-more f g ys v t out_of_bounds r k e h = cc
continue-more f g ys v t out_of_fuel r k e h = cc

spec_run-idle : (n : ℕ) (v : View) → spec_run n v ≡ spec_run n (idle v)
unfolding spec_run
spec_run-idle zero v = refl
spec_run-idle (suc n) v = refl

spec_run-more :
    (f : ℕ) (v t : View) (ys : Bytes)
    → length v.unread < f
    → spec_run f v ≡ ok (t, drained)
    → spec_run_all (more v ys) ≡ spec_run_all (more t ys)
unfolding spec_run_all
spec_run-more zero v t ys h e = absurd (omega arith)
spec_run-more (suc f) v t ys h e = elim (Option-cases (next v)) [
  | inl miss ↦
      let same : idle v ≡ t = cc (spec_run-none f v miss) in
      rw (← same) (spec_run-idle _ (more v ys))
  | inr ((line, left), hit) ↦
      let r = reading v line left in
      let all = length (v.unread ++ ys) in
      spec_run-some all (more v ys) (split_line-append false 0 v.unread ys hit)
      ∙ rw (spec_line-more r ys) (
          continue-more (spec_run all) (spec_run f) ys r t (spec_line r) _ (spec_line-Kept r)
            (sym (spec_run-some f v hit) ∙ e)
            (λ w u go.
              spec_run-fuel all (suc (length (w.unread ++ ys))) (more w ys)
                (rw u (
                  omega (
                    arith,
                    length-append left ys,
                    length-append v.unread ys,
                    left-lt v (length v.unread) hit (omega arith),
                  )))
                (omega arith)
              ∙ spec_run-more f w t ys (rw u (left-lt v f hit h)) go))
]

-- Input that comes in two pieces is dealt with as if it had come in one, provided the loop was not
-- left by a break on the first piece.
pub spec_run_all-more :
    (v t : View) (ys : Bytes)
    → spec_run_all v ≡ ok (t, drained)
    → spec_run_all (more v ys) ≡ spec_run_all (more t ys)
unfolding spec_run_all
spec_run_all-more v t ys e = spec_run-more (suc (length v.unread)) v t ys (omega arith) e

pub spec_run_all-idle : (v : View) → spec_run_all v ≡ spec_run_all (idle v)
unfolding spec_run_all
spec_run_all-idle v = spec_run-idle (suc (length v.unread)) v

-- The loop from line to line, with no count of rounds.
pub spec_run_all-some :
    (v : View) {line left : Bytes}
    → next v ≡ some (line, left)
    → spec_run_all v ≡ (spec_line (reading v line left) >>= continue_with spec_run_all)
unfolding spec_run_all
spec_run_all-some v {line} {left} e =
    let r = reading v line left in
    spec_run-some (length v.unread) v e
    ∙ continue-same (spec_run (length v.unread)) spec_run_all r (spec_line r) (spec_line-Kept r)
        (λ w u.
          spec_run-fuel (length v.unread) (suc (length w.unread)) w
            (rw u (left-lt v (length v.unread) e (omega arith))) (omega arith))

pub spec_run_all_drained : (v : View) → next v ≡ none → spec_run_all v ≡ ok (idle v, drained)
unfolding spec_run_all
spec_run_all_drained v e = spec_run-none (length v.unread) v e
