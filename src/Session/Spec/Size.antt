-- ===== src/Session/Spec/Size.antt =====
-- How large the count of a mail's bytes can grow.
use spamass.Base.{
  ℕ, zero, suc, ◌+◌, ◌≤◌, ◌≡◌, refl, Bool, true, false, Option, Bytes, length, arith, ◌==◌,
  if◌then◌else◌, Bool-cases, Option-cases, inl, inr, Outcome, ok, out_of_bounds, out_of_fuel, ◌>>=◌,
}
use spamass.Command.{Command, data_command, auth, read_command, classify, is_data}
use spamass.Line.Split.{split_line-append_eq}
use spamass.Line.{max_line_size, is_in_line}
use spamass.Session.Spec.Run.{
  reading, next, spec_run, spec_run_all, spec_run-none, spec_run-some, continue_with,
}
use spamass.Session.Spec.{
  called, spec_data_line, smtp_calls, credentials, auth_calls, spec_answer, spec_command_line,
  spec_line,
}
use spamass.Session.View.{View}
use spamass.Session.{is_end_of_data, max_indata_size, LoopExit, drained}

-- While the loop goes on the count stays within the limit; the line that ends it may go over.
abbrev IsSized : Bool → View → Type 0
IsSized go_on v =
    (v.email_size ≤ max_indata_size + max_line_size)
    × (go_on ≡ true → v.email_size ≤ max_indata_size)

abbrev SizedLine : Outcome (View × Bool) → Type 0
SizedLine (ok r) = IsSized r.1 r.0
SizedLine out_of_bounds = Unit
SizedLine out_of_fuel = Unit

data_line-IsSized :
    (v : View)
    → v.email_size ≤ max_indata_size
    → v.linelen ≤ max_line_size
    → IsSized (spec_data_line v).1 (spec_data_line v).0
unfolding spec_data_line
data_line-IsSized v small l = elim (Bool-cases (is_end_of_data v.linelen v.line)) [
  | inl period ↦ rw period (omega arith, λ _. small)
  | inr text ↦ rw text (omega arith, λ e. ground (arith, e))
]

abbrev Small : Outcome View → Type 0
Small (ok v) = v.email_size ≤ max_indata_size
Small out_of_bounds = Unit
Small out_of_fuel = Unit

auth-Small :
    (v : View) (b : Bool) (m : Outcome (Option (Bytes × Bytes)))
    → v.email_size ≤ max_indata_size
    → Small (if b then (m >>= λ who. ok (called v (auth_calls v who))) else ok v)
auth-Small v true (ok who) s = s
auth-Small v true out_of_bounds s = tt
auth-Small v true out_of_fuel s = tt
auth-Small v false m s = s

answer-Small : (c : Command) (v : View) → v.email_size ≤ max_indata_size → Small (spec_answer c v)
unfolding spec_answer
answer-Small data_command v s = omega arith
answer-Small auth v s = auth-Small v v.is_secure (credentials v) s
answer-Small _ v s = s

answered-sized :
    (b : Bool) (v : View) (m : Outcome View)
    → v.email_size ≤ max_indata_size
    → Small m
    → SizedLine
        (if◌then◌else◌ {A = Outcome (View × Bool)} b (ok (v, false)) (m >>= λ r. ok (r, true)))
answered-sized true v m s k = (omega arith, λ _. s)
answered-sized false v (ok w) s k = (omega arith, λ _. k)
answered-sized false v out_of_bounds s k = tt
answered-sized false v out_of_fuel s k = tt

command_line-sized : (v : View) → v.email_size ≤ max_indata_size → SizedLine (spec_command_line v)
unfolding spec_command_line
command_line-sized v s =
    let p = read_command v.line v.lineoff in
    let parsed = record v { cmnd = p.cmnd; cmndlen = p.cmndlen; lineoff = p.lineoff } in
    let c = classify p.cmnd in
    answered-sized (p.cmndlen == 0) parsed
      (spec_answer c (called (record parsed { state = c }) (smtp_calls c parsed))) s
      (answer-Small c (called (record parsed { state = c }) (smtp_calls c parsed)) s)

sized-if :
    (b : Bool) (x y : Outcome (View × Bool))
    → SizedLine x
    → SizedLine y
    → SizedLine (if b then x else y)
sized-if true x y p q = p
sized-if false x y p q = q

line-sized :
    (v : View)
    → v.email_size ≤ max_indata_size
    → v.linelen ≤ max_line_size
    → SizedLine (spec_line v)
unfolding spec_line
line-sized v s l =
    sized-if (is_in_line v.linelen) _ out_of_bounds
      (sized-if (is_data v.state) (ok (spec_data_line v)) (spec_command_line v)
        (data_line-IsSized v s l) (command_line-sized v s))
      tt

-- How a run of the loop leaves the count.
abbrev pub SizedRun : Outcome (View × LoopExit) → Type 0
SizedRun (ok (v, exit)) =
    (v.email_size ≤ max_indata_size + max_line_size)
    × (exit ≡ drained → v.email_size ≤ max_indata_size)
SizedRun out_of_bounds = Unit
SizedRun out_of_fuel = Unit

continue-sized :
    (f : View → Outcome (View × LoopExit)) (m : Outcome (View × Bool))
    → SizedLine m
    → ((w : View) → w.email_size ≤ max_indata_size → SizedRun (f w))
    → SizedRun (m >>= continue_with f)
continue-sized f (ok (v, true)) s h = h v (s.1 refl)
continue-sized f (ok (v, false)) s h = (s.0, λ e. absurd (cc))
continue-sized f out_of_bounds s h = tt
continue-sized f out_of_fuel s h = tt

spec_run-sized : (fuel : ℕ) (v : View) → v.email_size ≤ max_indata_size → SizedRun (spec_run fuel v)
spec_run-sized zero v s = unfold spec_run in tt
spec_run-sized (suc fuel) v s = elim (Option-cases (next v)) [
  | inl e ↦ rw (spec_run-none fuel v e) (omega arith, λ _. s)
  | inr ((line, left), e) ↦
      let (_, _, fits) = split_line-append_eq false 0 v.unread e in
      rw (spec_run-some fuel v e) (
        continue-sized (spec_run fuel) (spec_line (reading v line left))
          (line-sized (reading v line left) s (omega (arith, fits (omega arith))))
          (spec_run-sized fuel))
]

pub spec_run_all-sized : (v : View) → v.email_size ≤ max_indata_size → SizedRun (spec_run_all v)
unfolding spec_run_all
spec_run_all-sized v s = spec_run-sized (suc (length v.unread)) v s
