-- ===== src/Session/Spec/More.antt =====
-- A line is dealt with without a look at the bytes behind it.
use spamass.Base.{
  ◌≡◌, refl, Bool, true, false, Option, none, some, ◌++◌, Bytes, ◌==◌, if◌then◌else◌, Outcome, ok,
  out_of_bounds, out_of_fuel, ◌>>=◌,
}
use spamass.Command.{Command, data_command, auth, read_command, classify, is_data}
use spamass.Line.{is_in_line}
use spamass.Session.Spec.{
  called, spec_data_line, smtp_calls, credentials, auth_calls, spec_answer, spec_command_line,
  spec_line,
}
use spamass.Session.View.{View}
use spamass.Session.{is_end_of_data}

-- More input behind the unread bytes.
abbrev pub more : View → Bytes → View
more v ys = record v { unread = v.unread ++ ys }

abbrev pub more_first : Bytes → Outcome (View × Bool) → Outcome (View × Bool)
more_first ys m = m >>= λ r. ok (more r.0 ys, r.1)

abbrev more_view : Bytes → Outcome View → Outcome View
more_view ys m = m >>= λ v. ok (more v ys)

more-if :
    (b : Bool) (x y : View) (p q : Bool) (ys : Bytes)
    → ok (if b then (more x ys, p) else (more y ys, q))
      ≡ more_first ys (ok (if b then (x, p) else (y, q)))
more-if true x y p q ys = refl
more-if false x y p q ys = refl

spec_data_line-more :
    (v : View) (ys : Bytes)
    → ok (spec_data_line (more v ys)) ≡ more_first ys (ok (spec_data_line v))
unfolding spec_data_line
spec_data_line-more v ys = more-if (is_end_of_data v.linelen v.line) _ _ _ _ ys

credentials-more : (v : View) (ys : Bytes) → credentials (more v ys) ≡ credentials v
unfolding credentials
credentials-more v ys = refl

asked-more :
    (v : View) (ys : Bytes) (b : Bool) (m : Outcome (Option (Bytes × Bytes)))
    → (if b
        then (m >>= λ who. ok (called (more v ys) (auth_calls (more v ys) who)))
        else ok (more v ys))
      ≡ more_view ys (if b then (m >>= λ who. ok (called v (auth_calls v who))) else ok v)
asked-more v ys true (ok none) = refl
asked-more v ys true (ok (some (u, p))) = refl
asked-more v ys true out_of_bounds = refl
asked-more v ys true out_of_fuel = refl
asked-more v ys false m = refl

spec_answer-more :
    (c : Command) (v : View) (ys : Bytes)
    → spec_answer c (more v ys) ≡ more_view ys (spec_answer c v)
unfolding spec_answer
spec_answer-more data_command v ys = refl
spec_answer-more auth v ys =
    rw (credentials-more v ys) (asked-more v ys v.is_secure (credentials v))
spec_answer-more _ v ys = refl

answered-more :
    (ys : Bytes) (b : Bool) (parsed : View) (m : Outcome View)
    → (if b then ok (more parsed ys, false) else (more_view ys m >>= λ r. ok (r, true)))
      ≡ more_first ys (if b then ok (parsed, false) else (m >>= λ r. ok (r, true)))
answered-more ys true parsed m = refl
answered-more ys false parsed (ok v) = refl
answered-more ys false parsed out_of_bounds = refl
answered-more ys false parsed out_of_fuel = refl

spec_command_line-more :
    (v : View) (ys : Bytes) → spec_command_line (more v ys) ≡ more_first ys (spec_command_line v)
unfolding spec_command_line
spec_command_line-more v ys =
    let p = read_command v.line v.lineoff in
    let parsed = record v { cmnd = p.cmnd; cmndlen = p.cmndlen; lineoff = p.lineoff } in
    let c = classify p.cmnd in
    let noted = called (record parsed { state = c }) (smtp_calls c parsed) in
    rw (spec_answer-more c noted ys)
      (answered-more ys (p.cmndlen == 0) parsed (spec_answer c noted))

line-more :
    (ys : Bytes) (b : Bool) (x y : Outcome (View × Bool))
    → (if b then more_first ys x else more_first ys y) ≡ more_first ys (if b then x else y)
line-more ys true x y = refl
line-more ys false x y = refl

pub spec_line-more : (v : View) (ys : Bytes) → spec_line (more v ys) ≡ more_first ys (spec_line v)
unfolding spec_line
spec_line-more v ys =
    rw (spec_data_line-more v ys, spec_command_line-more v ys)
      (rw (line-more ys (is_data v.state) (ok (spec_data_line v)) (spec_command_line v))
        (line-more ys (is_in_line v.linelen) _ out_of_bounds))
