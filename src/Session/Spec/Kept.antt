-- ===== src/Session/Spec/Kept.antt =====
-- What a line leaves as it is.
use spamass.Base.{
  ℕ, ◌+◌, ◌≡◌, refl, ◌∙◌, Bool, true, false, Option, none, some, List, [], ◌∷◌, ◌++◌, Bytes, arith,
  Outcome, ok, out_of_bounds, out_of_fuel, ◌>>=◌, if◌then◌else◌, ◌==◌,
}
use spamass.Command.{Command, data_command, auth, read_command, classify, is_data}
use spamass.Session.Spec.{
  call_of, called, spec_data_line, smtp_calls, credentials, auth_calls, spec_answer,
  spec_command_line, spec_line,
}
use spamass.Session.{is_end_of_data}
use spamass.Line.{is_in_line}
use spamass.Session.View.{View}
use spamass.Socket.Defs.{Event, call_auth}
use spamass.Tls.{Block}

-- How often the authentication block has been asked.
abbrev pub auth_count : List Event → ℕ
auth_count [] = 0
auth_count (call_auth h u p ∷ es) = 1 + auth_count es
auth_count (_ ∷ es) = auth_count es

auth_count-append : (xs ys : List Event) → auth_count (xs ++ ys) ≡ auth_count xs + auth_count ys
auth_count-append [] ys = omega arith
auth_count-append (call_auth h u p ∷ es) ys = omega (arith, auth_count-append es ys)
auth_count-append (_ ∷ es) ys = omega (arith, auth_count-append es ys)

auth_count-call_of :
    (o : Option Block) (b : Bool) (call : Block → Event)
    → ((h : Block) → auth_count (call h ∷ []) ≡ 0)
    → auth_count (call_of o b call) ≡ 0
auth_count-call_of none b call h = refl
auth_count-call_of (some a) true call h = h a
auth_count-call_of (some a) false call h = refl

-- The session `v'` has the same unread input as `v` and is as secure, and if it is not secure
-- nobody has been asked for a verdict on credentials; the server has as many connections.
pub record Kept (v v' : View) : Type 0 where
  pub same_unread : v'.unread ≡ v.unread
  pub same_is_secure : v'.is_secure ≡ v.is_secure
  pub same_open : v'.sockets_open ≡ v.sockets_open
  pub same_auth : v.is_secure ≡ false → auth_count v'.calls ≡ auth_count v.calls

called_quietly :
    (v : View) (o : Option Block) (b : Bool) (call : Block → Event)
    → ((h : Block) → auth_count (call h ∷ []) ≡ 0)
    → auth_count (v.calls ++ call_of o b call) ≡ auth_count v.calls
called_quietly v o b call h =
    omega (arith, auth_count-append v.calls (call_of o b call), auth_count-call_of o b call h)

abbrev pub KeptBy : {B : Type 0} → View → (B → View) → Outcome B → Type 0
KeptBy v f (ok r) = Kept v (f r)
KeptBy v f out_of_bounds = Unit
KeptBy v f out_of_fuel = Unit

Kept-refl : (v : View) → Kept v v
Kept-refl v = record {
  same_unread = refl;
  same_is_secure = refl;
  same_open = refl;
  same_auth = λ _. refl;
}

Kept-first_if :
    (v : View) (b : Bool) (x y : View) (p q : Bool)
    → Kept v x
    → Kept v y
    → Kept v (if◌then◌else◌ {A = View × Bool} b (x, p) (y, q)).0
Kept-first_if v true x y p q h k = h
Kept-first_if v false x y p q h k = k

spec_data_line-Kept : (v : View) → Kept v (spec_data_line v).0
unfolding spec_data_line
spec_data_line-Kept v =
    Kept-first_if v (is_end_of_data v.linelen v.line) _ _ _ _
      (record {
        same_unread = refl;
        same_is_secure = refl;
        same_open = refl;
        same_auth = λ _. called_quietly v v.data_handler v.handler_queue _ (λ _. refl);
      })
      (record {
        same_unread = refl;
        same_is_secure = refl;
        same_open = refl;
        same_auth = λ _. called_quietly v v.data_handler v.handler_queue _ (λ _. refl);
      })

auth_if-Kept :
    (v : View) (b : Bool) (m : Outcome (Option (Bytes × Bytes)))
    → v.is_secure ≡ b
    → KeptBy v (λ r. r) (if b then (m >>= λ who. ok (called v (auth_calls v who))) else ok v)
auth_if-Kept v true (ok who) e = record {
  same_unread = refl;
  same_is_secure = refl;
  same_open = refl;
  same_auth = λ f. cc;
}
auth_if-Kept v true out_of_bounds e = tt
auth_if-Kept v true out_of_fuel e = tt
auth_if-Kept v false m e = Kept-refl v

spec_answer-Kept : (c : Command) (v : View) → KeptBy v (λ r. r) (spec_answer c v)
unfolding spec_answer
spec_answer-Kept data_command v = record {
  same_unread = refl;
  same_is_secure = refl;
  same_open = refl;
  same_auth = λ _. refl;
}
spec_answer-Kept auth v = auth_if-Kept v v.is_secure (credentials v) refl
spec_answer-Kept _ v = Kept-refl v

-- The command line's branch, on the view after the command has been noted.
answered-Kept :
    (v noted : View) (b : Bool) (parsed : View) (m : Outcome View)
    → Kept v parsed
    → Kept v noted
    → KeptBy noted (λ r. r) m
    → KeptBy v
        (λ r. r.0)
        (if◌then◌else◌ {A = Outcome (View × Bool)} b (ok (parsed, false)) (m >>= λ r. ok (r, true)))
answered-Kept v noted true parsed m h k a = h
answered-Kept v noted false parsed (ok r) h k a = record {
  same_unread = a.same_unread ∙ k.same_unread;
  same_is_secure = a.same_is_secure ∙ k.same_is_secure;
  same_open = a.same_open ∙ k.same_open;
  same_auth = λ f. a.same_auth (k.same_is_secure ∙ f) ∙ k.same_auth f;
}
answered-Kept v noted false parsed out_of_bounds h k a = tt
answered-Kept v noted false parsed out_of_fuel h k a = tt

spec_command_line-Kept : (v : View) → KeptBy v (λ r. r.0) (spec_command_line v)
unfolding spec_command_line
spec_command_line-Kept v =
    let p = read_command v.line v.lineoff in
    let parsed = record v { cmnd = p.cmnd; cmndlen = p.cmndlen; lineoff = p.lineoff } in
    let c = classify p.cmnd in
    answered-Kept v (called (record parsed { state = c }) (smtp_calls c parsed)) (p.cmndlen == 0)
      parsed (spec_answer c (called (record parsed { state = c }) (smtp_calls c parsed)))
      (record {
        same_unread = refl;
        same_is_secure = refl;
        same_open = refl;
        same_auth = λ _. refl;
      })
      (record {
        same_unread = refl;
        same_is_secure = refl;
        same_open = refl;
        same_auth = λ _. called_quietly v v.smtp_handler _ _ (λ _. refl);
      })
      (spec_answer-Kept c _)

spec_if-Kept :
    (v : View) (b : Bool) (x y : Outcome (View × Bool))
    → KeptBy v (λ r. r.0) x
    → KeptBy v (λ r. r.0) y
    → KeptBy v (λ r. r.0) (if b then x else y)
spec_if-Kept v true x y h k = h
spec_if-Kept v false x y h k = k

-- A line leaves the input behind it and the security of the connection as they are, and asks for
-- no verdict on credentials unless the connection is secure.
pub spec_line-Kept : (v : View) → KeptBy v (λ r. r.0) (spec_line v)
unfolding spec_line
spec_line-Kept v =
    spec_if-Kept v (is_in_line v.linelen) _ out_of_bounds
      (spec_if-Kept v (is_data v.state) (ok (spec_data_line v)) (spec_command_line v)
        (spec_data_line-Kept v) (spec_command_line-Kept v))
      tt
