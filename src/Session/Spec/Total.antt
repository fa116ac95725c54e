-- ===== src/Session/Spec/Total.antt =====
-- Every line of ASCII that leaves room for its terminator is dealt with: the code returns, and keeps
-- to its arrays.
use spamass.Base.{
  ℕ, ◌-◌, ◌<◌, ◌≤◌, ◌≡◌, refl, ◌∙◌, ◌⊎◌, inl, inr, Bool-cases, Bool, true, false, ◌&&◌, Option,
  none, Bytes, arith, Outcome, ok, out_of_bounds, out_of_fuel, Returns, Returns-bind, Returns-if,
  ◌==◌, length, take, drop, All-take, All-drop, length-take, codes, starts_with, ltb,
}
use spamass.Base64
use spamass.Base64.Bounds.{IsAscii, decode-Returns}
use spamass.Command.{Command, data_command, auth, read_command, classify, is_data}
use spamass.Line.{max_line_size, is_in_line}
use spamass.Session.Commands.{decode_buf}
use spamass.Session.Spec.{
  called, spec_data_line, smtp_calls, credentials, spec_answer, spec_command_line, spec_line,
}
use spamass.Session.Spec.Kept.{Kept, KeptBy, spec_line-Kept}
use spamass.Session.Spec.Refine.{view_of, handle_line-spec_line}
use spamass.Session.View.{View, view}
use spamass.Session.{handle_line, max_indata_size}
use spamass.Socket.Defs.{Socket}
use spamass.Tls.{Env}

abbrev Fine : {A : Type 0} → A → Type 0
Fine a = Unit {0}

-- The payload of an AUTH line that passes the length tests fits the buffer when decoded.
payload-Returns :
    (line : Bytes) (linelen : ℕ)
    → IsAscii line
    → linelen < 150
    → Returns
        (Base64.decode (take (linelen - 13) (drop 11 line)) decode_buf)
        (λ r. length r.0 ≡ 150)
payload-Returns line linelen a h =
    decode-Returns (take (linelen - 13) (drop 11 line)) decode_buf
      (All-take (λ b. b < 128) (linelen - 13) (drop 11 line) (All-drop (λ b. b < 128) 11 line a))
      (omega (arith, length-take (linelen - 13) (drop 11 line))) (omega arith)

short_line : (word : Bool) (n : ℕ) → (word && ltb 13 n && ltb n 150) ≡ true → n < 150
short_line word n e = ground arith

credentials-Returns : (v : View) → IsAscii v.line → Returns (credentials v) Fine
unfolding credentials
credentials-Returns v a =
    let word = starts_with (codes "AUTH PLAIN ") v.line in
    Returns-if {A = Option (Bytes × Bytes)} (word && ltb 13 v.linelen && ltb v.linelen 150) _
      (ok none) Fine
      (λ e.
        Returns-bind (Base64.decode (take (v.linelen - 13) (drop 11 v.line)) decode_buf) _
          (λ r. length r.0 ≡ 150) Fine
          (payload-Returns v.line v.linelen a (short_line word v.linelen e)) (λ r p. tt {0}))
      (λ e. tt {0})

spec_answer-Returns : (c : Command) (v : View) → IsAscii v.line → Returns (spec_answer c v) Fine
unfolding spec_answer
spec_answer-Returns data_command v a = tt
spec_answer-Returns auth v a =
    Returns-if v.is_secure _ (ok v) Fine
      (λ e. Returns-bind (credentials v) _ Fine Fine (credentials-Returns v a) (λ who p. tt))
      (λ e. tt)
spec_answer-Returns _ v a = tt

-- Where the loop is not to go on there was no command, or the mail has grown too large.
abbrev pub StopsFor : View → Bool → Type 0
StopsFor v go_on = go_on ≡ false → (v.cmndlen ≡ 0) ⊎ (max_indata_size < v.email_size)

spec_command_line-Returns :
    (v : View) → IsAscii v.line → Returns (spec_command_line v) (λ r. StopsFor r.0 r.1)
unfolding spec_command_line
spec_command_line-Returns v a =
    let p = read_command v.line v.lineoff in
    let parsed = record v { cmnd = p.cmnd; cmndlen = p.cmndlen; lineoff = p.lineoff } in
    let c = classify p.cmnd in
    Returns-if (p.cmndlen == 0) (ok (parsed, false)) _ (λ r. StopsFor r.0 r.1)
      (λ e f. inl (ground (arith, e)))
      (λ e.
        Returns-bind (spec_answer c (called (record parsed { state = c }) (smtp_calls c parsed))) _
          Fine (λ r. StopsFor r.0 r.1) (spec_answer-Returns c _ a) (λ r q f. absurd cc))

data_line-StopsFor : (v : View) → StopsFor (spec_data_line v).0 (spec_data_line v).1
unfolding spec_data_line
data_line-StopsFor v e = inr (ground (arith, e))

spec_line-Returns :
    (v : View)
    → IsAscii v.line
    → v.linelen < max_line_size
    → Returns (spec_line v) (λ r. StopsFor r.0 r.1)
unfolding spec_line
spec_line-Returns v a short =
    Returns-if (is_in_line v.linelen) _ out_of_bounds (λ r. StopsFor r.0 r.1)
      (λ e.
        Returns-if (is_data v.state) (ok (spec_data_line v)) (spec_command_line v)
          (λ r. StopsFor r.0 r.1) (λ d. data_line-StopsFor v) (λ d. spec_command_line-Returns v a))
      (λ e. absurd (ground (arith, e, short)))

-- A line that fills `line` is not dealt with: its terminator lies behind the array.
spec_line_full : (v : View) → max_line_size ≤ v.linelen → spec_line v ≡ out_of_bounds
unfolding spec_line
spec_line_full v full =
    let no_room : is_in_line v.linelen ≡ false = ground (arith, full) in rw no_room

Returns-Kept :
    (v : View) (m : Outcome (View × Bool))
    → Returns m (λ r. StopsFor r.0 r.1)
    → KeptBy v (λ r. r.0) m
    → Returns m (λ r. Kept v r.0 × StopsFor r.0 r.1)
Returns-Kept v (ok r) f k = (k, f)
Returns-Kept v out_of_bounds f k = f
Returns-Kept v out_of_fuel f k = f

module _ {Context : Type 0} where
  Returns-view_of :
      (m : Outcome (Socket Context × Bool)) (P : View × Bool → Type 0)
      → Returns (view_of m) P
      → Returns m (λ r. P (view r.0, r.1))
  Returns-view_of (ok (s, b)) P h = h
  Returns-view_of out_of_bounds P h = h
  Returns-view_of out_of_fuel P h = h

  view_of-out_of_bounds :
      (m : Outcome (Socket Context × Bool)) → view_of m ≡ out_of_bounds → m ≡ out_of_bounds
  view_of-out_of_bounds (ok r) e = cc
  view_of-out_of_bounds out_of_bounds e = refl
  view_of-out_of_bounds out_of_fuel e = cc

module _ (env : Env) where
  open env use {Context}

  -- What a line of ASCII that leaves room for its terminator leaves of a socket, and whether the loop
  -- goes on behind it.
  pub handle_short-Returns :
      (s : Socket Context)
      → IsAscii s.line
      → s.linelen < max_line_size
      → Returns (handle_line env s) (λ r. Kept (view s) (view r.0) × StopsFor (view r.0) r.1)
  handle_short-Returns s a short =
      Returns-view_of (handle_line env s) (λ r. Kept (view s) r.0 × StopsFor r.0 r.1)
        (rw (handle_line-spec_line env s) (
          Returns-Kept (view s) (spec_line (view s)) (spec_line-Returns (view s) a short)
            (spec_line-Kept (view s))))

  -- A line of ASCII bytes that is shorter than `line` is handled with a result: no array is left. The
  -- unread bytes and `is_secure` are as before, if the connection is not secure the authentication
  -- block has not been asked, and the loop is stopped only if there was no command or the mail has
  -- grown too large. A line that fills `line` leaves the array with its terminator.
  pub handle_line-Returns :
      (s : Socket Context)
      → IsAscii s.line
      → ((s.linelen < max_line_size)
          × Returns (handle_line env s) (λ r. Kept (view s) (view r.0) × StopsFor (view r.0) r.1))
        ⊎ ((max_line_size ≤ s.linelen) × (handle_line env s ≡ out_of_bounds))
  handle_line-Returns s a = elim (Bool-cases (is_in_line s.linelen)) [
    | inl e ↦
        let short : s.linelen < max_line_size = ground (arith, e) in
        inl (short, handle_short-Returns s a short)
    | inr e ↦
        let full : max_line_size ≤ s.linelen = ground (arith, e) in
        inr (
          full,
          view_of-out_of_bounds (handle_line env s)
              (handle_line-spec_line env s ∙ spec_line_full (view s) full),
        )
  ]
