-- ===== src/Session/Spec/Refine.antt =====
-- The implementation does what the specification says, whatever the transport does.
use spamass.Base.{
  ◌+◌, ◌%◌, ◌^◌, Bool, true, false, not, Option, none, some, Bytes, ◌≡◌, refl, ap, ◌∙◌, sym, ◌==◌,
  if◌then◌else◌, Outcome, ok, out_of_bounds, out_of_fuel, ◌>>=◌,
}
use spamass.Command.{no_command, classify, read_command, is_data}
use spamass.Session.Commands.{handle_command_line, notify_smtp, notify_handler}
use spamass.Session.Spec.{
  spec_line, spec_data_line, spec_command_line, spec_answer, call_of, called,
}
use spamass.Session.View.{View, view, view-handle_write, view-socket_stop}
use spamass.Line.{is_in_line}
use spamass.Session.{handle_line, handle_data_line, notify_with, is_end_of_data, oversized}
use spamass.Socket.Lines.{socket_read_command}
use spamass.Socket.Defs.{Socket, queue_data}
use spamass.Tls.{Env, Block}
use spamass.Session.Spec.Answer.{
  called_nothing, view-emit_if, view-notify_handler, view_socket, view-respond,
}

-- The result of the implementation, seen by the protocol.
abbrev pub view_of : {Context : Type 0} → Outcome (Socket Context × Bool) → Outcome (View × Bool)
view_of (ok (s, go_on)) = ok (view s, go_on)
view_of out_of_bounds = out_of_bounds
view_of out_of_fuel = out_of_fuel

-- The three ways out of the data phase's branch.
view_of-data :
    {Context : Type 0} (b c : Bool) (x y z : Socket Context) {v w : View}
    → view x ≡ v
    → view y ≡ w
    → view z ≡ w
    → view_of (ok (if b then (x, true) else if c then (y, false) else (z, true)))
      ≡ ok (if b then (v, true) else (w, not c))
view_of-data true c x y z p q r = ap (λ u. ok (u, true)) p
view_of-data false true x y z p q r = ap (λ u. ok (u, false)) q
view_of-data false false x y z p q r = ap (λ u. ok (u, true)) r

module _ (env : Env) where
  open env use {Context}

  view-notify_with :
      (o : Option Block) (s : Socket Context) (b : Option Bytes) (d : Bool)
      → view (notify_with env o s b d)
        ≡ called (view s) (call_of o s.handler_queue (λ h. queue_data h b d))
  unfolding notify_with
  view-notify_with none s b d = sym (called_nothing (view s))
  view-notify_with (some h) s b d = view-emit_if s.handler_queue s (queue_data h b d) refl

  view-handle_data_line :
      (s : Socket Context) → view_of (ok (handle_data_line env s)) ≡ ok (spec_data_line (view s))
  unfolding handle_data_line spec_data_line
  view-handle_data_line s =
      let counted = record s { email_size = (s.email_size + s.linelen) % 2 ^ 64 } in
      let told = view-notify_with s.data_handler counted (some s.line) (oversized env counted) in
      view_of-data (is_end_of_data s.linelen s.line) (oversized env counted) _ _ _
        (view-handle_write env _ _ _
          ∙ ap (λ (v : View). record v { state = no_command })
              (view-notify_with s.data_handler s none true))
        (view-socket_stop env _ ∙ told) told

  view-parsed :
      (s : Socket Context) (b : Bool) (m : Outcome (Socket Context)) {n : Outcome View}
      → view_socket env m ≡ n
      → view_of (if b then ok (s, false) else (m >>= λ s'. ok (s', true)))
        ≡ (if b then ok (view s, false) else (n >>= λ v. ok (v, true)))
  view-parsed s true m e = refl
  view-parsed s false (ok s') e = rw (← e)
  view-parsed s false out_of_bounds e = rw (← e)
  view-parsed s false out_of_fuel e = rw (← e)

  view-handle_command_line :
      (s : Socket Context) → view_of (handle_command_line env s) ≡ spec_command_line (view s)
  unfolding handle_command_line spec_command_line notify_smtp socket_read_command read_command
      classify
  view-handle_command_line s =
      let p = read_command s.line s.lineoff in
      let parsed = record s { cmnd = p.cmnd; cmndlen = p.cmndlen; lineoff = p.lineoff } in
      let c = classify p.cmnd in
      let noted = record parsed { state = c } in
      view-parsed parsed (p.cmndlen == 0) _ (
        view-respond env c (notify_handler env s.smtp_handler c noted)
        ∙ ap (spec_answer c) (view-notify_handler env s.smtp_handler c noted))

  view_of-if :
      (b : Bool) (x y : Outcome (Socket Context × Bool)) {v w : Outcome (View × Bool)}
      → view_of x ≡ v
      → view_of y ≡ w
      → view_of (if b then x else y) ≡ (if b then v else w)
  view_of-if true x y p q = p
  view_of-if false x y p q = q

  -- What `handle_line` does to a socket, seen by the protocol, is what the specification of a line says
  -- of the view: it depends on nothing but the view, and so not on the SSL context, the record file,
  -- the channel or the writes.
  pub handle_line-spec_line :
      (s : Socket Context) → view_of (handle_line env s) ≡ spec_line (view s)
  unfolding handle_line spec_line spec_data_line spec_command_line
  handle_line-spec_line s =
      view_of-if (is_in_line s.linelen) _ _
        (view_of-if (is_data s.state) _ _ (view-handle_data_line s) (view-handle_command_line s))
        refl
