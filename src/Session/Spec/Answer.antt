-- ===== src/Session/Spec/Answer.antt =====
-- The answer to a command is the specification's, whatever the transport does.
use spamass.Base.{
  ℕ, Bool, true, false, not, ◌&&◌, Option, none, some, [], ◌∷◌, Bytes, ◌≡◌, refl, ap, ◌∙◌, sym,
  ◌==◌, leb, if◌then◌else◌, Outcome, ok, out_of_bounds, out_of_fuel, ◌>>=◌, append-nil,
}
use Prim.Native.Nat.{bit_and}
use spamass.Base64
use spamass.Command.{
  Command, no_command, helo, ehlo, mail, rcpt, data_command, quit, rset, noop, help, vrfy, auth,
  starttls, bit,
}
use spamass.Session.Commands.{
  respond, respond_auth, authenticate, ask_user, ask_handler, notify_handler, user_of, password_of,
}
use spamass.Session.Spec.{spec_answer, credentials, call_of, called, auth_calls, argument_of}
use spamass.Session.View.{
  View, view, user_calls, user_calls-append, view-handle_write, view-setup_ssl,
}
use spamass.Session.Replies.{reply_authenticated, reply_not_authenticated}
use spamass.Socket.Transport.{handle_write}
use spamass.Socket.Defs.{Completion, stop_on_error, Socket, Event, queue_smtp, call_auth, emit}
use spamass.Tls.{Env, Block}

view-emit_user :
    {Context : Type 0} (s : Socket Context) (e : Event)
    → user_calls (e ∷ []) ≡ e ∷ []
    → view (emit s e) ≡ called (view s) (e ∷ [])
view-emit_user s e user = rw (user_calls-append s.trace (e ∷ []), user)

pub called_nothing : (v : View) → called v [] ≡ v
called_nothing v = rw (append-nil v.calls)

pub view-emit_if :
    {Context : Type 0} (b : Bool) (s : Socket Context) (e : Event)
    → user_calls (e ∷ []) ≡ e ∷ []
    → view (if b then emit s e else s) ≡ called (view s) (if b then e ∷ [] else [])
view-emit_if true s e user = view-emit_user s e user
view-emit_if false s e user = sym (called_nothing (view s))

module _ (env : Env) where
  open env use {Context}

  pub view-notify_handler :
      (o : Option Block) (c : Command) (s : Socket Context)
      → view (notify_handler env o c s)
        ≡ called (view s) (
            call_of o
              (s.handler_queue && not (bit_and (bit c) s.smtp_handler_mask == 0))
              (λ h. queue_smtp h c (argument_of (view s))))
  unfolding notify_handler bit
  view-notify_handler none c s = sym (called_nothing (view s))
  view-notify_handler (some h) c s = view-emit_if _ s (queue_smtp h c _) refl

  view-asked_if :
      (b : Bool) (s : Socket Context) (e : Event) (x : Bool)
      → user_calls (e ∷ []) ≡ e ∷ []
      → view (if◌then◌else◌ {A = Socket Context × Bool} b (emit s e, x) (s, true)).0
        ≡ called (view s) (if b then e ∷ [] else [])
  view-asked_if true s e x user = view-emit_user s e user
  view-asked_if false s e x user = sym (called_nothing (view s))

  view-ask_handler :
      (o : Option Block) (s : Socket Context) (u p : Bytes)
      → view (ask_handler env o s u p).0
        ≡ called (view s) (call_of o s.handler_queue (λ h. call_auth h u p))
  unfolding ask_handler
  view-ask_handler none s u p = sym (called_nothing (view s))
  view-ask_handler (some h) s u p = view-asked_if s.handler_queue s (call_auth h u p) _ refl

  -- The results of the steps, seen by the protocol.
  abbrev view_first : Outcome (Socket Context × Bool) → Outcome View
  view_first m = m >>= λ r. ok (view r.0)

  abbrev pub view_socket : Outcome (Socket Context) → Outcome View
  view_socket m = m >>= λ s. ok (view s)

  view-asked :
      (s : Socket Context) (long : Bool) (buffer : Bytes)
      → view (if long then ask_user env s (user_of buffer) (password_of buffer) else (s, false)).0
        ≡ called
            (view s)
            (auth_calls (view s) (if long then some (user_of buffer, password_of buffer) else none))
  unfolding ask_user
  view-asked s true buffer = view-ask_handler s.auth_handler s (user_of buffer) (password_of buffer)
  view-asked s false buffer = sym (called_nothing (view s))

  view-authenticate_if :
      (s : Socket Context) (b : Bool) (decoded : Outcome (Bytes × ℕ))
      → view_first (
          if b
          then (decoded >>= λ r.
              ok (if leb 3 r.1 then ask_user env s (user_of r.0) (password_of r.0) else (s, false)))
          else ok (s, false))
        ≡ ((if b
              then (decoded >>= λ r.
                  ok (if leb 3 r.1 then some (user_of r.0, password_of r.0) else none))
              else ok none)
            >>= λ who. ok (called (view s) (auth_calls (view s) who)))
  view-authenticate_if s true (ok r) = ap ok (view-asked s (leb 3 r.1) r.0)
  view-authenticate_if s true out_of_bounds = refl
  view-authenticate_if s true out_of_fuel = refl
  view-authenticate_if s false decoded = ap ok (sym (called_nothing (view s)))

  view-authenticate :
      (s : Socket Context)
      → view_first (authenticate env s)
        ≡ (credentials (view s) >>= λ who. ok (called (view s) (auth_calls (view s) who)))
  unfolding authenticate credentials Base64.decode
  view-authenticate s = view-authenticate_if s _ _

  view-answered :
      (m : Outcome (Socket Context × Bool)) (text : Bool → Bytes)
      → view_socket (m >>= λ r. ok (handle_write env r.0 (text r.1) stop_on_error)) ≡ view_first m
  view-answered (ok (s, b)) text = ap ok (view-handle_write env s (text b) stop_on_error)
  view-answered out_of_bounds text = refl
  view-answered out_of_fuel text = refl

  view-reply :
      (s : Socket Context) (text : Bytes) (c : Completion)
      → view_socket (ok (handle_write env s text c)) ≡ ok (view s)
  view-reply s text c = ap ok (view-handle_write env s text c)

  view_socket-if :
      (b : Bool) (x y : Outcome (Socket Context)) {v w : Outcome View}
      → view_socket x ≡ v
      → view_socket y ≡ w
      → view_socket (if b then x else y) ≡ (if b then v else w)
  view_socket-if true x y p q = p
  view_socket-if false x y p q = q

  view_socket-if_same :
      (b : Bool) (x y : Outcome (Socket Context)) {v : Outcome View}
      → view_socket x ≡ v
      → view_socket y ≡ v
      → view_socket (if b then x else y) ≡ v
  view_socket-if_same true x y p q = p
  view_socket-if_same false x y p q = q

  view-respond_auth :
      (s : Socket Context) → view_socket (respond_auth env s) ≡ spec_answer auth (view s)
  unfolding respond_auth spec_answer
  view-respond_auth s =
      view_socket-if s.is_secure _ _
        (view-answered (authenticate env s)
            (λ isauth. if isauth then reply_authenticated else reply_not_authenticated)
          ∙ view-authenticate s)
        (view-reply s _ _)

  pub view-respond :
      (c : Command) (s : Socket Context) → view_socket (respond env c s) ≡ spec_answer c (view s)
  unfolding respond spec_answer
  view-respond helo s = view-reply s _ _
  view-respond ehlo s = view-reply s _ _
  view-respond mail s = view-reply s _ _
  view-respond rcpt s = view-reply s _ _
  view-respond data_command s = view-reply (record s { email_size = 0 }) _ _
  view-respond quit s = view-reply s _ _
  view-respond rset s = view-reply s _ _
  view-respond noop s = view-reply s _ _
  view-respond help s = view-reply s _ _
  view-respond vrfy s = view-reply s _ _
  view-respond auth s = view-respond_auth s
  view-respond starttls s =
      view_socket-if_same s.is_secure _ _ (view-reply s _ _)
        (ap ok (view-setup_ssl env _ ∙ view-handle_write env s _ _))
  view-respond no_command s = view-reply s _ _
