-- ===== src/Server/Open.antt =====
-- No read handler of libEmailz/src/emailz.c changes how many connections the server counts.
use spamass.Base.{
  ℕ, zero, suc, ◌≡◌, refl, ap, ◌∙◌, Bool, true, false, not, ◌&&◌, Option, none, some, [], ◌∷◌,
  length, ◌==◌, if◌then◌else◌, inl, inr, Option-cases, Outcome, ok, out_of_bounds, out_of_fuel,
  ◌>>=◌, WhenReturns, WhenReturns-bind, WhenReturns-if, WhenReturns-weaken,
}
use spamass.Connection.Reading.{after_data-view}
use spamass.Connection.{on_read, on_data, count_data}
use spamass.Dispatch.{DispatchData, concat}
use spamass.Session.Loop.Fragments.{idled, run_view, process_all-spec_run}
use spamass.Session.Spec.Kept.{KeptBy, spec_line-Kept}
use spamass.Session.Spec.Run.{
  reading, next, spec_run, spec_run_all, spec_run-none, spec_run-some, continue_with,
}
use spamass.Session.Spec.{spec_line}
use spamass.Session.View.{View, view, view-run_ssl, view-record_data, view-socket_stop}
use spamass.Session.{
  LoopExit, process_all, after_read, read_decrypted, after_handshake, continue_handshake, read_from,
  handle_read,
}
use spamass.Socket.Defs.{Socket}
use spamass.Socket.Transport.{run_ssl, record_data}
use spamass.Tls.{Env, OsStatus, no_err, would_block}

continue-open :
    (f : View → Outcome (View × LoopExit)) (v : View) (m : Outcome (View × Bool))
    → KeptBy v (λ r. r.0) m
    → ((w : View) → WhenReturns (f w) (λ r. r.0.sockets_open ≡ w.sockets_open))
    → WhenReturns (m >>= continue_with f) (λ r. r.0.sockets_open ≡ v.sockets_open)
continue-open f v (ok (w, true)) k h = WhenReturns-weaken (f w) _ _ (h w) (λ r e. e ∙ k.same_open)
continue-open f v (ok (w, false)) k h = k.same_open
continue-open f v out_of_bounds k h = tt
continue-open f v out_of_fuel k h = tt

spec_run-open :
    (fuel : ℕ) (v : View) → WhenReturns (spec_run fuel v) (λ r. r.0.sockets_open ≡ v.sockets_open)
spec_run-open zero v = unfold spec_run in tt
spec_run-open (suc fuel) v = elim (Option-cases (next v)) [
  | inl e ↦ rw (spec_run-none fuel v e) refl
  | inr ((line, left), e) ↦ rw (spec_run-some fuel v e) (
      continue-open (spec_run fuel) (reading v line left) (spec_line (reading v line left))
        (spec_line-Kept (reading v line left)) (spec_run-open fuel))
]

idled-open :
    (n : ℕ) (m : Outcome (View × LoopExit))
    → WhenReturns m (λ r. r.0.sockets_open ≡ n)
    → WhenReturns (idled m) (λ r. r.0.sockets_open ≡ n)
idled-open n (ok r) h = h
idled-open n out_of_bounds h = tt
idled-open n out_of_fuel h = tt

-- The connections that the server of a socket counts.
abbrev pub open_of : {Context : Type 0} → Socket Context → ℕ
open_of s = s.emailz.sockets_open

pub open-view : {v w : View} → v ≡ w → v.sockets_open ≡ w.sockets_open
open-view e = ap (λ (v : View). v.sockets_open) e

module _ (env : Env) where
  open env use {Context}

  run_view-open :
      (n : ℕ) (m : Outcome (Socket Context × LoopExit))
      → WhenReturns (run_view env m) (λ r. r.0.sockets_open ≡ n)
      → WhenReturns m (λ r. open_of r.0 ≡ n)
  run_view-open n (ok r) h = h
  run_view-open n out_of_bounds h = tt
  run_view-open n out_of_fuel h = tt

  process_all-open :
      (s : Socket Context) → WhenReturns (process_all env s) (λ r. open_of r.0 ≡ open_of s)
  process_all-open s = run_view-open (open_of s) (process_all env s) (
      rw (process_all-spec_run env s) (
        idled-open (open_of s) (spec_run_all (view s))
          (unfold spec_run_all in spec_run-open (suc (length (view s).unread)) (view s))))

  record_data-open :
      (s : Socket Context) (d : DispatchData) → open_of (record_data env s d) ≡ open_of s
  record_data-open s d = open-view (view-record_data env s d)

  run_ssl-open :
      {A : Type 0} (io : _) (s : Socket Context) → open_of (run_ssl {A = A} io s).1 ≡ open_of s
  run_ssl-open io s = open-view (view-run_ssl io s)

  after_read-open :
      (status : OsStatus) (s : Socket Context) → open_of (after_read env status s).0 ≡ open_of s
  unfolding after_read
  after_read-open no_err s = refl
  after_read-open would_block s = refl
  after_read-open _ s = open-view (view-socket_stop env s)

  read_decrypted-open :
      (fuel : ℕ) (s : Socket Context) (context : Context)
      → WhenReturns (read_decrypted env fuel s context) (λ t. open_of t ≡ open_of s)
  unfolding read_decrypted
  read_decrypted-open zero s context = tt
  read_decrypted-open (suc fuel) s context =
      let io = env.ssl_read context 1000 in
      let (result, s₁) = run_ssl io s in
      let processed = result.1 in
      let s₂ = record s₁ { sslcontext = some result.2 } in
      let appended = record s₂ { indata = concat s₂.indata (processed ∷ []) } in
      let read = run_ssl-open io s in
      WhenReturns-if ((after_read env result.0 s₂).1 && not (length processed == 0)) _ _
        (λ t. open_of t ≡ open_of s)
        (WhenReturns-weaken
          (read_decrypted env fuel (record_data env appended (processed ∷ [])) result.2) _ _
          (read_decrypted-open fuel (record_data env appended (processed ∷ [])) result.2)
          (λ t e. e ∙ record_data-open appended (processed ∷ []) ∙ read))
        (after_read-open result.0 s₂ ∙ read)

  after_handshake-open :
      (status : OsStatus) (s : Socket Context)
      → open_of (after_handshake env status s).0 ≡ open_of s
  unfolding after_handshake
  after_handshake-open would_block s = refl
  after_handshake-open no_err s = refl
  after_handshake-open _ s = open-view (view-socket_stop env s)

  open_if :
      (b : Bool) (n : ℕ) (x y : Socket Context × Context × Bool)
      → open_of x.0 ≡ n
      → open_of y.0 ≡ n
      → open_of (if b then x else y).0 ≡ n
  open_if true n x y p q = p
  open_if false n x y p q = q

  continue_handshake-open :
      (s : Socket Context) (context : Context)
      → open_of (continue_handshake env s context).0 ≡ open_of s
  unfolding continue_handshake
  continue_handshake-open s context =
      let io = env.ssl_handshake context in
      let (result, s₁) = run_ssl io s in
      let s₂ = record s₁ { sslcontext = some result.1 } in
      let r = after_handshake env result.0 s₂ in
      open_if s.is_handshaking (open_of s) (r.0, result.1, r.1) (s, context, true)
        (after_handshake-open result.0 s₂ ∙ run_ssl-open io s) refl

  read_from-open :
      (fuel : ℕ) (o : Option Context) (s : Socket Context) (d : DispatchData)
      → WhenReturns (read_from env fuel o s d) (λ r. open_of r.0 ≡ open_of s)
  unfolding read_from
  read_from-open fuel none s d =
      WhenReturns-weaken (process_all env _) _ _ (process_all-open _)
        (λ r e. e ∙ record_data-open s d)
  read_from-open fuel (some context) s d =
      let taken = record s { tmpdata = concat s.tmpdata d } in
      let r = continue_handshake env taken context in
      let kept = continue_handshake-open taken context in
      WhenReturns-if r.2 _ _ (λ r. open_of r.0 ≡ open_of s)
        (WhenReturns-bind (read_decrypted env fuel r.0 r.1) (process_all env)
          (λ t. open_of t ≡ open_of s) (λ r. open_of r.0 ≡ open_of s)
          (WhenReturns-weaken (read_decrypted env fuel r.0 r.1) _ _
            (read_decrypted-open fuel r.0 r.1) (λ t e. e ∙ kept))
          (λ t e. WhenReturns-weaken (process_all env t) _ _ (process_all-open t) (λ u f. f ∙ e)))
        kept

  on_data-open :
      (fuel now : ℕ) (o : Option DispatchData) (s : Socket Context)
      → WhenReturns (on_data env fuel o now s) (λ t. open_of t ≡ open_of s)
  unfolding on_data handle_read
  on_data-open fuel now none s = refl
  on_data-open fuel now (some d) s =
      WhenReturns-bind (read_from env fuel s.sslcontext (count_data s d now) d) (λ r. ok r.0)
        (λ r. open_of r.0 ≡ open_of s) (λ t. open_of t ≡ open_of s)
        (read_from-open fuel s.sslcontext (count_data s d now) d) (λ r e. e)

  -- With whatever it is called, the read handler leaves the count as it is.
  pub on_read-open :
      (fuel : ℕ) (over : Bool) (o : Option DispatchData) (error now later : ℕ) (s : Socket Context)
      → WhenReturns (on_read env fuel over o error now later s) (λ t. open_of t ≡ open_of s)
  unfolding on_read
  on_read-open fuel over o error now later s =
      WhenReturns-if s.stop (ok s) _ (λ t. open_of t ≡ open_of s) refl
        (WhenReturns-bind (on_data env fuel o now s) _ (λ t. open_of t ≡ open_of s)
          (λ t. open_of t ≡ open_of s) (on_data-open fuel now o s)
          (λ t e. open-view (after_data-view env over error later t) ∙ e))
