-- ===== src/Session/Quit.antt =====
-- The reply to QUIT, and who closes the connection behind it.
use spamass.Base.{
  ℕ, ◌+◌, ◌≡◌, refl, ◌∙◌, Option, none, some, List, [], ◌∷◌, ◌++◌, Bytes, arith, if◌then◌else◌, ok,
  Bool-cases, inl, inr,
}
use spamass.Command.{quit}
use spamass.Session.Commands.{respond}
use spamass.Session.Replies.{reply_closing}
use spamass.Socket.Defs.{Event, io_write, stop_on_error, stop_when_done, Socket, is_some}
use spamass.Socket.Transport.{sslsocket_read, sslsocket_write, run_ssl, handle_write, write_to}
use spamass.Tls.{SslIo, done, recv, send, Env}

-- How many writes have a completion handler that stops the socket.
abbrev pub stopping_writes : List Event → ℕ
stopping_writes [] = 0
stopping_writes (io_write b stop_when_done ∷ es) = 1 + stopping_writes es
stopping_writes (_ ∷ es) = stopping_writes es

stopping_writes-append :
    (xs ys : List Event) → stopping_writes (xs ++ ys) ≡ stopping_writes xs + stopping_writes ys
stopping_writes-append [] ys = omega arith
stopping_writes-append (io_write b stop_when_done ∷ es) ys =
    omega (arith, stopping_writes-append es ys)
stopping_writes-append (_ ∷ es) ys = omega (arith, stopping_writes-append es ys)

module _ {Context : Type 0} where
  write-stopping_writes :
      (s : Socket Context) (b : Bytes)
      → stopping_writes (sslsocket_write s b).1.trace ≡ stopping_writes s.trace
  unfolding sslsocket_write
  write-stopping_writes s b = elim (Bool-cases s.channel) [
    | inl is_open ↦
        rw is_open (omega (arith, stopping_writes-append s.trace (io_write b stop_on_error ∷ [])))
    | inr closed ↦ rw closed
  ]

  run_ssl-stopping_writes :
      {A : Type 0} (io : SslIo A) (s : Socket Context)
      → stopping_writes (run_ssl io s).1.trace ≡ stopping_writes s.trace
  unfolding run_ssl
  run_ssl-stopping_writes (done a) s = refl
  run_ssl-stopping_writes (recv n k) s = run_ssl-stopping_writes (k _ _ _) (sslsocket_read s n).1
  run_ssl-stopping_writes (send b k) s =
      run_ssl-stopping_writes (k _) (sslsocket_write s b).1 ∙ write-stopping_writes s b

module _ (env : Env) where
  open env use {Context}

  write_to-stopping_writes :
      (o : Option Context) (s : Socket Context) (b : Bytes)
      → stopping_writes (write_to env o s b stop_when_done).trace
        ≡ (if is_some o then 0 else 1) + stopping_writes s.trace
  unfolding write_to
  write_to-stopping_writes none s b =
      omega (arith, stopping_writes-append s.trace (io_write b stop_when_done ∷ []))
  write_to-stopping_writes (some context) s b =
      omega (arith, run_ssl-stopping_writes (env.ssl_write context b) s)

  -- QUIT is answered. Without an SSL context this adds one write whose completion stops the socket;
  -- with one it adds none.
  pub respond_quit-stopping_writes :
      (s : Socket Context)
      → (t : Socket Context) × (respond env quit s ≡ ok t)
        × (stopping_writes t.trace
            ≡ (if is_some s.sslcontext then 0 else 1) + stopping_writes s.trace)
  unfolding respond handle_write
  respond_quit-stopping_writes s = (
    write_to env s.sslcontext s reply_closing stop_when_done,
    refl,
    write_to-stopping_writes s.sslcontext s reply_closing,
  )
