-- ===== src/Server/Changes.antt =====
-- What else happens to a connection: the setters of its handlers, and the block of a write that has
-- come to its end, of libEmailz/src/emailz.c.
use spamass.Base.{ℕ, ◌≡◌, refl, Option, ◌==◌, Bool-cases, inl, inr}
use spamass.Connection.Handlers.{
  set_smtp_handler, set_auth_handler, set_header_handler, set_data_handler,
}
use spamass.Server.Open.{open_of, open-view}
use spamass.Session.View.{view-socket_stop}
use spamass.Socket.Defs.{Completion, stop_on_error, stop_when_done, Socket}
use spamass.Socket.Transport.{on_written}
use spamass.Tls.{Block, Env}

module _ (env : Env) where
  open env use {Context}

  pub data Change (s : Socket Context) : Socket Context → Type 0 where
    smtp_handler : (handler : Option Block) (mask : ℕ) → Change s (set_smtp_handler handler mask s)
    auth_handler : (handler : Option Block) → Change s (set_auth_handler handler s)
    header_handler : (handler : Option Block) → Change s (set_header_handler handler s)
    data_handler : (handler : Option Block) → Change s (set_data_handler handler s)
    written : (c : Completion) (error : ℕ) → Change s (on_written env c error s)

  on_written-open :
      (c : Completion) (error : ℕ) (s : Socket Context)
      → open_of (on_written env c error s) ≡ open_of s
  unfolding on_written
  on_written-open stop_on_error error s = elim (Bool-cases (error == 0)) [
    | inl e ↦ rw e refl
    | inr e ↦ rw e (open-view (view-socket_stop env s))
  ]
  on_written-open stop_when_done error s = open-view (view-socket_stop env s)

  pub Change-open : {s t : Socket Context} → Change s t → open_of t ≡ open_of s
  Change-open {s} (smtp_handler handler mask) = unfold set_smtp_handler in refl
  Change-open {s} (auth_handler handler) = unfold set_auth_handler in refl
  Change-open {s} (header_handler handler) = unfold set_header_handler in refl
  Change-open {s} (data_handler handler) = unfold set_data_handler in refl
  Change-open {s} (written c error) = on_written-open c error s
