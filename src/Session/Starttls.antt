-- ===== src/Session/Starttls.antt =====
-- The end of the handshake that STARTTLS begins (libEmailz/src/emailz.c,
-- `emailz_socket_handle_read`), and the bytes that were received before it.
use spamass.Base.{◌≡◌, ◌∙◌, refl, ap, Bool, true, false, not, ◌&&◌, ◌||◌, if◌then◌else◌, some}
use spamass.Session.View.{View, view, view-run_ssl, view-socket_stop}
use spamass.Session.{after_handshake, continue_handshake}
use spamass.Socket.Defs.{Socket}
use spamass.Socket.Transport.{run_ssl}
use spamass.Tls.{OsStatus, no_err, would_block, closed_graceful, closed_abort, failed, Env}

-- What Secure Transport says of a handshake that is complete.
abbrev pub is_no_err : OsStatus → Bool
is_no_err no_err = true
is_no_err _ = false

module _ (env : Env) where
  open env use {Context, ssl_handshake}

  -- The view behind a step of the handshake.
  abbrev stepped : View → Bool → View
  stepped v secured = record v { is_secure = if secured then true else v.is_secure }

  view-after_handshake :
      (status : OsStatus) (s : Socket Context)
      → view (after_handshake env status s).0 ≡ stepped (view s) (after_handshake env status s).1
  unfolding after_handshake
  view-after_handshake would_block s = refl
  view-after_handshake no_err s = refl
  view-after_handshake closed_graceful s = view-socket_stop env s
  view-after_handshake closed_abort s = view-socket_stop env s
  view-after_handshake (failed n) s = view-socket_stop env s

  view-choice :
      (shaking complete : Bool) (v : View) (x y : Socket Context × Context × Bool)
      → view x.0 ≡ stepped v complete
      → view y.0 ≡ v
      → let r = if shaking then x else y in
        view r.0 ≡ record v { is_secure = if shaking && complete then true else v.is_secure }
  view-choice true complete v x y p q = p
  view-choice false complete v x y p q = q

  go_on-after_handshake :
      (status : OsStatus) (s : Socket Context) → (after_handshake env status s).1 ≡ is_no_err status
  unfolding after_handshake
  go_on-after_handshake would_block s = refl
  go_on-after_handshake no_err s = refl
  go_on-after_handshake closed_graceful s = refl
  go_on-after_handshake closed_abort s = refl
  go_on-after_handshake (failed n) s = refl

  go_on-choice :
      (shaking : Bool) (b : Bool) (x y : Socket Context × Context × Bool)
      → x.2 ≡ b
      → y.2 ≡ true
      → (if shaking then x else y).2 ≡ (not shaking || b)
  go_on-choice true b x y p q = p
  go_on-choice false b x y p q = q

  -- A step of the handshake changes nothing that the protocol sees but `is_secure`: if the socket is in
  -- its handshake and Secure Transport says that this is complete, `is_secure` becomes true; in no
  -- other case does it change. The bytes that came in unencrypted and have not been read stay in any
  -- case. The read handler goes on exactly if there is no handshake, or it is complete.
  pub continue_handshake-view :
      (s : Socket Context) (context : Context)
      → let r = continue_handshake env s context in
        let complete = is_no_err (run_ssl (ssl_handshake context) s).0.0 in
        (view r.0 ≡ record (view s) {
          is_secure = if s.is_handshaking && complete then true else s.is_secure;
        })
        × (r.2 ≡ (not s.is_handshaking || complete))
  unfolding continue_handshake
  continue_handshake-view s context =
      let r = run_ssl (ssl_handshake context) s in
      let s₁ = record r.1 { sslcontext = some r.0.1 } in
      let complete = is_no_err r.0.0 in
      (
        view-choice s.is_handshaking complete (view s) _ _
            (view-after_handshake r.0.0 s₁
              ∙ ap (λ (b : Bool). stepped (view s₁) b) (go_on-after_handshake r.0.0 s₁)
              ∙ ap (λ (v : View). stepped v complete) (view-run_ssl (ssl_handshake context) s))
            refl,
        go_on-choice s.is_handshaking complete _ _ (go_on-after_handshake r.0.0 s₁) refl,
      )
