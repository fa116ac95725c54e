-- ===== src/Connection/Reading.antt =====
-- The read handler on an unencrypted connection.
use spamass.Base.{ℕ, ◌≡◌, [], refl, Bool, false, not, ◌||◌, Option, none, some, Bytes, ◌==◌}
use spamass.Connection.{after_data}
use spamass.Dispatch.{DispatchData, contents}
use spamass.Session.Spec.Kept.{auth_count}
use spamass.Session.View.{view, View, user_calls, view-socket_stop, view-if}
use spamass.Socket.Defs.{Socket}
use spamass.Tls.{Env}

-- The bytes that the handler is given.
abbrev pub given : Option DispatchData → Bytes
given none = []
given (some d) = contents d

-- What the handler leaves, seen by the protocol.
pub record IsRead {Context : Type 0} (s t : Socket Context) : Type 0 where
  pub same_is_secure : t.is_secure ≡ s.is_secure
  pub same_auth :
      s.is_secure ≡ false → auth_count (user_calls t.trace) ≡ auth_count (user_calls s.trace)

module _ (env : Env) where
  open env use {Context}

  pub after_data-view :
      (over : Bool) (error now : ℕ) (s : Socket Context)
      → view (after_data env over error now s) ≡ view s
  unfolding after_data
  after_data-view over error now s =
      view-if (over || not (error == 0)) _ _ (view-socket_stop env s)
        (view-if _ _ _ (view-socket_stop env s) refl)
