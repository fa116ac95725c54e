-- ===== src/Connection/Handlers.antt =====
-- The setters of a connection's handlers, its two getters, and `emailz_socket_destroy`, of
-- libEmailz/src/emailz.c: who holds which of the user's blocks.
use spamass.Base.{
  ℕ, ◌+◌, ◌≡◌, Bool, true, false, Option, none, some, List, [], Bytes, ◌∷◌, ◌++◌, arith,
}
use spamass.Socket.Defs.{
  Socket, Event, block_copy, block_release, io_release, ssl_dispose, data_release, free_socket,
  is_some,
}
use spamass.Tls.{Block}

-- `Block_release` on a handler that there is.
unfoldable pub released : Option Block → List Event → List Event
released none trace = trace
released (some handler) trace = trace ++ block_release handler ∷ []

-- `Block_copy` on a handler that is not NULL.
unfoldable pub copied : Option Block → List Event → List Event
copied none trace = trace
copied (some handler) trace = trace ++ block_copy handler ∷ []

unfoldable pub called_if : Bool → Event → List Event → List Event
called_if true call trace = trace ++ call ∷ []
called_if false call trace = trace

-- The mask is stored only with a handler.
abbrev pub mask_of : Option Block → ℕ → ℕ → ℕ
mask_of none mask old = old
mask_of (some handler) mask old = mask

module _ {Context : Type 0} where
  -- `emailz_socket_set_smtp_handler`.
  unfoldable pub set_smtp_handler : Option Block → ℕ → Socket Context → Socket Context
  set_smtp_handler handler mask s = record s {
    trace = copied handler (released s.smtp_handler s.trace);
    smtp_handler = handler;
    smtp_handler_mask = mask_of handler mask s.smtp_handler_mask;
  }

  -- `emailz_socket_set_auth_handler`.
  unfoldable pub set_auth_handler : Option Block → Socket Context → Socket Context
  set_auth_handler handler s = record s {
    trace = copied handler (released s.auth_handler s.trace);
    auth_handler = handler;
  }

  -- `emailz_socket_set_header_handler`.
  unfoldable pub set_header_handler : Option Block → Socket Context → Socket Context
  set_header_handler handler s = record s {
    trace = copied handler (released s.header_handler s.trace);
    header_handler = handler;
  }

  -- `emailz_socket_set_data_handler`.
  unfoldable pub set_data_handler : Option Block → Socket Context → Socket Context
  set_data_handler handler s = record s {
    trace = copied handler (released s.data_handler s.trace);
    data_handler = handler;
  }

  -- `emailz_socket_get_name` and `emailz_socket_get_addrstr`: the whole arrays.
  abbrev pub get_name : Socket Context → Bytes
  get_name s = s.record_name

  abbrev pub get_addrstr : Socket Context → Bytes
  get_addrstr s = s.addrstr

  -- The calls of `emailz_socket_destroy`. Only the clean-up block of the channel calls it, so both
  -- data objects are there.
  abbrev pub destroy_calls : Socket Context → List Event
  destroy_calls s =
      released s.data_handler (
        released s.header_handler (
          released s.smtp_handler (
            called_if (is_some s.sslcontext) ssl_dispose (called_if s.channel io_release s.trace))))
      ++ data_release ∷ data_release ∷ free_socket ∷ []

  -- `emailz_socket_destroy`, up to the `free`.
  unfoldable pub socket_destroy : Socket Context → Socket Context
  unfolding released called_if
  socket_destroy s = record s {
    trace = destroy_calls s;
    sslcontext = none;
    socket_handler = none;
    smtp_handler = none;
    header_handler = none;
    data_handler = none;
    indata = [];
    tmpdata = [];
  }

-- How many blocks have been copied, and how many released.
abbrev pub copies : List Event → ℕ
copies [] = 0
copies (block_copy h ∷ es) = 1 + copies es
copies (_ ∷ es) = copies es

abbrev pub releases : List Event → ℕ
releases [] = 0
releases (block_release h ∷ es) = 1 + releases es
releases (_ ∷ es) = releases es

abbrev pub one : Option Block → ℕ
one none = 0
one (some h) = 1

-- As many blocks have been copied as have been released and are the connection's handlers.
abbrev pub IsBalanced : {Context : Type 0} → Socket Context → Type 0
IsBalanced s =
    copies s.trace
    ≡ releases s.trace
      + (one s.smtp_handler + one s.auth_handler + one s.header_handler + one s.data_handler)

copies-append : (xs ys : List Event) → copies (xs ++ ys) ≡ copies xs + copies ys
copies-append [] ys = omega arith
copies-append (block_copy h ∷ es) ys = omega (arith, copies-append es ys)
copies-append (_ ∷ es) ys = copies-append es ys

releases-append : (xs ys : List Event) → releases (xs ++ ys) ≡ releases xs + releases ys
releases-append [] ys = omega arith
releases-append (block_release h ∷ es) ys = omega (arith, releases-append es ys)
releases-append (_ ∷ es) ys = releases-append es ys

copies-copied : (o : Option Block) (t : List Event) → copies (copied o t) ≡ one o + copies t
unfolding copied
copies-copied none t = omega arith
copies-copied (some h) t = omega (arith, copies-append t (block_copy h ∷ []))

copies-released : (o : Option Block) (t : List Event) → copies (released o t) ≡ copies t
unfolding released
copies-released none t = omega arith
copies-released (some h) t = omega (arith, copies-append t (block_release h ∷ []))

releases-copied : (o : Option Block) (t : List Event) → releases (copied o t) ≡ releases t
unfolding copied
releases-copied none t = omega arith
releases-copied (some h) t = omega (arith, releases-append t (block_copy h ∷ []))

releases-released :
    (o : Option Block) (t : List Event) → releases (released o t) ≡ one o + releases t
unfolding released
releases-released none t = omega arith
releases-released (some h) t = omega (arith, releases-append t (block_release h ∷ []))

-- One block in the place of another.
copies-replaced :
    (old new : Option Block) (t : List Event)
    → copies (copied new (released old t)) ≡ one new + copies t
copies-replaced old new t = omega (arith, copies-copied new (released old t), copies-released old t)

releases-replaced :
    (old new : Option Block) (t : List Event)
    → releases (copied new (released old t)) ≡ one old + releases t
releases-replaced old new t =
    omega (arith, releases-copied new (released old t), releases-released old t)

module _ {Context : Type 0} where
  -- Each of the four setters keeps the balance: as many blocks have been copied as have been released
  -- and are the connection's handlers.
  pub set_handler-IsBalanced :
      (s : Socket Context) (handler : Option Block) (mask : ℕ)
      → IsBalanced s
      → IsBalanced (set_smtp_handler handler mask s)
        × (IsBalanced (set_auth_handler handler s)
            × (IsBalanced (set_header_handler handler s) × IsBalanced (set_data_handler handler s)))
  unfolding set_smtp_handler set_auth_handler set_header_handler set_data_handler
  set_handler-IsBalanced s handler mask h = (
    omega (
      arith,
      h,
      copies-replaced s.smtp_handler handler s.trace,
      releases-replaced s.smtp_handler handler s.trace,
    ),
    (
      omega (
        arith,
        h,
        copies-replaced s.auth_handler handler s.trace,
        releases-replaced s.auth_handler handler s.trace,
      ),
      (
        omega (
          arith,
          h,
          copies-replaced s.header_handler handler s.trace,
          releases-replaced s.header_handler handler s.trace,
        ),
        omega (
          arith,
          h,
          copies-replaced s.data_handler handler s.trace,
          releases-replaced s.data_handler handler s.trace,
        ),
      ),
    ),
  )
