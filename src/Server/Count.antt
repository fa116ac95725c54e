-- ===== src/Server/Count.antt =====
-- The count of open connections in `struct emailz_s` of libEmailz/src/emailz.c, over sequences of
-- whole steps of a server.
use spamass.Base.{
  ℕ, ◌+◌, ◌^◌, ◌%◌, ◌≡◌, refl, ap, ◌∙◌, Bool, true, Option, List, [], ◌∷◌, ◌++◌, All, Bytes, arith,
  length, length-append, leb, Bool-cases, inl, inr, ok, WhenReturns, WhenReturns-bind,
  WhenReturns-ok,
}
use spamass.Connection.Start.{SockAddr, handle_accept}
use spamass.Connection.{on_read}
use spamass.Dispatch.{DispatchData}
use spamass.Listener.{Kernel}
use spamass.Os.{Os}
use spamass.Server.Changes.{Change, Change-open}
use spamass.Server.Open.{open_of, on_read-open}
use spamass.Server.{
  Server, KeyFile, emailz_zero, start_listeners, emailz_create, emailz_start, set_handler_queue,
  set_socket_handler, record_enable, accept_socket, read_socket, cleanup_socket, attached,
}
use spamass.Socket.Defs.{Socket}
use spamass.Tls.{Block, Env}
use spamass.Server.Accepted.{handle_accept-open, on_cleanup-open}

module _ (env : Env) where
  open env use {Context}

  -- What can happen to a server: the user's calls, a new connection, and, for one of the connections
  -- that have a channel, a call of its setters, of the block of a write, of its read handler or of its
  -- clean-up block. Each is one step, as if nothing else ran meanwhile; in the source the clean-up
  -- blocks are on a concurrent queue, and the updates of the server's counters are not synchronised.
  pub data Step (os : Os) : Server Context → Server Context → Type 0 where
    start :
        (v : Server Context) (key : KeyFile) (smtp tls : Kernel)
        → Step os v (emailz_start key smtp tls v).0
    handler_queue : (v : Server Context) (queue : Bool) → Step os v (set_handler_queue queue v)
    socket_handler :
        (v : Server Context) (handler : Option Block) → Step os v (set_socket_handler handler v)
    recording :
        (v : Server Context) (enable : Bool) (base : Bytes)
        → Step os v (record_enable enable base v)
    accepting :
        (v w : Server Context) (now later socketfd : ℕ) (addr : SockAddr)
        → accept_socket env os v now later socketfd addr ≡ ok w
        → Step os v w
    reading :
        (v w : Server Context) (fuel : ℕ) (over : Bool) (received : Option DispatchData)
        (error now later : ℕ) (before after : List (Socket Context)) (s : Socket Context)
        → v.sockets ≡ before ++ s ∷ after
        → s.channel ≡ true
        → read_socket env fuel over received error now later v before s after ≡ ok w
        → Step os v w
    changing :
        (v : Server Context) (before after : List (Socket Context)) (s t : Socket Context)
        → v.sockets ≡ before ++ s ∷ after
        → s.channel ≡ true
        → Change env (attached v s) t
        → Step os v (record v { emailz = t.emailz; sockets = before ++ t ∷ after })
    cleanup :
        (v : Server Context) (before after : List (Socket Context)) (s : Socket Context)
        → v.sockets ≡ before ++ s ∷ after
        → s.channel ≡ true
        → Step os v (cleanup_socket v s (before ++ after))

  pub data Reach (os : Os) : Server Context → Type 0 where
    created : Reach os emailz_create
    next : {v w : Server Context} → Reach os v → Step os v w → Reach os w

  -- The server counts the connections that point to it, modulo 2^64.
  abbrev pub IsCounted : Server Context → Type 0
  IsCounted v = v.emailz.sockets_open ≡ length v.sockets % 2 ^ 64

  accept_socket-IsCounted :
      (os : Os) (v : Server Context) (now later socketfd : ℕ) (addr : SockAddr)
      → IsCounted v
      → WhenReturns (accept_socket env os v now later socketfd addr) IsCounted
  unfolding accept_socket
  accept_socket-IsCounted os v now later socketfd addr c =
      WhenReturns-bind (handle_accept env os v.emailz now later socketfd addr) _
        (λ s. open_of s ≡ (v.emailz.sockets_open + 1) % 2 ^ 64) IsCounted
        (handle_accept-open env os v.emailz now later socketfd addr)
        (λ s e. omega (arith, e, c, length-append v.sockets (s ∷ [])))

  read_socket-IsCounted :
      (fuel : ℕ) (over : Bool) (received : Option DispatchData) (error now later : ℕ)
      (v : Server Context) (before after : List (Socket Context)) (s : Socket Context)
      → v.sockets ≡ before ++ s ∷ after
      → IsCounted v
      → WhenReturns (read_socket env fuel over received error now later v before s after) IsCounted
  unfolding read_socket
  read_socket-IsCounted fuel over received error now later v before after s at c =
      WhenReturns-bind (on_read env fuel over received error now later (attached v s)) _
        (λ t. open_of t ≡ v.emailz.sockets_open) IsCounted
        (on_read-open env fuel over received error now later (attached v s))
        (λ t e. omega (
          arith,
          e,
          c,
          ap length at,
          length-append before (s ∷ after),
          length-append before (t ∷ after),
        ))

  cleanup_socket-IsCounted :
      (v : Server Context) (before after : List (Socket Context)) (s : Socket Context)
      → v.sockets ≡ before ++ s ∷ after
      → IsCounted v
      → IsCounted (cleanup_socket v s (before ++ after))
  unfolding cleanup_socket
  cleanup_socket-IsCounted v before after s at c = omega (
    arith,
    on_cleanup-open env (attached v s),
    c,
    ap length at,
    length-append before (s ∷ after),
    length-append before after,
  )

  record_enable-IsCounted :
      (v : Server Context) (enable : Bool) (base : Bytes)
      → IsCounted v
      → IsCounted (record_enable enable base v)
  unfolding record_enable
  record_enable-IsCounted v enable base c = elim (Bool-cases (leb 1000 (length base))) [
    | inl e ↦ rw e c
    | inr e ↦ rw e c
  ]

  emailz_start-IsCounted :
      (v : Server Context) (key : KeyFile) (smtp tls : Kernel)
      → IsCounted v
      → IsCounted (emailz_start key smtp tls v).0
  unfolding emailz_start start_listeners
  emailz_start-IsCounted v key smtp tls c = elim (Bool-cases key.data_created) [
    | inl e ↦ elim (Bool-cases key.imported) [
      | inl f ↦ elim (Bool-cases key.array_created) [
        | inl g ↦ rw (e, f, g) c
        | inr g ↦ rw (e, f, g) c
      ]
      | inr f ↦ rw (e, f) c
    ]
    | inr e ↦ rw e c
  ]

  Step-IsCounted : {os : Os} {v w : Server Context} → Step os v w → IsCounted v → IsCounted w
  Step-IsCounted (start v key smtp tls) c = emailz_start-IsCounted v key smtp tls c
  Step-IsCounted (handler_queue v queue) c = unfold set_handler_queue in c
  Step-IsCounted (socket_handler v handler) c = unfold set_socket_handler in c
  Step-IsCounted (recording v enable base) c = record_enable-IsCounted v enable base c
  Step-IsCounted {os} (accepting v w now later socketfd addr e) c =
      WhenReturns-ok (accept_socket env os v now later socketfd addr) IsCounted
        (accept_socket-IsCounted os v now later socketfd addr c) e
  Step-IsCounted (reading v w fuel over received error now later before after s at has_channel e)
        c =
      WhenReturns-ok (read_socket env fuel over received error now later v before s after) IsCounted
        (read_socket-IsCounted fuel over received error now later v before after s at c) e
  Step-IsCounted (changing v before after s t at has_channel change) c = omega (
    arith,
    Change-open env change,
    c,
    ap length at,
    length-append before (s ∷ after),
    length-append before (t ∷ after),
  )
  Step-IsCounted (cleanup v before after s at has_channel) c =
      cleanup_socket-IsCounted v before after s at c

  -- After any sequence of starts, settings of the server and of its connections, accepted
  -- connections, reads, ends of writes and clean-ups, in whatever order, each of them done as a
  -- whole before the next: the server counts the connections that have been accepted and not yet
  -- cleaned up, modulo 2^64.
  pub Reach-IsCounted : {os : Os} {v : Server Context} → Reach os v → IsCounted v
  Reach-IsCounted created = unfold emailz_create emailz_zero in refl
  Reach-IsCounted (next r step) = Step-IsCounted step (Reach-IsCounted r)

  cleanup-sockets :
      (v : Server Context) (s : Socket Context) (rest : List (Socket Context))
      → (cleanup_socket v s rest).sockets ≡ rest
  unfolding cleanup_socket
  cleanup-sockets v s rest = refl

  -- From a server on, clean-up blocks of connections that have a channel, and nothing else.
  pub data CleanUps (v : Server Context) : Server Context → Type 0 where
    no_more : CleanUps v v
    one_more :
        {w : Server Context} (before after : List (Socket Context)) (s : Socket Context)
        → CleanUps v w
        → w.sockets ≡ before ++ s ∷ after
        → s.channel ≡ true
        → CleanUps v (cleanup_socket w s (before ++ after))

  CleanUps-Reach : {os : Os} {v w : Server Context} → Reach os v → CleanUps v w → Reach os w
  CleanUps-Reach r no_more = r
  CleanUps-Reach r (one_more {w} before after s c at has_channel) =
      next (CleanUps-Reach r c) (cleanup w before after s at has_channel)

  -- The connections are cleaned up one after the other.
  drain :
      (v w : Server Context) (sockets : List (Socket Context))
      → w.sockets ≡ sockets
      → All (λ (s : Socket Context). s.channel ≡ true) sockets
      → CleanUps v w
      → (x : Server Context) × CleanUps v x × (x.sockets ≡ [])
  drain v w [] at channels c = (w, c, at)
  drain v w (s ∷ sockets) at (has_channel, channels) c =
      drain v (cleanup_socket w s sockets) sockets (cleanup-sockets w s sockets) channels
        (one_more [] sockets s c at has_channel)

  -- From wherever such a sequence of whole steps has brought a server, if all its connections have a
  -- channel, their clean-up blocks alone lead from there to a server with no connection, and that
  -- counts none.
  pub Reach-drained :
      {os : Os} {v : Server Context}
      → Reach os v
      → All (λ (s : Socket Context). s.channel ≡ true) v.sockets
      → (w : Server Context) × CleanUps v w × (w.sockets ≡ []) × (w.emailz.sockets_open ≡ 0)
  Reach-drained {v = v} r channels =
      let (w, cleaned, empty) = drain v v v.sockets refl channels no_more in
      (
        w,
        cleaned,
        empty,
        Reach-IsCounted (CleanUps-Reach r cleaned)
            ∙ ap (λ (l : List (Socket Context)). length l % 2 ^ 64) empty,
      )
