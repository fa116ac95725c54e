-- ===== src/Listener/Sockets.antt =====
-- What starting a listener leaves open.
use spamass.Base.{
  ℕ, ◌≡◌, refl, ap, ◌∙◌, Bool, true, false, ◌&&◌, Bool-cases, inl, inr, none, some, List, [], ◌∷◌,
  ◌++◌, append_assoc,
}
use spamass.Listener.{
  Listener, Kernel, Call, open_listening, close_listening, watch, start_on, start_with,
  listener_start,
}

-- The kernel agrees to everything that is asked for the descriptor.
abbrev pub agrees : Kernel → Bool
agrees kernel = kernel.reuse && kernel.nodelay && kernel.bind && kernel.listen

-- The listener as it was, but for the calls: its descriptor was opened, and closed again.
abbrev pub closed_again : ℕ → Listener → Listener
closed_again sock l = record l {
  calls = l.calls ++ open_listening sock ∷ close_listening sock ∷ [];
}

-- The listener that listens on its port through the descriptor, which is watched.
abbrev pub listening_on : ℕ → Listener → Listener
listening_on sock l = record l {
  socketfd = sock;
  addr_port = l.port;
  source = true;
  calls = l.calls ++ open_listening sock ∷ watch sock ∷ [];
}

-- What a start comes to, for each answer of the kernel.
pub record IsStart (kernel : Kernel) (l : Listener) (r : Listener × Bool) : Type 0 where
  pub no_descriptor : kernel.socket ≡ none → r ≡ (l, false)
  pub refused :
      (sock : ℕ)
      → kernel.socket ≡ some sock
      → agrees kernel ≡ false
      → r ≡ (closed_again sock l, false)
  pub started :
      (sock : ℕ)
      → kernel.socket ≡ some sock
      → agrees kernel ≡ true
      → r ≡ (listening_on sock l, true)

start_on_refused :
    (kernel : Kernel) (sock : ℕ) (l : Listener)
    → agrees kernel ≡ false
    → start_on kernel sock l ≡ (record l { calls = l.calls ++ close_listening sock ∷ [] }, false)
unfolding start_on
start_on_refused kernel sock l e = elim (Bool-cases kernel.reuse) [
  | inr a ↦ rw a refl
  | inl a ↦ elim (Bool-cases kernel.nodelay) [
    | inr b ↦ rw (a, b) refl
    | inl b ↦ elim (Bool-cases kernel.bind) [
      | inr c ↦ rw (a, b, c) refl
      | inl c ↦ let d : kernel.listen ≡ false = rw (a, b, c) at e in rw (a, b, c, d) refl
    ]
  ]
]

start_on_agreed :
    (kernel : Kernel) (sock : ℕ) (l : Listener)
    → agrees kernel ≡ true
    → start_on kernel sock l ≡ (
      record l {
        socketfd = sock;
        addr_port = l.port;
        source = true;
        calls = l.calls ++ watch sock ∷ [];
      },
      true,
    )
unfolding start_on
start_on_agreed kernel sock l e = elim (Bool-cases kernel.reuse) [
  | inr a ↦ absurd cc
  | inl a ↦ elim (Bool-cases kernel.nodelay) [
    | inr b ↦ absurd cc
    | inl b ↦ elim (Bool-cases kernel.bind) [
      | inr c ↦ absurd cc
      | inl c ↦ let d : kernel.listen ≡ true = rw (a, b, c) at e in rw (a, b, c, d) refl
    ]
  ]
]

-- `emailz_listener_start`: without a descriptor nothing is done; if the kernel refuses an option, the
-- address or the listening, the descriptor that was opened is closed, no other is touched, the result
-- is false and the listener is as it was; otherwise the listener has the descriptor and its port, the
-- descriptor is watched, and the result is true.
pub listener_start-IsStart :
    (kernel : Kernel) (l : Listener) → IsStart kernel l (listener_start kernel l)
unfolding listener_start start_with
listener_start-IsStart kernel l = record {
  no_descriptor = λ e. rw e refl;
  refused = λ sock e a. rw e (
      start_on_refused kernel sock (record l { calls = l.calls ++ open_listening sock ∷ [] }) a
      ∙ ap (λ (cs : List Call). (record l { calls = cs }, false))
          (append_assoc l.calls (open_listening sock ∷ []) (close_listening sock ∷ [])));
  started = λ sock e a. rw e (
      start_on_agreed kernel sock (record l { calls = l.calls ++ open_listening sock ∷ [] }) a
      ∙ ap (λ (cs : List Call). (record (listening_on sock l) { calls = cs }, true))
          (append_assoc l.calls (open_listening sock ∷ []) (watch sock ∷ [])));
}
