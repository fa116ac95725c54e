-- ===== src/Session/Loop.antt =====
-- The loop of `emailz_socket_handle_read` over the lines, step by step.
pub mod Total
pub mod Fragments
pub mod Mail
pub mod Size
use spamass.Base.{
  ℕ, zero, suc, ◌+◌, ◌≤◌, ◌<◌, ◌≡◌, refl, sym, ap, ◌∙◌, Bool, true, false, Option, none, some, List,
  [], ◌∷◌, ◌++◌, Bytes, length, arith, ◌⊎◌, inl, inr, ◌==◌, if◌then◌else◌, Bool-cases, Outcome, ok,
  ◌>>=◌, Returns,
}
use spamass.Dispatch.{contents, get_size}
use spamass.Dispatch.Contents.{get_size-contents}
use spamass.Line.Split.{split_line, split_line_empty, split_line-append_eq}
use spamass.Session.{process, handle_line, LoopExit, drained, broken}
use spamass.Socket.Defs.{Socket}
use spamass.Socket.Lines.{read_line}
use spamass.Socket.Lines.Found.{Found, read_line-Found}
use spamass.Tls.{Env}

-- The first line of the unread bytes, and what is behind it.
abbrev pub next_line : {Context : Type 0} → Socket Context → Option (Bytes × Bytes)
next_line s = split_line false 0 (contents s.indata)

-- The socket with no line read.
abbrev pub no_line : {Context : Type 0} → Socket Context → Socket Context
no_line s = record s { line = []; linelen = 0; lineoff = 0 }

module _ (env : Env) where
  open env use {Context}

  empty_next_line : (s : Socket Context) → (get_size s.indata == 0) ≡ true → next_line s ≡ none
  empty_next_line s e =
      split_line_empty false 0 (contents s.indata) (ground (arith, e, get_size-contents s.indata))

  -- Without a complete line the loop ends by its condition.
  pub process-none :
      (fuel : ℕ) (s : Socket Context)
      → next_line s ≡ none
      → (process env (suc fuel) s ≡ ok (s, drained))
        ⊎ (process env (suc fuel) s ≡ ok (no_line s, drained))
  unfolding process
  process-none fuel s e = elim (Bool-cases (get_size s.indata == 0)) [
    | inl empty ↦ inl (rw empty)
    | inr more ↦
        let found : read_line s ≡ (no_line s, false) = rw e at (read_line-Found s) in
        inr (rw (more, found))
  ]

  -- With one, the line is handled.
  pub process-some :
      (fuel : ℕ) (s : Socket Context) {line left : Bytes}
      → next_line s ≡ some (line, left)
      → process env (suc fuel) s ≡ (
          handle_line env (read_line s).0 >>= λ r.
          if r.1 then process env fuel r.0 else ok (r.0, broken))
  unfolding process
  process-some fuel s {line} {left} e =
      let found : Found s (read_line s) (some (line, left)) = rw e at (read_line-Found s) in
      let more : (get_size s.indata == 0) ≡ false = elim (Bool-cases (get_size s.indata == 0)) [
        | inl empty ↦ cc (empty_next_line s empty)
        | inr m ↦ m
      ] in
      rw (more, found.0)
