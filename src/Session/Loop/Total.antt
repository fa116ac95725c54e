-- ===== src/Session/Loop/Total.antt =====
-- The loop ends, and what it leaves.
use spamass.Base.{
  ℕ, zero, suc, ◌<◌, ◌≡◌, ◌≢◌, ◌⊎◌, refl, ap, ◌∙◌, false, none, some, [], ◌++◌, Bytes, length,
  length-append, arith, append_assoc, inl, inr, Option-cases, ok, Returns, Returns-bind, Returns-if,
  Returns-map, All-append_left, All-append_right,
}
use spamass.Base64.Bounds.{IsAscii}
use spamass.Dispatch.{contents, get_size}
use spamass.Dispatch.Contents.{get_size-contents}
use spamass.Line.Split.{split_line, split_line-append_eq}
use spamass.Line.Short.{HasShortLines, HasShortLines-first, HasShortLines-left}
use spamass.Session.Loop.{next_line, no_line, process-none, process-some}
use spamass.Session.Spec.Kept.{Kept, auth_count}
use spamass.Session.Spec.Total.{handle_short-Returns, StopsFor}
use spamass.Session.View.{view, user_calls}
use spamass.Session.{process, process_all, handle_line, LoopExit, drained, broken, max_indata_size}
use spamass.Socket.Defs.{Socket}
use spamass.Socket.Lines.{read_line}
use spamass.Socket.Lines.Found.{Found, read_line-Found}
use spamass.Tls.{Env}

-- What rounds of the loop from `s` to `t` come to.
pub record Leaves {Context : Type 0} (s t : Socket Context) (exit : LoopExit) : Type 0 where
  -- the bytes that were taken off the front of the input
  pub consumed : Bytes
  pub splits : consumed ++ contents t.indata ≡ contents s.indata
  -- left by a break, the last line had no command, or the mail has grown too large
  pub stopped : exit ≡ broken → (t.cmndlen ≡ 0) ⊎ (max_indata_size < t.email_size)
  -- left by its condition, the loop leaves no complete line
  pub no_line_left : exit ≡ drained → next_line t ≡ none
  pub same_is_secure : t.is_secure ≡ s.is_secure
  -- over an unencrypted connection nobody's credentials are looked at
  pub same_auth :
      s.is_secure ≡ false → auth_count (user_calls t.trace) ≡ auth_count (user_calls s.trace)

-- What a run of the loop from `s` to `t` comes to: it does not pass over a line that waits.
pub record Consumes {Context : Type 0} (s t : Socket Context) (exit : LoopExit) : Type 0 where
  pub leaves : Leaves s t exit
  pub progress : next_line s ≢ none → 0 < length leaves.consumed

module _ (env : Env) where
  open env use {Context}

  stays :
      (s t : Socket Context)
      → t.indata ≡ s.indata
      → t.is_secure ≡ s.is_secure
      → t.trace ≡ s.trace
      → next_line s ≡ none
      → Consumes s t drained
  stays s t i u r e = record {
    leaves = record {
      consumed = [];
      splits = ap contents i;
      stopped = λ b. absurd cc;
      no_line_left = λ _. ap (λ d. split_line false 0 (contents d)) i ∙ e;
      same_is_secure = u;
      same_auth = λ _. ap (λ es. auth_count (user_calls es)) r;
    };
    progress = λ waits. absurd (waits e);
  }

  breaks :
      (s : Socket Context) → (s.cmndlen ≡ 0) ⊎ (max_indata_size < s.email_size) → Leaves s s broken
  breaks s why = record {
    consumed = [];
    splits = refl;
    stopped = λ _. why;
    no_line_left = λ e. cc;
    same_is_secure = refl;
    same_auth = λ _. refl;
  }

  -- One line, and then what `rest` comes to.
  prepend :
      (s r u t : Socket Context) (exit : LoopExit) (line left : Bytes)
      → line ++ left ≡ contents s.indata
      → contents r.indata ≡ left
      → r.is_secure ≡ s.is_secure
      → r.trace ≡ s.trace
      → Kept (view r) (view u)
      → 0 < length line
      → Leaves u t exit
      → Consumes s t exit
  prepend s r u t exit line left joined rest secure calls k some_byte c = record {
    leaves = record {
      consumed = line ++ c.consumed;
      splits =
          append_assoc line c.consumed (contents t.indata)
          ∙ ap (◌++◌ line) (c.splits ∙ k.same_unread ∙ rest)
          ∙ joined;
      stopped = c.stopped;
      no_line_left = c.no_line_left;
      same_is_secure = c.same_is_secure ∙ k.same_is_secure ∙ secure;
      same_auth = λ f.
          c.same_auth (k.same_is_secure ∙ secure ∙ f)
          ∙ k.same_auth (secure ∙ f)
          ∙ ap (λ es. auth_count (user_calls es)) calls;
    };
    progress = λ _. omega (arith, some_byte, length-append line c.consumed);
  }

  pub process-Consumes :
      (fuel : ℕ) (s : Socket Context)
      → length (contents s.indata) < fuel
      → IsAscii (contents s.indata)
      → HasShortLines (contents s.indata)
      → Returns (process env fuel s) (λ r. Consumes s r.0 r.1)
  process-Consumes zero s h a short = absurd (omega arith)
  process-Consumes (suc fuel) s h a short = elim (Option-cases (next_line s)) [
    | inl e ↦ elim (process-none env fuel s e) [
      | inl p ↦ rw p (stays s s refl refl refl e)
      | inr p ↦ rw p (stays s (no_line s) refl refl refl e)
    ]
    | inr ((line, left), e) ↦
        let r = (read_line s).0 in
        let found : Found s (read_line s) (some (line, left)) = rw e at (read_line-Found s) in
        let (joined, some_byte, _) = split_line-append_eq false 0 (contents s.indata) e in
        let ascii = rw (← joined) at a in
        let step = λ (u t : Socket Context) (exit : LoopExit).
          prepend s r u t exit line left joined found.1
            (ap (λ (x : Socket Context). x.is_secure) found.2)
            (ap (λ (x : Socket Context). x.trace) found.2) in
        rw (process-some env fuel s e) (
          Returns-bind (handle_line env r) _
            (λ q. Kept (view r) (view q.0) × StopsFor (view q.0) q.1) (λ q. Consumes s q.0 q.1)
            (handle_short-Returns env r
              (rw (ap (λ (x : Socket Context). x.line) found.2)
                (All-append_left (λ b. b < 128) line left ascii))
              (rw (ap (λ (x : Socket Context). x.linelen) found.2)
                (HasShortLines-first (contents s.indata) line left short e)))
            (λ q (k, why).
              let behind = k.same_unread ∙ found.1 in
              Returns-if q.1 (process env fuel q.0) (ok (q.0, broken)) (λ x. Consumes s x.0 x.1)
                (λ go.
                  Returns-map (process env fuel q.0) (λ x. Consumes q.0 x.0 x.1)
                    (λ x. Consumes s x.0 x.1) (λ x c. step q.0 x.0 x.1 k some_byte c.leaves)
                    (process-Consumes fuel q.0
                      (rw behind (omega (arith, length-append line left, ap length joined)))
                      (rw behind (All-append_right (λ b. b < 128) line left ascii))
                      (rw behind (HasShortLines-left line left (contents s.indata) joined short))))
                (λ stop. step q.0 q.0 broken k some_byte (breaks q.0 (why stop)))))
  ]

  -- On ASCII input in which every line, wherever one starts to read, leaves room in `line` for its
  -- terminator, the loop over the lines returns and keeps to its arrays. It takes bytes off the front
  -- of the input, some if a complete line waits. It is left by a break only if the last line had no
  -- command or the mail has grown too large, and leaves no complete line otherwise; the connection is
  -- as secure as before, and if it is not secure nobody's credentials have been looked at.
  pub process_all-Consumes :
      (s : Socket Context)
      → IsAscii (contents s.indata)
      → HasShortLines (contents s.indata)
      → Returns (process_all env s) (λ r. Consumes s r.0 r.1)
  unfolding process_all
  process_all-Consumes s a short =
      process-Consumes (suc (get_size s.indata)) s (omega (arith, get_size-contents s.indata)) a
        short
