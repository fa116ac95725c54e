-- ===== src/Session/Loop/Size.antt =====
-- The bound on the size of a mail, which `email_size` of libEmailz/src/emailz.h is there to enforce.
use spamass.Base.{◌+◌, ◌≤◌, ◌≡◌, Outcome, ok, out_of_bounds, out_of_fuel, Returns}
use spamass.Base64.Bounds.{IsAscii}
use spamass.Dispatch.{contents}
use spamass.Line.{max_line_size}
use spamass.Session.Loop.Fragments.{idled, run_view, process_all-spec_run}
use spamass.Line.Short.{HasShortLines}
use spamass.Session.Loop.Total.{process_all-Consumes}
use spamass.Session.Spec.Run.{spec_run_all}
use spamass.Session.Spec.Size.{SizedRun, spec_run_all-sized}
use spamass.Session.View.{View, view}
use spamass.Session.{process_all, max_indata_size, LoopExit, drained}
use spamass.Socket.Defs.{Socket}
use spamass.Tls.{Env}

SizedRun-idled : (m : Outcome (View × LoopExit)) → SizedRun m → SizedRun (idled m)
SizedRun-idled (ok (v, exit)) h = h
SizedRun-idled out_of_bounds h = h
SizedRun-idled out_of_fuel h = h

module _ (env : Env) where
  open env use {Context}

  -- The sizes that a run may leave.
  abbrev pub IsBounded : Socket Context × LoopExit → Type 0
  IsBounded (t, exit) =
      (t.email_size ≤ max_indata_size + max_line_size)
      × (exit ≡ drained → t.email_size ≤ max_indata_size)

  Returns-IsBounded :
      (m : Outcome (Socket Context × LoopExit)) (P : Socket Context × LoopExit → Type 0)
      → Returns m P
      → SizedRun (run_view env m)
      → Returns m IsBounded
  Returns-IsBounded (ok (t, exit)) P p h = h
  Returns-IsBounded out_of_bounds P p h = p
  Returns-IsBounded out_of_fuel P p h = p

  -- On ASCII input in which every line, wherever one starts to read, leaves room in `line` for its
  -- terminator, a socket whose mail is not over the limit of 1048576 bytes runs through the loop to a
  -- result. If the loop is left by its condition, the mail is not over the limit still; in any
  -- case it is over it by one line buffer at most.
  pub process_all-IsBounded :
      (s : Socket Context)
      → IsAscii (contents s.indata)
      → HasShortLines (contents s.indata)
      → s.email_size ≤ max_indata_size
      → Returns (process_all env s) IsBounded
  process_all-IsBounded s a short small =
      Returns-IsBounded (process_all env s) _ (process_all-Consumes env s a short) (
        rw (process_all-spec_run env s)
          (SizedRun-idled (spec_run_all (view s)) (spec_run_all-sized (view s) small)))
