-- ===== src/Session/Loop/Mail.antt =====
-- A whole mail through the loop of `emailz_socket_handle_read`.
use spamass.Base.{◌+◌, ◌≤◌, ◌≡◌, refl, ap, ◌∙◌, true, false, some, List, [], Bytes, All, ok}
use spamass.Command.{data_command}
use spamass.Dispatch.{DispatchData, contents}
use spamass.Line.Split.{split_line_empty}
use spamass.Session.Loop.Fragments.{idled, run_view, process_all-spec_run}
use spamass.Session.Spec.Mail.{
  IsText, wire, wire_size, period_line, receiving, mailed, spec_run_all-mailed,
}
use spamass.Session.Spec.Run.{spec_run_all, spec_run_all_drained}
use spamass.Session.View.{view}
use spamass.Session.{process_all, max_indata_size, drained}
use spamass.Socket.Defs.{Socket}
use spamass.Tls.{Block, Env}

module _ (env : Env) where
  open env use {Context}

  -- For a socket in the data phase that has a data handler and a queue, and whose unread bytes are
  -- text lines, each with room in `line` for a terminator, and then a line with a period alone,
  -- however they lie in regions: if the mail is then not over the limit, the handler is called with
  -- every line as it was sent, then once for the end; all input is used, and the phase is over.
  pub process_all-mailed :
      (s : Socket Context) (h : Block) (bodies : List Bytes) (d : DispatchData)
      → contents d ≡ wire bodies (period_line [])
      → All IsText bodies
      → s.email_size + wire_size bodies ≤ max_indata_size
      → run_view env (
          process_all env (record s {
            state = data_command;
            data_handler = some h;
            handler_queue = true;
            indata = d;
          }))
        ≡ ok (mailed (view s) bodies [] h, drained)
  process_all-mailed s h bodies d e t small =
      process_all-spec_run env
        (record s { state = data_command; data_handler = some h; handler_queue = true; indata = d })
      ∙ ap (λ (bs : Bytes). idled (spec_run_all (receiving (record (view s) { unread = bs }) h))) e
      ∙ ap idled (
          spec_run_all-mailed bodies (view s) h [] t small
          ∙ spec_run_all_drained (mailed (view s) bodies [] h) (split_line_empty false 0 [] refl))
