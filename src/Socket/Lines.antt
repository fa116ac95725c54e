-- ===== src/Socket/Lines.antt =====
-- `emailz_socket_read_line` and `emailz_socket_read_command` of libEmailz/src/emailz.c on the socket.
pub mod Found
use spamass.Base.{ℕ, ◌-◌, Bool, true, false, List, [], ◌∷◌, ◌++◌, Bytes, length, ltb, if◌then◌else◌}
use spamass.Command.{read_command}
use spamass.Dispatch.{get_size, subrange}
use spamass.Line.{scan_line, is_complete, max_line_size}
use spamass.Socket.Defs.{Socket}

module _ {Context : Type 0} where
  -- The stores through `lineptr` are at indices below `linelen`, which the scanner keeps to the size
  -- of `line`; the store of the terminator, `line[linelen]`, is the first thing in
  -- `Session.handle_line`, which is all that is done with a complete line.
  unfoldable pub read_line : Socket Context → Socket Context × Bool
  read_line s =
      let scan = scan_line s.indata in
      if is_complete scan
      then (
        record s {
          indata = subrange s.indata scan.linelen (get_size s.indata - scan.linelen);
          line = scan.line;
          linelen = scan.linelen;
          lineoff = 0;
        },
        true,
      )
      else (record s { line = []; linelen = 0; lineoff = 0 }, false)

  unfoldable pub socket_read_command : Socket Context → Socket Context
  unfolding read_command
  socket_read_command s =
      let parsed = read_command s.line s.lineoff in
      record s { cmnd = parsed.cmnd; cmndlen = parsed.cmndlen; lineoff = parsed.lineoff }
