-- ===== src/Server/Starting.antt =====
-- What `emailz_start` and `emailz_handle_accept` of libEmailz/src/emailz.c leave behind.
use spamass.Base.{
  ℕ, ◌+◌, ◌^◌, ◌%◌, ◌≡◌, refl, Bool, true, false, not, ◌&&◌, List, [], ◌∷◌, ◌++◌, Bytes, some,
  replicate, if◌then◌else◌, Outcome, ok, Returns,
}
use spamass.Connection.Start.{
  SockAddr, handle_accept, accepted, emailz_addrstr, count_socket, socket_create, socket_start,
}
use spamass.Listener.{Kernel}
use spamass.Os.{Os}
use spamass.Server.{
  Server, KeyFile, KeyCall, open_key, map_key, unmap_key, close_key, make_listener,
}
use spamass.Session.Replies.{reply_greeting}
use spamass.Socket.Defs.{Emailz, Socket, io_write, stop_on_error}
use spamass.Socket.Transport.{handle_write, write_to}
use spamass.Tls.{Env}

-- How the calls of `emailz_start` on the key file end: the file is closed again only if there is a
-- data object.
abbrev pub key_file_calls : Bool → List KeyCall
key_file_calls true = open_key ∷ map_key ∷ unmap_key ∷ close_key ∷ []
key_file_calls false = open_key ∷ map_key ∷ []

-- The server's fields with the queues set, and nothing else.
abbrev pub queued : Emailz → Emailz
queued emailz = record emailz { listener_queue = true; socket_queue = true }

-- `emailz_start` with the result `success`, from `v` to `w`.
pub record IsStarted {Context : Type 0} (key : KeyFile) (smtp tls : Kernel) (v w : Server Context)
    (success : Bool) : Type 0 where
  pub success_eq : success ≡ (key.data_created && (key.imported && key.array_created))
  pub key_calls_eq : w.key_calls ≡ v.key_calls ++ key_file_calls key.data_created
  pub listeners :
      success ≡ true
      → w ≡ record v {
        emailz = record (queued v.emailz) { has_identity = true };
        smtp_v4_listener = some (make_listener smtp 10025 w.emailz);
        smtp_tls_v4_listener = some (make_listener tls 10587 w.emailz);
        key_calls = w.key_calls;
      }
  pub no_listeners :
      success ≡ false → w ≡ record v { emailz = queued v.emailz; key_calls = w.key_calls }

abbrev key_file : Bool → Bool → Bool → KeyFile
key_file created imported array = record {
  data_created = created;
  imported = imported;
  array_created = array;
}

-- A connection that could not be started: no channel, no handler told, one write.
pub record IsUnstarted {Context : Type 0} (emailz : Emailz) (s : Socket Context) : Type 0 where
  pub no_channel : s.channel ≡ false
  pub trace_eq : s.trace ≡ io_write reply_greeting stop_on_error ∷ []
  pub counted : s.emailz.sockets_open ≡ (emailz.sockets_open + 1) % 2 ^ 64
  pub running : s.stop ≡ false

module _ (env : Env) (os : Os) where
  open env use {Context}

  unstarted :
      (b c : Bool) (s : Socket Context) (m : Outcome (Socket Context × Bool))
      → (b && c) ≡ false
      → (if not b then ok (s, false) else if c then m else ok (s, false)) ≡ ok (s, false)
  unstarted true true s m e = absurd cc
  unstarted true false s m e = refl
  unstarted false c s m e = refl

  -- If the server has no queue for its sockets, or the kernel refuses the option, a new connection gets
  -- no channel; still the server counts it, and writes the greeting to the channel that is not there.
  pub handle_accept_failed :
      (emailz : Emailz) (now later socketfd : ℕ) (addr : SockAddr) (text : Bytes)
      → emailz_addrstr os addr.s_addr addr.sin_family (replicate 46 0) ≡ ok text
      → (emailz.socket_queue && os.set_nodelay socketfd) ≡ false
      → Returns (handle_accept env os emailz now later socketfd addr) (IsUnstarted emailz)
  unfolding handle_accept socket_create handle_write write_to
  handle_accept_failed emailz now later socketfd addr text written refused =
      let s = record (accepted emailz now later socketfd addr) {
        addrstr = text;
        emailz = count_socket emailz;
      } in
      let failed : socket_start {Context = Context} os emailz.socket_record s ≡ ok (s, false) =
        unfold socket_start in
        unstarted emailz.socket_queue (os.set_nodelay socketfd) s _ refused in
      rw (written, failed)
        (record { no_channel = refl; trace_eq = refl; counted = refl; running = refl })
