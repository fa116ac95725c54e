-- ===== src/Connection.antt =====
-- A connection in time: the read handler that `emailz_socket_start` of libEmailz/src/emailz.c gives
-- to `dispatch_io_read`, and the end of a connection.
pub mod Stop
pub mod Reading
pub mod Handlers
pub mod Start
use spamass.Base.{
  ℕ, ◌+◌, ◌-◌, ◌^◌, ◌%◌, Bool, not, ◌||◌, Option, none, some, ◌==◌, ltb, if◌then◌else◌, Outcome, ok,
  ◌>>=◌,
}
use spamass.Dispatch.{DispatchData, get_size}
use spamass.Session.{handle_read}
use spamass.Socket.Defs.{Socket}
use spamass.Socket.Transport.{socket_stop}
use spamass.Tls.{Env}

-- `EMAILZ_SOCKET_TIMEOUT`.
abbrev pub socket_timeout : ℕ
socket_timeout = 120000

-- The counters when data has come at the time `now`.
abbrev pub count_data : {Context : Type 0} → Socket Context → DispatchData → ℕ → Socket Context
count_data s received now = record s {
  last_read_time = now;
  inbytes = (s.inbytes + get_size received) % 2 ^ 64;
  emailz = record s.emailz { bytes_rcvd = (s.emailz.bytes_rcvd + get_size received) % 2 ^ 64 };
}

module _ (env : Env) where
  open env use {Context}

  -- `none` is a NULL pointer.
  unfoldable pub on_data : ℕ → Option DispatchData → ℕ → Socket Context → Outcome (Socket Context)
  on_data fuel none now s = ok s
  on_data fuel (some received) now s = handle_read env fuel (count_data s received now) received

  -- The tests at the end of the handler, at the time `now`.
  unfoldable pub after_data : Bool → ℕ → ℕ → Socket Context → Socket Context
  unfolding socket_stop
  after_data done error now s =
      let late = ltb s.last_read_time ((now + (2 ^ 64 - socket_timeout)) % 2 ^ 64) in
      if done || not (error == 0) then socket_stop env s else if late then socket_stop env s else s

  -- The block: `now` is the time when the data is there, `later` the time behind it; `fuel` is for
  -- the loop over `SSLRead`.
  unfoldable pub on_read :
      ℕ → Bool → Option DispatchData → ℕ → ℕ → ℕ → Socket Context → Outcome (Socket Context)
  unfolding on_data after_data
  on_read fuel done received error now later s =
      let handled = do s' ← on_data fuel received now s; ok (after_data done error later s')
      in if s.stop then ok s else handled
