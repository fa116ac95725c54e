-- ===== src/Tests/Server.antt =====
-- A server that is started and takes a connection.
use spamass.Base.{
  ℕ, ◌^◌, ◌%◌, ◌≡◌, refl, Bool, true, false, none, some, [], ◌++◌, codes, length, All, arith,
  Outcome, ok, out_of_bounds, out_of_fuel, Returns, replicate,
}
use spamass.Connection.Start.{
  SockAddr, handle_accept, socket_create, socket_start, write_addrstr, notify_state, open_if,
  open_channel,
}
use spamass.Cursor.{put, puts, terminate}
use spamass.Listener.Sockets.{IsStart, listener_start-IsStart}
use spamass.Listener.{
  Listener, Kernel, call, queue_accept, listener_create, set_accept_handler, listener_start,
  on_readable, notify_accept, release_old, install,
}
use spamass.Number.{print_number, print_with, fill, write_cases}
use spamass.Recording.{name_socket, print_name}
use spamass.Server.Count.{
  CleanUps, Reach, created, next, start, accepting, Reach-IsCounted, Reach-drained,
}
use spamass.Server.Starting.{IsUnstarted, handle_accept_failed}
use spamass.Server.{
  Server, KeyFile, emailz_create, emailz_start, start_listeners, emailz_zero, accept_socket,
}
use spamass.Socket.Defs.{Emailz, Socket}
use spamass.Socket.Transport.{handle_write, write_to}
use spamass.Recording.Name.{name_text}
use spamass.Server.Accepting.{IsAccepted, handle_accept-IsAccepted}
use spamass.Tests.Recording.{
  unix, count_digits-CountsDigits, september, september-IsDate, no_nul-HasNoNul,
}
use spamass.Tests.{plain, server}

abbrev kernel : Kernel
kernel = record { socket = some 3; reuse = true; nodelay = true; bind = true; listen = true }

abbrev port_taken : Kernel
port_taken = record kernel { bind = false }

abbrev key : KeyFile
key = record { data_created = true; imported = true; array_created = true }

abbrev localhost : SockAddr
localhost = record { sin_family = 2; s_addr = 2130706433; sin_port = 54321 }

abbrev smtp_listener : Listener
smtp_listener = listener_create true true 10025

listener_start-IsStart_example :
    IsStart port_taken smtp_listener (listener_start port_taken smtp_listener)
listener_start-IsStart_example = listener_start-IsStart port_taken smtp_listener

abbrev listening : Listener
listening = set_accept_handler (some 4) smtp_listener

-- A failed `accept` is taken for a connection.
failed_accept_test :
    on_readable none localhost listening ≡ call listening (queue_accept 4 none localhost)
unfolding on_readable notify_accept set_accept_handler install release_old listener_create
failed_accept_test = refl

abbrev new_server : Server ℕ
new_server = emailz_create

abbrev running : Server ℕ
running = (emailz_start key kernel port_taken new_server).0

abbrev recording_server : Emailz
recording_server = record server {
  socket_handler = some 6;
  socket_record = true;
  record_base = codes "/tmp/";
}

handle_accept_failed_example :
    Returns (handle_accept plain unix server 5 6 8 localhost) (IsUnstarted server)
unfolding write_addrstr
handle_accept_failed_example =
    handle_accept_failed plain unix server 5 6 8 localhost (codes "127.0.0.1" ++ replicate 37 0)
      refl refl

handle_accept-IsAccepted_example :
    Returns (handle_accept plain unix recording_server 1347656709123 1347656709124 7 localhost) (
      IsAccepted unix recording_server
        (name_text september 1347656709123 2130706433 54321)
        (codes "127.0.0.1" ++ replicate 37 0))
unfolding write_addrstr
handle_accept-IsAccepted_example =
    handle_accept-IsAccepted plain unix recording_server 1347656709123 1347656709124 7 localhost
      (codes "127.0.0.1" ++ replicate 37 0) refl refl refl count_digits-CountsDigits
      september-IsDate (omega arith) (no_nul-HasNoNul (codes "/tmp/") refl) (omega arith)

-- The server that a step leaves.
abbrev left_by : Outcome (Server ℕ) → Server ℕ
left_by (ok v) = v
left_by _ = new_server

abbrev returned : Outcome (Server ℕ) → Bool
returned (ok v) = true
returned _ = false

returned-eq_ok : (m : Outcome (Server ℕ)) → returned m ≡ true → m ≡ ok (left_by m)
returned-eq_ok (ok v) e = refl
returned-eq_ok out_of_bounds e = cc
returned-eq_ok out_of_fuel e = cc

abbrev connected : Server ℕ
connected = left_by (accept_socket plain unix running 1347656709123 1347656709124 7 localhost)

connected_test :
    returned (accept_socket plain unix running 1347656709123 1347656709124 7 localhost) ≡ true
unfolding accept_socket handle_accept socket_create write_addrstr socket_start name_socket
    print_name print_number print_with fill write_cases put puts terminate open_if open_channel
    notify_state emailz_start start_listeners emailz_create emailz_zero handle_write write_to
connected_test = refl

connected_Reach : Reach plain unix connected
connected_Reach = next (next created (start new_server key kernel port_taken)) (
    accepting running connected 1347656709123 1347656709124 7 localhost (
      returned-eq_ok (accept_socket plain unix running 1347656709123 1347656709124 7 localhost)
        connected_test))

Reach-IsCounted_example : connected.emailz.sockets_open ≡ length connected.sockets % 2 ^ 64
Reach-IsCounted_example = Reach-IsCounted plain connected_Reach

connected_channels : All (λ (s : Socket ℕ). s.channel ≡ true) connected.sockets
unfolding accept_socket handle_accept socket_create write_addrstr socket_start name_socket
    print_name print_number print_with fill write_cases put puts terminate open_if open_channel
    notify_state emailz_start start_listeners emailz_create emailz_zero handle_write write_to
connected_channels = (refl, tt)

Reach-drained_example :
    (w : Server ℕ) × CleanUps plain connected w × (w.sockets ≡ []) × (w.emailz.sockets_open ≡ 0)
Reach-drained_example = Reach-drained plain connected_Reach connected_channels
