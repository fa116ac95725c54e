-- ===== src/Lib.antt =====
-- A model of libEmailz, the SMTP server of Spamass (libEmailz/src/emailz.c and emailz.h), and of the
-- mail handling of the application around it (Spamass/Spamass/SMAppDelegate.m), and what is proved
-- of them.
--
-- The program. `emailz_start` reads the key for TLS and starts two listeners. A listener hands an
-- accepted connection to `emailz_handle_accept`, which makes a `struct emailz_socket_s`, starts it
-- (its record file, its channel and the handlers of the channel) and greets the client. Whatever
-- the client sends comes as a libdispatch data object to `emailz_socket_handle_read`. This runs
-- the TLS layer if there is one, appends the plain bytes to `indata`, and takes line after line
-- off it: in the data phase a line goes to the user's data handler, otherwise it is a command,
-- which the user's command handler is told of and which is answered. Secure Transport calls back
-- into the socket for its bytes. The application keeps an `SMSocket` for every connection: its
-- blocks make an `SMEmail` on MAIL, put recipients, headers and lines into it, and at the end
-- store it in a database and in a file whose path `pathWithSocketId:serial:mkdir:` makes of the
-- connection's name and the mail's number.
--
-- The files.
--   Base         shared names; `Outcome` is the result of a C function that may leave an array
--   Dispatch     libdispatch data objects as lists of regions
--   Line         the block of `emailz_socket_read_line`; Line/Split compares it with a recursion
--                over the plain bytes; Line/Short: input whose lines leave room for a terminator
--   Command      the commands, `emailz_socket_read_command`, and the ladder of `strncmp`s
--   Base64       `NewBase64Decode` with its table, its stores and its wrapping output length;
--                Encode: `NewBase64Encode`; Encoded: base 64 described by division; RoundTrip
--   Cursor       writing into an array through a pointer that moves on
--   Number       `emailz_print_number`; Decimal: numbers with a fixed count of digits
--   Os           what the code uses of the C library and the kernel, as parameters
--   Recording    the name of a record file (`emailz_socket_start`) and its path
--                (`emailz_socket_record_open`); Reading reads a name back
--   Tls          what the code uses of Secure Transport, as parameters
--   Socket       Defs: the structures and the calls of the outside; Transport: writing, recording,
--                stopping, the callbacks `emailz_sslsocket_read` and `_write`, and
--                `emailz_socket_setup_ssl`; Lines: reading a line and a command
--   Session      `emailz_socket_handle_read`: Replies, Commands (the `switch`), the data phase, the
--                loop over the lines, and the loop over `SSLRead`. View is what the protocol sees of
--                a socket, Spec the protocol on it without a transport, Loop the theorems about the
--                loop
--   Connection   the read handler that `emailz_socket_start` installs, with the idle timeout; Start:
--                `emailz_handle_accept`, `emailz_socket_create`, `emailz_socket_start` and the
--                clean-up block; Stop: what `emailz_socket_stop` leaves; Handlers: the setters of
--                the handlers, the getters and `emailz_socket_destroy`
--   Listener     `emailz_listener_create`, `_start`, `_stop`, the setter and the event handler
--   Server       `emailz_create`, `_start`, `_stop`, `_destroy`, the setters, the connections of a
--                server, and `main` of SpamassCLI/SpamassCLI/main.c; Changes and Count: what
--                happens to a server, as a step relation, and what stays true
--   App          what the application asks of Foundation; Path: `pathWithSocketId:serial:mkdir:`;
--                Email: `SMEmail` and its headers; Mail: `SMSocket`, `handleFrom:`, `handleRcpt:`,
--                `handleData:`, `handleEmailWithSocket:` and the blocks given to the library, in
--                Spamass/Spamass/SMAppDelegate.m, SMEmail.m and SMSocket.m; Search:
--                `emailsForAddress:withBlock:`; Opening: the socket handler
--   Hexdump      `hexdump`, as the text that it prints
--   Tests        a concrete server, and the theorems applied to it
--
-- State. A C structure is a record with the fields of the same names; a call of the system or of a
-- user's block is appended to `trace`, in order. A user's block is a number; `dispatch_async` and
-- `dispatch_sync` on the user's queue are events. A `bool` that a C function returns to its loop is
-- a flag beside the new state. Integers are natural numbers, with the wrap of a 64-bit counter
-- written out where the code adds. A store outside an array is `out_of_bounds`. The buffers `line`
-- and `cmnd` hold the bytes before the terminator. The stores through `lineptr` stay in `line`; the
-- store of the terminator, `line[linelen]`, is tested at the head of `handle_line`, and a line that
-- fills `line` is `out_of_bounds` there. Theorems that promise a result ask for shorter lines.
--
-- Steps. The calls on a server and on its connections are taken one after the other, each as a
-- whole. In the source the blocks of the connections run on a concurrent queue (`socket_queue`)
-- and new connections on the handler queue, and the updates of `sockets_open` and of the other
-- counters of `struct emailz_s` are not synchronised, so two that meet may lose one. That is not
-- modelled.
--
-- Fuel. The loop over the lines takes a byte at least in every round, so one round more than there
-- are bytes is enough; the decoder's loop likewise. The loop over `SSLRead` is on a fuel that the
-- caller gives, since only Secure Transport bounds it.
--
-- Outside: Secure Transport, the verdict of the user's authentication block and the count that
-- `fwrite` returns are the fields of `Env`. The completion of a write is an event with a name for
-- its handler; `on_written` runs it, as a step of its own. The count of digits by `log10`,
-- `gmtime`, `setsockopt` on a connection, `fopen` and `inet_ntop` are the fields of `Os`; at zero
-- the count is the conversion of minus infinity, which C leaves undefined and the processors give
-- as the least int, and the theorems on names assume that it comes out as one at most; what
-- `socket`, `setsockopt`, `bind` and `listen` say to a listener is a `Kernel`, and what becomes of
-- the key file a `KeyFile`. The clock is an argument. A connection is cleaned up, or its read
-- handler called, only if it has a channel; all its calls see the server's fields, as they share
-- one `struct emailz_s`. An address is a number in host order, a port as it is stored. Memory is
-- there, except for the encoder, which tests it. Log output is left out. Foundation's conversions
-- and searches are the fields of `Foundation`, where a string is its text in UTF-8 and nil is
-- `none`; a message to nil gives nil or zeros, as Objective-C says, and an exception is `raised`.
-- What the application tells its database, the file system and its files is a list of calls, and
-- what they answer is not used by the code; the database's iterator is the list of what it gives,
-- in its order.
--
-- Not modelled. The rest of the Spamass application: its window, map and geocoder, the HTTP
-- responses, and the random names; Spamap, which is a window only; libCore, which is a stub; and
-- the third-party libraries in the tree (HTTPServer, Snappy, SBJson, the LevelDB headers).
pub mod Base
pub mod Dispatch
pub mod Line
pub mod Command
pub mod Base64
pub mod Tls
pub mod Socket
pub mod Session
pub mod Connection
pub mod Hexdump
pub mod Listener
pub mod Server
pub mod Cursor
pub mod Number
pub mod Os
pub mod Recording
pub mod App
pub mod Tests
