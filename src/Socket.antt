-- ===== src/Socket.antt =====
-- `emailz_socket_t` of libEmailz/src/emailz.h and the functions of libEmailz/src/emailz.c that work
-- on it below the protocol: its fields and the calls that it makes are in Defs, the transport and
-- its encryption in Transport, the line and the command word in Lines.
pub mod Defs
pub mod Transport
pub mod Lines
