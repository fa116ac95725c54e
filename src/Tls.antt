-- ===== src/Tls.antt =====
-- What the program uses and this repository does not contain: the Secure Transport calls of
-- libEmailz/src/emailz.c, the verdict of the user's authentication block, and `fwrite`.
use spamass.Base.{ℕ, Bool, Bytes, Option}

-- `OSStatus`, as far as the code tells its values apart.
pub data OsStatus : Type 0 where
  no_err would_block closed_graceful closed_abort : OsStatus
  failed : ℕ → OsStatus

-- A call into Secure Transport. It runs until it returns, and on the way it calls the two functions
-- that `SSLSetIOFuncs` gave it: `recv n` asks for `n` bytes and goes on with the status, the length
-- and the bytes that it gets, `send` hands over bytes and goes on with the status.
pub data SslIo (A : Type 0) : Type 0 where
  done : A → SslIo A
  recv : ℕ → (OsStatus → ℕ → Bytes → SslIo A) → SslIo A
  send : Bytes → (OsStatus → SslIo A) → SslIo A

-- The calls between `SSLNewContext` and `SSLHandshake` in `emailz_socket_setup_ssl`.
pub data ConfigureCall : Type 0 where
  set_io_funcs set_protocol_version_enabled set_connection : ConfigureCall
  set_allows_expired_certs set_enable_cert_verify set_allows_any_root : ConfigureCall
  set_certificate set_peer_id : ConfigureCall

-- A block of the user, by its address.
abbrev pub Block : Type 0
Block = ℕ

pub record Env : Type 1 where
  -- the state behind an `SSLContextRef`
  pub Context : Type 0
  -- `none` is a failure
  pub ssl_new_context : Option Context
  pub ssl_configure : ConfigureCall → Context → OsStatus × Context
  pub ssl_handshake : Context → SslIo (OsStatus × Context)
  -- with the size of the buffer; the bytes are what `processed` counts
  pub ssl_read : Context → ℕ → SslIo (OsStatus × Bytes × Context)
  pub ssl_write : Context → Bytes → SslIo (OsStatus × Context)
  pub ssl_close : Context → SslIo Context
  -- the authentication block, on a user name and a password
  pub authorize : Block → Bytes → Bytes → Bool
  -- how many of the bytes `fwrite` writes
  pub fwrite : Bytes → ℕ
