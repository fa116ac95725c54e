-- ===== src/Os.antt =====
-- What libEmailz/src/emailz.c asks of the C library and the kernel, and this repository does not
-- contain.
use spamass.Base.{ℕ, Bool, Bytes, Option}

-- `struct tm`, as far as it is read.
pub record Tm : Type 0 where
  pub tm_year : ℕ
  pub tm_mon : ℕ
  pub tm_mday : ℕ
  pub tm_hour : ℕ
  pub tm_min : ℕ
  pub tm_sec : ℕ

pub record Os : Type 0 where
  -- `(int)floor(1. + log10((double)num))`; `none` is a negative value
  pub digits : ℕ → Option ℕ
  pub gmtime : ℕ → Tm
  -- whether `setsockopt(TCP_NODELAY)` succeeds on a connection
  pub set_nodelay : ℕ → Bool
  -- whether `fopen` for writing succeeds
  pub fopen : Bytes → Bool
  -- `inet_ntop`, on the address family and the address
  pub inet_ntop : ℕ → ℕ → Option Bytes
