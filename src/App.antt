-- ===== src/App.antt =====
-- The application around the library, Spamass/Spamass/SMAppDelegate.m with SMEmail.m and SMSocket.m
-- beside it: what it asks of Foundation, and its modules.
pub mod Path
pub mod Email
pub mod Mail
pub mod Search
pub mod Opening
use spamass.Base.{ℕ, Bool, ◌+◌, ◌≡◌, ◌<◌, [], ◌++◌, Bytes, Option, All, length}

-- What the application uses of Foundation. A string is its text in UTF-8.
pub record Foundation : Type 0 where
  -- `initWithData:` and `stringWithCString:` in UTF-8; `none` is nil
  pub string : Bytes → Option Bytes
  -- `length`, in units of UTF-16
  pub units : Bytes → ℕ
  -- `rangeOfString:@":"`, as what is before the colon and what is behind it
  pub colon : Bytes → Option (Bytes × Bytes)
  -- `stringByTrimmingCharactersInSet:` for white space, and for white space and line ends
  pub trim : Bytes → Bytes
  pub trim_lines : Bytes → Bytes
  pub lowercase : Bytes → Bytes
  -- whether the first white space, if any, is at 0
  pub starts_white : Bytes → Bool
  -- `stringWithFormat:@"%06lu"`
  pub padded : ℕ → Bytes
  -- `stringValue` of an `NSNumber`
  pub number : ℕ → Bytes
  -- `integerValue`, as an `NSUInteger`
  pub integer : Bytes → ℕ

-- What is assumed of `length`: a character of ASCII is one unit, and a text that is not empty has
-- units.
pub record CountsUnits (units : Bytes → ℕ) : Type 0 where
  pub ascii : (xs ys : Bytes) → All (λ b. b < 128) xs → units (xs ++ ys) ≡ length xs + units ys
  pub empty : units [] ≡ 0
  pub some_units : (xs : Bytes) → units xs ≡ 0 → xs ≡ []
