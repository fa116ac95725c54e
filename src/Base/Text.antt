-- ===== src/Base/Text.antt =====
-- Bytes, and the C library's view of a text as the bytes before the first NUL.
use Prim.Native.Nat.{ℕ, ◌≤◌}
use Prim.Native.Char.{code}
use Prim.Native.String.{String}
use mathlib.Core.Bool.{Bool, true, false, ◌&&◌}
use mathlib.Core.Path.{◌≡◌, refl}
use mathlib.Core.List.{List, [], ◌∷◌, ◌++◌}
use native.Mathlib.Omega.{arith}
use spamass.Base.Tests.{◌==◌, if◌then◌else◌}
use spamass.Base.Lists.{length}

abbrev pub Bytes : Type 0
Bytes = List ℕ

-- The bytes of an ASCII literal.
abbrev pub codes : String → Bytes
codes String.[] = []
codes (String.◌∷◌ c s) = code c ∷ codes s

-- What `strlen` and `%s` see: the bytes before the first NUL.
abbrev pub c_string : Bytes → Bytes
c_string [] = []
c_string (b ∷ bs) = if b == 0 then [] else b ∷ c_string bs

-- `strncmp(text, prefix, strlen(prefix)) == 0`, on a text that ends in a NUL.
abbrev pub starts_with : Bytes → Bytes → Bool
starts_with [] text = true
starts_with (p ∷ ps) [] = false
starts_with (p ∷ ps) (b ∷ bs) = p == b && starts_with ps bs

pub starts_with-append : (p t : Bytes) → starts_with p (p ++ t) ≡ true
starts_with-append [] t = refl
starts_with-append (b ∷ p) t = ground (arith, starts_with-append p t)

pub length-c_string-le : (bs : Bytes) → length (c_string bs) ≤ length bs
length-c_string-le [] = omega arith
length-c_string-le (b ∷ bs) = ground (arith, length-c_string-le bs)
