-- ===== src/Dispatch.antt =====
-- libdispatch's data objects, as libEmailz/src/emailz.c uses them (the fields `indata` and
-- `tmpdata` of emailz.h): an immutable sequence of bytes that lies in memory as several regions.
use spamass.Base.{
  ℕ, ◌-◌, ◌+◌, ◌≡◌, Bool, List, [], ◌∷◌, ◌++◌, Bytes, length, take, drop, leb, if◌then◌else◌,
}
pub mod Contents

-- `dispatch_data_t`: the regions in order.
abbrev pub DispatchData : Type 0
DispatchData = List Bytes

-- The bytes of all regions.
abbrev pub contents : DispatchData → Bytes
contents [] = []
contents (r ∷ d) = r ++ contents d

-- `dispatch_data_get_size`.
abbrev pub get_size : DispatchData → ℕ
get_size [] = 0
get_size (r ∷ d) = length r + get_size d

-- `dispatch_data_create_concat`.
abbrev pub concat : DispatchData → DispatchData → DispatchData
concat a b = a ++ b

-- `dispatch_data_create_subrange(d, off, n)` is `limit n (skip off d)`.
pub skip : ℕ → DispatchData → DispatchData
skip n [] = []
skip n (r ∷ d) =
    let later = skip (n - length r) d in if leb (length r) n then later else drop n r ∷ d

pub limit : ℕ → DispatchData → DispatchData
limit n [] = []
limit n (r ∷ d) =
    let later = r ∷ limit (n - length r) d in if leb (length r) n then later else take n r ∷ []

unfoldable pub subrange : DispatchData → ℕ → ℕ → DispatchData
unfolding skip limit
subrange d offset n = limit n (skip offset d)

-- `dispatch_data_apply`: the block is called on each region in order, until it returns false.
module _ {ℓ} {S : Type ℓ} (block : S → Bytes → S × Bool) where
  unfoldable pub apply : S → DispatchData → S
  apply s [] = s
  apply s (r ∷ d) =
      let (s', go_on) = block s r in let rest = apply s' d in if go_on then rest else s'
