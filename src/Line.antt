-- ===== src/Line.antt =====
-- The line scanner of libEmailz/src/emailz.c: the block that `emailz_socket_read_line` runs on
-- each region of the socket's unprocessed data.
pub mod Split
pub mod Short
use spamass.Base.{
  ℕ, ◌+◌, ◌≡◌, Bool, true, false, not, ◌&&◌, ◌||◌, List, [], ◌∷◌, ◌++◌, Bytes, ◌==◌, leb, ltb,
  if◌then◌else◌,
}
use spamass.Dispatch.{DispatchData}
use spamass.Dispatch

-- `EMAILZ_MAX_LINE_SIZE`.
abbrev pub max_line_size : ℕ
max_line_size = 32000

-- Whether `line[i]` lies in `line`.
abbrev pub is_in_line : ℕ → Bool
is_in_line i = ltb i max_line_size

-- The variables of the block; `line` is what has been stored through `lineptr`.
pub record Scan : Type 0 where
  pub found_cr : Bool
  pub found_lf : Bool
  pub linelen : ℕ
  pub line : Bytes

abbrev pub scan_start : Scan
scan_start = record { found_cr = false; found_lf = false; linelen = 0; line = [] }

-- One round of the loop over a region, up to its tests.
unfoldable pub scan_byte : Scan → ℕ → Scan
scan_byte s b =
    let marked =
      if not s.found_cr && b == b'\r'
      then record s { found_cr = true }
      else if s.found_cr && b == b'\n'
      then record s { found_lf = true }
      else if s.found_cr && not (b == b'\n')
      then record s { found_cr = false }
      else s in
    record marked { line = marked.line ++ b ∷ []; linelen = marked.linelen + 1 }

-- `while (buffer_ptr < buffer_end)`; the flag is the block's result.
unfoldable pub scan_region : Scan → Bytes → Scan × Bool
scan_region s [] = (s, true)
scan_region s (b ∷ bs) =
    let s' = scan_byte s b in
    let rest = scan_region s' bs in
    if s'.found_cr && s'.found_lf
    then (s', false)
    else if leb max_line_size s'.linelen
    then (s', false)
    else rest

unfoldable pub scan_line : DispatchData → Scan
unfolding scan_region scan_byte
scan_line d = Dispatch.apply scan_region scan_start d

-- The test behind `dispatch_data_apply`.
abbrev pub is_complete : Scan → Bool
is_complete s = (s.found_cr && s.found_lf) || (max_line_size == s.linelen)
