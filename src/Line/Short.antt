-- ===== src/Line/Short.antt =====
-- Input whose lines leave room in `line` for the terminator that libEmailz/src/emailz.c stores
-- behind them.
use spamass.Base.{
  ◌<◌, ◌≡◌, refl, ◌∙◌, false, some, [], ◌++◌, Bytes, length, length-append, append_assoc, ap, arith,
}
use spamass.Line.Split.{split_line, split_line-append_eq}
use spamass.Line.{max_line_size}

-- Wherever in `bs` one starts to read, the line that ends first is shorter than `line`.
pub HasShortLines : Bytes → Type 0
HasShortLines bs =
    (before after line left : Bytes)
    → before ++ after ≡ bs
    → split_line false 0 after ≡ some (line, left)
    → length line < max_line_size

pub HasShortLines-first :
    (bs line left : Bytes)
    → HasShortLines bs
    → split_line false 0 bs ≡ some (line, left)
    → length line < max_line_size
unfolding HasShortLines
HasShortLines-first bs line left h e = h [] bs line left refl e

pub HasShortLines-left :
    (line left bs : Bytes) → line ++ left ≡ bs → HasShortLines bs → HasShortLines left
unfolding HasShortLines
HasShortLines-left line left bs joined h before after l r e =
    h (line ++ before) after l r (append_assoc line before after ∙ ap (◌++◌ line) e ∙ joined)

-- Less input than `line` holds has only such lines.
pub fits-HasShortLines : (bs : Bytes) → length bs < max_line_size → HasShortLines bs
unfolding HasShortLines
fits-HasShortLines bs small before after line left e found =
    let (joined, _, _) = split_line-append_eq false 0 after found in
    omega (
      arith,
      small,
      ap length e,
      ap length joined,
      length-append before after,
      length-append line left,
    )
