-- ===== src/App/Path/Form.antt =====
-- What a socket id and a serial that pass the tests of `pathWithSocketId:serial:mkdir:` look like.
use spamass.App.Path.{Kind, digit, char, is_kind, has_form}
use spamass.App.{CountsUnits}
use spamass.Base.{
  All, Bytes, List, [], ap, append-nil, arith, drop, length, length-take, replicate, suc, sym, take,
  take-append-drop, true, zero, ℕ, ◌++◌, ◌<◌, ◌∙◌, ◌∷◌, ◌≡◌, ◌≢◌, ◌≤◌,
}

-- A byte that is in ASCII, and neither a NUL nor a slash.
abbrev pub IsPlain : ℕ → Type 0
IsPlain b = (b < 128) × (b ≢ 0) × (b ≢ b'/')

abbrev pub IsPlainKind : Kind → Type 0
IsPlainKind digit = Unit
IsPlainKind (char c) = IsPlain c

is_kind-IsPlain : (k : Kind) (b : ℕ) → IsPlainKind k → is_kind k b ≡ true → IsPlain b
is_kind-IsPlain digit b p e =
    (ground (arith, e), (λ z. ground (arith, e, z)), (λ z. ground (arith, e, z)))
is_kind-IsPlain (char c) b p e =
    let same : b ≡ c = ground (arith, e) in
    (ground (arith, same, p), (λ z. p.1 (sym same ∙ z)), (λ z. p.2 (sym same ∙ z)))

pub has_form-IsPlain :
    (ks : List Kind) (text : Bytes)
    → All IsPlainKind ks
    → has_form ks text ≡ true
    → (length ks ≤ length text) × All IsPlain (take (length ks) text)
unfolding has_form
has_form-IsPlain [] text p e = (omega arith, tt)
has_form-IsPlain (k ∷ ks) [] p e = cc
has_form-IsPlain (k ∷ ks) (b ∷ text) (p, ps) e =
    let first : is_kind k b ≡ true = ground (arith, e) in
    let rest : has_form ks text ≡ true = ground (arith, e) in
    let (long, plain) = has_form-IsPlain ks text ps rest in
    (omega (arith, long), (is_kind-IsPlain k b p first, plain))

-- A decimal digit in ASCII.
abbrev pub IsDigit : ℕ → Type 0
IsDigit b = (48 ≤ b) × (b ≤ 57)

pub has_form-IsDigit :
    (k : ℕ) (ks : List Kind) (text : Bytes)
    → has_form (replicate k digit ++ ks) text ≡ true
    → All IsDigit (take k text)
unfolding has_form
has_form-IsDigit zero ks text e = tt
has_form-IsDigit (suc k) ks [] e = cc
has_form-IsDigit (suc k) ks (b ∷ text) e =
    let first : is_kind digit b ≡ true = ground (arith, e) in
    let rest : has_form (replicate k digit ++ ks) text ≡ true = ground (arith, e) in
    ((ground (arith, first), ground (arith, first)), has_form-IsDigit k ks text rest)

pub All-ascii : (text : Bytes) → All IsPlain text → All (λ b. b < 128) text
All-ascii [] p = tt
All-ascii (b ∷ text) (p, ps) = (p.0, All-ascii text ps)

-- With as many units as the form has, the text ends where the form does.
pub has_form-whole :
    (units : Bytes → ℕ) (ks : List Kind) (text : Bytes)
    → CountsUnits units
    → All IsPlainKind ks
    → has_form ks text ≡ true
    → units text ≡ length ks
    → (length text ≡ length ks) × All IsPlain text
has_form-whole units ks text counts p e n =
    let k = length ks in
    let (long, plain) = has_form-IsPlain ks text p e in
    let counted = counts.ascii (take k text) (drop k text) (All-ascii (take k text) plain) in
    let joined = ap units (take-append-drop k text) in
    let none_left : drop k text ≡ [] =
      counts.some_units (drop k text)
        (omega (arith, n, counted, joined, length-take k text, long)) in
    let whole : take k text ≡ text =
      sym (append-nil (take k text))
      ∙ ap (λ t. take k text ++ t) (sym none_left)
      ∙ take-append-drop k text in
    (omega (arith, ap length whole, length-take k text, long), rw (sym whole) plain)
