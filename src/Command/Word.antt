-- ===== src/Command/Word.antt =====
-- How a line is taken apart into a command word, separators and an argument.
use spamass.Base.{
  ℕ, zero, suc, ◌+◌, ◌≡◌, ◌≤◌, refl, ap, Bytes, ◌++◌, [], ◌∷◌, true, false, All, length, map, arith,
  replicate, ◌⊎◌, ◌<◌, ◌∙◌, length-append, length-replicate, length-map, length-drop, drop, sym,
  drop-length_add, drop-length-append,
}
use spamass.Command.{
  is_letter, to_upper, is_separator, skip_spaces, copy_word, count_separators, read_command,
}

skip_spaces_lem :
    (k : ℕ) (c : ℕ) (rest : Bytes)
    → is_letter c ≡ true
    → skip_spaces (replicate k b' ' ++ c ∷ rest) ≡ c ∷ rest
unfolding skip_spaces
skip_spaces_lem zero c rest h = ground arith
skip_spaces_lem (suc k) c rest h = skip_spaces_lem k c rest h

-- The text does not go on with a letter.
abbrev pub WordEnds : Bytes → Type 0
WordEnds [] = Unit
WordEnds (c ∷ cs) = is_letter c ≡ false

copy_word_lem :
    (n : ℕ) (word rest : Bytes)
    → All (λ c. is_letter c ≡ true) word
    → WordEnds rest
    → n + length word ≤ 49
    → copy_word n (word ++ rest) ≡ (map to_upper word, rest)
unfolding copy_word
copy_word_lem n [] [] w e h = refl
copy_word_lem n [] (c ∷ rest) w e h = ground arith
copy_word_lem n (c ∷ word) rest w e h = ground (arith, copy_word_lem (n + 1) word rest w.1 e)

-- The argument does not begin with a separator.
abbrev pub ArgumentStarts : Bytes → Type 0
ArgumentStarts [] = Unit
ArgumentStarts (c ∷ cs) = is_separator c ≡ false

count_separators_lem :
    (seps arg : Bytes)
    → All (λ c. is_separator c ≡ true) seps
    → ArgumentStarts arg
    → count_separators (seps ++ arg) ≡ length seps
unfolding count_separators
count_separators_lem [] [] h a = refl
count_separators_lem [] (c ∷ arg) h a = ground arith
count_separators_lem (c ∷ seps) arg h a = ground (arith, count_separators_lem seps arg h.1 a)

WordEnds-append :
    (seps arg : Bytes)
    → All (λ c. is_separator c ≡ true) seps
    → WordEnds arg ⊎ (0 < length seps)
    → WordEnds (seps ++ arg)
WordEnds-append [] [] h e = tt
WordEnds-append [] (c ∷ arg) h e = ground arith
WordEnds-append (c ∷ seps) arg h e = ground arith

-- A line of a command: `k` spaces, the word, separators, the argument.
abbrev pub command_line : ℕ → Bytes → Bytes → Bytes → Bytes
command_line k word seps arg = replicate k b' ' ++ (word ++ (seps ++ arg))

pub record IsCommandLine (word seps arg : Bytes) : Type 0 where
  pub letters : All (λ c. is_letter c ≡ true) word
  pub some_letter : 0 < length word
  pub fits : length word ≤ 49
  pub separators : All (λ c. is_separator c ≡ true) seps
  pub argument : ArgumentStarts arg
  pub ends : WordEnds arg ⊎ (0 < length seps)

read_command_skipped :
    (line : Bytes) (word rest : Bytes) (lineoff : ℕ)
    → 0 < length line
    → copy_word 0 (skip_spaces line) ≡ (word, rest)
    → read_command line lineoff
      ≡ record { cmnd = word; cmndlen = length word; lineoff = length word + count_separators rest }
unfolding read_command
read_command_skipped [] word rest lineoff h e = absurd (omega arith)
read_command_skipped (c ∷ line) word rest lineoff h e = rw e

length-command_line :
    (k : ℕ) (word seps arg : Bytes)
    → length (command_line k word seps arg) ≡ k + length word + length seps + length arg
length-command_line k word seps arg = omega (
  arith,
  length-append (replicate k b' ') (word ++ (seps ++ arg)),
  length-replicate {A = ℕ} k b' ',
  length-append word (seps ++ arg),
  length-append seps arg,
)

-- Of a line that consists of some spaces, a word of 1 to 49 letters, separators (spaces or colons) and
-- an argument, the command word comes out in upper case, and the offset counts the word and the
-- separators.
pub read_command_lem :
    (k : ℕ) (word seps arg : Bytes) (lineoff : ℕ)
    → IsCommandLine word seps arg
    → read_command (command_line k word seps arg) lineoff ≡ record {
      cmnd = map to_upper word;
      cmndlen = length word;
      lineoff = length word + length seps;
    }
read_command_lem k [] seps arg lineoff w = absurd (omega (arith, w.some_letter))
read_command_lem k (c ∷ word) seps arg lineoff w =
    read_command_skipped (command_line k (c ∷ word) seps arg) (map to_upper (c ∷ word))
      (seps ++ arg) lineoff (omega (arith, length-command_line k (c ∷ word) seps arg))
      (rw (skip_spaces_lem k c (word ++ (seps ++ arg)) w.letters.0) (
        copy_word_lem 0 (c ∷ word) (seps ++ arg) w.letters
          (WordEnds-append seps arg w.separators w.ends) (omega (arith, w.fits))))
    ∙ rw (length-map word to_upper, count_separators_lem seps arg w.separators w.argument)

drop-command_line :
    (k : ℕ) (word seps arg : Bytes)
    → drop (k + (length word + length seps)) (command_line k word seps arg) ≡ arg
drop-command_line k word seps arg =
    ap (λ n. drop (n + (length word + length seps)) (command_line k word seps arg))
      (sym (length-replicate k 32))
    ∙ drop-length_add (replicate k b' ') (word ++ (seps ++ arg)) (length word + length seps)
    ∙ drop-length_add word (seps ++ arg) (length seps)
    ∙ drop-length-append seps arg

-- On such a line the offset leads from the start of the word to the argument. The spaces in front of
-- the word are not counted, so from the start of the line it falls short by as many bytes.
pub read_command-argument :
    (k : ℕ) (word seps arg : Bytes) (lineoff : ℕ)
    → IsCommandLine word seps arg
    → let line = command_line k word seps arg in
      let off = (read_command line lineoff).lineoff in
      (drop (k + off) line ≡ arg) × (length (drop off line) ≡ k + length arg)
read_command-argument k word seps arg lineoff w = rw (read_command_lem k word seps arg lineoff w) (
  drop-command_line k word seps arg,
  omega (
    arith,
    length-drop (length word + length seps) (command_line k word seps arg),
    length-command_line k word seps arg,
  ),
)
