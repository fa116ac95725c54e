-- ===== src/Command.antt =====
-- The SMTP commands of libEmailz/src/emailz.h, and how libEmailz/src/emailz.c takes one off the
-- front of a line (`emailz_socket_read_command`) and recognises it (`emailz_socket_handle_read`).
pub mod Word
pub mod Names
use spamass.Base.{
  ℕ, ◌+◌, ◌-◌, ◌^◌, ◌≡◌, Bool, true, false, ◌&&◌, ◌||◌, List, [], ◌∷◌, ◌++◌, Bytes, codes,
  starts_with, ◌==◌, ltb, leb, if◌then◌else◌, length,
}

-- `emailz_smtp_command_t`; `data_command` is EMAILZ_SMTP_COMMAND_DATA, `no_command` is _NONE.
pub data Command : Type 0 where
  no_command helo ehlo mail rcpt data_command quit rset noop help vrfy auth starttls : Command

-- The value of the enumerator, a bit of `smtp_handler_mask`.
unfoldable pub bit : Command → ℕ
bit no_command = 0
bit helo = 2 ^ 1
bit ehlo = 2 ^ 2
bit mail = 2 ^ 3
bit rcpt = 2 ^ 4
bit data_command = 2 ^ 5
bit quit = 2 ^ 6
bit rset = 2 ^ 7
bit noop = 2 ^ 8
bit help = 2 ^ 9
bit vrfy = 2 ^ 10
bit auth = 2 ^ 11
bit starttls = 2 ^ 12

abbrev pub is_data : Command → Bool
is_data data_command = true
is_data _ = false

-- The ladder of `strncmp`s; `cmnd` holds upper case letters.
unfoldable pub classify : Bytes → Command
classify cmnd =
    if starts_with (codes "HELO") cmnd
    then helo
    else if starts_with (codes "EHLO") cmnd
    then ehlo
    else if starts_with (codes "MAIL") cmnd
    then mail
    else if starts_with (codes "RCPT") cmnd
    then rcpt
    else if starts_with (codes "DATA") cmnd
    then data_command
    else if starts_with (codes "QUIT") cmnd
    then quit
    else if starts_with (codes "RSET") cmnd
    then rset
    else if starts_with (codes "NOOP") cmnd
    then noop
    else if starts_with (codes "HELP") cmnd
    then help
    else if starts_with (codes "VRFY") cmnd
    then vrfy
    else if starts_with (codes "AUTH") cmnd
    then auth
    else if starts_with (codes "STARTTLS") cmnd
    then starttls
    else no_command

-- `EMAILZ_MAX_CMND_SIZE`.
abbrev pub max_cmnd_size : ℕ
max_cmnd_size = 50

abbrev pub is_lower : ℕ → Bool
is_lower c = leb b'a' c && leb c b'z'

abbrev pub is_letter : ℕ → Bool
is_letter c = (leb b'A' c && leb c b'Z') || is_lower c

-- `toupper` on a letter.
abbrev pub to_upper : ℕ → ℕ
to_upper c = if is_lower c then c - 32 else c

abbrev pub is_separator : ℕ → Bool
is_separator c = c == b':' || c == b' '

-- The first loop of `emailz_socket_read_command`, from `lineptr` to `lineend`.
unfoldable pub skip_spaces : Bytes → Bytes
skip_spaces [] = []
skip_spaces (c ∷ cs) = let rest = skip_spaces cs in if c == b' ' then rest else c ∷ cs

-- The second: `n` letters have been copied; the word, and what is left of the line.
unfoldable pub copy_word : ℕ → Bytes → Bytes × Bytes
copy_word n [] = ([], [])
copy_word n (c ∷ cs) =
    let rest = copy_word (n + 1) cs in
    if ltb n 49 && is_letter c then (to_upper c ∷ rest.0, rest.1) else ([], c ∷ cs)

-- The third: how many separators stand in front.
unfoldable pub count_separators : Bytes → ℕ
count_separators [] = 0
count_separators (c ∷ cs) = let rest = count_separators cs in if is_separator c then 1 + rest else 0

-- What `emailz_socket_read_command` stores.
pub record Parsed : Type 0 where
  pub cmnd : Bytes
  pub cmndlen : ℕ
  pub lineoff : ℕ

-- `emailz_socket_read_command` on the bytes of the line, with the `lineoff` that was there before.
unfoldable pub read_command : Bytes → ℕ → Parsed
unfolding skip_spaces copy_word count_separators
read_command [] lineoff = record { cmnd = []; cmndlen = 0; lineoff = lineoff }
read_command (b ∷ line) lineoff =
    let (word, rest) = copy_word 0 (skip_spaces (b ∷ line)) in
    record { cmnd = word; cmndlen = length word; lineoff = length word + count_separators rest }
