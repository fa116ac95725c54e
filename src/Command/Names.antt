-- ===== src/Command/Names.antt =====
-- Which words are recognised as which command.
use spamass.Base.{
  ◌≡◌, ◌≢◌, refl, Bytes, codes, ◌++◌, [], true, starts_with, Bool-cases, inl, inr, if◌then◌else◌,
}
use spamass.Command.{
  Command, no_command, helo, ehlo, mail, rcpt, data_command, quit, rset, noop, help, vrfy, auth,
  starttls, classify,
}

-- The word that the protocol has for a command.
pub name : Command → Bytes
name no_command = []
name helo = codes "HELO"
name ehlo = codes "EHLO"
name mail = codes "MAIL"
name rcpt = codes "RCPT"
name data_command = codes "DATA"
name quit = codes "QUIT"
name rset = codes "RSET"
name noop = codes "NOOP"
name help = codes "HELP"
name vrfy = codes "VRFY"
name auth = codes "AUTH"
name starttls = codes "STARTTLS"

-- Every word that begins with a command's name is taken for that command: also `DATABASE`.
pub classify-name : (c : Command) (more : Bytes) → c ≢ no_command → classify (name c ++ more) ≡ c
unfolding classify name
classify-name no_command more h = absurd (h refl)
classify-name helo more h = refl
classify-name _ more h = refl

abbrev Recognises : Bytes → Command → Type 0
Recognises word c = c ≢ no_command → starts_with (name c) word ≡ true

-- One rung of the ladder.
pick :
    (word : Bytes) (c other : Command)
    → Recognises word other
    → Recognises word (if starts_with (name c) word then c else other)
pick word c other rest = elim (Bool-cases (starts_with (name c) word)) [
  | inl hit ↦ rw hit (λ _. hit)
  | inr miss ↦ rw miss rest
]

-- A word that is taken for a command begins with that command's name.
pub classify-starts_with :
    (word : Bytes) → classify word ≢ no_command → starts_with (name (classify word)) word ≡ true
unfolding classify name
classify-starts_with word = pick word helo _ (
    pick word ehlo _ (
      pick word mail _ (
        pick word rcpt _ (
          pick word data_command _ (
            pick word quit _ (
              pick word rset _ (
                pick word noop _ (
                  pick word help _ (
                    pick word vrfy _
                      (pick word auth _ (pick word starttls _ (λ h. absurd (h refl)))))))))))))
