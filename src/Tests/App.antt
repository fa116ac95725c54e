-- ===== src/Tests/App.antt =====
-- A mail of the application on a connection of which everything is known.
use spamass.App.Email.{Email, raised}
use spamass.App.Mail.Lines.{continues, data_email-raised}
use spamass.App.Mail.Received.{new_calls, process_all-IsStored}
use spamass.App.Mail.Safe.{IsSound, UnlessRaised}
use spamass.App.Mail.Sound.{app_run-IsSound}
use spamass.App.Mail.Stored.{IsStored, units_total}
use spamass.App.Mail.Fresh.{IsFresh}
use spamass.App.Mail.Unique.{app_run-IsFresh}
use spamass.App.Mail.Whole.{
  IsAddress, bracketed, new_mail, addressed, handle_email-raised, app_run-whole_mail,
}
use spamass.App.Mail.{SmSocket, is_split, data_email, handle_email, app_run}
use spamass.App.Opening.{socket_block, told_of, socket_block-told_of}
use spamass.App.Path.Accepted.{IsMailPath, IsRefused, path_with_socket_id-IsMailPath}
use spamass.App.Path.Named.{IsBeside, mail_path, name_socket-IsBeside}
use spamass.App.Path.Steps.{email_path_of, nested_if}
use spamass.App.Path.{path_with_socket_id, record_dir}
use spamass.App.{Foundation, CountsUnits}
use spamass.Base.{
  ℕ, ◌≡◌, ◌⊎◌, ap, sym, ◌∙◌, ◌/◌, ◌%◌, ◌^◌, ◌↔◌, refl, Bool, true, false, not, ◌&&◌, All, Option,
  none, some, [], ◌∷◌, ◌++◌, Bytes, codes, length, length-append, arith, ◌==◌, if◌then◌else◌, ok,
  ◌>>=◌, Returns,
}
use spamass.Connection.Handlers.{set_smtp_handler, set_data_handler}
use spamass.Session.Commands.{notify_smtp}
use spamass.Command.{quit, bit, mail, rcpt, data_command}
use spamass.Number.Decimal.{decimal, value, value-decimal, rest_lt}
use spamass.Recording.Opened.{socket_name}
use spamass.Recording.{name_socket, record_open}
use spamass.Session.Loop.Fragments.{run_view}
use spamass.Session.Spec.Mail.{wire, deliveries}
use spamass.Session.{process_all}
use spamass.Socket.Defs.{Socket, queue_smtp, queue_data}
use spamass.Tests.Recording.{count_digits-CountsDigits, unix, september-IsDate, fresh}
use spamass.Tests.{unread, server, plain, greeting, greeting-IsText, mail_regions}

abbrev split_colon : Bytes → Bytes → Option (Bytes × Bytes)
split_colon before [] = none
split_colon before (b ∷ text) =
    if b == b':' then some (before, text) else split_colon (before ++ b ∷ []) text

abbrev first_white : Bytes → Bool
first_white [] = false
first_white (b ∷ text) = b == b' '

-- A Foundation of ASCII that neither trims nor folds case.
abbrev pub ascii : Foundation
ascii = record {
  string = some;
  units = length;
  colon = split_colon [];
  trim = λ text. text;
  trim_lines = λ text. text;
  lowercase = λ text. text;
  starts_white = first_white;
  padded = decimal 6;
  number = decimal 1;
  integer = value 0;
}

length-empty : (xs : Bytes) → length xs ≡ 0 → xs ≡ []
length-empty [] e = refl
length-empty (x ∷ xs) e = absurd (omega (arith, e))

length-CountsUnits : CountsUnits length
length-CountsUnits = record {
  ascii = λ xs ys p. length-append xs ys;
  empty = refl;
  some_units = length-empty;
}

abbrev pub some_id : Bytes
some_id = codes "20120914220509123-127.000.000.001-54321"

path_with_socket_id-IsMailPath_example :
    Returns (path_with_socket_id length some_id (codes "000001") true) (λ r.
      ((r ≡ (none, [])) × IsRefused length some_id (codes "000001"))
      ⊎ IsMailPath some_id (codes "000001") true r)
path_with_socket_id-IsMailPath_example =
    path_with_socket_id-IsMailPath length length-CountsUnits some_id (codes "000001") true

-- An id with a slash has no path.
slash_refused :
    path_with_socket_id length
      (codes "20120914220509123-127.000.000.001/54321")
      (codes "000001")
      true
    ≡ ok (none, [])
unfolding path_with_socket_id
slash_refused = refl

some_path_lem :
    path_with_socket_id length some_id (codes "000001") true
    ≡ ok (some (email_path_of some_id (codes "000001")), nested_if true some_id)
unfolding path_with_socket_id
some_path_lem = refl

abbrev kept : Socket ℕ
kept = record fresh { emailz = record server { record_base = record_dir } }

name_socket-IsBeside_example :
    Returns
      ((name_socket unix kept >>= record_open unix) >>= mail_path length (decimal 6 1))
      (λ q. IsBeside (socket_name unix kept) (decimal 6 1) [] q.0 q.1)
name_socket-IsBeside_example =
    name_socket-IsBeside unix kept length length-CountsUnits 1 count_digits-CountsDigits
      september-IsDate (omega arith) refl refl refl (omega arith)

abbrev pub alice : Bytes
alice = codes "alice@example.org"

abbrev pub bob : Bytes
bob = codes "bob@example.org"

abbrev connected : SmSocket
connected = record { socket_id = some some_id; email = none; email_count = 0; calls = [] }

abbrev empty_mail : Email
empty_mail = new_mail ascii alice bob connected

abbrev mailing : SmSocket
mailing = addressed ascii alice bob connected

-- A Foundation to which nothing is text.
abbrev blind : Foundation
blind = record ascii { string = λ text. none }

data_email-raised_example :
    (data_email blind (255 ∷ []) (some empty_mail) mailing ≡ raised)
    ↔ ((◌≡◌ {A = Option Bytes} none none) × ((true ≡ true) × (continues none [] ≡ false)))
data_email-raised_example = data_email-raised blind (255 ∷ []) empty_mail mailing

handle_email-raised_example :
    Returns
      (handle_email ascii (some empty_mail) mailing)
      (λ r. (r ≡ raised) ↔ ((bob ∷ [] ≡ []) ⊎ (◌≡◌ {A = Option Bytes} (some some_id) none)))
handle_email-raised_example = handle_email-raised ascii length-CountsUnits empty_mail mailing

abbrev all_whole : Bytes → Bool
all_whole [] = true
all_whole (b ∷ text) = not (is_split b) && all_whole text

all_whole-All : (text : Bytes) → all_whole text ≡ true → All (λ b. is_split b ≡ false) text
all_whole-All [] e = tt
all_whole-All (b ∷ text) e = (ground (arith, e), all_whole-All text (ground (arith, e)))

alice-IsAddress : IsAddress alice
alice-IsAddress = record { whole = all_whole-All alice refl; some_bytes = λ e. cc }

bob-IsAddress : IsAddress bob
bob-IsAddress = record { whole = all_whole-All bob refl; some_bytes = λ e. cc }

app_run-whole_mail_example :
    Returns
      (app_run ascii
        (queue_smtp 8 mail (bracketed (codes "FROM:") alice (codes " SIZE=5"))
          ∷ queue_smtp 8 rcpt (bracketed (codes "TO:") bob [])
          ∷ (deliveries 9 (greeting ∷ []) ++ queue_data 9 none true ∷ []))
        connected)
      (IsStored ascii bob some_id
        (email_path_of some_id (codes "000001"))
        (wire (greeting ∷ []) [])
        (units_total ascii (greeting ∷ []))
        (nested_if true some_id)
        (new_mail ascii alice bob connected)
        (addressed ascii alice bob connected))
unfolding decimal
app_run-whole_mail_example =
    app_run-whole_mail ascii 8 9 alice bob (codes " SIZE=5") alice-IsAddress bob-IsAddress
      (greeting ∷ []) some_id (email_path_of some_id (codes "000001")) (nested_if true some_id)
      connected refl refl (refl, tt) refl some_path_lem

app_run-IsSound_example :
    Returns
      (app_run ascii (queue_smtp 8 rcpt (codes "TO:x") ∷ queue_data 9 none true ∷ []) mailing)
      (UnlessRaised (IsSound ascii))
app_run-IsSound_example =
    app_run-IsSound ascii length-CountsUnits
      (queue_smtp 8 rcpt (codes "TO:x") ∷ queue_data 9 none true ∷ []) mailing
      (record { calls_safe = tt; email_current = (refl, refl) })

process_all-IsStored_example :
    Returns
      (run_view plain (
          process_all plain (record (unread []) {
            state = data_command;
            data_handler = some 9;
            handler_queue = true;
            indata = mail_regions;
          }))
        >>= λ r. app_run ascii (new_calls plain (unread []) r) mailing)
      (IsStored ascii bob some_id
        (email_path_of some_id (codes "000001"))
        (wire (greeting ∷ []) [])
        (units_total ascii (greeting ∷ []))
        (nested_if true some_id)
        empty_mail
        mailing)
unfolding decimal
process_all-IsStored_example =
    process_all-IsStored plain ascii (unread []) 9 (greeting ∷ []) mail_regions bob some_id
      (email_path_of some_id (codes "000001")) [] (nested_if true some_id) empty_mail mailing refl
      greeting-IsText (omega arith) (refl, tt) refl refl refl refl some_path_lem

padded_back : (n : ℕ) → value 0 (decimal 6 n) ≡ n
unfolding value decimal
padded_back n =
    let high = n / 10 ^ 5 in
    ap (λ d. value d (decimal 5 (n % 10 ^ 5))) (omega arith)
    ∙ value-decimal 5 (n % 10 ^ 5) high (rest_lt 5 n)
    ∙ omega arith

padded_inj : (m n : ℕ) → decimal 6 m ≡ decimal 6 n → m ≡ n
padded_inj m n e = sym (padded_back m) ∙ ap (value 0) e ∙ padded_back n

app_run-IsFresh_example :
    Returns
      (app_run ascii (queue_smtp 8 rcpt (codes "TO:x") ∷ queue_data 9 none true ∷ []) mailing)
      (UnlessRaised (IsFresh ascii some_id))
app_run-IsFresh_example =
    app_run-IsFresh ascii length-CountsUnits some_id padded_inj
      (queue_smtp 8 rcpt (codes "TO:x") ∷ queue_data 9 none true ∷ []) mailing
      (record { calls_safe = tt; email_current = (refl, refl) })
      (record { below = tt; distinct = tt }) refl (omega arith)

-- A connection with the handlers of the application.
abbrev installed : Socket ℕ
installed = record (unread []) {
  handler_queue = true;
  smtp_handler = some 8;
  smtp_handler_mask = 24;
  line = codes "QUIT\r\n";
}

socket_block-told_of_example : notify_smtp plain quit installed ≡ told_of plain 8 quit installed
unfolding bit set_smtp_handler set_data_handler socket_block
socket_block-told_of_example =
    socket_block-told_of plain ascii 8 9 none (unread []) installed quit refl refl refl
