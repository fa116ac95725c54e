-- ===== src/Session/Spec/Mail.antt =====
-- A mail, from the reply to DATA to the period on a line by itself.
use spamass.Base.{
  ℕ, ◌+◌, ◌%◌, ◌^◌, ◌≤◌, ◌<◌, ◌≡◌, ◌≢◌, refl, ap, ◌∙◌, true, false, none, some, List, [], ◌∷◌, ◌++◌,
  append_assoc, Bytes, length, length-append, All, arith, ltb, ok,
}
use spamass.Command.{data_command, no_command}
use spamass.Line.Split.{split_line_plain}
use spamass.Line.{max_line_size, is_in_line}
use spamass.Session.Spec.Run.{reading, next, spec_run_all, spec_run_all-some, spec_run_all-idle}
use spamass.Session.Spec.{spec_line, spec_data_line}
use spamass.Session.View.{View}
use spamass.Session.{is_end_of_data, max_indata_size}
use spamass.Socket.Defs.{Event, queue_data}
use spamass.Tls.{Block}

-- A line of text, without its CR LF: no carriage return, short enough to have room for a terminator
-- behind it, and no period alone.
pub record IsText (body : Bytes) : Type 0 where
  pub no_cr : All (λ b. b ≢ b'\r') body
  pub fits : length body + 2 < max_line_size
  pub not_the_end : body ≢ b'.' ∷ []

abbrev pub terminated : Bytes → Bytes
terminated body = body ++ b'\r' ∷ b'\n' ∷ []

-- The lines as they are sent, with `rest` behind them.
abbrev pub wire : List Bytes → Bytes → Bytes
wire [] rest = rest
wire (body ∷ bodies) rest = body ++ b'\r' ∷ b'\n' ∷ wire bodies rest

abbrev pub wire_size : List Bytes → ℕ
wire_size [] = 0
wire_size (body ∷ bodies) = length body + 2 + wire_size bodies

-- The calls of the data handler for the lines.
abbrev pub deliveries : Block → List Bytes → List Event
deliveries h [] = []
deliveries h (body ∷ bodies) = queue_data h (some (terminated body)) false ∷ deliveries h bodies

text_not_end :
    (body : Bytes) (n : ℕ) → body ≢ b'.' ∷ [] → is_end_of_data n (terminated body) ≡ false
text_not_end [] n h = refl
text_not_end (a ∷ []) n h = let other : a ≢ b'.' = λ e. h (ap (λ x. x ∷ []) e) in ground arith
text_not_end (a ∷ b ∷ []) n h = refl
text_not_end (a ∷ b ∷ c ∷ []) n h = refl
text_not_end (a ∷ b ∷ c ∷ d ∷ body) n h = refl

-- A session in the data phase with a handler to deliver to.
abbrev pub receiving : View → Block → View
receiving v h = record v { state = data_command; data_handler = some h; handler_queue = true }

-- The session after a line of text.
abbrev after_text : View → Bytes → Bytes → Block → View
after_text v body left h = record v {
  unread = left;
  line = terminated body;
  linelen = length (terminated body);
  lineoff = 0;
  email_size = v.email_size + (length body + 2);
  calls = v.calls ++ queue_data h (some (terminated body)) false ∷ [];
}

length-terminated : (body : Bytes) → length (terminated body) ≡ length body + 2
length-terminated body = length-append body (b'\r' ∷ b'\n' ∷ [])

spec_line_text :
    (v : View) (h : Block) (body left : Bytes)
    → IsText body
    → v.email_size + (length body + 2) ≤ max_indata_size
    → spec_line (reading (receiving v h) (terminated body) left)
      ≡ ok (receiving (after_text v body left h) h, true)
unfolding spec_line spec_data_line
spec_line_text v h body left t small =
    let size = v.email_size + length (terminated body) in
    let whole : size % 2 ^ 64 ≡ v.email_size + (length body + 2) =
      omega (arith, length-terminated body) in
    let fits : ltb max_indata_size (v.email_size + (length body + 2)) ≡ false = ground arith in
    let room : is_in_line (length (terminated body)) ≡ true =
      ground (arith, length-terminated body, t.fits) in
    rw (room, text_not_end body (length (terminated body)) t.not_the_end, whole, fits)

-- The session after the period.
abbrev after_mail : View → Bytes → Block → View
after_mail v rest h = record v {
  unread = rest;
  state = no_command;
  line = terminated (b'.' ∷ []);
  linelen = 3;
  lineoff = 0;
  calls = v.calls ++ queue_data h none true ∷ [];
}

next_text :
    (v : View) (body rest : Bytes)
    → All (λ b. b ≢ b'\r') body
    → length body + 2 < max_line_size
    → next (record v { unread = body ++ b'\r' ∷ b'\n' ∷ rest }) ≡ some (terminated body, rest)
next_text v body rest n f = split_line_plain 0 body rest n (omega arith)

spec_line_period :
    (v : View) (h : Block) (rest : Bytes)
    → spec_line (reading (receiving v h) (terminated (b'.' ∷ [])) rest)
      ≡ ok (record (after_mail v rest h) { data_handler = some h; handler_queue = true }, true)
unfolding spec_line spec_data_line
spec_line_period v h rest = refl

abbrev pub period_line : Bytes → Bytes
period_line rest = b'.' ∷ b'\r' ∷ b'\n' ∷ rest

-- The session behind a whole mail.
abbrev pub mailed : View → List Bytes → Bytes → Block → View
mailed v bodies rest h = record v {
  unread = rest;
  state = no_command;
  data_handler = some h;
  handler_queue = true;
  line = [];
  linelen = 0;
  lineoff = 0;
  email_size = v.email_size + wire_size bodies;
  calls = v.calls ++ (deliveries h bodies ++ queue_data h none true ∷ []);
}

same_mailed :
    (v : View) {n m : ℕ} {cs ds : List Event}
    → n ≡ m
    → cs ≡ ds
    → spec_run_all (record v { email_size = n; calls = cs })
      ≡ spec_run_all (record v { email_size = m; calls = ds })
same_mailed v p q = λ i. spec_run_all (record v { email_size = p i; calls = q i })

mailed_none :
    (v : View) (h : Block) (rest : Bytes)
    → spec_run_all (receiving (record v { unread = period_line rest }) h)
      ≡ spec_run_all (mailed v [] rest h)
mailed_none v h rest =
    let start = receiving (record v { unread = period_line rest }) h in
    spec_run_all-some start
      (next_text start (b'.' ∷ []) rest ((λ e. absurd (ground (arith, e))), tt) (omega arith))
    ∙ rw (spec_line_period (record v { unread = period_line rest }) h rest)
        (spec_run_all-idle _ ∙ same_mailed (mailed v [] rest h) (omega arith) refl)

-- A mail whose lines together are not too large is delivered line by line, each as it was sent,
-- and then its end is told; the session goes on with what is behind the mail.
pub spec_run_all-mailed :
    (bodies : List Bytes) (v : View) (h : Block) (rest : Bytes)
    → All IsText bodies
    → v.email_size + wire_size bodies ≤ max_indata_size
    → spec_run_all (receiving (record v { unread = wire bodies (period_line rest) }) h)
      ≡ spec_run_all (mailed v bodies rest h)
spec_run_all-mailed [] v h rest t small = mailed_none v h rest
spec_run_all-mailed (body ∷ bodies) v h rest t small =
    let left = wire bodies (period_line rest) in
    let start = record v { unread = body ++ b'\r' ∷ b'\n' ∷ left } in
    spec_run_all-some (receiving start h)
      (next_text (receiving start h) body left t.0.no_cr t.0.fits)
    ∙ rw (spec_line_text start h body left t.0 (omega arith)) (
        spec_run_all-mailed bodies (after_text start body left h) h rest t.1 (omega arith)
        ∙ same_mailed (mailed v [] rest h) (omega arith) (
            append_assoc v.calls (queue_data h (some (terminated body)) false ∷ [])
              (deliveries h bodies ++ queue_data h none true ∷ [])))
