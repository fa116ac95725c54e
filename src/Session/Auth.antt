-- ===== src/Session/Auth.antt =====
-- AUTH PLAIN with a payload that is no base 64.
use spamass.Base.{
  ℕ, ◌-◌, ◌<◌, ◌≡◌, refl, ap, Bool, true, false, ◌&&◌, Option, none, some, [], ◌∷◌, ◌++◌, Bytes,
  codes, starts_with, take, drop, length, length-take, length-drop, arith, ltb, ok,
}
use spamass.Base64.NoDigits.{HasNoDigits, decode_no_digits}
use spamass.Session.Commands.{authenticate, ask_handler, ask_user, decode_buf}
use spamass.Socket.Defs.{Socket, call_auth}
use spamass.Tls.{Block, Env}

-- What is decoded of a line: without the command word, and without the two bytes at its end.
abbrev pub payload : Bytes → ℕ → Bytes
payload line linelen = take (linelen - 13) (drop 11 line)

module _ (env : Env) where
  open env use {Context, authorize}

  -- What comes of an empty name and an empty password: with a block and a queue the block is asked,
  -- and its answer counts; otherwise the client is let in.
  abbrev pub empty_login : Option Block → Bool → Socket Context → Socket Context × Bool
  empty_login (some handler) true s =
      (record s { trace = s.trace ++ call_auth handler [] [] ∷ [] }, authorize handler [] [])
  empty_login _ _ s = (s, true)

  ask_handler-empty_login :
      (o : Option Block) (queue : Bool) (s : Socket Context)
      → s.handler_queue ≡ queue
      → ask_handler env o s [] [] ≡ empty_login o queue s
  unfolding ask_handler
  ask_handler-empty_login none queue s e = refl
  ask_handler-empty_login (some handler) true s e = rw e refl
  ask_handler-empty_login (some handler) false s e = rw e refl

  -- If a line of more than 13 and less than 150 bytes begins with `AUTH PLAIN ` and its payload has no
  -- base 64 digit, the payload passes the test on the decoded length: with a block and a queue the
  -- block is asked about an empty name and an empty password, and without either the client is let in.
  pub authenticate_no_digits :
      (s : Socket Context)
      → starts_with (codes "AUTH PLAIN ") s.line ≡ true
      → length s.line ≡ s.linelen
      → 13 < s.linelen
      → s.linelen < 150
      → HasNoDigits (payload s.line s.linelen)
      → authenticate env s ≡ ok (empty_login s.auth_handler s.handler_queue s)
  unfolding authenticate ask_user
  authenticate_no_digits s w whole long short h =
      let some_payload : 0 < length (payload s.line s.linelen) =
        omega (arith, length-take (s.linelen - 13) (drop 11 s.line), length-drop 11 s.line) in
      let tests : (starts_with (codes "AUTH PLAIN ") s.line
            && ltb 13 s.linelen
            && ltb s.linelen 150)
          ≡ true =
        ground (arith, w) in
      rw (tests, decode_no_digits (payload s.line s.linelen) decode_buf some_payload h)
        (ap ok (ask_handler-empty_login s.auth_handler s.handler_queue s refl))
