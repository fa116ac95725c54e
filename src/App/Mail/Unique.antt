-- ===== src/App/Mail/Unique.antt =====
-- The calls of the library one after the other, and the files that Spamass/Spamass/SMAppDelegate.m
-- has written behind them.
use spamass.App.Email.{Email, Result, returned, raised}
use spamass.App.Mail.Fresh.{
  written, written-append, written_dirs, Distinct, IsNumbered, All-IsNumbered, IsFresh, bound,
  stored-IsFresh,
}
use spamass.App.Mail.Safe.{IsSound, UnlessRaised}
use spamass.App.Mail.Sound.{event-IsSound, unless_raised-Returns}
use spamass.App.Mail.{
  SmSocket, arg_parts, handle_from, handle_rcpt, sized, data_email, add_recipients, bytes_of,
  smtp_block, nil_puts, db_puts, db_prefix, store_email, handle_email, finish, file_calls,
  app_event, app_run, unless_raised, make_directory,
}
use spamass.App.Path.Accepted.{IsMailPath, path_with_socket_id_lem}
use spamass.App.Path.{path_with_socket_id}
use spamass.App.{Foundation, CountsUnits}
use spamass.Base.{
  ℕ, ◌+◌, ◌%◌, ◌^◌, ◌≤◌, ◌<◌, ◌≡◌, ◌⊎◌, refl, ap, ◌∙◌, true, false, Option, none, some, List, [],
  ◌∷◌, ◌++◌, append-nil, map, Bytes, codes, All, length, arith, Outcome, ok, out_of_bounds,
  out_of_fuel, Returns, Returns-bind,
}
use spamass.Command.{Command, mail, rcpt}
use spamass.Socket.Defs.{Event, queue_smtp, queue_data}

both_lem :
    (m : Outcome (Result SmSocket)) (P Q : SmSocket → Type 0)
    → Returns m (UnlessRaised P)
    → Returns m (UnlessRaised Q)
    → Returns m (UnlessRaised (λ socket. P socket × Q socket))
both_lem (ok raised) P Q p q = tt
both_lem (ok (returned socket)) P Q p q = (p, q)
both_lem out_of_bounds P Q p q = p
both_lem out_of_fuel P Q p q = p

bound_le : (email : Option Email) (n : ℕ) → bound email n ≤ n + 1
bound_le none n = omega arith
bound_le (some email) n = omega arith

bound_recipients :
    (parts : List Bytes) (email : Option Email) (n : ℕ)
    → bound (add_recipients parts email) n ≡ bound email n
bound_recipients parts none n = refl
bound_recipients parts (some email) n = refl

module _ (fnd : Foundation) (counts : CountsUnits fnd.units) (id : Bytes)
    (injective : (m n : ℕ) → fnd.padded m ≡ fnd.padded n → m ≡ n) where
  -- A connection behind a call.
  record IsNext (before after : SmSocket) : Type 0 where
    fresh : IsFresh fnd id after
    count_le : after.email_count ≤ before.email_count + 1
    socket_id_eq : after.socket_id ≡ before.socket_id

  -- With nothing written and no higher bound.
  same_calls :
      (before after : SmSocket)
      → IsFresh fnd id before
      → after.calls ≡ before.calls
      → bound before.email before.email_count ≤ bound after.email after.email_count
      → after.email_count ≤ before.email_count + 1
      → after.socket_id ≡ before.socket_id
      → IsNext before after
  same_calls before after h calls le count same = record {
    fresh = record {
      below = rw calls (
          All-IsNumbered fnd id _ (bound after.email after.email_count) (written before.calls) le
            h.below);
      distinct = rw calls h.distinct;
    };
    count_le = count;
    socket_id_eq = same;
  }

  stored-IsNext :
      (email : Email) (recipient : Bytes) (socket : SmSocket) (r : Option Bytes × List Bytes)
      → email.serial ≡ fnd.padded socket.email_count
      → socket.email_count + 1 < 2 ^ 64
      → (r ≡ (none, [])) ⊎ IsMailPath id email.serial true r
      → All (IsNumbered fnd id socket.email_count) (written socket.calls)
      → Distinct (written socket.calls)
      → IsNext socket (
          finish
            (db_puts fnd email recipient (db_prefix recipient id email.serial)
              ++ (map make_directory r.1 ++ file_calls r.0 email.content))
            socket)
  stored-IsNext email recipient socket r serial room p below distinct =
      let (below', distinct') =
        stored-IsFresh fnd id injective socket.email_count (written socket.calls) email.serial
          email.content r serial p below distinct in
      let puts = db_puts fnd email recipient (db_prefix recipient id email.serial) in
      let added = map make_directory r.1 ++ file_calls r.0 email.content in
      let all : written (socket.calls ++ (puts ++ added))
          ≡ written socket.calls ++ written (file_calls r.0 email.content) =
        written-append socket.calls (puts ++ added)
        ∙ ap (λ ps. written socket.calls ++ ps) (written_dirs r.1 (file_calls r.0 email.content)) in
      let count : (socket.email_count + 1) % 2 ^ 64 + 1 ≡ socket.email_count + 2 =
        omega (arith, room) in
      record {
        fresh = record { below = rw (all, count) below'; distinct = rw all distinct' };
        count_le = omega (arith, room);
        socket_id_eq = refl;
      }

  store_email-IsNext :
      (email : Email) (recipients : List Bytes) (ids : Option Bytes) (socket : SmSocket)
      → ids ≡ some id
      → email.serial ≡ fnd.padded socket.email_count
      → socket.email_count + 1 < 2 ^ 64
      → All (IsNumbered fnd id socket.email_count) (written socket.calls)
      → Distinct (written socket.calls)
      → Returns (store_email fnd email recipients ids socket) (UnlessRaised (IsNext socket))
  unfolding store_email
  store_email-IsNext email [] ids socket e serial room below distinct = tt
  store_email-IsNext email (recipient ∷ recipients) ids socket e serial room below distinct = rw e (
      Returns-bind (path_with_socket_id fnd.units id email.serial true) _
        (λ r. (r ≡ (none, [])) ⊎ IsMailPath id email.serial true r) (UnlessRaised (IsNext socket))
        (path_with_socket_id_lem fnd.units counts id email.serial true)
        (λ r p. stored-IsNext email recipient socket r serial room p below distinct))

  handle_email-IsNext :
      (email : Option Email) (socket : SmSocket)
      → IsSound fnd (record socket { email = email })
      → IsFresh fnd id (record socket { email = email })
      → socket.socket_id ≡ some id
      → socket.email_count + 1 < 2 ^ 64
      → Returns
          (handle_email fnd email (record socket { email = email }))
          (UnlessRaised (IsNext (record socket { email = email })))
  unfolding handle_email
  handle_email-IsNext none socket s h e room =
      let more : bound none socket.email_count ≤ (socket.email_count + 1) % 2 ^ 64 + 1 =
        omega (arith, room) in
      let same : written (socket.calls ++ nil_puts fnd) ≡ written socket.calls =
        written-append socket.calls (nil_puts fnd) ∙ append-nil (written socket.calls) in
      record {
        fresh = record {
          below = rw same (
              All-IsNumbered fnd id (socket.email_count + 1) ((socket.email_count + 1) % 2 ^ 64 + 1)
                (written socket.calls) more h.below);
          distinct = rw same h.distinct;
        };
        count_le = omega (arith, room);
        socket_id_eq = refl;
      }
  handle_email-IsNext (some email) socket s h e room =
      store_email-IsNext email email.recipients email.socket_id
        (record socket { email = some email }) (s.email_current.1 ∙ e) s.email_current.0 room
        h.below h.distinct

  sized-IsNext :
      (arg : Option Bytes) (email : Email) (socket : SmSocket) (r : Result Email)
      → IsFresh fnd id (record socket { email = some email })
      → UnlessRaised
          (IsNext (record socket { email = some email }))
          (sized fnd arg (record socket { email = some email }) r)
  sized-IsNext arg email socket raised h = tt
  sized-IsNext arg email socket (returned after) h =
      same_calls (record socket { email = some email }) _ h refl (omega arith) (omega arith) refl

  data_email-IsNext :
      (bytes : Bytes) (email : Option Email) (socket : SmSocket)
      → IsFresh fnd id (record socket { email = email })
      → UnlessRaised
          (IsNext (record socket { email = email }))
          (data_email fnd bytes email (record socket { email = email }))
  unfolding data_email
  data_email-IsNext bytes none socket h =
      same_calls (record socket { email = none }) _ h refl (omega arith) (omega arith) refl
  data_email-IsNext bytes (some email) socket h = sized-IsNext (fnd.string bytes) email socket _ h

  smtp_block-IsNext :
      (command : Command) (arg : Option Bytes) (socket : SmSocket)
      → IsFresh fnd id socket
      → socket.email_count + 1 < 2 ^ 64
      → IsNext socket (smtp_block fnd command arg socket)
  unfolding handle_from handle_rcpt
  smtp_block-IsNext mail arg socket h room =
      same_calls socket _ h refl (omega (arith, room, bound_le socket.email socket.email_count))
        (omega (arith, room)) refl
  smtp_block-IsNext rcpt arg socket h room =
      same_calls socket _ h refl
        (omega
          (arith, bound_recipients (arg_parts (codes "TO:") 3 arg) socket.email socket.email_count))
        (omega arith) refl
  smtp_block-IsNext _ arg socket h room =
      same_calls socket socket h refl (omega arith) (omega arith) refl

  app_event-IsNext :
      (event : Event) (socket : SmSocket)
      → IsSound fnd socket
      → IsFresh fnd id socket
      → socket.socket_id ≡ some id
      → socket.email_count + 1 < 2 ^ 64
      → Returns (app_event fnd event socket) (UnlessRaised (IsNext socket))
  unfolding app_event
  app_event-IsNext (queue_smtp h command arg) socket s f e room =
      smtp_block-IsNext command (fnd.string arg) socket f room
  app_event-IsNext (queue_data h bytes true) socket s f e room =
      handle_email-IsNext socket.email socket s f e room
  app_event-IsNext (queue_data h bytes false) socket s f e room =
      data_email-IsNext (bytes_of bytes) socket.email socket f
  app_event-IsNext _ socket s f e room =
      same_calls socket socket f refl (omega arith) (omega arith) refl

  -- Whatever the calls of the library are, if each number has a text of its own, and the mails counted
  -- before and the calls are together fewer than 2^64: unless an exception ends the application, the
  -- files that it has written for a connection are all different, so no mail is written over another.
  pub app_run-IsFresh :
      (events : List Event) (socket : SmSocket)
      → IsSound fnd socket
      → IsFresh fnd id socket
      → socket.socket_id ≡ some id
      → socket.email_count + length events < 2 ^ 64
      → Returns (app_run fnd events socket) (UnlessRaised (IsFresh fnd id))
  unfolding app_run
  app_run-IsFresh [] socket s f e room = f
  app_run-IsFresh (event ∷ events) socket s f e room =
      let P = λ (t : SmSocket). IsSound fnd t × IsNext socket t in
      Returns-bind (app_event fnd event socket) (unless_raised (app_run fnd events))
        (UnlessRaised P) (UnlessRaised (IsFresh fnd id))
        (both_lem (app_event fnd event socket) (IsSound fnd) (IsNext socket)
          (event-IsSound fnd counts event socket s)
          (app_event-IsNext event socket s f e (omega (arith, room))))
        (unless_raised-Returns (app_run fnd events) P (IsFresh fnd id) (λ t (s', n).
          app_run-IsFresh events t s' n.fresh (n.socket_id_eq ∙ e)
            (omega (arith, room, n.count_le))))
