-- ===== src/App/Search/Found.antt =====
-- What `emailsForAddress:withBlock:` of Spamass/Spamass/SMAppDelegate.m finds of the mails that
-- `handleEmailWithSocket:` has put into the database.
use spamass.App.Email.{Email}
use spamass.App.Search.Entries.{
  StoredMail, IsReadable, entries_of, all_entries, as_email, Differ, Chain, Ends, other_lem,
}
use spamass.App.Search.Keys.{IsPart, key_of, step_lem, stop_lem, same_bytes_refl}
use spamass.App.Search.{
  found_email, email_or, is_other, put_value, end_search, hand_over, email_left, search,
  emails_for_address,
}
use spamass.App.{Foundation}
use spamass.Base.{
  ℕ, ◌≡◌, refl, ap, ◌∙◌, Bool, true, false, Option, none, some, List, [], ◌∷◌, ◌++◌, map, Bytes,
  codes, All, arith,
}

module _ {State : Type 0} (handler : Option Email → State → State × Bool) where
  -- The block is given one mail after the other, and then nil.
  abbrev pub tell_all : List Email → State → State
  tell_all [] s = (handler none s).0
  tell_all (email ∷ emails) s = tell_all emails (handler (some email) s).0

module _ (fnd : Foundation) {State : Type 0} (handler : Option Email → State → State × Bool)
    (address : Bytes) (a : IsPart address) where
  own_step :
      (id serial field value : Bytes) (entries : List (Bytes × Bytes)) (email : Email) (s : State)
      → IsPart id
      → IsPart serial
      → IsPart field
      → email.socket_id ≡ some id
      → email.serial ≡ serial
      → search fnd handler address
          ((key_of address id serial field, value) ∷ entries)
          (some email)
          s
        ≡ search fnd handler address entries (some (put_value fnd field value email)) s
  own_step id serial field value entries email s i r f p q =
      let same : is_other (some email) id serial ≡ false =
        rw (p, q, same_bytes_refl id, same_bytes_refl serial) refl in
      step_lem fnd handler address a id serial field value entries (some email) s i r f
        (rw same refl)
      ∙ rw same refl

  mail_lem :
      (m : StoredMail) (entries : List (Bytes × Bytes)) (found : Option Email) (s s' : State)
      → IsReadable fnd m
      → email_or
          (email_left (is_other found m.id m.serial) found)
          (found_email address m.id m.serial)
        ≡ found_email address m.id m.serial
      → hand_over handler (is_other found m.id m.serial) found s ≡ (s', true)
      → search fnd handler address (entries_of fnd address m ++ entries) found s
        ≡ search fnd handler address entries (some (as_email address m)) s'
  unfolding put_value
  mail_lem m entries found s s' h fresh go =
      let own =
        λ (field value : Bytes) (rest : List (Bytes × Bytes)) (email : Email) (f : IsPart field)
            (p : email.socket_id ≡ some m.id) (q : email.serial ≡ m.serial).
          own_step m.id m.serial field value rest email s' h.id_part h.serial_part f p q in
      let subject = put_value fnd (codes "subject") m.subject (found_email address m.id m.serial) in
      let size = put_value fnd (codes "size") (fnd.number m.size) subject in
      let last = (key_of address m.id m.serial (codes "sender"), m.sender) ∷ entries in
      step_lem fnd handler address a m.id m.serial (codes "subject") m.subject
        ((key_of address m.id m.serial (codes "size"), fnd.number m.size) ∷ last) found s h.id_part
        h.serial_part (omega arith) (ap (λ r. r.1) go)
      ∙ ap
          (λ e.
            search fnd handler address
              ((key_of address m.id m.serial (codes "size"), fnd.number m.size) ∷ last)
              (some (put_value fnd (codes "subject") m.subject e))
              (hand_over handler (is_other found m.id m.serial) found s).0)
          fresh
      ∙ ap
          (λ r.
            search fnd handler address
              ((key_of address m.id m.serial (codes "size"), fnd.number m.size) ∷ last)
              (some subject) r.0)
          go
      ∙ own (codes "size") (fnd.number m.size) last subject (omega arith) refl refl
      ∙ own (codes "sender") m.sender entries size (omega arith) refl refl
      ∙ ap
          (λ (n : ℕ).
            search fnd handler address entries
              (some (record (as_email address m) { data_size = n })) s')
          h.size_back

  end_lem :
      (rest : List (Bytes × Bytes)) (found : Option Email) (s : State)
      → Ends address rest
      → search fnd handler address rest found s ≡ end_search handler found s
  unfolding search
  end_lem [] found s e = refl
  end_lem ((key, value) ∷ rest) found s e = rw e refl

  -- If the block asks to stop at the first of several mails of an address, each with the parts of a
  -- key in its id and its serial, it is given that mail a second time, and then nil.
  pub emails_for_address_stopped :
      (m n : StoredMail) (ms : List StoredMail) (rest : List (Bytes × Bytes)) (s : State)
      → Differ m n
      → IsReadable fnd m
      → IsReadable fnd n
      → (handler (some (as_email address m)) s).1 ≡ false
      → emails_for_address fnd handler address
          (some (all_entries fnd address (m ∷ n ∷ ms) ++ rest))
          s
        ≡ tell_all handler (as_email address m ∷ as_email address m ∷ []) s
  unfolding emails_for_address
  emails_for_address_stopped m n ms rest s d h k stop =
      let other = other_lem m n address d in
      let behind =
        (key_of address n.id n.serial (codes "size"), fnd.number n.size)
        ∷ (key_of address n.id n.serial (codes "sender"), n.sender)
        ∷ (all_entries fnd address ms ++ rest) in
      mail_lem m (all_entries fnd address (n ∷ ms) ++ rest) none s s h refl refl
      ∙ stop_lem fnd handler address a n.id n.serial (codes "subject") n.subject behind
          (some (as_email address m)) s k.id_part k.serial_part (omega arith) (rw other stop)
      ∙ rw other refl

  module _ (goes_on : (email : Email) (s : State) → (handler (some email) s).1 ≡ true) where
    goes_lem :
        (email : Email) (s : State) → handler (some email) s ≡ ((handler (some email) s).0, true)
    goes_lem email s = ap (λ b. ((handler (some email) s).0, b)) (goes_on email s)

    chain_lem :
        (m : StoredMail) (ms : List StoredMail) (rest : List (Bytes × Bytes)) (s : State)
        → Chain (m ∷ ms)
        → All (IsReadable fnd) ms
        → Ends address rest
        → search fnd handler address
            (all_entries fnd address ms ++ rest)
            (some (as_email address m))
            s
          ≡ tell_all handler (map (as_email address) (m ∷ ms)) s
    chain_lem m [] rest s c h e = end_lem rest (some (as_email address m)) s e
    chain_lem m (n ∷ ms) rest s (d, c) (h, hs) e =
        let other = other_lem m n address d in
        let told = (handler (some (as_email address m)) s).0 in
        mail_lem n (all_entries fnd address ms ++ rest) (some (as_email address m)) s told h
          (rw other refl) (rw other (goes_lem (as_email address m) s))
        ∙ chain_lem n ms rest told c hs e

    -- The search for an address without an underscore over the entries of its mails, from the last on,
    -- with a block that never asks to stop: the block is given each mail once, in the order of the
    -- entries, with the id, the serial, the sender, the subject and the size that it was stored with,
    -- and then nil. Mails that follow one another must differ in their ids or serials, in neither of
    -- which there may be an underscore; their sizes must be read back as they were written, and behind
    -- them there must be no key that begins with the address.
    pub emails_for_address-tell_all :
        (ms : List StoredMail) (rest : List (Bytes × Bytes)) (s : State)
        → Chain ms
        → All (IsReadable fnd) ms
        → Ends address rest
        → emails_for_address fnd handler address (some (all_entries fnd address ms ++ rest)) s
          ≡ tell_all handler (map (as_email address) ms) s
    unfolding emails_for_address
    emails_for_address-tell_all [] rest s c h e = end_lem rest none s e
    emails_for_address-tell_all (m ∷ ms) rest s c (h, hs) e =
        mail_lem m (all_entries fnd address ms ++ rest) none s s h refl refl
        ∙ chain_lem m ms rest s c hs e
