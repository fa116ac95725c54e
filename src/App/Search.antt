-- ===== src/App/Search.antt =====
-- `emailsForAddress:withBlock:` of Spamass/Spamass/SMAppDelegate.m: the mails of an address, from the
-- last on. The database's iterator is the list of what `prevKey` and `valueAsString` give in turn.
pub mod Keys
pub mod Entries
pub mod Found
use spamass.App.Email.{Header, one, Email, same_bytes, set_header}
use spamass.App.Mail.{prepend}
use spamass.App.{Foundation}
use spamass.Base.{
  ℕ, Bool, true, false, not, ◌&&◌, Option, none, some, List, [], ◌∷◌, Bytes, codes, starts_with,
  ◌==◌, if◌then◌else◌,
}

-- `componentsSeparatedByString:@"__"`; the flag says that an underscore has been seen which belongs
-- to no separator yet.
abbrev pub pending : Bool → List Bytes → List Bytes
pending true parts = prepend b'_' parts
pending false parts = parts

unfoldable pub split_key : Bool → Bytes → List Bytes
split_key seen [] = pending seen ([] ∷ [])
split_key true (b ∷ key) =
    if b == b'_' then [] ∷ split_key false key else prepend b'_' (prepend b (split_key false key))
split_key false (b ∷ key) =
    if b == b'_' then split_key true key else prepend b (split_key false key)

-- A new mail with the parts of its key.
abbrev pub found_email : Bytes → Bytes → Bytes → Email
found_email address id serial = record {
  sender = none;
  recipients = address ∷ [];
  socket_id = some id;
  serial = serial;
  data_size = 0;
  headers = [];
  last_header = none;
  is_in_headers = false;
  content = [];
}

-- The mail that is being put together, or a new one.
abbrev pub email_or : Option Email → Email → Email
email_or none email = email
email_or (some email) new = email

-- Whether it has another id or serial.
abbrev same_id : Option Bytes → Bytes → Bool
same_id none id = false
same_id (some old) id = same_bytes old id

abbrev pub is_other : Option Email → Bytes → Bytes → Bool
is_other none id serial = false
is_other (some email) id serial = not (same_id email.socket_id id && same_bytes email.serial serial)

-- A value under the last part of its key.
unfoldable pub put_value : Foundation → Bytes → Bytes → Email → Email
put_value fnd field value email =
    if same_bytes field (codes "sender")
    then record email { sender = some value }
    else if same_bytes field (codes "size")
    then record email { data_size = fnd.integer value }
    else record email { headers = set_header field (one value) email.headers }

abbrev pub email_left : Bool → Option Email → Option Email
email_left true found = none
email_left false found = found

module _ {State : Type 0} (handler : Option Email → State → State × Bool) where
  -- Behind the loop: the mail that is left, and nil.
  abbrev pub end_search : Option Email → State → State
  end_search none s = (handler none s).0
  end_search (some email) s = (handler none (handler (some email) s).0).0

  -- The mail that was put together is given to the block when a key of another comes; the flag says
  -- whether the loop goes on.
  abbrev pub hand_over : Bool → Option Email → State → State × Bool
  hand_over true (some email) s = handler (some email) s
  hand_over _ found s = (s, true)

module _ (fnd : Foundation) {State : Type 0} (handler : Option Email → State → State × Bool)
    (address : Bytes) where
  -- The loop.
  unfoldable pub search : List (Bytes × Bytes) → Option Email → State → State
  unfolding split_key put_value
  search [] found s = end_search handler found s
  search ((key, value) ∷ entries) found s =
      let next = λ (id serial field : Bytes).
        let other = is_other found id serial in
        let (s', go_on) = hand_over handler other found s in
        let email = email_or (email_left other found) (found_email address id serial) in
        let rest = search entries (some (put_value fnd field value email)) s' in
        if go_on then rest else end_search handler found s' in
      let visit : List Bytes → State = elim [
        | owner ∷ id ∷ serial ∷ field ∷ [] ↦
            if same_bytes owner address then next id serial field else end_search handler found s
        | _ ↦ end_search handler found s
      ] in
      if starts_with address key then visit (split_key false key) else end_search handler found s

  -- `none` is a failure of `seekToKey:`.
  unfoldable pub emails_for_address : Option (List (Bytes × Bytes)) → State → State
  unfolding search
  emails_for_address none s = (handler none s).0
  emails_for_address (some entries) s = search entries none s
