-- ===== src/Tests/Search.antt =====
-- The mails of an address in a database of which everything is known.
use spamass.Tests.App.{ascii, some_id, alice, bob}
use spamass.App.Email.{Email}
use spamass.App.Search.Entries.{StoredMail, IsReadable, Differ, all_entries, as_email}
use spamass.App.Search.Found.{tell_all, emails_for_address-tell_all, emails_for_address_stopped}
use spamass.App.Search.{emails_for_address}
use spamass.Base.{
  ◌≡◌, inr, ap, List, refl, Bool, true, false, Option, none, some, [], ◌∷◌, ◌++◌, codes, arith,
}
use spamass.Number.Decimal.{decimal, value}

abbrev first_mail : StoredMail
first_mail = record {
  id = some_id;
  serial = codes "000001";
  sender = alice;
  subject = codes "hi";
  size = 5;
}

abbrev third_mail : StoredMail
third_mail = record first_mail { serial = codes "000003"; size = 7 }

-- A block that collects the mails, and goes on or not.
abbrev gather : Bool → Option Email → List Email → List Email × Bool
gather more none found = (found, true)
gather more (some email) found = (found ++ email ∷ [], more)

first_mail-IsReadable : IsReadable ascii first_mail
unfolding decimal value
first_mail-IsReadable = record {
  id_part = omega arith;
  serial_part = omega arith;
  size_back = refl;
}

third_mail-IsReadable : IsReadable ascii third_mail
unfolding decimal value
third_mail-IsReadable = record {
  id_part = omega arith;
  serial_part = omega arith;
  size_back = refl;
}

other_serials : Differ third_mail first_mail
unfolding value
other_serials = inr (λ e. omega (arith, ap (value 0) e))

emails_for_address-tell_all_example :
    emails_for_address ascii
      (gather true)
      bob
      (some (all_entries ascii bob (third_mail ∷ first_mail ∷ []) ++ []))
      []
    ≡ tell_all (gather true) (as_email bob third_mail ∷ as_email bob first_mail ∷ []) []
emails_for_address-tell_all_example =
    emails_for_address-tell_all ascii (gather true) bob (omega arith) (λ email found. refl)
      (third_mail ∷ first_mail ∷ []) [] [] (other_serials, tt)
      (third_mail-IsReadable, (first_mail-IsReadable, tt)) tt

emails_for_address_stopped_example :
    emails_for_address ascii
      (gather false)
      bob
      (some (all_entries ascii bob (third_mail ∷ first_mail ∷ []) ++ []))
      []
    ≡ tell_all (gather false) (as_email bob third_mail ∷ as_email bob third_mail ∷ []) []
emails_for_address_stopped_example =
    emails_for_address_stopped ascii (gather false) bob (omega arith) third_mail first_mail [] [] []
      other_serials third_mail-IsReadable first_mail-IsReadable refl
