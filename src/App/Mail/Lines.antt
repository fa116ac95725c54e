-- ===== src/App/Mail/Lines.antt =====
-- What `handleData:` of Spamass/Spamass/SMAppDelegate.m does with a line, and on which it raises.
use spamass.App.Email.{
  Header, one, many, Email, Result, returned, raised, find_header, set_header, extend_header,
  store_header, colon_field, field_of, put_field, is_blank, handle_header,
}
use spamass.App.Mail.{SmSocket, sized, data_email}
use spamass.App.{Foundation}
use spamass.Base.{
  ℕ, ◌+◌, ◌%◌, ◌^◌, ◌≡◌, ◌↔◌, refl, ap, Bool, true, false, Option, none, some, List, [], ◌∷◌, ◌++◌,
  Bytes, if◌then◌else◌,
}

-- A header with a single value.
abbrev pub is_single : Option Header → Bool
is_single none = false
is_single (some (one value)) = true
is_single (some (many values)) = false

-- Whether the last header has a single value.
abbrev pub continues : Option Bytes → List (Bytes × Header) → Bool
continues none headers = false
continues (some name) headers = is_single (find_header name headers)

-- A mail that only its headers tell apart from another.
pub record SameMail (before after : Email) : Type 0 where
  pub sender_eq : after.sender ≡ before.sender
  pub recipients_eq : after.recipients ≡ before.recipients
  pub socket_id_eq : after.socket_id ≡ before.socket_id
  pub serial_eq : after.serial ≡ before.serial
  pub data_size_eq : after.data_size ≡ before.data_size
  pub content_eq : after.content ≡ before.content

-- A line behind the mail, and its size counted.
pub record IsAppended (fnd : Foundation) (line bytes : Bytes) (before : Email) (socket : SmSocket)
    (r : Result SmSocket) : Type 0 where
  pub after : Email
  pub returned_eq : r ≡ returned (record socket { email = some after })
  pub sender_eq : after.sender ≡ before.sender
  pub recipients_eq : after.recipients ≡ before.recipients
  pub socket_id_eq : after.socket_id ≡ before.socket_id
  pub serial_eq : after.serial ≡ before.serial
  pub content_eq : after.content ≡ before.content ++ bytes
  pub size_eq : after.data_size ≡ (before.data_size + fnd.units line) % 2 ^ 64

pub same_mail :
    (email : Email) (headers : List (Bytes × Header)) (last : Option Bytes) (inside : Bool)
    → SameMail email
        (record email { headers = headers; last_header = last; is_in_headers = inside })
same_mail email headers last inside = record {
  sender_eq = refl;
  recipients_eq = refl;
  socket_id_eq = refl;
  serial_eq = refl;
  data_size_eq = refl;
  content_eq = refl;
}

-- What holds of the mail that is returned.
abbrev pub Returned : (Email → Type 0) → Result Email → Type 0
Returned P raised = ⊥
Returned P (returned email) = P email

pub same_headers :
    (name : Bytes) (header : Header) (email : Email)
    → Returned (SameMail email) (store_header name (some header) email)
same_headers name header email =
    same_mail email (set_header name header email.headers) (some name) email.is_in_headers

left_headers :
    (email : Email) → Returned (SameMail email) (returned (record email { is_in_headers = false }))
left_headers email = same_mail email email.headers email.last_header false

store-SameMail :
    (name : Bytes) (old : Option Header) (value : Bytes) (email : Email)
    → Returned (SameMail email) (store_header name (extend_header old (some value)) email)
unfolding extend_header
store-SameMail name none value email = same_headers name (one value) email
store-SameMail name (some (one old)) value email = same_headers name (many (old ∷ value ∷ [])) email
store-SameMail name (some (many olds)) value email =
    same_headers name (many (olds ++ value ∷ [])) email

module _ (fnd : Foundation) where
  colon-SameMail :
      (found : Option (Bytes × Bytes)) (email : Email)
      → Returned (SameMail email) (put_field fnd (colon_field fnd found) email)
  unfolding colon_field
  colon-SameMail none email = left_headers email
  colon-SameMail (some (name, value)) email =
      let key = fnd.lowercase (fnd.trim name) in
      store-SameMail key (find_header key email.headers) (fnd.trim_lines value) email

  white-SameMail :
      (b : Bool) (name line : Bytes) (found : Option (Bytes × Bytes)) (email : Email)
      → Returned
          (SameMail email)
          (put_field fnd (if b then some (some name, some line) else colon_field fnd found) email)
  white-SameMail true name line found email =
      store-SameMail name (find_header name email.headers) (fnd.trim_lines line) email
  white-SameMail false name line found email = colon-SameMail found email

  field-SameMail :
      (last : Option Bytes) (line : Bytes) (email : Email)
      → Returned (SameMail email) (put_field fnd (field_of fnd last (some line)) email)
  unfolding field_of
  field-SameMail none line email = colon-SameMail (fnd.colon line) email
  field-SameMail (some name) line email =
      white-SameMail (fnd.starts_white line) name line (fnd.colon line) email

  if-Returned :
      (P : Email → Type 0) (b : Bool) (x y : Result Email)
      → Returned P x
      → Returned P y
      → Returned P (if b then x else y)
  if-Returned P true x y p q = p
  if-Returned P false x y p q = q

  pub handle_header-SameMail :
      (line : Bytes) (email : Email)
      → Returned (SameMail email) (handle_header fnd (some line) email)
  unfolding handle_header
  handle_header-SameMail line email =
      if-Returned (SameMail email) (is_blank fnd (some line))
        (returned (record email { is_in_headers = false }))
        (put_field fnd (field_of fnd email.last_header (some line)) email) (left_headers email)
        (field-SameMail email.last_header line email)

  sized_raised :
      (arg : Option Bytes) (socket : SmSocket) (r : Result Email)
      → (sized fnd arg socket r ≡ raised) ↔ (r ≡ raised)
  sized_raised arg socket raised = ((λ e. refl), (λ e. refl))
  sized_raised arg socket (returned email) = (cc, cc)

  nil_raised :
      (name : Bytes) (old : Option Header) (email : Email)
      → (store_header name (extend_header old none) email ≡ raised) ↔ (is_single old ≡ false)
  unfolding extend_header
  nil_raised name none email = ((λ e. refl), (λ e. refl))
  nil_raised name (some (one old)) email = (cc, cc)
  nil_raised name (some (many olds)) email = ((λ e. refl), (λ e. refl))

  field_raised :
      (last : Option Bytes) (email : Email)
      → (put_field fnd (field_of fnd last none) email ≡ raised)
        ↔ (continues last email.headers ≡ false)
  unfolding field_of
  field_raised none email = ((λ e. refl), (λ e. refl))
  field_raised (some name) email = nil_raised name (find_header name email.headers) email

  not_raised : (P : Email → Type 0) (r : Result Email) → Returned P r → r ≡ raised → ⊥
  not_raised P raised p e = p
  not_raised P (returned email) p e = cc

  line_raised :
      (arg : Option Bytes) (inside : Bool) (email : Email) (socket : SmSocket)
      → (sized fnd arg socket (if inside then handle_header fnd arg email else returned email)
          ≡ raised)
        ↔ ((arg ≡ none) × ((inside ≡ true) × (continues email.last_header email.headers ≡ false)))
  unfolding handle_header
  line_raised (some line) true email socket = (
    (λ e. absurd (
        not_raised (SameMail email) _ (handle_header-SameMail line email)
          ((sized_raised (some line) socket _).0 e))),
    (λ h. cc),
  )
  line_raised arg false email socket = (cc, (λ h. cc))
  line_raised none true email socket = (
    (λ e. (
      refl,
      (refl, (field_raised email.last_header email).0 ((sized_raised none socket _).0 e)),
    )),
    (λ h. (sized_raised none socket _).1 ((field_raised email.last_header email).1 h.1.1)),
  )

  sized-IsAppended :
      (line bytes : Bytes) (email : Email) (socket : SmSocket) (r : Result Email)
      → Returned (SameMail (record email { content = email.content ++ bytes })) r
      → IsAppended fnd line bytes email socket (sized fnd (some line) socket r)
  sized-IsAppended line bytes email socket raised p = absurd p
  sized-IsAppended line bytes email socket (returned after) p = record {
    after = record after { data_size = (after.data_size + fnd.units line) % 2 ^ 64 };
    returned_eq = refl;
    sender_eq = p.sender_eq;
    recipients_eq = p.recipients_eq;
    socket_id_eq = p.socket_id_eq;
    serial_eq = p.serial_eq;
    content_eq = p.content_eq;
    size_eq = ap (λ (n : ℕ). (n + fnd.units line) % 2 ^ 64) p.data_size_eq;
  }

  -- A line raises an exception exactly if it is not in UTF-8 while the headers last, and there is no
  -- last header with a single value.
  pub data_email-raised :
      (bytes : Bytes) (email : Email) (socket : SmSocket)
      → (data_email fnd bytes (some email) socket ≡ raised) ↔ (
          (fnd.string bytes ≡ none)
          × ((email.is_in_headers ≡ true) × (continues email.last_header email.headers ≡ false)))
  unfolding data_email
  data_email-raised bytes email socket =
      line_raised (fnd.string bytes) email.is_in_headers
        (record email { content = email.content ++ bytes }) socket

  line-IsAppended :
      (line bytes : Bytes) (inside : Bool) (email : Email) (socket : SmSocket)
      → IsAppended fnd line bytes email socket (
          sized fnd (some line) socket (
            if inside
            then handle_header fnd (some line) (record email { content = email.content ++ bytes })
            else returned (record email { content = email.content ++ bytes })))
  line-IsAppended line bytes inside email socket =
      let appended = record email { content = email.content ++ bytes } in
      sized-IsAppended line bytes email socket _ (
        if-Returned (SameMail appended) inside (handle_header fnd (some line) appended)
          (returned appended) (handle_header-SameMail line appended)
          (same_mail appended appended.headers appended.last_header email.is_in_headers))

  -- A line in UTF-8 raises nothing: its bytes are put behind the mail, its units are counted, and but
  -- for the headers nothing else changes.
  pub data_email-IsAppended :
      (line bytes : Bytes) (email : Email) (socket : SmSocket)
      → fnd.string bytes ≡ some line
      → IsAppended fnd line bytes email socket (data_email fnd bytes (some email) socket)
  unfolding data_email
  data_email-IsAppended line bytes email socket utf8 =
      rw utf8 (line-IsAppended line bytes email.is_in_headers email socket)
