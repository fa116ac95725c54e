-- ===== src/App/Email.antt =====
-- A mail of the application: `SMEmail` of Spamass/Spamass/SMEmail.m, and what `handleData:` of
-- Spamass/Spamass/SMAppDelegate.m does to its headers.
use spamass.App.{Foundation}
use spamass.Base.{
  ℕ, Bool, true, false, Option, none, some, List, [], ◌∷◌, ◌++◌, Bytes, codes, ◌==◌, if◌then◌else◌,
}

-- A value of the dictionary: an `NSString`, or an `NSMutableArray` of them.
pub data Header : Type 0 where
  one : Bytes → Header
  many : List Bytes → Header

-- `SMEmail`, with its `data` as `content`; nil is `none`.
pub record Email : Type 0 where
  pub sender : Option Bytes
  pub recipients : List Bytes
  pub socket_id : Option Bytes
  pub serial : Bytes
  pub data_size : ℕ
  pub headers : List (Bytes × Header)
  pub last_header : Option Bytes
  pub is_in_headers : Bool
  pub content : Bytes

-- An exception of Foundation, which nothing catches.
pub data Result (A : Type 0) : Type 0 where
  returned : A → Result A
  raised : Result A

-- `[dictionary objectForKey:name]`.
abbrev pub same_bytes : Bytes → Bytes → Bool
same_bytes [] [] = true
same_bytes (x ∷ xs) (y ∷ ys) = if x == y then same_bytes xs ys else false
same_bytes _ _ = false

abbrev pub find_header : Bytes → List (Bytes × Header) → Option Header
find_header name [] = none
find_header name ((key, header) ∷ headers) =
    if same_bytes name key then some header else find_header name headers

-- `[dictionary setObject:header forKey:name]`.
abbrev pub set_header : Bytes → Header → List (Bytes × Header) → List (Bytes × Header)
set_header name header [] = (name, header) ∷ []
set_header name header ((key, old) ∷ headers) =
    if same_bytes name key
    then (key, header) ∷ headers
    else (key, old) ∷ set_header name header headers

-- The value of the header once a further value has been put to it; `none` is an exception, of nil in
-- a dictionary or in an array. Behind a nil `arrayWithObjects:` sees nothing.
unfoldable pub extend_header : Option Header → Option Bytes → Option Header
extend_header none none = none
extend_header none (some value) = some (one value)
extend_header (some (one old)) none = some (many (old ∷ []))
extend_header (some (one old)) (some value) = some (many (old ∷ value ∷ []))
extend_header (some (many olds)) none = none
extend_header (some (many olds)) (some value) = some (many (olds ++ value ∷ []))

abbrev pub store_header : Bytes → Option Header → Email → Result Email
store_header name none email = raised
store_header name (some header) email =
    returned
      (record email { last_header = some name; headers = set_header name header email.headers })

-- Of the key nil there is no value, and none can be set.
abbrev pub add_header : Option Bytes → Option Bytes → Email → Result Email
add_header none value email = raised
add_header (some name) value email =
    store_header name (extend_header (find_header name email.headers) value) email

-- The subject, with the values of an array joined.
abbrev pub joined_values : List Bytes → Bytes
joined_values [] = []
joined_values (value ∷ values) = value ++ joined_values values

abbrev pub header_text : Option Header → Option Bytes
header_text none = none
header_text (some (one value)) = some value
header_text (some (many values)) = some (joined_values values)

module _ (fnd : Foundation) where
  -- The name and the value that a line gives: its own behind a colon, or its text for the header
  -- before it if it starts with white space. Of nil every location is 0.
  unfoldable pub colon_field : Option (Bytes × Bytes) → Option (Option Bytes × Option Bytes)
  colon_field none = none
  colon_field (some (name, value)) = some (some (fnd.lowercase (fnd.trim name)), some value)

  unfoldable pub field_of : Option Bytes → Option Bytes → Option (Option Bytes × Option Bytes)
  unfolding colon_field
  field_of none none = some (none, none)
  field_of (some name) none = some (some name, none)
  field_of none (some line) = colon_field (fnd.colon line)
  field_of (some name) (some line) =
      if fnd.starts_white line then some (some name, some line) else colon_field (fnd.colon line)

  abbrev pub put_field : Option (Option Bytes × Option Bytes) → Email → Result Email
  put_field none email = returned (record email { is_in_headers = false })
  put_field (some (name, none)) email = add_header name none email
  put_field (some (name, some value)) email = add_header name (some (fnd.trim_lines value)) email

  abbrev pub is_blank : Option Bytes → Bool
  is_blank none = false
  is_blank (some line) = same_bytes line (codes "\r\n")

  -- What `handleData:` does while the mail is in its headers.
  unfoldable pub handle_header : Option Bytes → Email → Result Email
  unfolding field_of extend_header
  handle_header arg email =
      if is_blank arg
      then returned (record email { is_in_headers = false })
      else put_field (field_of email.last_header arg) email
