-- ===== src/App/Mail/Fresh.antt =====
-- No mail is written over another one of its connection: the numbers that `setEmail:` of
-- Spamass/Spamass/SMSocket.m counts, and the files that Spamass/Spamass/SMAppDelegate.m names after
-- them.
use spamass.App.Email.{Email}
use spamass.App.Mail.{AppCall, db_put, make_directory, write_file, SmSocket, file_calls}
use spamass.App.Path.Accepted.{IsMailPath}
use spamass.App.Path.Steps.{email_path_of}
use spamass.App.Path.{record_dir}
use spamass.App.{Foundation}
use spamass.Base.{
  ℕ, ◌+◌, ◌≤◌, ◌<◌, ◌≡◌, ◌≢◌, ◌⊎◌, inl, inr, refl, sym, ap, ◌∙◌, true, Option, none, some, List, [],
  ◌∷◌, ◌++◌, append_assoc, append-nil, map, Bytes, codes, All, All-append, length, take, drop,
  take-length-append, drop-length-append, arith,
}
use spamass.Recording.Path.{joined, parts_of}

-- The files that are written, in their order.
abbrev pub written : List AppCall → List Bytes
written [] = []
written (write_file path content ∷ calls) = path ∷ written calls
written (_ ∷ calls) = written calls

pub written-append : (xs ys : List AppCall) → written (xs ++ ys) ≡ written xs ++ written ys
written-append [] ys = refl
written-append (write_file path content ∷ xs) ys = ap (λ ps. path ∷ ps) (written-append xs ys)
written-append (make_directory dir ∷ xs) ys = written-append xs ys
written-append (db_put key value ∷ xs) ys = written-append xs ys

pub written_dirs :
    (dirs : List Bytes) (calls : List AppCall)
    → written (map make_directory dirs ++ calls) ≡ written calls
written_dirs [] calls = refl
written_dirs (dir ∷ dirs) calls = written_dirs dirs calls

abbrev pub Distinct : List Bytes → Type 0
Distinct [] = Unit
Distinct (path ∷ paths) = All (λ other. path ≢ other) paths × Distinct paths

All-last :
    (path last : Bytes) (paths : List Bytes)
    → All (λ other. path ≢ other) paths
    → path ≢ last
    → All (λ other. path ≢ other) (paths ++ last ∷ [])
All-last path last [] h p = (p, tt)
All-last path last (other ∷ paths) (h, hs) p = (h, All-last path last paths hs p)

Distinct-last :
    (last : Bytes) (paths : List Bytes)
    → Distinct paths
    → All (λ other. other ≢ last) paths
    → Distinct (paths ++ last ∷ [])
Distinct-last last [] d h = (tt, tt)
Distinct-last last (path ∷ paths) (d, ds) (h, hs) =
    (All-last path last paths d h, Distinct-last last paths ds hs)

-- The file of a mail with a number below `n`.
pub record IsNumbered (fnd : Foundation) (id : Bytes) (n : ℕ) (path : Bytes) : Type 0 where
  pub k : ℕ
  pub k_lt : k < n
  pub path_eq : path ≡ email_path_of id (fnd.padded k)
  pub six : length (fnd.padded k) ≡ 6

pub All-IsNumbered :
    (fnd : Foundation) (id : Bytes) (n m : ℕ) (paths : List Bytes)
    → n ≤ m
    → All (IsNumbered fnd id n) paths
    → All (IsNumbered fnd id m) paths
All-IsNumbered fnd id n m [] le h = tt
All-IsNumbered fnd id n m (path ∷ paths) le (h, hs) = (
  record { k = h.k; k_lt = omega (arith, le, h.k_lt); path_eq = h.path_eq; six = h.six },
  All-IsNumbered fnd id n m paths le hs,
)

-- The path tells the serial.
email_path_of_inj :
    (id serial other : Bytes)
    → length serial ≡ 6
    → length other ≡ 6
    → email_path_of id serial ≡ email_path_of id other
    → serial ≡ other
email_path_of_inj id serial other six six' e =
    let front = record_dir ++ (joined (parts_of id) ++ (id ++ codes "__")) in
    let flat : (s : Bytes) → email_path_of id s ≡ front ++ (s ++ codes ".email") =
      λ s. simp append_assoc in
    let email = codes ".email" in
    let rest : serial ++ email ≡ other ++ email =
      sym (drop-length-append front (serial ++ email))
      ∙ ap (drop (length front)) (sym (flat serial) ∙ e ∙ flat other)
      ∙ drop-length-append front (other ++ email) in
    let text : (s : Bytes) → length s ≡ 6 → take 6 (s ++ email) ≡ s =
      λ s p. ap (λ n. take n (s ++ email)) (sym p) ∙ take-length-append s email in
    sym (text serial six) ∙ ap (take 6) rest ∙ text other six'

-- The next number that a mail can be stored under is not below this one.
abbrev pub bound : Option Email → ℕ → ℕ
bound none count = count + 1
bound (some email) count = count

-- The files that have been written are of this connection, of lower numbers, and all different.
pub record IsFresh (fnd : Foundation) (id : Bytes) (socket : SmSocket) : Type 0 where
  pub below : All (IsNumbered fnd id (bound socket.email socket.email_count)) (written socket.calls)
  pub distinct : Distinct (written socket.calls)

module _ (fnd : Foundation) (id : Bytes)
    (injective : (m n : ℕ) → fnd.padded m ≡ fnd.padded n → m ≡ n) where
  others_lem :
      (n : ℕ) (paths : List Bytes)
      → length (fnd.padded n) ≡ 6
      → All (IsNumbered fnd id n) paths
      → All (λ other. other ≢ email_path_of id (fnd.padded n)) paths
  others_lem n [] six h = tt
  others_lem n (path ∷ paths) six (h, hs) = (
    (λ e.
        let same : fnd.padded h.k ≡ fnd.padded n =
          email_path_of_inj id (fnd.padded h.k) (fnd.padded n) h.six six (sym h.path_eq ∙ e) in
        let equal : h.k ≡ n = injective h.k n same in omega (arith, h.k_lt, equal)),
    others_lem n paths six hs,
  )

  -- The end of the mail with number `n`, with or without a file.
  pub stored-IsFresh :
      (n : ℕ) (paths : List Bytes) (serial : Bytes) (content : Bytes)
      (r : Option Bytes × List Bytes)
      → serial ≡ fnd.padded n
      → (r ≡ (none, [])) ⊎ IsMailPath id serial true r
      → All (IsNumbered fnd id n) paths
      → Distinct paths
      → All (IsNumbered fnd id (n + 2)) (paths ++ written (file_calls r.0 content))
        × Distinct (paths ++ written (file_calls r.0 content))
  stored-IsFresh n paths serial content r e (inl none_given) h d =
      rw (none_given, append-nil paths) (All-IsNumbered fnd id n (n + 2) paths (omega arith) h, d)
  stored-IsFresh n paths serial content r e (inr p) h d =
      let six : length (fnd.padded n) ≡ 6 = ap length (sym e) ∙ p.serial_long in
      let path = email_path_of id (fnd.padded n) in
      let named : IsNumbered fnd id (n + 2) path = record {
        k = n;
        k_lt = omega arith;
        path_eq = refl;
        six = six;
      } in
      rw (p.path_eq, e)
        (
          All-append (IsNumbered fnd id (n + 2)) paths (path ∷ [])
              (All-IsNumbered fnd id n (n + 2) paths (omega arith) h) (named, tt),
          Distinct-last path paths d (others_lem n paths six h),
        )
