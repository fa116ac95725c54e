-- ===== src/App/Path/Accepted.antt =====
-- Which ids and serials `pathWithSocketId:serial:mkdir:` takes, and which file it gives.
use spamass.App.Path.Form.{IsPlain, IsDigit, has_form-whole, has_form-IsDigit}
use spamass.App.Path.Steps.{email_path_of, nested_if, email_path_of-HasNoNul, email_path_lem}
use spamass.App.Path.{has_form, id_form, serial_form, email_path, path_with_socket_id}
use spamass.App.{CountsUnits}
use spamass.Base.{
  ℕ, ◌-◌, ◌≡◌, ◌≢◌, ◌⊎◌, take, take_all, refl, Bool, Bool-cases, true, false, not, ◌||◌, Option,
  none, some, List, [], ◌∷◌, ◌++◌, Bytes, c_string, All, arith, length, replicate, inl, inr, ◌==◌,
  if◌then◌else◌, Outcome, ok, ◌>>=◌, Returns, Returns-map,
}
use spamass.Recording.Steps.{HasNoNul, c_string-zeros}

-- What is refused: another length, or another form.
abbrev pub IsRefused : (Bytes → ℕ) → Bytes → Bytes → Type 0
IsRefused units id serial =
    (units id ≢ 39)
    ⊎ ((units serial ≢ 6) ⊎ ((has_form id_form id ≡ false) ⊎ (has_form serial_form serial ≡ false)))

-- The file that is given, and the directories that have been made.
pub record IsMailPath (id serial : Bytes) (mkdir : Bool) (r : Option Bytes × List Bytes)
    : Type 0 where
  pub path_eq : r.0 ≡ some (email_path_of id serial)
  pub made_eq : r.1 ≡ nested_if mkdir id
  pub id_long : length id ≡ 39
  pub serial_long : length serial ≡ 6
  -- the date, which makes the directories, and the serial are of digits only
  pub date_digits : All IsDigit (take 17 id)
  pub serial_digits : All IsDigit serial
  pub id_plain : All IsPlain id
  pub serial_plain : All IsPlain serial

All-no_nul : (text : Bytes) → All IsPlain text → HasNoNul text
All-no_nul [] p = tt
All-no_nul (b ∷ text) (p, ps) = (p.1, All-no_nul text ps)

same_nat : (x y : ℕ) → (x == y) ≡ true → x ≡ y
same_nat x y e = ground (arith, e)

not_lem : (b : Bool) → not b ≡ false → b ≡ true
not_lem true e = refl
not_lem false e = cc

tested_false : (b : Bool) → not b ≡ true → b ≡ false
tested_false true e = cc
tested_false false e = refl

neither : (b c : Bool) → not b || not c ≡ false → (b ≡ true) × (c ≡ true)
neither true true e = (refl, refl)
neither true false e = cc
neither false c e = cc

module _ (units : Bytes → ℕ) (counts : CountsUnits units) (id serial : Bytes) (mkdir : Bool) where
  making_path : Outcome (Option Bytes × List Bytes)
  making_path = do
    m ←
        email_path mkdir id serial (units serial)
          (record { cursor = record { before = []; after = replicate 1000 0 }; made = [] })
    ok (some (c_string (m.cursor.before ++ m.cursor.after)), m.made)

  making_path-IsMailPath :
      units id ≡ 39
      → units serial ≡ 6
      → has_form id_form id ≡ true
      → has_form serial_form serial ≡ true
      → Returns making_path (IsMailPath id serial mkdir)
  unfolding making_path
  making_path-IsMailPath n k p q =
      let (wide, plain) = has_form-whole units id_form id counts (omega arith) p n in
      let (six, plain') = has_form-whole units serial_form serial counts (omega arith) q k in
      let same : units serial ≡ length serial = omega (arith, k, six) in
      let no_nul = All-no_nul id plain in
      let no_nul' = All-no_nul serial plain' in
      let file = email_path_of id serial in
      let text : (r : ℕ) → c_string (file ++ replicate r 0) ≡ file = λ r.
        c_string-zeros file r (email_path_of-HasNoNul mkdir id serial no_nul no_nul' wide six) in
      rw (same, email_path_lem mkdir id serial no_nul no_nul' wide six, text (1000 - length file))
        (record {
          path_eq = refl;
          made_eq = refl;
          id_long = wide;
          serial_long = six;
          date_digits = has_form-IsDigit 17 _ id p;
          serial_digits =
              rw (take_all 6 serial (omega (arith, six))) at (has_form-IsDigit 6 [] serial q);
          id_plain = plain;
          serial_plain = plain';
        })

  refused_lem :
      (b : Bool) (m : Outcome (Option Bytes × List Bytes)) (P : Option Bytes × List Bytes → Type 0)
      → (b ≡ true → P (none, []))
      → (b ≡ false → Returns m P)
      → Returns (if b then ok (none, []) else m) P
  refused_lem true m P p q = p refl
  refused_lem false m P p q = q refl

  long-IsRefused :
      (not (units id == 39) || not (units serial == 6)) ≡ true → IsRefused units id serial
  long-IsRefused e = elim (Bool-cases (units id == 39)) [
    | inr a ↦ inl (λ n. ground (arith, a, n))
    | inl a ↦ inr (inl (λ n. ground (arith, a, n, e)))
  ]

  -- Whatever strings a user gives, no byte is written outside the array. Either there is no path, and
  -- no directory is made, since the id has not 39 characters, the serial not 6, or one of them not its
  -- form; or the path is that of a mail under the directory for the records: the id has 39 bytes and
  -- begins with 17 digits, of which the directories below are made, the serial is 6 digits, neither
  -- holds a slash, and the directories are made if that is asked for.
  pub path_with_socket_id-IsMailPath :
      Returns
        (path_with_socket_id units id serial mkdir)
        (λ r. ((r ≡ (none, [])) × IsRefused units id serial) ⊎ IsMailPath id serial mkdir r)
  unfolding path_with_socket_id making_path
  path_with_socket_id-IsMailPath =
      let P = λ (r : Option Bytes × List Bytes).
        ((r ≡ (none, [])) × IsRefused units id serial) ⊎ IsMailPath id serial mkdir r in
      refused_lem (not (units id == 39) || not (units serial == 6)) _ P
        (λ e. inl (refl, long-IsRefused e))
        (λ e.
          let (n, k) = neither (units id == 39) (units serial == 6) e in
          refused_lem (not (has_form id_form id)) _ P
            (λ f. inl (refl, inr (inr (inl (tested_false (has_form id_form id) f)))))
            (λ f.
              refused_lem (not (has_form serial_form serial)) _ P
                (λ g. inl (refl, inr (inr (inr (tested_false (has_form serial_form serial) g)))))
                (λ g.
                  Returns-map making_path (IsMailPath id serial mkdir) P (λ r. inr)
                    (making_path-IsMailPath (same_nat (units id) 39 n) (same_nat (units serial) 6 k)
                      (not_lem (has_form id_form id) f)
                      (not_lem (has_form serial_form serial) g)))))

  -- The same, whatever is refused.
  pub path_with_socket_id_lem :
      Returns
        (path_with_socket_id units id serial mkdir)
        (λ r. (r ≡ (none, [])) ⊎ IsMailPath id serial mkdir r)
  path_with_socket_id_lem =
      Returns-map (path_with_socket_id units id serial mkdir) _
        (λ r. (r ≡ (none, [])) ⊎ IsMailPath id serial mkdir r)
        (λ r. elim [ inl p ↦ inl p.0 | inr p ↦ inr p ]) path_with_socket_id-IsMailPath

  pub path_lem :
      units id ≡ 39
      → units serial ≡ 6
      → has_form id_form id ≡ true
      → has_form serial_form serial ≡ true
      → Returns (path_with_socket_id units id serial mkdir) (IsMailPath id serial mkdir)
  unfolding path_with_socket_id making_path
  path_lem n k p q =
      let long : (units id == 39) ≡ true = ground arith in
      let wide : (units serial == 6) ≡ true = ground arith in
      rw (long, wide, p, q) (making_path-IsMailPath n k p q)
