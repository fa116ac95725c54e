-- ===== src/App/Path/Steps.antt =====
-- The steps of `pathWithSocketId:serial:mkdir:` that make the path.
use spamass.App.Path.{make_if, directory_if, copy_move, email_path, record_dir}
use spamass.Base.{
  ℕ, ◌+◌, ◌-◌, ◌≤◌, ◌≡◌, ◌≢◌, refl, sym, ap, subst, ◌∙◌, Bool, true, false, List, [], ◌∷◌, ◌++◌,
  append-nil, append_assoc, Bytes, codes, All-take, All-drop, arith, length, length-append,
  length-take, length-drop, take, drop, drop-length-append, take-length-append, replicate, Outcome,
  ok, out_of_bounds, out_of_fuel, ◌>>=◌,
}
use spamass.Cursor.{Cursor, puts, put, move, terminate, ◌then◌}
use spamass.Recording.Path.{
  Makes-eq, copy-Makes, directory-Makes, slashed, nested, joined, parts_of,
}
use spamass.Recording.Steps.{
  HasNoNul, at, at_eq, no_dirs, Makes, next-Makes, then-Makes, puts-Makes, put-Makes,
}
use spamass.Recording.{Making, writing}

-- A directory, if it is made.
abbrev pub made_if : Bool → Bytes → List Bytes
made_if true dir = dir ∷ []
made_if false dir = []

skip-Makes : Makes (make_if false) [] 0 no_dirs
skip-Makes = record {
  no_nul = tt;
  fits = omega arith;
  room = λ before r made n enough.
      at_eq (sym (append-nil before)) (omega arith) (sym (append-nil made));
  no_room = λ before r made n short. absurd (omega arith);
}

directory_if-Makes :
    (mkdir : Bool) (part : Bytes)
    → HasNoNul part
    → Makes
        (directory_if mkdir part)
        (slashed part)
        (length part + 1)
        (λ before. made_if mkdir (before ++ slashed part))
directory_if-Makes true part h = directory-Makes part h
directory_if-Makes false part h =
    Makes-eq
      (next-Makes
        (then-Makes (puts part) (put b'/')
          (next-Makes (puts-Makes part h) (put-Makes b'/' (λ e. omega arith))))
        skip-Makes)
      (append-nil (slashed part)) (omega (arith, length-append part (b'/' ∷ [])))

abbrev making : List Bytes → Cursor → Making
making made c = record { cursor = c; made = made }

writing_after :
    (m : Outcome Cursor) (k : Cursor → Cursor) (made : List Bytes)
    → ((m >>= λ q. ok (k q)) >>= λ c. ok (making made c))
      ≡ ((m >>= λ c. ok (making made c)) >>= λ l. ok (making l.made (k l.cursor)))
writing_after (ok q) k made = refl
writing_after out_of_bounds k made = refl
writing_after out_of_fuel k made = refl

-- The pointer moved by `n` from where the copy began.
abbrev moved : Bytes → ℕ → Cursor → Cursor
moved before n q =
    move n (record { before = before; after = drop (length before) (q.before ++ q.after) })

moved_lem :
    (before text zeros : Bytes)
    → moved before (length text) (record { before = before ++ text; after = zeros })
      ≡ record { before = before ++ text; after = zeros }
moved_lem before text zeros =
    let rest : drop (length before) ((before ++ text) ++ zeros) ≡ text ++ zeros =
      ap (drop (length before)) (append_assoc before text zeros)
      ∙ drop-length-append before (text ++ zeros) in
    λ i. record {
      before = before ++ (ap (take (length text)) rest ∙ take-length-append text zeros) i;
      after = (ap (drop (length text)) rest ∙ drop-length-append text zeros) i;
    }

copy_move-Makes :
    (text : Bytes)
    → HasNoNul text
    → Makes (writing (copy_move text (length text))) text (length text + 1) no_dirs
unfolding copy_move
copy_move-Makes text h =
    let c = copy-Makes text h in
    record {
      no_nul = h;
      fits = c.fits;
      room = λ before r made n enough.
          writing_after
            ((puts text then terminate) (record { before = before; after = replicate r 0 }))
            (moved before (length text)) made
          ∙ rw (c.room before r made n enough) (
              ap (λ q. ok (record { cursor = q; made = made ++ [] }))
                (moved_lem before text (replicate (r - length text) 0)));
      no_room = λ before r made n short.
          writing_after
            ((puts text then terminate) (record { before = before; after = replicate r 0 }))
            (moved before (length text)) made
          ∙ rw (c.no_room before r made n short) refl;
    }

-- The path of a mail's file.
abbrev pub email_path_of : Bytes → Bytes → Bytes
email_path_of id serial =
    record_dir ++ (joined (parts_of id) ++ (id ++ (codes "__" ++ (serial ++ codes ".email"))))

-- The directories under another, one under the other, if they are made.
abbrev nested_dirs : Bool → Bytes → List Bytes → List Bytes
nested_dirs mkdir dir [] = []
nested_dirs mkdir dir (part ∷ parts) =
    made_if mkdir (dir ++ slashed part) ++ nested_dirs mkdir (dir ++ slashed part) parts

-- The directories of an id.
abbrev pub nested_if : Bool → Bytes → List Bytes
nested_if true id = nested record_dir (parts_of id)
nested_if false id = []

nested_dirs_lem :
    (mkdir : Bool) (id : Bytes) → nested_dirs mkdir record_dir (parts_of id) ≡ nested_if mkdir id
nested_dirs_lem true id = refl
nested_dirs_lem false id = refl

module _ (mkdir : Bool) (id serial : Bytes) (n : HasNoNul id) (h : HasNoNul serial)
    (wide : length id ≡ 39) (six : length serial ≡ 6) where
  part-Makes :
      (i k : ℕ)
      → i + k ≤ 39
      → Makes
          (directory_if mkdir (take k (drop i id)))
          (slashed (take k (drop i id)))
          (k + 1)
          (λ before. made_if mkdir (before ++ slashed (take k (drop i id))))
  part-Makes i k fits =
      Makes-eq
        (directory_if-Makes mkdir (take k (drop i id))
          (All-take (λ b. b ≢ 0) k (drop i id) (All-drop (λ b. b ≢ 0) i id n)))
        refl (omega (arith, wide, length-take k (drop i id), length-drop i id))

  two-Makes : Makes (writing (put b'_' then put b'_')) (codes "__") 2 no_dirs
  two-Makes =
      then-Makes (put b'_') (put b'_')
        (next-Makes (put-Makes b'_' (λ e. omega arith)) (put-Makes b'_' (λ e. omega arith)))

  abbrev path_text : Bytes
  path_text =
      record_dir
      ++ (slashed (take 4 id)
          ++ (slashed (take 2 (drop 4 id))
              ++ (slashed (take 2 (drop 6 id))
                  ++ (slashed (take 2 (drop 8 id))
                      ++ (slashed (take 2 (drop 10 id))
                          ++ (slashed (take 2 (drop 12 id))
                              ++ (id ++ (codes "__" ++ (serial ++ codes ".email")))))))))

  path_text_lem : path_text ≡ email_path_of id serial
  path_text_lem = simp (append-nil, append_assoc)

  length-slashed : (i k : ℕ) → i + k ≤ 39 → length (slashed (take k (drop i id))) ≡ k + 1
  length-slashed i k fits = omega (
    arith,
    wide,
    length-take k (drop i id),
    length-drop i id,
    length-append (take k (drop i id)) (b'/' ∷ []),
  )

  email_path-Makes :
      Makes
        (email_path mkdir id serial (length serial))
        path_text
        105
        (λ before. nested_dirs mkdir (before ++ record_dir) (parts_of id))
  unfolding email_path
  email_path-Makes =
      Makes-eq
        (next-Makes (copy-Makes record_dir (omega arith)) (
          next-Makes (part-Makes 0 4 (omega arith)) (
            next-Makes (part-Makes 4 2 (omega arith)) (
              next-Makes (part-Makes 6 2 (omega arith)) (
                next-Makes (part-Makes 8 2 (omega arith)) (
                  next-Makes (part-Makes 10 2 (omega arith)) (
                    next-Makes (part-Makes 12 2 (omega arith)) (
                      next-Makes (copy-Makes id n) (
                        next-Makes two-Makes (
                          next-Makes (copy_move-Makes serial h)
                            (copy-Makes (codes ".email") (omega arith))))))))))))
        refl
        (omega (
          arith,
          wide,
          six,
          length-slashed 0 4 (omega arith),
          length-slashed 4 2 (omega arith),
          length-slashed 6 2 (omega arith),
          length-slashed 8 2 (omega arith),
          length-slashed 10 2 (omega arith),
          length-slashed 12 2 (omega arith),
        ))

  pub email_path_of-HasNoNul : HasNoNul (email_path_of id serial)
  email_path_of-HasNoNul = subst HasNoNul path_text_lem email_path-Makes.no_nul

  -- In an array of 1000 zeros.
  pub email_path_lem :
      email_path mkdir id serial (length serial) (at [] 1000 [])
      ≡ ok (
          at
            (email_path_of id serial)
            (1000 - length (email_path_of id serial))
            (nested_if mkdir id))
  email_path_lem =
      email_path-Makes.room [] 1000 [] tt (omega arith)
      ∙ at_eq path_text_lem (ap (λ (bs : Bytes). 1000 - length bs) path_text_lem)
          (nested_dirs_lem mkdir id)
