-- ===== src/Recording/Path.antt =====
-- The path of a record file: what `emailz_socket_record_open` of libEmailz/src/emailz.c makes, and
-- how much room it needs.
use spamass.Base.{
  ℕ, ◌+◌, ◌-◌, ◌≤◌, ◌<◌, ◌≡◌, ◌≢◌, refl, ap, subst, ◌∙◌, List, [], ◌∷◌, ◌++◌, append_assoc,
  append-nil, Bytes, codes, length, length-append, length-take, length-drop, take, drop, replicate,
  c_string, All-take, All-drop, arith, ok, out_of_bounds,
}
use spamass.Dispatch.Contents.{take-append, drop-append}
use spamass.Cursor.{put, puts, terminate}
use spamass.Recording.Steps.{
  HasNoNul, c_string-zeros, at, at_eq, no_dirs, Makes, next-Makes, then-Makes, puts-Makes,
  put-Makes, terminate-Makes, make-Makes,
}
use spamass.Recording.{Maker, copy, directory, make_path}

pub Makes-eq :
    {f : Maker} {bs cs : Bytes} {n k : ℕ} {dirs : Bytes → List Bytes}
    → Makes f bs n dirs
    → bs ≡ cs
    → n ≡ k
    → Makes f cs k dirs
Makes-eq {f} {bs} {cs} {n} {k} {dirs} p e q =
    subst (λ m. Makes f cs m dirs) q (subst (λ xs. Makes f xs n dirs) e p)

pub copy-Makes : (text : Bytes) → HasNoNul text → Makes (copy text) text (length text + 1) no_dirs
copy-Makes text h =
    Makes-eq (then-Makes (puts text) terminate (next-Makes (puts-Makes text h) terminate-Makes))
      (append-nil text) (omega arith)

-- A part of the name with its slash.
abbrev pub slashed : Bytes → Bytes
slashed part = part ++ b'/' ∷ []

pub directory-Makes :
    (part : Bytes)
    → HasNoNul part
    → Makes
        (directory part)
        (slashed part)
        (length part + 1)
        (λ before. (before ++ slashed part) ∷ [])
directory-Makes part h =
    Makes-eq
      (next-Makes
        (then-Makes (puts part) (put b'/')
          (next-Makes (puts-Makes part h) (put-Makes b'/' (λ e. omega arith))))
        make-Makes)
      (append-nil (slashed part)) (omega (arith, length-append part (b'/' ∷ [])))

part_of :
    (i n : ℕ) (text : Bytes) (r : ℕ)
    → i + n ≤ length text
    → take n (drop i (text ++ replicate r 0)) ≡ take n (drop i text)
part_of i n text r h =
    let zeros = replicate {A = ℕ} r 0 in
    let none_left : i - length text ≡ 0 = omega arith in
    let none_more : n - length (drop i text) ≡ 0 = omega (arith, length-drop i text) in
    rw (
      drop-append i text zeros,
      none_left,
      take-append n (drop i text) zeros,
      none_more,
      append-nil,
    )

-- The directories, each under the one before it.
abbrev pub nested : Bytes → List Bytes → List Bytes
nested base [] = []
nested base (part ∷ parts) = (base ++ slashed part) ∷ nested (base ++ slashed part) parts

-- yyyy, mm, dd, hh, mm and ss.
abbrev pub parts_of : Bytes → List Bytes
parts_of name =
    take 4 name
    ∷ take 2 (drop 4 name)
    ∷ take 2 (drop 6 name)
    ∷ take 2 (drop 8 name)
    ∷ take 2 (drop 10 name)
    ∷ take 2 (drop 12 name)
    ∷ []

abbrev pub joined : List Bytes → Bytes
joined [] = []
joined (part ∷ parts) = slashed part ++ joined parts

-- The whole path.
abbrev pub path_of : Bytes → Bytes → Bytes
path_of base name = base ++ (joined (parts_of name) ++ (name ++ codes ".socket"))

module _ (base name : Bytes) (r : ℕ) (b : HasNoNul base) (n : HasNoNul name)
    (long : 14 ≤ length name) where
  directory_part :
      (i k : ℕ)
      → i + k ≤ length name
      → Makes
          (directory (take k (drop i (name ++ replicate r 0))))
          (slashed (take k (drop i name)))
          (k + 1)
          (λ before. (before ++ slashed (take k (drop i name))) ∷ [])
  directory_part i k h = rw (part_of i k name r h) (
      Makes-eq
        (directory-Makes (take k (drop i name))
          (All-take (λ b. b ≢ 0) k (drop i name) (All-drop (λ b. b ≢ 0) i name n)))
        refl (omega (arith, length-take k (drop i name), length-drop i name)))

  copy-name-Makes : Makes (copy (c_string (name ++ replicate r 0))) name (length name + 1) no_dirs
  copy-name-Makes = rw (c_string-zeros name r n) (copy-Makes name n)

  length-parts :
      (length (take 4 name) ≡ 4)
      × (length (take 2 (drop 4 name)) ≡ 2)
      × (length (take 2 (drop 6 name)) ≡ 2)
      × (length (take 2 (drop 8 name)) ≡ 2)
      × (length (take 2 (drop 10 name)) ≡ 2)
      × (length (take 2 (drop 12 name)) ≡ 2)
  length-parts = (
    omega (arith, length-take 4 name),
    omega (arith, length-take 2 (drop 4 name), length-drop 4 name),
    omega (arith, length-take 2 (drop 6 name), length-drop 6 name),
    omega (arith, length-take 2 (drop 8 name), length-drop 8 name),
    omega (arith, length-take 2 (drop 10 name), length-drop 10 name),
    omega (arith, length-take 2 (drop 12 name), length-drop 12 name),
  )

  -- The bytes of the path without its terminator.
  abbrev pub path_text : Bytes
  path_text =
      (base ++ [])
      ++ (slashed (take 4 name)
          ++ (slashed (take 2 (drop 4 name))
              ++ (slashed (take 2 (drop 6 name))
                  ++ (slashed (take 2 (drop 8 name))
                      ++ (slashed (take 2 (drop 10 name))
                          ++ (slashed (take 2 (drop 12 name)) ++ (name ++ codes ".socket")))))))

  make_path-Makes :
      Makes
        (make_path base (name ++ replicate r 0))
        path_text
        (length base + length name + 28)
        (λ before. (before ++ base) ∷ nested (before ++ (base ++ [])) (parts_of name))
  unfolding make_path
  make_path-Makes =
      Makes-eq
        (next-Makes (next-Makes (copy-Makes base b) make-Makes) (
          next-Makes (directory_part 0 4 (omega arith)) (
            next-Makes (directory_part 4 2 (omega arith)) (
              next-Makes (directory_part 6 2 (omega arith)) (
                next-Makes (directory_part 8 2 (omega arith)) (
                  next-Makes (directory_part 10 2 (omega arith)) (
                    next-Makes (directory_part 12 2 (omega arith)) (
                      next-Makes copy-name-Makes
                        (copy-Makes (codes ".socket") (omega arith))))))))))
        refl
        (omega (
          arith,
          length-parts,
          ap length (append-nil base),
          length-append (take 4 name) (b'/' ∷ []),
          length-append (take 2 (drop 4 name)) (b'/' ∷ []),
          length-append (take 2 (drop 6 name)) (b'/' ∷ []),
          length-append (take 2 (drop 8 name)) (b'/' ∷ []),
          length-append (take 2 (drop 10 name)) (b'/' ∷ []),
          length-append (take 2 (drop 12 name)) (b'/' ∷ []),
        ))

  path_text_lem : path_text ≡ path_of base name
  path_text_lem = simp (append-nil, append_assoc)

  pub path_of-HasNoNul : HasNoNul (path_of base name)
  path_of-HasNoNul = subst HasNoNul path_text_lem make_path-Makes.no_nul

  -- In an array of zeros, a path of a base directory and a name of at least 14 bytes is made of the
  -- base, the six directories of the date and the name with `.socket`, and each directory is made
  -- under the one before it, if the array has room for 28 bytes more than base and name together.
  pub make_path-path_of :
      (size : ℕ)
      → length base + length name + 28 ≤ size
      → make_path base (name ++ replicate r 0) (at [] size [])
        ≡ ok (
            at
              (path_of base name)
              (size - length (path_of base name))
              (base ∷ nested base (parts_of name)))
  make_path-path_of size enough =
      make_path-Makes.room [] size [] tt enough
      ∙ at_eq path_text_lem (ap (λ (bs : Bytes). size - length bs) path_text_lem)
          (ap (λ (bs : Bytes). base ∷ nested bs (parts_of name)) (append-nil base))

  -- With less room the code writes behind the end of the array.
  pub make_path-out_of_bounds :
      (size : ℕ)
      → size < length base + length name + 28
      → make_path base (name ++ replicate r 0) (at [] size []) ≡ out_of_bounds
  make_path-out_of_bounds size short = make_path-Makes.no_room [] size [] tt short
