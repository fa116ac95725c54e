-- ===== src/Cursor.antt =====
-- A `char` array and a pointer into it, as libEmailz/src/emailz.c writes names and paths: through a
-- pointer that moves on.
pub mod Appends
use spamass.Base.{ℕ, List, [], ◌∷◌, ◌++◌, Bytes, take, drop, Outcome, ok, out_of_bounds, ◌>>=◌}

-- The bytes in front of the pointer, and those from the pointer to the end of the array.
pub record Cursor : Type 0 where
  pub before : Bytes
  pub after : Bytes

abbrev pub Writer : Type 0
Writer = Cursor → Outcome Cursor

-- `*ptr = c; ptr++`.
abbrev pub put_at : ℕ → Bytes → Bytes → Outcome Cursor
put_at c before [] = out_of_bounds
put_at c before (x ∷ after) = ok (record { before = before ++ c ∷ []; after = after })

unfoldable pub put : ℕ → Writer
put c p = put_at c p.before p.after

-- `ptr += n`.
abbrev pub move : ℕ → Cursor → Cursor
move n p = record { before = p.before ++ take n p.after; after = drop n p.after }

-- One writer, then the other.
infixr 6 ◌then◌
abbrev pub ◌then◌ : Writer → Writer → Writer
◌then◌ f g p = f p >>= g

-- Several bytes.
unfoldable pub puts : Bytes → Writer
unfolding put
puts [] p = ok p
puts (c ∷ cs) p = put c p >>= puts cs

-- `*ptr = '\0'`.
abbrev pub terminate_at : Bytes → Bytes → Outcome Cursor
terminate_at before [] = out_of_bounds
terminate_at before (x ∷ after) = ok (record { before = before; after = 0 ∷ after })

unfoldable pub terminate : Writer
terminate p = terminate_at p.before p.after
