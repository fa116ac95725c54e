-- ===== src/Socket/Lines/Found.antt =====
-- Reading a line from a socket, against the plain recursion over the bytes.
use spamass.Base.{
  ◌-◌, ◌≡◌, refl, ap, ◌∙◌, Bool, true, false, Option, none, some, [], Bytes, length, drop,
  drop-length-append, arith, if◌then◌else◌,
}
use spamass.Dispatch.{contents, subrange, get_size}
use spamass.Dispatch.Contents.{contents-subrange_rest}
use spamass.Line.{Scan, scan_start, scan_line, scan_region, is_complete}
use spamass.Line.Split.{
  split_line, split_line-append_eq, Agrees, scan_region-Agrees, scan_line-contents,
}
use spamass.Socket.Defs.{Socket}
use spamass.Socket.Lines.{read_line}

module _ {Context : Type 0} where
  -- The outcome `r` of reading a line, against what the recursion finds in the unread bytes.
  abbrev pub Found : Socket Context → Socket Context × Bool → Option (Bytes × Bytes) → Type 0
  Found s r none = r ≡ (record s { line = []; linelen = 0; lineoff = 0 }, false)
  Found s r (some (line, left)) =
      (r.1 ≡ true)
      × (contents r.0.indata ≡ left)
      × (r.0 ≡ record s { indata = r.0.indata; line = line; linelen = length line; lineoff = 0 })

  Found-scan :
      (s : Socket Context) (scan : Scan) (flag : Bool) (o : Option (Bytes × Bytes))
      → Agrees scan_start (scan, flag) o
      → split_line false 0 (contents s.indata) ≡ o
      → Found s
          (if is_complete scan
            then (
              record s {
                indata = subrange s.indata scan.linelen (get_size s.indata - scan.linelen);
                line = scan.line;
                linelen = scan.linelen;
                lineoff = 0;
              },
              true,
            )
            else (record s { line = []; linelen = 0; lineoff = 0 }, false))
          o
  Found-scan s scan flag none a e = rw a.1
  Found-scan s scan flag (some (line, left)) a e =
      let same : scan.linelen ≡ length line = omega (arith, a.2) in
      let (joined, _, _) = split_line-append_eq false 0 (contents s.indata) e in
      rw a.1 (
        refl,
        contents-subrange_rest s.indata scan.linelen
            ∙ ap (λ n. drop n (contents s.indata)) same
            ∙ rw (← joined) (drop-length-append line left),
        rw (same, a.3),
      )

  -- `read_line` finds a line exactly if `split_line` finds one in the bytes that are unread, and it is
  -- that line; then the bytes behind it are unread, otherwise all are, and the line is empty.
  pub read_line-Found :
      (s : Socket Context) → Found s (read_line s) (split_line false 0 (contents s.indata))
  unfolding read_line
  read_line-Found s =
      let bytes = contents s.indata in
      Found-scan s (scan_line s.indata) (scan_region scan_start bytes).1 (split_line false 0 bytes)
        (rw (scan_line-contents s.indata) (scan_region-Agrees scan_start bytes refl (omega arith)))
        refl
