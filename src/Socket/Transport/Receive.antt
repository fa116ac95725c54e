-- ===== src/Socket/Transport/Receive.antt =====
-- What the read callback of Secure Transport is given.
use spamass.Base.{
  ℕ, ◌-◌, ◌≤◌, ◌<◌, ◌≡◌, refl, ap, ◌∙◌, [], ◌∷◌, ◌++◌, Bytes, length, take, drop, min,
  length-append, length-take, append_assoc, append-nil, take-append-drop, take_all, drop_all, arith,
  ◌==◌, ltb, leb, if◌then◌else◌, Bool-cases, inl, inr,
}
use spamass.Dispatch
use spamass.Dispatch.Contents.{contents-subrange_rest, get_size-contents, take-append}
use spamass.Dispatch.{DispatchData, contents, get_size, subrange}
use spamass.Socket.Transport.{Received, receive, copy_region}
use spamass.Tls.{no_err, would_block}

pair_eq : {n m : ℕ} {xs ys : Bytes} → n ≡ m → xs ≡ ys → ◌≡◌ {A = ℕ × Bytes} (n, xs) (m, ys)
pair_eq p q = λ i. (p i, q i)

-- The copying block takes the first bytes, across regions.
apply-copy_region :
    (n : ℕ) (copied : Bytes) (d : DispatchData)
    → Dispatch.apply copy_region (n, copied) d
      ≡ (n - length (contents d), copied ++ take n (contents d))
unfolding Dispatch.apply
apply-copy_region n copied [] =
    pair_eq (omega arith) (rw (take_all {A = ℕ} n [] (omega arith), append-nil))
apply-copy_region n copied (r ∷ d) = elim (Bool-cases (n - min n (length r) == 0)) [
  | inl full ↦
      let short : min n (length r) ≡ n = ground (arith, full) in
      let done : n - length r ≡ 0 = ground (arith, full) in
      rw full (
        pair_eq (omega (arith, done, short, length-append r (contents d)))
          (rw (take-append n r (contents d), short, done, append-nil)))
  | inr room ↦
      let whole : min n (length r) ≡ length r = ground (arith, room) in
      rw (room, whole, take_all (length r) r (omega arith))
        (apply-copy_region (n - length r) (copied ++ r) d
          ∙ pair_eq (omega (arith, length-append r (contents d))) (
              rw (take-append n r (contents d), take_all n r (ground (arith, room)))
                (append_assoc copied r (take (n - length r) (contents d)))))
]

-- What is handed over is the front of what has been received, as much of it as was asked for; the
-- rest is kept. `*datalen` is its length, and the status tells whether it was less than asked for.
pub record IsReceived (tmpdata : DispatchData) (requested : ℕ) (r : Received × DispatchData)
    : Type 0 where
  pub splits : r.0.bytes ++ contents r.1 ≡ contents tmpdata
  pub amount : length r.0.bytes ≡ min requested (length (contents tmpdata))
  pub datalen : r.0.datalen ≡ length r.0.bytes
  pub complete : 0 < requested → requested ≤ length (contents tmpdata) → r.0.status ≡ no_err
  pub incomplete : length (contents tmpdata) < requested → r.0.status ≡ would_block

take-append-drop_rest : (n : ℕ) (bs : Bytes) → take n bs ++ drop (n - (n - length bs)) bs ≡ bs
take-append-drop_rest n bs = elim (Bool-cases (leb n (length bs))) [
  | inl part ↦
      let e : n - (n - length bs) ≡ n = ground (arith, part) in rw e (take-append-drop n bs)
  | inr all ↦
      let e : n - (n - length bs) ≡ length bs = ground (arith, all) in
      rw (e, take_all n bs (ground (arith, all)), drop_all (length bs) bs (omega arith), append-nil)
]

IsReceived-some :
    (tmpdata : DispatchData) (requested : ℕ)
    → 0 < length (contents tmpdata)
    → IsReceived tmpdata requested (
      record {
        status = if ltb (get_size tmpdata) requested then would_block else no_err;
        datalen = if ltb (get_size tmpdata) requested then get_size tmpdata else requested;
        bytes = take requested (contents tmpdata);
      },
      subrange tmpdata
          (requested - (requested - length (contents tmpdata)))
          (get_size tmpdata - (requested - (requested - length (contents tmpdata)))),
    )
IsReceived-some tmpdata requested h =
    let bytes = contents tmpdata in
    let size = get_size-contents tmpdata in
    record {
      splits =
          ap (◌++◌ (take requested bytes)) (contents-subrange_rest tmpdata _)
          ∙ take-append-drop_rest requested bytes;
      amount = length-take requested bytes;
      datalen = rw size (ground (arith, length-take requested bytes));
      complete = λ p q. rw size (ground arith);
      incomplete = λ p. rw size (ground arith);
    }

-- The read callback of Secure Transport hands over the first bytes of what has been received, as many
-- as were asked for or as there are, and keeps the rest. It gives their number; the status is `no_err`
-- if some were asked for and there were enough, and `would_block` if there were fewer.
pub receive_lem :
    (tmpdata : DispatchData) (requested : ℕ)
    → IsReceived tmpdata requested (receive tmpdata requested)
unfolding receive
receive_lem tmpdata requested = elim (Bool-cases (get_size tmpdata == 0)) [
  | inl empty ↦
      let none_left : length (contents tmpdata) ≡ 0 =
        ground (arith, empty, get_size-contents tmpdata) in
      rw empty (record {
        splits = refl;
        amount = omega (arith, none_left);
        datalen = refl;
        complete = λ p q. absurd (omega (arith, none_left));
        incomplete = λ p. refl;
      })
  | inr more ↦
      rw (more, apply-copy_region requested [] tmpdata)
        (IsReceived-some tmpdata requested (ground (arith, more, get_size-contents tmpdata)))
]
