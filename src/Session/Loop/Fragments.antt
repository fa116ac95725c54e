-- ===== src/Session/Loop/Fragments.antt =====
-- The loop follows the specification's, so it does not matter in what pieces the input arrives.
use spamass.Base.{
  ℕ, zero, suc, ◌≡◌, refl, sym, ap, ◌∙◌, Bool, true, false, some, Bytes, inl, inr, if◌then◌else◌,
  Option-cases, Outcome, ok, out_of_bounds, out_of_fuel, ◌>>=◌,
}
use spamass.Dispatch.Contents.{contents-concat, get_size-contents}
use spamass.Dispatch.{DispatchData, contents, concat, get_size}
use spamass.Session.Loop.{next_line, process-none, process-some}
use spamass.Session.Spec.More.{more}
use spamass.Session.Spec.Refine.{view_of, handle_line-spec_line}
use spamass.Session.Spec.Run.{
  idle, reading, spec_run, spec_run_all, spec_run-none, spec_run-some, continue_with,
  spec_run_all-more, spec_run_all-idle,
}
use spamass.Session.View.{View, view}
use spamass.Session.{process, process_all, handle_line, LoopExit, drained, broken}
use spamass.Socket.Defs.{Socket}
use spamass.Socket.Lines.Found.{Found, read_line-Found}
use spamass.Socket.Lines.{read_line}
use spamass.Tls.{Env}

abbrev pub idled : Outcome (View × LoopExit) → Outcome (View × LoopExit)
idled m = m >>= λ r. ok (idle r.0, r.1)

module _ (env : Env) where
  open env use {Context}

  -- What a run of the loop comes to, seen by the protocol, the line buffer left aside.
  abbrev pub run_view : Outcome (Socket Context × LoopExit) → Outcome (View × LoopExit)
  run_view m = m >>= λ r. ok (idle (view r.0), r.1)

  run_view-line :
      (m : Outcome (Socket Context × Bool))
      (f : Socket Context → Outcome (Socket Context × LoopExit))
      (g : View → Outcome (View × LoopExit))
      → ((s : Socket Context) → run_view (f s) ≡ idled (g (view s)))
      → run_view (m >>= λ r. if r.1 then f r.0 else ok (r.0, broken))
        ≡ idled (view_of m >>= continue_with g)
  run_view-line (ok (s, true)) f g h = h s
  run_view-line (ok (s, false)) f g h = refl
  run_view-line out_of_bounds f g h = refl
  run_view-line out_of_fuel f g h = refl

  view-reading :
      (s : Socket Context) (line left : Bytes)
      → Found s (read_line s) (some (line, left))
      → view (read_line s).0 ≡ reading (view s) line left
  view-reading s line left found =
      ap view found.2 ∙ ap (λ (bs : Bytes). reading (view s) line bs) found.1

  process-spec_run :
      (fuel : ℕ) (s : Socket Context)
      → run_view (process env fuel s) ≡ idled (spec_run fuel (view s))
  process-spec_run zero s = unfold process spec_run in refl
  process-spec_run (suc fuel) s = elim (Option-cases (next_line s)) [
    | inl e ↦ elim (process-none env fuel s e) [
      | inl p ↦ rw (p, spec_run-none fuel (view s) e)
      | inr p ↦ rw (p, spec_run-none fuel (view s) e)
    ]
    | inr ((line, left), e) ↦
        let found : Found s (read_line s) (some (line, left)) = rw e at (read_line-Found s) in
        rw (process-some env fuel s e, spec_run-some fuel (view s) e)
          (run_view-line (handle_line env (read_line s).0) (process env fuel) (spec_run fuel)
              (process-spec_run fuel)
            ∙ rw (handle_line-spec_line env (read_line s).0, view-reading s line left found))
  ]

  -- The loop over the lines of a socket does, seen by the protocol, what the specification's loop does
  -- on the view of the socket.
  pub process_all-spec_run :
      (s : Socket Context) → run_view (process_all env s) ≡ idled (spec_run_all (view s))
  unfolding process_all spec_run_all
  process_all-spec_run s =
      process-spec_run (suc (get_size s.indata)) s
      ∙ ap (λ n. idled (spec_run (suc n) (view s))) (get_size-contents s.indata)

  view-concat :
      (s : Socket Context) (d : DispatchData)
      → view (record s { indata = concat s.indata d }) ≡ more (view s) (contents d)
  view-concat s d = rw (contents-concat s.indata d)

  idled-drained :
      (m : Outcome (View × LoopExit)) (v : View)
      → idled m ≡ ok (v, drained)
      → (w : View) × (m ≡ ok (w, drained)) × (idle w ≡ v)
  idled-drained (ok (w, drained)) v e = (w, refl, cc)
  idled-drained (ok (w, broken)) v e = cc
  idled-drained out_of_bounds v e = cc
  idled-drained out_of_fuel v e = cc

  -- If the loop has drained its input, then to go on with more input from where it has stopped comes to
  -- the same, for the protocol, as to have had all the input at once.
  pub process_all-concat :
      (s t : Socket Context) (d : DispatchData)
      → process_all env s ≡ ok (t, drained)
      → run_view (process_all env (record s { indata = concat s.indata d }))
        ≡ run_view (process_all env (record t { indata = concat t.indata d }))
  process_all-concat s t d e =
      let ys = contents d in
      let (w, run, same) =
        idled-drained (spec_run_all (view s)) (idle (view t))
          (sym (process_all-spec_run s) ∙ ap run_view e) in
      process_all-spec_run (record s { indata = concat s.indata d })
      ∙ ap (λ v. idled (spec_run_all v)) (view-concat s d)
      ∙ ap idled (
          spec_run_all-more (view s) w ys run
          ∙ spec_run_all-idle (more w ys)
          ∙ ap (λ v. spec_run_all (more v ys)) same
          ∙ sym (spec_run_all-idle (more (view t) ys)))
      ∙ ap (λ v. idled (spec_run_all v)) (sym (view-concat t d))
      ∙ sym (process_all-spec_run (record t { indata = concat t.indata d }))
