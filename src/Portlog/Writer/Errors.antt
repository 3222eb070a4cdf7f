-- ===== src/Portlog/Writer/Errors.antt =====
-- internal/portlog/portlog.go: writers whose file system has failed.
use sercon.Prelude.{
  ◌+◌, ◌%◌, ◌^◌, ◌≡◌, refl, sym, ◌∙◌, false, ◌&&◌, ◌||◌, not, some, List, [], ◌∷◌, ◌++◌, arith, leb,
  maybe-intro, if-intro, ℤ, length, Bytes, str_eq, is_empty,
}
use sercon.Portlog.Writer.{
  Answers, Writer, Disk, Outcome, LogError, flush_at, describe, log_path, begin_file, ensure,
  flush_open, flush_locked, then_do, fill, keep_error, write, flush, note, content,
}
use sercon.Portlog.Writer.Runs.{Op, describe_as, write_out, flush_now, note_down, step, run}

-- The error that a writer holds, and the disk.
record IsQuiet (e : LogError) (d : Disk) (o : Outcome) : Type 0 where
  held : o.writer.err ≡ some e
  same : o.disk ≡ d

module _ (decimal : ℤ → Bytes) where
  step-IsQuiet :
      (e : LogError) (d : Disk) (op : Op) (o : Outcome)
      → IsQuiet e d o
      → IsQuiet e d (step decimal op o.writer o.disk)
  unfolding step describe write flush note
  step-IsQuiet e d (describe_as dev baud) o h = record { held = h.held; same = h.same }
  step-IsQuiet e d (write_out a p) o h =
      maybe-intro (IsQuiet e d) _ _ o.writer.err (λ none_yet. let x = h.held in ground arith)
        (λ f failed. record { held = h.held; same = h.same })
  step-IsQuiet e d (flush_now a) o h =
      maybe-intro (IsQuiet e d) _ _ o.writer.err (λ none_yet. let x = h.held in ground arith)
        (λ f failed. record { held = h.held; same = h.same })
  step-IsQuiet e d (note_down a b msg) o h =
      maybe-intro (IsQuiet e d) _ _ o.writer.err (λ none_yet. let x = h.held in ground arith)
        (λ f failed. record { held = h.held; same = h.same })

  -- A writer that holds an error writes nothing more, whatever is called, and keeps that error.
  pub run-held :
      (ops : List Op) (o : Outcome) (e : LogError)
      → o.writer.err ≡ some e
      → ((run decimal ops o).disk ≡ o.disk) × ((run decimal ops o).writer.err ≡ some e)
  unfolding run
  run-held ops o e h = let q = go ops o (record { held = h; same = refl }) in (q.same, q.held)
    where
      go : (ops : List Op) (x : Outcome) → IsQuiet e o.disk x → IsQuiet e o.disk (run decimal ops x)
      go [] x q = q
      go (op ∷ ops) x q = go ops _ (step-IsQuiet e o.disk op x q)

  begin_file-err :
      (a : Answers) (path : Bytes) (w : Writer) (d : Disk)
      → (begin_file decimal a path w d).writer.err ≡ w.err
  unfolding begin_file
  begin_file-err a path w d =
      if-intro (λ (o : Outcome). o.writer.err ≡ w.err) (a.stats && is_empty (content path d)) _ _
        (λ _.
          maybe-intro (λ (o : Outcome). o.writer.err ≡ w.err) _ _ a.header_fails (λ _. refl)
            (λ n _. refl))
        (λ _. refl)

  ensure-err : (a : Answers) (w : Writer) (d : Disk) → (ensure decimal a w d).writer.err ≡ w.err
  unfolding ensure
  ensure-err a w d =
      let P : Outcome → Type 0 = λ o. o.writer.err ≡ w.err in
      if-intro P (w.f && str_eq w.day a.day) _ _ (λ _. refl)
        (λ _.
          if-intro P (not a.opens) _ _ (λ _. refl)
            (λ _. begin_file-err a (log_path a w) (record w { f = false }) d))

  flush_open-err :
      (a : Answers) (w : Writer) (d : Disk) → (flush_open decimal a w d).writer.err ≡ w.err
  unfolding flush_open
  flush_open-err a w d =
      let P : Outcome → Type 0 = λ o. o.writer.err ≡ w.err in
      if-intro P (is_empty w.buf) _ _ (λ _. refl)
        (λ _. maybe-intro P _ _ a.write_fails (λ _. refl) (λ n _. refl))

  flush_locked-err :
      (a : Answers) (w : Writer) (d : Disk) → (flush_locked decimal a w d).writer.err ≡ w.err
  unfolding flush_locked then_do
  flush_locked-err a w d =
      let o = ensure decimal a w d in
      maybe-intro (λ (o : Outcome). o.writer.err ≡ w.err) _ _ o.error
        (λ _. flush_open-err a o.writer o.disk ∙ ensure-err a w d) (λ e _. ensure-err a w d)

  -- `Write` returns an error exactly when the writer then holds one, and the same.
  pub write-error :
      (a : Answers) (p : Bytes) (w : Writer) (d : Disk)
      → (write decimal a p w d).error ≡ (write decimal a p w d).writer.err
  unfolding write keep_error
  write-error a p w d =
      let P : Outcome → Type 0 = λ o. o.error ≡ o.writer.err in
      let r = fill w.stamped a.stamp 0 w.at_bol p in
      maybe-intro P _ _ w.err
        (λ fine.
          if-intro P (r.2 || leb flush_at (length (w.buf ++ r.0))) _ _
            (λ _.
              let o =
                flush_locked decimal a
                  (record w {
                    total = (w.total + length p) % 2 ^ 64;
                    buf = w.buf ++ r.0;
                    at_bol = r.1;
                  })
                  d in
              maybe-intro P _ _ o.error (λ ok. ok ∙ sym (flush_locked-err a _ d ∙ fine))
                (λ e failed. failed))
            (λ _. sym fine))
        (λ e held. sym held)
