-- ===== src/Portlog/Writer/Output.antt =====
-- internal/portlog/portlog.go: the output of a writer in a run in which the file system works.
use sercon.Prelude.{
  ℕ, suc, ◌+◌, ◌%◌, ◌^◌, ◌≡◌, refl, sym, ap, ◌∙◌, subst, inl, inr, Bool-cases, Bool, true, false,
  ◌&&◌, ◌||◌, none, List, [], ◌∷◌, ◌++◌, append-nil, append_assoc, arith, leb, ◌==◌, if◌then◌else◌,
  maybe-intro, if-intro, ℤ, length, All, All-append, Bytes, is_empty,
}
use sercon.Portlog.Writer.{
  Answers, Writer, Disk, Outcome, flush_at, describe, flush_locked, then_do, fill, keep_error,
  write, flush, note_line, put_note, note,
}
use sercon.Portlog.Writer.Runs.{
  Op, describe_as, write_out, flush_now, note_down, ends_line, told, IsPartLine, IsWorking, WorksOp,
  lines_of, add_to_line, stamp_lines, stamp_later, stamped_text, output, IsFaithful, logged, step,
  run, flush_locked-IsFaithful,
}

fill-plain : (stamp : ℕ → Bytes) (i : ℕ) (bol : Bool) (p : Bytes) → (fill false stamp i bol p).0 ≡ p
unfolding fill
fill-plain stamp i bol [] = refl
fill-plain stamp i true (b ∷ p) = ap (λ x. b ∷ x) (fill-plain stamp (suc i) (b == 10) p)
fill-plain stamp i false (b ∷ p) = ap (λ x. b ∷ x) (fill-plain stamp i (b == 10) p)

fill-end :
    (stamped : Bool) (stamp : ℕ → Bytes) (i : ℕ) (bol : Bool) (p : Bytes)
    → (fill stamped stamp i bol p).1 ≡ ends_line bol p
unfolding fill
fill-end stamped stamp i bol [] = refl
fill-end stamped stamp i bol (b ∷ p) = fill-end stamped stamp (if bol then suc i else i) (b == 10) p

fill-saw :
    (stamped : Bool) (stamp : ℕ → Bytes) (i : ℕ) (bol : Bool) (p : Bytes)
    → ((i : ℕ) → IsPartLine (stamp i))
    → (fill stamped stamp i bol p).2 ≡ false
    → IsPartLine (fill stamped stamp i bol p).0
unfolding fill
fill-saw stamped stamp i bol [] h e = tt
fill-saw stamped stamp i bol (b ∷ p) h e =
    let j = if bol then suc i else i in
    All-append (λ c. (c == 10) ≡ false) (if bol && stamped then stamp i else [])
      (b ∷ (fill stamped stamp j (b == 10) p).0)
      (if-intro IsPartLine (bol && stamped) (stamp i) [] (λ _. h i) (λ _. tt))
      (ground arith, fill-saw stamped stamp j (b == 10) p h (ground arith))

-- The loop's text is that of the lines, stamped one by one.
fill-stamp_lines :
    (stamp : ℕ → Bytes) (i : ℕ) (p : Bytes)
    → ((fill true stamp i true p).0 ≡ stamp_lines stamp i (lines_of p))
      × ((fill true stamp i false p).0 ≡ stamp_later stamp i (lines_of p))
unfolding fill lines_of stamp_lines
fill-stamp_lines stamp i [] = (refl, refl)
fill-stamp_lines stamp i (b ∷ p) = elim (Bool-cases (b == 10)) [
  | inl newline ↦ (
    rw newline (ap (λ x. stamp i ++ b ∷ x) (fill-stamp_lines stamp (suc i) p).0),
    rw newline (ap (λ x. b ∷ x) (fill-stamp_lines stamp i p).0),
  )
  | inr other ↦ (
    rw other
        (ap (λ x. stamp i ++ b ∷ x) (fill-stamp_lines stamp (suc i) p).1 ∙ added i (lines_of p)),
    rw other (ap (λ x. b ∷ x) (fill-stamp_lines stamp i p).1 ∙ later i (lines_of p)),
  )
]
  where
    added :
        (i : ℕ) (ls : List Bytes)
        → stamp i ++ b ∷ stamp_later stamp (suc i) ls ≡ stamp_lines stamp i (add_to_line b ls)
    added i [] = refl
    added i (l ∷ ls) = refl

    later :
        (i : ℕ) (ls : List Bytes)
        → b ∷ stamp_later stamp i ls ≡ stamp_later stamp i (add_to_line b ls)
    later i [] = refl
    later i (l ∷ ls) = refl

fill-stamped_text :
    (stamp : ℕ → Bytes) (bol : Bool) (p : Bytes)
    → (fill true stamp 0 bol p).0 ≡ stamped_text stamp bol p
fill-stamped_text stamp true p = (fill-stamp_lines stamp 0 p).0
fill-stamped_text stamp false p = (fill-stamp_lines stamp 0 p).1

fill-text :
    (stamped st : Bool) (stamp : ℕ → Bytes) (bol : Bool) (p : Bytes)
    → stamped ≡ st
    → (fill stamped stamp 0 bol p).0 ≡ (if st then stamped_text stamp bol p else p)
fill-text stamped true stamp bol p e =
    ap (λ s. (fill s stamp 0 bol p).0) e ∙ fill-stamped_text stamp bol p
fill-text stamped false stamp bol p e =
    ap (λ s. (fill s stamp 0 bol p).0) e ∙ fill-plain stamp 0 bol p

append_more : (a b c : Bytes) {s t : Bytes} → a ++ b ≡ s → c ≡ t → a ++ (b ++ c) ≡ s ++ t
append_more a b c {s} {t} e f = sym (append_assoc a b c) ∙ rw (e, f) refl

module _ (decimal : ℤ → Bytes) where
  flushed :
      (st bol : Bool) (said : Bytes) (a : Answers) (w : Writer) (d : Disk)
      → IsWorking a
      → w.err ≡ none
      → w.stamped ≡ st
      → w.at_bol ≡ bol
      → output w d ≡ said
      → IsFaithful st bol said (flush_locked decimal a w d)
  flushed st bol said a w d h fine stamps line shown =
      let f = flush_locked-IsFaithful decimal a w d h fine in
      record {
        shown = f.shown ∙ shown;
        line = f.line ∙ line;
        stamps = f.stamps ∙ stamps;
        no_error = f.no_error;
        returned = f.returned;
        part = f.part;
        short = f.short;
      }

  keep_error-IsFaithful :
      (st bol : Bool) (said : Bytes) (o : Outcome)
      → IsFaithful st bol said o
      → IsFaithful st bol said (keep_error o)
  unfolding keep_error
  keep_error-IsFaithful st bol said o h =
      maybe-intro (IsFaithful st bol said) _ _ o.error (λ _. h)
        (λ e failed. let fine = h.returned in ground arith)

  write-IsFaithful :
      (st bol : Bool) (said : Bytes) (o : Outcome) (a : Answers) (p : Bytes)
      → IsWorking a
      → IsFaithful st bol said o
      → IsFaithful st
          (ends_line bol p)
          (said ++ (if st then stamped_text a.stamp bol p else p))
          (write decimal a p o.writer o.disk)
  unfolding write
  write-IsFaithful st bol said o a p h g =
      let w = o.writer in
      let text = if st then stamped_text a.stamp bol p else p in
      let r = fill w.stamped a.stamp 0 w.at_bol p in
      let filled : Writer = record w {
        total = (w.total + length p) % 2 ^ 64;
        buf = w.buf ++ r.0;
        at_bol = r.1;
      } in
      let line = fill-end w.stamped a.stamp 0 w.at_bol p ∙ ap (λ b. ends_line b p) g.line in
      let more : output filled o.disk ≡ said ++ text =
        append_more (logged o.disk) w.buf r.0 g.shown (
          fill-text w.stamped st a.stamp w.at_bol p g.stamps
          ∙ ap (λ b. if st then stamped_text a.stamp b p else p) g.line) in
      maybe-intro (IsFaithful st (ends_line bol p) (said ++ text)) _ _ w.err
        (λ _.
          if-intro (IsFaithful st (ends_line bol p) (said ++ text))
            (r.2 || leb flush_at (length (w.buf ++ r.0))) _ _
            (λ _. keep_error-IsFaithful st (ends_line bol p) (said ++ text) _ (
              flushed st (ends_line bol p) (said ++ text) a filled o.disk h g.no_error g.stamps line
                more))
            (λ quiet. record {
              shown = more;
              line = line;
              stamps = g.stamps;
              no_error = g.no_error;
              returned = refl;
              part =
                  All-append (λ c. (c == 10) ≡ false) w.buf r.0 g.part
                    (fill-saw w.stamped a.stamp 0 w.at_bol p h.one_line (ground arith));
              short = ground arith;
            }))
        (λ e failed. let fine = g.no_error in ground arith)

  flush-IsFaithful :
      (st bol : Bool) (said : Bytes) (o : Outcome) (a : Answers)
      → IsWorking a
      → IsFaithful st bol said o
      → IsFaithful st bol said (flush decimal a o.writer o.disk)
  unfolding flush
  flush-IsFaithful st bol said o a h g =
      let w = o.writer in
      maybe-intro (IsFaithful st bol said) _ _ w.err
        (λ _.
          if-intro (IsFaithful st bol said) (is_empty w.buf) _ _
            (λ _. record {
              shown = g.shown;
              line = g.line;
              stamps = g.stamps;
              no_error = g.no_error;
              returned = refl;
              part = g.part;
              short = g.short;
            })
            (λ _. flushed st bol said a w o.disk h g.no_error g.stamps g.line g.shown))
        (λ e failed. let fine = g.no_error in ground arith)

  put_note-IsFaithful :
      (st bol : Bool) (said : Bytes) (o : Outcome) (a : Answers) (msg : Bytes)
      → IsWorking a
      → IsFaithful st bol said o
      → IsFaithful st true
          (said ++ note_line (a.stamp 0) msg)
          (put_note decimal a msg o.writer o.disk)
  unfolding put_note
  put_note-IsFaithful st bol said o a msg h g =
      let w = o.writer in
      flushed st true (said ++ note_line (a.stamp 0) msg) a
        (record w { buf = w.buf ++ note_line (a.stamp 0) msg; at_bol = true }) o.disk h g.no_error
        g.stamps refl (append_more (logged o.disk) w.buf (note_line (a.stamp 0) msg) g.shown refl)

  note-IsFaithful :
      (st bol : Bool) (said : Bytes) (o : Outcome) (a b : Answers) (msg : Bytes)
      → IsWorking a
      → IsWorking b
      → IsFaithful st bol said o
      → IsFaithful st true
          (said ++ note_line (b.stamp 0) msg)
          (note decimal a b msg o.writer o.disk)
  unfolding note then_do
  note-IsFaithful st bol said o a b msg h k g =
      let w = o.writer in
      let P = IsFaithful st true (said ++ note_line (b.stamp 0) msg) in
      maybe-intro P _ _ w.err
        (λ _.
          if-intro P (is_empty w.buf) _ _ (λ _. put_note-IsFaithful st bol said o b msg k g)
            (λ _.
              let f = flushed st bol said a w o.disk h g.no_error g.stamps g.line g.shown in
              maybe-intro P _ _ (flush_locked decimal a w o.disk).error
                (λ _. put_note-IsFaithful st bol said (flush_locked decimal a w o.disk) b msg k f)
                (λ e failed. let fine = f.returned in ground arith)))
        (λ e failed. let fine = g.no_error in ground arith)

  assoc :
      (st : Bool) (a b c : Bytes) {o : Outcome}
      → (end : Bool) × IsFaithful st end ((a ++ b) ++ c) o
      → (end : Bool) × IsFaithful st end (a ++ (b ++ c)) o
  assoc st a b c {o} (end, g) = (end, subst (λ s. IsFaithful st end s o) (append_assoc a b c) g)

  -- While the file system works, buffering loses, repeats and reorders nothing: what was written to the files
  -- of all days, headers left out, and what the buffer holds are together the text that the calls tell. No call
  -- fails, and the buffer holds less than a line, and less than the limit.
  pub run-IsFaithful :
      (ops : List Op) (st bol : Bool) (said : Bytes) (o : Outcome)
      → All WorksOp ops
      → IsFaithful st bol said o
      → (end : Bool) × IsFaithful st end (said ++ told st bol ops) (run decimal ops o)
  unfolding run told step describe
  run-IsFaithful [] st bol said o h g =
      (bol, subst (λ s. IsFaithful st bol s o) (sym (append-nil said)) g)
  run-IsFaithful (describe_as dev baud ∷ ops) st bol said o h g =
      run-IsFaithful ops st bol said _ h.1 (record {
        shown = g.shown;
        line = g.line;
        stamps = g.stamps;
        no_error = g.no_error;
        returned = refl;
        part = g.part;
        short = g.short;
      })
  run-IsFaithful (write_out a p ∷ ops) st bol said o h g =
      assoc st said (if st then stamped_text a.stamp bol p else p) _ (
        run-IsFaithful ops st (ends_line bol p) _ (step decimal (write_out a p) o.writer o.disk) h.1
          (write-IsFaithful st bol said o a p h.0 g))
  run-IsFaithful (flush_now a ∷ ops) st bol said o h g =
      run-IsFaithful ops st bol said (step decimal (flush_now a) o.writer o.disk) h.1
        (flush-IsFaithful st bol said o a h.0 g)
  run-IsFaithful (note_down a b msg ∷ ops) st bol said o h g =
      assoc st said (note_line (b.stamp 0) msg) _ (
        run-IsFaithful ops st true _ (step decimal (note_down a b msg) o.writer o.disk) h.1
          (note-IsFaithful st bol said o a b msg h.0.0 h.0.1 g))
