-- ===== src/Portlog/Writer/Runs.antt =====
-- internal/portlog/portlog.go: runs of a writer in which the file system works.
use sercon.Prelude.{
  ℕ, suc, ◌<◌, ◌≡◌, refl, sym, ap, ◌∙◌, subst, Bool, true, false, ◌&&◌, not, none, List, [], ◌∷◌,
  ◌++◌, append-nil, append_assoc, arith, ◌==◌, if◌then◌else◌, maybe-intro, if-intro, ℤ, length, All,
  Bytes, codes, str_eq, is_empty,
}
use sercon.Portlog.Writer.{
  content, Answers, Writer, Disk, header, chunk, Outcome, flush_at, describe, header_text, log_path,
  begin_file, ensure, flush_open, then_do, flush_locked, write, flush, note,
}

-- What the owner of a writer calls.
pub data Op : Type 0 where
  describe_as : Bytes → ℤ → Op
  write_out : Answers → Bytes → Op
  flush_now : Answers → Op
  note_down : Answers → Answers → Bytes → Op

-- Whether a line begins behind some output.
abbrev pub ends_line : Bool → Bytes → Bool
ends_line bol [] = bol
ends_line bol (b ∷ p) = ends_line (b == 10) p

-- The lines of a text, each with its newline; the last may have none.
abbrev pub add_to_line : ℕ → List Bytes → List Bytes
add_to_line b [] = (b ∷ []) ∷ []
add_to_line b (l ∷ ls) = (b ∷ l) ∷ ls

unfoldable pub lines_of : Bytes → List Bytes
lines_of [] = []
lines_of (b ∷ p) = let rest = lines_of p in if b == 10 then (b ∷ []) ∷ rest else add_to_line b rest

-- Lines with a stamp before each.
unfoldable pub stamp_lines : (ℕ → Bytes) → ℕ → List Bytes → Bytes
stamp_lines stamp i [] = []
stamp_lines stamp i (l ∷ ls) = stamp i ++ (l ++ stamp_lines stamp (suc i) ls)

-- Lines of which the first goes on with one that has its stamp.
abbrev pub stamp_later : (ℕ → Bytes) → ℕ → List Bytes → Bytes
stamp_later stamp i [] = []
stamp_later stamp i (l ∷ ls) = l ++ stamp_lines stamp i ls

-- Output with a stamp at each beginning of a line.
abbrev pub stamped_text : (ℕ → Bytes) → Bool → Bytes → Bytes
stamped_text stamp bol p =
    if bol then stamp_lines stamp 0 (lines_of p) else stamp_later stamp 0 (lines_of p)

-- The text that the operations tell: the output, with a stamp at each beginning of a line if it is stamped,
-- and the notes, each of them a line.
unfoldable pub told : Bool → Bool → List Op → Bytes
told stamped bol [] = []
told stamped bol (describe_as dev baud ∷ ops) = told stamped bol ops
told stamped bol (write_out a p ∷ ops) =
    (if stamped then stamped_text a.stamp bol p else p) ++ told stamped (ends_line bol p) ops
told stamped bol (flush_now a ∷ ops) = told stamped bol ops
told stamped bol (note_down a b msg ∷ ops) =
    (codes "[sercond " ++ b.stamp 0 ++ codes "] " ++ msg ++ codes "\n") ++ told stamped true ops

-- The output on the disk, headers left out.
unfoldable pub logged : Disk → Bytes
logged [] = []
logged (header p b ∷ d) = logged d
logged (chunk p b ∷ d) = b ++ logged d

-- No newline.
abbrev pub IsPartLine : Bytes → Type 0
IsPartLine s = All (λ c. (c == 10) ≡ false) s

-- Nothing fails, and stamps have no newline.
pub record IsWorking (a : Answers) : Type 0 where
  pub opened : a.opens ≡ true
  pub headed : a.header_fails ≡ none
  pub written : a.write_fails ≡ none
  pub one_line : (i : ℕ) → IsPartLine (a.stamp i)

abbrev pub WorksOp : Op → Type 0
WorksOp (describe_as dev baud) = Unit
WorksOp (write_out a p) = IsWorking a
WorksOp (flush_now a) = IsWorking a
WorksOp (note_down a b msg) = IsWorking a × IsWorking b

-- The output of a writer: what is on the disk and what is in the buffer.
abbrev pub output : Writer → Disk → Bytes
output w d = logged d ++ w.buf

-- An outcome without an error, whose output is `said` and whose buffer holds less than a line.
pub record IsFaithful (stamped bol : Bool) (said : Bytes) (o : Outcome) : Type 0 where
  pub shown : output o.writer o.disk ≡ said
  pub line : o.writer.at_bol ≡ bol
  pub stamps : o.writer.stamped ≡ stamped
  pub no_error : o.writer.err ≡ none
  pub returned : o.error ≡ none
  pub part : IsPartLine o.writer.buf
  pub short : length o.writer.buf < flush_at

logged-append : (d e : Disk) → logged (d ++ e) ≡ logged d ++ logged e
unfolding logged
logged-append [] e = refl
logged-append (header p b ∷ d) e = logged-append d e
logged-append (chunk p b ∷ d) e =
    ap (λ x. b ++ x) (logged-append d e) ∙ sym (append_assoc b (logged d) (logged e))

logged-header : (d : Disk) (p b : Bytes) → logged (d ++ header p b ∷ []) ≡ logged d
unfolding logged
logged-header d p b = logged-append d (header p b ∷ []) ∙ append-nil (logged d)

logged-chunk : (d : Disk) (p b : Bytes) → logged (d ++ chunk p b ∷ []) ≡ logged d ++ b
unfolding logged
logged-chunk d p b = logged-append d (chunk p b ∷ []) ∙ ap (λ x. logged d ++ x) (append-nil b)

module _ (decimal : ℤ → Bytes) where
  unfoldable pub step : Op → Writer → Disk → Outcome
  step (describe_as dev baud) w d = record { writer = describe dev baud w; disk = d; error = none }
  step (write_out a p) w d = write decimal a p w d
  step (flush_now a) w d = flush decimal a w d
  step (note_down a b msg) w d = note decimal a b msg w d

  unfoldable pub run : List Op → Outcome → Outcome
  run [] o = o
  run (op ∷ ops) o = run ops (step op o.writer o.disk)

  -- What opening a file leaves as it is.
  record IsOpened (w : Writer) (d : Disk) (o : Outcome) : Type 0 where
    same_log : logged o.disk ≡ logged d
    same_buf : o.writer.buf ≡ w.buf
    same_bol : o.writer.at_bol ≡ w.at_bol
    same_stamped : o.writer.stamped ≡ w.stamped
    same_err : o.writer.err ≡ w.err
    fine : o.error ≡ none

  begin_file-IsOpened :
      (a : Answers) (path : Bytes) (w : Writer) (d : Disk)
      → IsWorking a
      → IsOpened w d (begin_file decimal a path w d)
  unfolding begin_file
  begin_file-IsOpened a path w d h =
      if-intro (IsOpened w d) (a.stats && is_empty (content path d)) _ _
        (λ _.
          maybe-intro (IsOpened w d) _ _ a.header_fails
            (λ _. record {
              same_log = logged-header d path (header_text decimal a w);
              same_buf = refl;
              same_bol = refl;
              same_stamped = refl;
              same_err = refl;
              fine = refl;
            })
            (λ n failed. let e = h.headed in ground arith))
        (λ _. record {
          same_log = refl;
          same_buf = refl;
          same_bol = refl;
          same_stamped = refl;
          same_err = refl;
          fine = refl;
        })

  ensure-IsOpened :
      (a : Answers) (w : Writer) (d : Disk) → IsWorking a → IsOpened w d (ensure decimal a w d)
  unfolding ensure
  ensure-IsOpened a w d h =
      if-intro (IsOpened w d) (w.f && str_eq w.day a.day) _ _
        (λ _. record {
          same_log = refl;
          same_buf = refl;
          same_bol = refl;
          same_stamped = refl;
          same_err = refl;
          fine = refl;
        })
        (λ _.
          if-intro (IsOpened w d) (not a.opens) _ _ (λ failed. let e = h.opened in ground arith)
            (λ _.
              let o = begin_file-IsOpened a (log_path a w) (record w { f = false }) d h in
              record {
                same_log = o.same_log;
                same_buf = o.same_buf;
                same_bol = o.same_bol;
                same_stamped = o.same_stamped;
                same_err = o.same_err;
                fine = o.fine;
              }))

  -- The buffer is empty behind a flush that works, and the output is as before.
  flush_open-IsFaithful :
      (a : Answers) (w : Writer) (d : Disk)
      → IsWorking a
      → w.err ≡ none
      → IsFaithful w.stamped w.at_bol (output w d) (flush_open decimal a w d)
  unfolding flush_open
  flush_open-IsFaithful a w d h fine =
      if-intro (IsFaithful w.stamped w.at_bol (output w d)) (is_empty w.buf) _ _
        (λ empty. idle empty)
        (λ _.
          maybe-intro (IsFaithful w.stamped w.at_bol (output w d)) _ _ a.write_fails
            (λ _. record {
              shown = append-nil _ ∙ logged-chunk d w.path w.buf;
              line = refl;
              stamps = refl;
              no_error = fine;
              returned = refl;
              part = tt;
              short = omega arith;
            })
            (λ n failed. let e = h.written in ground arith))
    where
      empty_buf : (s : Bytes) → is_empty s ≡ true → s ≡ []
      empty_buf [] e = refl
      empty_buf (c ∷ s) e = cc

      idle :
          is_empty w.buf ≡ true
          → IsFaithful w.stamped w.at_bol
              (output w d)
              (record { writer = w; disk = d; error = none })
      idle e =
          let no_bytes = empty_buf w.buf e in
          record {
            shown = refl;
            line = refl;
            stamps = refl;
            no_error = fine;
            returned = refl;
            part = subst IsPartLine (sym no_bytes) tt;
            short = subst (λ s. length s < flush_at) (sym no_bytes) (omega arith);
          }

  pub flush_locked-IsFaithful :
      (a : Answers) (w : Writer) (d : Disk)
      → IsWorking a
      → w.err ≡ none
      → IsFaithful w.stamped w.at_bol (output w d) (flush_locked decimal a w d)
  unfolding flush_locked then_do
  flush_locked-IsFaithful a w d h fine =
      let o = ensure decimal a w d in
      let e = ensure-IsOpened a w d h in
      let f = flush_open-IsFaithful a o.writer o.disk h (e.same_err ∙ fine) in
      maybe-intro (IsFaithful w.stamped w.at_bol (output w d)) _ _ o.error
        (λ _. record {
          shown = f.shown ∙ rw (e.same_log, e.same_buf) refl;
          line = f.line ∙ e.same_bol;
          stamps = f.stamps ∙ e.same_stamped;
          no_error = f.no_error;
          returned = f.returned;
          part = f.part;
          short = f.short;
        })
        (λ x failed. let none_failed = e.fine in ground arith)
