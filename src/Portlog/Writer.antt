-- ===== src/Portlog/Writer.antt =====
-- internal/portlog/portlog.go: `Writer`. Clock readings and what the file system answers are inputs.
use sercon.Prelude.{
  ℕ, suc, ◌+◌, ◌%◌, ◌^◌, ◌⊎◌, inl, inr, Bool, true, false, ◌&&◌, ◌||◌, not, Option, none, some,
  List, [], ◌∷◌, ◌++◌, leb, ◌==◌, if◌then◌else◌, maybe, ℤ, pos, length, take, Bytes, codes, str_eq,
  is_empty,
}
use sercon.Portlog.Names.{safe_name}
pub mod Runs
pub mod Output
pub mod Errors

abbrev pub flush_at : ℕ
flush_at = 32768

-- What was appended to a file, in order: a header or a chunk of output.
pub data Entry : Type 0 where
  header chunk : Bytes → Bytes → Entry

abbrev pub Disk : Type 0
Disk = List Entry

-- The content of the file at a path.
unfoldable pub appended : Bytes → Entry → Bytes
appended path (header p b) = if str_eq p path then b else []
appended path (chunk p b) = if str_eq p path then b else []

unfoldable pub content : Bytes → Disk → Bytes
content path [] = []
content path (x ∷ d) = appended path x ++ content path d

pub data LogError : Type 0 where
  create_failed open_failed header_failed write_failed close_failed : Bytes → LogError

-- The readings of the clock, as texts, and what calls of the file system give. A failed write has written some
-- bytes.
pub record Answers : Type 0 where
  pub stamp : ℕ → Bytes
  pub day : Bytes
  pub time : Bytes
  pub opens : Bool
  pub stats : Bool
  pub header_fails : Option ℕ
  pub write_fails : Option ℕ
  pub closes : Bool

-- `Writer`, without its lock; `f` says whether the file is open.
pub record Writer : Type 0 where
  pub dir : Bytes
  pub port : Bytes
  pub path : Bytes
  pub dev : Bytes
  pub baud : ℤ
  pub stamped : Bool
  pub day : Bytes
  pub f : Bool
  pub buf : Bytes
  pub at_bol : Bool
  pub total : ℕ
  pub err : Option LogError

abbrev pub slash : Bytes
slash = codes "/"

-- `New`, with whether the directory could be made.
unfoldable pub new : Bool → Bytes → Bytes → Bool → LogError ⊎ Writer
new made dir port stamp =
    let sub = dir ++ slash ++ safe_name port in
    if not made
    then inl (create_failed sub)
    else inr record {
      dir = sub;
      port = port;
      path = [];
      dev = [];
      baud = pos 0;
      stamped = stamp;
      day = [];
      f = false;
      buf = [];
      at_bol = true;
      total = 0;
      err = none;
    }

-- `Describe`
unfoldable pub describe : Bytes → ℤ → Writer → Writer
describe dev baud w = record w { dev = dev; baud = baud }

abbrev pub log_path : Answers → Writer → Bytes
log_path a w = w.dir ++ slash ++ a.day ++ codes ".log"

-- What an operation leaves: the writer, the disk, and the error that it returns.
pub record Outcome : Type 0 where
  pub writer : Writer
  pub disk : Disk
  pub error : Option LogError

-- A step, unless the one before failed.
unfoldable pub then_do : (Writer → Disk → Outcome) → Outcome → Outcome
unfolding maybe
then_do next o = maybe (next o.writer o.disk) (λ e. o) o.error

-- The loop of `Write`: what is put into the buffer, whether the end is at the beginning of a line, and
-- whether there was a newline. The number counts the readings of the clock.
unfoldable pub fill : Bool → (ℕ → Bytes) → ℕ → Bool → Bytes → Bytes × Bool × Bool
fill stamped stamp i bol [] = ([], bol, false)
fill stamped stamp i bol (b ∷ p) =
    let (more, end, saw) = fill stamped stamp (if bol then suc i else i) (b == 10) p in
    ((if bol && stamped then stamp i else []) ++ b ∷ more, end, b == 10 || saw)

-- The error of the writer is that of the flush.
unfoldable pub keep_error : Outcome → Outcome
unfolding maybe
keep_error o = maybe o (λ e. record o { writer = record o.writer { err = some e } }) o.error

abbrev pub note_line : Bytes → Bytes → Bytes
note_line stamp msg = codes "[sercond " ++ stamp ++ codes "] " ++ msg ++ codes "\n"

-- `Path`
unfoldable pub path_of : Answers → Writer → Bytes
path_of a w = if is_empty w.path then log_path a w else w.path

-- `Close`
unfoldable pub close_file : Answers → Outcome → Outcome
unfolding maybe
close_file a o =
    let w = o.writer in
    if w.f
    then record {
      writer = record w { f = false };
      disk = o.disk;
      error = maybe (if a.closes then none else some (close_failed w.path)) (λ e. some e) o.error;
    }
    else o

module _ (decimal : ℤ → Bytes) where
  -- The header of a new file.
  unfoldable pub header_text : Answers → Writer → Bytes
  header_text a w =
      codes "=== sercond | "
      ++ a.time
      ++ codes " | port="
      ++ w.port
      ++ codes " dev="
      ++ w.dev
      ++ codes " baud="
      ++ decimal w.baud
      ++ codes " ===\n"

  -- `ensureLocked` once the file of the day is open.
  unfoldable pub begin_file : Answers → Bytes → Writer → Disk → Outcome
  unfolding maybe
  begin_file a path w d =
      let opened = record w { f = true; path = path; day = a.day } in
      if a.stats && is_empty (content path d)
      then maybe
          record { writer = opened; disk = d ++ header path (header_text a w) ∷ []; error = none }
          (λ n. record {
            writer = w;
            disk = d ++ header path (take n (header_text a w)) ∷ [];
            error = some (header_failed path);
          })
          a.header_fails
      else record { writer = opened; disk = d; error = none }

  -- `ensureLocked`
  unfoldable pub ensure : Answers → Writer → Disk → Outcome
  ensure a w d =
      let closed = record w { f = false } in
      if w.f && str_eq w.day a.day
      then record { writer = w; disk = d; error = none }
      else if not a.opens
      then record { writer = closed; disk = d; error = some (open_failed (log_path a w)) }
      else begin_file a (log_path a w) closed d

  -- `flushLocked` once the file is open.
  unfoldable pub flush_open : Answers → Writer → Disk → Outcome
  unfolding maybe
  flush_open a w d =
      if is_empty w.buf
      then record { writer = w; disk = d; error = none }
      else maybe
          record {
            writer = record w { buf = [] };
            disk = d ++ chunk w.path w.buf ∷ [];
            error = none;
          }
          (λ n. record {
            writer = w;
            disk = d ++ chunk w.path (take n w.buf) ∷ [];
            error = some (write_failed w.path);
          })
          a.write_fails

  -- `flushLocked`
  unfoldable pub flush_locked : Answers → Writer → Disk → Outcome
  flush_locked a w d = then_do (flush_open a) (ensure a w d)

  -- `Write`, which reports the whole of `p` as written in any case.
  unfoldable pub write : Answers → Bytes → Writer → Disk → Outcome
  unfolding maybe
  write a p w d =
      let counted = record w { total = (w.total + length p) % 2 ^ 64 } in
      let (more, end, saw) = fill w.stamped a.stamp 0 w.at_bol p in
      let filled = record counted { buf = w.buf ++ more; at_bol = end } in
      maybe
        (if saw || leb flush_at (length (w.buf ++ more))
          then keep_error (flush_locked a filled d)
          else record { writer = filled; disk = d; error = none })
        (λ e. record { writer = counted; disk = d; error = some e }) w.err

  -- `Flush`
  unfoldable pub flush : Answers → Writer → Disk → Outcome
  unfolding maybe
  flush a w d =
      maybe
        (if is_empty w.buf
          then record { writer = w; disk = d; error = none }
          else flush_locked a w d)
        (λ e. record { writer = w; disk = d; error = some e }) w.err

  -- `Note` behind its flush of a partial line, which has its own answers.
  unfoldable pub put_note : Answers → Bytes → Writer → Disk → Outcome
  put_note a msg w d =
      flush_locked a record w { buf = w.buf ++ note_line (a.stamp 0) msg; at_bol = true } d

  -- `Note`
  unfoldable pub note : Answers → Answers → Bytes → Writer → Disk → Outcome
  unfolding maybe
  note first a msg w d =
      maybe
        (if is_empty w.buf
          then put_note a msg w d
          else then_do (put_note a msg) (flush_locked first w d))
        (λ e. record { writer = w; disk = d; error = some e }) w.err

  -- `Close` with the flush before it
  unfoldable pub close : Answers → Writer → Disk → Outcome
  unfolding maybe
  close a w d =
      let idle : Outcome = record { writer = w; disk = d; error = none } in
      close_file a (if is_empty w.buf then idle else maybe (flush_locked a w d) (λ e. idle) w.err)
