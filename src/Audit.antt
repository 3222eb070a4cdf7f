-- ===== src/Audit.antt =====
-- internal/audit/audit.go: `Logger`. Readings of the clock, the JSON of an event and what the file system answers are
-- inputs.
use sercon.Prelude.{
  ℕ, ◌⊎◌, inl, inr, Bool, true, false, ◌&&◌, not, Option, none, some, List, [], ◌∷◌, ◌++◌,
  if◌then◌else◌, maybe, take, Bytes, str_eq, is_empty,
}
pub mod Kept
mod Tests

-- The record of an event, which may carry a time, with its JSON if it has one.
pub record Record : Type 0 where
  pub ts : Bytes
  pub json : Bytes → Option Bytes

pub data AuditError : Type 0 where
  create_failed marshal_failed open_failed write_failed : AuditError

-- What the clock and the file system answer; a failed write has written some bytes.
pub record AuditCalls : Type 0 where
  pub now : Bytes
  pub day : Bytes
  pub opens : Bool
  pub write_fails : Option ℕ

-- `Logger`; `f` says whether its file is open.
pub record Logger : Type 0 where
  pub dir : Bytes
  pub day : Bytes
  pub f : Bool
  pub err : Option AuditError

-- What was appended to which day's file, in order.
abbrev pub Trail : Type 0
Trail = List (Bytes × Bytes)

-- `New`, with whether the directory could be made
unfoldable pub new_logger : Bool → Bytes → AuditError ⊎ Logger
new_logger made dir =
    if made then inr record { dir = dir; day = []; f = false; err = none } else inl create_failed

-- `rotateLocked`; the second part is whether it failed
unfoldable pub rotate : AuditCalls → Logger → Logger × Bool
rotate c l =
    if l.f && str_eq l.day c.day
    then (l, false)
    else if not c.opens
    then (record l { f = false }, true)
    else (record l { f = true; day = c.day }, false)

-- `setErr`
unfoldable pub set_err : AuditError → Logger → Logger
set_err e l = record l { err = some e }

-- `Log` with the marshalled line
unfoldable pub log_line : AuditCalls → Bytes → Logger → Trail → Logger × Trail
unfolding maybe
log_line c line l t =
    let (rotated, failed) = rotate c l in
    if failed
    then (set_err open_failed rotated, t)
    else maybe (rotated, t ++ (rotated.day, line) ∷ [])
        (λ n. (set_err write_failed rotated, t ++ (rotated.day, take n line) ∷ [])) c.write_fails

-- `Log`
unfoldable pub log : AuditCalls → Record → Logger → Trail → Logger × Trail
unfolding maybe
log c ev l t =
    let ts = if is_empty ev.ts then c.now else ev.ts in
    maybe (set_err marshal_failed l, t) (λ json. log_line c (json ++ 10 ∷ []) l t) (ev.json ts)

-- `Close`
unfoldable pub close_logger : Logger → Logger
close_logger l = if not l.f then l else record l { f = false }
