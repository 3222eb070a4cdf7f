-- ===== src/Client/Replies.antt =====
-- cmd/sercon/main.go: `readUntil`, on the frames that the reader gives. What `json.Unmarshal` makes of a
-- control frame is a parameter.
use sercon.Prelude.{
  ◌≡◌, sym, ap, ◌∙◌, Option, none, some, List, [], ◌∷◌, ◌++◌, append-nil, append_assoc, ◌==◌,
  if◌then◌else◌, All, Bytes, codes, str_eq,
}
use sercon.Proto.Frame.{Frame, ReadError, type_data}

-- What `readUntil` reads of a message: its operation and its text.
pub record Reply : Type 0 where
  pub op : Bytes
  pub text : Bytes

pub data Answer : Type 0 where
  replied : Reply → Answer
  refused_with : Bytes → Answer
  broke_off : ReadError → Answer

abbrev op_error : Bytes
op_error = codes "error"

-- What the loop does with a control frame.
pub data Verdict : Type 0 where
  passed_over : Verdict
  answered : Answer → Verdict

unfoldable pub judge : Bytes → Option Reply → Verdict
judge want none = passed_over
judge want (some m) =
    if str_eq m.op op_error
    then answered (refused_with m.text)
    else if str_eq m.op want
    then answered (replied m)
    else passed_over

module _ (unmarshal : Bytes → Option Reply) where
  -- What a frame of the conversation does. The reader gives no frame of another type.
  unfoldable pub judge_frame : Bytes → Frame → Verdict
  judge_frame want f = if f.type == type_data then passed_over else judge want (unmarshal f.payload)

  abbrev pub serial : Frame → Bytes
  serial f = if f.type == type_data then f.payload else []

  -- `readUntil` on the frames that come, and the error after the last: the answer, the serial data that
  -- came before it, and the frames that are still to be read.
  unfoldable pub read_until : Bytes → Bytes → List Frame → ReadError → Answer × Bytes × List Frame
  read_until want pending [] e = (broke_off e, pending, [])
  read_until want pending (f ∷ fs) e = elim (judge_frame want f) [
    | answered a ↦ (a, pending, fs)
    | passed_over ↦ read_until want (pending ++ serial f) fs e
  ]

  -- The serial data of some frames.
  abbrev pub all_serial : List Frame → Bytes
  all_serial [] = []
  all_serial (f ∷ fs) = serial f ++ all_serial fs

  abbrev pub IsPassedOver : Bytes → Frame → Type 0
  IsPassedOver want f = judge_frame want f ≡ passed_over

  read_until-pending :
      (want pending : Bytes) (fs : List Frame) (f : Frame) (rest : List Frame) (e : ReadError)
      (a : Answer)
      → All (IsPassedOver want) fs
      → judge_frame want f ≡ answered a
      → read_until want pending (fs ++ f ∷ rest) e ≡ (a, pending ++ all_serial fs, rest)
  unfolding read_until
  read_until-pending want pending [] f rest e a h last =
      rw (last, read_until) (ap (λ x. (a, x, rest)) (sym (append-nil pending)))
  read_until-pending want pending (g ∷ fs) f rest e a h last =
      rw (h.0, read_until)
        (read_until-pending want (pending ++ serial g) fs f rest e a h.1 last
          ∙ ap (λ x. (a, x, rest)) (append_assoc pending (serial g) (all_serial fs)))

  -- Up to the first frame that answers, the client keeps all serial data in order and passes over every
  -- control frame that is malformed or says something else; what comes after that frame is not read.
  pub read_until-answer :
      (want : Bytes) (fs : List Frame) (f : Frame) (rest : List Frame) (e : ReadError) (a : Answer)
      → All (IsPassedOver want) fs
      → judge_frame want f ≡ answered a
      → read_until want [] (fs ++ f ∷ rest) e ≡ (a, all_serial fs, rest)
  read_until-answer want fs f rest e a h last = read_until-pending want [] fs f rest e a h last
