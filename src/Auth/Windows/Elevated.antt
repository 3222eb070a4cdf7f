-- ===== src/Auth/Windows/Elevated.antt =====
-- internal/sshauth/platform_windows.go: reading and writing behind an elevation prompt.
use sercon.Prelude.{
  ℕ, ◌≡◌, refl, ap, ◌∙◌, Bool, true, false, ◌||◌, not, Option, none, some, List, [], ◌∷◌, ◌++◌, leb,
  ◌==◌, if◌then◌else◌, maybe, All, Bytes, codes, has_prefix, contains,
}
use sercon.Prelude.Strings.{
  split_on, trim_space, trim_left, trim_right, trim_by, is_space, join, IsFree, split_by,
  split_by-append,
}

-- Whether a line is the one that the helper appends
unfoldable pub is_exit_marker : Bytes → Bool
is_exit_marker l = has_prefix (codes "EXIT=") (trim_space l)

-- The loop of `stripExitMarker`, and the function
unfoldable pub without_markers : List Bytes → List Bytes
without_markers [] = []
without_markers (l ∷ ls) =
    let rest = without_markers ls in if is_exit_marker l then rest else l ∷ rest

unfoldable pub strip_exit_marker : Bytes → Bytes
strip_exit_marker s = join (10 ∷ []) (without_markers (split_on 10 s))

-- Why something elevated fails.
pub data ElevateError : Type 0 where
  no_temp not_written cancelled cannot_elevate no_report unread : ElevateError
  reported : Bytes → ElevateError

pub data Elevated {ℓ} (A : Type ℓ) : Type ℓ where
  done : A → Elevated A
  failed : ElevateError → Elevated A

-- What the file system and the prompt answer: `ShellExecuteW`'s result and error, whether the result file is there at
-- each look before the deadline, and what it then holds.
pub record Prompt : Type 0 where
  pub temp_made : Bool
  pub payload_written : Bool
  pub script_written : Bool
  pub shell_execute : ℕ
  pub errno : ℕ
  pub looks : List Bool
  pub result : Option Bytes

-- `waitForFile`
unfoldable pub wait_for_file : List Bool → Bool
wait_for_file [] = false
wait_for_file (found ∷ looks) = found || wait_for_file looks

-- `runElevatedScript`
unfoldable pub run_elevated_script : Prompt → Option ElevateError
run_elevated_script p =
    if leb p.shell_execute 32
    then (if p.errno == 1223 then some cancelled else some cannot_elevate)
    else if not (wait_for_file p.looks)
    then some no_report
    else none

-- `ReadElevated`
unfoldable pub read_elevated : Prompt → Elevated Bytes
unfolding maybe
read_elevated p =
    if not p.temp_made
    then failed no_temp
    else if not p.script_written
    then failed not_written
    else maybe (maybe (failed unread) (λ s. done (strip_exit_marker s)) p.result) failed
        (run_elevated_script p)

-- The answer that `RunElevated` reads out of the result
unfoldable pub outcome_of : Bytes → Elevated (Unit {0})
outcome_of out =
    if not (contains (codes "EXIT=0") out)
    then failed (reported (trim_space (strip_exit_marker out)))
    else done tt

-- `RunElevated`
unfoldable pub run_elevated : Prompt → Elevated (Unit {0})
unfolding maybe
run_elevated p =
    if not p.temp_made
    then failed no_temp
    else if not p.payload_written || not p.script_written
    then failed not_written
    else maybe (maybe (failed unread) outcome_of p.result) failed (run_elevated_script p)

-- Whether a file can be opened for writing, and `NeedsElevation`
pub data Opening : Type 0 where
  opened permission_denied other_error : Opening

unfoldable pub needs_elevation : Opening → Bool
needs_elevation permission_denied = true
needs_elevation _ = false

-- What the helper's last command appends on success, and the lines of a file with a line end behind each.
abbrev pub exit_line : Bytes
exit_line = codes "EXIT=0 " ++ 13 ∷ 10 ∷ []

abbrev pub IsPlain : Bytes → Type 0
IsPlain l = IsFree (λ c. c == 10) l × (is_exit_marker l ≡ false)

abbrev pub ended : List Bytes → Bytes → Bytes
ended [] s = s
ended (l ∷ ls) s = l ++ 10 ∷ ended ls s

split_on-ended :
    (ls : List Bytes) (s : Bytes)
    → All IsPlain ls
    → without_markers (split_on 10 (ended ls s)) ≡ ls ++ without_markers (split_on 10 s)
unfolding without_markers
split_on-ended [] s h = refl
split_on-ended (l ∷ ls) s h =
    rw (split_by-append (λ c. c == 10) l 10 (ended ls s) h.0.0 refl)
      (rw h.0.1 (ap (λ x. l ∷ x) (split_on-ended ls s h.1)))

join-ended : (ls : List Bytes) → join (10 ∷ []) (ls ++ [] ∷ []) ≡ ended ls []
unfolding join
join-ended [] = refl
join-ended (l ∷ []) = refl
join-ended (l ∷ k ∷ ls) = ap (λ x. l ++ 10 ∷ x) (join-ended (k ∷ ls))

exit_line_goes : without_markers (split_on 10 exit_line) ≡ [] ∷ []
unfolding without_markers split_by is_exit_marker has_prefix trim_by trim_left trim_right is_space
exit_line_goes = refl

-- A file whose every line ends in a line feed, and has no line like the marker, is read through the prompt as it is.
pub read_elevated-file :
    (p : Prompt) (ls : List Bytes)
    → p.temp_made ≡ true
    → p.script_written ≡ true
    → run_elevated_script p ≡ none
    → p.result ≡ some (ended ls exit_line)
    → All IsPlain ls
    → read_elevated p ≡ done (ended ls [])
unfolding read_elevated strip_exit_marker maybe
read_elevated-file p ls made wrote ran read plain =
    simp (made, wrote, ran, read)
      (ap (λ x. done (join (10 ∷ []) x))
          (split_on-ended ls exit_line plain ∙ ap (λ x. ls ++ x) exit_line_goes)
        ∙ ap done (join-ended ls))
