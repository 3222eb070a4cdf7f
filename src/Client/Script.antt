-- ===== src/Client/Script.antt =====
-- cmd/sercon/run.go: `parseScript` and `buildSteps`. What `regexp.Compile` and `time.ParseDuration` make of a text
-- is a parameter; a compiled expression stands for its text. A script is given as its lines.
use sercon.Prelude.{
  ℕ, ◌+◌, Bool, ◌||◌, Option, List, [], ◌∷◌, ◌++◌, ◌==◌, if◌then◌else◌, maybe, ℤ, Bytes, codes,
  str_eq, is_empty, has_prefix,
}
use sercon.Prelude.Strings.{trim_by, trim_space}
use sercon.Client.Escapes.{EscapeError, Unescaped, text, failed, unescape}
pub mod Lines

-- What a step does, with its origin.
pub data Action : Type 0 where
  send wait : Bytes → Action
  sleep : ℤ → Action

pub data Origin : Type 0 where
  at_line : ℕ → Origin
  of_send of_options : Origin
  of_expect : ℕ → Origin

pub record Step : Type 0 where
  pub action : Action
  pub origin : Origin

pub data Mistake : Type 0 where
  bad_text : EscapeError → Mistake
  bad_expression bad_duration nothing_to_do : Mistake
  unknown_command : Bytes → Mistake

pub data Read : Type 0 where
  steps : List Step → Read
  mistake : Origin → Mistake → Read

-- A step before others.
unfoldable pub first_step : Step → Read → Read
first_step s (steps ss) = steps (s ∷ ss)
first_step s (mistake o m) = mistake o m

abbrev pub is_blank : ℕ → Bool
is_blank c = c == b' ' || c == b'\t'

-- The verb of a line, and what is behind its first blank.
unfoldable pub verb : Bytes → Bytes
verb [] = []
verb (c ∷ s) = let rest = verb s in if is_blank c then [] else c ∷ rest

unfoldable pub behind_verb : Bytes → Bytes
behind_verb [] = []
behind_verb (c ∷ s) = let rest = behind_verb s in if is_blank c then s else rest

-- The argument: blanks and then double quotes are trimmed.
unfoldable pub argument : Bytes → Bytes
argument raw = trim_by (λ c. c == b'"') (trim_space (behind_verb raw))

-- What a line says.
pub data Said : Type 0 where
  nothing : Said
  said : Action → Said
  wrong : Mistake → Said

abbrev pub said_send : Bytes → Unescaped → Said
said_send end (text t) = said (send (t ++ end))
said_send end (failed e) = wrong (bad_text e)

module _ (compile : Bytes → Bool) (duration : Bytes → Option ℤ) where
  unfoldable pub read_command : Bytes → Bytes → Said
  unfolding maybe
  read_command v arg =
      if str_eq v (codes "send")
      then said_send [] (unescape arg)
      else if str_eq v (codes "sendln")
      then said_send (13 ∷ 10 ∷ []) (unescape arg)
      else if str_eq v (codes "wait")
      then (if compile arg then said (wait arg) else wrong bad_expression)
      else if str_eq v (codes "sleep")
      then maybe (wrong bad_duration) (λ d. said (sleep d)) (duration arg)
      else wrong (unknown_command v)

  -- One round of the loop of `parseScript`
  unfoldable pub read_line : Bytes → Said
  read_line l =
      let raw = trim_space l in
      if is_empty raw || has_prefix (codes "#") raw
      then nothing
      else read_command (verb raw) (argument raw)

  abbrev pub add_said : ℕ → Said → Read → Read
  add_said n nothing r = r
  add_said n (said a) r = first_step (record { action = a; origin = at_line n }) r
  add_said n (wrong m) r = mistake (at_line n) m

  -- `parseScript` from a line's number on
  unfoldable pub parse_lines : ℕ → List Bytes → Read
  parse_lines n [] = steps []
  parse_lines n (l ∷ ls) = add_said n (read_line l) (parse_lines (n + 1) ls)

  unfoldable pub parse_script : List Bytes → Read
  parse_script ls = parse_lines 1 ls

  -- The loop of `buildSteps` over the expressions
  unfoldable pub expect_steps : ℕ → List Bytes → Read
  expect_steps i [] = steps []
  expect_steps i (e ∷ es) =
      let rest = expect_steps (i + 1) es in
      if compile e
      then first_step (record { action = wait e; origin = of_expect (i + 1) }) rest
      else mistake (of_expect (i + 1)) bad_expression

  abbrev pub send_steps : Unescaped → Read → Read
  send_steps (text t) r = first_step (record { action = send t; origin = of_send }) r
  send_steps (failed e) r = mistake of_send (bad_text e)

  abbrev pub some_steps : Read → Read
  some_steps (steps []) = mistake of_options nothing_to_do
  some_steps r = r

  -- `buildSteps`, with the lines of the script if there is one
  unfoldable pub build_steps : Option (List Bytes) → Bytes → List Bytes → Read
  unfolding maybe
  build_steps script sent expects =
      maybe
        (some_steps (
          if is_empty sent
          then expect_steps 0 expects
          else send_steps (unescape sent) (expect_steps 0 expects)))
        parse_script script
