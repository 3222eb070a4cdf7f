-- ===== src/Client/Args/Flags.antt =====
-- The syntax of Go's package flag, as its documentation states it, written independently of cmd/sercon/main.go: what an
-- argument is, how the package reads arguments, and what arguments mean with flags anywhere.
use sercon.Prelude.{
  ℕ, Bool, true, false, ◌||◌, not, Option, none, some, List, [], ◌∷◌, ◌==◌, if◌then◌else◌, maybe,
  Bytes, is_empty,
}

pub data Word : Type 0 where
  positional terminator bad : Word
  flag : Bytes → Option Bytes → Word

-- A text at its first `=`.
unfoldable pub cut : Bytes → Bytes × Option Bytes
cut [] = ([], none)
cut (c ∷ s) = let (n, v) = cut s in if c == b'=' then ([], some s) else (c ∷ n, v)

-- What stands behind one or two dashes: a name, or a name with a value.
unfoldable pub flag_word : Bytes → Word
flag_word [] = bad
flag_word (c ∷ s) = let (n, v) = cut (c ∷ s) in if c == b'-' || c == b'=' then bad else flag n v

unfoldable pub dashed : ℕ → Bytes → Word
dashed y s =
    if not (y == b'-') then flag_word (y ∷ s) else if is_empty s then terminator else flag_word s

unfoldable pub word_of : Bytes → Word
word_of [] = positional
word_of (x ∷ []) = positional
word_of (x ∷ y ∷ s) = if x == b'-' then dashed y s else positional

-- The flags with their values, and the positional arguments; none is an error.
abbrev pub Reading : Type 0
Reading = Option (List (Bytes × Option Bytes) × List Bytes)

unfoldable pub add_flag : Bytes → Option Bytes → Reading → Reading
unfolding maybe
add_flag n v r =
    maybe none (λ (p : List (Bytes × Option Bytes) × List Bytes). some ((n, v) ∷ p.0, p.1)) r

unfoldable pub add_positional : Bytes → Reading → Reading
unfolding maybe
add_positional a r =
    maybe none (λ (p : List (Bytes × Option Bytes) × List Bytes). some (p.0, a ∷ p.1)) r

-- Whether a flag is known, and whether it is a Boolean one.
module _ (lookup : Bytes → Option Bool) where
  -- A flag that needs a value.
  unfoldable pub needs : Bytes → Bool
  unfolding maybe
  needs n = maybe false not (lookup n)

  -- A flag, by what comes of the arguments behind it as they are, and with the first as its value.
  unfoldable pub met : Bytes → Option Bytes → Option Bool → Reading → Reading → Reading
  met n v none rest taken = none
  met n (some v) (some b) rest taken = add_flag n (some v) rest
  met n none (some true) rest taken = add_flag n none rest
  met n none (some false) rest taken = taken

  unfoldable pub parse_word : Word → Bytes → List Bytes → Reading → (Bytes → Reading) → Reading
  parse_word positional a args rest taken = some ([], a ∷ args)
  parse_word terminator a args rest taken = some ([], args)
  parse_word bad a args rest taken = none
  parse_word (flag n v) a args rest taken = met n v (lookup n) rest (taken n)

  -- How the package reads arguments: up to the first that is no flag. A name that is given waits for its value.
  unfoldable pub parse : Option Bytes → List Bytes → Reading
  parse (some n) [] = none
  parse (some n) (a ∷ args) = add_flag n (some a) (parse none args)
  parse none [] = some ([], [])
  parse none (a ∷ args) = parse_word (word_of a) a args (parse none args) (λ n. parse (some n) args)

  -- What arguments mean when flags may stand anywhere among the positional ones, and `--` is not used.
  unfoldable pub gather_word : Word → Bytes → Reading → (Bytes → Reading) → Reading
  gather_word positional a rest taken = add_positional a rest
  gather_word terminator a rest taken = none
  gather_word bad a rest taken = none
  gather_word (flag n v) a rest taken = met n v (lookup n) rest (taken n)

  unfoldable pub gather : Option Bytes → List Bytes → Reading
  gather (some n) [] = none
  gather (some n) (a ∷ args) = add_flag n (some a) (gather none args)
  gather none [] = some ([], [])
  gather none (a ∷ args) = gather_word (word_of a) a (gather none args) (λ n. gather (some n) args)
