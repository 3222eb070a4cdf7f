-- ===== src/Client/Args.antt =====
-- cmd/sercon/main.go: the order of the arguments and the command line of ssh. What the flag package knows of a
-- name is a parameter.
use sercon.Prelude.{
  ℕ, Bool, true, false, ◌||◌, not, List, [], ◌∷◌, ◌++◌, ltb, ◌==◌, if◌then◌else◌, length, Bytes,
  codes, str_eq, is_empty,
}
use sercon.Prelude.Strings.{trim_left}
pub mod Order
pub mod Flags
pub mod Words

-- What `reorderArgs` asks package flag of a name: whether the flag is there and is not a Boolean one.
-- `strings.IndexByte(name, '=') >= 0`
unfoldable pub has_byte : ℕ → Bytes → Bool
has_byte c [] = false
has_byte c (x ∷ s) = x == c || has_byte c s

abbrev pub dashes : Bytes
dashes = codes "--"

abbrev pub starts_with : ℕ → Bytes → Bool
starts_with c [] = false
starts_with c (x ∷ s) = x == c

-- `len(a) < 2 || a[0] != '-' || a == "-"`
unfoldable pub is_positional : Bytes → Bool
is_positional a = ltb (length a) 2 || (not (starts_with b'-' a) || str_eq a (codes "-"))

module _ (takes_value : Bytes → Bool) where
  -- Whether the argument behind a flag is its value.
  unfoldable pub wants_next : Bytes → Bool
  wants_next a =
      let name = trim_left (λ c. c == b'-') a in
      if has_byte b'=' name then false else takes_value name

  -- The loop of `reorderArgs`: the flags and the positional arguments. The first argument says whether the next
  -- one is the value of a flag.
  unfoldable pub sort_args : Bool → List Bytes → List Bytes × List Bytes
  sort_args want [] = ([], [])
  sort_args true (a ∷ args) =
      let (flags, positional) = sort_args false args in (a ∷ flags, positional)
  sort_args false (a ∷ args) =
      let (flags, positional) = sort_args false args in
      let (more, others) = sort_args (wants_next a) args in
      if str_eq a dashes
      then ([], args)
      else if is_positional a
      then (flags, a ∷ positional)
      else (a ∷ more, others)

  -- `reorderArgs`
  unfoldable pub reorder_args : List Bytes → List Bytes
  reorder_args args = let (flags, positional) = sort_args false args in flags ++ positional

-- What `options.sshCommand` reads of the options.
pub record SshOptions : Type 0 where
  pub target : Bytes
  pub ssh_port : Bytes
  pub ssh_bin : Bytes
  pub ssh_opts : List Bytes

pub record Command : Type 0 where
  pub bin : Bytes
  pub args : List Bytes

unfoldable pub option_args : List Bytes → List Bytes
option_args [] = []
option_args (o ∷ os) = codes "-o" ∷ o ∷ option_args os

-- `options.sshCommand`
unfoldable pub ssh_command : SshOptions → Bytes → Command
ssh_command o remote = record {
  bin = if is_empty o.ssh_bin then codes "ssh" else o.ssh_bin;
  args =
      (codes "-T" ∷ (if is_empty o.ssh_port then [] else codes "-p" ∷ o.ssh_port ∷ []))
      ++ (codes "-o"
          ∷ codes "ServerAliveInterval=15"
          ∷ codes "-o"
          ∷ codes "ServerAliveCountMax=4"
          ∷ [])
      ++ option_args o.ssh_opts
      ++ (o.target ∷ remote ∷ []);
}

-- `options.validate`: whether there is no error
unfoldable pub validate : SshOptions → Bool
validate o = not (is_empty o.target)
