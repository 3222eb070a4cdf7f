-- ===== src/Portlog/Tests.antt =====
-- internal/portlog/portlog.go: writers and names to run the functions on.
use sercon.Prelude.{
  ◌≡◌, refl, Bool, true, false, none, some, List, [], ◌∷◌, ◌++◌, arith, ℤ, pos, Bytes, codes,
  str_eq, upper, has_prefix,
}
use sercon.Prelude.Strings.{has_text}
use sercon.Portlog.Names.{
  safe_name, sanitize, is_safe_char, before_dot, from_dot, is_reserved_base, reserved_device_name,
}
use sercon.Portlog.Names.Safe.{IsDirectoryName, safe_name-IsDirectoryName}
use sercon.Portlog.Writer.{Answers, Writer, Outcome, open_failed}
use sercon.Portlog.Writer.Runs.{
  logged, Op, describe_as, write_out, flush_now, note_down, told, IsWorking, IsFaithful, run,
}
use sercon.Portlog.Writer.Output.{run-IsFaithful}

abbrev sound : Answers
sound = record {
  stamp = λ i. codes "now ";
  day = codes "day";
  time = codes "t";
  opens = true;
  stats = true;
  header_fails = none;
  write_fails = none;
  closes = true;
}

abbrev fresh : Writer
fresh = record {
  dir = codes "d";
  port = codes "COM1";
  path = [];
  dev = [];
  baud = pos 0;
  stamped = true;
  day = [];
  f = false;
  buf = [];
  at_bol = true;
  total = 0;
  err = none;
}

abbrev decimal : ℤ → Bytes
decimal z = codes "9600"

abbrev calls : List Op
calls =
    describe_as (codes "dev") (pos 9600)
    ∷ write_out sound (codes "lo")
    ∷ flush_now sound
    ∷ write_out sound (codes "gin\nok")
    ∷ note_down sound sound (codes "note")
    ∷ []

sound-IsWorking : IsWorking sound
sound-IsWorking = record {
  opened = refl;
  headed = refl;
  written = refl;
  one_line = λ i. (refl, (refl, (refl, (refl, tt))));
}

run-IsFaithful_example :
    (end : Bool) × IsFaithful true end
      ([] ++ told true true calls)
      (run decimal calls (record { writer = fresh; disk = []; error = none }))
unfolding logged
run-IsFaithful_example =
    run-IsFaithful decimal calls true true [] (record { writer = fresh; disk = []; error = none })
      (
        tt,
        (
          sound-IsWorking,
          (sound-IsWorking, (sound-IsWorking, ((sound-IsWorking, sound-IsWorking), tt))),
        ),
      )
      (record {
        shown = refl;
        line = refl;
        stamps = refl;
        no_error = refl;
        returned = refl;
        part = tt;
        short = omega arith;
      })

abbrev broken : Outcome
broken = record {
  writer = record fresh { err = some (open_failed (codes "p")) };
  disk = [];
  error = none;
}

safe_name-IsDirectoryName_example : IsDirectoryName (safe_name (codes "com1.log"))
safe_name-IsDirectoryName_example = safe_name-IsDirectoryName (codes "com1.log")

com1 : safe_name (codes "com1.log") ≡ codes "com1_.log"
unfolding safe_name sanitize is_safe_char before_dot from_dot is_reserved_base reserved_device_name
    str_eq has_prefix upper has_text
com1 = refl

-- Two ports may share a directory.
same_directory : safe_name (codes "COM1") ≡ safe_name (codes "COM1_")
unfolding safe_name sanitize is_safe_char before_dot from_dot is_reserved_base reserved_device_name
    str_eq has_prefix upper has_text
same_directory = refl

parent : safe_name (codes "..") ≡ codes ".."
unfolding safe_name sanitize is_safe_char before_dot from_dot is_reserved_base reserved_device_name
    str_eq has_prefix upper has_text
parent = refl
