-- ===== src/Gui/Tests.antt =====
-- cmd/sercon-gui/keys_windows.go: panels to run.
use sercon.Prelude.{
  ◌≡◌, refl, true, false, none, some, List, [], ◌∷◌, maybe, drop, Bytes, codes, str_eq, has_prefix,
}
use sercon.Prelude.Strings.{
  is_space, split_by, join, trim_by, trim_left, trim_right, fields, has_text,
}
use sercon.Prelude.Sort.{sort_by}
use sercon.Auth.Keys.{
  Codec, check_blob_header, fingerprint_of, checked_key, parse_fields, parse_key, text,
  sorted_by_comment,
}
use sercon.Auth.File.{
  split_lines, add_all, new_keys, kept_lines, drop_blank, parse_keys, parse_lines, result_key,
  replace_crlf, render,
}
use sercon.Gui.KeyPanel.{
  KeyPanel, World, Outside, contents, unreadable, Event, reload, press_reload, press_add, typed,
  tick, destroy, worker_ends, happen, begin, command, start_add, do_work, load_key, read_again,
  add_key, apply_completion, accepts, show_found, drain_completions, keys_of_lines, parse_key_lines,
}
use sercon.Gui.KeyPanel.Jobs.{happen_all}

abbrev plain : Codec
plain = record {
  decode_string = λ s. some (0 ∷ 0 ∷ 0 ∷ 7 ∷ s);
  sum256 = λ s. s;
  encode_raw = λ s. drop 4 s;
}

abbrev opened : KeyPanel
opened = record {
  path = codes "keys";
  keys = [];
  raw = [];
  job = record { generation = 0; busy = false };
  input = [];
  destroyed = false;
  completions = [];
}

abbrev empty_file : World
empty_file = record { panel = opened; running = []; file = some [] }

abbrev reading : Outside
reading = record {
  read = contents [];
  needs_elevation = false;
  elevated = none;
  writes = true;
  settles = true;
}

abbrev some_events : List Event
some_events =
    typed (codes "ssh-rsa ssh-rsaAA new")
    ∷ press_reload
    ∷ worker_ends reading
    ∷ tick
    ∷ press_add
    ∷ destroy
    ∷ []

-- A file that cannot be read without elevation, when the panel opens.
abbrev old_key : Bytes
old_key = codes "ssh-rsa ssh-rsaOLD a\n"

abbrev hidden_file : World
hidden_file = record {
  panel = record opened { job = record { generation = 1; busy = true } };
  running = reload 1 false ∷ [];
  file = some old_key;
}

abbrev denied : Outside
denied = record {
  read = unreadable;
  needs_elevation = true;
  elevated = some old_key;
  writes = true;
  settles = true;
}

-- The key that is added then takes the place of those that the file had.
old_key_lost :
    (happen_all plain
      (worker_ends denied
        ∷ tick
        ∷ typed (codes "ssh-rsa ssh-rsaNEW b")
        ∷ press_add
        ∷ worker_ends denied
        ∷ [])
      hidden_file).file
    ≡ some (codes "ssh-rsa ssh-rsaNEW b\n")
unfolding happen begin command start_add do_work load_key read_again add_key apply_completion
    accepts show_found drain_completions keys_of_lines parse_key_lines add_all new_keys kept_lines
    drop_blank split_lines render parse_keys parse_lines result_key replace_crlf sorted_by_comment
    sort_by parse_key trim_by trim_left trim_right is_space fields split_by parse_fields has_text
    str_eq checked_key check_blob_header fingerprint_of join maybe has_prefix text
old_key_lost = refl
