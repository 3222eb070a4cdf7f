-- ===== src/Auth/Windows/Tests.antt =====
-- internal/sshauth/platform_windows.go: a machine whose account "lu" is an administrator by its token only.
use sercon.Prelude.{◌≡◌, refl, true, false, none, some, [], ◌∷◌, Bytes, codes, has_prefix}
use sercon.Prelude.Strings.{trim_by, trim_left, trim_right, is_space}
use sercon.Auth.Windows.{Machine}
use sercon.Auth.Windows.Elevated.{
  Prompt, done, ended, exit_line, read_elevated, read_elevated-file, run_elevated_script,
  wait_for_file, is_exit_marker,
}

-- S-1-5-32-544, which Windows has for Administrators
abbrev administrators : Bytes
administrators = 1 ∷ 2 ∷ 0 ∷ 0 ∷ 0 ∷ 0 ∷ 0 ∷ 5 ∷ 32 ∷ 0 ∷ 0 ∷ 0 ∷ 32 ∷ 2 ∷ 0 ∷ 0 ∷ []

abbrev office : Machine
office = record {
  username = codes "lu";
  user = [];
  program_data = [];
  user_profile = [];
  user_home = none;
  local_groups = λ name. some (some (codes "Users") ∷ []);
  check_token_membership = λ sid. none;
  token_groups = some (1 ∷ 0 ∷ 0 ∷ 0 ∷ 7 ∷ 0 ∷ 0 ∷ 0 ∷ 0 ∷ 0 ∷ 0 ∷ 0 ∷ []);
  memory = λ a. administrators;
  lookup_name_by_sid = λ sid. [];
  profiles = none;
}

abbrev granted : Prompt
granted = record {
  temp_made = true;
  payload_written = true;
  script_written = true;
  shell_execute = 42;
  errno = 0;
  looks = false ∷ true ∷ [];
  result = some (ended (codes "key" ∷ []) exit_line);
}

read_elevated-file_example : read_elevated granted ≡ done (ended (codes "key" ∷ []) [])
unfolding run_elevated_script wait_for_file is_exit_marker has_prefix trim_by trim_left trim_right
    is_space
read_elevated-file_example =
    read_elevated-file granted (codes "key" ∷ []) refl refl refl refl
      (((refl, (refl, (refl, tt))), refl), tt)
