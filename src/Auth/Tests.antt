-- ===== src/Auth/Tests.antt =====
-- internal/sshauth/sshauth.go: keys and files to run the functions on.
use sercon.Prelude.{
  ◌≡◌, refl, arith, Bool, true, ◌&&◌, ◌==◌, if◌then◌else◌, some, [], ◌∷◌, ◌++◌, map, maybe, drop,
  Bytes, codes, str_eq, has_prefix,
}
use sercon.Prelude.Strings.{
  is_space, split_by, join, trim_by, trim_left, trim_right, fields, has_text,
}
use sercon.Auth.Keys.{
  Codec, Key, key, check_blob_header, fingerprint_of, checked_key, parse_fields, parse_key, text,
}
use sercon.Auth.Keys.ReadBack.{parse_key-text}
use sercon.Auth.File.{
  split_lines, add_all, remove, parse_keys, parse_lines, result_key, replace_crlf, remove_lines,
  is_victim,
}
use sercon.Auth.File.Edits.{unnumbered, without}
use sercon.Auth.File.Reading.{NoLoneCr, parse_keys-remove}
use sercon.Auth.File.Additions.{add_all-twice}

-- An encoding that writes each byte as itself, behind three zeros and the length of an algorithm's name.
abbrev plain : Codec
plain = record {
  decode_string = λ s. some (0 ∷ 0 ∷ 0 ∷ 7 ∷ s);
  sum256 = λ s. s;
  encode_raw = λ s. drop 4 s;
}

abbrev line_a : Bytes
line_a = codes "  ssh-rsa ssh-rsaAA  a@b c\r"

abbrev key_a : Key
key_a = record {
  algorithm = codes "ssh-rsa";
  blob = codes "ssh-rsaAA";
  comment = codes "a@b c";
  fingerprint = codes "SHA256:ssh-rsaAA";
  line = 0;
}

line_a-key : parse_key plain line_a ≡ key key_a
unfolding parse_key trim_by trim_left trim_right is_space fields split_by parse_fields has_text
    str_eq checked_key check_blob_header fingerprint_of join maybe has_prefix
line_a-key = refl

parse_key-text_example : parse_key plain (text key_a) ≡ key key_a
parse_key-text_example = parse_key-text plain line_a key_a line_a-key

abbrev crlf_file : Bytes
crlf_file = line_a ++ codes "\n# x\r\n"

-- The test of it
abbrev no_lone_cr : Bytes → Bool
no_lone_cr [] = true
no_lone_cr (c ∷ s) =
    let rest = no_lone_cr s in if c == 13 then has_prefix (10 ∷ []) s && rest else rest

dec_NoLoneCr : (s : Bytes) → no_lone_cr s ≡ true → NoLoneCr s
dec_NoLoneCr [] h = tt
dec_NoLoneCr (c ∷ s) h = (λ cr. ground (arith, cr, h), dec_NoLoneCr s (ground arith))

parse_keys-remove_example :
    map unnumbered (parse_keys plain (remove plain crlf_file (codes "SHA256:ssh-rsaAA" ∷ [])))
    ≡ without (codes "SHA256:ssh-rsaAA" ∷ []) (map unnumbered (parse_keys plain crlf_file))
unfolding has_prefix
parse_keys-remove_example =
    parse_keys-remove plain crlf_file (codes "SHA256:ssh-rsaAA" ∷ []) (dec_NoLoneCr crlf_file refl)

add_all-twice_example :
    let once = (add_all (parse_keys plain (codes "# x\r\n")) (codes "# x\r\n") (key_a ∷ [])).0 in
    add_all (parse_keys plain once) once (key_a ∷ []) ≡ (once, [])
unfolding has_prefix
add_all-twice_example =
    add_all-twice plain (codes "# x\r\n") (key_a ∷ []) ((line_a, line_a-key), tt)
      (dec_NoLoneCr (codes "# x\r\n") refl)

-- A key whose parts a lone CR divides is listed and cannot be removed.
abbrev lone_cr : Bytes
lone_cr = codes "ssh-rsa\rssh-rsaAA"

lone_cr_listed : map (λ k. k.fingerprint) (parse_keys plain lone_cr) ≡ codes "SHA256:ssh-rsaAA" ∷ []
unfolding parse_keys parse_lines result_key parse_key trim_by trim_left trim_right is_space fields
    split_by parse_fields has_text str_eq checked_key check_blob_header fingerprint_of join maybe
    has_prefix
lone_cr_listed = refl

lone_cr_stays : remove plain lone_cr (codes "SHA256:ssh-rsaAA" ∷ []) ≡ lone_cr
unfolding remove remove_lines is_victim split_lines replace_crlf result_key parse_key trim_by
    trim_left trim_right is_space fields split_by parse_fields has_text str_eq checked_key
    check_blob_header fingerprint_of join maybe has_prefix
lone_cr_stays = refl
