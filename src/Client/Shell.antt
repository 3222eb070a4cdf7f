-- ===== src/Client/Shell.antt =====
-- cmd/sercon/main.go: how a POSIX shell reads a command.
-- `Shell` is the shell's reader of simple words: quotes, backslashes, blanks and the tilde of the home
-- directory. Unquoted characters that mean more than themselves are refused.
pub mod Tokens
pub mod ReadBack
use sercon.Prelude.{
  ℕ, Bool, ◌&&◌, ◌||◌, Option, none, some, List, [], ◌∷◌, ◌++◌, leb, ◌==◌, if◌then◌else◌, drop,
  Bytes, codes, str_eq, has_prefix,
}

-- What a character is to the shell.
pub data Class : Type 0 where
  a_quote a_backslash a_blank a_tilde a_slash ordinary special : Class

-- Below the blank, or one of ! " # $ % & ( ) * ; < > ? [ ] ^ ` { | }; what stands between these is
-- classified before.
unfoldable pub is_special : ℕ → Bool
is_special c =
    leb c b'*'
    || (leb b';' c && leb c b'<')
    || (leb b'>' c && leb c b'?')
    || (leb b'[' c && leb c b'^')
    || c == 96
    || leb b'{' c && leb c b'}'

unfoldable pub classify : ℕ → Class
classify c =
    if c == 39
    then a_quote
    else if c == 92
    then a_backslash
    else if c == b' ' || c == 9
    then a_blank
    else if c == b'~'
    then a_tilde
    else if c == b'/'
    then a_slash
    else if is_special c
    then special
    else ordinary

pub data Mode : Type 0 where
  between in_word in_tilde in_quotes after_backslash refused : Mode

pub record Shell : Type 0 where
  pub mode : Mode
  pub word : Bytes
  pub words : List Bytes

abbrev pub add : ℕ → Mode → Shell → Shell
add c m s = record s { mode = m; word = s.word ++ c ∷ [] }

abbrev pub end_word : Shell → Shell
end_word s = record { mode = between; word = []; words = s.words ++ s.word ∷ [] }

abbrev pub enter : Mode → Shell → Shell
enter m s = record s { mode = m }

-- One character, by the mode and its class.
abbrev pub read_as : Bytes → Mode → Class → ℕ → Shell → Shell
read_as home between a_quote c s = enter in_quotes s
read_as home between a_backslash c s = enter after_backslash s
read_as home between a_blank c s = s
read_as home between a_tilde c s = record s { mode = in_tilde; word = home }
read_as home between special c s = enter refused s
read_as home between _ c s = add c in_word s
read_as home in_word a_quote c s = enter in_quotes s
read_as home in_word a_backslash c s = enter after_backslash s
read_as home in_word a_blank c s = end_word s
read_as home in_word special c s = enter refused s
read_as home in_word _ c s = add c in_word s
read_as home in_tilde a_blank c s = end_word s
read_as home in_tilde a_slash c s = add c in_word s
read_as home in_tilde _ c s = enter refused s
read_as home in_quotes a_quote c s = enter in_word s
read_as home in_quotes _ c s = add c in_quotes s
read_as home after_backslash special c s = enter refused s
read_as home after_backslash _ c s = add c in_word s
read_as home refused _ c s = s

unfoldable pub read_text : Bytes → Shell → Bytes → Shell
read_text home s [] = s
read_text home s (c ∷ cs) = read_text home (read_as home s.mode (classify c) c s) cs

abbrev pub at_end : Mode → Shell → Option (List Bytes)
at_end between s = some s.words
at_end in_word s = some (s.words ++ s.word ∷ [])
at_end in_tilde s = some (s.words ++ s.word ∷ [])
at_end _ s = none

-- The words of a command, where the home directory is `home`.
unfoldable pub shell_words : Bytes → Bytes → Option (List Bytes)
shell_words home cs =
    let s = read_text home (record { mode = between; word = []; words = [] }) cs in at_end s.mode s

-- What an operator means by an argument: a leading "~" is the home directory.
unfoldable pub meaning : Bytes → Bytes → Bytes
meaning home s =
    if str_eq s (codes "~") then home else if has_prefix (codes "~/") s then home ++ drop 1 s else s
