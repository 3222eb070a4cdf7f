-- ===== src/Client/Shell/ReadBack.antt =====
-- cmd/sercon/main.go: the shell on what `shellQuote` and `remoteCommand` write.
use sercon.Prelude.{
  ◌≡◌, refl, sym, ap, ◌∙◌, ◌⊎◌, inl, inr, true, Option, some, List, [], ◌∷◌, ◌++◌, map,
  append_assoc, arith, if◌then◌else◌, Bool-cases, if-true, if-false, drop, Bytes, codes, str_eq,
  is_empty, has_prefix,
}
use sercon.Client.Quote.{quote_token, shell_quote, join_blank, command_parts, remote_command}
use sercon.Client.Shell.{
  classify, Mode, between, in_word, in_tilde, in_quotes, after_backslash, refused, Shell, read_text,
  at_end, shell_words, meaning,
}
use sercon.Client.Shell.Tokens.{at, read_text-append, read_token_in_word, read_token}

abbrev Ready : Mode → Type 0
Ready m = (m ≡ in_word) ⊎ (m ≡ in_tilde)

-- The shell has read an argument that may be followed by a blank or by the end.
record HasRead (home a : Bytes) (ws : List Bytes) (s : Shell) : Type 0 where
  mode_of : Mode
  ready : Ready mode_of
  has_read : s ≡ at mode_of (meaning home a) ws

tilde_split : (s : Bytes) → has_prefix (codes "~/") s ≡ true → s ≡ b'~' ∷ b'/' ∷ drop 2 s
unfolding has_prefix
tilde_split (x ∷ y ∷ s) h = ground arith
tilde_split (x ∷ []) h = ground arith
tilde_split [] h = cc

read_tilde :
    (home a : Bytes) (ws : List Bytes)
    → read_text home (at between [] ws) (codes "~/" ++ quote_token a)
      ≡ at in_word (home ++ b'/' ∷ a) ws
unfolding read_text classify
read_tilde home a ws =
    read_token_in_word home a (home ++ b'/' ∷ []) ws
    ∙ ap (λ x. at in_word x ws) (append_assoc home (b'/' ∷ []) a)

read_argument :
    (home a : Bytes) (ws : List Bytes)
    → HasRead home a ws (read_text home (at between [] ws) (shell_quote a))
unfolding shell_quote meaning read_text classify
read_argument home a ws = elim (Bool-cases (str_eq a (codes "~"))) [
  | inl tilde ↦ record {
    mode_of = in_tilde;
    ready = inr refl;
    has_read =
        ap (read_text home (at between [] ws)) (if-true (str_eq a (codes "~")) _ _ tilde)
        ∙ ap (λ x. at in_tilde x ws) (sym (if-true (str_eq a (codes "~")) home _ tilde));
  }
  | inr other ↦ elim (Bool-cases (has_prefix (codes "~/") a)) [
    | inl below ↦ record {
      mode_of = in_word;
      ready = inl refl;
      has_read =
          ap (read_text home (at between [] ws)) (
            if-false (str_eq a (codes "~")) _ _ other
            ∙ if-true (has_prefix (codes "~/") a) _ _ below)
          ∙ read_tilde home (drop 2 a) ws
          ∙ ap (λ (x : Bytes). at in_word (home ++ drop 1 x) ws) (sym (tilde_split a below))
          ∙ ap (λ x. at in_word x ws)
              (sym (
                if-false (str_eq a (codes "~")) home _ other
                ∙ if-true (has_prefix (codes "~/") a) _ _ below));
    }
    | inr bare ↦ record {
      mode_of = in_word;
      ready = inl refl;
      has_read =
          ap (read_text home (at between [] ws)) (
            if-false (str_eq a (codes "~")) _ _ other
            ∙ if-false (has_prefix (codes "~/") a) _ _ bare)
          ∙ read_token home a ws
          ∙ ap (λ x. at in_word x ws)
              (sym (
                if-false (str_eq a (codes "~")) home _ other
                ∙ if-false (has_prefix (codes "~/") a) _ _ bare));
    }
  ]
]

read_blank :
    (home : Bytes) (m : Mode) (w : Bytes) (ws : List Bytes) (b : Bytes)
    → Ready m
    → read_text home (at m w ws) (b' ' ∷ b) ≡ read_text home (at between [] (ws ++ w ∷ [])) b
unfolding read_text classify
read_blank home in_word w ws b h = refl
read_blank home in_tilde w ws b h = refl
read_blank home between w ws b h = ground arith
read_blank home in_quotes w ws b h = ground arith
read_blank home after_backslash w ws b h = ground arith
read_blank home refused w ws b h = ground arith

at_end-Ready :
    (m : Mode) (w : Bytes) (ws : List Bytes) → Ready m → at_end m (at m w ws) ≡ some (ws ++ w ∷ [])
at_end-Ready in_word w ws h = refl
at_end-Ready in_tilde w ws h = refl
at_end-Ready between w ws h = ground arith
at_end-Ready in_quotes w ws h = ground arith
at_end-Ready after_backslash w ws h = ground arith
at_end-Ready refused w ws h = ground arith

abbrev ended : Shell → Option (List Bytes)
ended s = at_end s.mode s

read_line :
    (home a : Bytes) (more : List Bytes) (ws : List Bytes)
    → ended (read_text home (at between [] ws) (join_blank (map shell_quote (a ∷ more))))
      ≡ some (ws ++ map (meaning home) (a ∷ more))
unfolding join_blank
read_line home a [] ws =
    let h = read_argument home a ws in
    ap ended h.has_read ∙ at_end-Ready h.mode_of (meaning home a) ws h.ready
read_line home a (b ∷ more) ws =
    let h = read_argument home a ws in
    ap ended (
      read_text-append home (at between [] ws) (shell_quote a) _
      ∙ ap (λ x. read_text home x (b' ' ∷ join_blank (map shell_quote (b ∷ more)))) h.has_read
      ∙ read_blank home h.mode_of (meaning home a) ws _ h.ready)
    ∙ read_line home b more (ws ++ meaning home a ∷ [])
    ∙ ap some (append_assoc ws (meaning home a ∷ []) (map (meaning home) (b ∷ more)))

-- The command line that the client makes for the jump host is read by its shell as the program, the
-- subcommand, the socket if one is given and the further arguments, each exactly as it was given but
-- for a leading "~", which becomes the home directory.
pub shell_words-remote_command :
    (home bin sock sub : Bytes) (extra : List Bytes)
    → shell_words home (remote_command bin sock sub extra)
      ≡ some (map (meaning home) (command_parts bin sock sub extra))
unfolding shell_words remote_command command_parts
shell_words-remote_command home bin sock sub extra =
    read_line home bin
      (sub ∷ ((if is_empty sock then [] else codes "--socket" ∷ sock ∷ []) ++ extra)) []
