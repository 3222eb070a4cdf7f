-- ===== src/Client/Shell/Tokens.antt =====
-- cmd/sercon/main.go: the shell on what `quoteToken` writes.
use sercon.Prelude.{
  ℕ, ◌≤◌, ◌≡◌, refl, sym, ap, ◌∙◌, subst, ◌≢◌, ◌⊎◌, inl, inr, true, false, ◌&&◌, List, [], ◌∷◌,
  ◌++◌, append-nil, append_assoc, arith, ◌==◌, if◌then◌else◌, Bool-cases, if-intro, if-false, Bytes,
}
use sercon.Client.Quote.{is_safe, all_safe, replace_quotes, quote_token}
use sercon.Client.Shell.{
  Class, a_quote, a_backslash, a_blank, a_tilde, a_slash, ordinary, special, is_special, classify,
  Mode, between, in_word, in_tilde, in_quotes, after_backslash, refused, Shell, add, read_as,
  read_text,
}

pub read_text-append :
    (home : Bytes) (s : Shell) (a b : Bytes)
    → read_text home s (a ++ b) ≡ read_text home (read_text home s a) b
unfolding read_text
read_text-append home s [] b = refl
read_text-append home s (c ∷ a) b = read_text-append home (read_as home s.mode (classify c) c s) a b

-- The safe characters as ranges.
abbrev IsSafe : ℕ → Type 0
IsSafe c =
    ((43 ≤ c) × (c ≤ 58))
    ⊎ ((c ≡ 61) ⊎ (((64 ≤ c) × (c ≤ 90)) ⊎ ((c ≡ 95) ⊎ ((97 ≤ c) × (c ≤ 122)))))

IsSafe-cases : (c : ℕ) → is_safe c ≡ true → IsSafe c
unfolding is_safe
IsSafe-cases c h = ground arith

not_special : (c : ℕ) → IsSafe c → is_special c ≡ false
unfolding is_special
not_special c h = ground arith

classify-safe : (c : ℕ) → is_safe c ≡ true → (classify c ≡ ordinary) ⊎ (classify c ≡ a_slash)
unfolding classify
classify-safe c h = ground (arith, not_special c (IsSafe-cases c h), IsSafe-cases c h)

safe_in_word :
    (home : Bytes) (c : ℕ) (s : Shell)
    → is_safe c ≡ true
    → read_as home in_word (classify c) c s ≡ add c in_word s
safe_in_word home c s h = ground (arith, classify-safe c h)

classify-quote : (c : ℕ) → (c == 39) ≡ false → classify c ≢ a_quote
unfolding classify
classify-quote c h e = ground arith

read_bare :
    (home a w : Bytes) (ws : List Bytes)
    → all_safe a ≡ true
    → read_text home (record { mode = in_word; word = w; words = ws }) a
      ≡ record { mode = in_word; word = w ++ a; words = ws }
unfolding read_text all_safe
read_bare home [] w ws h = rw append-nil refl
read_bare home (c ∷ a) w ws h =
    ap (λ (x : Shell). read_text home x a)
      (safe_in_word home c (record { mode = in_word; word = w; words = ws }) (ground arith))
    ∙ read_bare home a (w ++ c ∷ []) ws (ground arith)
    ∙ ap (λ (x : Bytes). record { mode = in_word; word = x; words = ws })
        (append_assoc w (c ∷ []) a)

abbrev pub at : Mode → Bytes → List Bytes → Shell
at m w ws = record { mode = m; word = w; words = ws }

quoted_add :
    (home : Bytes) (k : Class) (c : ℕ) (s : Shell)
    → k ≢ a_quote
    → read_as home in_quotes k c s ≡ add c in_quotes s
quoted_add home a_quote c s h = elim (h refl) [ ]
quoted_add home a_backslash c s h = refl
quoted_add home a_blank c s h = refl
quoted_add home a_tilde c s h = refl
quoted_add home a_slash c s h = refl
quoted_add home ordinary c s h = refl
quoted_add home special c s h = refl

-- The four characters that stand for a quote between quotes.
read_escaped_quote :
    (home w : Bytes) (ws : List Bytes) (b : Bytes)
    → read_text home (at in_quotes w ws) (39 ∷ 92 ∷ 39 ∷ 39 ∷ b)
      ≡ read_text home (at in_quotes (w ++ 39 ∷ []) ws) b
unfolding read_text classify
read_escaped_quote home w ws b = refl

-- `strings.ReplaceAll` on one character.
abbrev escaped : ℕ → Bytes
escaped c = if c == 39 then 39 ∷ 92 ∷ 39 ∷ 39 ∷ [] else c ∷ []

read_escaped :
    (home : Bytes) (c : ℕ) (w : Bytes) (ws : List Bytes) (b : Bytes)
    → read_text home (at in_quotes w ws) (escaped c ++ b)
      ≡ read_text home (at in_quotes (w ++ c ∷ []) ws) b
unfolding read_text
read_escaped home c w ws b = elim (Bool-cases (c == 39)) [
  | inl quote ↦
      let same : c ≡ 39 = ground arith in
      subst
        (λ x.
          read_text home (at in_quotes w ws) (escaped x ++ b)
          ≡ read_text home (at in_quotes (w ++ x ∷ []) ws) b)
        (sym same) (read_escaped_quote home w ws b)
  | inr other ↦
      ap (λ (x : Bytes). read_text home (at in_quotes w ws) (x ++ b))
        (if-false (c == 39) _ (c ∷ []) other)
      ∙ ap (λ x. read_text home x b)
          (quoted_add home (classify c) c (at in_quotes w ws) (classify-quote c other))
]

read_quoted :
    (home a w : Bytes) (ws : List Bytes) (b : Bytes)
    → read_text home (at in_quotes w ws) (replace_quotes a ++ b)
      ≡ read_text home (at in_quotes (w ++ a) ws) b
unfolding replace_quotes
read_quoted home [] w ws b = ap (λ x. read_text home (at in_quotes x ws) b) (sym (append-nil w))
read_quoted home (c ∷ a) w ws b =
    ap (read_text home (at in_quotes w ws)) (append_assoc (escaped c) (replace_quotes a) b)
    ∙ read_escaped home c w ws (replace_quotes a ++ b)
    ∙ read_quoted home a (w ++ c ∷ []) ws b
    ∙ ap (λ x. read_text home (at in_quotes x ws) b) (append_assoc w (c ∷ []) a)

-- A quoted text, from the opening quote to the closing one.
read_in_quotes :
    (home a w : Bytes) (ws : List Bytes) (m : Mode)
    → (m ≡ between) ⊎ (m ≡ in_word)
    → read_text home (at m w ws) (39 ∷ (replace_quotes a ++ 39 ∷ [])) ≡ at in_word (w ++ a) ws
unfolding read_text classify
read_in_quotes home a w ws between h = read_quoted home a w ws (39 ∷ [])
read_in_quotes home a w ws in_word h = read_quoted home a w ws (39 ∷ [])
read_in_quotes home a w ws in_tilde h = ground arith
read_in_quotes home a w ws in_quotes h = ground arith
read_in_quotes home a w ws after_backslash h = ground arith
read_in_quotes home a w ws refused h = ground arith

pub read_token_in_word :
    (home a w : Bytes) (ws : List Bytes)
    → read_text home (at in_word w ws) (quote_token a) ≡ at in_word (w ++ a) ws
unfolding quote_token replace_quotes
read_token_in_word home [] w ws = read_in_quotes home [] w ws in_word (inr refl)
read_token_in_word home (c ∷ a) w ws =
    if-intro (λ (x : Bytes). read_text home (at in_word w ws) x ≡ at in_word (w ++ c ∷ a) ws)
      (all_safe (c ∷ a)) _ _ (λ safe. read_bare home (c ∷ a) w ws safe)
      (λ _. read_in_quotes home (c ∷ a) w ws in_word (inr refl))

safe_between :
    (home : Bytes) (c : ℕ) (s : Shell)
    → is_safe c ≡ true
    → read_as home between (classify c) c s ≡ add c in_word s
safe_between home c s h = ground (arith, classify-safe c h)

pub read_token :
    (home a : Bytes) (ws : List Bytes)
    → read_text home (at between [] ws) (quote_token a) ≡ at in_word a ws
unfolding quote_token replace_quotes read_text all_safe
read_token home [] ws = read_in_quotes home [] [] ws between (inl refl)
read_token home (c ∷ a) ws =
    if-intro (λ (x : Bytes). read_text home (at between [] ws) x ≡ at in_word (c ∷ a) ws)
      (all_safe (c ∷ a)) _ _
      (λ (safe : (is_safe c && all_safe a) ≡ true).
        ap (λ x. read_text home x a) (safe_between home c (at between [] ws) (ground arith))
        ∙ read_bare home a (c ∷ []) ws (ground arith))
      (λ _. read_in_quotes home (c ∷ a) [] ws between (inl refl))
