-- ===== src/Portlog/Names/Safe.antt =====
-- internal/portlog/portlog.go: what the names of the log directories are like.
use sercon.Prelude.{
  ℕ, ◌<◌, ◌≡◌, List, head_or, codes, str_eq_iff, refl, sym, ap, ◌∙◌, subst, inl, inr, true, false,
  not, [], ◌∷◌, ◌++◌, map, arith, ◌==◌, Bool-cases, if-intro, if-false, All, All-append, Bytes,
  str_eq, is_empty, upper, to_upper, has_prefix,
}
use sercon.Prelude.Strings.{has_text, cons_head, split_by, split_on}
use sercon.Portlog.Names.{
  is_safe_char, safe_char, sanitize, before_dot, from_dot, is_reserved_base, reserved_device_name,
  safe_name,
}

-- The device names of Windows.
abbrev pub devices : List Bytes
devices =
    codes "CON"
    ∷ codes "PRN"
    ∷ codes "AUX"
    ∷ codes "NUL"
    ∷ codes "COM1"
    ∷ codes "COM2"
    ∷ codes "COM3"
    ∷ codes "COM4"
    ∷ codes "COM5"
    ∷ codes "COM6"
    ∷ codes "COM7"
    ∷ codes "COM8"
    ∷ codes "COM9"
    ∷ codes "LPT1"
    ∷ codes "LPT2"
    ∷ codes "LPT3"
    ∷ codes "LPT4"
    ∷ codes "LPT5"
    ∷ codes "LPT6"
    ∷ codes "LPT7"
    ∷ codes "LPT8"
    ∷ codes "LPT9"
    ∷ []

-- A character that no file system of the targets refuses: printable ASCII, no separator, quote or wildcard.
pub record IsLegalChar (c : ℕ) : Type 0 where
  pub printable : (32 < c) × (c < 127)
  pub no_slash : (c == b'/') ≡ false
  pub no_backslash : (c == 92) ≡ false
  pub no_colon : (c == b':') ≡ false
  pub no_star : (c == b'*') ≡ false
  pub no_question : (c == b'?') ≡ false
  pub no_quote : (c == 34) ≡ false
  pub no_less : (c == b'<') ≡ false
  pub no_greater : (c == b'>') ≡ false
  pub no_bar : (c == b'|') ≡ false

-- The part of a name that Windows compares with its devices: that before the first dot, whatever its case.
abbrev pub stem : Bytes → Bytes
stem n = head_or (split_on b'.' n) []

pub record IsDirectoryName (n : Bytes) : Type 0 where
  pub named : is_empty n ≡ false
  pub legal : All IsLegalChar n
  pub not_device : has_text (to_upper (stem n)) devices ≡ false

-- The same by the code's own tests.
record IsSafeName (n : Bytes) : Type 0 where
  named : is_empty n ≡ false
  safe : All (λ c. is_safe_char c ≡ true) n
  not_reserved : reserved_device_name n ≡ false

legal_char : (c : ℕ) → is_safe_char c ≡ true → IsLegalChar c
unfolding is_safe_char
legal_char c h = record {
  printable = (ground arith, ground arith);
  no_slash = ground arith;
  no_backslash = ground arith;
  no_colon = ground arith;
  no_star = ground arith;
  no_question = ground arith;
  no_quote = ground arith;
  no_less = ground arith;
  no_greater = ground arith;
  no_bar = ground arith;
}

legal_chars : (s : Bytes) → All (λ c. is_safe_char c ≡ true) s → All IsLegalChar s
legal_chars [] h = tt
legal_chars (c ∷ s) h = (legal_char c h.0, legal_chars s h.1)

stem-before_dot : (n : Bytes) → stem n ≡ before_dot n
unfolding split_by before_dot
stem-before_dot [] = refl
stem-before_dot (c ∷ n) = elim (Bool-cases (c == b'.')) [
  | inl dot ↦ rw (dot) refl
  | inr other ↦
      rw other (added c (split_on b'.' n) (before_dot n) (stem-before_dot n) (split_by-cons n))
]
  where
    split_by-cons : (n : Bytes) → is_empty (split_on b'.' n) ≡ false
    split_by-cons [] = refl
    split_by-cons (c ∷ n) =
        if-intro (λ (ws : List Bytes). is_empty ws ≡ false) (c == b'.') _ _ (λ _. refl)
          (λ _. full c (split_on b'.' n))
      where
        full : (c : ℕ) (ws : List Bytes) → is_empty (cons_head c ws) ≡ false
        full c [] = refl
        full c (w ∷ ws) = refl

    added :
        (c : ℕ) (ws : List Bytes) (b : Bytes)
        → head_or ws [] ≡ b
        → is_empty ws ≡ false
        → head_or (cons_head c ws) [] ≡ c ∷ b
    added c [] b e full = cc
    added c (w ∷ ws) b e full = ap (λ x. c ∷ x) e

-- Every device is reserved for the code.
has_text-All :
    (P : Bytes → Type 0) (x : Bytes) (ws : List Bytes) → All P ws → has_text x ws ≡ true → P x
unfolding has_text
has_text-All P x [] h e = cc e
has_text-All P x (w ∷ ws) h e = elim (Bool-cases (str_eq w x)) [
  | inl same ↦ subst P ((str_eq_iff w x).0 same) h.0
  | inr other ↦ has_text-All P x ws h.1 (ground (arith, e, other))
]

devices-reserved : All (λ d. is_reserved_base d ≡ true) devices
unfolding is_reserved_base has_text str_eq has_prefix
devices-reserved = (
  refl,
  (
    refl,
    (
      refl,
      (
        refl,
        (
          refl,
          (
            refl,
            (
              refl,
              (
                refl,
                (
                  refl,
                  (
                    refl,
                    (
                      refl,
                      (
                        refl,
                        (
                          refl,
                          (
                            refl,
                            (refl, (refl, (refl, (refl, (refl, (refl, (refl, (refl, tt)))))))),
                          ),
                        ),
                      ),
                    ),
                  ),
                ),
              ),
            ),
          ),
        ),
      ),
    ),
  ),
)

IsSafeName-IsDirectoryName : (n : Bytes) → IsSafeName n → IsDirectoryName n
unfolding reserved_device_name
IsSafeName-IsDirectoryName n h = record {
  named = h.named;
  legal = legal_chars n h.safe;
  not_device = elim (Bool-cases (has_text (to_upper (stem n)) devices)) [
    | inl device ↦
        let reserved =
          has_text-All (λ d. is_reserved_base d ≡ true) (to_upper (stem n)) devices devices-reserved
            device in
        let base = ap (λ s. is_reserved_base (to_upper s)) (stem-before_dot n) in
        let free = h.not_reserved in cc (reserved, base, free)
    | inr other ↦ other
  ];
}

map-safe : (s : Bytes) → All (λ c. is_safe_char c ≡ true) (map safe_char s)
unfolding is_safe_char
map-safe [] = tt
map-safe (c ∷ s) =
    (if-intro (λ r. is_safe_char r ≡ true) (is_safe_char c) c b'_' (λ e. e) (λ _. refl), map-safe s)

sanitize-named : (s : Bytes) → is_empty (sanitize s) ≡ false
unfolding sanitize
sanitize-named [] = refl
sanitize-named (c ∷ s) = refl

sanitize-safe : (s : Bytes) → All (λ c. is_safe_char c ≡ true) (sanitize s)
unfolding sanitize is_safe_char
sanitize-safe [] = (refl, (refl, (refl, (refl, tt))))
sanitize-safe (c ∷ s) = map-safe (c ∷ s)

before_dot-escaped :
    (n : Bytes) {s : Bytes}
    → s ≡ from_dot n
    → before_dot (before_dot n ++ b'_' ∷ s) ≡ before_dot n ++ b'_' ∷ []
unfolding before_dot from_dot
before_dot-escaped [] {s} e = rw e refl
before_dot-escaped (c ∷ n) {s} e = elim (Bool-cases (c == b'.')) [
  | inl dot ↦ rw dot (rw (e, dot) (rw dot refl))
  | inr other ↦
      rw other (rw other (ap (λ x. c ∷ x) (before_dot-escaped n (e ∙ if-false _ _ _ other))))
]

split-dot : (n : Bytes) → before_dot n ++ from_dot n ≡ n
unfolding before_dot from_dot
split-dot [] = refl
split-dot (c ∷ n) = elim (Bool-cases (c == b'.')) [
  | inl dot ↦ rw dot refl
  | inr other ↦ rw other (ap (λ x. c ∷ x) (split-dot n))
]

All-before : (P : ℕ → Type 0) (xs ys : Bytes) → All P (xs ++ ys) → All P xs × All P ys
All-before P [] ys h = (tt, h)
All-before P (x ∷ xs) ys h = let (a, b) = All-before P xs ys h.1 in ((h.0, a), b)

to_upper-append : (a b : Bytes) → to_upper (a ++ b) ≡ to_upper a ++ to_upper b
to_upper-append [] b = refl
to_upper-append (c ∷ a) b = ap (λ x. upper c ∷ x) (to_upper-append a b)

underscore_base :
    (base : Bytes) → is_reserved_base base ≡ true → is_reserved_base (base ++ b'_' ∷ []) ≡ false
unfolding is_reserved_base has_text str_eq has_prefix
underscore_base [] h = cc
underscore_base (a ∷ []) h = ground arith
underscore_base (a ∷ b ∷ []) h = ground arith
underscore_base (a ∷ b ∷ c ∷ []) h = ground arith
underscore_base (a ∷ b ∷ c ∷ d ∷ []) h = ground arith
underscore_base (a ∷ b ∷ c ∷ d ∷ e ∷ s) h = ground arith

safe_name-IsSafeName : (port : Bytes) → IsSafeName (safe_name port)
unfolding safe_name reserved_device_name is_safe_char upper
safe_name-IsSafeName port =
    let n = sanitize port in
    let parts =
      All-before (λ c. is_safe_char c ≡ true) (before_dot n) (from_dot n)
        (subst (All (λ c. is_safe_char c ≡ true)) (sym (split-dot n)) (sanitize-safe port)) in
    if-intro IsSafeName (not (reserved_device_name n)) _ _
      (λ plain. record {
        named = sanitize-named port;
        safe = sanitize-safe port;
        not_reserved = ground arith;
      })
      (λ device. record {
        named = behind (before_dot n) (b'_') (from_dot n);
        safe = All-append (λ c. is_safe_char c ≡ true) (before_dot n) _ parts.0 (refl, parts.1);
        not_reserved =
            ap (λ x. is_reserved_base (to_upper x)) (before_dot-escaped n refl)
            ∙ ap is_reserved_base (to_upper-append (before_dot n) (b'_' ∷ []))
            ∙ (underscore_base (to_upper (before_dot n)) (ground arith));
      })
  where
    behind : (a : Bytes) (c : ℕ) (b : Bytes) → is_empty (a ++ c ∷ b) ≡ false
    behind [] c b = refl
    behind (x ∷ a) c b = refl

-- The directory of every port has a name that is not empty, that is made of printable ASCII characters other than
-- blanks, slashes, colons, quotes, wildcards, angle brackets and bars, and whose part before the first dot is, in
-- any case of letters, none of the 22 device names of Windows.
pub safe_name-IsDirectoryName : (port : Bytes) → IsDirectoryName (safe_name port)
safe_name-IsDirectoryName port =
    IsSafeName-IsDirectoryName (safe_name port) (safe_name-IsSafeName port)
