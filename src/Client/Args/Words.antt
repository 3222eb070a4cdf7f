-- ===== src/Client/Args/Words.antt =====
-- cmd/sercon/main.go: what `reorderArgs` takes an argument for, against the syntax of package flag.
use sercon.Prelude.{
  ℕ, ◌≡◌, refl, sym, ap, ◌∙◌, ◌⊎◌, inl, inr, Bool, true, false, ◌||◌, not, Option, none, some, [],
  ◌∷◌, arith, ◌==◌, Bool-cases, maybe, if-intro, Bytes, str_eq, is_empty,
}
use sercon.Prelude.Strings.{trim_left}
use sercon.Client.Args.{dashes, has_byte, is_positional, wants_next}
use sercon.Client.Args.Flags.{Word, positional, flag, cut, flag_word, dashed, word_of, needs}

-- A text has an `=` just if it is cut.
cut-has_byte :
    (s : Bytes)
    → (((cut s).1 ≡ none) × (has_byte b'=' s ≡ false) × ((cut s).0 ≡ s))
      ⊎ ((v : Bytes) × ((cut s).1 ≡ some v) × (has_byte b'=' s ≡ true))
unfolding cut has_byte
cut-has_byte [] = inl (refl, refl, refl)
cut-has_byte (c ∷ s) = elim (Bool-cases (c == b'=')) [
  | inl equal ↦ inr (s, rw equal refl, rw equal refl)
  | inr other ↦ elim (cut-has_byte s) [
    | inl (gone, plain, same) ↦ inl (rw other gone, rw other plain, rw other (ap (λ x. c ∷ x) same))
    | inr (v, there, has_one) ↦ inr (v, rw other there, rw other has_one)
  ]
]

name_of : Word → Bytes
name_of (flag n v) = n
name_of _ = []

value_of : Word → Option Bytes
value_of (flag n v) = v
value_of _ = none

flag_word-cut :
    (c : ℕ) (s n : Bytes) (v : Option Bytes)
    → flag_word (c ∷ s) ≡ flag n v
    → ((c == b'-') ≡ false) × ((cut (c ∷ s)).0 ≡ n) × ((cut (c ∷ s)).1 ≡ v)
unfolding flag_word name_of value_of
flag_word-cut c s n v =
    if-intro
      (λ w. w ≡ flag n v → ((c == b'-') ≡ false) × ((cut (c ∷ s)).0 ≡ n) × ((cut (c ∷ s)).1 ≡ v))
      (c == b'-' || c == b'=') _ _ (λ _ e. cc e)
      (λ no_sign e. (ground (arith, no_sign), ap name_of e, ap value_of e))

module _ (lookup : Bytes → Option Bool) where
  -- Whether a flag takes the next argument.
  abbrev pub takes_next : Bytes → Option Bytes → Bool
  unfolding maybe
  takes_next n v = maybe (needs lookup n) (λ _. false) v

  flag_word-wants :
      (a : Bytes) (c : ℕ) (s n : Bytes) (v : Option Bytes)
      → trim_left (λ c. c == b'-') a ≡ c ∷ s
      → flag_word (c ∷ s) ≡ flag n v
      → wants_next (needs lookup) a ≡ takes_next n v
  unfolding wants_next maybe
  flag_word-wants a c s n v trimmed e =
      let (_, name, value) = flag_word-cut c s n v e in
      rw trimmed (elim (cut-has_byte (c ∷ s)) [
        | inl (gone, plain, same) ↦
            rw plain (ap (needs lookup) (sym same ∙ name) ∙ ap (takes_next n) (sym gone ∙ value))
        | inr (w, there, has_one) ↦ rw has_one (ap (takes_next n) (sym there ∙ value))
      ])

  -- What the code takes an argument for that is a flag.
  pub record IsFlag (a n : Bytes) (v : Option Bytes) : Type 0 where
    pub no_end : str_eq a dashes ≡ false
    pub no_positional : is_positional a ≡ false
    pub wants : wants_next (needs lookup) a ≡ takes_next n v

  long_flag :
      (x y : ℕ) (s n : Bytes) (v : Option Bytes)
      → (x == b'-') ≡ true
      → (y == b'-') ≡ true
      → is_empty s ≡ false
      → flag_word s ≡ flag n v
      → IsFlag (x ∷ y ∷ s) n v
  unfolding is_positional str_eq trim_left
  long_flag x y [] n v dx dy full e = cc
  long_flag x y (z ∷ s) n v dx dy full e =
      let (other, _, _) = flag_word-cut z s n v e in
      record {
        no_end = ground arith;
        no_positional = ground (arith, dx);
        wants = flag_word-wants (x ∷ y ∷ z ∷ s) z s n v (rw (dx, dy, other) refl) e;
      }

  short_flag :
      (x y : ℕ) (s n : Bytes) (v : Option Bytes)
      → (x == b'-') ≡ true
      → (y == b'-') ≡ false
      → flag_word (y ∷ s) ≡ flag n v
      → IsFlag (x ∷ y ∷ s) n v
  unfolding is_positional str_eq trim_left
  short_flag x y s n v dx dy e = record {
    no_end = ground (arith, dy);
    no_positional = ground (arith, dx);
    wants = flag_word-wants (x ∷ y ∷ s) y s n v (rw (dx, dy) refl) e;
  }

  dashed-IsFlag :
      (x y : ℕ) (s n : Bytes) (v : Option Bytes)
      → (x == b'-') ≡ true
      → dashed y s ≡ flag n v
      → IsFlag (x ∷ y ∷ s) n v
  unfolding dashed
  dashed-IsFlag x y s n v dx =
      if-intro (λ w. w ≡ flag n v → IsFlag (x ∷ y ∷ s) n v) (not (y == b'-')) _ _
        (λ other e. short_flag x y s n v dx (ground arith) e)
        (λ dash.
          if-intro (λ w. w ≡ flag n v → IsFlag (x ∷ y ∷ s) n v) (is_empty s) _ _ (λ _ e. cc e)
            (λ full e. long_flag x y s n v dx (ground arith) full e))

  pub flag-IsFlag : (a n : Bytes) (v : Option Bytes) → word_of a ≡ flag n v → IsFlag a n v
  unfolding word_of
  flag-IsFlag [] n v e = cc e
  flag-IsFlag (x ∷ []) n v e = cc e
  flag-IsFlag (x ∷ y ∷ s) n v e =
      if-intro (λ w. w ≡ flag n v → IsFlag (x ∷ y ∷ s) n v) (x == b'-') _ _
        (λ dash. dashed-IsFlag x y s n v dash) (λ _ no. cc no) e

  -- What the code takes an argument for that is positional.
  pub positional-plain :
      (a : Bytes) → word_of a ≡ positional → (str_eq a dashes ≡ false) × (is_positional a ≡ true)
  unfolding word_of is_positional str_eq dashed flag_word
  positional-plain [] e = (refl, refl)
  positional-plain (x ∷ []) e = (ground arith, refl)
  positional-plain (x ∷ y ∷ s) e =
      if-intro
        (λ w.
          w ≡ positional → (str_eq (x ∷ y ∷ s) dashes ≡ false) × (is_positional (x ∷ y ∷ s) ≡ true))
        (x == b'-') _ _ (λ _ no. absurd (dashed_other y s no))
        (λ other _. (ground (arith, other), ground (arith, other))) e
    where
      flag_word_other : (s : Bytes) → ¬ (flag_word s ≡ positional)
      flag_word_other [] e = cc e
      flag_word_other (c ∷ s) e =
          if-intro (λ w. ¬ (w ≡ positional)) (c == b'-' || c == b'=') _ _ (λ _ no. cc no)
            (λ _ no. cc no) e

      dashed_other : (y : ℕ) (s : Bytes) → ¬ (dashed y s ≡ positional)
      dashed_other y s =
          if-intro (λ w. ¬ (w ≡ positional)) (not (y == b'-')) _ _ (λ _. flag_word_other (y ∷ s))
            (λ _.
              if-intro (λ w. ¬ (w ≡ positional)) (is_empty s) _ _ (λ _ e. cc e)
                (λ _. flag_word_other s))
