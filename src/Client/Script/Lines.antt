-- ===== src/Client/Script/Lines.antt =====
-- cmd/sercon/run.go: the lines of a script and its steps.
use sercon.Prelude.{
  ℕ, ◌+◌, ◌≡◌, refl, ap, ◌∙◌, ◌≢◌, ◌⊎◌, inl, inr, Bool, Option, List, [], ◌∷◌, ◌++◌, arith, ℤ,
  length, All, Bytes,
}
use sercon.Client.Script.{
  Action, at_line, Step, Mistake, steps, mistake, first_step, Said, nothing, said, wrong, read_line,
  parse_lines, parse_script,
}

module _ (compile : Bytes → Bool) (duration : Bytes → Option ℤ) where
  abbrev pub line_of : Bytes → Said
  line_of = read_line compile duration

  abbrev pub numbered : ℕ → Said → List Step → List Step
  numbered n (said a) ss = record { action = a; origin = at_line n } ∷ ss
  numbered n _ ss = ss

  -- The numbered actions of some lines.
  unfoldable pub actions : ℕ → List Bytes → List Step
  actions n [] = []
  actions n (l ∷ ls) = numbered n (line_of l) (actions (n + 1) ls)

  -- A line that is right, and the first one that is not.
  abbrev pub IsRight : Bytes → Type 0
  IsRight l = (m : Mistake) → line_of l ≢ wrong m

  Said-cases :
      (s : Said) → (s ≡ nothing) ⊎ (((a : Action) × (s ≡ said a)) ⊎ ((m : Mistake) × (s ≡ wrong m)))
  Said-cases nothing = inl refl
  Said-cases (said a) = inr (inl (a, refl))
  Said-cases (wrong m) = inr (inr (m, refl))

  parse_lines-right :
      (n : ℕ) (ls : List Bytes)
      → All IsRight ls
      → parse_lines compile duration n ls ≡ steps (actions n ls)
  unfolding parse_lines actions first_step
  parse_lines-right n [] h = refl
  parse_lines-right n (l ∷ ls) h = elim (Said-cases (line_of l)) [
    | inl silent ↦ rw (silent) (parse_lines-right (n + 1) ls h.1)
    | inr speaks ↦ elim speaks [
      | inl (a, e) ↦ rw (e) (
          ap (first_step record { action = a; origin = at_line n })
            (parse_lines-right (n + 1) ls h.1))
      | inr (m, e) ↦ absurd (h.0 m e)
    ]
  ]

  -- The number of the line behind some lines.
  abbrev pub behind : ℕ → List Bytes → ℕ
  behind n [] = n
  behind n (l ∷ ls) = behind (n + 1) ls

  parse_lines-wrong :
      (n : ℕ) (ls : List Bytes) (l : Bytes) (rest : List Bytes) (m : Mistake)
      → All IsRight ls
      → line_of l ≡ wrong m
      → parse_lines compile duration n (ls ++ l ∷ rest) ≡ mistake (at_line (behind n ls)) m
  unfolding parse_lines first_step
  parse_lines-wrong n [] l rest m h e = rw e refl
  parse_lines-wrong n (k ∷ ls) l rest m h e = elim (Said-cases (line_of k)) [
    | inl silent ↦ rw (silent) (parse_lines-wrong (n + 1) ls l rest m h.1 e)
    | inr speaks ↦ elim speaks [
      | inl (a, s) ↦ rw (s) (
          ap (first_step record { action = a; origin = at_line n })
            (parse_lines-wrong (n + 1) ls l rest m h.1 e))
      | inr (w, s) ↦ absurd (h.0 w s)
    ]
  ]

  behind-length : (n : ℕ) (ls : List Bytes) → behind n ls ≡ n + length ls
  behind-length n [] = omega arith
  behind-length n (l ∷ ls) = behind-length (n + 1) ls ∙ omega arith

  -- A script whose lines are right gives the actions of its lines in order, each with the number of its line.
  pub parse_script-actions :
      (ls : List Bytes) → All IsRight ls → parse_script compile duration ls ≡ steps (actions 1 ls)
  unfolding parse_script
  parse_script-actions ls h = parse_lines-right 1 ls h

  -- A script with a mistake reports that of the first line that is wrong, with the number of that line, and gives
  -- no step at all.
  pub parse_script-mistake :
      (ls : List Bytes) (l : Bytes) (rest : List Bytes) (m : Mistake)
      → All IsRight ls
      → line_of l ≡ wrong m
      → parse_script compile duration (ls ++ l ∷ rest) ≡ mistake (at_line (length ls + 1)) m
  unfolding parse_script
  parse_script-mistake ls l rest m h e =
      parse_lines-wrong 1 ls l rest m h e
      ∙ ap (λ n. mistake (at_line n) m) (behind-length 1 ls ∙ omega arith)
