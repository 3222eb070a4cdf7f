-- ===== src/Auth/File/Edits.antt =====
-- internal/sshauth/sshauth.go: what `Remove` and `AddAll` make of the keys of a file.
use sercon.Prelude.{
  ◌≡◌, refl, sym, ap, ◌∙◌, inl, inr, Bool, false, not, List, [], ◌∷◌, ◌++◌, map, append-nil, arith,
  if◌then◌else◌, Bool-cases, Option-cases, maybe, if-intro, All, Bytes,
}
use sercon.Prelude.Strings.{split_by, has_text, trim_by, trim_left, trim_right}
use sercon.Auth.Keys.{Codec, Key, parse_key}
use sercon.Auth.File.{
  result_key, replace_crlf, split_lines, render, is_victim, remove_lines, remove,
}
use sercon.Auth.File.Lines.{IsLine, split_lines-IsLine, split_lines-render}

abbrev pub unnumbered : Key → Key
unnumbered k = record k { line = 0 }

-- The keys but those with the fingerprints.
abbrev pub without : List Bytes → List Key → List Key
without fps [] = []
without fps (k ∷ ks) =
    let rest = without fps ks in if has_text k.fingerprint fps then rest else k ∷ rest

abbrev pub prints : List Key → List Bytes
prints = map (λ k. k.fingerprint)

module _ (cd : Codec) where
  -- The keys of some lines, without the numbers of the lines.
  unfoldable pub keys_in : List Bytes → List Key
  unfolding maybe result_key
  keys_in [] = []
  keys_in (l ∷ ls) =
      let rest = keys_in ls in maybe rest (λ k. unnumbered k ∷ rest) (result_key (parse_key cd l))

  -- The keys of a file, wherever its lines end.
  abbrev pub keys_of : Bytes → List Key
  keys_of s = keys_in (split_lines s)

  pub keys_in-append : (ls ms : List Bytes) → keys_in (ls ++ ms) ≡ keys_in ls ++ keys_in ms
  unfolding keys_in maybe
  keys_in-append [] ms = refl
  keys_in-append (l ∷ ls) ms = elim (Option-cases (result_key (parse_key cd l))) [
    | inl missing ↦ rw (missing) (keys_in-append ls ms)
    | inr (k, found) ↦ rw (found) (ap (λ x. unnumbered k ∷ x) (keys_in-append ls ms))
  ]

  keys_in-blank : keys_in ([] ∷ []) ≡ []
  unfolding keys_in parse_key trim_by trim_left trim_right result_key maybe
  keys_in-blank = refl

  -- What is written is read back.
  pub keys_of-render : (ls : List Bytes) → All IsLine ls → keys_of (render ls) ≡ keys_in ls
  unfolding render split_lines replace_crlf split_by keys_in parse_key trim_by trim_left trim_right
      result_key maybe
  keys_of-render [] h = refl
  keys_of-render (l ∷ ls) h =
      ap keys_in (split_lines-render l ls h)
      ∙ keys_in-append (l ∷ ls) ([] ∷ [])
      ∙ ap (λ x. keys_in (l ∷ ls) ++ x) keys_in-blank
      ∙ append-nil (keys_in (l ∷ ls))

  keys_in-remove_lines :
      (fps ls : List Bytes) → keys_in (remove_lines cd fps ls).0 ≡ without fps (keys_in ls)
  unfolding keys_in remove_lines is_victim maybe
  keys_in-remove_lines fps [] = refl
  keys_in-remove_lines fps (l ∷ ls) = elim (Option-cases (result_key (parse_key cd l))) [
    | inl missing ↦ rw (missing) (rw (missing) (keys_in-remove_lines fps ls))
    | inr (k, found) ↦ rw (found) (
        if-intro (λ (r : List Bytes × Bool). keys_in r.0 ≡ without fps (unnumbered k ∷ keys_in ls))
          (has_text k.fingerprint fps) _ _ (λ victim. rw (victim) (keys_in-remove_lines fps ls))
          (λ kept. rw (kept, found) (ap (λ x. unnumbered k ∷ x) (keys_in-remove_lines fps ls))))
  ]

  pub remove_lines-IsLine :
      (fps ls : List Bytes) → All IsLine ls → All IsLine (remove_lines cd fps ls).0
  unfolding remove_lines
  remove_lines-IsLine fps [] h = tt
  remove_lines-IsLine fps (l ∷ ls) h =
      if-intro (λ (r : List Bytes × Bool). All IsLine r.0) (is_victim cd fps l) _ _
        (λ _. remove_lines-IsLine fps ls h.1) (λ _. (h.0, remove_lines-IsLine fps ls h.1))

  remove_lines-unmatched :
      (fps ls : List Bytes) → (remove_lines cd fps ls).1 ≡ false → (remove_lines cd fps ls).0 ≡ ls
  unfolding remove_lines
  remove_lines-unmatched fps [] e = refl
  remove_lines-unmatched fps (l ∷ ls) e = elim (Bool-cases (is_victim cd fps l)) [
    | inl victim ↦ ground arith
    | inr kept ↦ rw (kept) (ap (λ x. l ∷ x) (remove_lines-unmatched fps ls (ground arith)))
  ]

  -- Removing fingerprints from a file takes away exactly the keys that have one of them: the other keys stay,
  -- in their order, when its lines are read as `splitLines` splits them.
  pub keys_of-remove :
      (content : Bytes) (fps : List Bytes)
      → keys_of (remove cd content fps) ≡ without fps (keys_of content)
  unfolding remove
  keys_of-remove content fps =
      let ls = split_lines content in
      if-intro (λ s. keys_of s ≡ without fps (keys_of content)) (not (remove_lines cd fps ls).1) _ _
        (λ unmatched.
          ap keys_in (sym (remove_lines-unmatched fps ls (ground arith)))
          ∙ keys_in-remove_lines fps ls)
        (λ _.
          keys_of-render (remove_lines cd fps ls).0
            (remove_lines-IsLine fps ls (split_lines-IsLine content))
          ∙ keys_in-remove_lines fps ls)
