-- ===== src/Auth/File/Lines.antt =====
-- internal/sshauth/sshauth.go: what `Remove` and `AddAll` make of the keys of a file.
use sercon.Prelude.{
  ℕ, ◌≡◌, refl, sym, ap, ◌∙◌, Bool, false, List, [], ◌∷◌, ◌++◌, map, append-nil, append_assoc,
  arith, ◌==◌, if-intro, All, All-append, Bytes,
}
use sercon.Prelude.Strings.{
  cons_head, split_by, split_on, join, IsFree, split_by-IsFree, split_by-join,
}
use sercon.Auth.File.{replace_crlf, line_end, split_lines, render}

-- A line without line ends.
abbrev pub IsLine : Bytes → Type 0
IsLine l = IsFree (λ c. c == 13) l × IsFree (λ c. c == 10) l

replace_crlf-free : (s : Bytes) → IsFree (λ c. c == 13) s → map line_end (replace_crlf s) ≡ s
unfolding replace_crlf
replace_crlf-free [] h = refl
replace_crlf-free (c ∷ s) h = rw (h.0, replace_crlf-free s h.1) (rw h.0 refl)

line_end-IsFree : (s : Bytes) → IsFree (λ c. c == 13) (map line_end s)
line_end-IsFree [] = tt
line_end-IsFree (c ∷ s) = (ground arith, line_end-IsFree s)

split_by-All : (P : ℕ → Type 0) (t : ℕ → Bool) (s : Bytes) → All P s → All (All P) (split_by t s)
unfolding split_by
split_by-All P t [] h = (tt, tt)
split_by-All P t (c ∷ s) h =
    if-intro (All (All P)) (t c) _ _ (λ _. (tt, split_by-All P t s h.1))
      (λ _. add_head P c (split_by t s) h.0 (split_by-All P t s h.1))
  where
    add_head :
        (P : ℕ → Type 0) (c : ℕ) (ws : List Bytes)
        → P c
        → All (All P) ws
        → All (All P) (cons_head c ws)
    add_head P c [] p h = ((p, tt), tt)
    add_head P c (w ∷ ws) p h = ((p, h.0), h.1)

both : (P Q : Bytes → Type 0) (ls : List Bytes) → All P ls → All Q ls → All (λ l. P l × Q l) ls
both P Q [] h k = tt
both P Q (l ∷ ls) h k = ((h.0, k.0), both P Q ls h.1 k.1)

pub split_lines-IsLine : (s : Bytes) → All IsLine (split_lines s)
unfolding split_lines
split_lines-IsLine s =
    let t = map line_end (replace_crlf s) in
    both (IsFree (λ c. c == 13)) (IsFree (λ c. c == 10)) (split_on 10 t)
      (split_by-All (λ c. (c == 13) ≡ false) (λ c. c == 10) t (line_end-IsFree (replace_crlf s)))
      (split_by-IsFree (λ c. c == 10) t)

pub join-All :
    (P : ℕ → Type 0) (c : ℕ) (ws : List Bytes) → P c → All (All P) ws → All P (join (c ∷ []) ws)
unfolding join
join-All P c [] p h = tt
join-All P c (w ∷ []) p h = h.0
join-All P c (w ∷ v ∷ ws) p h = All-append P w _ h.0 (p, join-All P c (v ∷ ws) p h.1)

join-end :
    (sep l : Bytes) (ls : List Bytes) → join sep (l ∷ ls) ++ sep ≡ join sep (l ∷ (ls ++ [] ∷ []))
unfolding join
join-end sep l [] = ap (λ s. l ++ s) (sym (append-nil sep))
join-end sep l (m ∷ ls) =
    append_assoc l (sep ++ join sep (m ∷ ls)) sep
    ∙ ap (λ s. l ++ s)
        (append_assoc sep (join sep (m ∷ ls)) sep ∙ ap (λ s. sep ++ s) (join-end sep m ls))

ends :
    (P : Bytes → Type 0) (ls : List Bytes)
    → ((l : Bytes) → IsLine l → P l)
    → All IsLine ls
    → P []
    → All P (ls ++ [] ∷ [])
ends P [] f h e = (e, tt)
ends P (l ∷ ls) f h e = (f l h.0, ends P ls f h.1 e)

-- The lines of a file that was written, with the empty one behind its end.
pub split_lines-render :
    (l : Bytes) (ls : List Bytes)
    → All IsLine (l ∷ ls)
    → split_lines (render (l ∷ ls)) ≡ l ∷ (ls ++ [] ∷ [])
unfolding split_lines render
split_lines-render l ls h =
    ap (split_on 10) (
      ap (λ s. map line_end (replace_crlf s)) (join-end (10 ∷ []) l ls)
      ∙ replace_crlf-free (join (10 ∷ []) (l ∷ (ls ++ [] ∷ []))) (
          join-All (λ c. (c == 13) ≡ false) 10 (l ∷ (ls ++ [] ∷ [])) refl
            (ends (IsFree (λ c. c == 13)) (l ∷ ls) (λ _ x. x.0) h tt)))
    ∙ split_by-join (λ c. c == 10) 10 l (ls ++ [] ∷ []) refl
        (ends (IsFree (λ c. c == 10)) (l ∷ ls) (λ _ x. x.1) h tt)
