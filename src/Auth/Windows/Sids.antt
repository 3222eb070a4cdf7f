-- ===== src/Auth/Windows/Sids.antt =====
-- internal/sshauth/platform_windows.go: what the comparison of SIDs finds.
use sercon.Prelude.{
  ℕ, zero, suc, ◌+◌, ◌*◌, ◌≤◌, ◌<◌, ◌≡◌, refl, sym, ap, ◌∙◌, subst, ◌↔◌, inl, inr, true, false,
  ◌||◌, [], ◌∷◌, arith, ltb, Bool-cases, if-intro, length, take, drop, take_all, head_or, Bytes,
  str_eq_iff,
}
use sercon.Auth.Windows.{administrators_sid, sid_equal}

-- The byte at a place, 0 behind the end.
abbrev pub byte_at : ℕ → Bytes → ℕ
byte_at i s = head_or (drop i s) 0

byte_at-take : (i n : ℕ) (s : Bytes) → i < n → byte_at i (take n s) ≡ byte_at i s
byte_at-take zero zero s lt = elim lt [ ]
byte_at-take zero (suc n) [] lt = refl
byte_at-take zero (suc n) (x ∷ s) lt = refl
byte_at-take (suc i) zero s lt = elim lt [ ]
byte_at-take (suc i) (suc n) [] lt = refl
byte_at-take (suc i) (suc n) (x ∷ s) lt = byte_at-take i n s (omega arith)

-- The length that a SID has by its header.
abbrev pub sid_length : Bytes → ℕ
sid_length s = byte_at 1 s * 4 + 8

-- What the comparison says when it says yes.
sid_equal-true :
    (got want : Bytes)
    → sid_equal got want ≡ true
    → (sid_length got ≤ length want) × (take (sid_length got) got ≡ take (sid_length got) want)
unfolding sid_equal
sid_equal-true got want h =
    let n = sid_length got in
    if-intro (λ b. b ≡ true → (n ≤ length want) × (take n got ≡ take n want))
      (ltb (length want) n || ltb 68 n) _ _ (λ long no. absurd (ground arith))
      (λ short e. (ground arith, (str_eq_iff (take n got) (take n want)).0 e)) h

-- With a well-formed SID the comparison is exact: it says yes just if the memory begins with that SID.
pub sid_equal_iff :
    (got want : Bytes)
    → sid_length want ≡ length want
    → length want ≤ 68
    → (sid_equal got want ≡ true) ↔ (take (length want) got ≡ want)
unfolding sid_equal
sid_equal_iff got want formed fits = (there, back)
  where
    same : (n : ℕ) → 1 < n → take n got ≡ take n want → byte_at 1 got ≡ byte_at 1 want
    same n lt e = sym (byte_at-take 1 n got lt) ∙ ap (byte_at 1) e ∙ byte_at-take 1 n want lt

    there : sid_equal got want ≡ true → take (length want) got ≡ want
    there h =
        let (short, e) = sid_equal-true got want h in
        let n = same (sid_length got) (omega arith) e in
        let len : sid_length got ≡ length want = omega (arith, n, formed) in
        subst (λ k. take k got ≡ take k want) len e ∙ take_all want

    back : take (length want) got ≡ want → sid_equal got want ≡ true
    back h =
        let n = same (length want) (omega (arith, formed)) (h ∙ sym (take_all want)) in
        let len : sid_length got ≡ length want = omega (arith, n, formed) in
        if-intro (λ b. b ≡ true) (ltb (length want) (sid_length got) || ltb 68 (sid_length got)) _ _
          (λ long. absurd (ground arith))
          (λ short.
            (str_eq_iff (take (sid_length got) got) (take (sid_length got) want)).1
              (subst (λ k. take k got ≡ take k want) (sym len) (h ∙ sym (take_all want))))

-- The constant for Administrators holds ten bytes in front of its sub-authorities where a SID holds eight, so no SID
-- of the NT authority, which Administrators' own is, compares equal to it.
pub sid_equal-nt_authority :
    (got : Bytes) → byte_at 7 got ≡ 5 → sid_equal got administrators_sid ≡ false
sid_equal-nt_authority got nt = elim (Bool-cases (sid_equal got administrators_sid)) [
  | inr differs ↦ differs
  | inl same ↦
      let (short, e) = sid_equal-true got administrators_sid same in
      let n = sid_length got in
      let at =
        sym (byte_at-take 7 n got (omega arith))
        ∙ ap (byte_at 7) e
        ∙ byte_at-take 7 n administrators_sid (omega arith) in
      absurd (omega (arith, at, nt))
]
