-- ===== src/Version/Names.antt =====
-- internal/version/version.go: what the full version names.
use sercon.Prelude.{
  ◌-◌, ◌≡◌, refl, sym, ap, ◌∙◌, ◌&&◌, not, [], ◌∷◌, ◌++◌, append_assoc, arith, if-intro, length,
  take, drop, take-split, Bytes, str_eq_iff,
}
use sercon.Version.{Build, has_suffix, has_commit, full, build}

-- The text is the other with something before it.
abbrev pub EndsWith : Bytes → Bytes → Type 0
EndsWith s t = (r : Bytes) × (s ≡ r ++ t)

-- The full version ends with what identifies the build, its commit or without one its version.
pub full-EndsWith : (b : Build) → EndsWith (full b) (build b)
unfolding full build has_suffix
full-EndsWith b =
    if-intro (λ t. EndsWith (full b) t) (has_commit b) _ _
      (λ stamped.
        if-intro (λ s. EndsWith s b.commit) (has_commit b && not (has_suffix b.version b.commit)) _
          _ (λ _. (b.version ++ 43 ∷ [], sym (append_assoc b.version (43 ∷ []) b.commit)))
          (λ named.
            let n = length b.version - length b.commit in
            (
              take n b.version,
              sym (take-split n b.version)
                  ∙ ap (λ t. take n b.version ++ t)
                      ((str_eq_iff (drop n b.version) b.commit).0 (ground arith)),
            )))
      (λ bare.
        if-intro (λ s. EndsWith s b.version) (has_commit b && not (has_suffix b.version b.commit)) _
          _ (λ h. absurd (ground arith)) (λ _. ([], refl)))
