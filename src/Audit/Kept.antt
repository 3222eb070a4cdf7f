-- ===== src/Audit/Kept.antt =====
-- internal/audit/audit.go: what a trail keeps.
use sercon.Prelude.{
  ◌≡◌, refl, sym, ap, ◌∙◌, subst, inl, inr, Bool, true, false, ◌&&◌, not, none, List, [], ◌∷◌, ◌++◌,
  append-nil, append_assoc, arith, if◌then◌else◌, Option-cases, maybe, maybe-intro, if-intro, All,
  Bytes, str_eq, str_eq_iff, is_empty,
}
use sercon.Audit.{Record, AuditCalls, Logger, Trail, rotate, set_err, log_line, log, marshal_failed}

-- Calls that work, and the line that they add.
abbrev pub Works : AuditCalls × Record → Type 0
Works (c, ev) = (c.opens ≡ true) × (c.write_fails ≡ none)

abbrev pub lines_of : List (AuditCalls × Record) → Trail
lines_of [] = []
lines_of ((c, ev) ∷ es) =
    let rest = lines_of es in
    maybe rest (λ json. (c.day, json ++ 10 ∷ []) ∷ rest)
      (ev.json (if is_empty ev.ts then c.now else ev.ts))

abbrev pub log_all : List (AuditCalls × Record) → Logger → Trail → Logger × Trail
log_all [] l t = (l, t)
log_all ((c, ev) ∷ es) l t = let (l', t') = log c ev l t in log_all es l' t'

rotate-day :
    (c : AuditCalls) (l : Logger)
    → c.opens ≡ true
    → ((rotate c l).1 ≡ false) × ((rotate c l).0.day ≡ c.day)
unfolding rotate
rotate-day c l h =
    let P : Logger × Bool → Type 0 = λ r. (r.1 ≡ false) × (r.0.day ≡ c.day) in
    if-intro P (l.f && str_eq l.day c.day) _ _
      (λ same. (refl, (str_eq_iff l.day c.day).0 (ground arith)))
      (λ _. if-intro P (not c.opens) _ _ (λ failed. absurd (ground arith)) (λ _. (refl, refl)))

log_line-trail :
    (c : AuditCalls) (line : Bytes) (l : Logger) (t : Trail)
    → c.opens ≡ true
    → c.write_fails ≡ none
    → (log_line c line l t).1 ≡ t ++ (c.day, line) ∷ []
unfolding log_line
log_line-trail c line l t h w =
    let P : Logger × Trail → Type 0 = λ r. r.1 ≡ t ++ (c.day, line) ∷ [] in
    let (fine, day) = rotate-day c l h in
    if-intro P (rotate c l).1 _ _ (λ failed. absurd (ground arith))
      (λ _.
        maybe-intro P _ _ c.write_fails (λ _. ap (λ d. t ++ (d, line) ∷ []) day)
          (λ n failed. absurd (ground arith)))

-- While the file system works, the trail gets one line for each record that has a JSON form, in the order of the
-- calls, each in the file of its own day.
pub log_all-lines :
    (es : List (AuditCalls × Record)) (l : Logger) (t : Trail)
    → All Works es
    → (log_all es l t).1 ≡ t ++ lines_of es
unfolding log maybe
log_all-lines [] l t h = sym (append-nil t)
log_all-lines ((c, ev) ∷ es) l t h =
    let ts = if is_empty ev.ts then c.now else ev.ts in
    elim (Option-cases (ev.json ts)) [
      | inl nothing ↦
          subst
            (λ o.
              (let r =
                  maybe (set_err marshal_failed l, t) (λ json. log_line c (json ++ 10 ∷ []) l t)
                    o in
                (log_all es r.0 r.1).1)
              ≡ t ++ maybe (lines_of es) (λ json. (c.day, json ++ 10 ∷ []) ∷ lines_of es) o)
            (sym nothing) (log_all-lines es (set_err marshal_failed l) t h.1)
      | inr (json, came) ↦
          let r = log_line c (json ++ 10 ∷ []) l t in
          subst
            (λ o.
              (let r =
                  maybe (set_err marshal_failed l, t) (λ json. log_line c (json ++ 10 ∷ []) l t)
                    o in
                (log_all es r.0 r.1).1)
              ≡ t ++ maybe (lines_of es) (λ json. (c.day, json ++ 10 ∷ []) ∷ lines_of es) o)
            (sym came)
            (log_all-lines es r.0 r.1 h.1
              ∙ ap (λ x. x ++ lines_of es) (log_line-trail c (json ++ 10 ∷ []) l t h.0.0 h.0.1)
              ∙ append_assoc t ((c.day, json ++ 10 ∷ []) ∷ []) (lines_of es))
    ]
