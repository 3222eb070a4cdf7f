-- ===== src/Gui/Hover/Lit.antt =====
-- cmd/sercon-gui/main_windows.go: the highlights and what the pointer is over.
use sercon.Prelude.{
  ℕ, ◌+◌, ◌≡◌, refl, ap, sym, ◌∙◌, ◌-◌, subst, arith, Bool, true, ◌&&◌, ◌||◌, not, Option, none,
  some, List, [], ◌∷◌, ◌==◌, leb, if-intro,
}
use sercon.Gui.Anim.{Tween, set_target, step_tween}
use sercon.Gui.Layout.{Point, Layout, button_at, row_at}
use sercon.Gui.Hover.{
  Hover, same_index, entry_at, aim, aim_all, aim_row, rail_moved, buttons_moved, row_moved,
  point_to, pointer_moved, step_all, HoverEvent, moves, leaves, frame, hover_step, hover_run,
}

same_index_iff : (a b : Option ℕ) → same_index a b ≡ true → a ≡ b
unfolding same_index
same_index_iff none none h = refl
same_index_iff (some i) (some j) h = let eq : i ≡ j = ground arith in ap some eq
same_index_iff none (some j) h = cc
same_index_iff (some i) none h = cc

module _ {ℓ} {V : Type ℓ} (same : V → V → Bool) (exact : (v w : V) → same v w ≡ true → v ≡ w) where
  to-set_target : (v : V) (d now : ℕ) (t : Tween V) → (set_target same v d now t).to ≡ v
  unfolding set_target
  to-set_target v d now t =
      if-intro (λ (x : Tween V). x.to ≡ v) (same t.to v && t.active) _ _
        (λ at. exact t.to v (ground (arith, at)))
        (λ _.
          if-intro (λ (x : Tween V). x.to ≡ v) (d == 0 || same t.value v) _ _ (λ _. refl)
            (λ _. refl))

module _ {ℓ} {V : Type ℓ} (dark lit : V) (same : V → V → Bool) where
  -- The highlights from an index on ease to light at the index that is hit, to dark elsewhere.
  abbrev pub Aims : Option ℕ → ℕ → List (Tween V) → Type ℓ
  Aims hit j [] = Unit
  Aims hit j (t ∷ ts) = (t.to ≡ aim same dark lit hit j) × Aims hit (j + 1) ts

  abbrev pub row_aim : Option ℕ → V
  row_aim none = dark
  row_aim (some i) = lit

  -- Every highlight eases to what the given indices ask for.
  pub record IsLit (entry button row : Option ℕ) (s : Hover V) : Type ℓ where
    pub entries_aim : Aims entry 0 s.entries
    pub buttons_aim : Aims button 0 s.buttons
    pub aims_row : s.row.to ≡ row_aim row

  -- Also the hover indices are the given ones; the row's highlight is painted at its index.
  pub record IsUnder (entry button row : Option ℕ) (s : Hover V) : Type ℓ where
    pub entry_hit : s.rail_hover ≡ entry
    pub button_hit : s.button_hover ≡ button
    pub row_hit : s.row_hover ≡ row
    pub lights : IsLit entry button row s

  abbrev pub Lit : Hover V → Type ℓ
  Lit s = IsLit s.rail_hover s.button_hover s.row_hover s

module _ {ℓ} {V : Type ℓ} (blend : V → V → ℕ → ℕ → V) where
  to-step_tween : (now : ℕ) (t : Tween V) → (step_tween blend now t).0.to ≡ t.to
  unfolding step_tween
  to-step_tween now t =
      let P : Tween V × Bool → Type ℓ = λ r. r.0.to ≡ t.to in
      if-intro P (not t.active) _ _ (λ _. refl)
        (λ _. if-intro P (leb t.duration (now - t.start_ms)) _ _ (λ _. refl) (λ _. refl))

  step_all-Aims :
      (dark lit : V) (same : V → V → Bool) (hit : Option ℕ) (now j : ℕ) (ts : List (Tween V))
      → Aims dark lit same hit j ts
      → Aims dark lit same hit j (step_all blend now ts)
  unfolding step_all
  step_all-Aims dark lit same hit now j [] h = tt
  step_all-Aims dark lit same hit now j (t ∷ ts) h =
      (to-step_tween now t ∙ h.0, step_all-Aims dark lit same hit now (j + 1) ts h.1)

module _ {ℓ} {V : Type ℓ} (same : V → V → Bool) (exact : (v w : V) → same v w ≡ true → v ≡ w)
    (dark lit : V) where
  aim_all-Aims :
      (hit : Option ℕ) (now j : ℕ) (ts : List (Tween V))
      → Aims dark lit same hit j (aim_all same dark lit hit now j ts)
  unfolding aim_all
  aim_all-Aims hit now j [] = tt
  aim_all-Aims hit now j (t ∷ ts) =
      (to-set_target same exact _ _ now t, aim_all-Aims hit now (j + 1) ts)

  to-aim_row :
      (hit : Option ℕ) (now : ℕ) (t : Tween V)
      → (aim_row same dark lit hit now t).to ≡ row_aim dark lit same hit
  unfolding aim_row
  to-aim_row none now t = to-set_target same exact dark _ now t
  to-aim_row (some i) now t = to-set_target same exact lit _ now t

  rail_moved-IsLit :
      (hit : Option ℕ) (now : ℕ) (s : Hover V)
      → Lit dark lit same s
      → Lit dark lit same (rail_moved same dark lit hit now s)
        × ((rail_moved same dark lit hit now s).rail_hover ≡ hit)
  unfolding rail_moved
  rail_moved-IsLit hit now s h =
      if-intro (λ x. Lit dark lit same x × (x.rail_hover ≡ hit)) (same_index hit s.rail_hover) _ _
        (λ e. (h, sym (same_index_iff hit s.rail_hover e)))
        (λ _. (
          record {
            entries_aim = aim_all-Aims hit now 0 s.entries;
            buttons_aim = h.buttons_aim;
            aims_row = h.aims_row;
          },
          refl,
        ))

  buttons_moved-IsLit :
      (hit : Option ℕ) (now : ℕ) (s : Hover V)
      → Lit dark lit same s
      → (Lit dark lit same (buttons_moved same dark lit hit now s)
          × ((buttons_moved same dark lit hit now s).button_hover ≡ hit))
        × ((buttons_moved same dark lit hit now s).rail_hover ≡ s.rail_hover)
  unfolding buttons_moved
  buttons_moved-IsLit hit now s h =
      if-intro (λ x. (Lit dark lit same x × (x.button_hover ≡ hit)) × (x.rail_hover ≡ s.rail_hover))
        (same_index hit s.button_hover) _ _
        (λ e. ((h, sym (same_index_iff hit s.button_hover e)), refl))
        (λ _. (
          (
            record {
              entries_aim = h.entries_aim;
              buttons_aim = aim_all-Aims hit now 0 s.buttons;
              aims_row = h.aims_row;
            },
            refl,
          ),
          refl,
        ))

  row_moved-IsLit :
      (hit : Option ℕ) (now : ℕ) (s : Hover V)
      → Lit dark lit same s
      → (Lit dark lit same (row_moved same dark lit hit now s)
          × ((row_moved same dark lit hit now s).row_hover ≡ hit))
        × (((row_moved same dark lit hit now s).rail_hover ≡ s.rail_hover)
            × ((row_moved same dark lit hit now s).button_hover ≡ s.button_hover))
  unfolding row_moved
  row_moved-IsLit hit now s h =
      if-intro
        (λ x.
          (Lit dark lit same x × (x.row_hover ≡ hit))
          × ((x.rail_hover ≡ s.rail_hover) × (x.button_hover ≡ s.button_hover)))
        (same_index hit s.row_hover) _ _
        (λ e. ((h, sym (same_index_iff hit s.row_hover e)), (refl, refl)))
        (λ _. (
          (
            record {
              entries_aim = h.entries_aim;
              buttons_aim = h.buttons_aim;
              aims_row = to-aim_row hit now s.row;
            },
            refl,
          ),
          (refl, refl),
        ))

  Lit-IsUnder :
      (entry button row : Option ℕ) (s : Hover V)
      → Lit dark lit same s
      → s.rail_hover ≡ entry
      → s.button_hover ≡ button
      → s.row_hover ≡ row
      → IsUnder dark lit same entry button row s
  Lit-IsUnder entry button row s h e b r = record {
    entry_hit = e;
    button_hit = b;
    row_hit = r;
    lights = record {
      entries_aim = subst (λ x. Aims dark lit same x 0 s.entries) e h.entries_aim;
      buttons_aim = subst (λ x. Aims dark lit same x 0 s.buttons) b h.buttons_aim;
      aims_row = h.aims_row ∙ ap (row_aim dark lit same) r;
    };
  }

  point_to-IsUnder :
      (entry button row : Option ℕ) (now : ℕ) (s : Hover V)
      → Lit dark lit same s
      → Lit dark lit same (point_to same dark lit entry button row now s)
        × IsUnder dark lit same entry button row (point_to same dark lit entry button row now s)
  unfolding point_to
  point_to-IsUnder entry button row now s h =
      let s1 = rail_moved same dark lit entry now s in
      let s2 = buttons_moved same dark lit button now s1 in
      let (h1, at_entry) = rail_moved-IsLit entry now s h in
      let ((h2, at_button), entry_kept) = buttons_moved-IsLit button now s1 h1 in
      let ((h3, at_row), (entry_still, button_kept)) = row_moved-IsLit row now s2 h2 in
      (
        h3,
        Lit-IsUnder entry button row (row_moved same dark lit row now s2) h3
            (entry_still ∙ entry_kept ∙ at_entry) (button_kept ∙ at_button) at_row,
      )

  module _ (blend : V → V → ℕ → ℕ → V) (l : Layout) where
    hover_step-Lit :
        (e : HoverEvent) (s : Hover V)
        → Lit dark lit same s
        → Lit dark lit same (hover_step same dark lit blend l e s)
    unfolding hover_step pointer_moved
    hover_step-Lit (moves p rows now) s h = (point_to-IsUnder _ _ _ now s h).0
    hover_step-Lit (leaves now) s h = (point_to-IsUnder none none none now s h).0
    hover_step-Lit (frame now) s h = record {
      entries_aim = step_all-Aims blend dark lit same _ now 0 s.entries h.entries_aim;
      buttons_aim = step_all-Aims blend dark lit same _ now 0 s.buttons h.buttons_aim;
      aims_row = to-step_tween blend now s.row ∙ h.aims_row;
    }

    hover_run-Lit :
        (es : List HoverEvent) (s : Hover V)
        → Lit dark lit same s
        → Lit dark lit same (hover_run same dark lit blend l es s)
    unfolding hover_run
    hover_run-Lit [] s h = h
    hover_run-Lit (e ∷ es) s h = hover_run-Lit es _ (hover_step-Lit e s h)

-- When every highlight eases to what its hover index asks for, and the test of equality is exact, then behind any pointer
-- moves, departures and frames a further move has the hover indices name exactly the sidebar's entry, the button
-- and the row under the pointer, the highlights of that entry and button ease to light and all others of their
-- kind to dark, and the highlight of the row under the pointer to light, or to dark where there is none.
pub hover_run-IsUnder {ℓ} :
    {V : Type ℓ} (same : V → V → Bool) (dark lit : V) (blend : V → V → ℕ → ℕ → V) (l : Layout)
    (es : List HoverEvent) (s : Hover V) (p : Point) (rows now : ℕ)
    → ((v w : V) → same v w ≡ true → v ≡ w)
    → Lit dark lit same s
    → IsUnder dark lit same
        (entry_at l p)
        (button_at l p)
        (row_at l p rows)
        (pointer_moved same dark lit l p rows now (hover_run same dark lit blend l es s))
unfolding pointer_moved
hover_run-IsUnder same dark lit blend l es s p rows now exact h =
    (point_to-IsUnder same exact dark lit (entry_at l p) (button_at l p) (row_at l p rows) now
      (hover_run same dark lit blend l es s) (hover_run-Lit same exact dark lit blend l es s h)).1
