-- ===== src/Gui/Layout/Hits.antt =====
-- cmd/sercon-gui/layout_windows.go: what a click hits.
use sercon.Prelude.{
  ℕ, ◌+◌, ◌-◌, ◌*◌, ◌/◌, ◌≤◌, ◌<◌, ◌≡◌, true, false, ◌||◌, not, Option, none, some, List, [], ◌∷◌,
  arith, ltb, leb, if-intro,
}
use sercon.Gui.Layout.{
  Rect, Point, rect_at, point_in, row_h, Layout, row_at, build_buttons, build_layout,
}

-- The point is inside the table, and between the edges of a row that exists.
pub record IsHit (l : Layout) (p : Point) (rows i : ℕ) : Type 0 where
  pub inside : point_in l.table p ≡ true
  pub exists : i < rows
  pub below : l.table.top + i * row_h ≤ p.y
  pub above : p.y < l.table.top + (i + 1) * row_h

-- The row found is hit, and where none is found none is.
abbrev pub Hits : Layout → Point → ℕ → Option ℕ → Type 0
Hits l p rows none = (i : ℕ) → ¬ IsHit l p rows i
Hits l p rows (some i) = IsHit l p rows i

-- A click selects the row that exists and whose edges the point lies between inside the table; it selects none
-- exactly when there is no such row.
pub row_at-Hits : (l : Layout) (p : Point) (rows : ℕ) → Hits l p rows (row_at l p rows)
unfolding row_at point_in
row_at-Hits l p rows =
    let i = (p.y - l.table.top) / row_h in
    let bottom = l.table.top + (i + 1) * row_h in
    let P = Hits l p rows in
    if-intro P (not (point_in l.table p)) _ _
      (λ outside j record { inside = h; exists = _; below = _; above = _ }. ground arith)
      (λ inside.
        if-intro P (leb rows i) _ _
          (λ gone j record { inside = _; exists = e; below = b; above = a }. ground arith)
          (λ exists.
            if-intro P (leb bottom p.y || ltb (l.table.bottom + row_h) bottom) _ _
              (λ over j _. ground arith)
              (λ over. record {
                inside = ground arith;
                exists = ground arith;
                below = ground arith;
                above = ground arith;
              })))

-- Each of the four buttons ends where the next begins, or before.
abbrev pub Apart : List Rect → Type 0
Apart (a ∷ b ∷ c ∷ d ∷ []) = (a.right ≤ b.left) × (b.right ≤ c.left) × (c.right ≤ d.left)
Apart _ = ⊥

-- From 882 pixels on, no two buttons overlap.
pub build_layout-Apart : (w h : ℕ) → 882 ≤ w → Apart (build_layout w h).buttons
unfolding build_layout build_buttons rect_at
build_layout-Apart w h wide =
    let e : ltb w 620 ≡ false = ground arith in
    let f : ltb (w - 218 - 22) 240 ≡ false = ground arith in
    rw e (rw f (omega arith, omega arith, omega arith))
