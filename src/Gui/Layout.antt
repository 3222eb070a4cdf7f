-- ===== src/Gui/Layout.antt =====
-- cmd/sercon-gui/layout_windows.go: where things are, and what is under a point. Coordinates are natural numbers:
-- for client areas of at least 328 by 80 pixels, which the least window exceeds, no coordinate of the source is
-- negative. The columns of the table and the sidebar's footer, which only painting reads, are left out.
use sercon.Prelude.{
  ℕ, ◌+◌, ◌-◌, ◌*◌, ◌/◌, Bool, ◌&&◌, ◌||◌, not, Option, none, some, List, [], ◌∷◌, ltb, leb, ◌==◌,
  if◌then◌else◌, Bytes, codes,
}
pub mod Hits

pub record Rect : Type 0 where
  pub left : ℕ
  pub top : ℕ
  pub right : ℕ
  pub bottom : ℕ

pub record Point : Type 0 where
  pub x : ℕ
  pub y : ℕ

-- `rectAt` and `pointIn`
unfoldable pub rect_at : ℕ → ℕ → ℕ → ℕ → Rect
rect_at x y w h = record { left = x; top = y; right = x + w; bottom = y + h }

unfoldable pub point_in : Rect → Point → Bool
point_in r p = leb r.left p.x && (ltb p.x r.right && (leb r.top p.y && ltb p.y r.bottom))

abbrev pub row_h : ℕ
row_h = 38

-- `buildButtons`
unfoldable pub build_buttons : ℕ → ℕ → ℕ → List Rect
build_buttons x y w =
    rect_at x y 148 34
    ∷ rect_at (x + 148 + 10) y (148 + 30) 34
    ∷ rect_at (x + w - 148 - 10 - 148) y 148 34
    ∷ rect_at (x + w - 148) y 148 34
    ∷ []

-- The entries of the sidebar, and `buildRailItems`, whose command ids and group are left out
pub record RailItem : Type 0 where
  pub label : Bytes
  pub rect : Rect

unfoldable pub rail_items : ℕ → ℕ → List Bytes → List RailItem
rail_items w y [] = []
rail_items w y (l ∷ ls) =
    record { label = l; rect = rect_at 14 y (w - 14 * 2) 30 } ∷ rail_items w (y + (30 + 4)) ls

unfoldable pub build_rail_items : Rect → List RailItem
build_rail_items rail =
    if rail.right - rail.left == 0
    then []
    else rail_items (rail.right - rail.left) (22 + 26)
        (codes "Ports" ∷ codes "Logs" ∷ codes "SSH keys" ∷ codes "Settings" ∷ [])

pub record Layout : Type 0 where
  pub client : Rect
  pub rail : Rect
  pub body : Rect
  pub items : List RailItem
  pub title : Rect
  pub subtitle : Rect
  pub counters : Rect
  pub head : Rect
  pub table : Rect
  pub buttons : List Rect
  pub footer : Rect

-- `buildLayout`
unfoldable pub build_layout : ℕ → ℕ → Layout
build_layout w h =
    let rail_w = if ltb w 620 then 0 else 196 in
    let x = rail_w + 22 in
    let inner_w = if ltb (w - x - 22) 240 then 240 else w - x - 22 in
    let y = 16 + 26 + (20 + 14) in
    let head_y = y + (52 + 10) in
    let btn_y = h - 34 - 12 - 34 in
    let table_y = head_y + 28 in
    let table_h =
      if ltb (btn_y - 14 - table_y) (row_h * 2) then row_h * 2 else btn_y - 14 - table_y in
    let rail = rect_at 0 0 rail_w h in
    record {
      client = rect_at 0 0 w h;
      rail = rail;
      body = record { left = rail_w; top = 0; right = w; bottom = h };
      items = build_rail_items rail;
      title = rect_at x 16 inner_w 26;
      subtitle = rect_at x (16 + 26) inner_w 20;
      counters = rect_at x y inner_w 52;
      head = rect_at x head_y inner_w 28;
      table = rect_at x table_y inner_w table_h;
      buttons =
          if rail_w == 0
          then build_buttons 22 btn_y (w - 2 * 22)
          else build_buttons x btn_y inner_w;
      footer = rect_at rail_w (h - 34) (w - rail_w) 34;
    }

-- `layout.railAt`
unfoldable pub rail_at : List RailItem → Point → Option RailItem
rail_at [] p = none
rail_at (i ∷ is) p = let rest = rail_at is p in if point_in i.rect p then some i else rest

-- `layout.buttonAt` from an index on, where `none` is -1
unfoldable pub button_from : ℕ → List Rect → Point → Option ℕ
button_from i [] p = none
button_from i (r ∷ rs) p =
    let rest = button_from (i + 1) rs p in if point_in r p then some i else rest

unfoldable pub button_at : Layout → Point → Option ℕ
button_at l p = button_from 0 l.buttons p

-- `layout.rowAt`, where `none` is -1
unfoldable pub row_at : Layout → Point → ℕ → Option ℕ
row_at l p rows =
    let i = (p.y - l.table.top) / row_h in
    let row_bottom = l.table.top + (i + 1) * row_h in
    if not (point_in l.table p)
    then none
    else if leb rows i
    then none
    else if leb row_bottom p.y || ltb (l.table.bottom + row_h) row_bottom
    then none
    else some i

-- `layout.counterRects`
unfoldable pub counter_rects : Rect → List Rect
counter_rects c =
    let w = (c.right - c.left) / 4 in
    let cell : ℕ → Rect = λ i. rect_at (c.left + i * w) c.top w (c.bottom - c.top) in
    cell 0 ∷ cell 1 ∷ cell 2 ∷ cell 3 ∷ []
