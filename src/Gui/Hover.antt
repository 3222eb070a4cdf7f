-- ===== src/Gui/Hover.antt =====
-- cmd/sercon-gui/main_windows.go: `pointerMoved`, and the frames that ease the highlights in between. The layout and the
-- sidebar's entries stay as they are, and the window has been painted once.
use sercon.Prelude.{
  ℕ, ◌+◌, Bool, true, false, ◌&&◌, not, Option, none, some, List, [], ◌∷◌, ◌==◌, if◌then◌else◌,
  maybe,
}
use sercon.Gui.Anim.{Tween, set_target, step_tween}
use sercon.Gui.Layout.{Point, Rect, Layout, RailItem, rail_at, button_from, button_at, row_at}
pub mod Lit
mod Tests

-- `rail.hover`, `btnHoverIndex` and `hover.index`, where `none` is -1, and the highlights of the sidebar's entries, of
-- the buttons and of the row.
pub record Hover {ℓ} (V : Type ℓ) : Type ℓ where
  pub rail_hover : Option ℕ
  pub button_hover : Option ℕ
  pub row_hover : Option ℕ
  pub entries : List (Tween V)
  pub buttons : List (Tween V)
  pub row : Tween V

unfoldable pub same_index : Option ℕ → Option ℕ → Bool
same_index none none = true
same_index (some i) (some j) = i == j
same_index _ _ = false

unfoldable pub item_rects : List RailItem → List Rect
item_rects [] = []
item_rects (i ∷ is) = i.rect ∷ item_rects is

-- The index of the sidebar's entry under a point
unfoldable pub entry_at : Layout → Point → Option ℕ
unfolding maybe
entry_at l p = maybe none (λ _. button_from 0 (item_rects l.items) p) (rail_at l.items p)

module _ {ℓ} {V : Type ℓ} (same : V → V → Bool) (dark lit : V) where
  -- What a highlight at an index is to ease to
  abbrev pub aim : Option ℕ → ℕ → V
  aim hit j = if same_index hit (some j) then lit else dark

  unfoldable pub aim_all : Option ℕ → ℕ → ℕ → List (Tween V) → List (Tween V)
  aim_all hit now j [] = []
  aim_all hit now j (t ∷ ts) =
      set_target same (aim hit j) 110_000_000 now t ∷ aim_all hit now (j + 1) ts

  unfoldable pub aim_row : Option ℕ → ℕ → Tween V → Tween V
  aim_row none now t = set_target same dark 130_000_000 now t
  aim_row (some i) now t = set_target same lit 130_000_000 now t

  unfoldable pub rail_moved : Option ℕ → ℕ → Hover V → Hover V
  rail_moved hit now s =
      if same_index hit s.rail_hover
      then s
      else record s { rail_hover = hit; entries = aim_all hit now 0 s.entries }

  unfoldable pub buttons_moved : Option ℕ → ℕ → Hover V → Hover V
  buttons_moved hit now s =
      if same_index hit s.button_hover
      then s
      else record s { button_hover = hit; buttons = aim_all hit now 0 s.buttons }

  unfoldable pub row_moved : Option ℕ → ℕ → Hover V → Hover V
  row_moved hit now s =
      if same_index hit s.row_hover
      then s
      else record s { row_hover = hit; row = aim_row hit now s.row }

  -- The three updates of `pointerMoved`, for the indices of what is under the pointer
  unfoldable pub point_to : Option ℕ → Option ℕ → Option ℕ → ℕ → Hover V → Hover V
  point_to entry button row now s =
      row_moved row now (buttons_moved button now (rail_moved entry now s))

  -- `pointerMoved`, with the number of rows in the table
  unfoldable pub pointer_moved : Layout → Point → ℕ → ℕ → Hover V → Hover V
  pointer_moved l p rows now s = point_to (entry_at l p) (button_at l p) (row_at l p rows) now s

  -- Whether `pointerMoved` wakes the clock
  unfoldable pub wakes : Layout → Point → ℕ → Hover V → Bool
  wakes l p rows s = not (
      same_index (entry_at l p) s.rail_hover
      && (same_index (button_at l p) s.button_hover && same_index (row_at l p rows) s.row_hover))

unfoldable pub step_all {ℓ} :
    {V : Type ℓ} → (V → V → ℕ → ℕ → V) → ℕ → List (Tween V) → List (Tween V)
step_all blend now [] = []
step_all blend now (t ∷ ts) = (step_tween blend now t).0 ∷ step_all blend now ts

-- A mouse move with the number of rows and the time, `onMouseLeave`, whose point (-1, -1) is over nothing, and a frame.
pub data HoverEvent : Type 0 where
  moves : Point → ℕ → ℕ → HoverEvent
  leaves : ℕ → HoverEvent
  frame : ℕ → HoverEvent

module _ {ℓ} {V : Type ℓ} (same : V → V → Bool) (dark lit : V) (blend : V → V → ℕ → ℕ → V)
    (l : Layout) where
  unfoldable pub hover_step : HoverEvent → Hover V → Hover V
  hover_step (moves p rows now) s = pointer_moved same dark lit l p rows now s
  hover_step (leaves now) s = point_to same dark lit none none none now s
  hover_step (frame now) s = record s {
    entries = step_all blend now s.entries;
    buttons = step_all blend now s.buttons;
    row = (step_tween blend now s.row).0;
  }

  unfoldable pub hover_run : List HoverEvent → Hover V → Hover V
  hover_run [] s = s
  hover_run (e ∷ es) s = hover_run es (hover_step e s)
