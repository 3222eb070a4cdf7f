-- ===== src/Gui/Hover/Tests.antt =====
-- cmd/sercon-gui: a pointer that moves from the sidebar to a button, with a frame in between.
use sercon.Prelude.{ℕ, ◌+◌, ◌/◌, List, refl, arith, ◌==◌, none, [], ◌∷◌}
use sercon.Gui.Anim.{new_tween}
use sercon.Gui.Layout.{build_layout, button_at, row_at}
use sercon.Gui.Hover.{
  Hover, same_index, entry_at, pointer_moved, HoverEvent, moves, frame, hover_run,
}
use sercon.Gui.Hover.Lit.{IsUnder, hover_run-IsUnder}

abbrev halved : ℕ → ℕ → ℕ → ℕ → ℕ
halved a b elapsed duration = (a + b) / 2

abbrev unlit : Hover ℕ
unlit = record {
  rail_hover = none;
  button_hover = none;
  row_hover = none;
  entries = new_tween 0 ∷ new_tween 0 ∷ new_tween 0 ∷ new_tween 0 ∷ [];
  buttons = new_tween 0 ∷ new_tween 0 ∷ new_tween 0 ∷ new_tween 0 ∷ [];
  row = new_tween 0;
}

abbrev wander : List HoverEvent
wander = moves (record { x = 20; y = 60 }) 2 5 ∷ frame 20 ∷ []

hover_run-IsUnder_example :
    IsUnder 0 100
      (λ a b. a == b)
      (entry_at (build_layout 900 600) (record { x = 230; y = 530 }))
      (button_at (build_layout 900 600) (record { x = 230; y = 530 }))
      (row_at (build_layout 900 600) (record { x = 230; y = 530 }) 2)
      (pointer_moved
        (λ a b. a == b)
        0
        100
        (build_layout 900 600)
        (record { x = 230; y = 530 })
        2
        30
        (hover_run (λ a b. a == b) 0 100 halved (build_layout 900 600) wander unlit))
unfolding new_tween same_index
hover_run-IsUnder_example =
    hover_run-IsUnder (λ a b. a == b) 0 100 halved (build_layout 900 600) wander unlit
      (record { x = 230; y = 530 }) 2 30 (λ v w e. ground arith)
      (record {
        entries_aim = (refl, (refl, (refl, (refl, tt))));
        buttons_aim = (refl, (refl, (refl, (refl, tt))));
        aims_row = refl;
      })
