-- ===== src/Gui/Anim/Tests.antt =====
-- cmd/sercon-gui/anim_windows.go: one highlight, on values from 0 to 100.
use sercon.Prelude.{ℕ, ◌+◌, ◌-◌, ◌*◌, ◌/◌, ◌≡◌, refl, true, false, [], ◌∷◌, arith, All, ◌==◌}
use sercon.Gui.Anim.{Tween, set_target, step_tween, new_tween, Animator, on_anim_timer}
use sercon.Gui.Anim.Settling.{AtTarget, on_anim_timer-stops}

abbrev linear : ℕ → ℕ → ℕ → ℕ → ℕ
linear a b elapsed duration = a + (b - a) * elapsed / duration

abbrev lit : Tween ℕ
lit = record { from = 0; to = 100; value = 0; start_ms = 5; duration = 110; active = true }

abbrev clock : Animator ℕ
clock = record { hwnd = 7; running = true; elems = lit ∷ []; timer = true }

started : set_target ◌==◌ 100 110_000_000 5 (new_tween 0) ≡ lit
unfolding set_target new_tween
started = refl

halfway : (step_tween linear 60 lit).0.value ≡ 50
unfolding step_tween
halfway = refl

on_anim_timer-stops_example :
    (((on_anim_timer linear 120 clock).running ≡ false)
      × ((on_anim_timer linear 120 clock).timer ≡ false))
    × All AtTarget (on_anim_timer linear 120 clock).elems
on_anim_timer-stops_example =
    on_anim_timer-stops linear 120 clock (λ no. cc no, tt) (omega arith, tt) (λ e. omega (arith, e))
