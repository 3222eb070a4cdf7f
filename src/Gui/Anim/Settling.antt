-- ===== src/Gui/Anim/Settling.antt =====
-- cmd/sercon-gui/anim_windows.go: animations end.
use sercon.Prelude.{
  ℕ, ◌+◌, ◌-◌, ◌≤◌, ◌≡◌, refl, ◌≢◌, Bool, false, ◌&&◌, ◌||◌, not, List, [], ◌∷◌, arith, leb, ◌==◌,
  if-intro, All,
}
use sercon.Gui.Anim.{Tween, set_target, step_tween, tick, Animator, stop_all, on_anim_timer}

-- A value that does not move is at its target.
abbrev pub IsSettled {ℓ} : {V : Type ℓ} → Tween V → Type ℓ
IsSettled t = t.active ≡ false → t.value ≡ t.to

pub set_target-IsSettled {ℓ} :
    {V : Type ℓ} (same : V → V → Bool) (v : V) (d now : ℕ) (t : Tween V)
    → IsSettled t
    → IsSettled (set_target same v d now t)
unfolding set_target
set_target-IsSettled same v d now t h =
    if-intro IsSettled (same t.to v && t.active) _ _ (λ _. h)
      (λ _. if-intro IsSettled (d == 0 || same t.value v) _ _ (λ _ _. refl) (λ _ no. cc no))

pub step_tween-IsSettled {ℓ} :
    {V : Type ℓ} (blend : V → V → ℕ → ℕ → V) (now : ℕ) (t : Tween V)
    → IsSettled t
    → IsSettled (step_tween blend now t).0
unfolding step_tween
step_tween-IsSettled {V} blend now t h =
    let P : Tween V × Bool → Type ℓ = λ r. IsSettled r.0 in
    if-intro P (not t.active) _ _ (λ _. h)
      (λ up.
        if-intro P (leb t.duration (now - t.start_ms)) _ _ (λ _ _. refl)
          (λ _ no. absurd (ground (arith, up, no))))

-- The time at which the last of them ends has come.
abbrev pub IsOver {ℓ} : {V : Type ℓ} → ℕ → Tween V → Type 0
IsOver now t = t.start_ms + t.duration ≤ now

abbrev pub AtTarget {ℓ} : {V : Type ℓ} → Tween V → Type ℓ
AtTarget t = (t.active ≡ false) × (t.value ≡ t.to)

step_tween-over {ℓ} :
    {V : Type ℓ} (blend : V → V → ℕ → ℕ → V) (now : ℕ) (t : Tween V)
    → IsSettled t
    → IsOver now t
    → ((step_tween blend now t).1 ≡ false) × AtTarget (step_tween blend now t).0
unfolding step_tween
step_tween-over {V} blend now t h over =
    let P : Tween V × Bool → Type ℓ = λ r. (r.1 ≡ false) × AtTarget r.0 in
    if-intro P (not t.active) _ _
      (λ off. let still : t.active ≡ false = ground arith in (refl, (still, h still)))
      (λ up.
        if-intro P (leb t.duration (now - t.start_ms)) _ _ (λ _. (refl, (refl, refl)))
          (λ no. absurd (ground arith)))

tick-over {ℓ} :
    {V : Type ℓ} (blend : V → V → ℕ → ℕ → V) (now : ℕ) (ts : List (Tween V))
    → All IsSettled ts
    → All (IsOver now) ts
    → ((tick blend now ts).1 ≡ false) × All AtTarget (tick blend now ts).0
unfolding tick
tick-over blend now [] h over = (refl, tt)
tick-over blend now (t ∷ ts) h over =
    let (still, at) = step_tween-over blend now t h.0 over.0 in
    let (rest, all) = tick-over blend now ts h.1 over.1 in (ground (arith, still, rest), (at, all))

-- A frame that comes when every animation's time is over leaves each value at its target and stops the clock, and the
-- timer with it if there is a window.
pub on_anim_timer-stops {ℓ} :
    {V : Type ℓ} (blend : V → V → ℕ → ℕ → V) (now : ℕ) (a : Animator V)
    → All IsSettled a.elems
    → All (IsOver now) a.elems
    → a.hwnd ≢ 0
    → (((on_anim_timer blend now a).running ≡ false) × ((on_anim_timer blend now a).timer ≡ false))
      × All AtTarget (on_anim_timer blend now a).elems
unfolding on_anim_timer stop_all
on_anim_timer-stops blend now a h over window =
    let (still, all) = tick-over blend now a.elems h over in rw still ((refl, ground arith), all)
