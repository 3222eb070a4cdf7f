-- ===== src/Gui/Anim.antt =====
-- cmd/sercon-gui/anim_windows.go: eased values and the clock that drives them. The values are of any type with a test
-- of equality and a blend, which stands for the easing on floating-point numbers; times are milliseconds.
use sercon.Prelude.{
  ℕ, ◌-◌, ◌/◌, Bool, true, false, ◌&&◌, ◌||◌, not, List, [], ◌∷◌, leb, ◌==◌, if◌then◌else◌,
}
pub mod Settling
mod Tests

pub record Tween {ℓ} (V : Type ℓ) : Type ℓ where
  pub from : V
  pub to : V
  pub value : V
  pub start_ms : ℕ
  pub duration : ℕ
  pub active : Bool

module _ {ℓ} {V : Type ℓ} (same : V → V → Bool) where
  -- `setTarget`, with a duration in nanoseconds
  unfoldable pub set_target : V → ℕ → ℕ → Tween V → Tween V
  set_target v d now t =
      if same t.to v && t.active
      then t
      else if d == 0 || same t.value v
      then record t { from = v; to = v; value = v; active = false }
      else record {
        from = t.value;
        to = v;
        value = t.value;
        start_ms = now;
        duration = if d / 1_000_000 == 0 then 1 else d / 1_000_000;
        active = true;
      }

module _ {ℓ} {V : Type ℓ} (blend : V → V → ℕ → ℕ → V) where
  -- `tween.step`, with whether the value is still moving
  unfoldable pub step_tween : ℕ → Tween V → Tween V × Bool
  step_tween now t =
      let elapsed = now - t.start_ms in
      if not t.active
      then (t, false)
      else if leb t.duration elapsed
      then (record t { value = t.to; active = false }, false)
      else (record t { value = blend t.from t.to elapsed t.duration }, true)

  -- The loop of `animator.tick`
  unfoldable pub tick : ℕ → List (Tween V) → List (Tween V) × Bool
  tick now [] = ([], false)
  tick now (t ∷ ts) =
      let (t', moves) = step_tween now t in
      let (ts', move) = tick now ts in (t' ∷ ts', moves || move)

-- `newTween`
unfoldable pub new_tween {ℓ} : {V : Type ℓ} → V → Tween V
new_tween v = record { from = v; to = v; value = v; start_ms = 0; duration = 0; active = false }

-- `animator`, and whether the timer of Windows is installed
pub record Animator {ℓ} (V : Type ℓ) : Type ℓ where
  pub hwnd : ℕ
  pub running : Bool
  pub elems : List (Tween V)
  pub timer : Bool

unfoldable pub attach_all {ℓ} : {V : Type ℓ} → ℕ → List (Tween V) → Animator V → Animator V
attach_all hwnd elems a = record {
  hwnd = hwnd;
  running = true;
  elems = elems;
  timer = a.timer || (not a.running && not (hwnd == 0));
}

unfoldable pub stop_all {ℓ} : {V : Type ℓ} → Animator V → Animator V
stop_all a = record a { running = false; timer = a.timer && a.hwnd == 0 }

-- The animation timer's case of `onTimer` outside a demonstration
unfoldable pub on_anim_timer {ℓ} : {V : Type ℓ} → (V → V → ℕ → ℕ → V) → ℕ → Animator V → Animator V
on_anim_timer blend now a =
    let (elems, moving) = tick blend now a.elems in
    if moving then record a { elems = elems } else stop_all (record a { elems = elems })
