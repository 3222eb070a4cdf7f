-- ===== src/Gui/Rows.antt =====
-- cmd/sercon-gui/paint_windows.go: the rows of the table and their fades. Of the values of a fade only none, full and
-- whether a value is next to none matter; those and the test of equality are a record.
use sercon.Prelude.{
  ℕ, ◌+◌, Bool, true, false, ◌&&◌, ◌||◌, not, List, [], ◌∷◌, ◌++◌, if◌then◌else◌, maybe, Bytes,
  is_empty,
}
use sercon.Prelude.Dict.{str_key, get, put, delete}
use sercon.Hub.Types.{PortInfo}
use sercon.Gui.Anim.{Tween, new_tween, set_target}
pub mod Sync
mod Tests

pub record Shade {ℓ} (V : Type ℓ) : Type ℓ where
  pub zero_shade : V
  pub full_shade : V
  pub same : V → V → Bool
  pub is_faint : V → Bool

-- `rowFade`
pub record Row {ℓ} (V : Type ℓ) : Type ℓ where
  pub ref : Bytes
  pub fade : Tween V
  pub dying : Bool
  pub shown_port : PortInfo

-- The map from references to ports
unfoldable pub incoming : List PortInfo → List (Bytes × PortInfo) → List (Bytes × PortInfo)
incoming [] known = known
incoming (p ∷ ps) known = incoming ps (put p.ref p known)

-- What `syncRows` has on its way: rows, ports still to be placed, and whether something changed.
pub record Synced {ℓ} (V : Type ℓ) : Type ℓ where
  pub rows : List (Row V)
  pub left : List (Bytes × PortInfo)
  pub changed : Bool

module _ {ℓ} {V : Type ℓ} where
  abbrev pub revive : PortInfo → Row V → Row V
  revive p r = record r { shown_port = p; dying = false }

  abbrev pub retire : Row V → Row V
  retire r = record r { dying = true }

  abbrev pub with_row : Row V → Bool → Synced V → Synced V
  with_row r changes s = record s { rows = r ∷ s.rows; changed = changes || s.changed }

  -- The first loop of `syncRows`: rows that stay, and rows whose port is gone
  unfoldable pub keep_rows : List (Row V) → List (Bytes × PortInfo) → Synced V
  unfolding maybe
  keep_rows [] left = record { rows = []; left = left; changed = false }
  keep_rows (r ∷ rs) left =
      let port = get r.ref left in
      let rest = keep_rows rs (maybe left (λ p. delete r.ref left) port) in
      maybe (with_row (retire r) (not r.dying) rest) (λ p. with_row (revive p r) false rest) port

  module _ (sh : Shade V) where
    abbrev pub new_row : PortInfo → ℕ → Row V
    new_row p now = record {
      ref = p.ref;
      fade = set_target sh.same sh.full_shade 180_000_000 now (new_tween sh.zero_shade);
      dying = false;
      shown_port = p;
    }

    -- The second loop: the ports that had no row, in the order of the listing
    unfoldable pub add_rows : List PortInfo → ℕ → Synced V → Synced V
    unfolding maybe
    add_rows [] now s = s
    add_rows (p ∷ ps) now s = add_rows ps now (
        maybe s
          (λ _. record {
            rows = s.rows ++ new_row p now ∷ [];
            left = delete p.ref s.left;
            changed = true;
          })
          (get p.ref s.left))

    -- `syncRows`, with the rows and whether they changed
    unfoldable pub sync_rows : List PortInfo → ℕ → List (Row V) → List (Row V) × Bool
    sync_rows ports now rows =
        let s = add_rows ports now (keep_rows rows (incoming ports [])) in (s.rows, s.changed)

    -- `pruneRows`
    unfoldable pub prune_rows : List (Row V) → List (Row V)
    prune_rows [] = []
    prune_rows (r ∷ rs) =
        let rest = prune_rows rs in
        if r.dying && (not r.fade.active && sh.is_faint r.fade.value) then rest else r ∷ rest

    -- `beginRowFade`
    unfoldable pub begin_row_fade : ℕ → Row V → Row V
    begin_row_fade now r =
        if r.dying && (not r.fade.active && not (sh.same r.fade.to sh.zero_shade))
        then record r { fade = set_target sh.same sh.zero_shade 160_000_000 now r.fade }
        else r

  -- `rowCount`
  unfoldable pub row_count : List (Row V) → ℕ
  row_count [] = 0
  row_count (r ∷ rs) = let n = row_count rs in if not r.dying then n + 1 else n

-- `tally`
unfoldable pub tally : List PortInfo → ℕ × ℕ × ℕ
tally [] = (0, 0, 0)
tally (p ∷ ps) =
    let (online, held, observing) = tally ps in
    (
      (if p.online then online + 1 else online),
      (if is_empty p.owner then held else held + 1),
      p.observers + observing,
    )
