-- ===== src/Gui/Rows/Sync.antt =====
-- cmd/sercon-gui/paint_windows.go: what `syncRows` makes of the table.
use sercon.Prelude.{
  ℕ, ◌+◌, ◌≡◌, refl, ◌∙◌, subst, inl, inr, Bool, true, false, ◌&&◌, ◌||◌, not, none, some, List, [],
  ◌∷◌, ◌++◌, arith, if◌then◌else◌, Bool-cases, Option-cases, maybe, Bytes, str_eq, str_eq_iff,
}
use sercon.Prelude.Dict.{str_key, get, put, delete, get-put, get-delete}
use sercon.Hub.Types.{PortInfo}
use sercon.Gui.Rows.{Shade, Row, incoming, Synced, keep_rows, new_row, add_rows, sync_rows}

-- How many live rows have a reference.
abbrev pub live {ℓ} : {V : Type ℓ} → Bytes → List (Row V) → ℕ
live ref [] = 0
live ref (r ∷ rs) = (if not r.dying && str_eq r.ref ref then 1 else 0) + live ref rs

-- Whether a reference is a key of the map
abbrev pub wanted : Bytes → List (Bytes × PortInfo) → ℕ
wanted ref left = maybe 0 (λ p. 1) (get ref left)

wanted-delete :
    (k ref : Bytes) (left : List (Bytes × PortInfo))
    → wanted ref (delete k left) ≡ (if str_eq k ref then 0 else wanted ref left)
unfolding maybe
wanted-delete k ref left = ground (arith, get-delete k ref left)

wanted-put :
    (ref : Bytes) (p : PortInfo) (left : List (Bytes × PortInfo))
    → wanted ref (put p.ref p left) ≡ (if str_eq p.ref ref then 1 else wanted ref left)
unfolding maybe
wanted-put ref p left = ground (arith, get-put p.ref ref p left)

wanted-take :
    (k ref : Bytes) (p : PortInfo) (left : List (Bytes × PortInfo))
    → get k left ≡ some p
    → (if str_eq k ref then 1 else 0) + wanted ref (delete k left) ≡ wanted ref left
unfolding maybe
wanted-take k ref p left there = elim (Bool-cases (str_eq k ref)) [
  | inl same ↦
      let here : get ref left ≡ some p =
        subst (λ x. get x left ≡ some p) ((str_eq_iff k ref).0 same) there in
      rw (here, same) (ground (arith, wanted-delete k ref left, same))
  | inr other ↦ ground (arith, wanted-delete k ref left, other)
]

-- The first loop settles as many live rows as it takes ports out of the map.
keep_rows-live {ℓ} :
    {V : Type ℓ} (ref : Bytes) (rs : List (Row V)) (left : List (Bytes × PortInfo))
    → live ref (keep_rows rs left).rows + wanted ref (keep_rows rs left).left ≡ wanted ref left
unfolding keep_rows maybe
keep_rows-live ref [] left = omega arith
keep_rows-live ref (r ∷ rs) left = elim (Option-cases (get r.ref left)) [
  | inl gone ↦ rw (gone, keep_rows) (omega (arith, keep_rows-live ref rs left))
  | inr (p, there) ↦
      rw (there, keep_rows)
        (omega
          (arith, keep_rows-live ref rs (delete r.ref left), wanted-take r.ref ref p left there))
]

live-append {ℓ} :
    {V : Type ℓ} (ref : Bytes) (a b : List (Row V)) → live ref (a ++ b) ≡ live ref a + live ref b
live-append ref [] b = omega arith
live-append ref (r ∷ a) b = omega (arith, live-append ref a b)

wanted-none :
    (k ref : Bytes) (left : List (Bytes × PortInfo))
    → get k left ≡ none
    → wanted ref left ≡ (if str_eq k ref then 0 else wanted ref left)
unfolding maybe
wanted-none k ref left gone = elim (Bool-cases (str_eq k ref)) [
  | inl same ↦
      let absent : get ref left ≡ none =
        subst (λ x. get x left ≡ none) ((str_eq_iff k ref).0 same) gone in
      rw (absent, same) refl
  | inr other ↦ rw other refl
]

-- Likewise the second loop.
add_rows-live {ℓ} :
    {V : Type ℓ} (sh : Shade V) (ref : Bytes) (now : ℕ) (ps : List PortInfo) (s : Synced V)
    → live ref (add_rows sh ps now s).rows + wanted ref (add_rows sh ps now s).left
      ≡ live ref s.rows + wanted ref s.left
unfolding add_rows maybe
add_rows-live {V} sh ref now [] s = refl
add_rows-live {V} sh ref now (p ∷ ps) s = elim (Option-cases (get p.ref s.left)) [
  | inl gone ↦ rw (gone, add_rows) (add_rows-live sh ref now ps s)
  | inr (q, there) ↦
      let placed : Synced V = record {
        rows = s.rows ++ new_row sh p now ∷ [];
        left = delete p.ref s.left;
        changed = true;
      } in
      rw (there, add_rows)
        (omega (
          arith,
          add_rows-live sh ref now ps placed,
          live-append ref s.rows (new_row sh p now ∷ []),
          wanted-take p.ref ref q s.left there,
        ))
]

-- Whether a port of the listing has a reference
abbrev pub is_listed : Bytes → List PortInfo → Bool
is_listed ref [] = false
is_listed ref (p ∷ ps) = str_eq p.ref ref || is_listed ref ps

-- Behind the second loop no port is left.
add_rows-left {ℓ} :
    {V : Type ℓ} (sh : Shade V) (ref : Bytes) (now : ℕ) (ps : List PortInfo) (s : Synced V)
    → wanted ref (add_rows sh ps now s).left ≡ (if is_listed ref ps then 0 else wanted ref s.left)
unfolding add_rows maybe
add_rows-left {V} sh ref now [] s = refl
add_rows-left {V} sh ref now (p ∷ ps) s = elim (Option-cases (get p.ref s.left)) [
  | inl gone ↦
      rw (gone, add_rows)
        (add_rows-left sh ref now ps s ∙ ground (arith, wanted-none p.ref ref s.left gone))
  | inr (q, there) ↦
      let placed : Synced V = record {
        rows = s.rows ++ new_row sh p now ∷ [];
        left = delete p.ref s.left;
        changed = true;
      } in
      rw (there, add_rows)
        (add_rows-left sh ref now ps placed ∙ ground (arith, wanted-delete p.ref ref s.left))
]

wanted-incoming :
    (ref : Bytes) (ps : List PortInfo) (known : List (Bytes × PortInfo))
    → wanted ref (incoming ps known) ≡ (if is_listed ref ps then 1 else wanted ref known)
unfolding incoming
wanted-incoming ref [] known = refl
wanted-incoming ref (p ∷ ps) known =
    wanted-incoming ref ps (put p.ref p known) ∙ ground (arith, wanted-put ref p known)

-- Behind `syncRows` the table has one live row for each reference of the listing, and no other live row, whatever
-- rows it had.
pub sync_rows-live {ℓ} :
    {V : Type ℓ} (sh : Shade V) (ports : List PortInfo) (now : ℕ) (rows : List (Row V))
    (ref : Bytes)
    → live ref (sync_rows sh ports now rows).0 ≡ (if is_listed ref ports then 1 else 0)
unfolding sync_rows maybe get
sync_rows-live sh ports now rows ref =
    let kept = keep_rows rows (incoming ports []) in
    let a = add_rows-live sh ref now ports kept in
    let b = add_rows-left sh ref now ports kept in
    let c = keep_rows-live ref rows (incoming ports []) in
    let d = wanted-incoming ref ports [] in ground (arith, a, b, c, d)
