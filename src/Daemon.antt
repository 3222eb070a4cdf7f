-- ===== src/Daemon.antt =====
-- internal/daemon/ensure.go and internal/ipc/ipc.go: finding the daemon, or starting it.
use sercon.Prelude.{
  ℕ, ◌≡◌, refl, ◌≢◌, ◌↔◌, ◌⊎◌, inl, inr, Bool, true, false, ◌&&◌, ◌||◌, not, Option, none, some,
  List, [], ◌∷◌, arith, ltb, if◌then◌else◌, Bool-cases, maybe, maybe-intro, if-intro, length, Bytes,
  codes, is_empty,
}
mod Listen
pub mod Commands
mod Tests

-- `Endpoint` with `RuntimeDir`: the environment's directory, the user's cache directory, and the joining of a path.
abbrev pub max_socket_path : ℕ
max_socket_path = 100

unfoldable pub runtime_dir : (List Bytes → Bytes) → Bytes → Option Bytes → Option Bytes
unfolding maybe
runtime_dir join_path xdg cache =
    if not (is_empty xdg)
    then some (join_path (xdg ∷ codes "sercon" ∷ codes "run" ∷ []))
    else maybe none (λ c. some (join_path (c ∷ codes "sercon" ∷ codes "run" ∷ []))) cache

unfoldable pub endpoint : (List Bytes → Bytes) → Bytes → Option Bytes → Option (Bytes × Bytes)
unfolding maybe
endpoint join_path xdg cache =
    maybe none
      (λ dir.
        let sock = join_path (dir ∷ codes "s.sock" ∷ []) in
        if ltb max_socket_path (length sock) then none else some (dir, sock))
      (runtime_dir join_path xdg cache)

-- The loop of `Ensure`: whether the socket answers at each look before the deadline.
unfoldable pub comes_up : List Bool → Bool
comes_up [] = false
comes_up (alive ∷ looks) = alive || comes_up looks

pub data EnsureError : Type 0 where
  no_directory : EnsureError
  start_failed : Bytes → EnsureError
  nothing_listening : EnsureError

-- What `Ensure` meets: whether a daemon answers at once, whether the directory can be made, the error of starting a
-- daemon, and the looks.
pub record Startup : Type 0 where
  pub alive : Bool
  pub made : Bool
  pub spawn_err : Option Bytes
  pub looks : List Bool

-- `Ensure`
unfoldable pub ensure : Startup → Option EnsureError
unfolding maybe
ensure s =
    if s.alive
    then none
    else if not s.made
    then some no_directory
    else if comes_up s.looks
    then none
    else maybe (some nothing_listening) (λ e. some (start_failed e)) s.spawn_err

-- The daemon answered at some look.
abbrev pub Answers : List Bool → Type 0
Answers [] = ⊥
Answers (true ∷ looks) = Unit
Answers (false ∷ looks) = Answers looks

comes_up_iff : (looks : List Bool) → (comes_up looks ≡ true) ↔ Answers looks
unfolding comes_up
comes_up_iff [] = ground arith
comes_up_iff (true ∷ looks) = (λ _. tt, λ _. refl)
comes_up_iff (false ∷ looks) = comes_up_iff looks

-- `Ensure` succeeds just if a daemon answered, at once or at one of the looks behind a directory that was made; whether
-- the daemon that it started itself came up does not matter.
pub ensure_iff :
    (s : Startup) → (ensure s ≡ none) ↔ ((s.alive ≡ true) ⊎ ((s.made ≡ true) × Answers s.looks))
unfolding ensure
ensure_iff s = let up = comes_up_iff s.looks in (there up, back up)
  where
    fails : s.alive ≡ false → (s.made && comes_up s.looks) ≡ false → ensure s ≢ none
    fails down neither =
        let P : Option EnsureError → Type 0 = λ o. o ≢ none in
        if-intro P s.alive _ _ (λ a. absurd (ground (arith, a, down)))
          (λ _.
            if-intro P (not s.made) _ _ (λ _ no. cc no)
              (λ made.
                if-intro P (comes_up s.looks) _ _ (λ up. absurd (ground (arith, made, up, neither)))
                  (λ _. maybe-intro P _ _ s.spawn_err (λ _ no. cc no) (λ e _ no. cc no))))

    there :
        ((comes_up s.looks ≡ true) ↔ Answers s.looks)
        → ensure s ≡ none
        → (s.alive ≡ true) ⊎ ((s.made ≡ true) × Answers s.looks)
    there up e = elim (Bool-cases s.alive) [
      | inl a ↦ inl a
      | inr not_yet ↦ elim (Bool-cases (s.made && comes_up s.looks)) [
        | inl both ↦ inr (ground arith, up.0 (ground arith))
        | inr neither ↦ absurd (fails not_yet neither e)
      ]
    ]

    back :
        ((comes_up s.looks ≡ true) ↔ Answers s.looks)
        → (s.alive ≡ true) ⊎ ((s.made ≡ true) × Answers s.looks)
        → ensure s ≡ none
    back up (inl a) = rw a refl
    back up (inr (made, some_look)) = let yes_ = up.1 some_look in ground (arith, made, yes_)
