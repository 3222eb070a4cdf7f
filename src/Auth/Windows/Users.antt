-- ===== src/Auth/Windows/Users.antt =====
-- internal/sshauth/platform_windows.go: the ways in which Windows spells a user.
use sercon.Prelude.{
  ℕ, ◌≡◌, refl, Bool, true, false, none, some, [], ◌∷◌, ◌++◌, arith, ◌==◌, ==_refl, maybe, Bytes,
  is_empty, equal_fold,
}
use sercon.Prelude.Strings.{IsFree}
use sercon.Auth.Windows.{Machine, after_last, before_first, current_user, same_user_as_current}

after_last-free : (c : ℕ) (s : Bytes) → IsFree (λ b. b == c) s → after_last c s ≡ none
unfolding after_last
after_last-free c [] h = refl
after_last-free c (b ∷ s) h = rw (h.0, after_last-free c s h.1) refl

pub after_last-append :
    (c : ℕ) (d s : Bytes) → IsFree (λ b. b == c) s → after_last c (d ++ c ∷ s) ≡ some s
unfolding after_last maybe
after_last-append c [] s h = rw (==_refl c, after_last-free c s h) refl
after_last-append c (b ∷ d) s h = rw (after_last-append c d s h) (ground arith)

pub before_first-append :
    (c : ℕ) (s d : Bytes) → IsFree (λ b. b == c) s → before_first c (s ++ c ∷ d) ≡ some s
unfolding before_first maybe
before_first-append c [] d h = rw (==_refl c) refl
before_first-append c (b ∷ s) d h = rw (h.0, before_first-append c s d h.1) refl

IsFree-append : (t : ℕ → Bool) (a b : Bytes) → IsFree t a → IsFree t b → IsFree t (a ++ b)
IsFree-append t [] b ha hb = hb
IsFree-append t (c ∷ a) b ha hb = (ha.0, IsFree-append t a b ha.1 hb)

-- The running account is known by its name, with a domain before it, and with one behind it, in any of which the
-- name's case does not matter.
pub same_user_as_current-spelled :
    (m : Machine) (name domain : Bytes)
    → is_empty (current_user m) ≡ false
    → equal_fold name (current_user m) ≡ true
    → IsFree (λ b. b == 92) name
    → IsFree (λ b. b == b'@') name
    → IsFree (λ b. b == 92) domain
    → (same_user_as_current m name ≡ true)
      × (same_user_as_current m (domain ++ 92 ∷ name) ≡ true)
      × (same_user_as_current m (name ++ b'@' ∷ domain) ≡ true)
unfolding same_user_as_current maybe
same_user_as_current-spelled m name domain known same slash at plain =
    let before = after_last-append 92 domain name slash in
    let none_before =
      after_last-free 92 (name ++ b'@' ∷ domain)
        (IsFree-append (λ b. b == 92) name (b'@' ∷ domain) slash (refl, plain)) in
    let behind = before_first-append b'@' name domain at in
    (
      rw (known, same) refl,
      rw (known, before, same) (ground arith),
      rw (known, none_before, behind, same) (ground arith),
    )
