-- ===== src/Serial/Linux/Descriptors.antt =====
-- internal/serialport/serialport_linux.go: the descriptors of `Open` and `Close`.
use sercon.Prelude.{
  ℕ, ◌≡◌, refl, sym, ap, ◌∙◌, subst, ◌⊎◌, inl, inr, Bool, false, List, [], ◌∷◌, arith, ◌==◌,
  ==_refl, Option-cases, maybe-intro, if-true, if-false, ℤ, Bytes,
}
use sercon.Prelude.Dict.{has, exclude}
use sercon.Serial.Linux.{
  open_error, epoll_create_error, Called, gave, errno, OpenCalls, Kernel, open_fd, close_fd,
  configure, Opened, port, failed, open_polled, open_configured, open_port, close_swapped, close,
  baud_code,
}

exclude-absent : (n : ℕ) (xs : List ℕ) → has n xs ≡ false → exclude n xs ≡ xs
unfolding has exclude
exclude-absent n [] h = refl
exclude-absent n (x ∷ xs) h =
    let other : (x == n) ≡ false = ground arith in
    let rest : has n xs ≡ false = ground arith in
    if-false _ _ _ other ∙ ap (λ ys. x ∷ ys) (exclude-absent n xs rest)

exclude-first : (n : ℕ) (xs : List ℕ) → has n xs ≡ false → exclude n (n ∷ xs) ≡ xs
unfolding exclude
exclude-first n xs h = if-true _ _ _ (==_refl n) ∙ exclude-absent n xs h

-- A descriptor that a call gives was not open.
abbrev pub IsNew : List ℕ → Called ℕ → Type 0
IsNew ds (gave n) = has n ds ≡ false
IsNew ds (errno e) = Unit

-- The second descriptor of `Open` is given while the first is open.
abbrev pub NewFds : List ℕ → OpenCalls → Type 0
NewFds ds c = (n : ℕ) → c.opened ≡ gave n → has n ds ≡ false × IsNew (n ∷ ds) c.polled

-- An error has left the descriptors as they were, and so does a close of the port that came.
abbrev pub Restores : List ℕ → Opened × Kernel → Type 0
Restores ds (failed e, k) = k.descriptors ≡ ds
Restores ds (port p, k) = (close p k).1.descriptors ≡ ds

Called-cases : (c : Called ℕ) → ((n : ℕ) × (c ≡ gave n)) ⊎ ((e : ℕ) × (c ≡ errno e))
Called-cases (gave n) = inl (n, refl)
Called-cases (errno e) = inr (e, refl)

pair_gone :
    (fd epfd : ℕ) (ds : List ℕ)
    → has fd ds ≡ false
    → has epfd (fd ∷ ds) ≡ false
    → exclude fd (exclude epfd (epfd ∷ fd ∷ ds)) ≡ ds
pair_gone fd epfd ds h k = ap (exclude fd) (exclude-first epfd (fd ∷ ds) k) ∙ exclude-first fd ds h

open_polled-Restores :
    (c : OpenCalls) (path : Bytes) (fd epfd : ℕ) (k : Kernel) (ds : List ℕ)
    → k.descriptors ≡ epfd ∷ fd ∷ ds
    → has fd ds ≡ false
    → has epfd (fd ∷ ds) ≡ false
    → Restores ds (open_polled c path fd epfd k)
unfolding open_polled close close_swapped close_fd
open_polled-Restores c path fd epfd k ds e h g =
    let gone = ap (λ x. exclude fd (exclude epfd x)) e ∙ pair_gone fd epfd ds h g in
    elim (Option-cases c.added) [ inl fine ↦ rw fine gone | inr (x, bad) ↦ rw bad gone ]

configure-descriptors :
    (c : OpenCalls) (fd baud : ℕ) (rtscts : Bool) (k : Kernel)
    → (configure c fd baud rtscts k).0.descriptors ≡ k.descriptors
unfolding configure
configure-descriptors c fd baud rtscts k = elim (Option-cases c.got) [
  | inr (x, bad) ↦ rw bad refl
  | inl fine ↦ elim (Option-cases c.set) [
    | inr (x, bad) ↦ rw (fine, bad) refl
    | inl set ↦ rw (fine, set) refl
  ]
]

open_configured-Restores :
    (c : OpenCalls) (path : Bytes) (fd code : ℕ) (rtscts : Bool) (k : Kernel) (ds : List ℕ)
    → k.descriptors ≡ fd ∷ ds
    → has fd ds ≡ false
    → IsNew (fd ∷ ds) c.polled
    → Restores ds (open_configured c path fd code rtscts k)
unfolding open_configured close_fd open_fd
open_configured-Restores c path fd code rtscts k ds e h g =
    let made = configure c fd code rtscts k in
    let kept = configure-descriptors c fd code rtscts k ∙ e in
    let gone : exclude fd made.0.descriptors ≡ ds = ap (exclude fd) kept ∙ exclude-first fd ds h in
    maybe-intro (Restores ds) _ _ made.1
      (λ _. elim (Called-cases c.polled) [
        | inl (n, came) ↦
            subst
              (λ p. Restores ds (elim p [
                | errno e ↦ (failed (epoll_create_error e), close_fd fd made.0)
                | gave epfd ↦ open_polled c path fd epfd (open_fd epfd made.0)
              ]))
              (sym came)
              (open_polled-Restores c path fd n (open_fd n made.0) ds (ap (λ x. n ∷ x) kept) h
                (subst (IsNew (fd ∷ ds)) came g))
        | inr (x, bad) ↦
            subst
              (λ p. Restores ds (elim p [
                | errno e ↦ (failed (epoll_create_error e), close_fd fd made.0)
                | gave epfd ↦ open_polled c path fd epfd (open_fd epfd made.0)
              ]))
              (sym bad) gone
      ])
      (λ x bad. gone)

-- No descriptor leaks: an `Open` that fails, at whichever call, leaves the open descriptors as they were, and
-- one that succeeds leaves a port whose `Close` does.
pub open_port-Restores :
    (c : OpenCalls) (path : Bytes) (baud : ℤ) (rtscts : Bool) (k : Kernel)
    → NewFds k.descriptors c
    → Restores k.descriptors (open_port c path baud rtscts k)
unfolding open_port open_fd
open_port-Restores c path baud rtscts k h =
    let ds = k.descriptors in
    maybe-intro (Restores ds) _ _ (baud_code baud) (λ _. refl)
      (λ code known. elim (Called-cases c.opened) [
        | inl (n, came) ↦
            subst
              (λ p. Restores ds (elim p [
                | errno e ↦ (failed (open_error e), k)
                | gave fd ↦ open_configured c path fd code rtscts (open_fd fd k)
              ]))
              (sym came)
              (open_configured-Restores c path n code rtscts (open_fd n k) ds refl (h n came).0
                (h n came).1)
        | inr (x, bad) ↦
            subst
              (λ p. Restores ds (elim p [
                | errno e ↦ (failed (open_error e), k)
                | gave fd ↦ open_configured c path fd code rtscts (open_fd fd k)
              ]))
              (sym bad) refl
      ])
