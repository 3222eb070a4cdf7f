-- ===== src/Daemon/Listen.antt =====
-- internal/ipc/ipc.go: `Listen`, by any number of processes at once. A process looks at the socket file, dials it,
-- removes what it takes for a leftover, binds and listens, and the others may run in between.
use sercon.Prelude.{
  ℕ, ◌≡◌, refl, ap, ◌∙◌, Bool, true, false, List, [], ◌∷◌, map, arith, ◌==◌, if◌then◌else◌, ==_refl,
}

-- The socket file: none, one that a crashed daemon left, one that a process has bound, or one on which a process
-- listens.
pub data File : Type 0 where
  absent leftover : File
  bound_by heard_by : ℕ → File

-- How far a process is in `Listen`.
pub data Phase : Type 0 where
  looks dials removes binds listens listening refused : Phase

pub record Endpoint : Type 0 where
  pub file : File
  pub phase : ℕ → Phase

-- A process's turn, and whether a dial of a socket on which a process listens is answered within its time limit
pub record Turn : Type 0 where
  pub process : ℕ
  pub in_time : Bool

abbrev pub set_phase : ℕ → Phase → (ℕ → Phase) → ℕ → Phase
set_phase i p f j = if i == j then p else f j

-- `Lstat`
abbrev pub look : File → Phase
look absent = binds
look _ = dials

-- `Alive`
abbrev pub dial : Bool → File → Phase
dial in_time (heard_by j) = if in_time then refused else removes
dial in_time _ = removes

-- `Remove`, which takes away whatever file is there and fails where there is none
abbrev pub take_away : ℕ → File → Endpoint → Endpoint
take_away i absent e = record e { phase = set_phase i refused e.phase }
take_away i _ e = record { file = absent; phase = set_phase i binds e.phase }

-- `net.Listen`'s bind, which the kernel refuses where there is a file
abbrev pub bind : ℕ → File → Endpoint → Endpoint
bind i absent e = record { file = bound_by i; phase = set_phase i listens e.phase }
bind i _ e = record e { phase = set_phase i refused e.phase }

-- `net.Listen`'s listen on the bound socket, whose file may be gone
abbrev pub listen : ℕ → File → Endpoint → Endpoint
listen i (bound_by j) e = record {
  file = if i == j then heard_by i else bound_by j;
  phase = set_phase i listening e.phase;
}
listen i _ e = record e { phase = set_phase i listening e.phase }

abbrev pub turn_in : ℕ → Bool → Phase → Endpoint → Endpoint
turn_in i in_time looks e = record e { phase = set_phase i (look e.file) e.phase }
turn_in i in_time dials e = record e { phase = set_phase i (dial in_time e.file) e.phase }
turn_in i in_time removes e = take_away i e.file e
turn_in i in_time binds e = bind i e.file e
turn_in i in_time listens e = listen i e.file e
turn_in i in_time _ e = e

-- A process's next step in `Listen`
unfoldable pub turn : Turn → Endpoint → Endpoint
turn t e = turn_in t.process t.in_time (e.phase t.process) e

-- The processes run in some order.
unfoldable pub race : List Turn → Endpoint → Endpoint
race [] e = e
race (t ∷ ts) e = race ts (turn t e)

-- Turns in which every dial is answered in time.
abbrev pub answered : List ℕ → List Turn
answered = map (λ i. record { process = i; in_time = true })

abbrev pub from : File → Endpoint
from f = record { file = f; phase = λ i. looks }

race-step :
    (i : ℕ) (is : List ℕ) (e : Endpoint) (p : Phase)
    → e.phase i ≡ p
    → race (answered (i ∷ is)) e ≡ race (answered is) (turn_in i true p e)
unfolding race turn
race-step i is e p at = ap (λ q. race (answered is) (turn_in i true q e)) at

-- Behind a daemon that crashed any two processes may both come to listen, though every dial is answered in time: the
-- second has dialled the leftover before the first bound, and takes the first's socket away.
pub race_two_listeners :
    (i j : ℕ)
    → (i == j) ≡ false
    → (is : List ℕ) × ((race (answered is) (from leftover)).phase i ≡ listening)
      × ((race (answered is) (from leftover)).phase j ≡ listening)
unfolding race
race_two_listeners i j other =
    let back : (j == i) ≡ false = ground (arith, other) in
    let own = ==_refl i in
    let hers = ==_refl j in
    let e1 = turn_in i true looks (from leftover) in
    let e2 = turn_in i true dials e1 in
    let e3 = turn_in j true looks e2 in
    let e4 = turn_in j true dials e3 in
    let e5 = turn_in i true removes e4 in
    let e6 = turn_in i true binds e5 in
    let e7 = turn_in j true removes e6 in
    let e8 = turn_in i true listens e7 in
    let e9 = turn_in j true binds e8 in
    let whole =
      race-step i (i ∷ j ∷ j ∷ i ∷ i ∷ j ∷ i ∷ j ∷ j ∷ []) (from leftover) looks refl
      ∙ race-step i (j ∷ j ∷ i ∷ i ∷ j ∷ i ∷ j ∷ j ∷ []) e1 dials (ground (arith, own))
      ∙ race-step j (j ∷ i ∷ i ∷ j ∷ i ∷ j ∷ j ∷ []) e2 looks (ground (arith, other))
      ∙ race-step j (i ∷ i ∷ j ∷ i ∷ j ∷ j ∷ []) e3 dials (ground (arith, hers))
      ∙ race-step i (i ∷ j ∷ i ∷ j ∷ j ∷ []) e4 removes (ground (arith, back, own))
      ∙ race-step i (j ∷ i ∷ j ∷ j ∷ []) e5 binds (ground (arith, own))
      ∙ race-step j (i ∷ j ∷ j ∷ []) e6 removes (ground (arith, other, hers))
      ∙ race-step i (j ∷ j ∷ []) e7 listens (ground (arith, back, own))
      ∙ race-step j (j ∷ []) e8 binds (ground (arith, other, hers))
      ∙ race-step j [] e9 listens (ground (arith, hers)) in
    (
      i ∷ i ∷ j ∷ j ∷ i ∷ i ∷ j ∷ i ∷ j ∷ j ∷ [],
      ap (λ (e : Endpoint). e.phase i) whole ∙ ground (arith, back, own),
      ap (λ (e : Endpoint). e.phase j) whole ∙ ground (arith, hers),
    )

-- Where no daemon has left a file any two processes may both come to listen, too: the second dials the socket that the
-- first has bound before the first listens on it, and takes it for a leftover.
pub race_two_fresh :
    (i j : ℕ)
    → (i == j) ≡ false
    → (is : List ℕ) × ((race (answered is) (from absent)).phase i ≡ listening)
      × ((race (answered is) (from absent)).phase j ≡ listening)
unfolding race
race_two_fresh i j other =
    let back : (j == i) ≡ false = ground (arith, other) in
    let own = ==_refl i in
    let hers = ==_refl j in
    let e1 = turn_in i true looks (from absent) in
    let e2 = turn_in i true binds e1 in
    let e3 = turn_in j true looks e2 in
    let e4 = turn_in j true dials e3 in
    let e5 = turn_in j true removes e4 in
    let e6 = turn_in i true listens e5 in
    let e7 = turn_in j true binds e6 in
    let whole =
      race-step i (i ∷ j ∷ j ∷ j ∷ i ∷ j ∷ j ∷ []) (from absent) looks refl
      ∙ race-step i (j ∷ j ∷ j ∷ i ∷ j ∷ j ∷ []) e1 binds (ground (arith, own))
      ∙ race-step j (j ∷ j ∷ i ∷ j ∷ j ∷ []) e2 looks (ground (arith, other))
      ∙ race-step j (j ∷ i ∷ j ∷ j ∷ []) e3 dials (ground (arith, hers))
      ∙ race-step j (i ∷ j ∷ j ∷ []) e4 removes (ground (arith, hers))
      ∙ race-step i (j ∷ j ∷ []) e5 listens (ground (arith, back, own))
      ∙ race-step j (j ∷ []) e6 binds (ground (arith, other, hers))
      ∙ race-step j [] e7 listens (ground (arith, hers)) in
    (
      i ∷ i ∷ j ∷ j ∷ j ∷ i ∷ j ∷ j ∷ [],
      ap (λ (e : Endpoint). e.phase i) whole ∙ ground (arith, back, own),
      ap (λ (e : Endpoint). e.phase j) whole ∙ ground (arith, hers),
    )
