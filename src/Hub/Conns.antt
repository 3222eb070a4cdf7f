-- ===== src/Hub/Conns.antt =====
-- internal/hub: what holds of each connection by itself, in every run of the daemon. A predicate that the primitive
-- operations on a connection keep is kept by every handler and every step.
use sercon.Prelude.{ℕ, Bool, List, [], ◌∷◌, ◌==◌, if-intro, All, Bytes}
use sercon.Prelude.Dict.{nat_key, str_key, put, adjust, delete}
use sercon.Hub.Types.{Text, Message, OutMsg, Conn, Manager}
use sercon.Hub.Queue.{enqueue, send, notify, write_step, kill}
use sercon.Hub.Ports.{on_conn, on_conns}
use sercon.Hub.Manager.{each}
use sercon.Hub.Session.{Environ, unbound, identify, bound, count_typed}
use sercon.Hub.Loop.{new_conn, break_wire}
pub mod Handlers
pub mod Runs
pub mod Queues

-- The primitive operations keep the predicate.
pub record Keeps (Q : Conn → Type 0) : Type 0 where
  pub fresh : (remote session : Bytes) → Q (new_conn remote session)
  pub enqueued : (k : Conn) (o : OutMsg) → Q k → Q (enqueue k o)
  pub sends : (k : Conn) (msg : Message) → Q k → Q (send k msg).0
  pub notified : (k : Conn) (t : Text) → Q k → Q (notify k t)
  pub writes : (k : Conn) → Q k → Q (write_step k)
  pub killed : (k : Conn) → Q k → Q (kill k)
  pub breaks : (k : Conn) → Q k → Q (break_wire k)
  pub unbinds : (k : Conn) → Q k → Q (unbound k)
  pub identified : (msg : Message) (env : Environ) (k : Conn) → Q k → Q (identify msg env k)
  pub binds : (r : Bytes) (want : Bool) (now : ℕ) (k : Conn) → Q k → Q (bound r want now k)
  pub counts : (n : ℕ) (k : Conn) → Q k → Q (count_typed n k)

abbrev pub HoldsOf : (Conn → Type 0) → ℕ × Conn → Type 0
HoldsOf Q e = Q e.1

-- It holds of each connection of the manager.
pub record Each (Q : Conn → Type 0) (m : Manager) : Type 0 where
  pub all : All (HoldsOf Q) m.conns

module _ (Q : Conn → Type 0) where
  pub adjust-Each :
      (c : ℕ) (f : Conn → Conn) (d : List (ℕ × Conn))
      → ((k : Conn) → Q k → Q (f k))
      → All (HoldsOf Q) d
      → All (HoldsOf Q) (adjust c f d)
  unfolding adjust
  adjust-Each c f [] keep h = tt
  adjust-Each c f ((j, k) ∷ d) keep h =
      if-intro (All (HoldsOf Q)) (j == c) _ _ (λ _. (keep k h.0, h.1))
        (λ _. (h.0, adjust-Each c f d keep h.1))

  pub put-Each :
      (c : ℕ) (k : Conn) (d : List (ℕ × Conn))
      → Q k
      → All (HoldsOf Q) d
      → All (HoldsOf Q) (put c k d)
  unfolding put
  put-Each c k [] q h = (q, tt)
  put-Each c k ((j, l) ∷ d) q h =
      if-intro (All (HoldsOf Q)) (j == c) _ _ (λ _. (q, h.1)) (λ _. (h.0, put-Each c k d q h.1))

  pub delete-Each : (c : ℕ) (d : List (ℕ × Conn)) → All (HoldsOf Q) d → All (HoldsOf Q) (delete c d)
  unfolding delete
  delete-Each c [] h = tt
  delete-Each c ((j, l) ∷ d) h =
      if-intro (All (HoldsOf Q)) (j == c) _ _ (λ _. delete-Each c d h.1)
        (λ _. (h.0, delete-Each c d h.1))

  pub each-Each :
      (f : Conn → Conn) (d : List (ℕ × Conn))
      → ((k : Conn) → Q k → Q (f k))
      → All (HoldsOf Q) d
      → All (HoldsOf Q) (each f d)
  unfolding each
  each-Each f [] keep h = tt
  each-Each f ((j, k) ∷ d) keep h = (keep k h.0, each-Each f d keep h.1)

  pub on_conn-Each :
      (m : Manager) (c : ℕ) (f : Conn → Conn)
      → ((k : Conn) → Q k → Q (f k))
      → Each Q m
      → Each Q (on_conn m c f)
  on_conn-Each m c f keep h = record { all = adjust-Each c f m.conns keep h.all }

  pub on_conns-Each :
      (m : Manager) (cs : List ℕ) (f : Conn → Conn)
      → ((k : Conn) → Q k → Q (f k))
      → Each Q m
      → Each Q (on_conns m cs f)
  unfolding on_conns
  on_conns-Each m [] f keep h = h
  on_conns-Each m (c ∷ cs) f keep h =
      on_conns-Each (on_conn m c f) cs f keep (on_conn-Each m c f keep h)
