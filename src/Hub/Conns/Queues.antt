-- ===== src/Hub/Conns/Queues.antt =====
-- internal/hub/conn.go: the queues of frames to the clients.
use sercon.Prelude.{
  ℕ, ◌≤◌, ◌<◌, ◌≡◌, refl, ap, true, false, Option, none, some, List, [], ◌∷◌, ◌++◌, arith, ltb,
  if◌then◌else◌, ltb→lt, if-intro, length, length-append, Bytes,
}
use sercon.Prelude.Dict.{nat_key}
use sercon.Hub.Types.{
  Options, Text, Message, OutMsg, Conn, Manager, OpError, closed_pipe, ctrl_frame,
}
use sercon.Hub.Queue.{out_queue_depth, push, enqueue, send, notify, write_step, write_oldest}
use sercon.Hub.Manager.{new}
use sercon.Hub.Session.{count_typed}
use sercon.Hub.Loop.{Step, run}
use sercon.Hub.Conns.{Keeps, Each}
use sercon.Hub.Conns.Runs.{new-Each, run-Each}

-- The queue is within its depth, and a connection that is done has its transport closed.
pub record IsBounded (k : Conn) : Type 0 where
  pub fits : length k.out ≤ out_queue_depth
  pub cut_off : k.done ≡ true → k.wire_ok ≡ false

push-fits :
    (k : Conn) (o : OutMsg)
    → length k.out < out_queue_depth
    → length (k.out ++ o ∷ []) ≤ out_queue_depth
push-fits k o lt = omega (arith, length-append {0} k.out (o ∷ []))

write_step-IsBounded : (k : Conn) → IsBounded k → IsBounded (write_step k)
unfolding write_step
write_step-IsBounded k b = if-intro IsBounded k.done _ _ (λ _. b) (λ open_. oldest k.out refl)
  where
    oldest : (os : List OutMsg) → k.out ≡ os → IsBounded (write_oldest k os)
    oldest [] e = b
    oldest (o ∷ os) e =
        let shorter : length os ≤ out_queue_depth = omega (arith, b.fits, ap length e) in
        if-intro IsBounded k.wire_ok _ _ (λ _. record { fits = shorter; cut_off = b.cut_off })
          (λ _. record { fits = shorter; cut_off = λ _. refl })

push-IsBounded :
    (k : Conn) (o : OutMsg) → length k.out < out_queue_depth → IsBounded k → IsBounded (push k o)
push-IsBounded k o lt b = record { fits = push-fits k o lt; cut_off = b.cut_off }

-- A round of the write loop on a full queue makes room, or the connection is done.
write_step-room :
    (k : Conn)
    → IsBounded k
    → ltb (length k.out) out_queue_depth ≡ false
    → (write_step k).done ≡ false
    → length (write_step k).out < out_queue_depth
unfolding write_step
write_step-room k b full =
    if-intro Room k.done _ _ (λ ended goes. cc (ended, goes)) (λ goes_on. oldest k.out refl)
  where
    Room : Conn → Type 0
    Room j = j.done ≡ false → length j.out < out_queue_depth

    oldest : (os : List OutMsg) → k.out ≡ os → Room (write_oldest k os)
    oldest [] e = λ goes. absurd (ground (arith, full, ap length e))
    oldest (o ∷ os) e =
        if-intro Room k.wire_ok _ _ (λ _ _. omega (arith, b.fits, ap length e)) (λ _ goes. cc goes)

enqueue-IsBounded : (k : Conn) (o : OutMsg) → IsBounded k → IsBounded (enqueue k o)
unfolding enqueue
enqueue-IsBounded k o b =
    if-intro IsBounded k.done _ _ (λ _. b)
      (λ _.
        if-intro IsBounded (ltb (length k.out) out_queue_depth) _ _
          (λ room. push-IsBounded k o (ltb→lt (length k.out) out_queue_depth room) b)
          (λ _. record { fits = b.fits; cut_off = λ _. refl }))

send-IsBounded : (k : Conn) (msg : Message) → IsBounded k → IsBounded (send k msg).0
unfolding send
send-IsBounded k msg b =
    if-intro Pushed (ltb (length k.out) out_queue_depth) _ _
      (λ room. pushed k b (λ _. ltb→lt (length k.out) out_queue_depth room))
      (λ full. pushed (write_step k) (write_step-IsBounded k b) (write_step-room k b full))
  where
    Pushed : Conn → Type 0
    Pushed j =
        IsBounded
          (if◌then◌else◌ {A = Conn × Option OpError} j.done (j, some closed_pipe)
            (push j (ctrl_frame msg), none)).0

    pushed : (j : Conn) → IsBounded j → (j.done ≡ false → length j.out < out_queue_depth) → Pushed j
    pushed j c room =
        if-intro (λ (r : Conn × Option OpError). IsBounded r.0) j.done _ _ (λ _. c)
          (λ goes. push-IsBounded j (ctrl_frame msg) (room goes) c)

notify-IsBounded : (k : Conn) (t : Text) → IsBounded k → IsBounded (notify k t)
unfolding notify
notify-IsBounded k t b =
    if-intro IsBounded (ltb (length k.out) out_queue_depth) _ _
      (λ room. push-IsBounded k _ (ltb→lt (length k.out) out_queue_depth room) b) (λ _. b)

count_typed-IsBounded : (n : ℕ) (k : Conn) → IsBounded k → IsBounded (count_typed n k)
count_typed-IsBounded n k b =
    if-intro IsBounded (ltb 0 n) _ _ (λ _. record { fits = b.fits; cut_off = b.cut_off }) (λ _. b)

bounded : Keeps IsBounded
bounded = record {
  fresh = λ remote session. record { fits = omega arith; cut_off = λ no. cc no };
  enqueued = enqueue-IsBounded;
  sends = send-IsBounded;
  notified = notify-IsBounded;
  writes = write_step-IsBounded;
  killed = λ k b. record { fits = b.fits; cut_off = λ _. refl };
  breaks = λ k b. record { fits = b.fits; cut_off = λ _. refl };
  unbinds = λ k b. record { fits = b.fits; cut_off = b.cut_off };
  identified = λ msg env k b. record { fits = b.fits; cut_off = b.cut_off };
  binds = λ r want now k b. record { fits = b.fits; cut_off = b.cut_off };
  counts = count_typed-IsBounded;
}

-- In every run of the daemon from a new manager, no client's queue holds more frames than its depth, and a connection
-- that is done has its transport closed.
pub run-IsBounded :
    (beside : Bytes → Bytes) (o : Options) (ss : List Step) {m : Manager}
    → new beside o ≡ some m
    → Each IsBounded (run m ss)
run-IsBounded beside o ss {m} e = run-Each IsBounded bounded m ss (new-Each IsBounded beside o e)
