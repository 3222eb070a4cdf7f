-- ===== src/Serial/Windows/Overlapped.antt =====
-- internal/serialport/serialport_windows.go: the structs of overlapped operations.
use sercon.Prelude.{ℕ, zero, suc, ◌≡◌, refl, true, false, [], ◌∷◌, arith, if-intro, Bytes}
use sercon.Serial.Linux.{Called, gave, errno}
use sercon.Serial.Windows.{
  Async, at_once, pending, call_failed, Wait, signaled, timed_out, wait_failed, Port, Got, got,
  not_got, reset_read, is_incomplete, settle_read, DrainCalls, drain_wait, drain_file, drain_queue,
  drain, ReadCalls, unless_closed, event_timed_out, event_came, event_wait, wait_event, read_more,
  read,
}

-- Nothing is pending for reading, and no struct was written over.
pub record IsQuiet (p : Port) : Type 0 where
  pub free : p.read_pending ≡ false
  pub whole : p.overwritten ≡ false

-- A wait works, and behind it the operation is complete.
abbrev pub Completes {ℓ} : {A : Type ℓ} → Wait → Called A → Type 0
Completes (wait_failed e) r = ⊥
Completes _ r = is_incomplete r ≡ false

abbrev pub DrainCompletes : DrainCalls → Type 0
DrainCompletes c = Completes c.wait c.result

reset_read-IsQuiet : (p : Port) → IsQuiet p → IsQuiet (reset_read p)
unfolding reset_read
reset_read-IsQuiet p h = record {
  free = refl;
  whole = let a = h.free in let b = h.whole in ground arith;
}

drain_wait-IsQuiet :
    (c : DrainCalls) (p : Port) (w : Wait)
    → p.overwritten ≡ false
    → Completes w c.result
    → IsQuiet (drain_wait c p w).0
unfolding drain_wait settle_read
drain_wait-IsQuiet c p (wait_failed e) h d = absurd d
drain_wait-IsQuiet c p timed_out h d = record { free = d; whole = h }
drain_wait-IsQuiet c p signaled h d = record { free = d; whole = h }

drain-IsQuiet : (c : DrainCalls) (p : Port) → DrainCompletes c → IsQuiet p → IsQuiet (drain c p).0
unfolding drain drain_queue drain_file
drain-IsQuiet c p d h = queue p c.queued h
  where
    file : (p : Port) (f : Async Bytes) → IsQuiet p → IsQuiet (drain_file c p f).0
    file p (at_once b) h = h
    file p (call_failed e) h = h
    file p pending h = drain_wait-IsQuiet c (record p { read_pending = true }) c.wait h.whole d

    queue : (p : Port) (q : Called ℕ) → IsQuiet p → IsQuiet (drain_queue c p q).0
    queue p (errno e) h = h
    queue p (gave zero) h = h
    queue p (gave (suc n)) h = file (reset_read p) c.file (reset_read-IsQuiet p h)

-- While waits work and find their operations complete, a read leaves no operation pending on its struct, and never
-- resets the struct while one is.
pub read-IsQuiet :
    (c : ReadCalls) (p : Port)
    → DrainCompletes c.first
    → Completes c.wait c.result
    → DrainCompletes c.second
    → IsQuiet p
    → IsQuiet (read c p).0
unfolding read read_more wait_event event_wait event_came event_timed_out unless_closed settle_read
read-IsQuiet c p d e d' h =
    if-intro (λ (r : Port × Got). IsQuiet r.0) p.closed _ _ (λ _. h)
      (λ _. more (drain c.first p) (drain-IsQuiet c.first p d h))
  where
    closing :
        (p : Port) (r : Port × Got) → IsQuiet p → IsQuiet r.0 → IsQuiet (unless_closed c r p).0
    closing p r h g =
        if-intro (λ (r : Port × Got). IsQuiet r.0) c.closed_meanwhile _ _ (λ _. h) (λ _. g)

    timed : (p : Port) (r : Called {0} Unit) → IsQuiet p → IsQuiet (event_timed_out c p r).0
    timed p (gave u) h = drain-IsQuiet c.second p d' h
    timed p (errno n) h = if-intro (λ (r : Port × Got). IsQuiet r.0) _ _ _ (λ _. h) (λ _. h)

    came : (p : Port) (r : Called {0} Unit) → IsQuiet p → IsQuiet (event_came c p r).0
    came p (gave u) h = drain-IsQuiet c.second p d' h
    came p (errno n) h = h

    wait :
        (p : Port) (w : Wait)
        → Completes w c.result
        → p.overwritten ≡ false
        → IsQuiet (event_wait c p w).0
    wait p (wait_failed n) k h = absurd k
    wait p timed_out k h =
        let q : IsQuiet (settle_read c.result p) = record { free = k; whole = h } in
        closing (settle_read c.result p) (event_timed_out c (settle_read c.result p) c.result) q
          (timed (settle_read c.result p) c.result q)
    wait p signaled k h =
        let q : IsQuiet (settle_read c.result p) = record { free = k; whole = h } in
        closing (settle_read c.result p) (event_came c (settle_read c.result p) c.result) q
          (came (settle_read c.result p) c.result q)

    event : (p : Port) (a : Async {0} Unit) → IsQuiet p → IsQuiet (wait_event c p a).0
    event p (at_once u) h = closing p (drain c.second p) h (drain-IsQuiet c.second p d' h)
    event p (call_failed n) h = h
    event p pending h = wait (record p { read_pending = true }) c.wait e h.whole

    more : (r : Port × Got) → IsQuiet r.0 → IsQuiet (read_more c r).0
    more (p, got []) h = event (reset_read p) c.event (reset_read-IsQuiet p h)
    more (p, got (b ∷ s)) h = h
    more (p, not_got x) h = h
