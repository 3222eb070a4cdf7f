-- ===== src/Hub/Links/Quiet.antt =====
-- internal/hub: the links under the operations that queue frames, count, log, and open or
-- close devices.
use sercon.Prelude.{ℕ, refl, ◌∙◌, Option, List, [], ◌∷◌, arith, maybe-intro, if-intro, Bytes}
use sercon.Prelude.Dict.{nat_key, str_key, get}
use sercon.Hub.Types.{
  Event, LogCall, OpError, Text, Message, OutMsg, data_frame, Conn, Port, Manager, audit_log,
}
use sercon.Hub.Queue.{write_oldest, enqueue, write_step, send, notify}
use sercon.Hub.Ports.{
  on_port, on_conn, on_conns, log_to, ensure_worker, start_worker, bring_up, bring_down, go_online,
  go_offline, fanout_ring, count_read, fanout_publish, fanout, DeviceReply, count_written,
  write_port,
}
use sercon.Hub.Session.{send_to}
use sercon.Hub.Links.{SamePort, SameConn, Alike-refl, Alike-trans, Alike-adjust, SameLinks}

SamePort-refl : (p : Port) → SamePort p p
SamePort-refl p = (refl, refl, refl)

SameConn-refl : (k : Conn) → SameConn k k
SameConn-refl k = (refl, refl)

SamePort-trans : (p q r : Port) → SamePort p q → SamePort q r → SamePort p r
SamePort-trans p q r h k = (k.0 ∙ h.0, k.1 ∙ h.1, k.2 ∙ h.2)

SameConn-trans : (p q r : Conn) → SameConn p q → SameConn q r → SameConn p r
SameConn-trans p q r h k = (k.0 ∙ h.0, k.1 ∙ h.1)

pub SameLinks-refl : (m : Manager) → SameLinks m m
SameLinks-refl m = record {
  ports_alike = Alike-refl SamePort SamePort-refl m.ports;
  conns_alike = Alike-refl SameConn SameConn-refl m.conns;
}

pub SameLinks-trans : (a b c : Manager) → SameLinks a b → SameLinks b c → SameLinks a c
SameLinks-trans a b c h k = record {
  ports_alike =
      Alike-trans SamePort SamePort-trans a.ports b.ports c.ports h.ports_alike k.ports_alike;
  conns_alike =
      Alike-trans SameConn SameConn-trans a.conns b.conns c.conns h.conns_alike k.conns_alike;
}

pub on_port-SameLinks :
    (m : Manager) (r : Bytes) (f : Port → Port)
    → ((p : Port) → SamePort p (f p))
    → SameLinks m (on_port m r f)
on_port-SameLinks m r f s = record {
  ports_alike = Alike-adjust SamePort SamePort-refl r f s m.ports;
  conns_alike = Alike-refl SameConn SameConn-refl m.conns;
}

pub on_conn-SameLinks :
    (m : Manager) (c : ℕ) (f : Conn → Conn)
    → ((k : Conn) → SameConn k (f k))
    → SameLinks m (on_conn m c f)
on_conn-SameLinks m c f s = record {
  ports_alike = Alike-refl SamePort SamePort-refl m.ports;
  conns_alike = Alike-adjust SameConn SameConn-refl c f s m.conns;
}

pub on_conns-SameLinks :
    (m : Manager) (cs : List ℕ) (f : Conn → Conn)
    → ((k : Conn) → SameConn k (f k))
    → SameLinks m (on_conns m cs f)
unfolding on_conns
on_conns-SameLinks m [] f s = SameLinks-refl m
on_conns-SameLinks m (c ∷ cs) f s =
    SameLinks-trans m (on_conn m c f) (on_conns (on_conn m c f) cs f) (on_conn-SameLinks m c f s)
      (on_conns-SameLinks (on_conn m c f) cs f s)

pub enqueue-SameConn : (o : OutMsg) (k : Conn) → SameConn k (enqueue k o)
unfolding enqueue
enqueue-SameConn o k = ground arith

pub notify-SameConn : (t : Text) (k : Conn) → SameConn k (notify k t)
unfolding notify
notify-SameConn t k = ground arith

write_oldest-SameConn : (k : Conn) (out : List OutMsg) → SameConn k (write_oldest k out)
write_oldest-SameConn k [] = (refl, refl)
write_oldest-SameConn k (o ∷ out) = ground arith

pub write_step-SameConn : (k : Conn) → SameConn k (write_step k)
unfolding write_step
write_step-SameConn k = ground (arith, write_oldest-SameConn k k.out)

pub send-SameConn : (msg : Message) (k : Conn) → SameConn k (send k msg).0
unfolding send
send-SameConn msg k = ground (arith, write_step-SameConn k)

-- `send_to` changes at most the queue of the connection.
pub send_to-SameLinks : (m : Manager) (c : ℕ) (msg : Message) → SameLinks m (send_to m c msg).0
unfolding send_to
send_to-SameLinks m c msg =
    maybe-intro (λ (x : Manager × Option OpError). SameLinks m x.0) _ _ (get c m.conns)
      (λ _. SameLinks-refl m)
      (λ k _. on_conn-SameLinks m c (λ j. (send j msg).0) (send-SameConn msg))

pub log_to-SamePort : (call : LogCall) (p : Port) → SamePort p (log_to call p)
log_to-SamePort call p = ground arith

start_worker-SamePort : (p : Port) → SamePort p (start_worker p)
start_worker-SamePort p = ground arith

pub ensure_worker-SameLinks : (m : Manager) (r : Bytes) → SameLinks m (ensure_worker m r)
unfolding ensure_worker
ensure_worker-SameLinks m r =
    if-intro (SameLinks m) m.closed _ _ (λ _. SameLinks-refl m)
      (λ _. on_port-SameLinks m r start_worker start_worker-SamePort)

announce-SameLinks :
    (m : Manager) (r : Bytes) (f : Port → Port) (e : Event) (cs : List ℕ) (t : Text)
    → ((p : Port) → SamePort p (f p))
    → SameLinks m (on_conns (audit_log (on_port m r f) e) cs (λ k. notify k t))
announce-SameLinks m r f e cs t s = record {
  ports_alike = all.ports_alike;
  conns_alike = all.conns_alike;
}
  where
    loud :
        SameLinks
          (audit_log (on_port m r f) e)
          (on_conns (audit_log (on_port m r f) e) cs (λ k. notify k t))
    loud = on_conns-SameLinks (audit_log (on_port m r f) e) cs (λ k. notify k t) (notify-SameConn t)

    quiet : SameLinks m (audit_log (on_port m r f) e)
    quiet = record {
      ports_alike = (on_port-SameLinks m r f s).ports_alike;
      conns_alike = (on_port-SameLinks m r f s).conns_alike;
    }

    all : SameLinks m (on_conns (audit_log (on_port m r f) e) cs (λ k. notify k t))
    all =
        SameLinks-trans m (audit_log (on_port m r f) e)
          (on_conns (audit_log (on_port m r f) e) cs (λ k. notify k t)) quiet loud

pub go_online-SameLinks :
    (m : Manager) (r : Bytes) (sp : ℕ) (dev : Bytes) → SameLinks m (go_online m r sp dev)
unfolding go_online
go_online-SameLinks m r sp dev =
    maybe-intro (SameLinks m) _ _ (get r m.ports) (λ _. SameLinks-refl m)
      (λ p _.
        if-intro (SameLinks m) p.online _ _
          (λ _. on_port-SameLinks m r (bring_up sp dev) (λ q. (refl, refl, refl)))
          (λ _. announce-SameLinks m r _ _ p.conns _ (λ q. log_to-SamePort _ (bring_up sp dev q))))

pub go_offline-SameLinks :
    (m : Manager) (r : Bytes) (err : Bytes) → SameLinks m (go_offline m r err)
unfolding go_offline
go_offline-SameLinks m r err =
    maybe-intro (SameLinks m) _ _ (get r m.ports) (λ _. SameLinks-refl m)
      (λ p _.
        if-intro (SameLinks m) p.online _ _
          (λ _. announce-SameLinks m r _ _ p.conns _ (λ q. log_to-SamePort _ (bring_down err q)))
          (λ _. on_port-SameLinks m r (bring_down err) (λ q. (refl, refl, refl))))

count_read-SamePort : (b : Bytes) (p : Port) → SamePort p (count_read b p)
count_read-SamePort b p = ground arith

pub fanout_publish-SameLinks : (m : Manager) (r b : Bytes) → SameLinks m (fanout_publish m r b)
unfolding fanout_publish
fanout_publish-SameLinks m r b =
    maybe-intro (SameLinks m) _ _ (get r m.ports) (λ _. SameLinks-refl m)
      (λ p _.
        SameLinks-trans m (on_port m r (count_read b)) _
          (on_port-SameLinks m r (count_read b) (count_read-SamePort b))
          (on_conns-SameLinks (on_port m r (count_read b)) p.conns _
            (enqueue-SameConn (data_frame b))))

pub fanout-SameLinks : (m : Manager) (r b : Bytes) → SameLinks m (fanout m r b)
unfolding fanout
fanout-SameLinks m r b =
    SameLinks-trans m (fanout_ring m r b) (fanout m r b)
      (on_port-SameLinks m r _ (λ q. (refl, refl, refl)))
      (fanout_publish-SameLinks (fanout_ring m r b) r b)

count_written-SamePort : (c n : ℕ) (b : Bytes) (p : Port) → SamePort p (count_written c n b p)
count_written-SamePort c n b p = ground arith

pub write_port-SameLinks :
    (m : Manager) (r : Bytes) (c : ℕ) (b : Bytes) (dev : DeviceReply)
    → SameLinks m (write_port m r c b dev).0
unfolding write_port
write_port-SameLinks m r c b dev =
    maybe-intro Same _ _ (get r m.ports) (λ _. SameLinks-refl m)
      (λ p _.
        maybe-intro Same _ _ p.sp (λ _. SameLinks-refl m)
          (λ _ _. on_port-SameLinks m r _ (count_written-SamePort c dev.taken b)))
  where
    Same : Manager × ℕ × Option OpError → Type 0
    Same x = SameLinks m x.0
