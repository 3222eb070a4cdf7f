-- ===== src/Hub/Input.antt =====
-- internal/hub: what a client types, and the devices that it reaches.
use sercon.Prelude.{
  ℕ, ◌<◌, ◌≡◌, refl, ap, ◌∙◌, ◌⊎◌, inl, true, Option, none, some, [], ◌∷◌, ◌++◌, arith,
  if◌then◌else◌, maybe-intro, maybe-some, if-intro, if-true, take, Bytes, codes, str_eq, str_eq_iff,
}
use sercon.Prelude.Dict.{nat_key, str_key, get, adjust-get}
use sercon.Hub.Types.{OpError, error_text, Message, Conn, Port, Manager, add64, is_owner}
use sercon.Hub.Ports.{on_port, DeviceReply, count_written, write_port}
use sercon.Hub.Session.{Environ, report_write, send_to, error_message, handle_input}
use sercon.Hub.Links.Open.{Linked}

-- What a port's devices took, before and after the client `c` sent the bytes `b` of which a device
-- takes `n`.
pub record TypedOn (c n : ℕ) (b : Bytes) (p q : Port) : Type 0 where
  pub outcome : (q.tx ≡ p.tx) ⊎ ((is_owner p.owner c ≡ true) × (q.tx ≡ p.tx ++ (c, take n b) ∷ []))

pub record Typed (c n : ℕ) (b : Bytes) (m m' : Manager) : Type 0 where
  pub all :
      (r : Bytes) (p : Port)
      → get r m.ports ≡ some p
      → (q : Port) × (get r m'.ports ≡ some q) × TypedOn c n b p q

nothing-Typed : (c n : ℕ) (b : Bytes) (m m' : Manager) → m'.ports ≡ m.ports → Typed c n b m m'
nothing-Typed c n b m m' e = record {
  all = λ r p h. (p, ap (get r) e ∙ h, record { outcome = inl refl });
}

Typed-ports :
    (c n : ℕ) (b : Bytes) (m m' m'' : Manager)
    → Typed c n b m m'
    → m''.ports ≡ m'.ports
    → Typed c n b m m''
Typed-ports c n b m m' m'' t e = record {
  all = λ r p h. let (q, hq, w) = t.all r p h in (q, ap (get r) e ∙ hq, w);
}

send_to-ports : (m : Manager) (c : ℕ) (msg : Message) → (send_to m c msg).0.ports ≡ m.ports
unfolding send_to
send_to-ports m c msg =
    maybe-intro (λ (x : Manager × Option OpError). x.0.ports ≡ m.ports) _ _ (get c m.conns)
      (λ _. refl) (λ k _. refl)

report_write-ports :
    (m : Manager) (c : ℕ) (e : Option OpError) → (report_write m c e).ports ≡ m.ports
report_write-ports m c none = refl
report_write-ports m c (some e) = send_to-ports m c (error_message (codes "write") (error_text e))

count_written-TypedOn :
    (c n : ℕ) (b : Bytes) (p : Port)
    → is_owner p.owner c ≡ true
    → TypedOn c n b p (count_written c n b p)
count_written-TypedOn c n b p o = record { outcome = ground arith }

-- A write to the port `s`, where `c` owns it.
write_port-Typed :
    (m : Manager) (s : Bytes) (c : ℕ) (b : Bytes) (dev : DeviceReply)
    → ((p : Port) → get s m.ports ≡ some p → is_owner p.owner c ≡ true)
    → Typed c dev.taken b m (write_port m s c b dev).0
unfolding write_port
write_port-Typed m s c b dev own =
    maybe-intro Wrote _ _ (get s m.ports) (λ _. nothing-Typed c dev.taken b m m refl)
      (λ p there.
        maybe-intro Wrote _ _ p.sp (λ _. nothing-Typed c dev.taken b m m refl)
          (λ _ _. record { all = taken }))
  where
    Wrote : Manager × ℕ × Option OpError → Type 0
    Wrote x = Typed c dev.taken b m x.0

    taken :
        (r : Bytes) (p : Port)
        → get r m.ports ≡ some p
        → (q : Port) × (get r (on_port m s (count_written c dev.taken b)).ports ≡ some q)
          × TypedOn c dev.taken b p q
    taken r p h = (
      if str_eq s r then count_written c dev.taken b p else p,
      adjust-get s r (count_written c dev.taken b) m.ports h,
      if-intro (TypedOn c dev.taken b p) (str_eq s r) _ _
          (λ same. count_written-TypedOn c dev.taken b p (own p (ground (arith, str_eq_iff s r))))
          (λ _. record { outcome = inl refl }),
    )

-- Of the bytes that a client sends, a port's device takes some only if that client owns the port; the
-- port then records just what the device took, under that client.
pub handle_input-Typed :
    (m : Manager) (c : ℕ) (k : Conn) (b : Bytes) (env : Environ)
    → Linked m
    → get c m.conns ≡ some k
    → Typed c env.device.taken b m (handle_input m c k b env)
unfolding handle_input
handle_input-Typed m c k b env h here =
    maybe-intro (Typed c env.device.taken b m) _ _ k.port (λ _. nothing-Typed c _ b m m refl)
      (λ s on.
        if-intro (Typed c env.device.taken b m) k.writable _ _
          (λ w.
            Typed-ports c env.device.taken b m (write_port m s c b env.device).0 _
              (write_port-Typed m s c b env.device (λ p hp.
                let (q, hq, joined, eq) = h.links.bound_joined c k s here on in ground arith))
              (report_write-ports _ c _))
          (λ _. nothing-Typed c _ b m m refl))

-- What a writer sends to a port whose device is open and takes some of it is recorded with the port
-- under that writer, and the port's count of bytes rises by what the device took.
pub handle_input-taken :
    (m : Manager) (c : ℕ) (k : Conn) (b : Bytes) (env : Environ) (r : Bytes) (p : Port) (sp : ℕ)
    → k.port ≡ some r
    → k.writable ≡ true
    → get r m.ports ≡ some p
    → p.sp ≡ some sp
    → 0 < env.device.taken
    → (q : Port) × (get r (handle_input m c k b env).ports ≡ some q)
      × (q.tx ≡ p.tx ++ (c, take env.device.taken b) ∷ [])
      × (q.written ≡ add64 p.written env.device.taken)
unfolding handle_input write_port
handle_input-taken m c k b env r p sp on w there is_open n = (
  count_written c env.device.taken b p,
  ap (get r) (
        ap (λ (x : Manager). x.ports) (maybe-some m _ k.port on ∙ if-true k.writable _ _ w)
        ∙ report_write-ports _ c _
        ∙ ap (λ (x : Manager × ℕ × Option OpError). x.0.ports)
            (maybe-some _ _ (get r m.ports) there ∙ maybe-some _ _ p.sp is_open))
      ∙ ground (
        arith,
        adjust-get r r (count_written c env.device.taken b) m.ports there,
        str_eq_iff r r,
      ),
  ground arith,
  ground arith,
)
