-- ===== src/Client/Keys/Typing.antt =====
-- cmd/sercon/attach.go: what the keys of an operator put on the wire.
use sercon.Prelude.{
  ℕ, ◌≤◌, ◌≡◌, refl, sym, ap, ◌∙◌, inl, inr, true, false, none, List, [], ◌∷◌, ◌++◌, append-nil,
  append_assoc, arith, ◌==◌, if◌then◌else◌, Bool-cases, if-true, if-false, length, All, Bytes,
  is_empty,
}
use sercon.Hub.Types.{data_frame, ctrl_frame, blank_message, break_}
use sercon.Proto.{max_payload}
use sercon.Client.Keys.{
  Wire, put_frame, put_data, Shown, break_sent, Session, EscapeResult, emit, escape, key, KeysEnd,
  going_on, reconnecting, flush, keys, handle_keys,
}

-- A session that is not behind a Ctrl-A.
abbrev pub ready : Wire → List Shown → Session
ready w sh = record { escaping = false; wire = w; shown = sh }

-- Keys that type any text: a Ctrl-A is typed as Ctrl-A a.
abbrev pub protect : Bytes → Bytes
protect [] = []
protect (b ∷ p) = (if b == 1 then 1 ∷ b'a' ∷ [] else b ∷ []) ++ protect p

abbrev pub IsPlain : ℕ → Type 0
IsPlain b = (b == 1) ≡ false

key-plain :
    (w : Wire) (sh : List Shown) (b : ℕ)
    → IsPlain b
    → key (ready w sh) b ≡ (ready w sh, emit (b ∷ []))
unfolding key
key-plain w sh b h = ground arith

keys-emit :
    (s s' : Session) (pending : Bytes) (b : ℕ) (p e : Bytes)
    → key s b ≡ (s', emit e)
    → keys s pending (b ∷ p) ≡ keys s' (pending ++ e) p
unfolding keys
keys-emit s s' pending b p e h =
    rw (h, keys) (ap (λ (x : Session × EscapeResult). keys x.0 (pending ++ e) p) h)

-- Bytes other than the escape key are only collected.
keys-plain :
    (w : Wire) (sh : List Shown) (pending p q : Bytes)
    → All IsPlain p
    → keys (ready w sh) pending (p ++ q) ≡ keys (ready w sh) (pending ++ p) q
keys-plain w sh pending [] q h = ap (λ x. keys (ready w sh) x q) (sym (append-nil pending))
keys-plain w sh pending (b ∷ p) q h =
    keys-emit (ready w sh) (ready w sh) pending b (p ++ q) (b ∷ []) (key-plain w sh b h.0)
    ∙ keys-plain w sh (pending ++ b ∷ []) p q h.1
    ∙ ap (λ x. keys (ready w sh) x q) (append_assoc pending (b ∷ []) p)

-- Ctrl-A a
keys-escaped :
    (w : Wire) (sh : List Shown) (pending q : Bytes)
    → keys (ready w sh) pending (1 ∷ b'a' ∷ q) ≡ keys (ready w sh) (pending ++ 1 ∷ []) q
unfolding keys key escape
keys-escaped w sh pending q = ap (λ x. keys (ready w sh) (x ++ 1 ∷ []) q) (append-nil pending)

keys-protect :
    (w : Wire) (sh : List Shown) (pending p : Bytes)
    → keys (ready w sh) pending (protect p) ≡ keys (ready w sh) (pending ++ p) []
keys-protect w sh pending [] = ap (λ x. keys (ready w sh) x []) (sym (append-nil pending))
keys-protect w sh pending (b ∷ p) =
    elim (Bool-cases (b == 1)) [
      | inl ctrl_a ↦
          ap (λ (x : Bytes). keys (ready w sh) pending (x ++ protect p))
            (if-true (b == 1) _ (b ∷ []) ctrl_a)
          ∙ keys-escaped w sh pending (protect p)
          ∙ ap (λ x. keys (ready w sh) (pending ++ x ∷ []) (protect p))
              (let e : 1 ≡ b = ground arith in e)
      | inr plain ↦
          ap (λ (x : Bytes). keys (ready w sh) pending (x ++ protect p))
            (if-false (b == 1) _ (b ∷ []) plain)
          ∙ keys-plain w sh pending (b ∷ []) (protect p) (plain, tt)
    ]
    ∙ keys-protect w sh (pending ++ b ∷ []) p
    ∙ ap (λ x. keys (ready w sh) x []) (append_assoc pending (b ∷ []) p)

flush_sound :
    (w : Wire) (sh : List Shown) (p : Bytes)
    → w.broken ≡ false
    → is_empty p ≡ false
    → length p ≤ max_payload
    → keys (ready w sh) p []
      ≡ (ready (record w { frames = w.frames ++ data_frame p ∷ [] }) sh, going_on)
unfolding keys flush put_data put_frame
flush_sound w sh p sound some_keys fits = ground arith

-- Whatever text an operator means to type, the keys that double each Ctrl-A as Ctrl-A a send just that
-- text to the port in one frame, and the session goes on as it was.
pub handle_keys-protect :
    (w : Wire) (sh : List Shown) (p : Bytes)
    → w.broken ≡ false
    → is_empty p ≡ false
    → length p ≤ max_payload
    → handle_keys (ready w sh) (protect p)
      ≡ (ready (record w { frames = w.frames ++ data_frame p ∷ [] }) sh, going_on)
handle_keys-protect w sh p sound some_keys fits =
    keys-protect w sh [] p ∙ flush_sound w sh p sound some_keys fits

abbrev with_break : Wire → Wire
with_break w = record w { frames = w.frames ++ ctrl_frame (blank_message break_) ∷ [] }

key-escape :
    (w : Wire) (sh : List Shown)
    → key (ready w sh) 1 ≡ (record (ready w sh) { escaping = true }, emit [])
unfolding key
key-escape w sh = refl

key-break :
    (w : Wire) (sh : List Shown)
    → w.broken ≡ false
    → key (record (ready w sh) { escaping = true }) b'b'
      ≡ (ready (with_break w) (sh ++ break_sent none ∷ []), emit [])
unfolding key escape put_frame
key-break w sh sound = ground arith

keys-break :
    (w : Wire) (sh : List Shown) (pending : Bytes)
    → w.broken ≡ false
    → keys (ready w sh) pending (1 ∷ b'b' ∷ [])
      ≡ keys (ready (with_break w) (sh ++ break_sent none ∷ [])) pending []
keys-break w sh pending sound =
    keys-emit (ready w sh) (record (ready w sh) { escaping = true }) pending 1 (b'b' ∷ []) []
      (key-escape w sh)
    ∙ keys-emit (record (ready w sh) { escaping = true }) _ (pending ++ []) b'b' [] []
        (key-break w sh sound)
    ∙ ap (λ x. keys (ready (with_break w) (sh ++ break_sent none ∷ [])) x [])
        (append-nil (pending ++ []) ∙ append-nil pending)

-- Keys that are read together with a Ctrl-A b behind them reach the port after the break, although they
-- were typed before it.
pub handle_keys-break_first :
    (w : Wire) (sh : List Shown) (p : Bytes)
    → All IsPlain p
    → w.broken ≡ false
    → is_empty p ≡ false
    → length p ≤ max_payload
    → (handle_keys (ready w sh) (p ++ 1 ∷ b'b' ∷ [])).0.wire.frames
      ≡ w.frames ++ ctrl_frame (blank_message break_) ∷ data_frame p ∷ []
handle_keys-break_first w sh p plain sound some_keys fits =
    ap (λ (x : Session × KeysEnd). x.0.wire.frames)
      (keys-plain w sh [] p (1 ∷ b'b' ∷ []) plain
        ∙ keys-break w sh p sound
        ∙ flush_sound (with_break w) (sh ++ break_sent none ∷ []) p sound some_keys fits)
    ∙ append_assoc w.frames (ctrl_frame (blank_message break_) ∷ []) (data_frame p ∷ [])

keys-reconnect :
    (w : Wire) (sh : List Shown) (pending q : Bytes)
    → keys (ready w sh) pending (1 ∷ b'r' ∷ q) ≡ (ready w sh, reconnecting)
unfolding keys key escape
keys-reconnect w sh pending q = refl

-- Keys that are read together with a Ctrl-A r behind them are dropped: nothing is sent, and the session
-- asks for a reconnect.
pub handle_keys-reconnect_drops :
    (w : Wire) (sh : List Shown) (p q : Bytes)
    → All IsPlain p
    → handle_keys (ready w sh) (p ++ 1 ∷ b'r' ∷ q) ≡ (ready w sh, reconnecting)
handle_keys-reconnect_drops w sh p q plain =
    keys-plain w sh [] p (1 ∷ b'r' ∷ q) plain ∙ keys-reconnect w sh p q
