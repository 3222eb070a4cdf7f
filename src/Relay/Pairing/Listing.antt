-- ===== src/Relay/Pairing/Listing.antt =====
-- internal/relay/server.go: a connection that has ended and the lists of the rooms.
use sercon.Prelude.{
  ℕ, ◌≡◌, refl, ap, sym, ◌∙◌, subst, arith, ◌==◌, Bool-cases, inl, inr, false, none, some, List, [],
  ◌∷◌, maybe-intro, if-intro, Bytes, str_eq, str_eq_iff, All,
}
use sercon.Prelude.Dict.{nat_key, str_key, get, delete, get-delete, get-put, has, has-exclude}
use sercon.Relay.Server.{
  Role, publish, attach, Peer, Room, Server, without, keep_room, set_room, unregister,
}
use sercon.Relay.Pairing.{Listed, Orderly}

-- No room lists the peer.
abbrev pub Unlisted : ℕ → Server → Type 0
Unlisted i s =
    (n : Bytes) (r : Room)
    → get n s.rooms ≡ some r
    → (has i r.idle ≡ false) × (has i r.waiting ≡ false)

-- What would make the room named `n` list the peer.
abbrev pub IsOf : List (ℕ × Peer) → ℕ → Bytes → Type 0
IsOf ps i n = (p : Peer) × (get i ps ≡ some p) × (p.room ≡ n)

pub Listed-has :
    (ps : List (ℕ × Peer)) (role : Role) (n : Bytes) (i : ℕ) (xs : List ℕ)
    → All (Listed ps role n) xs
    → ¬ IsOf ps i n
    → has i xs ≡ false
unfolding has
Listed-has ps role n i [] h away = refl
Listed-has ps role n i (x ∷ xs) h away = elim (Bool-cases (x == i)) [
  | inl same ↦
      let names : x ≡ i = ground arith in
      let l = subst (Listed ps role n) names h.0 in elim (away (l.peer, l.there, l.its_room)) [ ]
  | inr other ↦ ground (arith, Listed-has ps role n i xs h.1 away)
]

pub away-has :
    (s : Server) (i : ℕ) (n : Bytes) (r : Room)
    → Orderly s
    → get n s.rooms ≡ some r
    → ¬ IsOf s.peers i n
    → (has i r.idle ≡ false) × (has i r.waiting ≡ false)
away-has s i n r h at away =
    let room = h.each_room n r at in
    (
      Listed-has s.peers publish n i r.idle room.publishers away,
      Listed-has s.peers attach n i r.waiting room.attachers away,
    )

pub fresh-Unlisted : (s : Server) (i : ℕ) → Orderly s → get i s.peers ≡ none → Unlisted i s
fresh-Unlisted s i h fresh n r at = away-has s i n r h at (λ (p, there, _). cc (fresh, there))

same_room :
    (ps : List (ℕ × Peer)) (i : ℕ) (n : Bytes) (p : Peer)
    → get i ps ≡ some p
    → IsOf ps i n
    → p.room ≡ n
same_room ps i n p there (p', there', its) =
    let one : p' ≡ p = ground (arith, there, there') in ap (λ (x : Peer). x.room) (sym one) ∙ its

pub elsewhere :
    (ps : List (ℕ × Peer)) (i : ℕ) (n : Bytes) (p : Peer)
    → get i ps ≡ some p
    → str_eq p.room n ≡ false
    → ¬ IsOf ps i n
elsewhere ps i n p there other it =
    let names = same_room ps i n p there it in ground (arith, str_eq_iff p.room n)

module _ (s : Server) (i : ℕ) (p : Peer) (r : Room) (h : Orderly s)
    (there : get i s.peers ≡ some p) where
  drop_room-Unlisted : Unlisted i (record s { rooms = delete p.room s.rooms })
  drop_room-Unlisted n r' at = elim (Bool-cases (str_eq p.room n)) [
    | inl same ↦ ground (arith, get-delete p.room n s.rooms)
    | inr other ↦
        away-has s i n r' h (ground (arith, get-delete p.room n s.rooms))
          (elsewhere s.peers i n p there other)
  ]

  set_room-Unlisted : Unlisted i (set_room s p.room (without i r))
  set_room-Unlisted n r' at = elim (Bool-cases (str_eq p.room n)) [
    | inl same ↦
        let kept : without i r ≡ r' = ground (arith, get-put p.room n (without i r) s.rooms) in
        subst (λ (x : Room). (has i x.idle ≡ false) × (has i x.waiting ≡ false)) kept
          (ground (arith, has-exclude i i r.idle), ground (arith, has-exclude i i r.waiting))
    | inr other ↦
        away-has s i n r' h (ground (arith, get-put p.room n (without i r) s.rooms))
          (elsewhere s.peers i n p there other)
  ]

  keep_room-Unlisted : Unlisted i (keep_room s p.room (without i r))
  keep_room-Unlisted =
      if-intro (Unlisted i) _ _ _ (λ _. drop_room-Unlisted) (λ _. set_room-Unlisted)

pub unregister-Unlisted : (s : Server) (i : ℕ) → Orderly s → Unlisted i (unregister s i)
unfolding unregister
unregister-Unlisted s i h =
    maybe-intro (Unlisted i) _ _ (get i s.peers) (λ fresh. fresh-Unlisted s i h fresh)
      (λ p there.
        maybe-intro (Unlisted i) _ _ (get p.room s.rooms)
          (λ gone n r at.
            away-has s i n r h at
              (λ it. let names = same_room s.peers i n p there it in cc (gone, at, names)))
          (λ r _. keep_room-Unlisted s i p r h there))

-- A peer that no room lists stays so when another one leaves.
keep_room-shrinks :
    (s : Server) (i j : ℕ) (n : Bytes) (r : Room)
    → Unlisted i s
    → get n s.rooms ≡ some r
    → Unlisted i (keep_room s n (without j r))
keep_room-shrinks s i j n r h at = if-intro (Unlisted i) _ _ _ (λ _. dropped) (λ _. smaller)
  where
    out : (has i r.idle ≡ false) × (has i r.waiting ≡ false)
    out = h n r at

    dropped : Unlisted i (record s { rooms = delete n s.rooms })
    dropped n' r' at' = h n' r' (ground (arith, get-delete n n' s.rooms))

    smaller : Unlisted i (set_room s n (without j r))
    smaller n' r' at' = elim (Bool-cases (str_eq n n')) [
      | inl same ↦
          let kept : without j r ≡ r' = ground (arith, get-put n n' (without j r) s.rooms) in
          let no_idle = out.0 in
          let no_waiting = out.1 in
          subst (λ (x : Room). (has i x.idle ≡ false) × (has i x.waiting ≡ false)) kept
            (ground (arith, has-exclude j i r.idle), ground (arith, has-exclude j i r.waiting))
      | inr other ↦ h n' r' (ground (arith, get-put n n' (without j r) s.rooms))
    ]

pub unregister-shrinks : (s : Server) (i j : ℕ) → Unlisted i s → Unlisted i (unregister s j)
unfolding unregister
unregister-shrinks s i j h =
    maybe-intro (Unlisted i) _ _ (get j s.peers) (λ _. h)
      (λ p _.
        maybe-intro (Unlisted i) _ _ (get p.room s.rooms) (λ _. h)
          (λ r at. keep_room-shrinks s i j p.room r h at))
