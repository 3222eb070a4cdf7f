-- ===== src/Relay/Pairing/Free.antt =====
-- internal/relay/server.go: a peer that has a partner is in no list, in every run of the server.
pub mod Joins
pub mod Runs
use sercon.Prelude.{
  ℕ, ◌≡◌, refl, ap, sym, ◌∙◌, subst, arith, ◌==◌, ◌||◌, inl, inr, Bool-cases, Bool, true, false,
  ◌&&◌, not, Option, none, some, List, [], ◌∷◌, ◌++◌, if◌then◌else◌, maybe, maybe-intro, if-intro,
  Bytes, codes, str_eq, str_eq_iff, is_empty, All,
}
use sercon.Prelude.Dict.{
  nat_key, str_key, get, put, adjust, get-adjust, delete, get-delete, get-put, exclude, has,
  has-exclude,
}
use sercon.Relay.Server.{
  Role, publish, attach, Peer, Room, Server, Outcome, set_partner, link, set_room, pair_up,
  publish_in, attach_in, join_room, add_peer, empty_room, register, without, keep_room, unregister,
  Hello, HelloError, check_hello, admit, accept_hello, role_named, Step, arrive, leave, step, run,
}
use sercon.Relay.Pairing.{Listed, IsRoom, Orderly}
use sercon.Relay.Pairing.Runs.{unregister-Orderly, register-Orderly, run-Orderly}
use sercon.Relay.Pairing.Listing.{Unlisted, IsOf, Listed-has, away-has}

abbrev pub Distinct : List ℕ → Type 0
Distinct [] = Unit
Distinct (x ∷ xs) = (has x xs ≡ false) × Distinct xs

abbrev pub NotIn : ℕ → Room → Type 0
NotIn j r = (has j r.idle ≡ false) × (has j r.waiting ≡ false)

-- The lists of a room name each peer once, and none that has a partner.
pub record IsFree (ps : List (ℕ × Peer)) (r : Room) : Type 0 where
  pub alone : (j q : ℕ) (p : Peer) → get j ps ≡ some p → p.partner ≡ some q → NotIn j r
  pub idle_once : Distinct r.idle
  pub waiting_once : Distinct r.waiting

pub record Free (s : Server) : Type 0 where
  pub each_free : (n : Bytes) (r : Room) → get n s.rooms ≡ some r → IsFree s.peers r

pub partner-Unlisted :
    (s : Server) (j q : ℕ) (p : Peer)
    → Free s
    → get j s.peers ≡ some p
    → p.partner ≡ some q
    → Unlisted j s
partner-Unlisted s j q p h there has_one n r at = (h.each_free n r at).alone j q p there has_one

pub has-append : (j i : ℕ) (xs : List ℕ) → has j (xs ++ i ∷ []) ≡ (has j xs || i == j)
unfolding has
has-append j i [] = ground arith
has-append j i (x ∷ xs) = ground (arith, has-append j i xs)

pub Distinct-append :
    (i : ℕ) (xs : List ℕ) → has i xs ≡ false → Distinct xs → Distinct (xs ++ i ∷ [])
unfolding has
Distinct-append i [] new h = (refl, tt)
Distinct-append i (x ∷ xs) new h =
    (ground (arith, has-append x i xs), Distinct-append i xs (ground arith) h.1)

pub Distinct-exclude : (i : ℕ) (xs : List ℕ) → Distinct xs → Distinct (exclude i xs)
unfolding exclude
Distinct-exclude i [] h = tt
Distinct-exclude i (x ∷ xs) h =
    let rest = Distinct-exclude i xs h.1 in
    if-intro Distinct (x == i) _ _ (λ _. rest) (λ _. (ground (arith, has-exclude i x xs), rest))

pub empty-IsFree : (ps : List (ℕ × Peer)) (token : Bytes) → IsFree ps (empty_room token)
unfolding has
empty-IsFree ps token = record {
  alone = λ j q p there it. (refl, refl);
  idle_once = tt;
  waiting_once = tt;
}

pub put-IsFree :
    (ps : List (ℕ × Peer)) (r : Room) (i : ℕ) (x : Peer)
    → x.partner ≡ none
    → IsFree ps r
    → IsFree (put i x ps) r
put-IsFree ps r i x single h = record {
  alone = λ j q p there it. elim (Bool-cases (i == j)) [
    | inl same ↦ let one : x ≡ p = ground (arith, get-put i j x ps) in cc (one, single, it)
    | inr other ↦ h.alone j q p (ground (arith, get-put i j x ps)) it
  ];
  idle_once = h.idle_once;
  waiting_once = h.waiting_once;
}

pub link-IsFree :
    (ps : List (ℕ × Peer)) (r : Room) (i q : ℕ)
    → NotIn i r
    → NotIn q r
    → IsFree ps r
    → IsFree (link i q ps) r
unfolding link
link-IsFree ps r i q no_i no_q h = record {
  alone = λ j q' p there it. elim (Bool-cases (i == j)) [
    | inl same ↦ let eq : i ≡ j = ground arith in subst (λ x. NotIn x r) eq no_i
    | inr other ↦ elim (Bool-cases (q == j)) [
      | inl same ↦ let eq : q ≡ j = ground arith in subst (λ x. NotIn x r) eq no_q
      | inr other' ↦
          h.alone j q' p
            (ground (
              arith,
              get-adjust i j (set_partner q) ps,
              get-adjust q j (set_partner i) (adjust i (set_partner q) ps),
            ))
            it
    ]
  ];
  idle_once = h.idle_once;
  waiting_once = h.waiting_once;
}
