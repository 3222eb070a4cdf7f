-- ===== src/Serial/Linux/Scan.antt =====
-- internal/serialport/serialport_linux.go: what a listing of devices holds.
use sercon.Prelude.{
  ℕ, ◌+◌, ◌≤◌, ◌≡◌, Bool, List, [], ◌∷◌, ◌++◌, arith, if◌then◌else◌, maybe, maybe-intro, if-intro,
  Bytes, str_eq, str_eq_iff,
}
use sercon.Prelude.Sort.{sort_by-IsSorted, IsSorted, count, count-sort_by}
use sercon.Prelude.Strings.{has_text}
use sercon.Serial.Names.{Device}
use sercon.Serial.Linux.Reading.{Match, scan_links, scan_matches, discover_linux}

-- How many devices of a list are at a node.
abbrev pub at_node : Bytes → Device → Bool
at_node dev d = str_eq d.dev dev

-- At most one, and none if it was seen.
abbrev Once : Bytes → List Bytes → List Device → Type 0
Once dev seen ds = count (at_node dev) ds + (if has_text dev seen then 1 else 0) ≤ 1

scan_matches-Once :
    (dev : Bytes) (seen : List Bytes) (ms : List Match) → Once dev seen (scan_matches seen ms)
unfolding scan_matches has_text
scan_matches-Once dev seen [] =
    if-intro (λ n. 0 + n ≤ 1) (has_text dev seen) 1 0 (λ _. omega arith) (λ _. omega arith)
scan_matches-Once dev seen (m ∷ ms) =
    let d = maybe m.path (λ d. d) m.resolved in
    if-intro (Once dev seen) (has_text d seen) _ _ (λ _. scan_matches-Once dev seen ms)
      (λ new. ground (arith, str_eq_iff d dev, scan_matches-Once dev (d ∷ seen) ms))

abbrev one_if : Bool → ℕ
one_if b = if b then 1 else 0

-- What the links give is what is new among the seen.
scan_links-seen :
    (dev : Bytes) (seen : List Bytes) (ms : List Match)
    → count (at_node dev) (scan_links seen ms).0 + one_if (has_text dev seen)
      ≡ one_if (has_text dev (scan_links seen ms).1)
unfolding scan_links has_text
scan_links-seen dev seen [] = omega arith
scan_links-seen dev seen (m ∷ ms) =
    let P : List Device × List Bytes → Type 0 =
      λ r. count (at_node dev) r.0 + one_if (has_text dev seen) ≡ one_if (has_text dev r.1) in
    maybe-intro P _ _ m.resolved (λ _. scan_links-seen dev seen ms)
      (λ d _.
        if-intro P (has_text d seen) _ _ (λ _. scan_links-seen dev seen ms)
          (λ new. ground (arith, str_eq_iff d dev, scan_links-seen dev (d ∷ seen) ms)))

count-append : (t : Device → Bool) (a b : List Device) → count t (a ++ b) ≡ count t a + count t b
count-append t [] b = omega arith
count-append t (x ∷ a) b = omega (arith, count-append t a b)

-- On Linux the listing is sorted by reference and no device node is in it twice, whatever the links and the globs
-- find.
pub discover_linux-once :
    (links matches : List Match)
    → IsSorted (λ d. d.ref) (discover_linux links matches)
      × ((dev : Bytes) → count (at_node dev) (discover_linux links matches) ≤ 1)
unfolding discover_linux has_text
discover_linux-once links matches =
    let first = scan_links [] links in
    let rest = scan_matches first.1 matches in
    (
      sort_by-IsSorted (λ d. d.ref) (first.0 ++ rest),
      λ dev. omega (
        arith,
        count-sort_by (λ d. d.ref) (at_node dev) (first.0 ++ rest),
        count-append (at_node dev) first.0 rest,
        scan_links-seen dev [] links,
        scan_matches-Once dev first.1 matches,
      ),
    )
