-- ===== src/Hub/Listing.antt =====
-- internal/hub/hub.go: the listing that `Ports` gives.
use sercon.Prelude.{◌≡◌, Bool, List, map, Bytes}
use sercon.Prelude.Sort.{count, IsSorted, sort_by-IsSorted, count-sort_by}
use sercon.Hub.Types.{PortInfo, Port, Manager}
use sercon.Hub.Ports.{info}
use sercon.Hub.Manager.{port_infos}

abbrev pub by_ref : PortInfo → Bytes
by_ref i = i.ref

-- A listing of the manager's ports: in the order of their references, and with one entry for each.
pub record IsListing (m : Manager) (l : List PortInfo) : Type 0 where
  pub sorted : IsSorted by_ref l
  pub complete :
      (t : PortInfo → Bool) → count t l ≡ count t (map (λ (e : Bytes × Port). info m e.1) m.ports)

-- The listing is in the order of the ports' references, and it holds the entry of each port as often
-- as the manager holds the port.
pub port_infos-IsListing : (m : Manager) → IsListing m (port_infos m)
unfolding port_infos
port_infos-IsListing m =
    let entries = map (λ (e : Bytes × Port). info m e.1) m.ports in
    record {
      sorted = sort_by-IsSorted by_ref entries;
      complete = λ t. count-sort_by by_ref t entries;
    }
