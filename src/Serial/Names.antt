-- ===== src/Serial/Names.antt =====
-- internal/serialport/comname.go and serialport_windows.go: names of Windows ports, and their listing from the registry.
use sercon.Prelude.{
  ℕ, ◌^◌, Bool, true, false, ◌&&◌, ◌||◌, not, Option, List, [], ◌∷◌, ◌++◌, map, ltb, leb, ◌==◌,
  if◌then◌else◌, maybe, length, drop, Bytes, codes, str_eq, to_upper, has_prefix,
}
use sercon.Prelude.Sort.{str_lt}
pub mod Listing

abbrev pub is_digit : ℕ → Bool
is_digit c = leb b'0' c && leb c b'9'

unfoldable pub all_digits : Bytes → Bool
all_digits [] = true
all_digits (c ∷ s) = is_digit c && all_digits s

-- `isComName`
unfoldable pub is_com_name : Bytes → Bool
is_com_name s =
    let u = to_upper s in
    if leb (length u) 3 || not (has_prefix (codes "COM") u) then false else all_digits (drop 3 u)

abbrev pub device_namespace : Bytes
device_namespace = codes "\\\\.\\"

-- `devicePath`
unfoldable pub device_path : Bytes → Bytes
device_path name =
    if has_prefix device_namespace name || has_prefix (codes "\\\\?\\") name
    then name
    else if is_com_name name
    then device_namespace ++ name
    else name

-- `shortDeviceName`
unfoldable pub short_device_name : Bytes → Bytes
short_device_name p = if has_prefix (codes "\\Device\\") p then drop 8 p else p

pub record Device : Type 0 where
  pub ref : Bytes
  pub link : Bytes
  pub dev : Bytes
  pub desc : Bytes

-- An entry of the registry's key: whether it is a text, the value and the name.
pub record RegistryValue : Type 0 where
  pub is_text : Bool
  pub value : Bytes
  pub name : Bytes

pub record RegPort : Type 0 where
  pub name : Bytes
  pub desc : Bytes

-- The loop of `registryPorts`
unfoldable pub registry_ports : List RegistryValue → List RegPort
registry_ports [] = []
registry_ports (v ∷ vs) =
    let rest = registry_ports vs in
    if not v.is_text
    then rest
    else if not (is_com_name v.value)
    then rest
    else record { name = v.value; desc = short_device_name v.name } ∷ rest

-- `Exists`
unfoldable pub port_exists : Bytes → List RegPort → Bool
port_exists path [] = false
port_exists path (e ∷ es) = str_eq (to_upper e.name) (to_upper path) || port_exists path es

module _ (atoi : Bytes → Option ℕ) where
  -- `comNumber`, with what `strconv.Atoi` makes of the digits.
  unfoldable pub com_number : Bytes → ℕ
  unfolding maybe
  com_number name =
      let u = to_upper name in
      if not (has_prefix (codes "COM") u) then 2 ^ 30 else maybe (2 ^ 30) (λ n. n) (atoi (drop 3 u))

  -- The order of `Discover`
  unfoldable pub is_before : Device → Device → Bool
  is_before a b =
      let i = com_number a.ref in
      let j = com_number b.ref in if not (i == j) then ltb i j else str_lt a.ref b.ref

  unfoldable pub insert_device : Device → List Device → List Device
  insert_device a [] = a ∷ []
  insert_device a (x ∷ xs) = if is_before x a then x ∷ insert_device a xs else a ∷ x ∷ xs

  unfoldable pub sort_devices : List Device → List Device
  sort_devices [] = []
  sort_devices (x ∷ xs) = insert_device x (sort_devices xs)

  abbrev pub listed : RegPort → Device
  listed e = record { ref = e.name; link = e.name; dev = e.name; desc = e.desc }

  -- `Discover`
  unfoldable pub discover : List RegistryValue → List Device
  discover vs = sort_devices (map listed (registry_ports vs))
