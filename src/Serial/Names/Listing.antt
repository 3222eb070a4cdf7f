-- ===== src/Serial/Names/Listing.antt =====
-- internal/serialport/serialport_windows.go: what a listing holds, and what the names in it open.
use sercon.Prelude.{
  ℕ, ◌≡◌, refl, sym, ap, ◌∙◌, subst, true, false, ◌||◌, not, Option, List, [], ◌∷◌, ◌++◌, map,
  arith, if-intro, if-true, if-false, All, Bytes, codes, upper, has_prefix,
}
use sercon.Prelude.Sort.{str_lt-asym}
use sercon.Serial.Names.{
  is_com_name, device_namespace, device_path, Device, RegistryValue, RegPort, registry_ports,
  is_before, insert_device, sort_devices, listed, discover,
}

-- What `Open` is given for a listed port.
pub record IsListed (d : Device) : Type 0 where
  pub com_name : is_com_name d.ref ≡ true
  pub opens : device_path d.link ≡ device_namespace ++ d.ref

com-plain :
    (s : Bytes)
    → is_com_name s ≡ true
    → (has_prefix device_namespace s || has_prefix (codes "\\\\?\\") s) ≡ false
unfolding is_com_name has_prefix upper
com-plain [] h = cc
com-plain (c ∷ []) h = ground arith
com-plain (c ∷ s) h = ground arith

com-IsListed :
    (e : RegPort)
    → is_com_name e.name ≡ true
    → (d : Device) → d.ref ≡ e.name
    → d.link ≡ e.name
    → IsListed d
unfolding device_path
com-IsListed e h d same link =
    let ref_com : is_com_name d.ref ≡ true = subst (λ s. is_com_name s ≡ true) (sym same) h in
    let link_com = subst (λ s. is_com_name s ≡ true) (sym link) h in
    record {
      com_name = ref_com;
      opens =
          if-false _ _ _ (com-plain d.link link_com)
          ∙ if-true _ _ _ link_com
          ∙ ap (λ s. device_namespace ++ s) (link ∙ sym same);
    }

module _ (atoi : Bytes → Option ℕ) where
  insert_device-All :
      (P : Device → Type 0) (a : Device) (xs : List Device)
      → P a
      → All P xs
      → All P (insert_device atoi a xs)
  unfolding insert_device
  insert_device-All P a [] p h = (p, tt)
  insert_device-All P a (x ∷ xs) p h =
      if-intro (All P) (is_before atoi x a) _ _ (λ _. (h.0, insert_device-All P a xs p h.1))
        (λ _. (p, h))

  registered :
      (vs : List RegistryValue)
      → All IsListed (sort_devices atoi (map (listed atoi) (registry_ports vs)))
  unfolding registry_ports sort_devices
  registered [] = tt
  registered (v ∷ vs) =
      let P : List RegPort → Type 0 =
        λ es. All IsListed (sort_devices atoi (map (listed atoi) es)) in
      if-intro P (not v.is_text) _ _ (λ _. registered vs)
        (λ _.
          if-intro P (not (is_com_name v.value)) _ _ (λ _. registered vs)
            (λ named.
              insert_device-All IsListed _ _
                (com-IsListed (record { name = v.value; desc = [] }) (ground arith) _ refl refl)
                (registered vs)))

  before-asym : (a b : Device) → is_before atoi a b ≡ true → is_before atoi b a ≡ false
  unfolding is_before
  before-asym a b h = ground (arith, str_lt-asym a.ref b.ref)

  -- No device is before its predecessor.
  abbrev pub IsBehind : Device → List Device → Type 0
  IsBehind x [] = Unit
  IsBehind x (y ∷ ys) = is_before atoi y x ≡ false

  abbrev pub IsOrdered : List Device → Type 0
  IsOrdered [] = Unit
  IsOrdered (x ∷ xs) = IsBehind x xs × IsOrdered xs

  insert_device-IsBehind :
      (x a : Device) (xs : List Device)
      → IsBehind x xs
      → is_before atoi x a ≡ true
      → IsBehind x (insert_device atoi a xs)
  unfolding insert_device
  insert_device-IsBehind x a [] h lt = before-asym x a lt
  insert_device-IsBehind x a (y ∷ ys) h lt =
      if-intro (IsBehind x) (is_before atoi y a) _ _ (λ _. h) (λ _. before-asym x a lt)

  insert_device-IsOrdered :
      (a : Device) (xs : List Device) → IsOrdered xs → IsOrdered (insert_device atoi a xs)
  unfolding insert_device
  insert_device-IsOrdered a [] h = (tt, tt)
  insert_device-IsOrdered a (x ∷ xs) h =
      if-intro IsOrdered (is_before atoi x a) _ _
        (λ lt. (insert_device-IsBehind x a xs h.0 lt, insert_device-IsOrdered a xs h.1))
        (λ ge. (ge, h))

  sort_devices-IsOrdered : (xs : List Device) → IsOrdered (sort_devices atoi xs)
  unfolding sort_devices
  sort_devices-IsOrdered [] = tt
  sort_devices-IsOrdered (x ∷ xs) =
      insert_device-IsOrdered x (sort_devices atoi xs) (sort_devices-IsOrdered xs)

  -- On Windows every listed port is a COM name that is opened by its path in the device namespace, and the
  -- ports are in the order of their numbers, whatever the registry holds.
  pub discover-IsListed :
      (vs : List RegistryValue) → All IsListed (discover atoi vs) × IsOrdered (discover atoi vs)
  unfolding discover
  discover-IsListed vs =
      (registered vs, sort_devices-IsOrdered (map (listed atoi) (registry_ports vs)))
