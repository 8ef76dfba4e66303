-- ===== src/Adapters/Listing.antt =====
-- What `enumAdapters` leaves for `getAdapterByInterfaceIndex`.
use devscan.Base.{
  ℕ, ◌≡◌, refl, ap, ◌∙◌, true, false, Option, none, some, List, [], ◌∷◌, Bool-cases, Option-cases,
  inl, inr, ◌⊎◌,
}
use devscan.Result.{Result, ok, throw, std_exception}
use devscan.Adapters.Netadapter.{Netadapter, empty}
use devscan.Adapters.Enumeration.{
  Interface, System, Adapters, find_adapter, is_listed, add_interface, add_interfaces,
  enum_adapters, get_adapter_by_interface_index,
}
use devscan.Adapters.Ordered.{IsOrdered, update_adapter-IsOrdered, find_adapter-update_adapter}
use devscan.Adapters.Described.{
  describe, described, IsDescribed, is_present, described-none, described-first,
}

module _ (system : System) where
  find_adapter-add_interface :
      (index : ℕ) (interface : Interface) (m : Adapters)
      → IsOrdered m
      → (find_adapter index (add_interface system interface m)
          ≡ describe system index interface (find_adapter index m))
        × IsOrdered (add_interface system interface m)
  unfolding add_interface
  find_adapter-add_interface index interface m t = elim (Option-cases interface.ifa_addr) [
    | inl e ↦ rw (add_interface, e) (refl, t)
    | inr (address, e) ↦ elim (Bool-cases (is_listed system interface)) [
      | inl listed ↦
          rw (add_interface, e, listed)
            (
              find_adapter-update_adapter (system.if_nametoindex interface.ifa_name) _ index m t,
              update_adapter-IsOrdered (system.if_nametoindex interface.ifa_name) _ m t,
            )
      | inr unlisted ↦ rw (add_interface, e, unlisted) (refl, t)
    ]
  ]

  find_adapter-add_interfaces :
      (index : ℕ) (interfaces : List Interface) (m : Adapters)
      → IsOrdered m
      → (find_adapter index (add_interfaces system interfaces m)
          ≡ described system index interfaces (find_adapter index m))
        × IsOrdered (add_interfaces system interfaces m)
  unfolding add_interfaces described
  find_adapter-add_interfaces index [] m t = (refl, t)
  find_adapter-add_interfaces index (interface ∷ interfaces) m t =
      let now = find_adapter-add_interface index interface m t in
      let rest =
        find_adapter-add_interfaces index interfaces (add_interface system interface m) now.1 in
      (rest.0 ∙ ap (described system index interfaces) now.0, rest.1)

  -- What the query makes of an entry.
  abbrev as_result : Option Netadapter → Result Netadapter
  as_result none = throw std_exception
  as_result (some adapter) = ok adapter

  get_adapter-enum_adapters :
      (interfaces : List Interface) (adapters : Adapters) (index : ℕ) (o : Option Netadapter)
      → system.getifaddrs ≡ some interfaces
      → described system index interfaces none ≡ o
      → get_adapter_by_interface_index index (enum_adapters system adapters) ≡ as_result o
  unfolding enum_adapters get_adapter_by_interface_index find_adapter
  get_adapter-enum_adapters interfaces adapters index o h found =
      ap
        (λ (l : Option (List Interface)).
          get_adapter_by_interface_index index
            (elim l [ none ↦ adapters | some i ↦ add_interfaces system i [] ]))
        h
      ∙ ap as_result ((find_adapter-add_interfaces index interfaces [] tt).0 ∙ found)

  -- An index has an adapter exactly if an interface with the index and an address is up, can broadcast
  -- and is no loopback; the adapter has the index, and the addresses of all such interfaces in their
  -- order.
  pub enum_adapters-IsDescribed :
      (interfaces : List Interface) (adapters : Adapters) (index : ℕ)
      → system.getifaddrs ≡ some interfaces
      → ((is_present system index interfaces ≡ false)
          × (get_adapter_by_interface_index index (enum_adapters system adapters)
              ≡ throw std_exception))
        ⊎ ((is_present system index interfaces ≡ true)
            × (adapter : Netadapter) × (get_adapter_by_interface_index index
                  (enum_adapters system adapters)
                ≡ ok adapter)
            × IsDescribed system index interfaces empty adapter)
  enum_adapters-IsDescribed interfaces adapters index h =
      elim (Bool-cases (is_present system index interfaces)) [
        | inl present ↦
            let (b, same, d) = described-first system index interfaces present in
            inr (present, b, get_adapter-enum_adapters interfaces adapters index (some b) h same, d)
        | inr absent ↦ inl (
          absent,
          get_adapter-enum_adapters interfaces adapters index none h
              (described-none system index interfaces absent),
        )
      ]
