-- ===== src/Adapters/Described.antt =====
-- What the interfaces with an index make of its adapter.
use devscan.Base.{
  ℕ, ◌≡◌, refl, ap, sym, ◌∙◌, ◌==◌, Bool, true, false, ◌&&◌, Option, none, some, List, [], ◌∷◌,
  ◌++◌, append_assoc, append-nil, arith, if◌then◌else◌, Bool-cases, Option-cases, inl, inr, ◌⊎◌,
}
use devscan.Base.Text.{is_empty}
use devscan.Adapters.Netadapter.{Netadapter, Ipv4Address, Ipv6Address, empty}
use devscan.Adapters.Enumeration.{
  Interface, InterfaceAddress, inet, inet6, other_family, System, introduce, add_address, is_listed,
  prefix_of,
}
use devscan.Adapters.Ordered.{or_empty}

module _ (system : System) where
  -- What an interface makes of the adapter with an index.
  abbrev pub describe_address :
      ℕ → Interface → InterfaceAddress → Option Netadapter → Option Netadapter
  describe_address index interface address known =
      if is_listed system interface && (system.if_nametoindex interface.ifa_name == index)
      then some (add_address system address (introduce system interface (or_empty known)))
      else known

  abbrev pub describe : ℕ → Interface → Option Netadapter → Option Netadapter
  describe index interface known = elim interface.ifa_addr [
    | none ↦ known
    | some address ↦ describe_address index interface address known
  ]

  describe-listed :
      (index : ℕ) (interface : Interface) (address : InterfaceAddress) (known : Option Netadapter)
      → interface.ifa_addr ≡ some address
      → (is_listed system interface && (system.if_nametoindex interface.ifa_name == index)) ≡ true
      → describe index interface known
        ≡ some (add_address system address (introduce system interface (or_empty known)))
  describe-listed index interface address known e l =
      ap
        (λ (o : Option InterfaceAddress). elim o [
          | none ↦ known
          | some x ↦ describe_address index interface x known
        ])
        e
      ∙ ap
          (λ (b : Bool).
            if b
            then some (add_address system address (introduce system interface (or_empty known)))
            else known)
          l

  unfoldable pub described : ℕ → List Interface → Option Netadapter → Option Netadapter
  described index [] known = known
  described index (interface ∷ interfaces) known =
      described index interfaces (describe index interface known)

  -- The addresses of the interfaces with an index, in their order.
  abbrev pub ipv4_of : ℕ → List Interface → List Ipv4Address
  ipv4_of index [] = []
  ipv4_of index (interface ∷ interfaces) = elim interface.ifa_addr [
    | some (inet address netmask) ↦
        if is_listed system interface && (system.if_nametoindex interface.ifa_name == index)
        then record { address = system.inet_ntop address; netmask = system.inet_ntop netmask }
          ∷ ipv4_of index interfaces
        else ipv4_of index interfaces
    | _ ↦ ipv4_of index interfaces
  ]

  abbrev pub ipv6_of : ℕ → List Interface → List Ipv6Address
  ipv6_of index [] = []
  ipv6_of index (interface ∷ interfaces) = elim interface.ifa_addr [
    | some (inet6 address netmask) ↦
        if is_listed system interface && (system.if_nametoindex interface.ifa_name == index)
        then record { address = system.inet_ntop6 address; prefix = prefix_of netmask }
          ∷ ipv6_of index interfaces
        else ipv6_of index interfaces
    | _ ↦ ipv6_of index interfaces
  ]

  -- Some interface with the index is listed.
  abbrev pub is_present : ℕ → List Interface → Bool
  is_present index [] = false
  is_present index (interface ∷ interfaces) = elim interface.ifa_addr [
    | none ↦ is_present index interfaces
    | some address ↦
        if is_listed system interface && (system.if_nametoindex interface.ifa_name == index)
        then true
        else is_present index interfaces
  ]

  -- The adapter has the index, and behind the addresses of `before` those of the interfaces.
  pub record IsDescribed (index : ℕ) (interfaces : List Interface) (before adapter : Netadapter)
      : Type 0 where
    pub index_is : adapter.index ≡ index
    pub ipv4 : adapter.ipv4_addresses ≡ before.ipv4_addresses ++ ipv4_of index interfaces
    pub ipv6 : adapter.ipv6_addresses ≡ before.ipv6_addresses ++ ipv6_of index interfaces

  introduce-index :
      (index : ℕ) (interface : Interface) (adapter : Netadapter)
      → system.if_nametoindex interface.ifa_name ≡ index
      → (is_empty adapter.mac_address ≡ true) ⊎ (adapter.index ≡ index)
      → (introduce system interface adapter).index ≡ index
  introduce-index index interface adapter h k = ground (arith, h, k)

  introduce-addresses :
      (interface : Interface) (adapter : Netadapter)
      → ((introduce system interface adapter).ipv4_addresses ≡ adapter.ipv4_addresses)
        × ((introduce system interface adapter).ipv6_addresses ≡ adapter.ipv6_addresses)
  introduce-addresses interface adapter = elim (Bool-cases (is_empty adapter.mac_address)) [
    | inl e ↦ rw e (refl, refl)
    | inr e ↦ rw e (refl, refl)
  ]

  -- An interface that is listed and has the index.
  add_address-IsDescribed :
      (index : ℕ) (interface : Interface) (address : InterfaceAddress) (rest : List Interface)
      (a b : Netadapter)
      → interface.ifa_addr ≡ some address
      → (is_listed system interface && (system.if_nametoindex interface.ifa_name == index)) ≡ true
      → IsDescribed index rest (add_address system address (introduce system interface a)) b
      → IsDescribed index (interface ∷ rest) a b
  add_address-IsDescribed index interface (inet address netmask) rest a b e l h =
      let entry : Ipv4Address = record {
        address = system.inet_ntop address;
        netmask = system.inet_ntop netmask;
      } in
      let kept = introduce-addresses interface a in
      record {
        index_is = h.index_is;
        ipv4 =
            rw (e, l)
              (h.ipv4
                ∙ append_assoc (introduce system interface a).ipv4_addresses (entry ∷ [])
                    (ipv4_of index rest)
                ∙ ap (λ t. t ++ (entry ∷ ipv4_of index rest)) kept.0);
        ipv6 = rw e (h.ipv6 ∙ ap (λ t. t ++ ipv6_of index rest) kept.1);
      }
  add_address-IsDescribed index interface (inet6 address netmask) rest a b e l h =
      let entry : Ipv6Address = record {
        address = system.inet_ntop6 address;
        prefix = prefix_of netmask;
      } in
      let kept = introduce-addresses interface a in
      record {
        index_is = h.index_is;
        ipv4 = rw e (h.ipv4 ∙ ap (λ t. t ++ ipv4_of index rest) kept.0);
        ipv6 =
            rw (e, l)
              (h.ipv6
                ∙ append_assoc (introduce system interface a).ipv6_addresses (entry ∷ [])
                    (ipv6_of index rest)
                ∙ ap (λ t. t ++ (entry ∷ ipv6_of index rest)) kept.1);
      }
  add_address-IsDescribed index interface other_family rest a b e l h =
      let kept = introduce-addresses interface a in
      record {
        index_is = h.index_is;
        ipv4 = rw e (h.ipv4 ∙ ap (λ t. t ++ ipv4_of index rest) kept.0);
        ipv6 = rw e (h.ipv6 ∙ ap (λ t. t ++ ipv6_of index rest) kept.1);
      }

  -- Any other interface.
  skipped-IsDescribed :
      (index : ℕ) (interface : Interface) (address : InterfaceAddress) (rest : List Interface)
      (a b : Netadapter)
      → interface.ifa_addr ≡ some address
      → (is_listed system interface && (system.if_nametoindex interface.ifa_name == index)) ≡ false
      → IsDescribed index rest a b
      → IsDescribed index (interface ∷ rest) a b
  skipped-IsDescribed index interface (inet address netmask) rest a b e l h = record {
    index_is = h.index_is;
    ipv4 = rw (e, l) h.ipv4;
    ipv6 = rw e h.ipv6;
  }
  skipped-IsDescribed index interface (inet6 address netmask) rest a b e l h = record {
    index_is = h.index_is;
    ipv4 = rw e h.ipv4;
    ipv6 = rw (e, l) h.ipv6;
  }
  skipped-IsDescribed index interface other_family rest a b e l h = record {
    index_is = h.index_is;
    ipv4 = rw e h.ipv4;
    ipv6 = rw e h.ipv6;
  }

  add_address-index :
      (address : InterfaceAddress) (a : Netadapter) → (add_address system address a).index ≡ a.index
  add_address-index (inet address netmask) a = refl
  add_address-index (inet6 address netmask) a = refl
  add_address-index other_family a = refl

  abbrev pub IsOne : ℕ → List Interface → Netadapter → Option Netadapter → Type 0
  IsOne index interfaces before o =
      (b : Netadapter) × (o ≡ some b) × IsDescribed index interfaces before b

  described-some :
      (index : ℕ) (interfaces : List Interface) (a : Netadapter)
      → a.index ≡ index
      → IsOne index interfaces a (described index interfaces (some a))
  unfolding described
  described-some index [] a h =
      (a, refl, record { index_is = h; ipv4 = sym (append-nil _); ipv6 = sym (append-nil _) })
  described-some index (interface ∷ rest) a h = elim (Option-cases interface.ifa_addr) [
    | inl e ↦
        let (b, same, d) = described-some index rest a h in
        (
          b,
          rw (described, e) same,
          record { index_is = d.index_is; ipv4 = rw e d.ipv4; ipv6 = rw e d.ipv6 },
        )
    | inr (address, e) ↦
        elim (Bool-cases
          (is_listed system interface && (system.if_nametoindex interface.ifa_name == index))) [
            | inl l ↦
                let here : system.if_nametoindex interface.ifa_name ≡ index = ground (arith, l) in
                let a' = add_address system address (introduce system interface a) in
                let (b, same, d) =
                  described-some index rest a' (
                    add_address-index address _ ∙ introduce-index index interface a here (inr h)) in
                (
                  b,
                  ap (described index rest) (describe-listed index interface address (some a) e l)
                      ∙ same,
                  add_address-IsDescribed index interface address rest a b e l d,
                )
            | inr l ↦
                let (b, same, d) = described-some index rest a h in
                (
                  b,
                  rw (described, e, l) same,
                  skipped-IsDescribed index interface address rest a b e l d,
                )
          ]
  ]

  pub described-none :
      (index : ℕ) (interfaces : List Interface)
      → is_present index interfaces ≡ false
      → described index interfaces none ≡ none
  unfolding described
  described-none index [] h = refl
  described-none index (interface ∷ rest) h = elim (Option-cases interface.ifa_addr) [
    | inl e ↦ rw (described, e) (described-none index rest (rw e at h))
    | inr (address, e) ↦
        elim (Bool-cases
          (is_listed system interface && (system.if_nametoindex interface.ifa_name == index))) [
            | inl l ↦ let h' : true ≡ false = rw (e, l) at h in cc
            | inr l ↦ rw (described, e, l) (described-none index rest (rw (e, l) at h))
          ]
  ]

  pub described-first :
      (index : ℕ) (interfaces : List Interface)
      → is_present index interfaces ≡ true
      → IsOne index interfaces empty (described index interfaces none)
  unfolding described
  described-first index [] h = cc
  described-first index (interface ∷ rest) h = elim (Option-cases interface.ifa_addr) [
    | inl e ↦
        let (b, same, d) = described-first index rest (rw e at h) in
        (
          b,
          rw (described, e) same,
          record { index_is = d.index_is; ipv4 = rw e d.ipv4; ipv6 = rw e d.ipv6 },
        )
    | inr (address, e) ↦
        elim (Bool-cases
          (is_listed system interface && (system.if_nametoindex interface.ifa_name == index))) [
            | inl l ↦
                let here : system.if_nametoindex interface.ifa_name ≡ index = ground (arith, l) in
                let a' = add_address system address (introduce system interface empty) in
                let (b, same, d) = described-some index rest a' (
                  add_address-index address _
                  ∙ introduce-index index interface empty here (inl refl)) in
                (
                  b,
                  ap (described index rest) (describe-listed index interface address none e l)
                      ∙ same,
                  add_address-IsDescribed index interface address rest empty b e l d,
                )
            | inr l ↦
                let (b, same, d) = described-first index rest (rw (e, l) at h) in
                (
                  b,
                  rw (described, e, l) same,
                  skipped-IsDescribed index interface address rest empty b e l d,
                )
          ]
  ]
