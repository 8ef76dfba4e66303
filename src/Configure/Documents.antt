-- ===== src/Configure/Documents.antt =====
-- What a device finds in the documents that devscanclient/lib/configureclient.cpp sends.
use devscan.Base.{ℕ, ◌≡◌, refl, ◌∙◌, Bool, true, false, Option, some, List, [], ◌∷◌, if◌then◌else◌}
use devscan.Base.Text.{Text, text_eq, codes}
use devscan.DeviceMonitor.Announcement.{tag_method}
use devscan.Configure.Requests.{
  JsonWriter, jsonrpc, id_key, tag_configure, interface_name, interface_method, interface_address,
  interface_netmask, gateway_address, device_uuid, ttl_path, configuration_method_tree,
  configuration_tree, default_gateway_tree, manual_configuration_tree, tail, head,
}

-- Two paths that part before either ends.
abbrev pub diverges : List Text → List Text → Bool
diverges [] q = false
diverges (x ∷ p) [] = false
diverges (x ∷ p) (y ∷ q) = if text_eq x y then diverges p q else true

-- A member has the text that was assigned to it last; an assignment leaves the members on other paths.
pub record IsDocument (w : JsonWriter) : Type 0 where
  pub at : List Text → w.Value → Option Text
  pub number_at : List Text → w.Value → Option ℕ
  pub at-assign : (p : List Text) (v : Text) (t : w.Value) → at p (w.assign p v t) ≡ some v
  pub at-assign_other :
      (p q : List Text) (v : Text) (t : w.Value)
      → diverges p q ≡ true
      → at q (w.assign p v t) ≡ at q t
  pub at-assign_int_other :
      (p q : List Text) (n : ℕ) (t : w.Value)
      → diverges p q ≡ true
      → at q (w.assign_int p n t) ≡ at q t
  pub number_at-assign_int :
      (p : List Text) (n : ℕ) (t : w.Value) → number_at p (w.assign_int p n t) ≡ some n
  pub number_at-assign_other :
      (p q : List Text) (v : Text) (t : w.Value)
      → diverges p q ≡ true
      → number_at q (w.assign p v t) ≡ number_at q t

module _ (w : JsonWriter) (laws : IsDocument w) where
  open laws use {at, number_at, at-assign, at-assign_other, at-assign_int_other}

  -- The members that every request has.
  pub record IsRequest (id uuid : Text) (ttl : ℕ) (tree : w.Value) : Type 0 where
    pub version : at (jsonrpc ∷ []) tree ≡ some (codes "2.0")
    pub method : at (tag_method ∷ []) tree ≡ some tag_configure
    pub device : at device_uuid tree ≡ some uuid
    pub hops : number_at ttl_path tree ≡ some ttl
    pub identity : at (id_key ∷ []) tree ≡ some id

  -- The members at the end of a document leave the others.
  at-tail :
      (q : List Text) (uuid : Text) (ttl : ℕ) (id : Text) (tree : w.Value)
      → diverges (id_key ∷ []) q ≡ true
      → diverges ttl_path q ≡ true
      → diverges device_uuid q ≡ true
      → at q (tail w uuid ttl id tree) ≡ at q tree
  at-tail q uuid ttl id tree a b c =
      at-assign_other (id_key ∷ []) q id _ a
      ∙ at-assign_int_other ttl_path q ttl _ b
      ∙ at-assign_other device_uuid q uuid tree c

  tail-IsRequest :
      (id uuid : Text) (ttl : ℕ) (tree : w.Value)
      → at (jsonrpc ∷ []) tree ≡ some (codes "2.0")
      → at (tag_method ∷ []) tree ≡ some tag_configure
      → IsRequest id uuid ttl (tail w uuid ttl id tree)
  tail-IsRequest id uuid ttl tree v m = record {
    version = at-tail (jsonrpc ∷ []) uuid ttl id tree refl refl refl ∙ v;
    method = at-tail (tag_method ∷ []) uuid ttl id tree refl refl refl ∙ m;
    device =
        at-assign_other (id_key ∷ []) device_uuid id _ refl
        ∙ at-assign_int_other ttl_path device_uuid ttl _ refl
        ∙ at-assign device_uuid uuid tree;
    hops =
        laws.number_at-assign_other (id_key ∷ []) ttl_path id _ refl
        ∙ laws.number_at-assign_int ttl_path ttl _;
    identity = at-assign (id_key ∷ []) id _;
  }

  -- One more member that is none of the first two.
  next :
      (p q : List Text) (v : Text) (tree : w.Value) (o : Option Text)
      → diverges p q ≡ true
      → at q tree ≡ o
      → at q (w.assign p v tree) ≡ o
  next p q v tree o d e = at-assign_other p q v tree d ∙ e

  abbrev v2 : Option Text
  v2 = some (codes "2.0")

  -- The first two members are there, and an assignment below the parameters leaves them.
  abbrev Begins : w.Value → Type 0
  Begins tree = (at (jsonrpc ∷ []) tree ≡ v2) × (at (tag_method ∷ []) tree ≡ some tag_configure)

  assign-Begins :
      (p : List Text) (v : Text) (tree : w.Value)
      → diverges p (jsonrpc ∷ []) ≡ true
      → diverges p (tag_method ∷ []) ≡ true
      → Begins tree
      → Begins (w.assign p v tree)
  assign-Begins p v tree d e b = (
    next p (jsonrpc ∷ []) v tree v2 d b.0,
    next p (tag_method ∷ []) v tree (some tag_configure) e b.1,
  )

  head-Begins : Begins (head w)
  head-Begins = (
    at-assign_other (tag_method ∷ []) (jsonrpc ∷ []) tag_configure _ refl
        ∙ at-assign (jsonrpc ∷ []) (codes "2.0") _,
    at-assign (tag_method ∷ []) tag_configure _,
  )

  abbrev named : Text → w.Value
  named name = w.assign interface_name name (head w)

  named-Begins : (name : Text) → Begins (named name)
  named-Begins name = assign-Begins interface_name name (head w) refl refl head-Begins

  -- The address and the netmask behind other members of the interface.
  abbrev addressed : Text → Text → w.Value → w.Value
  addressed address netmask tree =
      w.assign interface_netmask netmask (w.assign interface_address address tree)

  addressed-Begins :
      (address netmask : Text) (tree : w.Value)
      → Begins tree
      → Begins (addressed address netmask tree)
  addressed-Begins address netmask tree b =
      assign-Begins interface_netmask netmask _ refl refl
        (assign-Begins interface_address address tree refl refl b)

  at-addressed :
      (q : List Text) (address netmask : Text) (tree : w.Value) (o : Option Text)
      → diverges interface_netmask q ≡ true
      → diverges interface_address q ≡ true
      → at q tree ≡ o
      → at q (addressed address netmask tree) ≡ o
  at-addressed q address netmask tree o d e h =
      next interface_netmask q netmask _ o d (next interface_address q address tree o e h)

  abbrev pub HasAddress : Text → Text → w.Value → Type 0
  HasAddress address netmask tree =
      (at interface_address tree ≡ some address) × (at interface_netmask tree ≡ some netmask)

  addressed-HasAddress :
      (address netmask uuid id : Text) (ttl : ℕ) (tree : w.Value)
      → HasAddress address netmask (tail w uuid ttl id (addressed address netmask tree))
  addressed-HasAddress address netmask uuid id ttl tree = (
    at-tail interface_address uuid ttl id _ refl refl refl
        ∙ next interface_netmask interface_address netmask _ (some address) refl
            (at-assign interface_address address tree),
    at-tail interface_netmask uuid ttl id _ refl refl refl ∙ at-assign interface_netmask netmask _,
  )

  named-name : (name : Text) → at interface_name (named name) ≡ some name
  named-name name = at-assign interface_name name (head w)

  abbrev pub HasMethod : Text → Text → w.Value → Type 0
  HasMethod name method tree =
      (at interface_name tree ≡ some name) × (at interface_method tree ≡ some method)

  named-HasMethod :
      (name method : Text) → HasMethod name method (w.assign interface_method method (named name))
  named-HasMethod name method = (
    next interface_method interface_name method (named name) (some name) refl (named-name name),
    at-assign interface_method method (named name),
  )

  -- A device reads from each of the four documents what the caller asked for: the version and the
  -- method, its uuid, the hops and the id of the request, and the members that the request is about.
  pub trees-IsRequest :
      (id uuid name method address netmask gateway : Text) (ttl : ℕ)
      → (IsRequest id uuid ttl (configuration_method_tree w id ttl uuid name method)
          × HasMethod name method (configuration_method_tree w id ttl uuid name method))
        × (IsRequest id uuid ttl (configuration_tree w id ttl uuid name method address netmask)
            × HasMethod name method (configuration_tree w id ttl uuid name method address netmask)
            × HasAddress address netmask
                (configuration_tree w id ttl uuid name method address netmask))
        × (IsRequest id uuid ttl (default_gateway_tree w id ttl uuid gateway)
            × (at gateway_address (default_gateway_tree w id ttl uuid gateway) ≡ some gateway))
        × (IsRequest id uuid ttl (manual_configuration_tree w id ttl uuid name address netmask)
            × (at interface_name (manual_configuration_tree w id ttl uuid name address netmask)
                ≡ some name)
            × HasAddress address netmask
                (manual_configuration_tree w id ttl uuid name address netmask))
  unfolding configuration_method_tree configuration_tree default_gateway_tree
      manual_configuration_tree
  trees-IsRequest id uuid name method address netmask gateway ttl =
      let chosen = w.assign interface_method method (named name) in
      let begins =
        assign-Begins interface_method method (named name) refl refl (named-Begins name) in
      let (n, m) = named-HasMethod name method in
      let begins' = addressed-Begins address netmask chosen begins in
      let begins_manual = addressed-Begins address netmask (named name) (named-Begins name) in
      let begins_gateway = assign-Begins gateway_address gateway (head w) refl refl head-Begins in
      (
        (
          tail-IsRequest id uuid ttl chosen begins.0 begins.1,
          (
            at-tail interface_name uuid ttl id chosen refl refl refl ∙ n,
            at-tail interface_method uuid ttl id chosen refl refl refl ∙ m,
          ),
        ),
        (
          tail-IsRequest id uuid ttl (addressed address netmask chosen) begins'.0 begins'.1,
          (
            at-tail interface_name uuid ttl id _ refl refl refl
                ∙ at-addressed interface_name address netmask chosen (some name) refl refl n,
            at-tail interface_method uuid ttl id _ refl refl refl
                ∙ at-addressed interface_method address netmask chosen (some method) refl refl m,
          ),
          addressed-HasAddress address netmask uuid id ttl chosen,
        ),
        (
          tail-IsRequest id uuid ttl (w.assign gateway_address gateway (head w)) begins_gateway.0
              begins_gateway.1,
          at-tail gateway_address uuid ttl id _ refl refl refl
              ∙ at-assign gateway_address gateway (head w),
        ),
        (
          tail-IsRequest id uuid ttl (addressed address netmask (named name)) begins_manual.0
              begins_manual.1,
          at-tail interface_name uuid ttl id _ refl refl refl
              ∙ at-addressed interface_name address netmask (named name) (some name) refl refl
                  (named-name name),
          addressed-HasAddress address netmask uuid id ttl (named name),
        ),
      )
