-- ===== src/DeviceMonitor/CommunicationPath.antt =====
-- `communicationPath` of devscanclient/lib/devicemonitor.cpp, and the key that it takes apart.
use devscan.Base.{
  ℕ, ◌≡◌, refl, ap, sym, ◌∙◌, Option, some, List, [], ◌∷◌, ◌++◌, append-nil, arith, All, suc, ◌+◌,
  ◌==◌, ◌⊎◌, inl, inr, if◌then◌else◌, length,
}
use mathlib.Core.Path.{subst}
use devscan.Base.Text.{Text, find_first}
use devscan.Result.{Result, ok, throw, std_exception}
use devscan.Strings.Split.{split}
use devscan.Strings.Split.Fields.{fields, onto_first, split-fields}
use devscan.Strings.Split.Join.{join, Lacks, split-join, split-join_byte}

pub record CommunicationPath : Type 0 where
  pub receiving_interface : Text
  pub uuid : Text
  pub sending_interface : Text
  pub router : Text

abbrev pub colon : ℕ
colon = b':'

-- Four tokens, or `std::runtime_error`.
of_tokens : Option (List Text) → Result CommunicationPath
of_tokens (some (t0 ∷ t1 ∷ t2 ∷ t3 ∷ [])) =
    ok (record { receiving_interface = t0; sending_interface = t1; uuid = t2; router = t3 })
of_tokens _ = throw std_exception

unfoldable pub communication_path : Text → Result CommunicationPath
unfolding of_tokens
communication_path path = of_tokens (split path (colon ∷ []))

-- `receivingInterfaceName+":"+sendingInterfaceName+":"+sendingUuid+":"+router`.
unfoldable pub key_of : CommunicationPath → Text
key_of p =
    p.receiving_interface
    ++ (colon ∷ (p.sending_interface ++ (colon ∷ (p.uuid ++ (colon ∷ p.router)))))

-- No part of the path holds a colon.
pub record HasNoColon (p : CommunicationPath) : Type 0 where
  pub receiving_interface : Lacks (colon ∷ []) p.receiving_interface
  pub sending_interface : Lacks (colon ∷ []) p.sending_interface
  pub uuid : Lacks (colon ∷ []) p.uuid
  pub router : Lacks (colon ∷ []) p.router

abbrev tokens : CommunicationPath → List Text
tokens p = p.receiving_interface ∷ p.sending_interface ∷ p.uuid ∷ p.router ∷ []

key_of-join : (p : CommunicationPath) → join (colon ∷ []) (tokens p) ≡ key_of p
unfolding key_of
key_of-join p = rw append-nil

-- Where no part holds a colon, the key is taken apart into the path it was made of.
pub communication_path-key_of :
    (p : CommunicationPath) → HasNoColon p → communication_path (key_of p) ≡ ok p
unfolding communication_path
communication_path-key_of p h =
    let e : split (join (colon ∷ []) (tokens p)) (colon ∷ []) ≡ some (tokens p) =
      split-join_byte colon (tokens p) (cc)
        (h.receiving_interface, (h.sending_interface, (h.uuid, (h.router, tt)))) in
    ap (λ k. of_tokens (split k (colon ∷ []))) (sym (key_of-join p)) ∙ ap of_tokens e

-- The number of colons in a text.
colons : Text → ℕ
colons [] = 0
colons (c ∷ t) = if colon == c then suc (colons t) else colons t

length-onto_first : (c : ℕ) (ts : List Text) → length (onto_first c ts) ≡ length ts
length-onto_first c [] = refl
length-onto_first c (t ∷ ts) = refl

length-fields : (t : Text) → length (fields colon t) ≡ suc (colons t)
unfolding fields colons
length-fields [] = refl
length-fields (c ∷ t) = ground (arith, length-fields t, length-onto_first c (fields colon t))

colons-append : (s t : Text) → colons (s ++ (colon ∷ t)) ≡ colons s + suc (colons t)
unfolding colons
colons-append [] t = omega arith
colons-append (c ∷ s) t = ground (arith, colons-append s t)

colons-Lacks : (t : Text) → colons t ≡ 0 → Lacks (colon ∷ []) t
unfolding colons find_first
colons-Lacks [] h = refl
colons-Lacks (c ∷ t) h = ground (arith, colons-Lacks t)

colons-key_of :
    (p : CommunicationPath)
    → colons (key_of p)
      ≡ colons p.receiving_interface
        + colons p.sending_interface
        + colons p.uuid
        + colons p.router
        + 3
unfolding key_of
colons-key_of p = omega (
  arith,
  colons-append p.receiving_interface
      (p.sending_interface ++ (colon ∷ (p.uuid ++ (colon ∷ p.router)))),
  colons-append p.sending_interface (p.uuid ++ (colon ∷ p.router)),
  colons-append p.uuid p.router,
)

-- Any other number of tokens than four is refused.
of_tokens-cases : (ts : List Text) → (length ts ≡ 4) ⊎ (of_tokens (some ts) ≡ throw std_exception)
unfolding of_tokens
of_tokens-cases [] = inr refl
of_tokens-cases (a ∷ []) = inr refl
of_tokens-cases (a ∷ b ∷ []) = inr refl
of_tokens-cases (a ∷ b ∷ c ∷ []) = inr refl
of_tokens-cases (a ∷ b ∷ c ∷ d ∷ []) = inl refl
of_tokens-cases (a ∷ b ∷ c ∷ d ∷ e ∷ ts) = inr refl

HasNoColon-of_count : (p : CommunicationPath) → colons (key_of p) ≡ 3 → HasNoColon p
HasNoColon-of_count p h = record {
  receiving_interface = colons-Lacks p.receiving_interface (omega (arith, colons-key_of p));
  sending_interface = colons-Lacks p.sending_interface (omega (arith, colons-key_of p));
  uuid = colons-Lacks p.uuid (omega (arith, colons-key_of p));
  router = colons-Lacks p.router (omega (arith, colons-key_of p));
}

-- Where a part holds a colon, taking the key apart throws `std::runtime_error`.
pub communication_path-key_of_throws :
    (p : CommunicationPath) → ¬ HasNoColon p → communication_path (key_of p) ≡ throw std_exception
unfolding communication_path
communication_path-key_of_throws p h = elim (of_tokens-cases (fields colon (key_of p))) [
  | inl four ↦ absurd (h (HasNoColon-of_count p (omega (arith, four, length-fields (key_of p)))))
  | inr refused ↦ ap of_tokens (split-fields (key_of p) colon) ∙ refused
]

of_tokens-HasNoColon :
    (ts : List Text) (p : CommunicationPath)
    → All (Lacks (colon ∷ [])) ts
    → of_tokens (some ts) ≡ ok p
    → HasNoColon p
unfolding of_tokens
of_tokens-HasNoColon (a ∷ b ∷ c ∷ d ∷ []) p h e =
    let q : record { receiving_interface = a; sending_interface = b; uuid = c; router = d } ≡ p =
      cc in
    subst HasNoColon q (record {
      receiving_interface = h.0;
      sending_interface = h.1.0;
      uuid = h.1.1.0;
      router = h.1.1.1.0;
    })
of_tokens-HasNoColon [] p h e = cc
of_tokens-HasNoColon (a ∷ []) p h e = cc
of_tokens-HasNoColon (a ∷ b ∷ []) p h e = cc
of_tokens-HasNoColon (a ∷ b ∷ c ∷ []) p h e = cc
of_tokens-HasNoColon (a ∷ b ∷ c ∷ d ∷ x ∷ ts) p h e = cc

-- A path that a key is taken apart into holds no colon in any part, whatever the key.
pub communication_path-HasNoColon :
    (key : Text) (p : CommunicationPath) → communication_path key ≡ ok p → HasNoColon p
unfolding communication_path
communication_path-HasNoColon key p h =
    let cut_up = split-join key (colon ∷ []) (omega arith) in
    of_tokens-HasNoColon cut_up.0 p cut_up.4 (ap of_tokens (sym cut_up.1) ∙ h)
