-- ===== src/Configure/Tests.antt =====
-- Requests over a small library: a telegram is a document whose id is its whole text.
use devscan.Base.{
  ◌≡◌, refl, Bool, true, false, ℕ, Option, none, some, List, [], ◌∷◌, inr, if◌then◌else◌, arith,
}
use devscan.Base.Text.{Text, codes, text_eq, text_eq_refl}
use devscan.Configure.Documents.{
  diverges, IsDocument, IsRequest, HasMethod, HasAddress, trees-IsRequest,
}
use devscan.Configure.Requests.{
  JsonWriter, interface_name, gateway_address, configuration_method_tree, configuration_tree,
  default_gateway_tree, manual_configuration_tree,
}
use devscan.Result.{ok}
use devscan.Json.{JsonLibrary}
use devscan.Configure.Client.{
  Surroundings, ConfigureClient, answers, recv_cb, execute_request, with_new_id,
}
use devscan.Configure.Answers.{IsIgnored, execute_request-answer, execute_request-stale}

abbrev json : JsonLibrary
json = record {
  Value = Text;
  parse = λ t. ok (some t);
  index = λ v k. ok (v, v);
  member = λ v k. ok v;
  is_member = λ v k. ok true;
  as_string = λ v. ok v;
  as_uint = λ v. ok 0;
}

-- The telegrams of each request to come.
abbrev next_arrivals : List (List (List Text)) → List (List Text) × List (List (List Text))
next_arrivals [] = ([], [])
next_arrivals (now ∷ rest) = (now, rest)

abbrev env : Surroundings
env = record {
  State = List (List (List Text));
  create_id = λ s. (codes "2", s);
  update = λ s. s;
  send = λ m ttl s. s;
  send_over_interface_by_address = λ ip m ttl s. s;
  arrivals = next_arrivals;
}

abbrev client : ConfigureClient env
client = record {
  id = codes "1";
  response = [];
  state =
      ((codes "7" ∷ []) ∷ (codes "8" ∷ codes "1" ∷ codes "9" ∷ []) ∷ [])
      ∷ ((codes "1" ∷ []) ∷ [])
      ∷ [];
}

abbrev answered : ConfigureClient env
answered = record { id = codes "1"; response = codes "1"; state = ((codes "1" ∷ []) ∷ []) ∷ [] }

ignores_7 : IsIgnored json (codes "1") (codes "7")
unfolding recv_cb
ignores_7 = refl

ignores_8 : IsIgnored json (codes "1") (codes "8")
unfolding recv_cb
ignores_8 = refl

ignores_9 : IsIgnored json (codes "1") (codes "9")
unfolding recv_cb
ignores_9 = refl

ignores_old : IsIgnored json (codes "2") (codes "1")
unfolding recv_cb
ignores_old = refl

answers_1 : recv_cb json (codes "1") (codes "1") ≡ ok answers
unfolding recv_cb
answers_1 = refl

execute_request-answer_example :
    execute_request json env [] 1 (codes "request") client ≡ ok (codes "1", answered)
execute_request-answer_example =
    execute_request-answer json env [] 1 (codes "request") client ((codes "7" ∷ []) ∷ []) []
      (codes "8" ∷ []) (codes "9" ∷ []) (codes "1") refl ((ignores_7, tt), tt) (inr ignores_8, tt)
      answers_1 (ignores_9, tt)

request_returns : execute_request json env [] 1 (codes "request") client ≡ ok (codes "1", answered)
unfolding execute_request recv_cb
request_returns = refl

execute_request-stale_example :
    (after : ConfigureClient env) × (execute_request json env [] 1
        (codes "another")
        (with_new_id json env answered)
      ≡ ok (codes "1", after))
execute_request-stale_example =
    execute_request-stale json env [] [] 1 1 (codes "request") (codes "another") (codes "1") client
      answered request_returns ((ignores_old, tt), tt)

-- A document as the list of its members, the last one first.
abbrev path_eq : List Text → List Text → Bool
path_eq [] [] = true
path_eq [] (y ∷ q) = false
path_eq (x ∷ p) [] = false
path_eq (x ∷ p) (y ∷ q) = if text_eq x y then path_eq p q else false

data Member : Type 0 where
  text_member : List Text → Text → Member
  number_member : List Text → ℕ → Member

text_at : List Text → List Member → Option Text
text_at q [] = none
text_at q (text_member p v ∷ rest) = if path_eq p q then some v else text_at q rest
text_at q (number_member p n ∷ rest) = if path_eq p q then none else text_at q rest

int_at : List Text → List Member → Option ℕ
int_at q [] = none
int_at q (text_member p v ∷ rest) = if path_eq p q then none else int_at q rest
int_at q (number_member p n ∷ rest) = if path_eq p q then some n else int_at q rest

path_eq_refl : (p : List Text) → path_eq p p ≡ true
path_eq_refl [] = refl
path_eq_refl (x ∷ p) = rw (text_eq_refl x) (path_eq_refl p)

diverges-path_eq : (p q : List Text) → diverges p q ≡ true → path_eq p q ≡ false
diverges-path_eq [] q h = cc
diverges-path_eq (x ∷ p) [] h = refl
diverges-path_eq (x ∷ p) (y ∷ q) h = ground (arith, diverges-path_eq p q)

abbrev writer : JsonWriter
writer = record {
  Value = List Member;
  null = [];
  assign = λ p v t. text_member p v ∷ t;
  assign_int = λ p n t. number_member p n ∷ t;
  write = λ t. [];
}

text_at-same :
    (p : List Text) (v : Text) (t : List Member) → text_at p (text_member p v ∷ t) ≡ some v
unfolding text_at
text_at-same p v t = rw (path_eq_refl p)

text_at-other :
    (p q : List Text) (v : Text) (t : List Member)
    → diverges p q ≡ true
    → text_at q (text_member p v ∷ t) ≡ text_at q t
unfolding text_at
text_at-other p q v t h = rw (diverges-path_eq p q h)

text_at-number :
    (p q : List Text) (n : ℕ) (t : List Member)
    → diverges p q ≡ true
    → text_at q (number_member p n ∷ t) ≡ text_at q t
unfolding text_at
text_at-number p q n t h = rw (diverges-path_eq p q h)

int_at-same : (p : List Text) (n : ℕ) (t : List Member) → int_at p (number_member p n ∷ t) ≡ some n
unfolding int_at
int_at-same p n t = rw (path_eq_refl p)

int_at-other :
    (p q : List Text) (v : Text) (t : List Member)
    → diverges p q ≡ true
    → int_at q (text_member p v ∷ t) ≡ int_at q t
unfolding int_at
int_at-other p q v t h = rw (diverges-path_eq p q h)

abbrev documents : IsDocument writer
documents = record {
  at = text_at;
  number_at = int_at;
  at-assign = text_at-same;
  at-assign_other = text_at-other;
  at-assign_int_other = text_at-number;
  number_at-assign_int = int_at-same;
  number_at-assign_other = int_at-other;
}

abbrev method_tree : List Member
method_tree =
    configuration_method_tree writer (codes "1") 4 (codes "dev") (codes "eth0") (codes "dhcp")

abbrev full_tree : List Member
full_tree =
    configuration_tree writer (codes "1") 4 (codes "dev") (codes "eth0") (codes "dhcp")
      (codes "10.0.0.2") (codes "255.0.0.0")

abbrev gateway_tree : List Member
gateway_tree = default_gateway_tree writer (codes "1") 4 (codes "dev") (codes "10.0.0.1")

abbrev manual_tree : List Member
manual_tree =
    manual_configuration_tree writer (codes "1") 4 (codes "dev") (codes "eth0") (codes "10.0.0.2")
      (codes "255.0.0.0")

trees-IsRequest_example :
    (IsRequest writer documents (codes "1") (codes "dev") 4 method_tree
      × HasMethod writer documents (codes "eth0") (codes "dhcp") method_tree)
    × (IsRequest writer documents (codes "1") (codes "dev") 4 full_tree
        × HasMethod writer documents (codes "eth0") (codes "dhcp") full_tree
        × HasAddress writer documents (codes "10.0.0.2") (codes "255.0.0.0") full_tree)
    × (IsRequest writer documents (codes "1") (codes "dev") 4 gateway_tree
        × (text_at gateway_address gateway_tree ≡ some (codes "10.0.0.1")))
    × (IsRequest writer documents (codes "1") (codes "dev") 4 manual_tree
        × (text_at interface_name manual_tree ≡ some (codes "eth0"))
        × HasAddress writer documents (codes "10.0.0.2") (codes "255.0.0.0") manual_tree)
trees-IsRequest_example =
    trees-IsRequest writer documents (codes "1") (codes "dev") (codes "eth0") (codes "dhcp")
      (codes "10.0.0.2") (codes "255.0.0.0") (codes "10.0.0.1") 4
