-- ===== src/Socket/Connecting.antt =====
-- When `connect` of hbm/communication/linux/socketnonblocking.cpp succeeds, and what is left of a former
-- connection.
use devscan.Base.{
  ◌⊎◌, ℕ, ◌≤◌, ◌<◌, ◌≡◌, refl, sym, ◌∙◌, Bool, true, false, Option, some, List, [], ◌∷◌, All, ◌==◌,
  Bool-cases, inl, inr, arith,
}
use mathlib.Core.Path.{subst}
use devscan.Base.Int.{ℤ, pos, minus_one}
use devscan.Socket.Connection.{
  Sockets, SocketNonblocking, TcpOption, tcp_nodelay, tcp_keepidle, tcp_keepintvl, tcp_keepcnt,
  so_keepalive, connected, ready, poll_interrupted, set_option, set_socket_options,
}

-- Which option of the descriptor it is.
abbrev pub kind : TcpOption → ℕ
kind (tcp_nodelay n) = 0
kind (tcp_keepidle n) = 1
kind (tcp_keepintvl n) = 2
kind (tcp_keepcnt n) = 3
kind (so_keepalive n) = 4

-- Options keep their values until they are set again. A connection is there once `connect` returns 0, or
-- once the descriptor is ready for sending and SO_ERROR is 0. `poll` is interrupted a bounded number of
-- times.
pub record IsTcp (calls : Sockets) : Type 0 where
  pub has : Option ℕ → TcpOption → calls.State → Bool
  pub is_open : Option ℕ → calls.State → Bool
  pub budget : calls.State → ℕ
  pub sets :
      (fd : Option ℕ) (o : TcpOption) (s : calls.State)
      → (calls.setsockopt fd o s).0 ≡ true
      → has fd o (calls.setsockopt fd o s).1 ≡ true
  pub has-setsockopt :
      (fd : Option ℕ) (o o' : TcpOption) (s : calls.State)
      → (kind o == kind o') ≡ false
      → has fd o' s ≡ true
      → has fd o' (calls.setsockopt fd o s).1 ≡ true
  pub has-connect :
      (fd : Option ℕ) (o : TcpOption) (a : calls.Address) (s : calls.State)
      → has fd o (calls.connect fd a s).1 ≡ has fd o s
  pub has-poll :
      (fd : Option ℕ) (o : TcpOption) (t : ℕ) (s : calls.State)
      → has fd o (calls.poll_connect fd t s).1 ≡ has fd o s
  pub has-socket_error :
      (fd : Option ℕ) (o : TcpOption) (s : calls.State)
      → has fd o (calls.socket_error fd s).1 ≡ has fd o s
  pub connects :
      (fd : Option ℕ) (a : calls.Address) (s : calls.State)
      → (calls.connect fd a s).0 ≡ connected
      → is_open fd (calls.connect fd a s).1 ≡ true
  pub completes :
      (fd : Option ℕ) (t : ℕ) (s : calls.State)
      → (calls.poll_connect fd t s).0 ≡ ready
      → (calls.socket_error fd (calls.poll_connect fd t s).1).0 ≡ 0
      → is_open fd (calls.socket_error fd (calls.poll_connect fd t s).1).1 ≡ true
  pub interruptions :
      (fd : Option ℕ) (t : ℕ) (s : calls.State)
      → (calls.poll_connect fd t s).0 ≡ poll_interrupted
      → budget (calls.poll_connect fd t s).1 < budget s
  pub budget-setsockopt :
      (fd : Option ℕ) (o : TcpOption) (s : calls.State)
      → budget (calls.setsockopt fd o s).1 ≤ budget s
  pub budget-socket : (domain : ℕ) (s : calls.State) → budget (calls.socket domain s).1 ≤ budget s
  pub budget-connect :
      (fd : Option ℕ) (a : calls.Address) (s : calls.State)
      → budget (calls.connect fd a s).1 ≤ budget s

module _ (calls : Sockets) (laws : IsTcp calls) where
  open laws use {has, is_open, budget}

  -- The options that a connection of the program has.
  abbrev pub options : List TcpOption
  options = tcp_nodelay 1 ∷ tcp_keepidle 12 ∷ tcp_keepintvl 3 ∷ tcp_keepcnt 2 ∷ so_keepalive 1 ∷ []

  set_all : Option ℕ → List TcpOption → calls.State → ℤ × calls.State
  set_all fd [] s = (pos 0, s)
  set_all fd (o ∷ os) s = set_option calls fd o (set_all fd os) s

  set_all-options :
      (fd : Option ℕ) (s : calls.State) → set_socket_options calls fd s ≡ set_all fd options s
  unfolding set_socket_options set_all
  set_all-options fd s = refl

  abbrev Fresh : TcpOption → List TcpOption → Type 0
  Fresh o os = All (λ (o' : TcpOption). (kind o' == kind o) ≡ false) os

  abbrev Distinct : List TcpOption → Type 0
  Distinct [] = Unit {0}
  Distinct (o ∷ os) = Fresh o os × Distinct os

  -- Every option of the list is set, or the result is -1.
  abbrev AllSet : Option ℕ → List TcpOption → ℤ × calls.State → Type 0
  AllSet fd os r =
      ((r.0 ≡ pos 0) × All (λ (o : TcpOption). has fd o r.1 ≡ true) os) ⊎ (r.0 ≡ minus_one)

  set_all-keeps :
      (fd : Option ℕ) (o : TcpOption) (os : List TcpOption) (s : calls.State)
      → Fresh o os
      → has fd o s ≡ true
      → has fd o (set_all fd os s).1 ≡ true
  unfolding set_all
  set_all-keeps fd o [] s f h = h
  set_all-keeps fd o (o' ∷ os) s f h =
      let h' = laws.has-setsockopt fd o' o s f.0 h in
      elim (Bool-cases (calls.setsockopt fd o' s).0) [
        | inl set ↦ rw set (set_all-keeps fd o os (calls.setsockopt fd o' s).1 f.1 h')
        | inr not_set ↦ rw not_set h'
      ]

  set_all-next :
      (fd : Option ℕ) (o : TcpOption) (os : List TcpOption) (s : calls.State)
      → (calls.setsockopt fd o s).0 ≡ true
      → set_all fd (o ∷ os) s ≡ set_all fd os (calls.setsockopt fd o s).1
  unfolding set_all
  set_all-next fd o os s e = rw e

  set_all-AllSet :
      (fd : Option ℕ) (os : List TcpOption) (s : calls.State)
      → Distinct os
      → AllSet fd os (set_all fd os s)
  unfolding set_all
  set_all-AllSet fd [] s d = inl (refl, tt)
  set_all-AllSet fd (o ∷ os) s d = elim (Bool-cases (calls.setsockopt fd o s).0) [
    | inl set ↦
        let after = (calls.setsockopt fd o s).1 in
        let kept = set_all-keeps fd o os after d.0 (laws.sets fd o s set) in
        let all : AllSet fd (o ∷ os) (set_all fd os after) = elim (set_all-AllSet fd os after d.1) [
          | inl (result, all) ↦ inl (result, (kept, all))
          | inr failed ↦ inr failed
        ] in
        subst (AllSet fd (o ∷ os)) (sym (set_all-next fd o os s set)) all
    | inr not_set ↦ rw not_set (inr refl)
  ]

  set_all-budget :
      (fd : Option ℕ) (os : List TcpOption) (s : calls.State)
      → budget (set_all fd os s).1 ≤ budget s
  unfolding set_all
  set_all-budget fd [] s = omega arith
  set_all-budget fd (o ∷ os) s =
      let now = laws.budget-setsockopt fd o s in
      elim (Bool-cases (calls.setsockopt fd o s).0) [
        | inl set ↦
            let rest = set_all-budget fd os (calls.setsockopt fd o s).1 in rw set (omega arith)
        | inr not_set ↦ rw not_set now
      ]

  pub options-budget :
      (fd : Option ℕ) (s : calls.State) → budget (set_socket_options calls fd s).1 ≤ budget s
  options-budget fd s = rw (set_all-options fd s) (set_all-budget fd options s)

  -- Every option that a connection needs is set.
  abbrev pub HasOptions : Option ℕ → calls.State → Type 0
  HasOptions fd s = All (λ (o : TcpOption). has fd o s ≡ true) options

  pub options-cases :
      (fd : Option ℕ) (s : calls.State)
      → (((set_socket_options calls fd s).0 ≡ pos 0)
          × HasOptions fd (set_socket_options calls fd s).1)
        ⊎ ((set_socket_options calls fd s).0 ≡ minus_one)
  options-cases fd s = subst (AllSet fd options) (sym (set_all-options fd s)) (
      set_all-AllSet fd options s (
        (refl, (refl, (refl, (refl, tt)))),
        ((refl, (refl, (refl, tt))), ((refl, (refl, tt)), ((refl, tt), (tt, tt)))),
      ))

  -- What `connect` leaves: 0 with a descriptor that is connected and has the options, or -1. The buffer
  -- and the callback are those from before.
  pub record IsConnecting (before : SocketNonblocking calls) (r : ℤ × SocketNonblocking calls)
      : Type 0 where
    pub result :
        ((r.0 ≡ pos 0)
          × (fd : ℕ) × (r.1.fd ≡ some fd)
          × (is_open (some fd) r.1.state ≡ true)
          × HasOptions (some fd) r.1.state)
        ⊎ (r.0 ≡ minus_one)
    pub reader : r.1.reader ≡ before.reader
    pub handler : r.1.handler ≡ before.handler

  abbrev pub Connected : SocketNonblocking calls → Option (ℤ × SocketNonblocking calls) → Type 0
  Connected before o = (r : ℤ × SocketNonblocking calls) × (o ≡ some r) × IsConnecting before r

  pub keep-options :
      (fd : Option ℕ) (s s' : calls.State)
      → ((o : TcpOption) → has fd o s' ≡ has fd o s)
      → HasOptions fd s
      → HasOptions fd s'
  keep-options fd s s' same (a, (b, (c, (d, (e, t))))) = (
    same (tcp_nodelay 1) ∙ a,
    (
      same (tcp_keepidle 12) ∙ b,
      (same (tcp_keepintvl 3) ∙ c, (same (tcp_keepcnt 2) ∙ d, (same (so_keepalive 1) ∙ e, tt))),
    ),
  )
