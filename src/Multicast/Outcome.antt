-- ===== src/Multicast/Outcome.antt =====
-- What the result of a send says.
use devscan.Base.{
  ℕ, zero, suc, ◌≡◌, ◌≢◌, ◌↔◌, refl, true, Option, List, [], ◌∷◌, All, Bool-cases, inl, inr,
}
use devscan.Base.Text.{Text}
use devscan.Base.Int.{ℤ, pos, negsuc, is_zero}
use devscan.Adapters.Enumeration.{Adapters}
use devscan.Multicast.Network.{Network, MulticastServer}
use devscan.Multicast.Sending.{send_over_interface, send_all, send}

is_zero_iff : (z : ℤ) → (is_zero z ≡ true) ↔ (z ≡ pos 0)
is_zero_iff (pos zero) = (λ h. refl, λ h. refl)
is_zero_iff (pos (suc n)) = (λ h. cc, λ h. cc)
is_zero_iff (negsuc n) = (λ h. cc, λ h. cc)

module _ (net : Network) (m : MulticastServer) where
  -- The results over the adapters, one behind the other.
  unfoldable pub outcomes : Adapters → Option Text → ℕ → ℕ → net.State → List ℤ
  outcomes [] bytes size ttl s = []
  outcomes ((index, adapter) ∷ adapters) bytes size ttl s =
      let (result, s') = send_over_interface net m adapter bytes size ttl s in
      result ∷ outcomes adapters bytes size ttl s'

  -- The state behind the sends over all adapters, one behind the other.
  unfoldable pub after_all : Adapters → Option Text → ℕ → ℕ → net.State → net.State
  after_all [] bytes size ttl s = s
  after_all ((index, adapter) ∷ adapters) bytes size ttl s =
      after_all adapters bytes size ttl (send_over_interface net m adapter bytes size ttl s).1

  send_all-outcomes :
      (adapters : Adapters) (bytes : Option Text) (size ttl : ℕ) (ret_val : ℤ) (s : net.State)
      → ((send_all net m adapters bytes size ttl ret_val s).0 ≡ pos 0)
        ↔ ((ret_val ≡ pos 0) × All (λ z. z ≡ pos 0) (outcomes adapters bytes size ttl s))
  unfolding send_all outcomes
  send_all-outcomes [] bytes size ttl ret_val s = (λ h. (h, tt), λ h. h.0)
  send_all-outcomes ((index, adapter) ∷ adapters) bytes size ttl ret_val s =
      let out = send_over_interface net m adapter bytes size ttl s in
      elim (Bool-cases (is_zero out.0)) [
        | inl z ↦
            let ih = send_all-outcomes adapters bytes size ttl ret_val out.1 in
            let zero_is = (is_zero_iff out.0).0 z in
            rw (send_all, z)
              (λ h. let (r, rest) = ih.0 h in (r, (zero_is, rest)), λ h. ih.1 (h.0, h.1.1))
        | inr z ↦
            let ih = send_all-outcomes adapters bytes size ttl out.0 out.1 in
            let no : out.0 ≢ pos 0 = λ e. let e' = (is_zero_iff out.0).1 e in cc in
            rw (send_all, z) (λ h. absurd (no (ih.0 h).0), λ h. absurd (no h.1.0))
      ]

  send_all-after_all :
      (adapters : Adapters) (bytes : Option Text) (size ttl : ℕ) (ret_val : ℤ) (s : net.State)
      → (send_all net m adapters bytes size ttl ret_val s).1 ≡ after_all adapters bytes size ttl s
  unfolding send_all after_all
  send_all-after_all [] bytes size ttl ret_val s = refl
  send_all-after_all ((index, adapter) ∷ adapters) bytes size ttl ret_val s =
      send_all-after_all adapters bytes size ttl _
        (send_over_interface net m adapter bytes size ttl s).1

  -- `send` returns 0 exactly if the send over each adapter did. Whatever the results are, it leaves the
  -- state that the sends over all adapters leave, one behind the other in the order of the list: a
  -- failure over one adapter does not keep it from the others.
  pub send-outcomes :
      (adapters : Adapters) (bytes : Option Text) (size ttl : ℕ) (s : net.State)
      → (((send net m adapters bytes size ttl s).0 ≡ pos 0)
          ↔ All (λ z. z ≡ pos 0) (outcomes adapters bytes size ttl s))
        × ((send net m adapters bytes size ttl s).1 ≡ after_all adapters bytes size ttl s)
  unfolding send
  send-outcomes adapters bytes size ttl s =
      let both = send_all-outcomes adapters bytes size ttl (pos 0) s in
      (
        (λ h. (both.0 h).1, λ h. both.1 (refl, h)),
        send_all-after_all adapters bytes size ttl (pos 0) s,
      )
