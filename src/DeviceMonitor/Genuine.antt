-- ===== src/DeviceMonitor/Genuine.antt =====
-- Every known entry stems from a message of the run, and lives as long as that says.
use mathlib.Core.Path.{subst}
use devscan.Base.{
  ℕ, ◌+◌, ◌*◌, ◌≡◌, refl, sym, ◌∙◌, true, false, none, some, List, [], ◌∷◌, arith, Bool-cases, inl,
  inr,
}
use devscan.Base.Text.{Text, text_eq, text_eq_iff}
use devscan.Result.{Result, ok, throw}
use devscan.Json.{JsonLibrary}
use devscan.DeviceMonitor.Announcement.{Announcement, Verdict, accepted, refused, inspect}
use devscan.DeviceMonitor.CommunicationPath.{key_of}
use devscan.DeviceMonitor.Table.{lookup}
use devscan.DeviceMonitor.State.{ExpiringEntry, empty}
use devscan.DeviceMonitor.Process.{path_of}
use devscan.DeviceMonitor.History.{
  Event, received, timer, announce_cb_set, expire_cb_set, error_cb_set, Known, run, remember,
  spec_step, spec_run,
}
use devscan.DeviceMonitor.Acceptance.{entry_of}
use devscan.DeviceMonitor.Expiry.{alive}
use devscan.DeviceMonitor.Expirations.{Elem}
use devscan.DeviceMonitor.Registry.{run-spec}

module _ (json : JsonLibrary) (es : List Event) where
  -- Which of the events `es` an entry comes from. The times are nanoseconds.
  pub record IsGenuine (key : Text) (e : ExpiringEntry) : Type 0 where
    pub now : ℕ
    pub receiving_interface : Text
    pub announcement : Announcement
    pub is_event : Elem (received now receiving_interface e.announcement) es
    pub accepted_as : inspect json e.announcement ≡ ok (accepted announcement)
    pub key_is : key_of (path_of receiving_interface announcement) ≡ key
    pub expires : now + announcement.expire * 1000000000 ≡ e.time_of_expiry

  abbrev AllGenuine : Known → Type 0
  AllGenuine known = (key : Text) (e : ExpiringEntry) → known key ≡ some e → IsGenuine key e

  remember-AllGenuine :
      (now : ℕ) (receiving_interface message : Text) (r : Result Verdict) (known : Known)
      → Elem (received now receiving_interface message) es
      → inspect json message ≡ r
      → AllGenuine known
      → AllGenuine (remember json now receiving_interface message r known)
  unfolding remember
  remember-AllGenuine now ri message (throw x) known i q g key e h = g key e h
  remember-AllGenuine now ri message (ok (refused code t)) known i q g key e h = g key e h
  remember-AllGenuine now ri message (ok (accepted a)) known i q g key e h =
      elim (Bool-cases (text_eq (key_of (path_of ri a)) key)) [
        | inl same ↦
            let e_is : entry_of now message a ≡ e = ground (arith, h) in
            subst (IsGenuine key) e_is (record {
              now = now;
              receiving_interface = ri;
              announcement = a;
              is_event = i;
              accepted_as = q;
              key_is = (text_eq_iff (key_of (path_of ri a)) key).0 same;
              expires = refl;
            })
        | inr other ↦ g key e (ground (arith, h))
      ]

  alive-AllGenuine :
      (now : ℕ) (known : Known) → AllGenuine known → AllGenuine (λ key. alive now (known key))
  alive-AllGenuine now known g key e h = g key e (ground (arith, h))

  spec_step-AllGenuine :
      (ev : Event) (known : Known)
      → Elem ev es
      → AllGenuine known
      → AllGenuine (spec_step json ev known)
  unfolding spec_step
  spec_step-AllGenuine (received now ri message) known i g =
      remember-AllGenuine now ri message (inspect json message) known i refl g
  spec_step-AllGenuine (timer true now) known i g = alive-AllGenuine now known g
  spec_step-AllGenuine (timer false now) known i g = g
  spec_step-AllGenuine (announce_cb_set cb) known i g = g
  spec_step-AllGenuine (expire_cb_set cb) known i g = g
  spec_step-AllGenuine (error_cb_set cb) known i g = g

  -- `rest` are the events that are left to run.
  spec_run-AllGenuine :
      (rest : List Event) (known : Known)
      → ((ev : Event) → Elem ev rest → Elem ev es)
      → AllGenuine known
      → AllGenuine (spec_run json rest known)
  unfolding spec_run
  spec_run-AllGenuine [] known within g = g
  spec_run-AllGenuine (ev ∷ rest) known within g =
      spec_run-AllGenuine rest (spec_step json ev known) (λ x i. within x (inr i))
        (spec_step-AllGenuine ev known (within ev (inl refl)) g)

  -- After any sequence of operations on a new object, each entry stems from a message of the sequence:
  -- its text is that message, which `inspect` accepts, its key is made of the interface that received
  -- it and of its parts, and it expires behind its arrival by as many seconds as the message says.
  pub run-IsGenuine :
      (key : Text) (e : ExpiringEntry)
      → lookup key (run json es empty).announcements ≡ some e
      → IsGenuine key e
  unfolding lookup
  run-IsGenuine key e h =
      spec_run-AllGenuine es (λ k. none) (λ x i. i) (λ k x q. cc) key e
        (sym (run-spec json es empty key tt) ∙ h)
