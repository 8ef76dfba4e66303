-- ===== src/DeviceMonitor/Registry.antt =====
-- The object `DeviceMonitor` implements the registry, and keeps its keys distinct and its entries
-- genuine.
use mathlib.Core.Path.{fun_ext}
use devscan.Base.{
  ℕ, ◌≡◌, ◌≢◌, refl, ap, sym, ◌∙◌, true, false, none, some, List, [], ◌∷◌, inl, inr, ◌⊎◌,
}
use devscan.Base.Text.{Text}
use devscan.Result.{Result, ok, throw}
use devscan.Json.{JsonLibrary}
use devscan.DeviceMonitor.Announcement.{Announcement, Verdict, accepted, refused, inspect}
use devscan.DeviceMonitor.Table.{lookup, IsTable, put-IsTable}
use devscan.DeviceMonitor.State.{
  Callback, DeviceMonitor, set_announce_cb, set_expire_cb, set_error_cb,
}
use devscan.DeviceMonitor.Process.{
  process_received_announcement, check_for_expired_announcements, check_for_expired_timer_cb,
}
use devscan.DeviceMonitor.History.{
  Event, received, timer, announce_cb_set, expire_cb_set, error_cb_set, Known, step, run, remember,
  spec_step, spec_run,
}
use devscan.DeviceMonitor.Acceptance.{lookup-process, announcements-process}
use devscan.DeviceMonitor.Refusal.{process-Reported}
use devscan.DeviceMonitor.Expiry.{sweep-IsTable}
use devscan.DeviceMonitor.Expirations.{lookup-check_for_expired}

verdict_cases :
    (r : Result Verdict)
    → ((a : Announcement) × (r ≡ ok (accepted a))) ⊎ ((a : Announcement) → r ≢ ok (accepted a))
verdict_cases (throw e) = inr (λ a h. cc)
verdict_cases (ok (refused code t)) = inr (λ a h. cc)
verdict_cases (ok (accepted a)) = inl (a, refl)

module _ (json : JsonLibrary) where
  view : DeviceMonitor → Known
  view m key = lookup key m.announcements

  set_announce_cb-announcements :
      (cb : Callback) (m : DeviceMonitor) → (set_announce_cb cb m).announcements ≡ m.announcements
  unfolding set_announce_cb
  set_announce_cb-announcements none m = refl
  set_announce_cb-announcements (some f) m = refl

  pub process-IsTable :
      (now : ℕ) (receiving_interface message : Text) (m : DeviceMonitor)
      → IsTable m.announcements
      → IsTable (process_received_announcement json now receiving_interface message m).announcements
  process-IsTable now receiving_interface message m t =
      elim (verdict_cases (inspect json message)) [
        | inl (a, h) ↦
            rw (announcements-process json now receiving_interface message a m h)
              (put-IsTable _ _ m.announcements t)
        | inr other ↦ rw ((process-Reported json now receiving_interface message m other).2.1) t
      ]

  step-IsTable :
      (e : Event) (m : DeviceMonitor)
      → IsTable m.announcements
      → IsTable (step json e m).announcements
  unfolding step check_for_expired_timer_cb check_for_expired_announcements set_expire_cb
      set_error_cb
  step-IsTable (received now receiving_interface message) m t =
      process-IsTable now receiving_interface message m t
  step-IsTable (timer true now) m t = sweep-IsTable m.expire_cb now m.announcements t
  step-IsTable (timer false now) m t = t
  step-IsTable (announce_cb_set cb) m t = rw (set_announce_cb-announcements cb m) t
  step-IsTable (expire_cb_set cb) m t = t
  step-IsTable (error_cb_set cb) m t = t

  -- Whatever happens, the keys stay distinct.
  run-IsTable :
      (es : List Event) (m : DeviceMonitor)
      → IsTable m.announcements
      → IsTable (run json es m).announcements
  unfolding run
  run-IsTable [] m t = t
  run-IsTable (e ∷ es) m t = run-IsTable es (step json e m) (step-IsTable e m t)

  remember-other :
      (now : ℕ) (receiving_interface message : Text) (r : Result Verdict)
      → ((a : Announcement) → r ≢ ok (accepted a))
      → (known : Known) (key : Text)
      → remember json now receiving_interface message r known key ≡ known key
  unfolding remember
  remember-other now receiving_interface message (throw e) other known key = refl
  remember-other now receiving_interface message (ok (refused code t)) other known key = refl
  remember-other now receiving_interface message (ok (accepted a)) other known key =
      absurd (other a refl)

  process-remember :
      (now : ℕ) (receiving_interface message key : Text) (m : DeviceMonitor)
      → lookup key
          (process_received_announcement json now receiving_interface message m).announcements
        ≡ remember json now receiving_interface message (inspect json message) (view m) key
  unfolding remember view
  process-remember now receiving_interface message key m =
      elim (verdict_cases (inspect json message)) [
        | inl (a, h) ↦ rw h (lookup-process json now receiving_interface message a m h key)
        | inr other ↦ rw ((process-Reported json now receiving_interface message m other).2.1) (
            sym (
              remember-other now receiving_interface message (inspect json message) other (view m)
                key))
      ]

  step-spec :
      (e : Event) (m : DeviceMonitor)
      → IsTable m.announcements
      → view (step json e m) ≡ spec_step json e (view m)
  unfolding step spec_step check_for_expired_timer_cb set_expire_cb set_error_cb view
  step-spec (received now receiving_interface message) m t =
      fun_ext λ key. process-remember now receiving_interface message key m
  step-spec (timer true now) m t = fun_ext λ key. lookup-check_for_expired now m key t
  step-spec (timer false now) m t = refl
  step-spec (announce_cb_set cb) m t =
      ap (λ l key. lookup key l) (set_announce_cb-announcements cb m)
  step-spec (expire_cb_set cb) m t = refl
  step-spec (error_cb_set cb) m t = refl

  run-view :
      (es : List Event) (m : DeviceMonitor)
      → IsTable m.announcements
      → view (run json es m) ≡ spec_run json es (view m)
  unfolding run spec_run
  run-view [] m t = refl
  run-view (e ∷ es) m t =
      run-view es (step json e m) (step-IsTable e m t) ∙ ap (spec_run json es) (step-spec e m t)

  -- From any object with distinct keys and for every sequence of operations, the object knows the
  -- entry of a key that the registry knows: that of the last accepted message for the key, unless a
  -- timer event has come after its expiry.
  pub run-spec :
      (es : List Event) (m : DeviceMonitor) (key : Text)
      → IsTable m.announcements
      → lookup key (run json es m).announcements
        ≡ spec_run json es (λ k. lookup k m.announcements) key
  unfolding view
  run-spec es m key t = ap (λ (known : Known). known key) (run-view es m t)
