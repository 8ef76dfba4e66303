-- ===== src/Loop/Counting.antt =====
-- How often a notifier of hbm/sys/linux/notifier.cpp tells its callback.
use devscan.Base.{
  ℕ, zero, suc, ◌+◌, ◌-◌, ◌^◌, ◌<◌, ◌≤◌, ◌≡◌, refl, ap, ◌∙◌, true, false, Option, some, arith,
}
use devscan.Base.Int.{is_pos}
use devscan.Loop.Notifier.{NotifierCalls, Notifier, notify, process, tell, tell_times}

-- `eventfd`: a write of 1 adds to the counter below its greatest value, 2^64 - 2; a read gives the
-- counter and clears it, and fails where it is zero.
pub record IsEventFd (calls : NotifierCalls) : Type 0 where
  pub counter : ℕ → calls.State → ℕ
  pub counts :
      (fd : ℕ) (s : calls.State)
      → counter fd s < 2 ^ 64 - 2
      → counter fd (calls.write fd s).1 ≡ counter fd s + 1
  pub gives :
      (fd : ℕ) (s : calls.State)
      → 0 < counter fd s
      → (is_pos (calls.read fd s).0 ≡ true) × ((calls.read fd s).1 ≡ counter fd s)
  pub is_empty : (fd : ℕ) (s : calls.State) → counter fd s ≡ 0 → is_pos (calls.read fd s).0 ≡ false

abbrev pub iterate {ℓ} : {A : Type ℓ} → ℕ → (A → A) → A → A
iterate zero f a = a
iterate (suc n) f a = iterate n f (f a)

module _ (calls : NotifierCalls) (call : calls.Handler → Notifier calls → Notifier calls)
    (laws : IsEventFd calls) where
  abbrev pub notify_times : ℕ → Notifier calls → Notifier calls
  notify_times n t = iterate n (λ (t : Notifier calls). (notify calls call t).1) t

  -- The notifier after the read of its descriptor.
  abbrev pub woken : Notifier calls → Notifier calls
  woken t = record t { state = (calls.read t.fd t.state).2 }

  tell_times-iterate :
      (h : calls.Handler) (n : ℕ) (t : Notifier calls)
      → ((t : Notifier calls) → (call h t).handler ≡ t.handler)
      → t.handler ≡ some h
      → tell_times calls call n t ≡ iterate n (call h) t
  unfolding tell_times tell
  tell_times-iterate h zero t keeps e = refl
  tell_times-iterate h (suc n) t keeps e =
      ap (λ (o : Option calls.Handler). tell_times calls call n (tell calls call o t)) e
      ∙ tell_times-iterate h n (call h t) keeps (keeps t ∙ e)

  notified :
      (n : ℕ) (t : Notifier calls)
      → laws.counter t.fd t.state + n ≤ 2 ^ 64 - 2
      → (laws.counter (notify_times n t).fd (notify_times n t).state
          ≡ laws.counter t.fd t.state + n)
        × ((notify_times n t).handler ≡ t.handler)
  unfolding notify
  notified zero t h = (omega arith, refl)
  notified (suc n) t h =
      let first = laws.counts t.fd t.state (omega arith) in
      let (count, same) = notified n (notify calls call t).1 (omega arith) in (omega arith, same)

  process-read :
      (t : Notifier calls)
      → is_pos (calls.read t.fd t.state).0 ≡ true
      → (process calls call t).1 ≡ tell_times calls call (calls.read t.fd t.state).1 (woken t)
  unfolding process
  process-read t e = rw (process, e)

  process-idle :
      (t : Notifier calls)
      → is_pos (calls.read t.fd t.state).0 ≡ false
      → (process calls call t).1 ≡ woken t
  unfolding process
  process-idle t e = rw (process, e)

  -- Notifications are neither lost nor merged: `process` after `n` of them, for every `n` below 2^64 - 1,
  -- calls the callback `n` times in a row, where the counter was zero before and the callback leaves
  -- itself in place.
  pub notify-process :
      (h : calls.Handler) (n : ℕ) (t : Notifier calls)
      → ((t : Notifier calls) → (call h t).handler ≡ t.handler)
      → t.handler ≡ some h
      → laws.counter t.fd t.state ≡ 0
      → n < 2 ^ 64 - 1
      → (process calls call (notify_times n t)).1 ≡ iterate n (call h) (woken (notify_times n t))
  notify-process h zero t keeps e empty bound = process-idle t (laws.is_empty t.fd t.state empty)
  notify-process h (suc n) t keeps e empty bound =
      let (count, same) = notified (suc n) t (omega arith) in
      let count' : laws.counter (notify_times (suc n) t).fd (notify_times (suc n) t).state ≡ suc n =
        omega arith in
      let (ready, value) =
        laws.gives (notify_times (suc n) t).fd (notify_times (suc n) t).state (omega arith) in
      process-read (notify_times (suc n) t) ready
      ∙ ap (λ (k : ℕ). tell_times calls call k (woken (notify_times (suc n) t))) (value ∙ count')
      ∙ tell_times-iterate h (suc n) (woken (notify_times (suc n) t)) keeps (same ∙ e)
