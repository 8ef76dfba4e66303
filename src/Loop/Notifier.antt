-- ===== src/Loop/Notifier.antt =====
-- hbm/sys/linux/notifier.cpp. The calls on the event descriptor and the callback are parameters.
use devscan.Base.{ℕ, zero, suc, Option, none, some, if◌then◌else◌}
use devscan.Base.Int.{ℤ, pos, is_pos}

pub record NotifierCalls : Type 1 where
  pub State : Type 0
  pub Handler : Type 0
  pub eventfd : State → Option ℕ × State
  -- of the value 1
  pub write : ℕ → State → ℤ × State
  -- what `read` returns, and the value
  pub read : ℕ → State → ℤ × ℕ × State
  pub close : ℕ → State → State
  -- the event loop
  pub add_event : ℕ → State → State
  pub erase_event : ℕ → State → State

pub record Notifier (calls : NotifierCalls) : Type 0 where
  pub fd : ℕ
  pub handler : Option calls.Handler
  pub state : calls.State

module _ (calls : NotifierCalls) (call : calls.Handler → Notifier calls → Notifier calls) where
  -- The constructor; `none` where it throws.
  unfoldable pub create : calls.State → Option (Notifier calls)
  create s = elim ((calls.eventfd s).0) [
    | none ↦ none
    | some fd ↦ some (record { fd = fd; handler = none; state = (calls.eventfd s).1 })
  ]

  unfoldable pub set : Option calls.Handler → Notifier calls → ℤ × Notifier calls
  set none n = (pos 0, record n { handler = none; state = calls.erase_event n.fd n.state })
  set (some h) n = (pos 0, record n { handler = some h; state = calls.add_event n.fd n.state })

  unfoldable pub notify : Notifier calls → ℤ × Notifier calls
  notify n = ((calls.write n.fd n.state).0, record n { state = (calls.write n.fd n.state).1 })

  -- `if (m_eventHandler) m_eventHandler()`
  unfoldable pub tell : Option calls.Handler → Notifier calls → Notifier calls
  tell none n = n
  tell (some h) n = call h n

  -- The loop of `process`: the handler is looked up again each time.
  unfoldable pub tell_times : ℕ → Notifier calls → Notifier calls
  unfolding tell
  tell_times zero n = n
  tell_times (suc count) n = tell_times count (tell n.handler n)

  unfoldable pub process : Notifier calls → ℤ × Notifier calls
  unfolding tell_times
  process n =
      let read = calls.read n.fd n.state in
      let after = record n { state = read.2 } in
      if is_pos read.0 then (read.0, tell_times read.1 after) else (read.0, after)

  -- The destructor.
  unfoldable pub destroy : Notifier calls → calls.State
  destroy n = calls.close n.fd (calls.erase_event n.fd n.state)

  -- The move constructor: the descriptor and the handler are copied, and the source keeps both.
  unfoldable pub move : Notifier calls → Notifier calls × Notifier calls
  move source =
      let state = calls.add_event source.fd source.state in
      (
        record { fd = source.fd; handler = source.handler; state = state },
        record source { state = state },
      )
