-- ===== src/Reconciler/Calls.antt =====
-- What holds of the loop whatever happens, and in which order.
use spire_eks_workload_regis.Prelude.{
  ℕ, suc, ◌+◌, ◌≤◌, ◌≡◌, refl, Bool, true, false, List, [], ◌∷◌, arith,
}
use spire_eks_workload_regis.Prelude.Int.{ℤ}
use spire_eks_workload_regis.Reconciler.{
  Phase, Reconciler, Event, not_running, polling, parked, entering, running, returned, crashed, new,
  trigger, run, poll, proceed, tick, cancel, triggered_now, ticked, cancelled_now, started,
  proceeded, happen, execute,
}

-- One call is being prepared.
abbrev pub preparing : Phase → ℕ
preparing (entering cause) = 1
preparing not_running = 0
preparing polling = 0
preparing parked = 0
preparing (running cause) = 0
preparing returned = 0
preparing crashed = 0

-- The loop waits only when it has nothing to do, and each count of Run is one call.
abbrev Waits : Phase → Reconciler → Type 0
Waits parked r = (r.tick_pending ≡ false) × (r.cancelled ≡ false)
Waits other r = Unit

pub record IsWellFormed (r : Reconciler) : Type 0 where
  pub counted : r.reconcile_count ≡ r.calls + preparing r.phase
  pub waiting : Waits r.phase r

happen-IsWellFormed : (e : Event) (r : Reconciler) → IsWellFormed r → IsWellFormed (happen e r)
unfolding happen trigger run poll proceed tick cancel
happen-IsWellFormed triggered_now r w = record { counted = ground arith; waiting = ground arith }
happen-IsWellFormed ticked r w = record { counted = ground arith; waiting = ground arith }
happen-IsWellFormed cancelled_now r w = record { counted = ground arith; waiting = ground arith }
happen-IsWellFormed started r w = record { counted = ground arith; waiting = ground arith }
happen-IsWellFormed (proceeded choice) r w = record {
  counted = ground arith;
  waiting = ground arith;
}

execute_keeps : (es : List Event) (r : Reconciler) → IsWellFormed r → IsWellFormed (execute es r)
unfolding execute
execute_keeps [] r w = w
execute_keeps (e ∷ es) r w = execute_keeps es (happen e r) (happen-IsWellFormed e r w)

-- Whatever happens to a new reconciler, each count of Run is one call of the reconcile function,
-- made or just being prepared; and Run is blocked in its select only when no tick Waits in the
-- ticker and the context is not cancelled.
pub execute-IsWellFormed :
    (interval : ℤ) (es : List Event) → IsWellFormed (execute es (new interval))
unfolding new
execute-IsWellFormed interval es =
    execute_keeps es (new interval) (record { counted = refl; waiting = tt })

-- The steps of the goroutine of Run itself.
abbrev pub steps : List Event → ℕ
steps [] = 0
steps (proceeded choice ∷ es) = suc (steps es)
steps (e ∷ es) = steps es

abbrev pub uncancelled : List Event → Bool
uncancelled [] = true
uncancelled (cancelled_now ∷ es) = false
uncancelled (e ∷ es) = uncancelled es

pub happen-calls : (e : Event) (r : Reconciler) → r.calls ≤ (happen e r).calls
unfolding happen trigger run poll proceed tick cancel
happen-calls e r = ground arith

pub execute-calls : (es : List Event) (r : Reconciler) → r.calls ≤ (execute es r).calls
unfolding execute
execute-calls [] r = omega arith
execute-calls (e ∷ es) r = omega (arith, happen-calls e r, execute-calls es (happen e r))
