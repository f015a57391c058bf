-- ===== src/Reconciler/Triggers.antt =====
-- Which triggers lead to a run of the reconcile function.
use spire_eks_workload_regis.Prelude.{◌<◌, ◌≡◌, ◌≢◌, ap, Bool, true, List, [], ◌∷◌, arith}
use spire_eks_workload_regis.Reconciler.Calls.{steps, execute-calls}
use spire_eks_workload_regis.Reconciler.{
  Cause, Reconciler, Event, manual, parked, entering, trigger, run, poll, proceed, tick, cancel,
  triggered_now, ticked, cancelled_now, started, proceeded, happen, execute,
}

-- Two loops that differ in the field `triggered` at most.
abbrev Same : Reconciler → Reconciler → Type 0
Same r s = record r { triggered = true } ≡ record s { triggered = true }

happen-Same : (e : Event) (r s : Reconciler) → Same r s → Same (happen e r) (happen e s)
unfolding happen trigger run poll proceed tick cancel
happen-Same triggered_now r s h = ground arith
happen-Same ticked r s h = ground arith
happen-Same cancelled_now r s h = ground arith
happen-Same started r s h = ground arith
happen-Same (proceeded choice) r s h = ground arith

execute-Same : (es : List Event) (r s : Reconciler) → Same r s → Same (execute es r) (execute es s)
unfolding execute
execute-Same [] r s h = h
execute-Same (e ∷ es) r s h = execute-Same es (happen e r) (happen e s) (happen-Same e r s h)

trigger-Same : (r : Reconciler) → r.phase ≢ parked → Same (trigger r) r
unfolding trigger
trigger-Same r h = ground arith

-- A trigger at a moment when Run is not blocked in its select is lost: whatever happens afterwards, the
-- loop is in the same phase and has made the same calls as without it. So it is before Run is called, and
-- during a call of the reconcile function.
pub execute-lost_trigger :
    (es : List Event) (r : Reconciler)
    → r.phase ≢ parked
    → ((execute es (trigger r)).calls ≡ (execute es r).calls)
      × ((execute es (trigger r)).phase ≡ (execute es r).phase)
execute-lost_trigger es r h =
    let same = execute-Same es (trigger r) r (trigger-Same r h) in
    (ap (λ (q : Reconciler). q.calls) same, ap (λ (q : Reconciler). q.phase) same)

entering-proceed :
    (choice : Bool) (r : Reconciler) (cause : Cause)
    → r.phase ≡ entering cause
    → r.calls < (proceed choice r).calls
unfolding proceed
entering-proceed choice r cause h = rw h (omega arith)

execute-entering :
    (es : List Event) (r : Reconciler) (cause : Cause)
    → r.phase ≡ entering cause
    → 0 < steps es
    → r.calls < (execute es r).calls
unfolding execute happen trigger run proceed tick cancel
execute-entering [] r cause h s = omega arith
execute-entering (proceeded choice ∷ es) r cause h s =
    omega (arith, execute-calls es (happen (proceeded choice) r), entering-proceed choice r cause h)
execute-entering (triggered_now ∷ es) r cause h s =
    ground (arith, execute-entering es (happen triggered_now r) cause)
execute-entering (ticked ∷ es) r cause h s =
    ground (arith, execute-entering es (happen ticked r) cause)
execute-entering (cancelled_now ∷ es) r cause h s =
    ground (arith, execute-entering es (happen cancelled_now r) cause)
execute-entering (started ∷ es) r cause h s =
    ground (arith, execute-entering es (happen started r) cause)

-- A trigger while Run is blocked in its select leads to a call of the reconcile function, whatever
-- happens afterwards, as soon as the goroutine of Run has taken one step; a cancellation does not stop it.
pub execute-parked_trigger :
    (es : List Event) (r : Reconciler)
    → r.phase ≡ parked
    → 0 < steps es
    → r.calls < (execute es (trigger r)).calls
unfolding trigger
execute-parked_trigger es r h s =
    let same : (trigger r).calls ≡ r.calls = ground arith in
    rw same at (execute-entering es (trigger r) manual (ground arith) s)
