-- ===== src/Reconciler/Ticks.antt =====
-- A tick of a running loop is followed by a call.
use spire_eks_workload_regis.Prelude.{
  ℕ, suc, ◌≤◌, ◌<◌, ◌≡◌, ◌⊎◌, inl, inr, refl, ◌∙◌, zero, Bool, true, false, List, [], ◌∷◌, arith,
}
use spire_eks_workload_regis.Reconciler.Calls.{steps, uncancelled, happen-calls, execute-calls}
use spire_eks_workload_regis.Reconciler.{
  Phase, Reconciler, Event, not_running, polling, parked, entering, running, returned, crashed,
  trigger, run, poll, proceed, tick, triggered_now, ticked, cancelled_now, started, proceeded,
  happen, execute,
}

-- Run was called, and has not returned.
abbrev pub alive : Phase → Bool
alive polling = true
alive parked = true
alive (entering cause) = true
alive (running cause) = true
alive not_running = false
alive returned = false
alive crashed = false

-- A call is at least so many own steps away.
abbrev Due : ℕ → Phase → Reconciler → Type 0
Due n (entering cause) r = 1 ≤ n
Due n polling r = (2 ≤ n) × (r.tick_pending ≡ true)
Due n (running cause) r = (3 ≤ n) × (r.tick_pending ≡ true)
Due n not_running r = ⊥
Due n parked r = ⊥
Due n returned r = ⊥
Due n crashed r = ⊥

Due-external :
    (n : ℕ) (e : Event) (r : Reconciler)
    → steps (e ∷ []) ≡ 0
    → uncancelled (e ∷ []) ≡ true
    → Due n r.phase r
    → Due n (happen e r).phase (happen e r) × ((happen e r).cancelled ≡ r.cancelled)
unfolding happen trigger run tick
Due-external n triggered_now r s u d = ground arith
Due-external n ticked r s u d = ground arith
Due-external n started r s u d = ground arith
Due-external n cancelled_now r s u d = ground arith
Due-external n (proceeded choice) r s u d = ground arith

Due-proceed :
    (n : ℕ) (choice : Bool) (r : Reconciler)
    → r.cancelled ≡ false
    → Due (suc n) r.phase r
    → (r.calls < (proceed choice r).calls)
      ⊎ (Due n (proceed choice r).phase (proceed choice r) × ((proceed choice r).cancelled ≡ false))
unfolding proceed poll
Due-proceed n choice r c d = ground arith

zero-lt-Due : (n : ℕ) (r : Reconciler) → Due n r.phase r → 0 < n
zero-lt-Due n r d = ground arith

Due-execute :
    (n : ℕ) (es : List Event) (r : Reconciler)
    → r.cancelled ≡ false
    → uncancelled es ≡ true
    → Due n r.phase r
    → n ≤ steps es
    → r.calls < (execute es r).calls
unfolding execute happen
Due-execute n [] r c u d s = omega (arith, zero-lt-Due n r d)
Due-execute zero (proceeded choice ∷ es) r c u d s = omega (arith, zero-lt-Due 0 r d)
Due-execute (suc n) (proceeded choice ∷ es) r c u d s = elim (Due-proceed n choice r c d) [
  | inl called ↦ omega (arith, called, execute-calls es (proceed choice r))
  | inr (d', c') ↦ omega (
    arith,
    happen-calls (proceeded choice) r,
    Due-execute n es (proceed choice r) c' u d' (omega arith),
  )
]
Due-execute n (triggered_now ∷ es) r c u d s =
    let (d', c') = Due-external n triggered_now r refl refl d in
    omega (arith, happen-calls triggered_now r, Due-execute n es (trigger r) (c' ∙ c) u d' s)
Due-execute n (ticked ∷ es) r c u d s =
    let (d', c') = Due-external n ticked r refl refl d in
    omega (arith, happen-calls ticked r, Due-execute n es (tick r) (c' ∙ c) u d' s)
Due-execute n (started ∷ es) r c u d s =
    let (d', c') = Due-external n started r refl refl d in
    omega (arith, happen-calls started r, Due-execute n es (happen started r) (c' ∙ c) u d' s)
Due-execute n (cancelled_now ∷ es) r c u d s = cc u

Due-tick :
    (r : Reconciler) → r.cancelled ≡ false → alive r.phase ≡ true → Due 3 (tick r).phase (tick r)
unfolding tick
Due-tick r c a = ground arith

-- After a tick of a loop that runs and is not cancelled, the reconcile function is called within three
-- steps of the goroutine of Run, whatever else happens, as long as the context is not cancelled.
pub execute-tick :
    (es : List Event) (r : Reconciler)
    → alive r.phase ≡ true
    → r.cancelled ≡ false
    → uncancelled es ≡ true
    → 3 ≤ steps es
    → r.calls < (execute es (tick r)).calls
unfolding tick
execute-tick es r a c u s =
    let same : ((tick r).calls ≡ r.calls) × ((tick r).cancelled ≡ r.cancelled) = ground arith in
    rw same.0 at (Due-execute 3 es (tick r) (same.1 ∙ c) u (Due-tick r c a) s)
