-- ===== src/Reconciler.antt =====
-- internal/reconciler/reconciler.go: the loop that runs a reconcile function at each tick and trigger.
-- Run is one goroutine, so its place in the code is a phase; Trigger, the ticker and the cancellation
-- come from others, at any time. A channel send without a buffer succeeds only at a parked receiver.
pub mod Triggers
pub mod Calls
pub mod Ticks
use spire_eks_workload_regis.Prelude.{ℕ, zero, suc, ◌*◌, Bool, true, false, List, [], ◌∷◌}
use spire_eks_workload_regis.Prelude.Int.{ℤ, pos, negsuc}

pub data Cause : Type 0 where
  periodic : Cause
  manual : Cause

-- Where Run is: not called yet; before its select; blocked in it; at the start of reconcile, and in
-- its function; returned; or in the panic of NewTicker.
pub data Phase : Type 0 where
  not_running : Phase
  polling : Phase
  parked : Phase
  entering : Cause → Phase
  running : Cause → Phase
  returned : Phase
  crashed : Phase

-- type reconciler, with reconcileCount of Run, the buffer of the ticker, whether the context is done,
-- and how often the reconcile function was called
pub record Reconciler : Type 0 where
  pub gc_interval : ℤ
  pub triggered : Bool
  pub phase : Phase
  pub reconcile_count : ℕ
  pub tick_pending : Bool
  pub cancelled : Bool
  pub calls : ℕ

-- 10 * time.Minute
abbrev pub default_interval : ℤ
default_interval = pos (10 * 60 * 1000000000)

abbrev pub or_default : ℤ → ℤ
or_default (pos zero) = default_interval
or_default other = other

-- New
unfoldable pub new : ℤ → Reconciler
new gc_interval = record {
  gc_interval = or_default gc_interval;
  triggered = false;
  phase = not_running;
  reconcile_count = 0;
  tick_pending = false;
  cancelled = false;
  calls = 0;
}

-- A case of the select: reconcileCount++, then reconcile is called.
abbrev pub enter : Cause → Reconciler → Reconciler
enter cause r = record r { phase = entering cause; reconcile_count = suc r.reconcile_count }

abbrev send : Phase → Reconciler → Reconciler
send parked r = enter manual r
send other r = r

-- Trigger
unfoldable pub trigger : Reconciler → Reconciler
trigger r = send r.phase (record r { triggered = true })

abbrev start_ticker : ℤ → Reconciler → Reconciler
start_ticker (pos (suc n)) r = record r { phase = polling }
start_ticker other r = record r { phase = crashed }

-- Run, up to its loop: NewTicker panics at an interval that is not positive
unfoldable pub run : Reconciler → Reconciler
run r = start_ticker r.gc_interval r

-- One poll of the select of Run: which case is taken when both are ready is left open.
abbrev pub prefers_cancel : Bool → Bool → Bool → Reconciler → Reconciler
prefers_cancel true true true r = record r { phase = returned }
prefers_cancel true true false r = enter periodic (record r { tick_pending = false })
prefers_cancel true false choice r = record r { phase = returned }
prefers_cancel false true choice r = enter periodic (record r { tick_pending = false })
prefers_cancel false false choice r = record r { phase = parked }

unfoldable pub poll : Bool → Reconciler → Reconciler
poll choice r = prefers_cancel r.cancelled r.tick_pending choice r

-- What the goroutine of Run does next by itself: the select, or reconcile up to its function and from
-- there on.
abbrev pub advance : Bool → Phase → Reconciler → Reconciler
advance choice polling r = poll choice r
advance choice (entering cause) r = record r {
  triggered = false;
  phase = running cause;
  calls = suc r.calls;
}
advance choice (running cause) r = record r { phase = polling }
advance choice other r = r

unfoldable pub proceed : Bool → Reconciler → Reconciler
proceed choice r = advance choice r.phase r

-- The ticker fires: a parked loop takes the tick, and else the buffer holds one.
abbrev fire : Phase → Reconciler → Reconciler
fire parked r = enter periodic r
fire not_running r = r
fire returned r = r
fire crashed r = r
fire other r = record r { tick_pending = true }

unfoldable pub tick : Reconciler → Reconciler
tick r = fire r.phase r

-- The context is cancelled.
abbrev wake : Phase → Reconciler → Reconciler
wake parked r = record r { phase = returned }
wake other r = r

unfoldable pub cancel : Reconciler → Reconciler
cancel r = wake r.phase (record r { cancelled = true })

-- What can happen; Run is called once.
pub data Event : Type 0 where
  triggered_now : Event
  ticked : Event
  cancelled_now : Event
  started : Event
  proceeded : Bool → Event

abbrev start_once : Phase → Reconciler → Reconciler
start_once not_running r = run r
start_once other r = r

unfoldable pub happen : Event → Reconciler → Reconciler
happen triggered_now r = trigger r
happen ticked r = tick r
happen cancelled_now r = cancel r
happen started r = start_once r.phase r
happen (proceeded choice) r = proceed choice r

unfoldable pub execute : List Event → Reconciler → Reconciler
execute [] r = r
execute (e ∷ es) r = execute es (happen e r)
