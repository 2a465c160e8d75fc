-- ===== src/ThreadContainer/Lifecycle.antt =====
-- The invariant of a container over every sequence of calls, completions and wake-ups.
use text.Mathlib.TextPositions.{eq_refl}
use pxp_agent.Base.{
  Bool, ℕ, ◌+◌, ◌≤◌, ◌<◌, ◌≡◌, ◌≢◌, inl, inr, String, true, false, List, [], ◌∷◌, arith, length,
  length-insert_new,
}
use pxp_agent.ThreadContainer.{
  u32, ThreadContainer, running, finished, new, add, monitor, sweep, complete, Event, added,
  completed, woken, started, step, run, set_done,
}
use pxp_agent.Exception.{Result-cases, ok}
use pxp_agent.ThreadContainer.Sweep.{
  Distinct, sweep-Distinct, length-sweep, set_done-Distinct, length-set_done, insert-Distinct,
}

-- While `is_monitoring_` is set the monitoring thread is in its loop and the container holds at
-- least the threshold of threads, so that the loop never finds it empty; while it is not set the
-- thread is not in its loop and the container holds at most the threshold.
abbrev pub Watch : Bool → ThreadContainer → Type 0
Watch true c = (c.monitoring_thread ≡ running) × (c.threads_threshold ≤ length c.threads)
Watch false c = (c.monitoring_thread ≢ running) × (length c.threads ≤ c.threads_threshold)

-- The threshold is positive, the names are all different, and the threads that were added are those
-- stored and those erased, in the arithmetic of the 32-bit counters.
pub record Inv (c : ThreadContainer) : Type 0 where
  pub enabled : 0 < c.threads_threshold
  pub alive : c.destructing ≡ false
  pub distinct : Distinct c.threads
  pub counted : u32 (c.num_erased_threads + length c.threads) ≡ c.num_added_threads
  pub watched : Watch c.is_monitoring c

new-Inv :
    (name : String) (interval threshold : ℕ) → 0 < threshold → Inv (new name interval threshold)
unfolding new
new-Inv name interval threshold h = ground arith

complete-Inv : (k : String) (c : ThreadContainer) → Inv c → Inv (complete k c)
unfolding complete
complete-Inv k c v =
    ground (arith, set_done-Distinct k c.threads v.distinct, length-set_done k c.threads)

-- `sweep` stays shut: the lemmas about it are enough.
monitor-Inv : (c : ThreadContainer) → Inv c → Inv (monitor c)
unfolding monitor
monitor-Inv c v = ground (arith, sweep-Distinct c.threads v.distinct, length-sweep c.threads)

add-Inv : (k : String) (c d : ThreadContainer) → Inv c → add k started c ≡ ok d → Inv d
unfolding add
add-Inv k c d v e =
    ground (arith, insert-Distinct k started c.threads, length-insert_new k started c.threads)

step-Inv : (e : Event) (c : ThreadContainer) → Inv c → Inv (step e c)
unfolding step
step-Inv (added k) c v = elim (Result-cases (add k started c)) [
  | inl (d, e) ↦ rw (e, step) (add-Inv k c d v e)
  | inr (inl (x, e)) ↦ rw (e, step) v
  | inr (inr e) ↦ rw (e, step) v
]
step-Inv (completed k) c v = complete-Inv k c v
step-Inv woken c v = monitor-Inv c v

run-Inv : (es : List Event) (c : ThreadContainer) → Inv c → Inv (run es c)
unfolding run
run-Inv [] c v = v
run-Inv (e ∷ es) c v = run-Inv es (step e c) (step-Inv e c v)

-- Whatever the sequence of added threads, completed tasks and wake-ups of the monitoring thread, a
-- container made with a positive threshold satisfies the invariant.
pub run-new-Inv :
    (name : String) (interval threshold : ℕ) (es : List Event)
    → 0 < threshold
    → Inv (run es (new name interval threshold))
run-new-Inv name interval threshold es h = run-Inv es _ (new-Inv name interval threshold h)

-- Once the monitoring thread has ended with `is_monitoring_` set, nothing starts it again.
stalled-step :
    (e : Event) (c : ThreadContainer)
    → c.is_monitoring ≡ true
    → c.monitoring_thread ≡ finished
    → ((step e c).is_monitoring ≡ true) × ((step e c).monitoring_thread ≡ finished)
unfolding step add complete monitor
stalled-step (added k) c h m = ground arith
stalled-step (completed k) c h m = ground arith
stalled-step woken c h m = ground arith

stalled-run :
    (es : List Event) (c : ThreadContainer)
    → c.is_monitoring ≡ true
    → c.monitoring_thread ≡ finished
    → ((run es c).is_monitoring ≡ true) × ((run es c).monitoring_thread ≡ finished)
unfolding run
stalled-run [] c h m = (h, m)
stalled-run (e ∷ es) c h m = let (h', m') = stalled-step e c h m in stalled-run es (step e c) h' m'

first_stall :
    (name k : String) (interval : ℕ)
    → let c = run (added k ∷ completed k ∷ woken ∷ woken ∷ []) (new name interval 0) in
      (c.is_monitoring ≡ true) × (c.monitoring_thread ≡ finished)
unfolding run step new add monitor complete sweep set_done
first_stall name k interval = ground (arith, eq_refl k)

-- A container with threshold 0: once a first thread has been added, has completed and was deleted,
-- the next wake-up ends the monitoring thread with `is_monitoring_` still set, and no later call,
-- completion or wake-up starts another monitoring thread.
pub zero_threshold_stalls :
    (name k : String) (interval : ℕ) (es : List Event)
    → let c = run es (run (added k ∷ completed k ∷ woken ∷ woken ∷ []) (new name interval 0)) in
      (c.is_monitoring ≡ true) × (c.monitoring_thread ≡ finished)
zero_threshold_stalls name k interval es =
    let (h, m) = first_stall name k interval in stalled-run es _ h m
