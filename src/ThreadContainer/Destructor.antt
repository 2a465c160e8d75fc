-- ===== src/ThreadContainer/Destructor.antt =====
-- The destructor of a container.
use pxp_agent.Base.{
  ℕ, ◌≡◌, refl, String, Bool, true, false, not, List, [], ◌∷◌, arith, if◌then◌else◌, Dict, insert,
}
use pxp_agent.ThreadContainer.{
  ManagedThread, ThreadContainer, sweep, destroy, detach_all, any_joinable, monitor, Event, added,
  completed, woken, started, step, run, new, add, complete, set_done,
}

-- A thread that has not completed is joinable: it is detached only after its completion.
abbrev pub RunningJoinable : Dict ManagedThread → Type 0
RunningJoinable [] = Unit {0}
RunningJoinable ((k, t) ∷ m) = (t.is_done ≡ false → t.joinable ≡ true) × RunningJoinable m

abbrev pub any_running : Dict ManagedThread → Bool
any_running [] = false
any_running ((k, t) ∷ m) = if t.is_done then any_running m else true

sweep-RunningJoinable : (m : Dict ManagedThread) → RunningJoinable m → RunningJoinable (sweep m).0
unfolding sweep
sweep-RunningJoinable [] h = tt
sweep-RunningJoinable ((k, t) ∷ m) h = ground (arith, sweep-RunningJoinable m h.1)

set_done-RunningJoinable :
    (j : String) (m : Dict ManagedThread) → RunningJoinable m → RunningJoinable (set_done j m)
unfolding set_done
set_done-RunningJoinable j [] h = tt
set_done-RunningJoinable j ((k, t) ∷ m) h = ground (arith, set_done-RunningJoinable j m h.1)

insert-RunningJoinable :
    (j : String) (m : Dict ManagedThread) → RunningJoinable m → RunningJoinable (insert j started m)
unfolding insert
insert-RunningJoinable j [] h = (λ _. refl, tt)
insert-RunningJoinable j ((k, t) ∷ m) h = ground (arith, insert-RunningJoinable j m h.1)

step-RunningJoinable :
    (e : Event) (c : ThreadContainer)
    → RunningJoinable c.threads
    → RunningJoinable (step e c).threads
unfolding step add complete monitor
step-RunningJoinable (added k) c h = ground (arith, insert-RunningJoinable k c.threads h)
step-RunningJoinable (completed k) c h = set_done-RunningJoinable k c.threads h
step-RunningJoinable woken c h = ground (arith, sweep-RunningJoinable c.threads h)

run-RunningJoinable :
    (es : List Event) (c : ThreadContainer)
    → RunningJoinable c.threads
    → RunningJoinable (run es c).threads
unfolding run
run-RunningJoinable [] c h = h
run-RunningJoinable (e ∷ es) c h = run-RunningJoinable es (step e c) (step-RunningJoinable e c h)

detach_all_lem :
    (m : Dict ManagedThread)
    → RunningJoinable m
    → ((detach_all m).0 ≡ not (any_running m)) × (any_joinable (detach_all m).1 ≡ any_running m)
unfolding detach_all any_joinable
detach_all_lem [] h = (refl, refl)
detach_all_lem ((k, t) ∷ m) h = ground (arith, detach_all_lem m h.1)

destroy_lem :
    (c : ThreadContainer)
    → RunningJoinable c.threads
    → ((destroy c).terminated ≡ any_running c.threads)
      × ((destroy c).warned ≡ any_running c.threads)
unfolding destroy
destroy_lem c h = ground (arith, detach_all_lem c.threads h)

-- After any sequence of added threads, completions and wake-ups, the destructor ends in
-- std::terminate exactly if some stored thread has not completed, and exactly then it has logged
-- its warning.
pub destroy-run :
    (name : String) (interval threshold : ℕ) (es : List Event)
    → let c = run es (new name interval threshold) in
      ((destroy c).terminated ≡ any_running c.threads)
      × ((destroy c).warned ≡ any_running c.threads)
unfolding new
destroy-run name interval threshold es =
    destroy_lem _ (run-RunningJoinable es (new name interval threshold) tt)
