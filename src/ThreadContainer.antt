-- ===== src/ThreadContainer.antt =====
-- thread_container.cc and thread_container.hpp. Each function that holds `mutex_` from its first
-- statement to its last is one step on the record; the monitoring task is one step for each turn
-- of its loop, from the end of the wait to the next wait.
pub mod Adding
pub mod Sweep
pub mod Lifecycle
pub mod Destructor
use pxp_agent.Base.{
  ℕ, ◌==◌, ◌+◌, ◌%◌, ◌^◌, String, Bool, true, false, not, ◌&&◌, List, [], ◌∷◌, Option, none, some,
  if◌then◌else◌, ltb, is_some, Dict, lookup, insert, length,
}
use pxp_agent.Exception.{Result, ok, err, container_error}

abbrev pub u32 : ℕ → ℕ
u32 n = n % 2 ^ 32

-- The thread object and the flag that its task shares with the container.
pub record ManagedThread : Type 0 where
  pub joinable : Bool
  pub is_done : Bool

-- `monitoring_thread_ptr_`: null, a thread inside the loop, or one that has left it.
pub data Monitor : Type 0 where
  absent running finished : Monitor

pub record ThreadContainer : Type 0 where
  pub check_interval : ℕ
  pub threads_threshold : ℕ
  pub name : String
  pub threads : Dict ManagedThread
  pub monitoring_thread : Monitor
  pub destructing : Bool
  pub is_monitoring : Bool
  pub num_added_threads : ℕ
  pub num_erased_threads : ℕ

abbrev pub threads_monitoring_interval_ms : ℕ
threads_monitoring_interval_ms = 500

abbrev pub default_threads_threshold : ℕ
default_threads_threshold = 10

unfoldable pub new : String → ℕ → ℕ → ThreadContainer
new name interval threshold = record {
  check_interval = interval;
  threads_threshold = threshold;
  name = name;
  threads = [];
  monitoring_thread = absent;
  destructing = false;
  is_monitoring = false;
  num_added_threads = 0;
  num_erased_threads = 0;
}

-- True if the thread has completed; it is then no longer joinable.
unfoldable pub detach_if_completed : ManagedThread → Bool × ManagedThread
detach_if_completed t =
    if t.is_done
    then (true, if t.joinable then record t { joinable = false } else t)
    else (false, t)

unfoldable pub find : String → ThreadContainer → Bool
unfolding lookup
find thread_name c = is_some (lookup thread_name c.threads)

-- A thread that has left the loop is joined at once; `is_monitoring_` is false only then.
start_monitoring : ThreadContainer → ThreadContainer
start_monitoring c =
    if not c.is_monitoring && ltb c.threads_threshold (length c.threads)
    then record c { is_monitoring = true; monitoring_thread = running }
    else c

unfoldable pub add : String → ManagedThread → ThreadContainer → Result ThreadContainer
unfolding find start_monitoring insert
add thread_name task c =
    if find thread_name c
    then err (container_error "thread name is already stored")
    else ok (
        start_monitoring (record c {
          threads = insert thread_name task c.threads;
          num_added_threads = u32 (c.num_added_threads + 1);
        }))

unfoldable pub thread_names : Dict ManagedThread → List String
thread_names [] = []
thread_names ((n, t) ∷ r) = n ∷ thread_names r

unfoldable pub get_thread_names : ThreadContainer → List String
unfolding thread_names
get_thread_names c = thread_names c.threads

unfoldable pub set_name : String → ThreadContainer → ThreadContainer
set_name n c = record c { name = n }

-- The loop over `threads_`: what is kept, and the number of deletions.
unfoldable pub sweep : Dict ManagedThread → Dict ManagedThread × ℕ
unfolding detach_if_completed
sweep [] = ([], 0)
sweep ((n, t) ∷ r) =
    let (kept, deletions) = sweep r in
    let (completed, t') = detach_if_completed t in
    if completed then (kept, deletions + 1) else ((n, t') ∷ kept, deletions)

stop_if_few : ThreadContainer → ThreadContainer
stop_if_few c =
    if ltb (length c.threads) c.threads_threshold
    then record c { is_monitoring = false; monitoring_thread = finished }
    else c

abbrev is_empty {ℓ} : {A : Type ℓ} → List A → Bool
is_empty [] = true
is_empty (x ∷ xs) = false

-- One turn of the loop of `monitoringTask_`, after the wait.
unfoldable pub monitor_turn : ThreadContainer → ThreadContainer
unfolding sweep stop_if_few
monitor_turn c =
    if c.destructing
    then record c { monitoring_thread = finished }
    else if is_empty c.threads
    then record c { monitoring_thread = finished }
    else (let (kept, deletions) = sweep c.threads in
        stop_if_few (record c {
          threads = kept;
          num_erased_threads = u32 (c.num_erased_threads + deletions);
        }))

-- The turn is taken only by a monitoring thread that is in the loop.
unfoldable pub monitor : ThreadContainer → ThreadContainer
unfolding monitor_turn
monitor c = elim c.monitoring_thread [ running ↦ monitor_turn c | absent ↦ c | finished ↦ c ]

-- The end of a task: its last statement sets the shared flag.
unfoldable pub set_done : String → Dict ManagedThread → Dict ManagedThread
set_done k [] = []
set_done k ((n, t) ∷ r) =
    if n == k then (n, record t { is_done = true }) ∷ r else (n, t) ∷ set_done k r

unfoldable pub complete : String → ThreadContainer → ThreadContainer
unfolding set_done
complete k c = record c { threads = set_done k c.threads }

detach_all : Dict ManagedThread → Bool × Dict ManagedThread
unfolding detach_if_completed
detach_all [] = (true, [])
detach_all ((n, t) ∷ r) =
    let (all_detached, rest) = detach_all r in
    let (completed, t') = detach_if_completed t in (completed && all_detached, (n, t') ∷ rest)

any_joinable : Dict ManagedThread → Bool
any_joinable [] = false
any_joinable ((n, t) ∷ r) = if t.joinable then true else any_joinable r

-- The destructor: the warning that not all threads have completed, and whether the thread objects
-- that die with `threads_` call std::terminate, as a joinable one does.
pub record Destroyed : Type 0 where
  pub warned : Bool
  pub terminated : Bool

unfoldable pub destroy : ThreadContainer → Destroyed
unfolding detach_all any_joinable monitor
destroy c =
    let c' = monitor (record c { destructing = true }) in
    let (all_detached, rest) = detach_all c'.threads in
    record { warned = not all_detached; terminated = any_joinable rest }

-- What happens to a container: a caller adds a running thread (and an Error leaves the container as
-- it was), a task ends, the monitoring thread wakes up.
pub data Event : Type 0 where
  added completed : String → Event
  woken : Event

abbrev after : ThreadContainer → Result ThreadContainer → ThreadContainer
after c (ok c') = c'
after c _ = c

abbrev pub started : ManagedThread
started = record { joinable = true; is_done = false }

unfoldable pub step : Event → ThreadContainer → ThreadContainer
unfolding add complete monitor
step (added k) c = after c (add k started c)
step (completed k) c = complete k c
step woken c = monitor c

unfoldable pub run : List Event → ThreadContainer → ThreadContainer
unfolding step
run [] c = c
run (e ∷ es) c = run es (step e c)
