-- ===== src/ThreadContainer/Adding.antt =====
-- What `add` does to `find`.
use pxp_agent.Base.{
  String, false, ◌||◌, ◌==◌, ◌≡◌, arith, lookup-insert, ◌+◌, not, ◌&&◌, refl, ap, ◌∙◌, if_elim, ltb,
  length, is_some, lookup, insert,
}
use pxp_agent.Exception.{ok}
use pxp_agent.ThreadContainer.{ThreadContainer, ManagedThread, add, find, start_monitoring, u32}

-- The monitoring thread is all that `start_monitoring` touches.
start_monitoring_lem :
    (c : ThreadContainer)
    → ((start_monitoring c).threads ≡ c.threads)
      × ((start_monitoring c).num_added_threads ≡ c.num_added_threads)
unfolding start_monitoring
start_monitoring_lem c =
    if_elim {A = ThreadContainer}
      (λ d. (d.threads ≡ c.threads) × (d.num_added_threads ≡ c.num_added_threads))
      (not c.is_monitoring && ltb c.threads_threshold (length c.threads)) (refl, refl) (refl, refl)

-- If no thread has the name, `add` succeeds: the container then has a thread with this name beside
-- those that it had, and the counter of added threads has gone up by one, modulo 2^32.
pub add-find :
    (t : String) (k : ManagedThread) (c : ThreadContainer)
    → find t c ≡ false
    → (c' : ThreadContainer) × (add t k c ≡ ok c')
      × ((q : String) → find q c' ≡ (t == q || find q c))
      × (c'.num_added_threads ≡ u32 (c.num_added_threads + 1))
unfolding add find
add-find t k c h =
    let c₁ = record c {
      threads = insert t k c.threads;
      num_added_threads = u32 (c.num_added_threads + 1);
    } in
    let (e, n) = start_monitoring_lem c₁ in
    (
      start_monitoring c₁,
      rw h refl,
      λ q. ap (λ d. is_some (lookup q d)) e ∙ ground (arith, lookup-insert t q k c.threads),
      n,
    )
