-- ===== src/ResultsMutex.antt =====
-- results_mutex.cc: the cache of the mutexes of the non-blocking transactions. A mutex is named by
-- a number that `add` takes afresh, as make_shared takes a new object.
pub mod Laws
use pxp_agent.Base.{
  ℕ, ◌+◌, String, Bool, none, some, [], if◌then◌else◌, is_some, Dict, lookup, insert, erase,
}
use pxp_agent.Exception.{Result, ok, err, mutex_error}

pub record ResultsMutex : Type 0 where
  pub mutexes : Dict ℕ
  pub next_mutex : ℕ

unfoldable pub reset : ResultsMutex → ResultsMutex
reset m = record m { mutexes = [] }

unfoldable pub exists : String → ResultsMutex → Bool
unfolding lookup
exists t m = is_some (lookup t m.mutexes)

unfoldable pub get : String → ResultsMutex → Result ℕ
unfolding lookup
get t m = elim (lookup t m.mutexes) [ none ↦ err (mutex_error "does not exists") | some p ↦ ok p ]

unfoldable pub add : String → ResultsMutex → Result ResultsMutex
unfolding exists
add t m =
    if exists t m
    then err (mutex_error "already exists")
    else ok (record { mutexes = insert t m.next_mutex m.mutexes; next_mutex = m.next_mutex + 1 })

unfoldable pub remove : String → ResultsMutex → Result ResultsMutex
unfolding exists
remove t m =
    if exists t m
    then ok (record m { mutexes = erase t m.mutexes })
    else err (mutex_error "does not exist")
