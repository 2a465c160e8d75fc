-- ===== src/ResultsMutex/Laws.antt =====
-- What the operations of the cache do to `exists` and `get`.
use text.Mathlib.TextPositions.{eq_refl}
use pxp_agent.Base.{
  ℕ, erase, lookup, is_some, Option-cases, Bool-cases, inl, inr, refl, sym, ap, subst, ◌∙◌, eq_iff,
  ◌≡◌, String, true, false, not, ◌&&◌, ◌||◌, arith, if◌then◌else◌, ◌==◌, lookup-insert,
  lookup-erase,
}
use pxp_agent.Exception.{ok, err, mutex_error}
use pxp_agent.ResultsMutex.{ResultsMutex, exists, get, add, remove}

-- `add` throws if the transaction has a mutex, and otherwise caches a new one for it; every other
-- transaction keeps what it had.
pub add_lem :
    (t q : String) (m m' : ResultsMutex)
    → add t m ≡ ok m'
    → (exists t m ≡ false)
      × (get q m' ≡ (if t == q then ok m.next_mutex else get q m))
      × (exists q m' ≡ (t == q || exists q m))
unfolding add get
add_lem t q m m' h = ground (arith, lookup-insert t q m.next_mutex m.mutexes)

-- `remove` throws if the transaction has no mutex, and otherwise takes it away; every other
-- transaction keeps what it had.
pub remove_lem :
    (t q : String) (m m' : ResultsMutex)
    → remove t m ≡ ok m'
    → (exists t m ≡ true)
      × (get q m' ≡ (if t == q then err (mutex_error "does not exists") else get q m))
      × (exists q m' ≡ (not (t == q) && exists q m))
unfolding remove get
remove_lem t q m m' h = ground (arith, lookup-erase t q m.mutexes)

absent :
    (t : String) (m : ResultsMutex)
    → exists t m ≡ false
    → get t m ≡ err (mutex_error "does not exists")
unfolding exists get
absent t m h = elim (Option-cases (lookup t m.mutexes)) [
  | inl e ↦ rw (e, get) refl
  | inr (p, e) ↦ (let b : true ≡ false = sym (ap is_some e) ∙ h in cc)
]

restored :
    (t : String) (m m' m'' : ResultsMutex)
    → add t m ≡ ok m'
    → remove t m' ≡ ok m''
    → (q : String) → get q m'' ≡ get q m
restored t m m' m'' h k q =
    let (_, g, _) = add_lem t q m m' h in
    let (_, r, _) = remove_lem t q m' m'' k in
    elim (Bool-cases (t == q)) [
      | inl e ↦
          r
          ∙ rw e (
              sym (
                absent q m
                  (subst (λ z. exists z m ≡ false) ((eq_iff t q).0 e) (add_lem t t m m' h).0)))
      | inr e ↦ r ∙ rw e (g ∙ rw e refl)
    ]

-- If a mutex is added for a transaction, the transaction had none; the removal then succeeds, and
-- the lookup of every transaction gives again what it gave before the addition.
pub add-remove :
    (t : String) (m m' : ResultsMutex)
    → add t m ≡ ok m'
    → (exists t m ≡ false)
      × ((m'' : ResultsMutex) × (remove t m' ≡ ok m'') × ((q : String) → get q m'' ≡ get q m))
unfolding remove
add-remove t m m' h =
    let (a, g, x) = add_lem t t m m' h in
    let m'' = record m' { mutexes = erase t m'.mutexes } in
    let r : remove t m' ≡ ok m'' = ground (arith, x, eq_refl t) in
    (a, (m'', r, restored t m m' m'' h r))

-- A mutex that is there can be removed.
pub get-remove :
    (t : String) (p : ℕ) (m : ResultsMutex)
    → get t m ≡ ok p
    → (m' : ResultsMutex) × (remove t m ≡ ok m') × (exists t m' ≡ false)
unfolding get remove
get-remove t p m h = (
  record m { mutexes = erase t m.mutexes },
  ground (arith),
  ground (arith, lookup-erase t t m.mutexes, eq_refl t),
)
