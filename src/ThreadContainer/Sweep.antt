-- ===== src/ThreadContainer/Sweep.antt =====
-- What the monitoring task deletes from `threads_`, and what it leaves there.
use pxp_agent.Base.{
  ◌+◌, ◌≡◌, refl, String, false, [], ◌∷◌, Option, none, some, arith, eq_iff, if◌then◌else◌, ◌==◌,
  Dict, lookup, insert, length,
}
use pxp_agent.ThreadContainer.{ManagedThread, sweep, set_done}

-- The names are all different.
abbrev pub Distinct : Dict ManagedThread → Type 0
Distinct [] = Unit {0}
Distinct ((k, t) ∷ m) = (lookup k m ≡ none) × Distinct m

-- A stored thread, unless it has completed.
abbrev pub unless_done : Option ManagedThread → Option ManagedThread
unless_done none = none
unless_done (some t) = if t.is_done then none else some t

-- A name that is not stored is not stored after the loop either.
pub lookup-sweep-none :
    (k : String) (m : Dict ManagedThread) → lookup k m ≡ none → lookup k (sweep m).0 ≡ none
unfolding lookup sweep
lookup-sweep-none k [] h = refl
lookup-sweep-none k ((j, t) ∷ m) h = ground (arith, lookup-sweep-none k m)

-- In a map with distinct names, the loop over the stored threads deletes the completed threads and
-- no other, and leaves the others as they were.
pub lookup-sweep :
    (k : String) (m : Dict ManagedThread)
    → Distinct m
    → lookup k (sweep m).0 ≡ unless_done (lookup k m)
unfolding lookup sweep
lookup-sweep k [] d = refl
lookup-sweep k ((j, t) ∷ m) d =
    ground (arith, lookup-sweep k m d.1, lookup-sweep-none k m, eq_iff j k)

pub sweep-Distinct : (m : Dict ManagedThread) → Distinct m → Distinct (sweep m).0
unfolding sweep
sweep-Distinct [] d = tt
sweep-Distinct ((k, t) ∷ m) d = ground (arith, sweep-Distinct m d.1, lookup-sweep-none k m d.0)

-- The number of deletions is what the container loses.
pub length-sweep : (m : Dict ManagedThread) → length (sweep m).0 + (sweep m).1 ≡ length m
unfolding sweep
length-sweep [] = omega arith
length-sweep ((k, t) ∷ m) = ground (arith, length-sweep m)

pub lookup-set_done-none :
    (k j : String) (m : Dict ManagedThread) → lookup k m ≡ none → lookup k (set_done j m) ≡ none
unfolding lookup set_done
lookup-set_done-none k j [] h = refl
lookup-set_done-none k j ((i, t) ∷ m) h = ground (arith, lookup-set_done-none k j m)

pub set_done-Distinct : (j : String) (m : Dict ManagedThread) → Distinct m → Distinct (set_done j m)
unfolding set_done
set_done-Distinct j [] d = tt
set_done-Distinct j ((k, t) ∷ m) d =
    ground (arith, set_done-Distinct j m d.1, lookup-set_done-none k j m d.0)

pub length-set_done : (j : String) (m : Dict ManagedThread) → length (set_done j m) ≡ length m
unfolding set_done
length-set_done j [] = refl
length-set_done j ((k, t) ∷ m) = ground (arith, length-set_done j m)

lookup-insert-none :
    (k j : String) (t : ManagedThread) (m : Dict ManagedThread)
    → (k == j) ≡ false
    → lookup j m ≡ none
    → lookup j (insert k t m) ≡ none
unfolding lookup insert
lookup-insert-none k j t [] e h = ground arith
lookup-insert-none k j t ((i, u) ∷ m) e h = ground (arith, lookup-insert-none k j t m)

pub insert-Distinct :
    (k : String) (t : ManagedThread) (m : Dict ManagedThread)
    → lookup k m ≡ none
    → Distinct m
    → Distinct (insert k t m)
unfolding lookup insert
insert-Distinct k t [] h d = (refl, tt)
insert-Distinct k t ((i, u) ∷ m) h d =
    ground (arith, insert-Distinct k t m, lookup-insert-none k i t m, eq_iff k i, eq_iff i k)
