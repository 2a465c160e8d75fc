-- ===== src/Exception/Stateful.antt =====
-- Code that changes a state and may throw: the state stays as the throw left it.
use pxp_agent.Base.{◌≡◌, refl}
use pxp_agent.Exception.{Exception, Result, ok, err, aborted}

abbrev pub Stateful : Type 0 → Type 0 → Type 0
Stateful S A = S → Result A × S

module _ {S : Type 0} where
  abbrev pub pure : {A : Type 0} → A → Stateful S A
  pure a s = (ok a, s)

  abbrev pub raise : {A : Type 0} → Exception → Stateful S A
  raise e s = (err e, s)

  -- A call that only reads the state.
  abbrev pub gets : {A : Type 0} → (S → Result A) → Stateful S A
  gets f s = (f s, s)

  abbrev pub after : {A B : Type 0} → Result A × S → (A → Stateful S B) → Result B × S
  after (ok a, s) f = f a s
  after (err e, s) f = (err e, s)
  after (aborted, s) f = (aborted, s)

  infixl 5 ◌>>=◌ ◌>>◌
  abbrev pub ◌>>=◌ : {A B : Type 0} → Stateful S A → (A → Stateful S B) → Stateful S B
  ◌>>=◌ m f s = after (m s) f

  abbrev pub ◌>>◌ : {B : Type 0} → Stateful S (Unit {0}) → Stateful S B → Stateful S B
  m >> k = m >>= λ _. k

  -- What holds after a normal return and after a throw; the call has not aborted.
  abbrev pub Post :
      {A : Type 0} → (A → S → Type 0) → (Exception → S → Type 0) → Result A × S → Type 0
  Post P E (ok a, s) = P a s
  Post P E (err e, s) = E e s
  Post P E (aborted, s) = ⊥

  pub after-Post :
      {A B : Type 0} (P : A → S → Type 0) (Q : B → S → Type 0) (E : Exception → S → Type 0)
      (r : Result A × S) (f : A → Stateful S B)
      → Post P E r
      → ((a : A) (s : S) → P a s → Post Q E (f a s))
      → Post Q E (after r f)
  after-Post P Q E (ok a, s) f h k = k a s h
  after-Post P Q E (err e, s) f h k = h
  after-Post P Q E (aborted, s) f h k = absurd h

  pub Post-mono :
      {A : Type 0} (P Q : A → S → Type 0) (E F : Exception → S → Type 0) (r : Result A × S)
      → Post P E r
      → ((a : A) (s : S) → P a s → Q a s)
      → ((e : Exception) (s : S) → E e s → F e s)
      → Post Q F r
  Post-mono P Q E F (ok a, s) h f g = f a s h
  Post-mono P Q E F (err e, s) h f g = g e s h
  Post-mono P Q E F (aborted, s) h f g = h

  -- A computation that returned did so in each of its parts.
  pub after_ok :
      {A B : Type 0} (r : Result A × S) (f : A → Stateful S B) {b : B} {t : S}
      → after r f ≡ (ok b, t)
      → (a : A) × (s : S) × (r ≡ (ok a, s)) × (f a s ≡ (ok b, t))
  after_ok (ok a, s) f h = (a, s, refl, h)
  after_ok (err e, s) f h = cc
  after_ok (aborted, s) f h = cc

  -- What both parts of a computation keep, the whole keeps.
  pub after-keeps :
      {A B : Type 0} (R : S → Type 0) (r : Result A × S) (f : A → Stateful S B)
      → R r.1
      → ((a : A) (s : S) → R s → R (f a s).1)
      → R (after r f).1
  after-keeps R (ok a, s) f h k = k a s h
  after-keeps R (err e, s) f h k = h
  after-keeps R (aborted, s) f h k = h

  pub Post-state :
      {A : Type 0} (R : S → Type 0) (P : A → S → Type 0) (E : Exception → S → Type 0)
      (r : Result A × S)
      → Post P E r
      → ((a : A) (s : S) → P a s → R s)
      → ((e : Exception) (s : S) → E e s → R s)
      → R r.1
  Post-state R P E (ok a, s) h f g = f a s h
  Post-state R P E (err e, s) h f g = g e s h
  Post-state R P E (aborted, s) h f g = absurd h
