-- ===== src/Base/Effect.antt =====
-- Calls that change a state and return or fail. What was written before a failure stays written.
use mathlib.Core.Path.{◌≡◌, refl, ap, subst}
use fake_gpu_operator.Base.Result.{Result, ok, err, panic, Returns, err-ne-ok, panic-ne-ok}

abbrev pub Eff : Type 0 → Type 0 → Type 0
Eff S A = S → S × Result A

module _ {S A B : Type 0} where
  abbrev pub continue : Result A → (A → Eff S B) → Eff S B
  continue (ok a) f s = f a s
  continue (err e) f s = (s, err e)
  continue panic f s = (s, panic)

  infixl 5 ◌>>=◌ ◌>>◌
  abbrev pub ◌>>=◌ : Eff S A → (A → Eff S B) → Eff S B
  ◌>>=◌ m f s = let (s', r) = m s in continue r f s'

  abbrev pub ◌>>◌ : Eff S A → Eff S B → Eff S B
  m >> k = m >>= λ _. k

module _ {S A : Type 0} where
  -- A read of the state.
  abbrev pub reads : (S → Result A) → Eff S A
  reads f s = (s, f s)

  -- A computation that leaves the state alone.
  abbrev pub lift : Result A → Eff S A
  lift r s = (s, r)

-- Inversion of a bind that returned a value.
pub >>=-eq-ok :
    {S A B : Type 0} (m : Eff S A) (f : A → Eff S B) (s : S) {s' : S} {b : B}
    → (m >>= f) s ≡ (s', ok b)
    → (t : S) × (a : A) × (m s ≡ (t, ok a)) × (f a t ≡ (s', ok b))
>>=-eq-ok {S} {A} {B} m f s {s'} {b} h = go (m s) refl
  where
    go : (q : S × Result A) → m s ≡ q → (t : S) × (a : A) × (m s ≡ (t, ok a)) × (f a t ≡ (s', ok b))
    go (t, ok a) e = (t, a, e, subst (λ q. continue q.1 f q.0 ≡ (s', ok b)) e h)
    go (t, err x) e =
        absurd (err-ne-ok (ap (λ q. q.1) (subst (λ q. continue q.1 f q.0 ≡ (s', ok b)) e h)))
    go (t, panic) e =
        absurd (panic-ne-ok (ap (λ q. q.1) (subst (λ q. continue q.1 f q.0 ≡ (s', ok b)) e h)))

-- A bind returns if its parts do.
pub Returns-bind :
    {S A B : Type 0} (m : Eff S A) (f : A → Eff S B) (s : S)
    → Returns (m s).1
    → ((t : S) (a : A) → m s ≡ (t, ok a) → Returns (f a t).1)
    → Returns ((m >>= f) s).1
Returns-bind {S} {A} {B} m f s h k = go (m s) refl h
  where
    go : (q : S × Result A) → m s ≡ q → Returns q.1 → Returns (continue q.1 f q.0).1
    go (t, ok a) e r = k t a e
    go (t, err x) e r = tt
    go (t, panic) e r = r

-- A condition after a bind: `P` after its first part, which is enough if that part fails, and `Q`
-- after its second part from wherever `P` holds.
pub bind_post :
    {S A B : Type 0} (P Q : S → Type 0) (m : Eff S A) (f : A → Eff S B) (s : S)
    → ((t : S) → P t → Q t)
    → P (m s).0
    → ((t : S) (a : A) → P t → Q (f a t).0)
    → Q ((m >>= f) s).0
bind_post {S} {A} {B} P Q m f s weaker first second = go (m s) first
  where
    go : (q : S × Result A) → P q.0 → Q (continue q.1 f q.0).0
    go (t, ok a) h = second t a h
    go (t, err e) h = weaker t h
    go (t, panic) h = weaker t h
