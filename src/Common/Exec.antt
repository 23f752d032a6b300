-- ===== src/Common/Exec.antt =====
-- Methods that change an object and may fail. A failure ends the program or leaves its behaviour
-- undefined, so no state comes back with it.
use mathlib.Core.Path.{◌≡◌}
use mathlib.Core.Logic.{inl, inr}
use xacc_ibm.Common.Results.{Error, Result, ok, err}
use xacc_ibm.Common.Results

abbrev pub Exec : Type 0 → Type 0 → Type 0
Exec S A = S → Result (A × S)

module _ {S A : Type 0} where
  abbrev pub pure : A → Exec S A
  pure a s = ok (a, s)

  abbrev pub raise : Error → Exec S A
  raise e s = err e

  -- A part that does not touch the object.
  abbrev pub lift : Result A → Exec S A
  lift r s = Results.◌>>=◌ r (λ a. ok (a, s))

  abbrev pub gets : (S → A) → Exec S A
  gets f s = ok (f s, s)

abbrev pub modify : {S : Type 0} → (S → S) → Exec S (Unit {0})
modify f s = ok (tt, f s)

infixl 5 ◌>>=◌ ◌>>◌
abbrev pub ◌>>=◌ : {S A B : Type 0} → Exec S A → (A → Exec S B) → Exec S B
◌>>=◌ m f s = elim (m s) [ ok (a, t) ↦ f a t | err e ↦ err e ]

abbrev pub ◌>>◌ : {S A B : Type 0} → Exec S A → Exec S B → Exec S B
m >> n = m >>= λ _. n

-- Taking a successful sequence of two actions apart.
pub >>=-eq-ok :
    {S A B : Type 0} (m : Exec S A) (f : A → Exec S B) (s : S) {b : B} {u : S}
    → (m >>= f) s ≡ ok (b, u)
    → (a : A) × (t : S) × (m s ≡ ok (a, t)) × (f a t ≡ ok (b, u))
>>=-eq-ok m f s h = elim (Results.Result-cases (m s)) [
  | inl ((a, t), e) ↦ (a, t, e, rw (e, ◌>>=◌) at h)
  | inr (why, e) ↦ absurd (cc (rw (e, ◌>>=◌) at h))
]

-- What a method that succeeds keeps of the object.
abbrev pub Keeps : {S A : Type 0} → (S → Type 0) → Exec S A → Type 0
Keeps {S} {A} I m = (s : S) (r : A) (t : S) → I s → m s ≡ ok (r, t) → I t

pub same_state : {S A : Type 0} (x r : A) (s t : S) → pure x s ≡ ok (r, t) → s ≡ t
same_state x r s t h = cc h

pub pure-Keeps : {S A : Type 0} (I : S → Type 0) (x : A) → Keeps I (pure x)
pure-Keeps I x s r t i h = rw (same_state x r s t h) at i

pub gets-Keeps : {S A : Type 0} (I : S → Type 0) (f : S → A) → Keeps I (gets f)
gets-Keeps I f s r t i h = rw (same_state (f s) r s t h) at i

pub modify-Keeps :
    {S : Type 0} (I : S → Type 0) (f : S → S) → ((s : S) → I s → I (f s)) → Keeps I (modify f)
modify-Keeps I f k s r t i h = rw (same_state tt r (f s) t h) at (k s i)

pub lift-Keeps : {S A : Type 0} (I : S → Type 0) (m : Result A) → Keeps I (lift m)
lift-Keeps I (ok x) s r t i h = rw (same_state x r s t h) at i
lift-Keeps I (err e) s r t i h = absurd (cc h)

pub >>=-Keeps :
    {S A B : Type 0} (I : S → Type 0) (m : Exec S A) (f : A → Exec S B)
    → Keeps I m
    → ((r : A) → Keeps I (f r))
    → Keeps I (m >>= f)
>>=-Keeps I m f km kf s r t i h =
    let (x, u, e, e') = >>=-eq-ok m f s h in kf x u r t (km s x u i e) e'
