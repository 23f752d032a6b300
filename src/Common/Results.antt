-- ===== src/Common/Results.antt =====
-- What a call of the program can come to. `xacc::error` does not return, so a call that reaches it
-- is the value `err (error message)`; an access that C++ leaves undefined (an index out of range, a
-- JSON value of another type) is `err undefined`; an exception that nothing catches is `err thrown`;
-- a call of the service that is never answered is `err waiting`. `out_of_fuel` has no counterpart in
-- the program: a loop of the model met its bound.
use Prim.Native.Nat.{ℕ}
use mathlib.Core.Path.{◌≡◌, refl}
use mathlib.Core.Logic.{◌⊎◌, inl, inr}
use mathlib.Core.Option.{Option, none, some}
use mathlib.Core.List.{List}

pub data Error : Type 0 where
  error : List ℕ → Error
  undefined thrown waiting out_of_fuel : Error

-- What a call comes to: the reason why it ends the program, or its value.
pub data Result {ℓ} (A : Type ℓ) : Type ℓ where
  err : Error → Result A
  ok : A → Result A

-- An access that is undefined where the value is missing.
abbrev pub at_hand {ℓ} : {A : Type ℓ} → Option A → Result A
at_hand none = err undefined
at_hand (some a) = ok a

abbrev pub map_ok {ℓ κ} : {A : Type ℓ} {B : Type κ} → (A → B) → Result A → Result B
map_ok f (ok a) = ok (f a)
map_ok f (err e) = err e

infixl 5 ◌>>=◌ ◌>>◌
abbrev pub ◌>>=◌ {ℓ κ} : {A : Type ℓ} {B : Type κ} → Result A → (A → Result B) → Result B
err why >>= next = err why
ok value >>= next = next value

abbrev pub ◌>>◌ {ℓ} : {A : Type ℓ} → Result (Unit {0}) → Result A → Result A
first >> second = first >>= λ _. second

pub >>=-eq-ok {ℓ κ} :
    {A : Type ℓ} {B : Type κ} (action : Result A) (next : A → Result B) {value : B}
    → (action >>= next) ≡ ok value
    → (x : A) × (action ≡ ok x) × (next x ≡ ok value)
>>=-eq-ok (err why) next e = cc
>>=-eq-ok (ok x) next e = (x, refl, e)

pub Result-cases {ℓ} :
    {A : Type ℓ} (r : Result A) → ((a : A) × (r ≡ ok a)) ⊎ ((e : Error) × (r ≡ err e))
Result-cases (ok a) = inl (a, refl)
Result-cases (err e) = inr (e, refl)
