-- ===== src/Common/Dict.antt =====
-- `std::map` as an association list without repeated keys, over a Boolean test of its keys.
-- The program reads its maps by key; where it walks one, the order of the list stands for the order
-- of the keys.
use mathlib.Core.Path.{◌≡◌, refl}
use mathlib.Core.Logic.{◌↔◌}
use mathlib.Core.Bool.{Bool, true}
use mathlib.Core.Option.{Option, none, some}
use mathlib.Core.List.{List, [], ◌∷◌}
use native.Mathlib.Omega.{arith}
use xacc_ibm.Common.Tests.{if◌then◌else◌}

pub record Key {ℓ} (K : Type ℓ) : Type ℓ where
  pub beq : K → K → Bool
  pub beq_iff : (a b : K) → (beq a b ≡ true) ↔ (a ≡ b)

abbrev pub Dict {ℓ κ} : Type ℓ → Type κ → Type (ℓ ⊔ κ)
Dict K V = List (K × V)

module _ {ℓ κ} {K : Type ℓ} {V : Type κ} ⦃e : Key K⦄ where
  -- `m.find(k)`
  unfoldable pub lookup : K → Dict K V → Option V
  lookup k [] = none
  lookup k ((j, v) ∷ m) = if e.beq j k then some v else lookup k m

  -- `m.insert({k, v})`: a key that is there keeps its value.
  unfoldable pub insert : K → V → Dict K V → Dict K V
  insert k v [] = (k, v) ∷ []
  insert k v ((j, w) ∷ m) = if e.beq j k then (j, w) ∷ m else (j, w) ∷ insert k v m

  -- `m[k] = v`
  unfoldable pub assign : K → V → Dict K V → Dict K V
  assign k v [] = (k, v) ∷ []
  assign k v ((j, w) ∷ m) = if e.beq j k then (j, v) ∷ m else (j, w) ∷ assign k v m

  -- `m[k]`, which adds `d`, the default of the value's type, under a missing key.
  unfoldable pub get_or : K → V → Dict K V → V
  get_or k d [] = d
  get_or k d ((j, w) ∷ m) = if e.beq j k then w else get_or k d m

  pub lookup-insert :
      (k j : K) (v : V) (m : Dict K V)
      → lookup j (insert k v m)
        ≡ elim (lookup j m) [ some w ↦ some w | none ↦ if e.beq k j then some v else none ]
  unfolding lookup insert
  lookup-insert k j v [] = refl
  lookup-insert k j v ((i, w) ∷ m) =
      ground (arith, e.beq_iff k j, e.beq_iff i k, e.beq_iff i j, lookup-insert k j v m)

  pub lookup-assign :
      (k j : K) (v : V) (m : Dict K V)
      → lookup j (assign k v m) ≡ (if e.beq k j then some v else lookup j m)
  unfolding lookup assign
  lookup-assign k j v [] = refl
  lookup-assign k j v ((i, w) ∷ m) =
      ground (arith, e.beq_iff k j, e.beq_iff i k, e.beq_iff i j, lookup-assign k j v m)

  pub get_or-lookup :
      (k : K) (d : V) (m : Dict K V) → get_or k d m ≡ elim (lookup k m) [ some w ↦ w | none ↦ d ]
  unfolding get_or lookup
  get_or-lookup k d [] = refl
  get_or-lookup k d ((j, w) ∷ m) = ground (arith, get_or-lookup k d m)

  pub get_or-assign :
      (k j : K) (d v : V) (m : Dict K V)
      → get_or j d (assign k v m) ≡ (if e.beq k j then v else get_or j d m)
  unfolding get_or assign
  get_or-assign k j d v [] = refl
  get_or-assign k j d v ((i, w) ∷ m) =
      ground (arith, e.beq_iff k j, e.beq_iff i k, e.beq_iff i j, get_or-assign k j d v m)

  -- A default that is inserted is read where it was read before.
  pub get_or-insert : (k j : K) (d : V) (m : Dict K V) → get_or j d (insert k d m) ≡ get_or j d m
  unfolding get_or insert
  get_or-insert k j d [] = ground arith
  get_or-insert k j d ((i, w) ∷ m) =
      ground (arith, e.beq_iff k j, e.beq_iff i k, e.beq_iff i j, get_or-insert k j d m)

  -- An insertion under a key that is there changes nothing.
  pub insert_of_present : (k : K) (v w : V) (m : Dict K V) → lookup k m ≡ some w → insert k v m ≡ m
  unfolding insert lookup
  insert_of_present k v w [] h = absurd (cc h)
  insert_of_present k v w ((j, u) ∷ m) h = ground (arith, insert_of_present k v w m)
