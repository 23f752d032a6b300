-- ===== src/Parser/Leaves.antt =====
-- The leaves of what a part of the parser makes, and what is left behind them.
use xacc_ibm.Common.{
  ℕ, zero, suc, ◌+◌, ◌≤◌, ◌<◌, ◌≡◌, refl, sym, ap, ◌∙◌, Bool, true, false, List, [], ◌∷◌, ◌++◌,
  Result, ok, err, Error, error, undefined, thrown, waiting, out_of_fuel, length, length-append,
  append_assoc, append-nil, contains, if◌then◌else◌, ◌==◌, arith,
}
use xacc_ibm.Common
use xacc_ibm.Parser.{Token, Tree, Trees, leaf, node, tree, no_trees, to_trees}

-- The tokens of a tree, from left to right.
unfoldable mutual
  pub leaves : Tree → List Token
  leaves (leaf t) = t ∷ []
  leaves (node r ts) = leaves_all ts

  pub leaves_all : Trees → List Token
  leaves_all no_trees = []
  leaves_all (tree t ts) = leaves t ++ leaves_all ts

unfoldable pub yields : List Tree → List Token
unfolding leaves
yields [] = []
yields (t ∷ ts) = leaves t ++ yields ts

leaves_all-to_trees : (ts : List Tree) → leaves_all (to_trees ts) ≡ yields ts
unfolding leaves yields
leaves_all-to_trees [] = refl
leaves_all-to_trees (t ∷ ts) = rw (leaves_all-to_trees ts)

yields-append : (xs ys : List Tree) → yields (xs ++ ys) ≡ yields xs ++ yields ys
unfolding yields
yields-append [] ys = refl
yields-append (x ∷ xs) ys =
    rw (yields-append xs ys, append_assoc (leaves x) (yields xs) (yields ys))

abbrev pub IsSyntaxError : Error → Type 0
IsSyntaxError (error m) = Unit {0}
IsSyntaxError undefined = ⊥
IsSyntaxError thrown = ⊥
IsSyntaxError waiting = ⊥
IsSyntaxError out_of_fuel = ⊥

-- What a part comes to on `ts`: `k` tokens at least that are the leaves of its trees, with the others
-- left, or a syntax error.
abbrev pub IsFine : ℕ → List Token → Result (List Tree × List Token) → Type 0
IsFine k ts (ok (xs, rest)) = (yields xs ++ rest ≡ ts) × (k ≤ length (yields xs))
IsFine k ts (err e) = IsSyntaxError e

joined :
    (j k : ℕ) (xs : List Tree) (ts rest : List Token) (r : Result (List Tree × List Token))
    → yields xs ++ rest ≡ ts
    → j ≤ length (yields xs)
    → IsFine k rest r
    → IsFine (j + k) ts (Common.◌>>=◌ r λ (ys, rest'). ok (xs ++ ys, rest'))
joined j k xs ts rest (ok (ys, rest')) e l (e', l') = (
  rw (yields-append xs ys)
      (append_assoc (yields xs) (yields ys) rest' ∙ ap (λ t. yields xs ++ t) e' ∙ e),
  rw (yields-append xs ys) (omega (arith, l, l', length-append (yields xs) (yields ys))),
)
joined j k xs ts rest (err e\') e l f = f

-- A part behind another, whatever it is.
pub then-IsFine :
    (j k : ℕ) (ts : List Token) (r : Result (List Tree × List Token))
    (q : List Token → Result (List Tree × List Token))
    → IsFine j ts r
    → ((rest : List Token) → length rest + j ≤ length ts → IsFine k rest (q rest))
    → IsFine
        (j + k)
        ts
        (Common.◌>>=◌ r λ (xs, rest). Common.◌>>=◌ (q rest) λ (ys, rest'). ok (xs ++ ys, rest'))
then-IsFine j k ts (ok (xs, rest)) q (e, l) h =
    joined j k xs ts rest (q rest) e l
      (h rest (omega (arith, l, length-append (yields xs) rest, ap length (sym e))))
then-IsFine j k ts (err (error m)) q f h = tt
then-IsFine j k ts (err undefined) q f h = f
then-IsFine j k ts (err thrown) q f h = f
then-IsFine j k ts (err waiting) q f h = f
then-IsFine j k ts (err out_of_fuel) q f h = f

-- A context with the children.
pub rule-IsFine :
    (k s : ℕ) (ts : List Token) (r : Result (List Tree × List Token))
    → IsFine k ts r
    → IsFine k ts (Common.◌>>=◌ r λ (xs, rest). ok (node s (to_trees xs) ∷ [], rest))
unfolding leaves yields
rule-IsFine k s ts (ok (xs, rest)) (e, l) =
    rw (append-nil (leaves_all (to_trees xs)), leaves_all-to_trees xs) (e, l)
rule-IsFine k s ts (err e\') f = f

pub weaken :
    (j k : ℕ) (ts : List Token) (r : Result (List Tree × List Token))
    → k ≤ j
    → IsFine j ts r
    → IsFine k ts r
weaken j k ts (ok (xs, rest)) l (e, m) = (e, omega (arith, l, m))
weaken j k ts (err e\') l f = f

pub yields-node :
    (r : ℕ) (left right : List Tree)
    → yields (node r (to_trees left) ∷ right) ≡ yields left ++ yields right
unfolding leaves yields
yields-node r left right = rw (leaves_all-to_trees left)

-- What goes on with the trees of a part.
pub onward :
    (ts all : List Token) (r : Result (List Tree × List Token))
    (q : List Tree → List Token → Result (List Tree × List Token))
    → IsFine 1 ts r
    → ((xs : List Tree) (rest : List Token)
        → yields xs ++ rest ≡ ts
        → 1 ≤ length (yields xs)
        → IsFine 1 all (q xs rest))
    → IsFine 1 all (Common.◌>>=◌ r λ (xs, rest). q xs rest)
onward ts all (ok (xs, rest)) q (e, l) h = h xs rest e l
onward ts all (err e') q f h = f
