-- ===== src/Parser/Rest.antt =====
-- What the parser leaves, on every list of tokens and whatever the lookahead.
use xacc_ibm.Common.{
  ℕ, zero, suc, ◌≡◌, refl, ap, sym, ◌∙◌, Bool, true, false, ◌||◌, Bool-cases, ◌⊎◌, inl, inr, List,
  [], ◌∷◌, ◌++◌, Result, ok, err, error, undefined, thrown, waiting, out_of_fuel, length, contains,
  ◌==◌, arith, append-nil,
}
use xacc_ibm.Common
use xacc_ibm.Common.Text.{Text}
use xacc_ibm.Parser.{Token, la, Tree, node, to_trees, Runtime, Parser, rule, call, repeat, ◌>>◌}
use xacc_ibm.Parser.Kinds.{t_0}
use xacc_ibm.Parser.Indices.{rule_xaccsrc}
use xacc_ibm.Parser.Leaves.{yields, IsFine}
use xacc_ibm.Parser.Progress.{}
use xacc_ibm.Parser.Ends.{}
use xacc_ibm.Parser.Program.{xacckernel, xaccsrc}
use xacc_ibm.Parser.Total.{good_xaccsrc}

-- What a fine result is.
ends :
    (ts : List Token) (r : Result (List Tree × List Token))
    → IsFine 0 ts r
    → ((trees : List Tree) × (rest : List Token) × (r ≡ ok (trees, rest))
        × (yields trees ++ rest ≡ ts))
      ⊎ ((message : Text) × (r ≡ err (error message)))
ends ts (ok (trees, rest)) (e, l) = inl (trees, rest, refl, e)
ends ts (err (error m)) f = inr (m, refl)
ends ts (err undefined) f = absurd f
ends ts (err thrown) f = absurd f
ends ts (err waiting) f = absurd f
ends ts (err out_of_fuel) f = absurd f

rest_behind :
    (ys xs : List Tree) (s : Result (List Tree × List Token)) (rest : List Token)
    → Common.◌>>=◌ {B = List Tree × List Token} s (λ (zs, rest'). ok (ys ++ zs, rest'))
      ≡ ok (xs, rest)
    → (zs : List Tree) × (s ≡ ok (zs, rest))
rest_behind ys xs (ok (zs, rest')) rest e = (zs, cc)
rest_behind ys xs (err why) rest e = absurd (cc e)

-- What a loop leaves is what its last round leaves.
last_round :
    (r : Result (List Tree × List Token)) (q : List Token → Result (List Tree × List Token))
    (xs : List Tree) (rest : List Token)
    → Common.◌>>=◌ {B = List Tree × List Token} r (λ (ys, rest').
      Common.◌>>=◌ {B = List Tree × List Token} (q rest') (λ (zs, rest''). ok (ys ++ zs, rest'')))
      ≡ ok (xs, rest)
    → (ts : List Token) × (zs : List Tree) × (q ts ≡ ok (zs, rest))
last_round (ok (ys, rest')) q xs rest e =
    let (zs, e') = rest_behind ys xs (q rest') rest e in (rest', zs, e')
last_round (err why) q xs rest e = absurd (cc e)

repeat-rest :
    (R : Runtime) (fuel : ℕ) (kinds : List ℕ) (p : Parser) (ctx : List ℕ) (ts rest : List Token)
    (xs : List Tree)
    → repeat R fuel kinds p ctx ts ≡ ok (xs, rest)
    → contains kinds (la rest) ≡ false
unfolding repeat ◌>>◌
repeat-rest R zero kinds p ctx ts rest xs e = absurd (cc e)
repeat-rest R (suc fuel) kinds p ctx ts rest xs e = elim (Bool-cases (contains kinds (la ts))) [
  | inl b ↦
      let (ts', zs, e') = last_round (p ctx ts) (repeat R fuel kinds p ctx) xs rest (rw b at e) in
      repeat-rest R fuel kinds p ctx ts' rest zs e'
  | inr b ↦ let done = rw b at e in cc (b, done)
]

rule-rest :
    (r : ℕ) (s : Result (List Tree × List Token)) (trees : List Tree) (rest : List Token)
    → Common.◌>>=◌ {B = List Tree × List Token} s
        (λ (xs, rest'). ok (node r (to_trees xs) ∷ [], rest'))
      ≡ ok (trees, rest)
    → (xs : List Tree) × (s ≡ ok (xs, rest))
rule-rest r (ok (xs, rest')) trees rest e = (xs, cc e)
rule-rest r (err why) trees rest e = absurd (cc e)

alone : (b : Bool) → (b || false) ≡ false → b ≡ false
alone true e = e
alone false e = e

module _ (R : Runtime) (ts : List Token) where
  xaccsrc-rest :
      (trees : List Tree) (rest : List Token)
      → xaccsrc R [] ts ≡ ok (trees, rest)
      → contains (t_0 ∷ []) (la rest) ≡ false
  unfolding xaccsrc rule
  xaccsrc-rest trees rest e =
      let loop = repeat R (suc (length ts)) (t_0 ∷ []) (call 90 (xacckernel R)) [] ts in
      let (xs, e') = rule-rest rule_xaccsrc loop trees rest e in
      repeat-rest R (suc (length ts)) (t_0 ∷ []) (call 90 (xacckernel R)) [] ts rest xs e'

  -- For every lookahead and every list of tokens, the parser ends: either with the tree of a source,
  -- whose leaves with the tokens that are left behind are the list of tokens, and no kernel begins
  -- behind, or with the error of the error listener. No loop and no recursive rule runs out of its
  -- fuel.
  pub xaccsrc_ends :
      ((trees : List Tree) × (rest : List Token) × (xaccsrc R [] ts ≡ ok (trees, rest))
        × (yields trees ++ rest ≡ ts)
        × ((t_0 == la rest) ≡ false))
      ⊎ ((message : Text) × (xaccsrc R [] ts ≡ err (error message)))
  xaccsrc_ends =
      elim (ends ts (xaccsrc R [] ts)
        ((good_xaccsrc R {n = suc (length ts)}).is_fine [] ts (omega arith))) [
          | inl (trees, rest, e, l) ↦ inl (trees, rest, e, l, alone _ (xaccsrc-rest trees rest e))
          | inr m ↦ inr m
        ]
