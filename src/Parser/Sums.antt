-- ===== src/Parser/Sums.antt =====
-- The rule functions of expressions end, whatever the lookahead.
use xacc_ibm.Common.{
  ℕ, zero, suc, List, [], ◌∷◌, length, contains, ◌==◌, leb, ◌≤◌, ◌<◌, ◌≡◌, ◌++◌, ap, append_assoc,
  append-nil, length-append, arith,
}
use xacc_ibm.Parser.{Token, Tree, node, to_trees, look, Runtime, Parser}
use xacc_ibm.Parser.Kinds.{t_1, t_18, t_20, token_id, token_real, token_int}
use xacc_ibm.Parser.Indices.{rule_exp}
use xacc_ibm.Parser.Leaves.{yields, IsFine, yields-node, onward}
use xacc_ibm.Parser.Progress.{
  IsGood, syntax_error_of, taking, passing, behind, loose, called, in_rule, tested, looked,
  IsFine-test, syntax_error-IsFine, IsGood-match, IsGood-while_in, IsGood-syntax_error,
}
use xacc_ibm.Parser.Rules.{
  explist, exp, right_side, primary, exp_within, exp_loop, functions, operators,
}
use xacc_ibm.Parser.Ends.{good_id, good_real, good_unaryop, no_fuel, token}

module _ (R : Runtime) where
  -- The right side of an operator, where `sub` is good on one token less.
  good_right_side :
      (n : ℕ) (sub : ℕ → Parser) (precedence : ℕ)
      → ((p : ℕ) → IsGood n 1 (sub p))
      → (os : List (ℕ × ℕ × ℕ × ℕ)) (alt : ℕ)
      → IsGood (suc n) 1 (right_side R sub precedence os alt)
  good_right_side n sub precedence h [] alt = IsGood-syntax_error R
  good_right_side n sub precedence h (o ∷ os) zero = IsGood-syntax_error R
  good_right_side n sub precedence h ((bound, kind, state, next) ∷ os) (suc zero) = record {
    is_fine = λ ctx ts l.
        IsFine-test 1 ts (leb precedence bound) _ _
          ((behind (IsGood-match R kind) (loose (called {state = state} (h next)))).is_fine ctx ts
            l)
          (syntax_error-IsFine R 1 ctx ts);
  }
  good_right_side n sub precedence h (o ∷ os) (suc (suc alt)) =
      good_right_side n sub precedence h os (suc alt)

  good_primary :
      (n : ℕ) (sub : ℕ → Parser)
      → ((p : ℕ) → IsGood n 1 (sub p))
      → (kind : ℕ) → IsGood (suc n) 1 (primary R sub kind)
  unfolding primary
  good_primary n sub h kind = tested (kind == token_real) (called (good_real R)) (
      tested (kind == token_int) (IsGood-match R _) (
        tested (kind == t_18) (IsGood-match R _) (
          tested (kind == token_id) (called (good_id R)) (
            tested (kind == t_20) (behind (IsGood-match R _) (loose (called (h _)))) (
              tested (kind == t_1)
                (behind (IsGood-match R _) (passing (loose (called (h _))) (token R _)))
                (tested (contains (functions R) kind)
                  (behind (called (good_unaryop R))
                    (passing (token R _) (passing (loose (called (h _))) (token R _))))
                  (IsGood-syntax_error R)))))))

  -- The loop behind `left`: the leaves of `left` are kept.
  exp_loop-IsFine :
      (fuel precedence : ℕ)
      → ((n p : ℕ) → n ≤ fuel → IsGood n 1 (exp_within R n p))
      → (left : List Tree) (ctx : List ℕ) (ts all : List Token) → yields left ++ ts ≡ all
      → 1 ≤ length (yields left)
      → length ts < fuel
      → IsFine 1 all (exp_loop R fuel precedence left ctx ts)
  unfolding exp_loop yields
  exp_loop-IsFine zero precedence h left ctx ts all e l m = absurd (omega (arith, m))
  exp_loop-IsFine (suc fuel) precedence h left ctx ts all e l m =
      IsFine-test 1 all (R.predict 31 ctx precedence ts == 1) _ _
        (onward ts all
          (right_side R (exp_within R fuel) precedence (operators R)
            (R.predict 30 ctx precedence ts) ctx ts)
          (λ right rest.
            exp_loop R fuel precedence (node rule_exp (to_trees left) ∷ right) ctx rest)
          ((good_right_side fuel (exp_within R fuel) precedence (λ p. h fuel p (omega arith))
              (operators R) (R.predict 30 ctx precedence ts)).is_fine
            ctx ts m)
          (λ right rest e' l'.
            exp_loop-IsFine fuel precedence (λ n p i. h n p (omega (arith, i)))
              (node rule_exp (to_trees left) ∷ right) ctx rest all
              (rw
                (
                  yields-node rule_exp left right,
                  append_assoc (yields left) (yields right) rest,
                  e',
                )
                e)
              (rw (yields-node rule_exp left right)
                (omega (arith, l, length-append (yields left) (yields right))))
              (omega (arith, m, l', ap length e', length-append (yields right) rest))))
        (IsFine-test 1 all (R.predict 31 ctx precedence ts == 2) _ _
          (rw (yields-node rule_exp left [], append-nil (yields left)) (e, l))
          (syntax_error_of R ctx ts all))

  -- An expression, with the fuel for all its tokens.
  good_exp_within : (fuel n precedence : ℕ) → n ≤ fuel → IsGood n 1 (exp_within R n precedence)
  unfolding exp_within
  good_exp_within fuel zero precedence l = no_fuel R
  good_exp_within zero (suc n) precedence l = absurd (omega (arith, l))
  good_exp_within (suc fuel) (suc n) precedence l = record {
    is_fine = λ ctx ts m.
        onward ts ts (look (primary R (exp_within R n)) ctx ts)
          (λ left rest. exp_loop R n precedence left ctx rest)
          ((looked (primary R (exp_within R n)) (
              good_primary n (exp_within R n)
                (λ p. good_exp_within fuel n p (omega (arith, l))))).is_fine
            ctx ts m)
          (λ left rest e k.
            exp_loop-IsFine n precedence (λ i p j. good_exp_within fuel i p (omega (arith, l, j)))
              left ctx rest ts e k
              (omega (arith, m, k, ap length e, length-append (yields left) rest)));
  }

  pub good_exp : {n : ℕ} (precedence : ℕ) → IsGood n 1 (exp R precedence)
  good_exp {n} precedence = record {
    is_fine = λ ctx ts l.
        (good_exp_within (suc (length ts)) (suc (length ts)) precedence (omega arith)).is_fine ctx
          ts (omega arith);
  }

  pub good_explist : {n : ℕ} → IsGood n 1 (explist R)
  unfolding explist
  good_explist = in_rule _ (
      taking (called (good_exp 0))
        (IsGood-while_in R _ (taking (IsGood-match R _) (loose (called (good_exp 0))))))
