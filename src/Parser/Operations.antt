-- ===== src/Parser/Operations.antt =====
-- The rule functions of operations end, whatever the lookahead.
use xacc_ibm.Common.{ℕ, [], ◌∷◌, contains, ◌==◌}
use xacc_ibm.Parser.{Runtime}
use xacc_ibm.Parser.Kinds.{t_14, t_15, token_reset, token_measure, token_barrier, token_id}
use xacc_ibm.Parser.Progress.{
  IsGood, taking, passing, loose, called, in_rule, tested, looked, IsGood-match, optional,
  IsGood-syntax_error, IsGood-choose,
}
use xacc_ibm.Parser.Rules.{
  u_alternative, cx_alternative, user_alternative, uop, measure, reeset, barrier, qop,
}
use xacc_ibm.Parser.Ends.{
  good_cregister, good_gatearg, good_gatearglist, good_gatename, good_qregister, token,
}
use xacc_ibm.Parser.Sums.{good_explist}

module _ (R : Runtime) where
  good_u_alternative : {n : ℕ} → IsGood n 1 (u_alternative R)
  unfolding u_alternative
  good_u_alternative = in_rule _ (
      taking (IsGood-match R _) (
        passing (token R _) (
          passing (optional _ _ (called (good_explist R)))
            (passing (token R _) (loose (called (good_gatearg R)))))))

  good_cx_alternative : {n : ℕ} → IsGood n 1 (cx_alternative R)
  unfolding cx_alternative
  good_cx_alternative = in_rule _ (
      taking (IsGood-match R _) (
        passing (loose (called (good_gatearg R)))
          (passing (token R _) (loose (called (good_gatearg R))))))

  good_user_alternative : {n : ℕ} → IsGood n 1 (user_alternative R)
  unfolding user_alternative
  good_user_alternative = in_rule _ (
      taking (called (good_gatename R)) (
        passing
          (optional _ _
            (taking (IsGood-match R _) (passing (loose (called (good_explist R))) (token R _))))
          (loose (called (good_gatearglist R)))))

  pub good_uop : {n : ℕ} → IsGood n 1 (uop R)
  unfolding uop
  good_uop = looked _ λ kind. tested (kind == t_14) good_u_alternative (
      tested (kind == t_15) good_cx_alternative
        (tested (kind == token_id) good_user_alternative (IsGood-syntax_error R)))

  good_measure : {n : ℕ} → IsGood n 1 (measure R)
  unfolding measure
  good_measure = in_rule _ (
      taking (IsGood-match R _) (
        passing
          (loose (IsGood-choose R _ _ (called (good_gatearg R), (called (good_qregister R), tt))))
          (passing (token R _) (
            loose
              (IsGood-choose R _ _ (called (good_gatearg R), (called (good_cregister R), tt)))))))

  good_reeset : {n : ℕ} → IsGood n 1 (reeset R)
  unfolding reeset
  good_reeset = in_rule _ (
      taking (IsGood-match R _) (
        loose (
          IsGood-choose R _ _ (
            called (good_gatearg R),
            (called (good_qregister R), (called (good_cregister R), tt)),
          ))))

  good_barrier : {n : ℕ} → IsGood n 1 (barrier R)
  unfolding barrier
  good_barrier = in_rule _ (taking (IsGood-match R _) (loose (called (good_gatearglist R))))

  pub good_qop : {n : ℕ} → IsGood n 1 (qop R)
  unfolding qop
  good_qop = in_rule _ (
      looked _ λ kind. tested (contains (t_14 ∷ t_15 ∷ token_id ∷ []) kind) (called good_uop) (
        tested (kind == token_reset) (called good_reeset) (
          tested (kind == token_measure) (called good_measure)
            (tested (kind == token_barrier) (called good_barrier) (IsGood-syntax_error R)))))
