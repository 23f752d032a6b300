-- ===== src/Parser/Ends.antt =====
-- The rule functions of names and arguments end, whatever the lookahead.
use xacc_ibm.Common.{ℕ, zero, suc, length, arith}
use xacc_ibm.Parser.{Runtime, Parser, match}
use xacc_ibm.Parser.Kinds.{}
use xacc_ibm.Parser.Progress.{
  IsGood, taking, passing, behind, loose, called, in_rule, IsGood-match, IsGood-match_set, optional,
  IsGood-while_in, IsGood-choose,
}
use xacc_ibm.Parser.Rules.{
  id, param, paramlist_within, paramlist, registersize, qregister, cregister, gatename, gatearg,
  gatearglist, unaryop, real, string, qreg, creg, gate,
}

module _ (R : Runtime) where
  pub no_fuel : {k : ℕ} {p : Parser} → IsGood 0 k p
  no_fuel = record { is_fine = λ ctx ts l. absurd (omega (arith, l)) }

  pub good_id : {n : ℕ} → IsGood n 1 (id R)
  unfolding id
  good_id = in_rule _ (IsGood-match R _)

  pub good_real : {n : ℕ} → IsGood n 1 (real R)
  unfolding real
  good_real = in_rule _ (IsGood-match R _)

  pub good_string : {n : ℕ} → IsGood n 1 (string R)
  unfolding string
  good_string = in_rule _ (IsGood-match R _)

  pub good_qreg : {n : ℕ} → IsGood n 1 (qreg R)
  unfolding qreg
  good_qreg = in_rule _ (IsGood-match R _)

  pub good_creg : {n : ℕ} → IsGood n 1 (creg R)
  unfolding creg
  good_creg = in_rule _ (IsGood-match R _)

  pub good_gate : {n : ℕ} → IsGood n 1 (gate R)
  unfolding gate
  good_gate = in_rule _ (IsGood-match R _)

  pub good_param : {n : ℕ} → IsGood n 1 (param R)
  unfolding param
  good_param = in_rule _ (called good_id)

  pub good_paramlist_within : (fuel : ℕ) → IsGood fuel 1 (paramlist_within R fuel)
  unfolding paramlist_within
  good_paramlist_within zero = no_fuel
  good_paramlist_within (suc fuel) = in_rule _ (
      behind (called good_param)
        (optional _ _ (taking (IsGood-match R _) (loose (called (good_paramlist_within fuel))))))

  pub good_paramlist : {n : ℕ} → IsGood n 1 (paramlist R)
  good_paramlist = record {
    is_fine = λ ctx ts l. (good_paramlist_within (suc (length ts))).is_fine ctx ts (omega arith);
  }

  pub good_registersize : {n : ℕ} → IsGood n 1 (registersize R)
  unfolding registersize
  good_registersize = in_rule _ (IsGood-match R _)

  -- `match`, whatever follows.
  pub token : {n : ℕ} (kind : ℕ) → IsGood n 0 (match R kind)
  token kind = loose (IsGood-match R kind)

  pub good_qregister : {n : ℕ} → IsGood n 1 (qregister R)
  unfolding qregister
  good_qregister = in_rule _ (
      IsGood-choose R _ _ (
        taking (called good_id)
            (passing (token _) (passing (loose (called good_registersize)) (token _))),
        (called good_id, tt),
      ))

  pub good_cregister : {n : ℕ} → IsGood n 1 (cregister R)
  unfolding cregister
  good_cregister = in_rule _ (
      IsGood-choose R _ _ (
        taking (called good_id)
            (passing (token _) (passing (loose (called good_registersize)) (token _))),
        (called good_id, tt),
      ))

  pub good_gatename : {n : ℕ} → IsGood n 1 (gatename R)
  unfolding gatename
  good_gatename = in_rule _ (
      IsGood-choose R _ _ (
        called good_id,
        (
          taking (called good_id)
              (passing (token _) (passing (optional _ _ (called good_paramlist)) (token _))),
          tt,
        ),
      ))

  pub good_gatearg : {n : ℕ} → IsGood n 1 (gatearg R)
  unfolding gatearg
  good_gatearg = in_rule _ (
      IsGood-choose R _ _ (
        taking (called good_id) (passing (token _) (passing (token _) (token _))),
        (called good_id, tt),
      ))

  pub good_gatearglist : {n : ℕ} → IsGood n 1 (gatearglist R)
  unfolding gatearglist
  good_gatearglist = in_rule _ (
      taking (called good_gatearg)
        (IsGood-while_in R _ (taking (IsGood-match R _) (loose (called good_gatearg)))))

  pub good_unaryop : {n : ℕ} → IsGood n 1 (unaryop R)
  unfolding unaryop
  good_unaryop = in_rule _ (IsGood-match_set R _)
