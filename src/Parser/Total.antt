-- ===== src/Parser/Total.antt =====
-- The rule functions of declarations, statements and kernels end, whatever the lookahead.
use xacc_ibm.Common.{ℕ, zero, suc, length, contains, ◌==◌, arith}
use xacc_ibm.Parser.{Runtime}
use xacc_ibm.Parser.Kinds.{t_11, token_qreg, token_creg, token_comment}
use xacc_ibm.Parser.Progress.{
  IsGood, taking, passing, before, behind, loose, called, in_rule, tested, looked, IsGood-match,
  IsGood-match_set, optional, IsGood-while_in, IsGood-syntax_error, IsGood-many_predicted,
  IsGood-choose,
}
use xacc_ibm.Parser.Ends.{
  no_fuel, good_id, good_real, good_string, good_qreg, good_creg, good_gate, good_param,
  good_paramlist, token, good_qregister, good_cregister, good_gatename, good_gatearglist,
}
use xacc_ibm.Parser.Program.{
  comment, filename, include, regdecl, gateline, gateprog, gatebody, gatedecl, opaquename,
  opaquearg, opaquearglist_within, opaquearglist, opaque, action, conditional, kernelcall,
  statement, statement_kinds, line, program, mainprog, type, typedparam, xacckernel, xaccsrc,
}
use xacc_ibm.Parser.Operations.{good_uop, good_qop}

module _ (R : Runtime) where
  good_comment : {n : ℕ} → IsGood n 1 (comment R)
  unfolding comment
  good_comment = in_rule _ (IsGood-match R _)

  good_filename : {n : ℕ} → IsGood n 1 (filename R)
  unfolding filename
  good_filename = in_rule _ (called (good_string R))

  good_include : {n : ℕ} → IsGood n 1 (include R)
  unfolding include
  good_include =
      in_rule _ (taking (IsGood-match R _) (passing (loose (called good_filename)) (token R _)))

  good_regdecl : {n : ℕ} → IsGood n 1 (regdecl R)
  unfolding regdecl
  good_regdecl = in_rule _ (
      looked _ λ kind.
        tested (kind == token_qreg)
          (taking (called (good_qreg R)) (loose (called (good_qregister R))))
          (tested (kind == token_creg)
            (taking (called (good_creg R)) (loose (called (good_cregister R))))
            (IsGood-syntax_error R)))

  good_gateline : {n : ℕ} → IsGood n 1 (gateline R)
  unfolding gateline
  good_gateline = in_rule _ (taking (called (good_uop R)) (token R _))

  good_gateprog : {n : ℕ} → IsGood n 0 (gateprog R)
  unfolding gateprog
  good_gateprog = in_rule _ (IsGood-while_in R _ (called good_gateline))

  good_gatebody : {n : ℕ} → IsGood n 1 (gatebody R)
  unfolding gatebody
  good_gatebody = in_rule _ (taking (IsGood-match R _) (passing (called good_gateprog) (token R _)))

  good_gatedecl : {n : ℕ} → IsGood n 1 (gatedecl R)
  unfolding gatedecl
  good_gatedecl = in_rule _ (
      taking (called (good_gate R)) (
        passing (loose (called (good_gatename R)))
          (passing (loose (called (good_gatearglist R))) (optional _ _ (called good_gatebody)))))

  good_opaquename : {n : ℕ} → IsGood n 1 (opaquename R)
  unfolding opaquename
  good_opaquename = in_rule _ (
      IsGood-choose R _ _ (
        called (good_id R),
        (
          taking (called (good_id R)) (
              passing (token R _) (passing (optional _ _ (called (good_paramlist R))) (token R _))),
          tt,
        ),
      ))

  good_opaquearg : {n : ℕ} → IsGood n 1 (opaquearg R)
  unfolding opaquearg
  good_opaquearg =
      in_rule _
        (taking (called (good_id R)) (passing (token R _) (passing (token R _) (token R _))))

  good_opaquearglist_within : (fuel : ℕ) → IsGood fuel 1 (opaquearglist_within R fuel)
  unfolding opaquearglist_within
  good_opaquearglist_within zero = no_fuel R
  good_opaquearglist_within (suc fuel) = in_rule _ (
      behind (called good_opaquearg) (
        optional _ _ (taking (IsGood-match R _) (loose (called (good_opaquearglist_within fuel))))))

  good_opaquearglist : {n : ℕ} → IsGood n 1 (opaquearglist R)
  good_opaquearglist = record {
    is_fine =
        λ ctx ts l. (good_opaquearglist_within (suc (length ts))).is_fine ctx ts (omega arith);
  }

  good_opaque : {n : ℕ} → IsGood n 1 (opaque R)
  unfolding opaque
  good_opaque = in_rule _ (
      taking (IsGood-match R _)
        (passing (loose (called good_opaquename)) (loose (called good_opaquearglist))))

  good_action : {n : ℕ} → IsGood n 1 (action R)
  unfolding action
  good_action = in_rule _ (called (good_qop R))

  good_conditional : {n : ℕ} → IsGood n 1 (conditional R)
  unfolding conditional
  good_conditional = in_rule _ (
      taking (IsGood-match R _) (
        passing (token R _) (
          passing (loose (called (good_id R))) (
            passing (token R _)
              (passing (token R _) (passing (token R _) (loose (called good_action))))))))

  good_kernelcall : {n : ℕ} → IsGood n 1 (kernelcall R)
  unfolding kernelcall
  good_kernelcall = in_rule _ (
      taking (called (good_id R)) (
        passing (token R _) (
          passing (optional _ _ (called (good_param R))) (
            passing
              (IsGood-while_in R _ (taking (IsGood-match R _) (loose (called (good_param R)))))
              (token R _)))))

  good_statement : {n : ℕ} → IsGood n 1 (statement R)
  unfolding statement
  good_statement = in_rule _ (
      IsGood-choose R _ _ (
        taking (called good_regdecl) (token R _),
        (
          called good_gatedecl,
          (
            taking (called good_opaque) (token R _),
            (
              taking (called (good_qop R)) (token R _),
              (
                taking (called good_conditional) (token R _),
                (taking (called good_kernelcall) (token R _), tt),
              ),
            ),
          ),
        ),
      ))

  good_line : {n : ℕ} → IsGood n 1 (line R)
  unfolding line
  good_line = in_rule _ (
      looked _ λ kind.
        tested (contains statement_kinds kind) (IsGood-many_predicted R _ (called good_statement)) (
          tested (kind == token_comment) (called good_comment) (
            tested (kind == t_11) (IsGood-many_predicted R _ (called good_include))
              (IsGood-syntax_error R))))

  good_program : {n : ℕ} → IsGood n 1 (program R)
  unfolding program
  good_program = in_rule _ (taking (called good_line) (IsGood-while_in R _ (called good_line)))

  good_mainprog : {n : ℕ} → IsGood n 1 (mainprog R)
  unfolding mainprog
  good_mainprog = in_rule _ (
      before (IsGood-while_in R _ (called good_comment)) (
        taking (IsGood-match R _) (
          passing (loose (called (good_real R)))
            (passing (token R _) (optional _ _ (called good_program))))))

  good_typedparam : {n : ℕ} → IsGood n 1 (typedparam R)
  unfolding typedparam type
  good_typedparam =
      in_rule _ (taking (called (in_rule _ (IsGood-match_set R _))) (loose (called (good_param R))))

  good_xacckernel : {n : ℕ} → IsGood n 1 (xacckernel R)
  unfolding xacckernel
  good_xacckernel = in_rule _ (
      taking (IsGood-match R _) (
        passing (loose (called (good_id R))) (
          passing (token R _) (
            passing (token R _) (
              passing (loose (called (good_id R))) (
                passing
                  (IsGood-while_in R _ (taking (IsGood-match R _) (loose (called good_typedparam))))
                  (passing (token R _) (
                    passing (token R _) (passing (loose (called good_mainprog)) (token R _))))))))))

  pub good_xaccsrc : {n : ℕ} → IsGood n 0 (xaccsrc R)
  unfolding xaccsrc
  good_xaccsrc = in_rule _ (IsGood-while_in R _ (called good_xacckernel))
