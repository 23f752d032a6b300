-- ===== src/Parser/Program.antt =====
-- The rule functions of declarations, statements, kernels and sources of the generated parser
-- (compiler/generated/OQASM2Parser.cpp).
use xacc_ibm.Common.{
  ℕ, zero, suc, List, [], ◌∷◌, err, out_of_fuel, ◌==◌, if◌then◌else◌, length, contains,
}
use xacc_ibm.Parser.{
  Runtime, Parser, look, call, rule, syntax_error, match, match_set, while_in, if_in, choose,
  many_predicted, ◌>>◌,
}
use xacc_ibm.Parser.Kinds.{
  t_0, t_1, t_2, t_3, t_4, t_5, t_6, t_7, t_8, t_9, t_10, t_11, t_12, t_13, t_14, t_15, t_16, t_17,
  token_comment, token_qreg, token_creg, token_gate, token_measure, token_reset, token_barrier,
  token_openqasm, token_opaque, token_id, token_int,
}
use xacc_ibm.Parser.Indices.{
  rule_xaccsrc, rule_xacckernel, rule_typedparam, rule_type, rule_kernelcall, rule_mainprog,
  rule_program, rule_line, rule_statement, rule_comment, rule_include, rule_filename, rule_regdecl,
  rule_gatedecl, rule_gatebody, rule_gateprog, rule_gateline, rule_opaque, rule_opaquename,
  rule_opaquearglist, rule_opaquearg, rule_conditional, rule_action,
}
use xacc_ibm.Parser.Rules.{
  id, real, string, qreg, creg, gate, param, paramlist, qregister, cregister, gatename, gatearglist,
  uop, qop,
}

-- The tokens that a statement begins with, and those that a line begins with.
abbrev pub statement_kinds : List ℕ
statement_kinds =
    t_14 ∷ t_15 ∷ t_16 ∷ token_qreg ∷ token_creg ∷ token_gate ∷ token_measure ∷ token_reset
    ∷ token_barrier ∷ token_opaque ∷ token_id ∷ []

abbrev pub line_kinds : List ℕ
line_kinds = t_11 ∷ token_comment ∷ statement_kinds

module _ (R : Runtime) where
  unfoldable pub comment : Parser
  comment = rule rule_comment (match R token_comment)

  unfoldable pub filename : Parser
  filename = rule rule_filename (call 186 (string R))

  unfoldable pub include : Parser
  include = rule rule_include (do match R t_11; call 183 filename; match R t_10)

  unfoldable pub regdecl : Parser
  regdecl = rule rule_regdecl (
      look λ kind.
        if kind == token_qreg
        then (do call 188 (qreg R); call 189 (qregister R))
        else if kind == token_creg
        then (do call 191 (creg R); call 192 (cregister R))
        else syntax_error R)

  unfoldable pub gateline : Parser
  gateline = rule rule_gateline (do call 256 (uop R); match R t_10)

  unfoldable pub gateprog : Parser
  gateprog = rule rule_gateprog (while_in R (t_14 ∷ t_15 ∷ token_id ∷ []) (call 250 gateline))

  unfoldable pub gatebody : Parser
  gatebody = rule rule_gatebody (do match R t_5; call 247 gateprog; match R t_6)

  unfoldable pub gatedecl : Parser
  gatedecl = rule rule_gatedecl do
    call 214 (gate R)
    call 215 (gatename R)
    call 216 (gatearglist R)
    if_in R (t_5 ∷ []) (call 217 gatebody)

  unfoldable pub opaquename : Parser
  opaquename = rule rule_opaquename (
      choose R 22 (
        call 270 (id R)
        ∷ (do
          call 271 (id R)
          match R t_1
          if_in R (token_id ∷ []) (call 273 (paramlist R))
          match R t_4)
        ∷ []))

  unfoldable pub opaquearg : Parser
  opaquearg =
      rule rule_opaquearg (do call 285 (id R); match R t_12; match R token_int; match R t_13)

  -- `opaquearglist` calls itself behind a comma.
  unfoldable pub opaquearglist_within : ℕ → Parser
  opaquearglist_within zero ctx ts = err out_of_fuel
  opaquearglist_within (suc fuel) ctx ts =
      let rest = match R t_3 >> call 282 (opaquearglist_within fuel) in
      rule rule_opaquearglist (call 280 opaquearg >> if_in R (t_3 ∷ []) rest) ctx ts

  abbrev pub opaquearglist : Parser
  opaquearglist ctx ts = opaquearglist_within (suc (length ts)) ctx ts

  unfoldable pub opaque : Parser
  opaque = rule rule_opaque (do match R token_opaque; call 267 opaquename; call 268 opaquearglist)

  unfoldable pub action : Parser
  action = rule rule_action (call 327 (qop R))

  unfoldable pub conditional : Parser
  conditional = rule rule_conditional do
    match R t_16
    match R t_1
    call 321 (id R)
    match R t_17
    match R token_int
    match R t_4
    call 325 action

  unfoldable pub kernelcall : Parser
  kernelcall = rule rule_kernelcall do
    call 118 (id R)
    match R t_1
    if_in R (token_id ∷ []) (call 120 (param R))
    while_in R (t_3 ∷ []) (do match R t_3; call 124 (param R))
    match R t_4

  unfoldable pub statement : Parser
  statement = rule rule_statement (
      choose R 10 (
        (do call 162 regdecl; match R t_10)
        ∷ call 165 gatedecl
        ∷ (do call 166 opaque; match R t_10)
        ∷ (do call 169 (qop R); match R t_10)
        ∷ (do call 172 conditional; match R t_10)
        ∷ (do call 175 kernelcall; match R t_10)
        ∷ []))

  unfoldable pub line : Parser
  line = rule rule_line (
      look λ kind.
        if contains statement_kinds kind
        then many_predicted R 7 (call 149 statement)
        else if kind == token_comment
        then call 154 comment
        else if kind == t_11
        then many_predicted R 8 (call 155 include)
        else syntax_error R)

  unfoldable pub program : Parser
  program = rule rule_program (do call 144 line; while_in R line_kinds (call 144 line))

  unfoldable pub mainprog : Parser
  mainprog = rule rule_mainprog do
    while_in R (token_comment ∷ []) (call 132 comment)
    match R token_openqasm
    call 139 (real R)
    match R t_10
    if_in R line_kinds (call 141 program)

  unfoldable pub type : Parser
  type = rule rule_type (match_set R (t_7 ∷ t_8 ∷ t_9 ∷ []))

  unfoldable pub typedparam : Parser
  typedparam = rule rule_typedparam (do call 113 type; call 114 (param R))

  unfoldable pub xacckernel : Parser
  xacckernel = rule rule_xacckernel do
    match R t_0
    call 97 (id R)
    match R t_1
    match R t_2
    call 100 (id R)
    while_in R (t_3 ∷ []) (do match R t_3; call 102 typedparam)
    match R t_4
    match R t_5
    call 110 mainprog
    match R t_6

  unfoldable pub xaccsrc : Parser
  xaccsrc = rule rule_xaccsrc (while_in R (t_0 ∷ []) (call 90 xacckernel))
