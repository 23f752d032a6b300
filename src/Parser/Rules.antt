-- ===== src/Parser/Rules.antt =====
-- The rule functions of names, arguments, expressions and operations of the generated parser
-- (compiler/generated/OQASM2Parser.cpp). The number of a call is the state that is set before it.
use xacc_ibm.Common.{
  ℕ, zero, suc, List, [], ◌∷◌, Result, ok, err, out_of_fuel, ◌==◌, leb, if◌then◌else◌, length,
  contains,
}
use xacc_ibm.Common
use xacc_ibm.Parser.{
  Tree, to_trees, node, Runtime, Parser, look, call, rule, syntax_error, match, match_set, while_in,
  if_in, choose, ◌>>◌,
}
use xacc_ibm.Parser.Kinds.{
  t_1, t_3, t_4, t_12, t_13, t_14, t_15, t_18, t_19, t_20, t_21, t_22, t_23, t_24, t_25, t_26, t_27,
  t_28, t_29, t_30, token_qreg, token_creg, token_gate, token_measure, token_reset, token_barrier,
  token_id, token_real, token_int, token_string,
}
use xacc_ibm.Parser.Indices.{
  rule_id, rule_real, rule_string, rule_param, rule_paramlist, rule_gatename, rule_gatearg,
  rule_gatearglist, rule_registersize, rule_qregister, rule_cregister, rule_unaryop, rule_exp,
  rule_explist, rule_u, rule_cx, rule_user_def_gate, rule_measure, rule_reeset, rule_barrier,
  rule_qop, rule_qreg, rule_creg, rule_gate,
}

module _ (R : Runtime) where
  -- `id`, `real`, `string`, `qreg`, `creg`, `gate`
  unfoldable pub id : Parser
  id = rule rule_id (match R token_id)

  unfoldable pub real : Parser
  real = rule rule_real (match R token_real)

  unfoldable pub string : Parser
  string = rule rule_string (match R token_string)

  unfoldable pub qreg : Parser
  qreg = rule rule_qreg (match R token_qreg)

  unfoldable pub creg : Parser
  creg = rule rule_creg (match R token_creg)

  unfoldable pub gate : Parser
  gate = rule rule_gate (match R token_gate)

  unfoldable pub param : Parser
  unfolding id
  param = rule rule_param (call 264 id)

  -- `paramlist` calls itself behind a comma.
  unfoldable pub paramlist_within : ℕ → Parser
  paramlist_within zero ctx ts = err out_of_fuel
  paramlist_within (suc fuel) ctx ts =
      let rest = match R t_3 >> call 261 (paramlist_within fuel) in
      rule rule_paramlist (call 259 param >> if_in R (t_3 ∷ []) rest) ctx ts

  abbrev pub paramlist : Parser
  paramlist ctx ts = paramlist_within (suc (length ts)) ctx ts

  unfoldable pub registersize : Parser
  registersize = rule rule_registersize (match R token_int)

  unfoldable pub qregister : Parser
  qregister = rule rule_qregister (
      choose R 12
        ((do call 196 id; match R t_12; call 198 registersize; match R t_13) ∷ call 201 id ∷ []))

  unfoldable pub cregister : Parser
  cregister = rule rule_cregister (
      choose R 13
        ((do call 204 id; match R t_12; call 206 registersize; match R t_13) ∷ call 209 id ∷ []))

  unfoldable pub gatename : Parser
  gatename = rule rule_gatename (
      choose R 16 (
        call 220 id
        ∷ (do call 221 id; match R t_1; if_in R (token_id ∷ []) (call 223 paramlist); match R t_4)
        ∷ []))

  unfoldable pub gatearg : Parser
  gatearg = rule rule_gatearg (
      choose R 18
        ((do call 238 id; match R t_12; match R token_int; match R t_13) ∷ call 243 id ∷ []))

  unfoldable pub gatearglist : Parser
  gatearglist =
      rule rule_gatearglist
        do call 230 gatearg; while_in R (t_3 ∷ []) (do match R t_3; call 232 gatearg)

  abbrev pub functions : List ℕ
  functions = t_24 ∷ t_25 ∷ t_26 ∷ t_27 ∷ t_28 ∷ t_29 ∷ []

  unfoldable pub unaryop : Parser
  unaryop = rule rule_unaryop (match_set R functions)

  -- The binary operators: `precpred`'s bound, the token, the state and the precedence of the right side.
  abbrev pub operators : List (ℕ × ℕ × ℕ × ℕ)
  operators =
      (8, t_19, 357, 9)
      ∷ (7, t_20, 360, 8)
      ∷ (6, t_21, 363, 7)
      ∷ (5, t_22, 366, 6)
      ∷ (3, t_23, 369, 4)
      ∷ []

  -- The alternative of a decision between the operators.
  abbrev pub right_side : (ℕ → Parser) → ℕ → List (ℕ × ℕ × ℕ × ℕ) → ℕ → Parser
  right_side sub precedence [] n ctx ts = syntax_error R ctx ts
  right_side sub precedence (o ∷ os) zero ctx ts = syntax_error R ctx ts
  right_side sub precedence ((bound, kind, state, next) ∷ os) (suc zero) ctx ts =
      let right = (match R kind >> call state (sub next)) ctx ts in
      if leb precedence bound then right else syntax_error R ctx ts
  right_side sub precedence (o ∷ os) (suc (suc n)) ctx ts =
      right_side sub precedence os (suc n) ctx ts

  -- What an expression begins with: `sub` is `exp`.
  unfoldable pub primary : (ℕ → Parser) → ℕ → Parser
  primary sub kind =
      if kind == token_real
      then call 338 real
      else if kind == token_int
      then match R token_int
      else if kind == t_18
      then match R t_18
      else if kind == token_id
      then call 341 id
      else if kind == t_20
      then (do match R t_20; call 343 (sub 4))
      else if kind == t_1
      then (do match R t_1; call 345 (sub 0); match R t_4)
      else if contains functions kind
      then (do call 348 unaryop; match R t_1; call 350 (sub 0); match R t_4)
      else syntax_error R

  -- `exp(precedence)`, and its loop behind `left`, the children of the current context. Each call is
  -- behind a token that was taken: the fuel is the number of tokens and one.
  unfoldable mutual
    pub exp_within : ℕ → ℕ → Parser
    exp_within zero precedence ctx ts = err out_of_fuel
    exp_within (suc fuel) precedence ctx ts =
        Common.◌>>=◌ (look (primary (exp_within fuel)) ctx ts)
          λ (left, rest). exp_loop fuel precedence left ctx rest

    pub exp_loop : ℕ → ℕ → List Tree → Parser
    exp_loop zero precedence left ctx ts = err out_of_fuel
    exp_loop (suc fuel) precedence left ctx ts =
        let alt = R.predict 31 ctx precedence ts in
        let more =
          Common.◌>>=◌
            (right_side (exp_within fuel) precedence operators (R.predict 30 ctx precedence ts) ctx
              ts)
            λ (right, rest).
              exp_loop fuel precedence (node rule_exp (to_trees left) ∷ right) ctx rest in
        if alt == 1
        then more
        else if alt == 2
        then ok (node rule_exp (to_trees left) ∷ [], ts)
        else syntax_error R ctx ts

  abbrev pub exp : ℕ → Parser
  exp precedence ctx ts = exp_within (suc (length ts)) precedence ctx ts

  unfoldable pub explist : Parser
  explist =
      rule rule_explist
        do call 329 (exp 0); while_in R (t_3 ∷ []) (do match R t_3; call 331 (exp 0))

  -- `UContext`, `CXContext` and `UserDefGateContext`
  unfoldable pub u_alternative : Parser
  u_alternative = rule rule_u do
    match R t_14
    match R t_1
    if_in R
        (t_1 ∷ t_18 ∷ t_20 ∷ t_24 ∷ t_25 ∷ t_26 ∷ t_27 ∷ t_28 ∷ t_29 ∷ token_id ∷ token_real
          ∷ token_int ∷ [])
        (call 298 explist)
    match R t_4
    call 302 gatearg

  unfoldable pub cx_alternative : Parser
  cx_alternative = rule rule_cx (do match R t_15; call 304 gatearg; match R t_3; call 306 gatearg)

  unfoldable pub user_alternative : Parser
  user_alternative = rule rule_user_def_gate do
    call 308 gatename
    if_in R (t_1 ∷ []) (do match R t_1; call 310 explist; match R t_4)
    call 315 gatearglist

  unfoldable pub uop : Parser
  uop = look λ kind.
      if kind == t_14
      then u_alternative
      else if kind == t_15
      then cx_alternative
      else if kind == token_id
      then user_alternative
      else syntax_error R

  unfoldable pub measure : Parser
  measure = rule rule_measure do
    match R token_measure
    choose R 32 (call 384 gatearg ∷ call 385 qregister ∷ [])
    match R t_30
    choose R 33 (call 389 gatearg ∷ call 390 cregister ∷ [])

  unfoldable pub reeset : Parser
  reeset = rule rule_reeset do
    match R token_reset
    choose R 34 (call 394 gatearg ∷ call 395 qregister ∷ call 396 cregister ∷ [])

  unfoldable pub barrier : Parser
  barrier = rule rule_barrier (do match R token_barrier; call 400 gatearglist)

  unfoldable pub qop : Parser
  qop = rule rule_qop (
      look λ kind.
        if contains (t_14 ∷ t_15 ∷ token_id ∷ []) kind
        then call 290 uop
        else if kind == token_reset
        then call 291 reeset
        else if kind == token_measure
        then call 292 measure
        else if kind == token_barrier
        then call 293 barrier
        else syntax_error R)
