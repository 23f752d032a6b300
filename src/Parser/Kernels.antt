-- ===== src/Parser/Kernels.antt =====
-- Programs and kernels are read as they are written.
use xacc_ibm.Common.{
  ℕ, zero, suc, ◌≤◌, ◌<◌, ◌≡◌, refl, sym, true, false, List, [], ◌∷◌, ◌++◌, map, ok, ◌==◌, length,
  length-append, append_assoc, contains, arith,
}
use xacc_ibm.Common.Text.{codes}
use xacc_ibm.Parser.{
  look, Token, la, Tree, leaf, node, tree, no_trees, to_trees, Runtime, match, repeat,
  repeat_predicted, rule, call, match_set, while_in, ◌>>◌,
}
use xacc_ibm.Parser.Kinds.{t_0, t_2, t_3, t_5, token_openqasm}
use xacc_ibm.Parser.Indices.{
  rule_real, rule_line, rule_program, rule_mainprog, rule_xacckernel, rule_xaccsrc, rule_typedparam,
  rule_type, rule_param,
}
use xacc_ibm.Parser.Rules.{id, real, param}
use xacc_ibm.Parser.Program.{
  statement, statement_kinds, line, line_kinds, program, mainprog, xacckernel, xaccsrc, type,
  typedparam,
}
use xacc_ibm.Parser.Written.{
  fixed, name_token, real_token, lparen, rparen, rbrace, semicolon, Typed, TypeName, type_token,
  int_type, double_type, float_type, typed_tokens, behind_commas, comma, Some, all, Statement,
  declare_q, declare_c, operate, guarded, apply_u, apply_cx, apply_gate, apply_angles, measure,
  body_tokens, statement_tokens, statements_tokens, Written, kernel_tokens, source_tokens,
}
use xacc_ibm.Parser.Lookahead.{IsGrammatical}
use xacc_ibm.Parser.Arguments.{
  id_tree, comma_trees, le-behind_commas, repeat-behind_commas, >>-ok, rule-ok,
}
use xacc_ibm.Parser.Shapes.{statement_tree}
use xacc_ibm.Parser.Statements.{statement-statement_tokens}

abbrev pub statement_trees : List Statement → List Tree
statement_trees ss = map statement_tree ss

abbrev pub line_tree : Some Statement → Tree
line_tree ss = node rule_line (to_trees (statement_trees (all ss)))

abbrev pub program_tree : Some Statement → Tree
program_tree ss = node rule_mainprog (
    to_trees (
      leaf (fixed token_openqasm "OPENQASM")
      ∷ node rule_real (tree (leaf (real_token (codes "2.0"))) no_trees)
      ∷ leaf semicolon
      ∷ node rule_program (tree (line_tree ss) no_trees)
      ∷ []))

abbrev pub typed_tree : Typed → Tree
typed_tree p = node rule_typedparam (
    to_trees (
      node rule_type (tree (leaf (type_token p.of_type)) no_trees)
      ∷ node rule_param (tree (id_tree p.name) no_trees)
      ∷ []))

-- What stands behind the parameters.
abbrev pub behind_params : Written → List Tree
behind_params w = leaf rparen ∷ leaf (fixed t_5 "{") ∷ program_tree w.body ∷ leaf rbrace ∷ []

abbrev pub kernel_tree : Written → Tree
kernel_tree w = node rule_xacckernel (
    to_trees (
      leaf (fixed t_0 "__qpu__")
      ∷ id_tree w.name
      ∷ leaf lparen
      ∷ leaf (fixed t_2 "AcceleratorBuffer")
      ∷ id_tree w.buffer
      ∷ (comma_trees typed_tree w.params ++ behind_params w)))

abbrev pub source_tree : List Written → Tree
source_tree ws = node rule_xaccsrc (to_trees (map kernel_tree ws))

-- A statement has a token.
le-statement_tokens : (s : Statement) → 1 ≤ length (statement_tokens s)
le-statement_tokens s = omega (arith, length-append (body_tokens s) (semicolon ∷ []))

le-statements_tokens : (ss : List Statement) → length ss ≤ length (statements_tokens ss)
le-statements_tokens [] = omega arith
le-statements_tokens (s ∷ ss) = omega (
  arith,
  le-statement_tokens s,
  le-statements_tokens ss,
  length-append (statement_tokens s) (statements_tokens ss),
)

-- What a statement begins with.
in-statement_kinds :
    (s : Statement) (ts : List Token)
    → contains statement_kinds (la (statement_tokens s ++ ts)) ≡ true
in-statement_kinds (declare_q r n) ts = refl
in-statement_kinds (declare_c r n) ts = refl
in-statement_kinds (operate (apply_u ns a)) ts = refl
in-statement_kinds (operate (apply_cx a b)) ts = refl
in-statement_kinds (operate (apply_gate g xs)) ts = refl
in-statement_kinds (operate (apply_angles g ns xs)) ts = refl
in-statement_kinds (operate (measure q c)) ts = refl
in-statement_kinds (guarded c n o) ts = refl

in-line_kinds :
    (s : Statement) (ts : List Token) → contains line_kinds (la (statement_tokens s ++ ts)) ≡ true
in-line_kinds (declare_q r n) ts = refl
in-line_kinds (declare_c r n) ts = refl
in-line_kinds (operate (apply_u ns a)) ts = refl
in-line_kinds (operate (apply_cx a b)) ts = refl
in-line_kinds (operate (apply_gate g xs)) ts = refl
in-line_kinds (operate (apply_angles g ns xs)) ts = refl
in-line_kinds (operate (measure q c)) ts = refl
in-line_kinds (guarded c n o) ts = refl

le-source_tokens : (ws : List Written) → length ws ≤ length (source_tokens ws)
le-source_tokens [] = omega arith
le-source_tokens (w ∷ ws) =
    omega (arith, le-source_tokens ws, length-append (kernel_tokens w) (source_tokens ws))

module _ (R : Runtime) (G : IsGrammatical R) where
  more-statement_tokens :
      (ctx : List ℕ) (s : Statement) (ts : List Token)
      → R.predict 7 ctx 0 (statement_tokens s ++ ts) ≡ 1
  more-statement_tokens ctx (declare_q r n) ts = G.more_qreg ctx _
  more-statement_tokens ctx (declare_c r n) ts = G.more_creg ctx _
  more-statement_tokens ctx (operate (apply_u ns a)) ts = G.more_u ctx _
  more-statement_tokens ctx (operate (apply_cx a b)) ts = G.more_cx ctx _
  more-statement_tokens ctx (operate (apply_gate g xs)) ts = G.more_gate ctx g _
  more-statement_tokens ctx (operate (apply_angles g ns xs)) ts = G.more_gate ctx g _
  more-statement_tokens ctx (operate (measure q c)) ts = G.more_measure ctx _
  more-statement_tokens ctx (guarded c n o) ts = G.more_if ctx _

  -- The loop of a line.
  repeat-statements_tokens :
      (ss : List Statement) (fuel : ℕ) (ctx : List ℕ) (ts : List Token)
      → length ss < fuel
      → repeat_predicted R fuel 7 (call 149 (statement R)) ctx (statements_tokens ss ++ rbrace ∷ ts)
        ≡ ok (statement_trees ss, rbrace ∷ ts)
  unfolding repeat_predicted
  repeat-statements_tokens ss zero ctx ts l = absurd (omega (arith, l))
  repeat-statements_tokens [] (suc fuel) ctx ts l = rw (G.no_more ctx ts) refl
  repeat-statements_tokens (s ∷ ss) (suc fuel) ctx ts l =
      let rest = statements_tokens ss ++ rbrace ∷ ts in
      rw
        (
          append_assoc (statement_tokens s) (statements_tokens ss) (rbrace ∷ ts),
          more-statement_tokens ctx s rest,
        )
        (>>-ok (call 149 (statement R))
          (λ x x'. repeat_predicted R fuel 7 (call 149 (statement R)) x x') ctx
          (statement_tokens s ++ rest) rest (rbrace ∷ ts) (statement_tree s ∷ [])
          (statement_trees ss) (statement-statement_tokens R G (149 ∷ ctx) s rest)
          (repeat-statements_tokens ss fuel ctx ts (omega arith)))

  line-statements_tokens :
      (ctx : List ℕ) (ss : Some Statement) (ts : List Token)
      → line R ctx (statements_tokens (all ss) ++ rbrace ∷ ts) ≡ ok (line_tree ss ∷ [], rbrace ∷ ts)
  unfolding line look
  line-statements_tokens ctx ss ts =
      let rest = statements_tokens ss.others ++ rbrace ∷ ts in
      rw (append_assoc (statement_tokens ss.head) (statements_tokens ss.others) (rbrace ∷ ts)) (
        rule-ok rule_line _ ctx (statement_tokens ss.head ++ rest) (rbrace ∷ ts)
          (statement_trees (all ss))
          (rw (in-statement_kinds ss.head rest) (
            >>-ok (call 149 (statement R))
              (λ x x'.
                repeat_predicted R (suc (length (statement_tokens ss.head ++ rest))) 7
                  (call 149 (statement R)) x x')
              ctx (statement_tokens ss.head ++ rest) rest (rbrace ∷ ts)
              (statement_tree ss.head ∷ []) (statement_trees ss.others)
              (statement-statement_tokens R G (149 ∷ ctx) ss.head rest)
              (repeat-statements_tokens ss.others (suc (length (statement_tokens ss.head ++ rest)))
                ctx ts
                (omega (
                  arith,
                  le-statements_tokens ss.others,
                  length-append (statement_tokens ss.head) rest,
                  length-append (statements_tokens ss.others) (rbrace ∷ ts),
                ))))))

  program-statements_tokens :
      (ctx : List ℕ) (ss : Some Statement) (ts : List Token)
      → program R ctx (statements_tokens (all ss) ++ rbrace ∷ ts)
        ≡ ok (node rule_program (tree (line_tree ss) no_trees) ∷ [], rbrace ∷ ts)
  unfolding program repeat rule ◌>>◌
  program-statements_tokens ctx ss ts = rw (line-statements_tokens (144 ∷ ctx) ss ts) refl

  mainprog-statements_tokens :
      (ctx : List ℕ) (ss : Some Statement) (ts : List Token)
      → mainprog R ctx (
          fixed token_openqasm "OPENQASM"
          ∷ real_token (codes "2.0")
          ∷ semicolon
          ∷ (statements_tokens (all ss) ++ rbrace ∷ ts))
        ≡ ok (program_tree ss ∷ [], rbrace ∷ ts)
  unfolding mainprog real match repeat rule ◌>>◌
  mainprog-statements_tokens ctx ss ts =
      let rest = statements_tokens ss.others ++ rbrace ∷ ts in
      rw
        (
          append_assoc (statement_tokens ss.head) (statements_tokens ss.others) (rbrace ∷ ts),
          in-line_kinds ss.head rest,
          sym (append_assoc (statement_tokens ss.head) (statements_tokens ss.others) (rbrace ∷ ts)),
          program-statements_tokens (141 ∷ ctx) ss ts,
        )
        refl

  match_type :
      (ctx : List ℕ) (k : TypeName) (ts : List Token)
      → type R ctx (type_token k ∷ ts)
        ≡ ok (node rule_type (tree (leaf (type_token k)) no_trees) ∷ [], ts)
  unfolding type match_set rule
  match_type ctx int_type ts = refl
  match_type ctx double_type ts = refl
  match_type ctx float_type ts = refl

  typedparam-typed_tokens :
      (ctx : List ℕ) (p : Typed) (ts : List Token)
      → typedparam R ctx (typed_tokens p ++ ts) ≡ ok (typed_tree p ∷ [], ts)
  unfolding typedparam param id match rule ◌>>◌
  typedparam-typed_tokens ctx p ts =
      rw (match_type (113 ∷ ctx) p.of_type (name_token p.name ∷ ts)) refl

  -- The loop over the parameters.
  repeat-typed_tokens :
      (ctx : List ℕ) (ps : List Typed) (ts : List Token)
      → while_in R
          (t_3 ∷ [])
          (match R t_3 >> call 102 (typedparam R))
          ctx
          (behind_commas typed_tokens ps ++ rparen ∷ ts)
        ≡ ok (comma_trees typed_tree ps, rparen ∷ ts)
  repeat-typed_tokens ctx ps ts =
      repeat-behind_commas R typed_tokens typed_tree (call 102 (typedparam R)) ctx rparen
        (λ p ts. typedparam-typed_tokens (102 ∷ ctx) p (comma ∷ ts))
        (λ p ts. typedparam-typed_tokens (102 ∷ ctx) p (rparen ∷ ts)) refl ps _ ts
        (omega (
          arith,
          le-behind_commas typed_tokens ps,
          length-append (behind_commas typed_tokens ps) (rparen ∷ ts),
        ))

  xacckernel-kernel_tokens :
      (ctx : List ℕ) (w : Written) (ts : List Token)
      → xacckernel R ctx (kernel_tokens w ++ ts) ≡ ok (kernel_tree w ∷ [], ts)
  unfolding xacckernel id match rule ◌>>◌ look
  xacckernel-kernel_tokens ctx w ts =
      let body =
        fixed t_5 "{"
        ∷ fixed token_openqasm "OPENQASM"
        ∷ real_token (codes "2.0")
        ∷ semicolon
        ∷ (statements_tokens (all w.body) ++ rbrace ∷ ts) in
      rw
        (
          append_assoc (behind_commas typed_tokens w.params) _ ts,
          append_assoc (statements_tokens (all w.body)) (rbrace ∷ []) ts,
          repeat-typed_tokens ctx w.params body,
          mainprog-statements_tokens (110 ∷ ctx) w.body ts,
        )
        refl

  -- The loop over the kernels, before a token that begins none.
  repeat-source_tokens :
      (ws : List Written) (fuel : ℕ) (ctx : List ℕ) (rest : List Token)
      → (t_0 == la rest) ≡ false
      → length ws < fuel
      → repeat R fuel (t_0 ∷ []) (call 90 (xacckernel R)) ctx (source_tokens ws ++ rest)
        ≡ ok (map kernel_tree ws, rest)
  unfolding repeat
  repeat-source_tokens ws zero ctx rest e l = absurd (omega (arith, l))
  repeat-source_tokens [] (suc fuel) ctx rest e l = rw e refl
  repeat-source_tokens (w ∷ ws) (suc fuel) ctx rest e l =
      let others = source_tokens ws ++ rest in
      rw (append_assoc (kernel_tokens w) (source_tokens ws) rest) (
        >>-ok (call 90 (xacckernel R))
          (λ x x'. repeat R fuel (t_0 ∷ []) (call 90 (xacckernel R)) x x') ctx
          (kernel_tokens w ++ others) others rest (kernel_tree w ∷ []) (map kernel_tree ws)
          (xacckernel-kernel_tokens (90 ∷ ctx) w others)
          (repeat-source_tokens ws fuel ctx rest e (omega arith)))

  pub xaccsrc-source_tokens :
      (ws : List Written) (rest : List Token)
      → (t_0 == la rest) ≡ false
      → xaccsrc R [] (source_tokens ws ++ rest) ≡ ok (source_tree ws ∷ [], rest)
  unfolding xaccsrc
  xaccsrc-source_tokens ws rest e =
      rule-ok rule_xaccsrc _ [] (source_tokens ws ++ rest) rest (map kernel_tree ws) (
        repeat-source_tokens ws (suc (length (source_tokens ws ++ rest))) [] rest e
          (omega (arith, le-source_tokens ws, length-append (source_tokens ws) rest)))
