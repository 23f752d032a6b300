-- ===== src/Parser/Shapes.antt =====
-- The contexts that statements are to have.
use xacc_ibm.Common.{List, [], ◌∷◌}
use xacc_ibm.Common.Text.{Text}
use xacc_ibm.Parser.{Tree, leaf, node, tree, no_trees, to_trees}
use xacc_ibm.Parser.Kinds.{t_14, t_15, t_16, t_17, t_30, token_qreg, token_creg, token_measure}
use xacc_ibm.Parser.Indices.{
  rule_statement, rule_regdecl, rule_qreg, rule_creg, rule_qregister, rule_cregister,
  rule_registersize, rule_qop, rule_u, rule_cx, rule_user_def_gate, rule_gatename, rule_gatearglist,
  rule_explist, rule_measure, rule_conditional, rule_action,
}
use xacc_ibm.Parser.Rules.{}
use xacc_ibm.Parser.Written.{
  fixed, int_token, comma, lparen, rparen, lbracket, rbracket, semicolon, Arg, Number, Some,
  Operation, Statement, operate, guarded, declare_q, declare_c, apply_u, apply_cx, apply_gate,
  apply_angles, measure,
}
use xacc_ibm.Parser.Arguments.{id_tree, arg_tree, number_tree, list_trees}

abbrev pub statement_node : List Tree → Tree
statement_node ts = node rule_statement (to_trees (ts))

-- A register and its size.
abbrev pub size_trees : Text → Text → List Tree
size_trees r n =
    id_tree r
    ∷ leaf lbracket
    ∷ node rule_registersize (tree (leaf (int_token n)) no_trees)
    ∷ leaf rbracket
    ∷ []

abbrev pub angles_tree : Some Number → Tree
angles_tree ns = node rule_explist (to_trees (list_trees number_tree ns))

abbrev pub args_tree : Some Arg → Tree
args_tree xs = node rule_gatearglist (to_trees (list_trees arg_tree xs))

abbrev pub name_tree : Text → Tree
name_tree g = node rule_gatename (tree (id_tree g) no_trees)

abbrev pub qop_tree : Tree → Tree
qop_tree t = node rule_qop (tree t no_trees)

abbrev pub operation_tree : Operation → Tree
operation_tree (apply_u ns a) = qop_tree (
    node rule_u (
      to_trees
        (leaf (fixed t_14 "U") ∷ leaf lparen ∷ angles_tree ns ∷ leaf rparen ∷ arg_tree a ∷ [])))
operation_tree (apply_cx a b) =
    qop_tree
      (node rule_cx (to_trees (leaf (fixed t_15 "CX") ∷ arg_tree a ∷ leaf comma ∷ arg_tree b ∷ [])))
operation_tree (apply_gate g xs) =
    qop_tree (node rule_user_def_gate (to_trees (name_tree g ∷ args_tree xs ∷ [])))
operation_tree (apply_angles g ns xs) = qop_tree (
    node rule_user_def_gate
      (to_trees (name_tree g ∷ leaf lparen ∷ angles_tree ns ∷ leaf rparen ∷ args_tree xs ∷ [])))
operation_tree (measure q c) = qop_tree (
    node rule_measure (
      to_trees (
        leaf (fixed token_measure "measure")
        ∷ arg_tree q
        ∷ leaf (fixed t_30 "->")
        ∷ arg_tree c
        ∷ [])))

-- The context of a statement without its semicolon.
abbrev pub body_tree : Statement → Tree
body_tree (declare_q r n) = node rule_regdecl (
    to_trees (
      node rule_qreg (tree (leaf (fixed token_qreg "qreg")) no_trees)
      ∷ node rule_qregister (to_trees (size_trees r n))
      ∷ []))
body_tree (declare_c r n) = node rule_regdecl (
    to_trees (
      node rule_creg (tree (leaf (fixed token_creg "creg")) no_trees)
      ∷ node rule_cregister (to_trees (size_trees r n))
      ∷ []))
body_tree (operate o) = operation_tree o
body_tree (guarded c n o) = node rule_conditional (
    to_trees (
      leaf (fixed t_16 "if")
      ∷ leaf lparen
      ∷ id_tree c
      ∷ leaf (fixed t_17 "==")
      ∷ leaf (int_token n)
      ∷ leaf rparen
      ∷ node rule_action (tree (operation_tree o) no_trees)
      ∷ []))

abbrev pub statement_tree : Statement → Tree
statement_tree s = statement_node (body_tree s ∷ leaf semicolon ∷ [])
