-- ===== src/Parser/Statements.antt =====
-- Statements are read as they are written.
use xacc_ibm.Common.{ℕ, ◌≡◌, refl, true, List, [], ◌∷◌, ◌++◌, contains, ok, append_assoc}
use xacc_ibm.Common.Text.{Text}
use xacc_ibm.Parser.{look, Token, Runtime, match, rule, choose, ◌>>◌}
use xacc_ibm.Parser.Kinds.{
  t_1, t_17, t_18, t_20, t_24, t_25, t_26, t_27, t_28, t_29, t_30, token_id, token_real, token_int,
}
use xacc_ibm.Parser.Written
use xacc_ibm.Parser.Indices.{}
use xacc_ibm.Parser.Rules.{
  id, qreg, creg, qregister, cregister, registersize, gatename, u_alternative, cx_alternative,
  user_alternative, uop, qop,
}
use xacc_ibm.Parser.Rules
use xacc_ibm.Parser.Program.{statement, regdecl, conditional, action}
use xacc_ibm.Parser.Written.{
  fixed, name_token, int_token, comma, lparen, rparen, lbracket, rbracket, semicolon, Arg, Number,
  Some, separated, arg_tokens, number_tokens, number_token, integer, Operation, Statement, operate,
  guarded, operation_tokens, declare_q, declare_c, apply_u, apply_cx, apply_gate, apply_angles,
  measure, statement_tokens, behind_commas,
}
use xacc_ibm.Parser.Lookahead.{IsGrammatical}
use xacc_ibm.Parser.Arguments.{gatearg-arg_tokens, explist-separated, gatearglist-separated}
use xacc_ibm.Parser.Shapes.{operation_tree, statement_tree}

first_of_angles :
    (n : Number)
    → contains
        (t_1 ∷ t_18 ∷ t_20 ∷ t_24 ∷ t_25 ∷ t_26 ∷ t_27 ∷ t_28 ∷ t_29 ∷ token_id ∷ token_real
          ∷ token_int ∷ [])
        ((number_token n).kind)
      ≡ true
first_of_angles (Written.real s) = refl
first_of_angles (integer s) = refl

module _ (R : Runtime) (G : IsGrammatical R) where
  on_declare_q :
      (ctx : List ℕ) (r n : Text) (ts : List Token)
      → statement R ctx (statement_tokens (declare_q r n) ++ ts)
        ≡ ok (statement_tree (declare_q r n) ∷ [], ts)
  unfolding statement regdecl qreg qregister registersize id choose rule match ◌>>◌ look
  on_declare_q ctx r n ts =
      rw
        (
          G.on_qreg ctx (arg_tokens (record { register = r; index = n }) ++ semicolon ∷ ts),
          G.q_register (189 ∷ 162 ∷ ctx) r (int_token n ∷ rbracket ∷ semicolon ∷ ts),
        )
        refl

  on_declare_c :
      (ctx : List ℕ) (r n : Text) (ts : List Token)
      → statement R ctx (statement_tokens (declare_c r n) ++ ts)
        ≡ ok (statement_tree (declare_c r n) ∷ [], ts)
  unfolding statement regdecl creg cregister registersize id choose rule match ◌>>◌ look
  on_declare_c ctx r n ts =
      rw
        (
          G.on_creg ctx (arg_tokens (record { register = r; index = n }) ++ semicolon ∷ ts),
          G.c_register (192 ∷ 162 ∷ ctx) r (int_token n ∷ rbracket ∷ semicolon ∷ ts),
        )
        refl

  reads_cx :
      (ctx : List ℕ) (a b : Arg) (ts : List Token)
      → qop R ctx (operation_tokens (apply_cx a b) ++ semicolon ∷ ts)
        ≡ ok (operation_tree (apply_cx a b) ∷ [], semicolon ∷ ts)
  unfolding qop uop cx_alternative rule match ◌>>◌ look
  reads_cx ctx a b ts =
      rw
        (
          gatearg-arg_tokens R G (304 ∷ 290 ∷ ctx) a (comma ∷ (arg_tokens b ++ semicolon ∷ ts)),
          gatearg-arg_tokens R G (306 ∷ 290 ∷ ctx) b (semicolon ∷ ts),
        )
        refl

  reads_measure :
      (ctx : List ℕ) (q c : Arg) (ts : List Token)
      → qop R ctx (operation_tokens (measure q c) ++ semicolon ∷ ts)
        ≡ ok (operation_tree (measure q c) ∷ [], semicolon ∷ ts)
  unfolding qop Rules.measure choose rule match ◌>>◌ look
  reads_measure ctx q c ts =
      rw
        (
          G.from_argument (292 ∷ ctx) q.register q.index
              (fixed t_30 "->" ∷ (arg_tokens c ++ semicolon ∷ ts)),
          gatearg-arg_tokens R G (384 ∷ 292 ∷ ctx) q
              (fixed t_30 "->" ∷ (arg_tokens c ++ semicolon ∷ ts)),
          G.to_argument (292 ∷ ctx) c.register c.index (semicolon ∷ ts),
          gatearg-arg_tokens R G (389 ∷ 292 ∷ ctx) c (semicolon ∷ ts),
        )
        refl

  reads_u :
      (ctx : List ℕ) (ns : Some Number) (a : Arg) (ts : List Token)
      → qop R ctx (operation_tokens (apply_u ns a) ++ semicolon ∷ ts)
        ≡ ok (operation_tree (apply_u ns a) ∷ [], semicolon ∷ ts)
  unfolding qop uop u_alternative rule match ◌>>◌ look
  reads_u ctx ns a ts =
      rw
        (
          append_assoc (behind_commas number_tokens ns.others) (rparen ∷ arg_tokens a)
              (semicolon ∷ ts),
          first_of_angles ns.head,
          explist-separated R G (298 ∷ 290 ∷ ctx) ns (arg_tokens a ++ semicolon ∷ ts),
          gatearg-arg_tokens R G (302 ∷ 290 ∷ ctx) a (semicolon ∷ ts),
        )
        refl

  reads_gate :
      (ctx : List ℕ) (g : Text) (xs : Some Arg) (ts : List Token)
      → qop R ctx (operation_tokens (apply_gate g xs) ++ semicolon ∷ ts)
        ≡ ok (operation_tree (apply_gate g xs) ∷ [], semicolon ∷ ts)
  unfolding qop uop user_alternative gatename id choose rule match ◌>>◌ look
  reads_gate ctx g xs ts =
      let rest =
        lbracket
        ∷ int_token xs.head.index
        ∷ rbracket
        ∷ (behind_commas arg_tokens xs.others ++ semicolon ∷ ts) in
      rw
        (
          G.name_alone (308 ∷ 290 ∷ ctx) g xs.head.register rest,
          gatearglist-separated R G (315 ∷ 290 ∷ ctx) xs ts,
        )
        refl

  reads_angles :
      (ctx : List ℕ) (g : Text) (ns : Some Number) (xs : Some Arg) (ts : List Token)
      → qop R ctx (operation_tokens (apply_angles g ns xs) ++ semicolon ∷ ts)
        ≡ ok (operation_tree (apply_angles g ns xs) ∷ [], semicolon ∷ ts)
  unfolding qop uop user_alternative gatename id choose rule match ◌>>◌ look
  reads_angles ctx g ns xs ts =
      let angles = behind_commas number_tokens ns.others in
      let rest = separated arg_tokens xs ++ semicolon ∷ ts in
      rw
        (
          append_assoc angles (rparen ∷ separated arg_tokens xs) (semicolon ∷ ts),
          G.name_angles (308 ∷ 290 ∷ ctx) g ns.head (angles ++ rparen ∷ rest),
          explist-separated R G (310 ∷ 290 ∷ ctx) ns rest,
          gatearglist-separated R G (315 ∷ 290 ∷ ctx) xs ts,
        )
        refl

  qop-operation_tokens :
      (ctx : List ℕ) (o : Operation) (ts : List Token)
      → qop R ctx (operation_tokens o ++ semicolon ∷ ts)
        ≡ ok (operation_tree o ∷ [], semicolon ∷ ts)
  qop-operation_tokens ctx (apply_u ns a) ts = reads_u ctx ns a ts
  qop-operation_tokens ctx (apply_cx a b) ts = reads_cx ctx a b ts
  qop-operation_tokens ctx (apply_gate g xs) ts = reads_gate ctx g xs ts
  qop-operation_tokens ctx (apply_angles g ns xs) ts = reads_angles ctx g ns xs ts
  qop-operation_tokens ctx (measure q c) ts = reads_measure ctx q c ts

  -- The fourth alternative of `statement`.
  on_operation :
      (ctx : List ℕ) (o : Operation) (ts : List Token)
      → R.predict 10 ctx 0 (operation_tokens o ++ semicolon ∷ ts) ≡ 4
  on_operation ctx (apply_u ns a) ts = G.on_u ctx _
  on_operation ctx (apply_cx a b) ts = G.on_cx ctx _
  on_operation ctx (apply_gate g xs) ts = G.on_gate ctx g xs.head.register _
  on_operation ctx (apply_angles g ns xs) ts = G.on_angles ctx g ns.head _
  on_operation ctx (measure q c) ts = G.on_measure ctx _

  pub statement-statement_tokens :
      (ctx : List ℕ) (s : Statement) (ts : List Token)
      → statement R ctx (statement_tokens s ++ ts) ≡ ok (statement_tree s ∷ [], ts)
  unfolding statement conditional action id choose rule match ◌>>◌ look
  statement-statement_tokens ctx (declare_q r n) ts = on_declare_q ctx r n ts
  statement-statement_tokens ctx (declare_c r n) ts = on_declare_c ctx r n ts
  statement-statement_tokens ctx (operate o) ts =
      rw
        (
          append_assoc (operation_tokens o) (semicolon ∷ []) ts,
          on_operation ctx o ts,
          qop-operation_tokens (169 ∷ ctx) o ts,
        )
        refl
  statement-statement_tokens ctx (guarded c n o) ts =
      rw
        (
          append_assoc (operation_tokens o) (semicolon ∷ []) ts,
          G.on_if ctx (
              lparen
              ∷ name_token c
              ∷ fixed t_17 "=="
              ∷ int_token n
              ∷ rparen
              ∷ (operation_tokens o ++ semicolon ∷ ts)),
          qop-operation_tokens (327 ∷ 325 ∷ 172 ∷ ctx) o ts,
        )
        refl
