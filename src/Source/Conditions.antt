-- ===== src/Source/Conditions.antt =====
-- What `OQASMCompiler::compile` makes of `if` (compiler/OQASMToXACCListener.cpp has no callback for it).
use xacc_ibm.Common.{◌≡◌, refl, sym, ap, ◌∙◌, List, [], ◌∷◌, map, ok, ◌>>=◌}
use xacc_ibm.Ir.{Xacc}
use xacc_ibm.Listener.{Params, walk_tree}
use xacc_ibm.Parser.{Runtime}
use xacc_ibm.Parser.Written.{
  Statement, declare_q, declare_c, operate, guarded, statement_events, statements_events, Written,
  source_tokens, source_events,
}
use xacc_ibm.Parser.Lookahead.{IsGrammatical}
use xacc_ibm.Source.{new_listener, compile_tokens}
use xacc_ibm.Source.Reading.{compile_tokens-source_tokens}

-- The statement without its condition, and the kernel without conditions.
abbrev unguarded : Statement → Statement
unguarded (declare_q r n) = declare_q r n
unguarded (declare_c r n) = declare_c r n
unguarded (operate o) = operate o
unguarded (guarded c n o) = operate o

abbrev pub unconditional : Written → Written
unconditional w = record w {
  body = record { head = unguarded w.body.head; others = map unguarded w.body.others };
}

same_statement : (s : Statement) → statement_events s ≡ statement_events (unguarded s)
same_statement (declare_q r n) = refl
same_statement (declare_c r n) = refl
same_statement (operate o) = refl
same_statement (guarded c n o) = refl

same_statements :
    (ss : List Statement) → statements_events ss ≡ statements_events (map unguarded ss)
same_statements [] = refl
same_statements (s ∷ ss) = rw (same_statement s, same_statements ss)

same_source : (ws : List Written) → source_events ws ≡ source_events (map unconditional ws)
same_source [] = refl
same_source (w ∷ ws) =
    rw (same_statement w.body.head, same_statements w.body.others, same_source ws)

module _ {P D : Type 0} (X : Xacc P) (E : Params P D) where
  -- Where the lookahead is that of the grammar, a source compiles to the same result as the source
  -- without the conditions of its `if` statements.
  pub compile_tokens-unconditional :
      (R : Runtime)
      → IsGrammatical R
      → (ws : List Written)
      → compile_tokens X E R (source_tokens ws)
        ≡ compile_tokens X E R (source_tokens (map unconditional ws))
  compile_tokens-unconditional R G ws =
      compile_tokens-source_tokens X E R G ws
      ∙ ap (λ es. walk_tree X E es new_listener >>= λ l. ok l.kernels) (same_source ws)
      ∙ sym (compile_tokens-source_tokens X E R G (map unconditional ws))
