-- ===== src/Source/Reading.antt =====
-- What `OQASMCompiler::compile` makes of kernels as they are written.
use xacc_ibm.Common.{
  ◌≡◌, refl, sym, ap, ◌∙◌, List, false, ◌==◌, [], ◌∷◌, ◌++◌, map, Result, ok, err, ◌>>=◌,
  append-nil,
}
use xacc_ibm.Parser.Arguments.{comma_trees}
use xacc_ibm.Ir.{Xacc}
use xacc_ibm.Listener.{Listener, Params, Event, on_event, walk_tree, exit_kernel}
use xacc_ibm.Parser.{Tree, Token, la, Runtime, node, tree, no_trees, to_trees}
use xacc_ibm.Parser.Kinds.{t_0}
use xacc_ibm.Parser.Indices.{rule_typedparam, rule_program}
use xacc_ibm.Parser.Walk.{
  param_names, contexts, context, text_of, walk, walk_all, enter_rule, exit_rule,
}
use xacc_ibm.Parser.Written.{
  Typed, Some, all, Statement, statement_events, statements_events, Written, kernel_events,
  source_tokens, source_events,
}
use xacc_ibm.Parser.Lookahead.{IsGrammatical}
use xacc_ibm.Parser.Kernels.{
  typed_tree, behind_params, statement_trees, line_tree, program_tree, kernel_tree, source_tree,
  xaccsrc-source_tokens,
}
use xacc_ibm.Parser.Events.{walk-statement_tree, wrapped, >>=-ok}
use xacc_ibm.Source.{new_listener, compile_tokens}

>>=-assoc :
    {A B C : Type 0} (m : Result A) (f : A → Result B) (g : B → Result C)
    → ((m >>= f) >>= g) ≡ m >>= λ a. f a >>= g
>>=-assoc (ok a) f g = refl
>>=-assoc (err e) f g = refl

-- What follows a part can be replaced where it agrees on every value.
pub >>=-ext :
    {A B : Type 0} (m : Result A) (f g : A → Result B) → ((a : A) → f a ≡ g a) → m >>= f ≡ m >>= g
>>=-ext (ok a) f g h = h a
>>=-ext (err e) f g h = refl

behind_ok : {A B : Type 0} (m : Result A) (f : A → Result B) → ((m >>= λ a. ok a) >>= f) ≡ m >>= f
behind_ok (ok a) f = refl
behind_ok (err e) f = refl

-- The declared parameters among the children of a kernel, and their names.
contexts-commas :
    (ps : List Typed) (ts : List Tree)
    → contexts rule_typedparam (to_trees (comma_trees typed_tree ps ++ ts))
      ≡ map typed_tree ps ++ contexts rule_typedparam (to_trees ts)
unfolding contexts
contexts-commas [] ts = refl
contexts-commas (p ∷ ps) ts = rw (contexts-commas ps ts)

contexts-params :
    (w : Written)
    → contexts rule_typedparam (to_trees (comma_trees typed_tree w.params ++ behind_params w))
      ≡ map typed_tree w.params
unfolding contexts
contexts-params w =
    contexts-commas w.params (behind_params w) ∙ append-nil (map typed_tree w.params)

param_names-typed_tree :
    (ps : List Typed) → param_names (map typed_tree ps) ≡ ok (map (λ p. p.name) ps)
unfolding contexts context text_of
param_names-typed_tree [] = refl
param_names-typed_tree (p ∷ ps) =
    rw (param_names-typed_tree ps)
      (ap (λ t. ok (t ∷ map (λ q. q.name) ps)) (append-nil (p.name ++ []) ∙ append-nil p.name))

module _ {P D : Type 0} (X : Xacc P) (E : Params P D) where
  pub walk_tree-append :
      (es fs : List Event) (l : Listener P)
      → walk_tree X E (es ++ fs) l ≡ walk_tree X E es l >>= λ l'. walk_tree X E fs l'
  unfolding walk_tree
  walk_tree-append [] fs l = refl
  walk_tree-append (e ∷ es) fs l =
      >>=-ext (on_event X E e l) _ _ (walk_tree-append es fs)
      ∙ sym (>>=-assoc (on_event X E e l) (walk_tree X E es) (walk_tree X E fs))

  walk-statement_trees :
      (ss : List Statement) (l : Listener P)
      → walk_all X E (to_trees (statement_trees ss)) l ≡ walk_tree X E (statements_events ss) l
  unfolding walk_all walk_tree
  walk-statement_trees [] l = refl
  walk-statement_trees (s ∷ ss) l =
      rw
        (
          walk_tree-append (statement_events s) (statements_events ss) l,
          walk-statement_tree X E s l,
        )
        (>>=-ext (walk_tree X E (statement_events s) l) _ _ (walk-statement_trees ss))

  walk-program_tree :
      (ss : Some Statement) (l : Listener P)
      → walk X E (program_tree ss) l ≡ walk_tree X E (statements_events (all ss)) l
  unfolding walk walk_all enter_rule exit_rule
  walk-program_tree ss l =
      let inside = walk_all X E (to_trees (statement_trees (all ss))) l in
      wrapped X E (walk X E (node rule_program (tree (line_tree ss) no_trees)) l)
      ∙ wrapped X E (walk X E (line_tree ss) l)
      ∙ >>=-ok inside
      ∙ walk-statement_trees (all ss) l

  -- The parameters make no callback of their own.
  walk-params :
      (ps : List Typed) (ts : List Tree) (l : Listener P)
      → walk_all X E (to_trees (comma_trees typed_tree ps ++ ts)) l ≡ walk_all X E (to_trees ts) l
  unfolding walk walk_all enter_rule exit_rule
  walk-params [] ts l = refl
  walk-params (p ∷ ps) ts l = walk-params ps ts l

  walk-kernel_tree :
      (w : Written) (l : Listener P)
      → walk X E (kernel_tree w) l ≡ walk_tree X E (kernel_events w) l
  unfolding walk walk_all enter_rule exit_rule context contexts text_of walk_tree on_event
  walk-kernel_tree w l =
      let names = map (λ p. p.name) w.params in
      let entered = record l {
        current = record {
          name = w.name;
          parameters = map (λ p. E.of_text p) names;
          analog = false;
          instructions = [];
        };
      } in
      let leave = walk_tree X E (exit_kernel ∷ []) in
      rw
        (
          append-nil w.name,
          contexts-params w,
          param_names-typed_tree w.params,
          walk-params w.params (behind_params w) entered,
        )
        (behind_ok (walk X E (program_tree w.body) entered) leave
          ∙ ap (λ m. m >>= leave) (walk-program_tree w.body entered)
          ∙ sym (walk_tree-append (statements_events (all w.body)) (exit_kernel ∷ []) entered))

  walk-kernel_trees :
      (ws : List Written) (l : Listener P)
      → walk_all X E (to_trees (map kernel_tree ws)) l ≡ walk_tree X E (source_events ws) l
  unfolding walk_all walk_tree
  walk-kernel_trees [] l = refl
  walk-kernel_trees (w ∷ ws) l =
      rw (walk_tree-append (kernel_events w) (source_events ws) l, walk-kernel_tree w l)
        (>>=-ext (walk_tree X E (kernel_events w) l) _ _ (walk-kernel_trees ws))

  walk-source_tree :
      (ws : List Written) (l : Listener P)
      → walk X E (source_tree ws) l ≡ walk_tree X E (source_events ws) l
  unfolding walk enter_rule exit_rule
  walk-source_tree ws l =
      >>=-ok (walk_all X E (to_trees (map kernel_tree ws)) l) ∙ walk-kernel_trees ws l

  -- Where the lookahead is that of the grammar, kernels with any tokens behind them that do not
  -- begin a kernel compile to what the callbacks of the kernels alone make, without an error for the
  -- tokens behind.
  pub compile_tokens-append :
      (R : Runtime)
      → IsGrammatical R
      → (ws : List Written) (rest : List Token) → (t_0 == la rest) ≡ false
      → compile_tokens X E R (source_tokens ws ++ rest)
        ≡ (walk_tree X E (source_events ws) new_listener >>= λ l. ok l.kernels)
  unfolding compile_tokens
  compile_tokens-append R G ws rest e =
      rw (xaccsrc-source_tokens R G ws rest e, walk-source_tree ws new_listener)

  -- Where the lookahead is that of the grammar, the tokens of any kernels of declarations and of
  -- plain or conditional operations on indexed registers, with numbers as angles, are compiled as
  -- their statements say: parsing them and walking the tree has the result of the callbacks of the
  -- statements, in order, errors of the callbacks included.
  pub compile_tokens-source_tokens :
      (R : Runtime)
      → IsGrammatical R
      → (ws : List Written)
      → compile_tokens X E R (source_tokens ws)
        ≡ (walk_tree X E (source_events ws) new_listener >>= λ l. ok l.kernels)
  compile_tokens-source_tokens R G ws =
      ap (compile_tokens X E R) (sym (append-nil (source_tokens ws)))
      ∙ compile_tokens-append R G ws [] refl
