-- ===== src/Parser/Events.antt =====
-- The walk over the contexts of a source makes the callbacks that its kernels are to make.
use xacc_ibm.Common.{
  ◌≡◌, refl, sym, ap, ◌∙◌, List, [], ◌∷◌, ◌++◌, map, Result, ok, err, ◌>>=◌, append-nil,
}
use xacc_ibm.Common.Text.{Text}
use xacc_ibm.Ir.{Xacc}
use xacc_ibm.Listener.{
  Listener, Params, on_event, walk_tree, exit_u, exit_cx, exit_user_gate, exit_measure,
}
use xacc_ibm.Parser.{Tree, node, tree, no_trees, to_trees}
use xacc_ibm.Parser.Indices.{rule_exp, rule_gatearg, rule_action}
use xacc_ibm.Parser.Walk.{
  contexts, context, first_token, text_of, map_texts, int_texts, walk, walk_all, enter_rule,
  exit_rule,
}
use xacc_ibm.Parser.Written.{
  Arg, Number, integer, number_text, Some, all, index_of, Operation, operation_event, Statement,
  declare_q, declare_c, operate, guarded, apply_u, apply_cx, apply_gate, apply_angles, measure,
  statement_events,
}
use xacc_ibm.Parser.Written
use xacc_ibm.Parser.Arguments.{arg_tree, number_tree, comma_trees, list_trees}
use xacc_ibm.Parser.Shapes.{statement_tree, body_tree, operation_tree, qop_tree}

-- The expressions and the arguments of a list, and their texts.
contexts-comma_numbers :
    (ns : List Number)
    → contexts rule_exp (to_trees (comma_trees number_tree ns)) ≡ map number_tree ns
unfolding contexts
contexts-comma_numbers [] = refl
contexts-comma_numbers (Written.real s ∷ ns) = rw (contexts-comma_numbers ns)
contexts-comma_numbers (integer s ∷ ns) = rw (contexts-comma_numbers ns)

contexts-number_trees :
    (n : Number) (ns : List Number)
    → contexts rule_exp (to_trees (number_tree n ∷ comma_trees number_tree ns))
      ≡ map number_tree (n ∷ ns)
unfolding contexts
contexts-number_trees (Written.real s) ns = rw (contexts-comma_numbers ns)
contexts-number_trees (integer s) ns = rw (contexts-comma_numbers ns)

map_texts-number_tree : (ns : List Number) → map_texts (map number_tree ns) ≡ map number_text ns
unfolding text_of
map_texts-number_tree [] = refl
map_texts-number_tree (Written.real s ∷ ns) =
    rw (map_texts-number_tree ns)
      (ap (λ t. t ∷ map number_text ns) (append-nil (s ++ []) ∙ append-nil s))
map_texts-number_tree (integer s ∷ ns) =
    rw (map_texts-number_tree ns) (ap (λ t. t ∷ map number_text ns) (append-nil s))

contexts-comma_args :
    (xs : List Arg) → contexts rule_gatearg (to_trees (comma_trees arg_tree xs)) ≡ map arg_tree xs
unfolding contexts
contexts-comma_args [] = refl
contexts-comma_args (x ∷ xs) = rw (contexts-comma_args xs)

int_texts-arg_tree : (xs : List Arg) → int_texts (map arg_tree xs) ≡ map index_of xs
unfolding first_token
int_texts-arg_tree [] = refl
int_texts-arg_tree (x ∷ xs) = rw (int_texts-arg_tree xs)

pub >>=-ok : {A : Type 0} (m : Result A) → (m >>= λ a. ok a) ≡ m
>>=-ok (ok a) = refl
>>=-ok (err e) = refl

module _ {P D : Type 0} (X : Xacc P) (E : Params P D) where
  abbrev IsSilent : Tree → Type 0
  IsSilent t = (l : Listener P) → walk X E t l ≡ ok l

  silent_commas :
      {A : Type 0} (f : A → Tree)
      → ((x : A) → IsSilent (f x))
      → (xs : List A) (l : Listener P) → walk_all X E (to_trees (comma_trees f xs)) l ≡ ok l
  unfolding walk walk_all
  silent_commas f h [] l = refl
  silent_commas f h (x ∷ xs) l = rw (h x l) (silent_commas f h xs l)

  silent_list :
      {A : Type 0} (f : A → Tree)
      → ((x : A) → IsSilent (f x))
      → (xs : Some A) (l : Listener P) → walk_all X E (to_trees (list_trees f xs)) l ≡ ok l
  unfolding walk_all
  silent_list f h xs l = rw (h xs.head l) (silent_commas f h xs.others l)

  arg_tree-IsSilent : (a : Arg) → IsSilent (arg_tree a)
  unfolding walk walk_all enter_rule exit_rule
  arg_tree-IsSilent a l = refl

  number_tree-IsSilent : (n : Number) → IsSilent (number_tree n)
  unfolding walk walk_all enter_rule exit_rule
  number_tree-IsSilent (Written.real s) l = refl
  number_tree-IsSilent (integer s) l = refl

  -- What a context without a callback adds to the walk.
  pub wrapped : (m : Result (Listener P)) → ((m >>= λ l. ok l) >>= λ l. ok l) ≡ m
  wrapped (ok l) = refl
  wrapped (err e) = refl

  walk_operation : (t : Tree) (l : Listener P) → walk X E (qop_tree t) l ≡ walk X E t l
  unfolding walk walk_all enter_rule exit_rule
  walk_operation t l = wrapped (walk X E t l)

  walk_cx :
      (a b : Arg) (l : Listener P)
      → walk X E (operation_tree (apply_cx a b)) l
        ≡ on_event X E (exit_cx (index_of a) (index_of b)) l
  unfolding walk walk_all enter_rule exit_rule contexts first_token
  walk_cx a b l = wrapped (on_event X E (exit_cx (index_of a) (index_of b)) l)

  walk_measure :
      (q c : Arg) (l : Listener P)
      → walk X E (operation_tree (measure q c)) l
        ≡ on_event X E (exit_measure (index_of q) (index_of c)) l
  unfolding walk walk_all enter_rule exit_rule contexts first_token
  walk_measure q c l = wrapped (on_event X E (exit_measure (index_of q) (index_of c)) l)

  angles_texts :
      (ns : Some Number)
      → map_texts (contexts rule_exp (to_trees (list_trees number_tree ns)))
        ≡ map number_text (all ns)
  angles_texts ns = rw (contexts-number_trees ns.head ns.others) (map_texts-number_tree (all ns))

  args_texts :
      (xs : Some Arg)
      → int_texts (contexts rule_gatearg (to_trees (list_trees arg_tree xs)))
        ≡ map index_of (all xs)
  unfolding contexts
  args_texts xs = rw (contexts-comma_args xs.others) (int_texts-arg_tree (all xs))

  walk_u :
      (ns : Some Number) (a : Arg) (l : Listener P)
      → walk X E (operation_tree (apply_u ns a)) l
        ≡ on_event X E (exit_u (index_of a) (map number_text (all ns))) l
  unfolding walk walk_all enter_rule exit_rule context contexts first_token
  walk_u ns a l =
      rw (silent_list number_tree number_tree-IsSilent ns l, angles_texts ns)
        (wrapped (on_event X E (exit_u (index_of a) (map number_text (all ns))) l))

  walk_gate :
      (g : Text) (xs : Some Arg) (l : Listener P)
      → walk X E (operation_tree (apply_gate g xs)) l
        ≡ on_event X E (exit_user_gate g (map index_of (all xs)) []) l
  unfolding walk walk_all enter_rule exit_rule context contexts first_token text_of
  walk_gate g xs l =
      rw
        (
          silent_list arg_tree arg_tree-IsSilent xs l,
          contexts-comma_args xs.others,
          int_texts-arg_tree xs.others,
          append-nil g,
        )
        (wrapped (on_event X E (exit_user_gate g (map index_of (all xs)) []) l))

  walk_angles :
      (g : Text) (ns : Some Number) (xs : Some Arg) (l : Listener P)
      → walk X E (operation_tree (apply_angles g ns xs)) l
        ≡ on_event X E (exit_user_gate g (map index_of (all xs)) (map number_text (all ns))) l
  unfolding walk walk_all enter_rule exit_rule context contexts first_token text_of
  walk_angles g ns xs l =
      rw
        (
          silent_list number_tree number_tree-IsSilent ns l,
          silent_list arg_tree arg_tree-IsSilent xs l,
          angles_texts ns,
          contexts-comma_args xs.others,
          int_texts-arg_tree xs.others,
          append-nil g,
        )
        (wrapped
          (on_event X E (exit_user_gate g (map index_of (all xs)) (map number_text (all ns))) l))

  walk-operation_tree :
      (o : Operation) (l : Listener P)
      → walk X E (operation_tree o) l ≡ on_event X E (operation_event o) l
  walk-operation_tree (apply_u ns a) l = walk_u ns a l
  walk-operation_tree (apply_cx a b) l = walk_cx a b l
  walk-operation_tree (apply_gate g xs) l = walk_gate g xs l
  walk-operation_tree (apply_angles g ns xs) l = walk_angles g ns xs l
  walk-operation_tree (measure q c) l = walk_measure q c l

  pub walk-statement_tree :
      (s : Statement) (l : Listener P)
      → walk X E (statement_tree s) l ≡ walk_tree X E (statement_events s) l
  unfolding walk walk_all enter_rule exit_rule walk_tree
  walk-statement_tree (declare_q r n) l = refl
  walk-statement_tree (declare_c r n) l = refl
  walk-statement_tree (operate o) l =
      wrapped (walk X E (operation_tree o) l)
      ∙ walk-operation_tree o l
      ∙ sym (>>=-ok (on_event X E (operation_event o) l))
  walk-statement_tree (guarded c n o) l =
      let act = node rule_action (tree (operation_tree o) no_trees) in
      wrapped (walk X E (body_tree (guarded c n o)) l)
      ∙ wrapped (walk X E act l)
      ∙ wrapped (walk X E (operation_tree o) l)
      ∙ walk-operation_tree o l
      ∙ sym (>>=-ok (on_event X E (operation_event o) l))
