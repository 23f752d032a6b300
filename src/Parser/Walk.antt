-- ===== src/Parser/Walk.antt =====
-- The accessors of the contexts (compiler/generated/OQASM2Parser.cpp) and the walk over the parse tree
-- that calls the listener (compiler/OQASMToXACCListener.cpp).
use xacc_ibm.Common.{
  ℕ, zero, suc, List, [], ◌∷◌, ◌++◌, Option, none, some, Result, ok, at_hand, ◌>>=◌, ◌==◌,
  if◌then◌else◌, get_elem?,
}
use xacc_ibm.Common.Text.{Text}
use xacc_ibm.Ir.{Xacc}
use xacc_ibm.Listener.{
  Listener, Params, enter_kernel, exit_kernel, kernel_call, exit_u, exit_cx, exit_user_gate,
  exit_measure, on_event,
}
use xacc_ibm.Parser.{Token, Tree, Trees, leaf, node, no_trees, tree}
use xacc_ibm.Parser.Kinds.{token_int}
use xacc_ibm.Parser.Indices.{
  rule_id, rule_xacckernel, rule_typedparam, rule_param, rule_kernelcall, rule_gatename,
  rule_gatearg, rule_gatearglist, rule_explist, rule_exp, rule_measure, rule_u, rule_cx,
  rule_user_def_gate,
}

-- `getText()`: the texts of the leaves.
unfoldable mutual
  pub text_of : Tree → Text
  text_of (leaf t) = t.text
  text_of (node r ts) = texts_of ts

  pub texts_of : Trees → Text
  texts_of no_trees = []
  texts_of (tree t ts) = text_of t ++ texts_of ts

-- `getRuleContexts<T>()`, by the index of the rule
unfoldable pub contexts : ℕ → Trees → List Tree
contexts r no_trees = []
contexts r (tree (leaf t) ts) = contexts r ts
contexts r (tree (node s us) ts) =
    let rest = contexts r ts in if s == r then node s us ∷ rest else rest

-- `getToken(kind, 0)`
unfoldable pub first_token : ℕ → Trees → Option Token
first_token k no_trees = none
first_token k (tree (node s us) ts) = first_token k ts
first_token k (tree (leaf t) ts) =
    let rest = first_token k ts in if t.kind == k then some t else rest

abbrev pub children : Tree → Trees
children (leaf t) = no_trees
children (node r ts) = ts

-- `getRuleContext<T>(0)`, and the children of the context
abbrev pub first_of : List Tree → Option Tree
first_of [] = none
first_of (t ∷ ts) = some t

unfoldable pub context : ℕ → Trees → Option Tree
unfolding contexts
context r ts = first_of (contexts r ts)

abbrev pub all_of : ℕ → Option Tree → List Tree
all_of r none = []
all_of r (some t) = contexts r (children t)

abbrev pub map_texts : List Tree → List Text
map_texts [] = []
map_texts (t ∷ ts) = text_of t ∷ map_texts ts

-- `INT()->getText()` of an argument
abbrev pub int_text : Tree → Option Text
int_text t = elim (first_token token_int (children t)) [ none ↦ none | some i ↦ some i.text ]

abbrev pub int_of : Option Tree → Option Text
int_of none = none
int_of (some t) = int_text t

abbrev pub int_texts : List Tree → List (Option Text)
int_texts [] = []
int_texts (t ∷ ts) = int_text t ∷ int_texts ts

-- The text of the first context of a rule.
abbrev pub name_of : Option Tree → Result Text
name_of t = do c ← at_hand t; ok (text_of c)

-- `typedparam(i)->param()->getText()`
abbrev pub param_names : List Tree → Result (List Text)
param_names [] = ok []
param_names (t ∷ ts) = do
  p ← name_of (context rule_param (children t))
  ps ← param_names ts
  ok (p ∷ ps)

-- `qbit` and `cbit`: the second and the fourth child, where it is an argument
abbrev pub child : ℕ → Trees → Option Tree
child n no_trees = none
child zero (tree t ts) = some t
child (suc n) (tree t ts) = child n ts

abbrev pub argument : Option Tree → Option Tree
argument none = none
argument (some (leaf t)) = none
argument (some (node r ts)) = if r == rule_gatearg then some (node r ts) else none

module _ {P D : Type 0} (X : Xacc P) (E : Params P D) where
  -- `enterRule(listener)`: the listener has one enter callback.
  unfoldable pub enter_rule : ℕ → Trees → Listener P → Result (Listener P)
  enter_rule r ts l =
      if r == rule_xacckernel
      then (do
        name ← name_of (context rule_id ts)
        params ← param_names (contexts rule_typedparam ts)
        on_event X E (enter_kernel name params) l)
      else ok l

  -- `exitRule(listener)`
  unfoldable pub exit_rule : ℕ → Trees → Listener P → Result (Listener P)
  exit_rule r ts l =
      if r == rule_xacckernel
      then on_event X E exit_kernel l
      else if r == rule_kernelcall
      then (do name ← name_of (context rule_id ts); on_event X E (kernel_call name) l)
      else if r == rule_u
      then on_event X E
          (exit_u (int_of (context rule_gatearg ts))
            (map_texts (all_of rule_exp (context rule_explist ts))))
          l
      else if r == rule_cx
      then on_event X E
          (exit_cx (int_of (get_elem? (contexts rule_gatearg ts) 0))
            (int_of (get_elem? (contexts rule_gatearg ts) 1)))
          l
      else if r == rule_user_def_gate
      then (do
        name ← name_of (first_of (all_of rule_id (context rule_gatename ts)))
        on_event X E
            (exit_user_gate name (int_texts (all_of rule_gatearg (context rule_gatearglist ts)))
              (map_texts (all_of rule_exp (context rule_explist ts))))
            l)
      else if r == rule_measure
      then on_event X E
          (exit_measure (int_of (argument (child 1 ts))) (int_of (argument (child 3 ts)))) l
      else ok l

  -- `ParseTreeWalker::DEFAULT.walk(&listener, tree)`
  unfoldable mutual
    pub walk : Tree → Listener P → Result (Listener P)
    walk (leaf t) l = ok l
    walk (node r ts) l = do
      entered ← enter_rule r ts l
      inside ← walk_all ts entered
      exit_rule r ts inside

    pub walk_all : Trees → Listener P → Result (Listener P)
    walk_all no_trees l = ok l
    walk_all (tree t ts) l = do l' ← walk t l; walk_all ts l'
