-- ===== src/Parser/Arguments.antt =====
-- Arguments, numbers and their lists are read as they are written.
use xacc_ibm.Common.{
  ℕ, zero, suc, ◌+◌, ◌≤◌, ◌<◌, ◌≡◌, refl, ap, ◌∙◌, false, List, [], ◌∷◌, ◌++◌, map, Option, none,
  some, Result, ok, ◌==◌, length, length-append, append_assoc, append-nil, arith,
}
use xacc_ibm.Common
use xacc_ibm.Common.Text.{Text}
use xacc_ibm.Parser.{
  look, Token, Tree, leaf, node, tree, no_trees, to_trees, Runtime, Parser, match, repeat, rule,
  call, while_in, choose, ◌>>◌,
}
use xacc_ibm.Parser.Kinds.{t_3}
use xacc_ibm.Parser.Indices.{
  rule_id, rule_real, rule_exp, rule_explist, rule_gatearg, rule_gatearglist,
}
use xacc_ibm.Parser.Rules.{id, real, gatearg, gatearglist, exp, exp_within, explist, primary}
use xacc_ibm.Parser.Written.{
  name_token, int_token, real_token, comma, rparen, lbracket, rbracket, semicolon, Arg, Number,
  integer, number_token, Some, behind_commas, separated, arg_tokens, number_tokens,
}
use xacc_ibm.Parser.Written
use xacc_ibm.Parser.Lookahead.{IsGrammatical}

-- The contexts.
abbrev pub id_tree : Text → Tree
id_tree s = node rule_id (tree (leaf (name_token s)) no_trees)

abbrev pub arg_tree : Arg → Tree
arg_tree a =
    node rule_gatearg (
      to_trees (id_tree a.register ∷ leaf lbracket ∷ leaf (int_token a.index) ∷ leaf rbracket ∷ []))

abbrev pub number_tree : Number → Tree
number_tree (Written.real s) =
    node rule_exp (tree (node rule_real (tree (leaf (real_token s)) no_trees)) no_trees)
number_tree (integer s) = node rule_exp (tree (leaf (int_token s)) no_trees)

abbrev pub comma_trees : {A : Type 0} → (A → Tree) → List A → List Tree
comma_trees f [] = []
comma_trees f (x ∷ xs) = leaf comma ∷ f x ∷ comma_trees f xs

abbrev pub list_trees : {A : Type 0} → (A → Tree) → Some A → List Tree
list_trees f s = f s.head ∷ comma_trees f s.others

pub le-behind_commas :
    {A : Type 0} (f : A → List Token) (xs : List A) → length xs ≤ length (behind_commas f xs)
le-behind_commas f [] = omega arith
le-behind_commas f (x ∷ xs) =
    omega (arith, le-behind_commas f xs, length-append (f x) (behind_commas f xs))

-- Two parts, one behind the other.
pub >>-ok :
    (p q : Parser) (ctx : List ℕ) (ts rest rest' : List Token) (xs ys : List Tree)
    → p ctx ts ≡ ok (xs, rest)
    → q ctx rest ≡ ok (ys, rest')
    → (p >> q) ctx ts ≡ ok (xs ++ ys, rest')
unfolding ◌>>◌
>>-ok p q ctx ts rest rest' xs ys hp hq = rw (hp, Common.◌>>=◌) (rw (hq, Common.◌>>=◌))

-- An element of a list is read as it is written before a comma and before `end`.
abbrev pub Reads : {A : Type 0} → (A → List Token) → (A → Tree) → Parser → List ℕ → Token → Type 0
Reads {A} f g p ctx end =
    (x : A) (ts : List Token) → p ctx (f x ++ end ∷ ts) ≡ ok (g x ∷ [], end ∷ ts)

module _ (R : Runtime) {A : Type 0} (f : A → List Token) (g : A → Tree) (p : Parser) (ctx : List ℕ)
    (end : Token) (hc : Reads f g p ctx comma) (he : Reads f g p ctx end)
    (e : (t_3 == end.kind) ≡ false) where
  pub element :
      (x : A) (xs : List A) (ts : List Token)
      → p ctx (f x ++ (behind_commas f xs ++ end ∷ ts))
        ≡ ok (g x ∷ [], behind_commas f xs ++ end ∷ ts)
  element x [] ts = he x ts
  element x (y ∷ xs) ts = hc x ((f y ++ behind_commas f xs) ++ end ∷ ts)

  -- The loop over the elements behind commas.
  pub repeat-behind_commas :
      (xs : List A) (fuel : ℕ) (ts : List Token)
      → length xs < fuel
      → repeat R fuel (t_3 ∷ []) (match R t_3 >> p) ctx (behind_commas f xs ++ end ∷ ts)
        ≡ ok (comma_trees g xs, end ∷ ts)
  unfolding repeat match
  repeat-behind_commas xs zero ts l = absurd (omega (arith, l))
  repeat-behind_commas [] (suc fuel) ts l = rw e refl
  repeat-behind_commas (x ∷ xs) (suc fuel) ts l =
      rw (append_assoc (f x) (behind_commas f xs) (end ∷ ts)) (
        >>-ok (match R t_3 >> p) (λ x x'. repeat R fuel (t_3 ∷ []) (match R t_3 >> p) x x') ctx
          (comma ∷ (f x ++ (behind_commas f xs ++ end ∷ ts))) (behind_commas f xs ++ end ∷ ts)
          (end ∷ ts) (leaf comma ∷ g x ∷ []) (comma_trees g xs)
          (>>-ok (match R t_3) p ctx (comma ∷ (f x ++ (behind_commas f xs ++ end ∷ ts)))
            (f x ++ (behind_commas f xs ++ end ∷ ts)) (behind_commas f xs ++ end ∷ ts)
            (leaf comma ∷ []) (g x ∷ []) refl (element x xs ts))
          (repeat-behind_commas xs fuel ts (omega arith)))

pub rule-ok :
    (r : ℕ) (body : Parser) (ctx : List ℕ) (ts rest : List Token) (xs : List Tree)
    → body ctx ts ≡ ok (xs, rest)
    → rule r body ctx ts ≡ ok (node r (to_trees xs) ∷ [], rest)
unfolding rule
rule-ok r body ctx ts rest xs h = rw (h, Common.◌>>=◌)

-- A rule of elements with commas between.
list-rule :
    (R : Runtime) {A : Type 0} (f : A → List Token) (g : A → Tree) (p : Parser) (end : Token)
    → ((ctx : List ℕ) → Reads f g p ctx comma)
    → ((ctx : List ℕ) → Reads f g p ctx end)
    → (t_3 == end.kind) ≡ false
    → (r first next : ℕ) (ctx : List ℕ) (xs : Some A) (ts : List Token)
    → rule r
        (call first p >> while_in R (t_3 ∷ []) (match R t_3 >> call next p))
        ctx
        (separated f xs ++ end ∷ ts)
      ≡ ok (node r (to_trees (list_trees g xs)) ∷ [], end ∷ ts)
list-rule R f g p end hc he e r first next ctx xs ts =
    let others = behind_commas f xs.others ++ end ∷ ts in
    rw (append_assoc (f xs.head) (behind_commas f xs.others) (end ∷ ts)) (
      rule-ok r _ ctx (f xs.head ++ others) (end ∷ ts) (list_trees g xs) (
        >>-ok (call first p) (while_in R (t_3 ∷ []) (match R t_3 >> call next p)) ctx
          (f xs.head ++ others) others (end ∷ ts) (g xs.head ∷ []) (comma_trees g xs.others)
          (element R f g p (first ∷ ctx) end (hc (first ∷ ctx)) (he (first ∷ ctx)) e xs.head
            xs.others ts)
          (repeat-behind_commas R f g (call next p) ctx end (hc (next ∷ ctx)) (he (next ∷ ctx)) e
            xs.others (suc (length others)) ts
            (omega (
              arith,
              le-behind_commas f xs.others,
              length-append (behind_commas f xs.others) (end ∷ ts),
            )))))

module _ (R : Runtime) (G : IsGrammatical R) where
  pub gatearg-arg_tokens :
      (ctx : List ℕ) (a : Arg) (ts : List Token)
      → gatearg R ctx (arg_tokens a ++ ts) ≡ ok (arg_tree a ∷ [], ts)
  unfolding gatearg rule choose match id ◌>>◌
  gatearg-arg_tokens ctx a ts =
      rw (G.argument ctx a.register (int_token a.index ∷ rbracket ∷ ts)) refl

  read_before_comma :
      (ctx : List ℕ) (n : Number) (ts : List Token)
      → exp R 0 ctx (number_tokens n ++ comma ∷ ts) ≡ ok (number_tree n ∷ [], comma ∷ ts)
  unfolding exp_within primary real rule match look
  read_before_comma ctx (Written.real s) ts = rw (G.exp_comma ctx 0 ts) refl
  read_before_comma ctx (integer s) ts = rw (G.exp_comma ctx 0 ts) refl

  read_before_rparen :
      (ctx : List ℕ) (n : Number) (ts : List Token)
      → exp R 0 ctx (number_tokens n ++ rparen ∷ ts) ≡ ok (number_tree n ∷ [], rparen ∷ ts)
  unfolding exp_within primary real rule match look
  read_before_rparen ctx (Written.real s) ts = rw (G.exp_rparen ctx 0 ts) refl
  read_before_rparen ctx (integer s) ts = rw (G.exp_rparen ctx 0 ts) refl

  pub explist-separated :
      (ctx : List ℕ) (ns : Some Number) (ts : List Token)
      → explist R ctx (separated number_tokens ns ++ rparen ∷ ts)
        ≡ ok (node rule_explist (to_trees (list_trees number_tree ns)) ∷ [], rparen ∷ ts)
  unfolding explist
  explist-separated =
      list-rule R number_tokens number_tree (exp R 0) rparen read_before_comma read_before_rparen
        refl rule_explist 329 331

  pub gatearglist-separated :
      (ctx : List ℕ) (xs : Some Arg) (ts : List Token)
      → gatearglist R ctx (separated arg_tokens xs ++ semicolon ∷ ts)
        ≡ ok (node rule_gatearglist (to_trees (list_trees arg_tree xs)) ∷ [], semicolon ∷ ts)
  unfolding gatearglist
  gatearglist-separated =
      list-rule R arg_tokens arg_tree (gatearg R) semicolon
        (λ ctx a ts. gatearg-arg_tokens ctx a (comma ∷ ts))
        (λ ctx a ts. gatearg-arg_tokens ctx a (semicolon ∷ ts)) refl rule_gatearglist 230 232
