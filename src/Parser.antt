-- ===== src/Parser.antt =====
-- The parser that ANTLR generates for OpenQasm (compiler/generated/OQASM2Parser.h and .cpp): its tokens,
-- its contexts, and what its rule functions are made of.
-- The ANTLR runtime is not in the repository. `predict` is `adaptivePredict`: the alternative for a
-- decision, the stack of invoking states, the precedence of the innermost `exp`, and the tokens to come.
-- `complaint` is the line, the position and the message of a syntax error. The error listener
-- (compiler/OQASMErrorListener.hpp) ends the program on the first error, so the error strategy recovers
-- from none, and an unexpected token is an error wherever the strategy reports it.
pub mod Kinds
pub mod Indices
pub mod Rules
pub mod Program
pub mod Walk
pub mod Written
pub mod Lookahead
pub mod Arguments
pub mod Shapes
pub mod Statements
pub mod Events
pub mod Kernels
pub mod Leaves
pub mod Progress
pub mod Ends
pub mod Sums
pub mod Operations
pub mod Total
pub mod Rest
use xacc_ibm.Common.{
  ℕ, zero, suc, Bool, true, false, List, [], ◌∷◌, ◌++◌, Option, none, some, Result, ok, err, error,
  out_of_fuel, ◌==◌, if◌then◌else◌, length, contains,
}
use xacc_ibm.Common
use xacc_ibm.Common.Text.{Text, codes, to_string}

-- A token of the stream: its type and its text. The stream ends where the list ends.
pub record Token : Type 0 where
  pub kind : ℕ
  pub text : Text

-- A context: the index of its rule and its children. A terminal node is a leaf.
mutual
  pub data Tree : Type 0 where
    leaf : Token → Tree
    node : ℕ → Trees → Tree

  pub data Trees : Type 0 where
    no_trees : Trees
    tree : Tree → Trees → Trees

abbrev pub to_trees : List Tree → Trees
to_trees [] = no_trees
to_trees (t ∷ ts) = tree t (to_trees ts)

-- What is used of the runtime.
pub record Runtime : Type 0 where
  pub predict : ℕ → List ℕ → ℕ → List Token → ℕ
  pub complaint : List ℕ → List Token → ℕ × ℕ × Text

-- A part of a rule function, on the stack of invoking states and the tokens to come: the children
-- that it adds to the current context, and the tokens it leaves.
abbrev pub Parser : Type 0
Parser = List ℕ → List Token → Result (List Tree × List Token)

-- `Token::EOF` stands for no token.
abbrev pub eof : ℕ
eof = 0

-- `_input->LA(1)`
abbrev pub la : List Token → ℕ
la [] = eof
la (t ∷ ts) = t.kind

abbrev pub nothing : Parser
nothing ctx ts = ok ([], ts)

infixl 5 ◌>>◌
unfoldable pub ◌>>◌ : Parser → Parser → Parser
◌>>◌ p q ctx ts =
    Common.◌>>=◌ (p ctx ts)
      λ (xs, rest). Common.◌>>=◌ (q ctx rest) λ (ys, rest'). ok (xs ++ ys, rest')

-- The choice on the next token, `switch (_input->LA(1))` and its like.
unfoldable pub look : (ℕ → Parser) → Parser
look f ctx ts = f (la ts) ctx ts

-- The call of a rule function from the state `state`.
abbrev pub call : ℕ → Parser → Parser
call state p ctx = p (state ∷ ctx)

-- A rule function: the new context with the children that its body adds.
unfoldable pub rule : ℕ → Parser → Parser
rule r body ctx ts = Common.◌>>=◌ (body ctx ts) λ (xs, rest). ok (node r (to_trees xs) ∷ [], rest)

module _ (R : Runtime) where
  -- `OQASMErrorListener::syntaxError`
  unfoldable pub syntax_error : Parser
  syntax_error ctx ts =
      let (line, position, message) = R.complaint ctx ts in
      err (
        error (
          codes "Invalid OpenQASM source: line "
          ++ to_string line
          ++ codes ":"
          ++ to_string position
          ++ codes " "
          ++ message))

  -- `match(kind)`
  unfoldable pub match : ℕ → Parser
  match kind ctx [] = syntax_error ctx []
  match kind ctx (t ∷ ts) =
      if t.kind == kind then ok (leaf t ∷ [], ts) else syntax_error ctx (t ∷ ts)

  -- `consume()` of a token of a set, `recoverInline` of another
  unfoldable pub match_set : List ℕ → Parser
  match_set kinds ctx [] = syntax_error ctx []
  match_set kinds ctx (t ∷ ts) =
      if contains kinds t.kind then ok (leaf t ∷ [], ts) else syntax_error ctx (t ∷ ts)

  -- `while (_la is in kinds) { body }`. Each round takes a token at least: the fuel is the number of
  -- tokens and one.
  unfoldable pub repeat : ℕ → List ℕ → Parser → Parser
  repeat zero kinds body ctx ts = err out_of_fuel
  repeat (suc fuel) kinds body ctx ts =
      let round = (body >> repeat fuel kinds body) ctx ts in
      if contains kinds (la ts) then round else ok ([], ts)

  abbrev pub while_in : List ℕ → Parser → Parser
  while_in kinds body ctx ts = repeat (suc (length ts)) kinds body ctx ts

  -- `if (_la is in kinds) { body }`
  abbrev pub if_in : List ℕ → Parser → Parser
  if_in kinds body ctx ts = if contains kinds (la ts) then body ctx ts else ok ([], ts)

  -- `switch (adaptivePredict(_input, decision, _ctx))` with the alternatives from 1 on
  abbrev pub alternative : List Parser → ℕ → Parser
  alternative [] n = syntax_error
  alternative (p ∷ ps) zero = syntax_error
  alternative (p ∷ ps) (suc zero) = p
  alternative (p ∷ ps) (suc (suc n)) = alternative ps (suc n)

  unfoldable pub choose : ℕ → List Parser → Parser
  choose decision ps ctx ts = alternative ps (R.predict decision ctx 0 ts) ctx ts

  -- `while (alt != 2 && alt != INVALID_ALT_NUMBER)` behind a first round; where no alternative is
  -- viable, `adaptivePredict` throws.
  unfoldable pub repeat_predicted : ℕ → ℕ → Parser → Parser
  repeat_predicted zero decision body ctx ts = err out_of_fuel
  repeat_predicted (suc fuel) decision body ctx ts =
      let round = (body >> repeat_predicted fuel decision body) ctx ts in
      let alt = R.predict decision ctx 0 ts in
      if alt == 1 then round else if alt == 2 then ok ([], ts) else syntax_error ctx ts

  -- `do { body } while (...)` on a prediction
  abbrev pub many_predicted : ℕ → Parser → Parser
  many_predicted decision body ctx ts =
      (body >> repeat_predicted (suc (length ts)) decision body) ctx ts
