-- ===== src/Parser/Lookahead.antt =====
-- What the proofs use of the predictions of the ANTLR runtime, for the decisions of the grammar: the
-- alternative that is the only one viable after the tokens shown, and the least where the grammar is
-- ambiguous (the decisions 7, 32 and 33).
use xacc_ibm.Common.{ℕ, ◌≡◌, List, ◌∷◌}
use xacc_ibm.Common.Text.{Text}
use xacc_ibm.Parser.{Token, Runtime}
use xacc_ibm.Parser.Kinds.{t_14, t_15, t_16, token_qreg, token_creg, token_measure}
use xacc_ibm.Parser.Written.{
  fixed, name_token, int_token, comma, lparen, rparen, lbracket, rbracket, rbrace, Number,
  number_token,
}

pub record IsGrammatical (R : Runtime) : Type 0 where
  -- `gatearg`, `qregister` and `cregister`: an index follows
  pub argument :
      (ctx : List ℕ) (n : Text) (ts : List Token)
      → R.predict 18 ctx 0 (name_token n ∷ lbracket ∷ ts) ≡ 1
  pub q_register :
      (ctx : List ℕ) (n : Text) (ts : List Token)
      → R.predict 12 ctx 0 (name_token n ∷ lbracket ∷ ts) ≡ 1
  pub c_register :
      (ctx : List ℕ) (n : Text) (ts : List Token)
      → R.predict 13 ctx 0 (name_token n ∷ lbracket ∷ ts) ≡ 1
  -- `exp`: no operator follows
  pub exp_comma : (ctx : List ℕ) (p : ℕ) (ts : List Token) → R.predict 31 ctx p (comma ∷ ts) ≡ 2
  pub exp_rparen : (ctx : List ℕ) (p : ℕ) (ts : List Token) → R.predict 31 ctx p (rparen ∷ ts) ≡ 2
  -- `gatename` in an operation: its own parentheses hold names
  pub name_alone :
      (ctx : List ℕ) (g n : Text) (ts : List Token)
      → R.predict 16 ctx 0 (name_token g ∷ name_token n ∷ ts) ≡ 1
  pub name_angles :
      (ctx : List ℕ) (g : Text) (n : Number) (ts : List Token)
      → R.predict 16 ctx 0 (name_token g ∷ lparen ∷ number_token n ∷ ts) ≡ 1
  -- `measure`: arguments come before registers
  pub from_argument :
      (ctx : List ℕ) (n i : Text) (ts : List Token)
      → R.predict 32 ctx 0 (name_token n ∷ lbracket ∷ int_token i ∷ rbracket ∷ ts) ≡ 1
  pub to_argument :
      (ctx : List ℕ) (n i : Text) (ts : List Token)
      → R.predict 33 ctx 0 (name_token n ∷ lbracket ∷ int_token i ∷ rbracket ∷ ts) ≡ 1
  -- `statement`
  pub on_qreg :
      (ctx : List ℕ) (ts : List Token) → R.predict 10 ctx 0 (fixed token_qreg "qreg" ∷ ts) ≡ 1
  pub on_creg :
      (ctx : List ℕ) (ts : List Token) → R.predict 10 ctx 0 (fixed token_creg "creg" ∷ ts) ≡ 1
  pub on_u : (ctx : List ℕ) (ts : List Token) → R.predict 10 ctx 0 (fixed t_14 "U" ∷ ts) ≡ 4
  pub on_cx : (ctx : List ℕ) (ts : List Token) → R.predict 10 ctx 0 (fixed t_15 "CX" ∷ ts) ≡ 4
  pub on_measure :
      (ctx : List ℕ) (ts : List Token) → R.predict 10 ctx 0 (fixed token_measure "measure" ∷ ts) ≡ 4
  pub on_gate :
      (ctx : List ℕ) (g n : Text) (ts : List Token)
      → R.predict 10 ctx 0 (name_token g ∷ name_token n ∷ ts) ≡ 4
  pub on_angles :
      (ctx : List ℕ) (g : Text) (n : Number) (ts : List Token)
      → R.predict 10 ctx 0 (name_token g ∷ lparen ∷ number_token n ∷ ts) ≡ 4
  pub on_if : (ctx : List ℕ) (ts : List Token) → R.predict 10 ctx 0 (fixed t_16 "if" ∷ ts) ≡ 5
  -- the statements of a line: a line takes all it can
  pub more_qreg :
      (ctx : List ℕ) (ts : List Token) → R.predict 7 ctx 0 (fixed token_qreg "qreg" ∷ ts) ≡ 1
  pub more_creg :
      (ctx : List ℕ) (ts : List Token) → R.predict 7 ctx 0 (fixed token_creg "creg" ∷ ts) ≡ 1
  pub more_u : (ctx : List ℕ) (ts : List Token) → R.predict 7 ctx 0 (fixed t_14 "U" ∷ ts) ≡ 1
  pub more_cx : (ctx : List ℕ) (ts : List Token) → R.predict 7 ctx 0 (fixed t_15 "CX" ∷ ts) ≡ 1
  pub more_measure :
      (ctx : List ℕ) (ts : List Token) → R.predict 7 ctx 0 (fixed token_measure "measure" ∷ ts) ≡ 1
  pub more_if : (ctx : List ℕ) (ts : List Token) → R.predict 7 ctx 0 (fixed t_16 "if" ∷ ts) ≡ 1
  pub more_gate :
      (ctx : List ℕ) (g : Text) (ts : List Token) → R.predict 7 ctx 0 (name_token g ∷ ts) ≡ 1
  pub no_more : (ctx : List ℕ) (ts : List Token) → R.predict 7 ctx 0 (rbrace ∷ ts) ≡ 2
