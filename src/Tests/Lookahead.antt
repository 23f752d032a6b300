-- ===== src/Tests/Lookahead.antt =====
-- A lookahead for the grammar of OpenQasm: what the ANTLR runtime predicts, where a few tokens decide.
use xacc_ibm.Common.{
  ℕ, ◌≡◌, refl, Bool, false, List, [], ◌∷◌, ◌==◌, if◌then◌else◌, contains, leb, length,
}
use xacc_ibm.Common.Text.{Text, codes}
use xacc_ibm.Parser.{Token, la, Runtime}
use xacc_ibm.Parser.Kinds.{
  t_1, t_4, t_10, t_11, t_12, t_16, t_19, t_20, t_21, t_22, t_23, token_qreg, token_creg,
  token_gate, token_opaque, token_id, token_real, token_int,
}
use xacc_ibm.Parser.Program.{statement_kinds}
use xacc_ibm.Parser.Written.{fixed, name_token, lparen, Number, integer, number_token}
use xacc_ibm.Parser.Written
use xacc_ibm.Parser.Lookahead.{IsGrammatical}

abbrev second : List Token → ℕ
second [] = 0
second (t ∷ ts) = la ts

abbrev third : List Token → ℕ
third [] = 0
third (t ∷ ts) = second ts

-- The token behind the first closing parenthesis.
abbrev behind : List Token → ℕ
behind [] = 0
behind (t ∷ ts) = let rest = behind ts in if t.kind == t_4 then la ts else rest

abbrev first_when : Bool → ℕ
first_when b = if b then 1 else 2

-- A name with parentheses: an operation with angles, a call of a kernel, or a gate that is declared.
abbrev named : List Token → ℕ
named ts =
    if second ts == t_1
    then (if contains (token_real ∷ token_int ∷ []) (third ts)
        then 4
        else if behind ts == t_10
        then 6
        else 4)
    else 4

abbrev of_statement : List Token → ℕ
of_statement ts =
    if contains (token_qreg ∷ token_creg ∷ []) (la ts)
    then 1
    else if la ts == token_gate
    then 2
    else if la ts == token_opaque
    then 3
    else if la ts == t_16
    then 5
    else if la ts == token_id
    then named ts
    else 4

abbrev of_name : List Token → ℕ
of_name ts =
    if second ts == t_1
    then (if contains (token_real ∷ token_int ∷ []) (third ts) then 1 else 2)
    else 1

abbrev of_operator : ℕ → ℕ
of_operator k =
    if k == t_19
    then 1
    else if k == t_20
    then 2
    else if k == t_21
    then 3
    else if k == t_22
    then 4
    else 5

-- The precedence up to which an operator goes on.
abbrev binds : ℕ → ℕ → Bool
binds p k =
    if k == t_19
    then leb p 8
    else if k == t_20
    then leb p 7
    else if k == t_21
    then leb p 6
    else if k == t_22
    then leb p 5
    else if k == t_23
    then leb p 3
    else false

abbrev predict : ℕ → List ℕ → ℕ → List Token → ℕ
predict d ctx p ts =
    if d == 7
    then first_when (contains statement_kinds (la ts))
    else if d == 8
    then first_when (la ts == t_11)
    else if d == 10
    then of_statement ts
    else if contains (12 ∷ 13 ∷ 18 ∷ []) d
    then first_when (second ts == t_12)
    else if contains (16 ∷ 22 ∷ []) d
    then of_name ts
    else if d == 30
    then of_operator (la ts)
    else if d == 31
    then first_when (binds p (la ts))
    else 1

-- An error stands at the number of tokens that are left.
abbrev pub runtime : Runtime
runtime = record { predict = predict; complaint = λ ctx ts. (1, length ts, codes "?") }

angles_name :
    (ctx : List ℕ) (g : Text) (n : Number) (ts : List Token)
    → predict 16 ctx 0 (name_token g ∷ lparen ∷ number_token n ∷ ts) ≡ 1
angles_name ctx g (Written.real s) ts = refl
angles_name ctx g (integer s) ts = refl

angles_statement :
    (ctx : List ℕ) (g : Text) (n : Number) (ts : List Token)
    → predict 10 ctx 0 (name_token g ∷ lparen ∷ number_token n ∷ ts) ≡ 4
angles_statement ctx g (Written.real s) ts = refl
angles_statement ctx g (integer s) ts = refl

pub runtime-IsGrammatical : IsGrammatical runtime
runtime-IsGrammatical = record {
  argument = λ ctx n ts. refl;
  q_register = λ ctx n ts. refl;
  c_register = λ ctx n ts. refl;
  exp_comma = λ ctx p ts. refl;
  exp_rparen = λ ctx p ts. refl;
  name_alone = λ ctx g n ts. refl;
  name_angles = angles_name;
  from_argument = λ ctx n i ts. refl;
  to_argument = λ ctx n i ts. refl;
  on_qreg = λ ctx ts. refl;
  on_creg = λ ctx ts. refl;
  on_u = λ ctx ts. refl;
  on_cx = λ ctx ts. refl;
  on_measure = λ ctx ts. refl;
  on_gate = λ ctx g n ts. refl;
  on_angles = angles_statement;
  on_if = λ ctx ts. refl;
  more_qreg = λ ctx ts. refl;
  more_creg = λ ctx ts. refl;
  more_u = λ ctx ts. refl;
  more_cx = λ ctx ts. refl;
  more_measure = λ ctx ts. refl;
  more_if = λ ctx ts. refl;
  more_gate = λ ctx g ts. refl;
  no_more = λ ctx ts. refl;
}
