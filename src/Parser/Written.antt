-- ===== src/Parser/Written.antt =====
-- Programs as their authors think of them: statements, their tokens, and the callbacks that they are to
-- make. Expressions are numbers, and registers are indexed.
use xacc_ibm.Common.{ℕ, List, [], ◌∷◌, ◌++◌, map, Option, some, String}
use xacc_ibm.Common.Text.{Text, codes}
use xacc_ibm.Listener.{
  Event, enter_kernel, exit_kernel, exit_u, exit_cx, exit_user_gate, exit_measure,
}
use xacc_ibm.Parser.{Token}
use xacc_ibm.Parser.Kinds.{
  t_0, t_1, t_2, t_3, t_4, t_5, t_6, t_7, t_8, t_9, t_10, t_12, t_13, t_14, t_15, t_16, t_17, t_30,
  token_qreg, token_creg, token_measure, token_openqasm, token_id, token_real, token_int,
}

abbrev pub fixed : ℕ → String → Token
fixed k s = record { kind = k; text = codes s }

abbrev pub name_token : Text → Token
name_token s = record { kind = token_id; text = s }

abbrev pub int_token : Text → Token
int_token s = record { kind = token_int; text = s }

abbrev pub real_token : Text → Token
real_token s = record { kind = token_real; text = s }

abbrev pub comma : Token
comma = fixed t_3 ","

abbrev pub lparen : Token
lparen = fixed t_1 "("

abbrev pub rparen : Token
rparen = fixed t_4 ")"

abbrev pub lbracket : Token
lbracket = fixed t_12 "["

abbrev pub rbracket : Token
rbracket = fixed t_13 "]"

abbrev pub semicolon : Token
semicolon = fixed t_10 ";"

abbrev pub rbrace : Token
rbrace = fixed t_6 "}"

-- `q[0]`
pub record Arg : Type 0 where
  pub register : Text
  pub index : Text

-- A number, with or without a point.
pub data Number : Type 0 where
  real integer : Text → Number

abbrev pub number_text : Number → Text
number_text (real s) = s
number_text (integer s) = s

abbrev pub number_token : Number → Token
number_token (real s) = real_token s
number_token (integer s) = int_token s

-- A list with one element at least, and its tokens, with commas between.
pub record Some (A : Type 0) : Type 0 where
  pub head : A
  pub others : List A

abbrev pub all : {A : Type 0} → Some A → List A
all s = s.head ∷ s.others

abbrev pub behind_commas : {A : Type 0} → (A → List Token) → List A → List Token
behind_commas f [] = []
behind_commas f (a ∷ xs) = comma ∷ (f a ++ behind_commas f xs)

abbrev pub separated : {A : Type 0} → (A → List Token) → Some A → List Token
separated f s = f s.head ++ behind_commas f s.others

pub data Operation : Type 0 where
  apply_u : Some Number → Arg → Operation
  apply_cx : Arg → Arg → Operation
  apply_gate : Text → Some Arg → Operation
  apply_angles : Text → Some Number → Some Arg → Operation
  measure : Arg → Arg → Operation

-- A declaration of a register, an operation, or an operation behind `if (c == n)`.
pub data Statement : Type 0 where
  declare_q declare_c : Text → Text → Statement
  operate : Operation → Statement
  guarded : Text → Text → Operation → Statement

abbrev pub arg_tokens : Arg → List Token
arg_tokens a = name_token a.register ∷ lbracket ∷ int_token a.index ∷ rbracket ∷ []

abbrev pub number_tokens : Number → List Token
number_tokens n = number_token n ∷ []

abbrev pub operation_tokens : Operation → List Token
operation_tokens (apply_u ns a) =
    fixed t_14 "U" ∷ lparen ∷ (separated number_tokens ns ++ rparen ∷ arg_tokens a)
operation_tokens (apply_cx a b) = fixed t_15 "CX" ∷ (arg_tokens a ++ comma ∷ arg_tokens b)
operation_tokens (apply_gate g xs) = name_token g ∷ separated arg_tokens xs
operation_tokens (apply_angles g ns xs) =
    name_token g ∷ lparen ∷ (separated number_tokens ns ++ rparen ∷ separated arg_tokens xs)
operation_tokens (measure q c) =
    fixed token_measure "measure" ∷ (arg_tokens q ++ fixed t_30 "->" ∷ arg_tokens c)

-- The tokens of a statement, up to its semicolon.
abbrev pub body_tokens : Statement → List Token
body_tokens (declare_q r n) =
    fixed token_qreg "qreg" ∷ arg_tokens (record { register = r; index = n })
body_tokens (declare_c r n) =
    fixed token_creg "creg" ∷ arg_tokens (record { register = r; index = n })
body_tokens (operate o) = operation_tokens o
body_tokens (guarded c n o) =
    fixed t_16 "if"
    ∷ lparen
    ∷ name_token c
    ∷ fixed t_17 "=="
    ∷ int_token n
    ∷ rparen
    ∷ operation_tokens o

abbrev pub statement_tokens : Statement → List Token
statement_tokens s = body_tokens s ++ semicolon ∷ []

abbrev pub statements_tokens : List Statement → List Token
statements_tokens [] = []
statements_tokens (s ∷ ss) = statement_tokens s ++ statements_tokens ss

-- The callbacks that a statement is to make.
abbrev pub index_of : Arg → Option Text
index_of a = some a.index

abbrev pub operation_event : Operation → Event
operation_event (apply_u ns a) = exit_u (index_of a) (map number_text (all ns))
operation_event (apply_cx a b) = exit_cx (index_of a) (index_of b)
operation_event (apply_gate g xs) = exit_user_gate g (map index_of (all xs)) []
operation_event (apply_angles g ns xs) =
    exit_user_gate g (map index_of (all xs)) (map number_text (all ns))
operation_event (measure q c) = exit_measure (index_of q) (index_of c)

-- There is no callback for a condition.
abbrev pub statement_events : Statement → List Event
statement_events (declare_q r n) = []
statement_events (declare_c r n) = []
statement_events (operate o) = operation_event o ∷ []
statement_events (guarded c n o) = operation_event o ∷ []

abbrev pub statements_events : List Statement → List Event
statements_events [] = []
statements_events (s ∷ ss) = statement_events s ++ statements_events ss

-- A declared parameter: its type, and its name.
pub data TypeName : Type 0 where
  int_type double_type float_type : TypeName

pub record Typed : Type 0 where
  pub of_type : TypeName
  pub name : Text

abbrev pub type_token : TypeName → Token
type_token int_type = fixed t_7 "int"
type_token double_type = fixed t_8 "double"
type_token float_type = fixed t_9 "float"

abbrev pub typed_tokens : Typed → List Token
typed_tokens p = type_token p.of_type ∷ name_token p.name ∷ []

-- A kernel: its name, the name of its buffer, its parameters, and its statements.
pub record Written : Type 0 where
  pub name : Text
  pub buffer : Text
  pub params : List Typed
  pub body : Some Statement

abbrev pub kernel_tokens : Written → List Token
kernel_tokens w =
    fixed t_0 "__qpu__"
    ∷ name_token w.name
    ∷ lparen
    ∷ fixed t_2 "AcceleratorBuffer"
    ∷ name_token w.buffer
    ∷ (behind_commas typed_tokens w.params
        ++ rparen
          ∷ fixed t_5 "{"
          ∷ fixed token_openqasm "OPENQASM"
          ∷ real_token (codes "2.0")
          ∷ semicolon
          ∷ (statements_tokens (all w.body) ++ rbrace ∷ []))

abbrev pub kernel_events : Written → List Event
kernel_events w =
    enter_kernel w.name (map (λ p. p.name) w.params)
    ∷ (statements_events (all w.body) ++ exit_kernel ∷ [])

abbrev pub source_tokens : List Written → List Token
source_tokens [] = []
source_tokens (w ∷ ws) = kernel_tokens w ++ source_tokens ws

abbrev pub source_events : List Written → List Event
source_events [] = []
source_events (w ∷ ws) = kernel_events w ++ source_events ws
