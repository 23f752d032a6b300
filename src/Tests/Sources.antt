-- ===== src/Tests/Sources.antt =====
-- The theorems on the compiler's front end at concrete sources, and tests of the parser.
use xacc_ibm.Listener.{read_indices}
use xacc_ibm.Listener.Indices.{printed, read_indices-printed}
use xacc_ibm.Common.{
  thrown, ◌⊎◌, ◌==◌, ◌≡◌, refl, true, false, List, [], ◌∷◌, ◌++◌, ok, err, error, undefined, ◌>>=◌,
}
use xacc_ibm.Common.Text.{Text, codes, to_string, text_eq}
use xacc_ibm.Common.Numbers.{stoi}
use xacc_ibm.Ir.{Kernel, gate, hadamard, cnot, u, measure}
use xacc_ibm.Listener.{walk_tree, capitalize}
use xacc_ibm.Parser.Leaves.{yields}
use xacc_ibm.Parser.Rest.{xaccsrc_ends}
use xacc_ibm.Parser.{Token, la, Tree, leaf, node, to_trees}
use xacc_ibm.Parser
use xacc_ibm.Parser.Rules
use xacc_ibm.Parser.Program
use xacc_ibm.Parser.Walk
use xacc_ibm.Listener
use xacc_ibm.Parser.Kinds.{t_0, t_2, t_5, t_20, t_21, token_gate, token_openqasm}
use xacc_ibm.Parser.Indices.{rule_exp}
use xacc_ibm.Parser.Rules.{exp}
use xacc_ibm.Parser.Program.{statement, xaccsrc}
use xacc_ibm.Parser.Walk.{text_of, walk}
use xacc_ibm.Parser.Written.{
  double_type, int_type, fixed, name_token, int_token, real_token, lparen, rparen, rbrace,
  semicolon, Arg, Number, integer, Some, declare_q, declare_c, apply_u, apply_cx, apply_gate,
  apply_angles, operate, guarded, Written, kernel_tokens, source_tokens, source_events,
}
use xacc_ibm.Parser.Written
use xacc_ibm.Parser.Written.{all}
use xacc_ibm.Source.{new_listener, compile_tokens}
use xacc_ibm.Source.Reading.{compile_tokens-append, compile_tokens-source_tokens}
use xacc_ibm.Source.Circuits.{Gate, turned, linked, measured}
use xacc_ibm.Source.Conditions.{unconditional, compile_tokens-unconditional}
use xacc_ibm.Tests.Framework.{xacc}
use xacc_ibm.Tests.Lookahead.{runtime, runtime-IsGrammatical}
use xacc_ibm.Source.Universal.{compile_tokens-universal}
use xacc_ibm.Tests.Printing.{params, knows_u}

abbrev pub q0 : Arg
q0 = record { register = codes "q"; index = codes "0" }

abbrev pub q1 : Arg
q1 = record { register = codes "q"; index = codes "1" }

-- A Bell pair, a rotation, and a gate behind a condition.
abbrev pub bell : Written
bell = record {
  name = codes "bell";
  buffer = codes "b";
  params =
      record { of_type = double_type; name = codes "theta" }
      ∷ record { of_type = int_type; name = codes "n" }
      ∷ [];
  body = record {
    head = declare_c (codes "c") (codes "2");
    others =
        operate (apply_gate (codes "h") (record { head = q0; others = [] }))
        ∷ operate (apply_cx q0 q1)
        ∷ guarded (codes "c") (codes "1")
            (apply_gate (codes "h") (record { head = q1; others = [] }))
        ∷ operate (
            apply_u
              (record {
                head = Written.real (codes "0.5");
                others = integer (codes "1") ∷ integer (codes "2") ∷ [];
              })
              q1)
        ∷ operate (Written.measure q0 (record { register = codes "c"; index = codes "0" }))
        ∷ [];
  };
}

abbrev bell_kernel : Kernel Text
bell_kernel = record {
  name = codes "bell";
  parameters = codes "theta" ∷ codes "n" ∷ [];
  analog = false;
  instructions =
      gate hadamard true (0 ∷ []) []
      ∷ gate cnot true (0 ∷ 1 ∷ []) []
      ∷ gate hadamard true (1 ∷ []) []
      ∷ gate u true (1 ∷ []) (codes "0.5" ∷ codes "1" ∷ codes "2" ∷ [])
      ∷ gate measure true (0 ∷ []) ([] ∷ [])
      ∷ [];
}

bell_source : compile_tokens xacc params runtime (source_tokens (bell ∷ [])) ≡ ok (bell_kernel ∷ [])
unfolding compile_tokens xaccsrc walk Parser.rule Parser.look Parser.repeat Parser.◌>>◌ Parser.match
    Parser.choose Parser.repeat_predicted Program.typedparam Program.type Rules.param
    Parser.match_set Program.xacckernel Program.mainprog Program.program Program.line
    Program.statement Program.regdecl Program.conditional Program.action Rules.id Rules.real
    Rules.creg Rules.cregister Rules.registersize Rules.qop Rules.uop Rules.user_alternative
    Rules.cx_alternative Rules.u_alternative Rules.gatename Rules.gatearg Rules.gatearglist
    Rules.explist Rules.exp_within Rules.primary Rules.measure Walk.contexts Walk.context
    Walk.enter_rule Walk.exit_rule Walk.first_token text_of stoi capitalize text_eq
    Listener.on_event Listener.read_indices Listener.str_to_param
bell_source = refl

compile_tokens-source_tokens_example :
    compile_tokens xacc params runtime (source_tokens (bell ∷ bell ∷ []))
    ≡ (walk_tree xacc params (source_events (bell ∷ bell ∷ [])) new_listener >>= λ l. ok l.kernels)
compile_tokens-source_tokens_example =
    compile_tokens-source_tokens xacc params runtime runtime-IsGrammatical (bell ∷ bell ∷ [])

-- A source with its last kernel misspelt.
compile_tokens-append_example :
    compile_tokens xacc params runtime
      (source_tokens (bell ∷ []) ++ (name_token (codes "__qpu") ∷ source_tokens (bell ∷ [])))
    ≡ (walk_tree xacc params (source_events (bell ∷ [])) new_listener >>= λ l. ok l.kernels)
compile_tokens-append_example =
    compile_tokens-append xacc params runtime runtime-IsGrammatical (bell ∷ [])
      (name_token (codes "__qpu") ∷ source_tokens (bell ∷ [])) refl

compile_tokens-unconditional_example :
    compile_tokens xacc params runtime (source_tokens (bell ∷ []))
    ≡ compile_tokens xacc params runtime (source_tokens (unconditional bell ∷ []))
compile_tokens-unconditional_example =
    compile_tokens-unconditional xacc params runtime runtime-IsGrammatical (bell ∷ [])

-- The spellings of the universal gate, and the same kernel with `U`.
abbrev spelled : Written
spelled = record {
  name = codes "s";
  buffer = codes "b";
  params = [];
  body = record {
    head = operate (
        apply_angles (codes "u3")
          (record {
            head = integer (codes "1");
            others = integer (codes "2") ∷ integer (codes "3") ∷ [];
          })
          (record { head = q0; others = [] }));
    others =
        operate (
          apply_angles (codes "u2")
            (record { head = integer (codes "2"); others = integer (codes "3") ∷ [] })
            (record { head = q1; others = [] }))
        ∷ operate (
            apply_angles (codes "u1") (record { head = integer (codes "3"); others = [] })
              (record { head = q0; others = [] }))
        ∷ [];
  };
}

abbrev spelled_with_u : Written
spelled_with_u = record spelled {
  body = record {
    head = operate (
        apply_u
          (record {
            head = integer (codes "1");
            others = integer (codes "2") ∷ integer (codes "3") ∷ [];
          })
          q0);
    others =
        operate (
          apply_u
            (record {
              head = Written.real (codes "1.5707963");
              others = integer (codes "2") ∷ integer (codes "3") ∷ [];
            })
            q1)
        ∷ operate (
            apply_u
              (record {
                head = Written.real (codes "0.0");
                others = Written.real (codes "0.0") ∷ integer (codes "3") ∷ [];
              })
              q0)
        ∷ [];
  };
}

compile_tokens-universal_example :
    compile_tokens xacc params runtime (source_tokens (spelled ∷ []))
    ≡ compile_tokens xacc params runtime (source_tokens (spelled_with_u ∷ []))
unfolding text_eq to_string
compile_tokens-universal_example =
    compile_tokens-universal xacc params knows_u refl refl runtime runtime-IsGrammatical
      (spelled ∷ [])

-- `1 * 1 - 1` and `1 - 1 - 1`: in the grammar a difference binds more than a product.
abbrev one : Token
one = int_token (codes "1")

abbrev minus : Token
minus = fixed t_20 "-"

abbrev times : Token
times = fixed t_21 "*"

abbrev number : Token → Tree
number t = node rule_exp (to_trees (leaf t ∷ []))

abbrev binary : Tree → Token → Tree → Tree
binary a o b = node rule_exp (to_trees (a ∷ leaf o ∷ b ∷ []))

minus_first :
    exp runtime 0 [] (one ∷ times ∷ one ∷ minus ∷ one ∷ [])
    ≡ ok (binary (number one) times (binary (number one) minus (number one)) ∷ [], [])
unfolding Rules.exp_within Rules.primary Parser.look Parser.match Parser.◌>>◌
minus_first = refl

minus_left :
    exp runtime 0 [] (one ∷ minus ∷ one ∷ minus ∷ one ∷ [])
    ≡ ok (binary (binary (number one) minus (number one)) minus (number one) ∷ [], [])
unfolding Rules.exp_within Rules.primary Parser.look Parser.match Parser.◌>>◌
minus_left = refl

-- A kernel without `OPENQASM`.
no_version :
    compile_tokens xacc params runtime (
      fixed t_0 "__qpu__"
      ∷ name_token (codes "k")
      ∷ lparen
      ∷ fixed t_2 "AcceleratorBuffer"
      ∷ name_token (codes "b")
      ∷ rparen
      ∷ fixed t_5 "{"
      ∷ rbrace
      ∷ [])
    ≡ err (error (codes "Invalid OpenQASM source: line 1:1 ?"))
unfolding compile_tokens xaccsrc Parser.rule Parser.look Parser.repeat Parser.◌>>◌ Parser.match
    Parser.syntax_error Program.xacckernel Program.mainprog Rules.id to_string
no_version = refl

-- `__qpu__ k(AcceleratorBuffer b) { OPENQASM 2.0; gate g a { h a; } }`: the operation of the declared gate
-- reaches the listener, and its argument has no index.
abbrev declared_gate : List Token
declared_gate =
    fixed t_0 "__qpu__"
    ∷ name_token (codes "k")
    ∷ lparen
    ∷ fixed t_2 "AcceleratorBuffer"
    ∷ name_token (codes "b")
    ∷ rparen
    ∷ fixed t_5 "{"
    ∷ fixed token_openqasm "OPENQASM"
    ∷ real_token (codes "2.0")
    ∷ semicolon
    ∷ fixed token_gate "gate"
    ∷ name_token (codes "g")
    ∷ name_token (codes "a")
    ∷ fixed t_5 "{"
    ∷ name_token (codes "h")
    ∷ name_token (codes "a")
    ∷ semicolon
    ∷ rbrace
    ∷ rbrace
    ∷ []

declared_gate_undefined : compile_tokens xacc params runtime declared_gate ≡ err undefined
unfolding compile_tokens xaccsrc walk Parser.rule Parser.look Parser.repeat Parser.◌>>◌ Parser.match
    Parser.choose Parser.repeat_predicted Program.xacckernel Program.mainprog Program.program
    Program.line Program.statement Program.gatedecl Program.gatebody Program.gateprog
    Program.gateline Rules.gate Rules.id Rules.real Rules.uop Rules.user_alternative Rules.gatename
    Rules.gatearg Rules.gatearglist Walk.contexts Walk.context Walk.enter_rule Walk.exit_rule
    Walk.first_token text_of capitalize text_eq Listener.on_event Listener.read_indices
declared_gate_undefined = refl

xaccsrc_ends_example :
    ((trees : List Tree) × (rest : List Token) × (xaccsrc runtime [] declared_gate
        ≡ ok (trees, rest))
      × (yields trees ++ rest ≡ declared_gate)
      × ((t_0 == la rest) ≡ false))
    ⊎ ((message : Text) × (xaccsrc runtime [] declared_gate ≡ err (error message)))
xaccsrc_ends_example = xaccsrc_ends runtime declared_gate

-- The greatest index that fits, and the least that does not.
read_indices-printed_example :
    read_indices (printed (2147483647 ∷ 0 ∷ [])) ≡ ok (2147483647 ∷ 0 ∷ [])
read_indices-printed_example = read_indices-printed (2147483647 ∷ 0 ∷ [])

too_great : read_indices (printed (2147483648 ∷ [])) ≡ err thrown
too_great = read_indices-printed (2147483648 ∷ [])

abbrev pub gates : Some Gate
gates = record {
  head = turned (Written.real (codes "0.5")) (integer (codes "1")) (integer (codes "2")) 11;
  others = linked 11 2 ∷ measured 2 0 ∷ [];
}
