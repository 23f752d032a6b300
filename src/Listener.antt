-- ===== src/Listener.antt =====
-- `OQASMToXACCListener` (compiler/OQASMToXACCListener.cpp): the kernels that the callbacks of the
-- parse tree walk build. The parser is generated by ANTLR: a callback is an event with the texts that
-- it reads from its context, `none` where the context has no such token.
-- A called kernel is complete when it is called, so `functions` holds the complete kernels; a kernel
-- that calls itself would be a cyclic object, which is `err undefined` here.
pub mod Gates
pub mod Indices
use xacc_ibm.Common.{
  ℕ, zero, suc, ◌+◌, ◌-◌, Bool, true, false, List, [], ◌∷◌, ◌++◌, map, Option, none, some, Result,
  ok, err, error, undefined, thrown, at_hand, ◌>>=◌, leb, ◌&&◌, if◌then◌else◌, get_elem?,
}
use xacc_ibm.Common.Text.{Text, codes, text_eq}
use xacc_ibm.Common.Int.{ℤ, pos, negsuc}
use xacc_ibm.Common.Numbers.{stoi}
use xacc_ibm.Common.Dict.{Dict, lookup, insert}
use xacc_ibm.Common.Keys.{text_key}
use xacc_ibm.Ir.{Inst, Kernel, Xacc, node}

pub data Event : Type 0 where
  enter_kernel : Text → List Text → Event
  exit_kernel : Event
  kernel_call : Text → Event
  exit_u : Option Text → List Text → Event
  exit_cx : Option Text → Option Text → Event
  exit_user_gate : Text → List (Option Text) → List Text → Event
  exit_measure : Option Text → Option Text → Event

pub record Listener (P : Type 0) : Type 0 where
  pub functions : Dict Text (Kernel P)
  pub current : Kernel P
  pub kernels : List (Kernel P)

-- What is used of exprtk, of double and of instruction parameters: the value of an expression, `none`
-- for not a number, the double of a decimal literal (its digits, and how many of them stand behind the
-- point), division, and the parameters made of a double, of a text and of an int.
pub record Params (P D : Type 0) : Type 0 where
  pub eval : Text → Option D
  pub decimal : ℕ → ℕ → D
  pub divide : D → D → D
  pub of_double : D → P
  pub of_text : Text → P
  pub of_int : ℤ → P

-- `constexpr static double pi = 3.1415926;`
abbrev pub pi : {P D : Type 0} → Params P D → D
pi E = E.decimal 31415926 7

abbrev pub natural : ℤ → Result ℕ
natural (pos n) = ok n
natural (negsuc n) = err undefined

-- A qubit index: the grammar's INT has no sign.
unfoldable pub read_index : Option Text → Result ℕ
read_index none = err undefined
read_index (some t) = do v ← stoi t; natural v

unfoldable pub read_indices : List (Option Text) → Result (List ℕ)
unfolding read_index
read_indices [] = ok []
read_indices (t ∷ ts) = do q ← read_index t; qs ← read_indices ts; ok (q ∷ qs)

-- `gateName[0] = toupper(gateName[0])`
unfoldable pub capitalize : Text → Text
capitalize [] = []
capitalize (c ∷ s) = (if leb b'a' c && leb c b'z' then c - 32 else c) ∷ s

module _ {P : Type 0} where
  -- `curFunc->addInstruction`
  abbrev pub add_instruction : Inst P → Listener P → Listener P
  add_instruction i l = record l {
    current = record l.current { instructions = l.current.instructions ++ i ∷ [] };
  }

module _ {P D : Type 0} (X : Xacc P) (E : Params P D) where
  -- `strToParam`
  unfoldable pub str_to_param : Text → P
  str_to_param s = elim (E.eval s) [ none ↦ E.of_text s | some d ↦ E.of_double d ]

  -- The loop that sets the parameters from `count` on.
  unfoldable pub set_params : List P → ℕ → Inst P → Result (Inst P)
  set_params [] count i = ok i
  set_params (p ∷ ps) count i = do i' ← X.set_parameter i count p; set_params ps (count + 1) i'

  abbrev pub params_of : List Text → List P
  params_of [] = []
  params_of (t ∷ ts) = str_to_param t ∷ params_of ts

  -- `exitU`: the first three expressions are read.
  unfoldable pub u_gate : Option Text → List Text → Result (Inst P)
  unfolding set_params
  u_gate arg exps = do
    q ← read_index arg
    theta ← at_hand (get_elem? exps 0)
    phi ← at_hand (get_elem? exps 1)
    lambda ← at_hand (get_elem? exps 2)
    i ← X.create_instruction (codes "U") (q ∷ []) []
    set_params (params_of (theta ∷ phi ∷ lambda ∷ [])) 0 i

  -- `exitCX`
  unfoldable pub cx_gate : Option Text → Option Text → Result (Inst P)
  cx_gate a b = do
    source ← read_index a
    target ← read_index b
    X.create_instruction (codes "CNOT") (source ∷ target ∷ []) []

  -- The instruction for a name, and the place of the first expression.
  unfoldable pub base_gate : Text → List ℕ → Result (Inst P × ℕ)
  base_gate name qs =
      if text_eq name (codes "U2")
      then (do
        i ← X.create_instruction (codes "U") qs []
        i' ← X.set_parameter i 0 (E.of_double (E.divide (pi E) (E.decimal 20 1)))
        ok (i', 1))
      else if text_eq name (codes "U1")
      then (do
        i ← X.create_instruction (codes "U") qs []
        i' ← X.set_parameter i 0 (E.of_double (E.decimal 0 1))
        i'' ← X.set_parameter i' 1 (E.of_double (E.decimal 0 1))
        ok (i'', 2))
      else if text_eq name (codes "U3")
      then (do i ← X.create_instruction (codes "U") qs []; ok (i, 0))
      else (do i ← X.create_instruction name qs []; ok (i, 0))

  -- `exitUserDefGate`
  unfoldable pub user_gate : Text → List (Option Text) → List Text → Result (Inst P)
  unfolding base_gate set_params
  user_gate id args exps =
      let name = capitalize id in
      do
        qs ← read_indices args
        if text_eq name (codes "Cx")
            then X.create_instruction (codes "CNOT") qs []
            else do (i, count) ← base_gate name qs; set_params (params_of exps) count i

  -- `exitMeasure`
  unfoldable pub measure_gate : Option Text → Option Text → Result (Inst P)
  measure_gate q c = do
    qubit ← read_index q
    classical ← read_index c
    X.create_instruction (codes "Measure") (qubit ∷ []) (E.of_int (pos classical) ∷ [])

  unfoldable pub adding : Listener P → Result (Inst P) → Result (Listener P)
  adding l m = do i ← m; ok (add_instruction i l)

  -- The callbacks.
  unfoldable pub on_event : Event → Listener P → Result (Listener P)
  unfolding u_gate cx_gate user_gate measure_gate adding
  on_event (enter_kernel name params) l = ok (record l {
    current = record {
      name = name;
      parameters = map (λ p. E.of_text p) params;
      analog = false;
      instructions = [];
    };
  })
  on_event exit_kernel l = ok (record l {
    kernels = l.kernels ++ l.current ∷ [];
    functions = insert l.current.name l.current l.functions;
  })
  on_event (kernel_call name) l = elim (lookup name l.functions) [
    | some k ↦ ok (add_instruction (node k) l)
    | none ↦
        if text_eq name l.current.name
        then err undefined
        else err (error (codes "Tried calling undefined kernel."))
  ]
  on_event (exit_u arg exps) l = adding l (u_gate arg exps)
  on_event (exit_cx a b) l = adding l (cx_gate a b)
  on_event (exit_user_gate id args exps) l = adding l (user_gate id args exps)
  on_event (exit_measure q c) l = adding l (measure_gate q c)

  -- The walk over the parse tree.
  unfoldable pub walk_tree : List Event → Listener P → Result (Listener P)
  unfolding on_event
  walk_tree [] l = ok l
  walk_tree (e ∷ es) l = do l' ← on_event e l; walk_tree es l'
