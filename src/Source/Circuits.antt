-- ===== src/Source/Circuits.antt =====
-- Circuits that are written as OpenQasm with decimal indices, and the kernels that they compile to.
use xacc_ibm.Common.{
  ℕ, ◌^◌, ◌<◌, ◌≡◌, refl, ap, ◌∙◌, false, List, [], ◌∷◌, ◌++◌, map, Result, ok, err, ◌>>=◌,
  append_assoc, append-nil, All,
}
use xacc_ibm.Common.Text.{Text, codes, to_string}
use xacc_ibm.Common.Int.{pos}
use xacc_ibm.Ir.{Inst, Xacc}
use xacc_ibm.Listener.{
  Listener, Params, on_event, walk_tree, exit_kernel, add_instruction, params_of, set_params,
  u_gate, cx_gate, measure_gate, adding,
}
use xacc_ibm.Listener.Indices.{read_index-fits}
use xacc_ibm.Parser.{Runtime}
use xacc_ibm.Parser.Written.{
  Arg, Number, number_text, Some, all, Operation, apply_u, apply_cx, operation_event, Statement,
  operate, statements_events, Written, kernel_events, source_tokens, source_events,
}
use xacc_ibm.Parser.Written
use xacc_ibm.Parser.Lookahead.{IsGrammatical}
use xacc_ibm.Source.{new_listener, compile_tokens}
use xacc_ibm.Source.Reading.{compile_tokens-source_tokens, walk_tree-append}

-- A gate on numbered qubits: `U` with its angles, `CX`, and a measurement.
pub data Gate : Type 0 where
  turned : Number → Number → Number → ℕ → Gate
  linked : ℕ → ℕ → Gate
  measured : ℕ → ℕ → Gate

abbrev pub at : ℕ → Arg
at n = record { register = codes "q"; index = to_string n }

abbrev pub written : Gate → Operation
written (turned theta phi lambda q) =
    apply_u (record { head = theta; others = phi ∷ lambda ∷ [] }) (at q)
written (linked a b) = apply_cx (at a) (at b)
written (measured q c) = Written.measure (at q) (at c)

-- The indices fit into an int.
abbrev pub Fits : Gate → Type 0
Fits (turned theta phi lambda q) = q < 2 ^ 31
Fits (linked a b) = (a < 2 ^ 31) × (b < 2 ^ 31)
Fits (measured q c) = (q < 2 ^ 31) × (c < 2 ^ 31)

-- A kernel of gates, one at least.
abbrev pub circuit : Text → Text → Some Gate → Written
circuit name buffer gs = record {
  name = name;
  buffer = buffer;
  params = [];
  body = record {
    head = operate (written gs.head);
    others = map (λ g. operate (written g)) gs.others;
  };
}

module _ {P D : Type 0} (X : Xacc P) (E : Params P D) where
  -- What the registry makes of a gate, and of gates in order.
  abbrev pub instruction : Gate → Result (Inst P)
  instruction (turned theta phi lambda q) = do
    i ← X.create_instruction (codes "U") (q ∷ []) []
    set_params X E (params_of X E (number_text theta ∷ number_text phi ∷ number_text lambda ∷ [])) 0
        i
  instruction (linked a b) = X.create_instruction (codes "CNOT") (a ∷ b ∷ []) []
  instruction (measured q c) =
      X.create_instruction (codes "Measure") (q ∷ []) (E.of_int (pos c) ∷ [])

  abbrev pub instructions : List Gate → Result (List (Inst P))
  instructions [] = ok []
  instructions (g ∷ gs) = do i ← instruction g; is ← instructions gs; ok (i ∷ is)

  abbrev add_all : List (Inst P) → Listener P → Listener P
  add_all is l = record l {
    current = record l.current { instructions = l.current.instructions ++ is };
  }

  gate_event :
      (g : Gate) (l : Listener P)
      → Fits g
      → on_event X E (operation_event (written g)) l
        ≡ (instruction g >>= λ i. ok (add_instruction i l))
  unfolding on_event u_gate cx_gate measure_gate adding
  gate_event (turned theta phi lambda q) l h = rw (read_index-fits q h) refl
  gate_event (linked a b) l (ha, hb) = rw (read_index-fits a ha, read_index-fits b hb) refl
  gate_event (measured q c) l (hq, hc) = rw (read_index-fits q hq, read_index-fits c hc) refl

  add_then :
      (l : Listener P) (i : Inst P) (m : Result (List (Inst P)))
      → (m >>= λ is. ok (add_all is (add_instruction i l)))
        ≡ ((m >>= λ is. ok (i ∷ is)) >>= λ is. ok (add_all is l))
  add_then l i (ok is) = rw (append_assoc l.current.instructions (i ∷ []) is)
  add_then l i (err e) = refl

  -- What follows an instruction that is added, where it adds others.
  add_next :
      (l : Listener P) (r : Result (Inst P)) (m : Result (List (Inst P)))
      (f : Listener P → Result (Listener P))
      → ((i : Inst P)
          → f (add_instruction i l) ≡ (m >>= λ is. ok (add_all is (add_instruction i l))))
      → ((r >>= λ i. ok (add_instruction i l)) >>= f)
        ≡ ((r >>= λ i. m >>= λ is. ok (i ∷ is)) >>= λ is. ok (add_all is l))
  add_next l (ok i) m f h = h i ∙ add_then l i m
  add_next l (err e) m f h = refl

  -- The callbacks of gates add what the registry makes of them.
  gate_events :
      (gs : List Gate) (l : Listener P)
      → All Fits gs
      → walk_tree X E (statements_events (map (λ g. operate (written g)) gs)) l
        ≡ (instructions gs >>= λ is. ok (add_all is l))
  unfolding walk_tree
  gate_events [] l h = rw (append-nil l.current.instructions)
  gate_events (g ∷ gs) l (h, hs) = rw (gate_event g l h) (
      add_next l (instruction g) (instructions gs)
        (walk_tree X E (statements_events (map (λ g. operate (written g)) gs)))
        (λ i. gate_events gs (add_instruction i l) hs))

  abbrev entered : Text → Listener P
  entered name = record new_listener {
    current = record { name = name; parameters = []; analog = false; instructions = [] };
  }

  finished :
      (name : Text) (m : Result (List (Inst P)))
      → (((m >>= λ is. ok (add_all is (entered name))) >>= λ l. walk_tree X E (exit_kernel ∷ []) l)
          >>= λ l. ok l.kernels)
        ≡ (m >>= λ is.
            ok (record { name = name; parameters = []; analog = false; instructions = is } ∷ []))
  unfolding walk_tree on_event
  finished name (ok is) = refl
  finished name (err e) = refl

  kernel_of :
      (name : Text) (gs : List Gate)
      → All Fits gs
      → (walk_tree X E
            (statements_events (map (λ g. operate (written g)) gs) ++ exit_kernel ∷ [])
            (entered name)
          >>= λ l. ok l.kernels)
        ≡ (instructions gs >>= λ is.
            ok (record { name = name; parameters = []; analog = false; instructions = is } ∷ []))
  kernel_of name gs h =
      rw
        (
          walk_tree-append X E (statements_events (map (λ g. operate (written g)) gs))
              (exit_kernel ∷ []) (entered name),
          gate_events gs (entered name) h,
        )
        (finished name (instructions gs))

  -- Where the lookahead is that of the grammar: a kernel of rotations, CNOTs and measurements, one
  -- at least, that is written as OpenQasm with its indices in decimal and all indices below 2^31
  -- compiles to the one kernel of that name with the instructions that the registry makes of the
  -- gates, in order, or to the first error of the registry.
  pub compile_tokens-circuit :
      (R : Runtime)
      → IsGrammatical R
      → (name buffer : Text) (gs : Some Gate) → All Fits (all gs)
      → compile_tokens X E R (source_tokens (circuit name buffer gs ∷ [])) ≡ (
          instructions (all gs) >>= λ is.
          ok (record { name = name; parameters = []; analog = false; instructions = is } ∷ []))
  unfolding walk_tree on_event
  compile_tokens-circuit R G name buffer gs h =
      compile_tokens-source_tokens X E R G (circuit name buffer gs ∷ [])
      ∙ ap (λ es. walk_tree X E es new_listener >>= λ l. ok l.kernels)
          (append-nil (kernel_events (circuit name buffer gs)))
      ∙ kernel_of name (all gs) h
