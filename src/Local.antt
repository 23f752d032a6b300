-- ===== src/Local.antt =====
-- `LocalIBMAccelerator` (accelerator/LocalIBMAccelerator.cpp and .hpp): kernels run on the simulator
-- that is linked in. The simulator, the JSON library and `AcceleratorBuffer::getMeasurementCounts` are
-- not in the repository: they are `Surroundings`. The job is the values that the code puts into it.
pub mod Counts
pub mod Runs
use xacc_ibm.Common.{
  ℕ, zero, suc, ◌+◌, Bool, true, false, List, [], ◌∷◌, ◌++◌, map, Option, none, some, Result, ok,
  err, error, undefined, thrown, at_hand, if◌then◌else◌, get_elem?, length, replicate,
}
use xacc_ibm.Common.Text.{Text, codes}
use xacc_ibm.Common.Int.{ℤ, pos}
use xacc_ibm.Common.Numbers.{stoi}
use xacc_ibm.Common.Dict.{Dict, insert, assign, get_or}
use xacc_ibm.Common.Keys.{nat_key}
use xacc_ibm.Common.Exec.{Exec, pure, raise, lift, gets, modify, ◌>>=◌, ◌>>◌}
use xacc_ibm.Ir.{Kernel, Xacc}
use xacc_ibm.Nodes.{walk_qasm, escape_newlines}
use xacc_ibm.Qasm.{Visitor, new_visitor, get_operations_json_string}
use xacc_ibm.Accelerator.{Options, is_valid_buffer_size}
use xacc_ibm.Outcome.{local_outcome}

-- One element of `j["circuits"]`; the labels of the qubits are 0 to `n_qubits` - 1.
pub record Circuit (O : Type 0) : Type 0 where
  pub name : Text
  pub n_qubits : ℕ
  pub n_clbits : ℕ
  pub qasm : Text
  pub operations : O

-- `j["config"]`
pub record Config (D : Type 0) : Type 0 where
  pub shots : ℤ
  pub readout_error : List D
  pub u_depol : Option D
  pub cx_depol : Option D

-- A buffer: its name, its size, and the bit strings appended to it, in order.
pub record Buffer : Type 0 where
  pub name : Text
  pub size : ℕ
  pub outcomes : List Text

-- The results of a run: for each kernel the counts of its bit strings.
abbrev pub Results : Type 0
Results = List (List (Text × ℕ))

-- What the simulator comes to: an exception with its `what()`, or results.
pub data Simulation : Type 0 where
  failed : Text → Simulation
  finished : Results → Simulation

-- `O` is the type of JSON values and `D` that of doubles. `parse_operations` is `none` where the parser
-- throws; `stod` is `std::stod`.
pub record Surroundings (O D : Type 0) : Type 0 where
  pub parse_operations : Text → Option O
  pub simulate : List (Circuit O) → Config D → Simulation
  pub stod : Text → Result D
  pub split : Text → ℕ → List Text
  pub measurement_counts : List Text → List (Text × ℕ)

-- The members: `measurementSupports`, and the buffers stored in the base class.
pub record Accelerator : Type 0 where
  pub measurement_supports : Dict ℕ (List ℕ)
  pub stored : List (Text × ℤ)

unfoldable pub create_buffer : Text → ℤ → ℕ → Exec Accelerator Buffer
create_buffer var_id size n a =
    if is_valid_buffer_size size
    then ok (
      record { name = var_id; size = n; outcomes = [] },
      record a { stored = a.stored ++ (var_id, size) ∷ [] },
    )
    else err (error (codes "Invalid buffer size."))

-- `createBuffer(varId)`: 30 is a valid size.
unfoldable pub create_full_buffer : Text → Exec Accelerator Buffer
unfolding create_buffer
create_full_buffer var_id = create_buffer var_id (pos 30) 30

-- `for (int i = 0; i < count; i++) appendMeasurement(s)`
abbrev pub append_times : Text → ℕ → Buffer → Buffer
append_times s n b = record b { outcomes = b.outcomes ++ replicate n s }

-- The loop over the counts of a kernel; the supports are sorted in place on the way.
unfoldable pub fill : ℕ → List ℕ → List (Text × ℕ) → Buffer → Exec Accelerator Buffer
fill size supports [] b = pure b
fill size supports ((s, n) ∷ counts) b = do
  (s', supports') ← lift (local_outcome size supports s)
  fill size supports' counts (append_times s' n b)

-- The loop over the results, from `kernelCounter` on.
unfoldable pub take_results : List Text → ℕ → ℕ → Results → Exec Accelerator (List Buffer)
unfolding create_buffer fill
take_results names size k [] = pure []
take_results names size k (counts ∷ results) = do
  name ← lift (at_hand (get_elem? names k))
  b ← create_buffer name (pos size) size
  supports ← gets (λ a. get_or k [] a.measurement_supports)
  b' ← fill size supports counts b
  bs ← take_results names size (k + 1) results
  pure (b' ∷ bs)

abbrev sim_error : Text → Text
sim_error what = codes "local qasm sim error: Failed to execute qobj (" ++ what ++ codes ")"

module _ {P O D : Type 0} (X : Xacc P) (E : Surroundings O D) where
  -- The body of the loop over the kernels.
  unfoldable pub circuit : ℕ → ℕ → Kernel P → Exec Accelerator (Circuit O)
  circuit size counter k = do
    (v, qs) ← lift (walk_qasm X.param_text (X.walk k) (new_visitor size false) [])
    modify (λ a.
        let m = insert counter [] a.measurement_supports in
        record a { measurement_supports = assign counter (get_or counter [] m ++ qs) m })
    n ← gets (λ a. length (get_or counter [] a.measurement_supports))
    ops ← lift (elim (E.parse_operations (get_operations_json_string v)) [
      | none ↦ err thrown
      | some o ↦ ok o
    ])
    pure (record {
      name = k.name;
      n_qubits = size;
      n_clbits = n;
      qasm = escape_newlines v.native;
      operations = ops;
    })

  unfoldable pub circuits : ℕ → ℕ → List (Kernel P) → Exec Accelerator (List (Circuit O))
  unfolding circuit
  circuits size counter [] = pure []
  circuits size counter (k ∷ ks) = do
    c ← circuit size counter k
    cs ← circuits size (counter + 1) ks
    pure (c ∷ cs)

  read_all : List Text → Exec Accelerator (List D)
  read_all [] = pure []
  read_all (t ∷ ts) = do d ← lift (E.stod t); ds ← read_all ts; pure (d ∷ ds)

  -- `split[0]` and the rest
  readout : List Text → Exec Accelerator (List D)
  unfolding read_all
  readout [] = raise undefined
  readout (t ∷ ts) = read_all (t ∷ ts)

  option_double : Option Text → Exec Accelerator (Option D)
  option_double none = pure none
  option_double (some t) = do d ← lift (E.stod t); pure (some d)

  -- `config2`
  unfoldable pub config : Options → Exec Accelerator (Config D)
  unfolding readout option_double
  config opts = do
    shots ← lift (elim (opts (codes "ibm-shots")) [ none ↦ ok (pos 1024) | some s ↦ stoi s ])
    ro ← elim (opts (codes "local-ibm-ro-error")) [
      | none ↦ pure []
      | some s ↦ readout (E.split s b',')
    ]
    u ← option_double (opts (codes "u-p-depol"))
    cx ← option_double (opts (codes "cx-p-depol"))
    pure (record { shots = shots; readout_error = ro; u_depol = u; cx_depol = cx })

  -- `execute(buffer, functions)`: the buffers returned. `size` is the buffer's.
  unfoldable pub execute : Options → ℕ → List (Kernel P) → Exec Accelerator (List Buffer)
  unfolding circuits config take_results
  execute opts size ks = do
    cs ← circuits size 0 ks
    c ← config opts
    results ←
        lift (elim (E.simulate cs c) [
          | failed what ↦ err (error (sim_error what))
          | finished r ↦ ok r
        ])
    bs ← take_results (map (λ k. k.name) ks) size 0 results
    modify (λ a. record a { measurement_supports = [] })
    pure bs

  abbrev append_counts : List (Text × ℕ) → Buffer → Buffer
  append_counts [] b = b
  append_counts ((s, n) ∷ counts) b = append_counts counts (append_times s n b)

  -- `execute(buffer, kernel)`: the counts of the one buffer go to the given buffer.
  unfoldable pub execute_one : Options → Kernel P → Buffer → Exec Accelerator Buffer
  unfolding execute
  execute_one opts k b = do
    bs ← execute opts b.size (k ∷ [])
    first ← lift (at_hand (get_elem? bs 0))
    pure (append_counts (E.measurement_counts first.outcomes) b)
