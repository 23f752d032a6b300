-- ===== src/Local/Runs.antt =====
-- `LocalIBMAccelerator::execute` as a whole: the circuits that are simulated, and the buffers that are returned.
use xacc_ibm.Common.{
  ℕ, zero, suc, ◌+◌, ◌≤◌, ◌≡◌, refl, sym, ◌∙◌, ap, Bool, List, [], ◌∷◌, ◌++◌, map, Option, some,
  none, Result, ok, err, error, thrown, at_hand, arith, get_elem?, Bool-cases, Option-cases,
  Result-cases, inl, inr, if◌then◌else◌, length, append-nil, append_assoc, ◌==◌, true, false,
}
use xacc_ibm.Common
use xacc_ibm.Common.Text.{Text, codes}
use xacc_ibm.Common.Int.{pos}
use xacc_ibm.Common.Dict.{get_or}
use xacc_ibm.Common.Keys.{nat_key}
use xacc_ibm.Common.Exec
use xacc_ibm.Common.Exec.{>>=-eq-ok, same_state}
use xacc_ibm.Ir.{Kernel, Xacc}
use xacc_ibm.Nodes.{walk_qasm}
use xacc_ibm.Nodes.Supports.{measured}
use xacc_ibm.Nodes.Kept.{
  Supports, put, get_or-put, kept, kept-get_elem?, qasm-measured, numbered, by_kernel,
  numbered-kept,
}
use xacc_ibm.Qasm.{new_visitor, get_operations_json_string}
use xacc_ibm.Accelerator.{Options, is_valid_buffer_size}
use xacc_ibm.Local.{
  Circuit, Config, Buffer, Results, Surroundings, Accelerator, finished, create_buffer,
  take_results, circuit, circuits, config, execute, read_all, readout, option_double, Simulation,
  failed, sim_error,
}
use xacc_ibm.Local.Counts.{expanded, fill_lem}

-- The buffer of a kernel's counts, by its name and the qubits that it measures.
abbrev pub filled : ℕ → Text → List ℕ → List (Text × ℕ) → Result Buffer
filled size name supports counts =
    if is_valid_buffer_size (pos size)
    then (Common.◌>>=◌ (expanded size supports counts)
        λ ss. ok (record { name = name; size = size; outcomes = ss }))
    else err (error (codes "Invalid buffer size."))

-- The buffers are stored under their names.
abbrev storing : ℕ → Accelerator → Result (List Buffer) → Result (List Buffer × Accelerator)
storing size a (ok bs) = ok (bs, record a { stored = a.stored ++ map (λ b. (b.name, pos size)) bs })
storing size a (err e) = err e

storing_next :
    (size : ℕ) (a : Accelerator) (b : Buffer) (r : Result (List Buffer))
    → Exec.◌>>=◌
        (λ s. storing size s r)
        (λ bs. Exec.pure (b ∷ bs))
        (record a { stored = a.stored ++ (b.name, pos size) ∷ [] })
      ≡ storing size a (Common.◌>>=◌ r λ bs. ok (b ∷ bs))
storing_next size a b (ok bs) = rw append_assoc
storing_next size a b (err e) = refl

take_results_lem :
    (names : List Text) (size i : ℕ) (results : Results) (a : Accelerator)
    → take_results names size i results a
      ≡ storing size a (numbered (filled size) names a.measurement_supports i results)
unfolding take_results create_buffer
take_results_lem names size i [] a = rw append-nil
take_results_lem names size i (counts ∷ results) a = elim (Option-cases (get_elem? names i)) [
  | inl e ↦ rw (e, Exec.◌>>=◌)
  | inr (name, e) ↦ elim (Bool-cases (is_valid_buffer_size (pos size))) [
    | inr f ↦ rw (e, f, Exec.◌>>=◌)
    | inl f ↦
        let filling =
          fill_lem size (get_or i [] a.measurement_supports) counts
            (record { name = name; size = size; outcomes = [] })
            (record a { stored = a.stored ++ (name, pos size) ∷ [] }) in
        elim (Result-cases (expanded size (get_or i [] a.measurement_supports) counts)) [
          | inr (why, g) ↦ rw (e, f, filling, g, Exec.◌>>=◌)
          | inl (ss, g) ↦
              rw (e, f, filling, g, Exec.◌>>=◌)
                (rw
                  (
                    take_results_lem names size (i + 1) results
                        (record a { stored = a.stored ++ (name, pos size) ∷ [] }),
                    Exec.◌>>=◌,
                  )
                  (storing_next size a (record { name = name; size = size; outcomes = ss })
                    (numbered (filled size) names a.measurement_supports (i + 1) results)))
        ]
  ]
]

parts_agree :
    {A B : Type 0} (x y : A) (s t : B)
    → Path (Result (A × B)) (ok (x, s)) (ok (y, t))
    → (x ≡ y) × (s ≡ t)
parts_agree x y s t h = (cc h, cc h)

-- What is done with the results of a simulation.
ended :
    (sim : Simulation) (names : List Text) (size : ℕ) (a a' : Accelerator) (bs : List Buffer)
    → Exec.◌>>=◌
        (Exec.lift (elim sim [ failed what ↦ err (error (sim_error what)) | finished r ↦ ok r ]))
        (λ results. Exec.◌>>=◌ (take_results names size 0 results) λ bs.
          Exec.◌>>◌ (Exec.modify (λ a. record a { measurement_supports = [] })) (Exec.pure bs))
        a
      ≡ ok (bs, a')
    → (r : Results) × (sim ≡ finished r)
      × (numbered (filled size) names a.measurement_supports 0 r ≡ ok bs)
      × (a'.measurement_supports ≡ [])
ended (failed what) names size a a' bs h = absurd (cc h)
ended (finished r) names size a a' bs h =
    elim (Result-cases (numbered (filled size) names a.measurement_supports 0 r)) [
      | inr (why, e) ↦ absurd (cc (rw (take_results_lem names size 0 r a, e, Exec.◌>>=◌) at h))
      | inl (made, e) ↦
          let (same, state) =
            parts_agree made bs _ a' (rw (take_results_lem names size 0 r a, e, Exec.◌>>=◌) at h) in
          (r, refl, e ∙ ap ok same, ap (λ s. s.measurement_supports) (sym state))
    ]

module _ {P O D : Type 0} (X : Xacc P) (E : Surroundings O D) where
  -- The name and the classical registers of a circuit, and of a kernel.
  abbrev pub head_of : Circuit O → Text × ℕ
  head_of c = (c.name, c.n_clbits)

  abbrev pub head_of_kernel : Kernel P → Text × ℕ
  head_of_kernel k = (k.name, length (measured (X.walk k)))

  -- What one kernel leaves in the accelerator.
  abbrev keeping : ℕ → Kernel P → Accelerator → Accelerator
  keeping c k a = record a {
    measurement_supports = put c (measured (X.walk k)) a.measurement_supports;
  }

  circuit_lem :
      (size i : ℕ) (k : Kernel P) (a b : Accelerator) (c : Circuit O)
      → get_or i [] a.measurement_supports ≡ []
      → circuit X E size i k a ≡ ok (c, b)
      → (head_of c ≡ head_of_kernel k) × (b ≡ keeping i k a)
  unfolding circuit
  circuit_lem size i k a b c fresh h =
      elim (Result-cases (walk_qasm X.param_text (X.walk k) (new_visitor size false) [])) [
        | inr (why, e) ↦ absurd (cc (rw (e, Exec.◌>>=◌) at h))
        | inl ((v, qs), e) ↦
            elim (Option-cases (E.parse_operations (get_operations_json_string v))) [
              | inl f ↦ absurd (cc (rw (e, f, Exec.◌>>=◌) at h))
              | inr (ops, f) ↦
                  let same =
                    qasm-measured X.param_text (X.walk k) (new_visitor size false) v qs e in
                  let self : (i == i) ≡ true = ground arith in
                  let count : get_or i [] (put i (measured (X.walk k)) a.measurement_supports)
                      ≡ measured (X.walk k) =
                    get_or-put i i (measured (X.walk k)) a.measurement_supports
                    ∙ rw (self, fresh) refl in
                  let made = rw (e, f, same, count, Exec.◌>>=◌) at h in
                  let (circuits_agree, states_agree) = parts_agree _ _ _ _ made in
                  (ap head_of (sym circuits_agree), sym states_agree)
            ]
      ]

  circuits_lem :
      (size i : ℕ) (ks : List (Kernel P)) (a b : Accelerator) (cs : List (Circuit O))
      → ((j : ℕ) → i ≤ j → get_or j [] a.measurement_supports ≡ [])
      → circuits X E size i ks a ≡ ok (cs, b)
      → (map head_of cs ≡ map head_of_kernel ks)
        × (b.measurement_supports ≡ kept X i ks a.measurement_supports)
  unfolding circuits
  circuits_lem size i [] a b cs fresh h =
      let (none_made, same) = parts_agree [] cs a b h in
      (ap (map head_of) (sym none_made), ap (λ s. s.measurement_supports) (sym same))
  circuits_lem size i (k ∷ ks) a b cs fresh h =
      let (c, a', first, h') = >>=-eq-ok (circuit X E size i k) _ a h in
      let (rest, b', others, last) = >>=-eq-ok (circuits X E size (i + 1) ks) _ a' h' in
      let (head, after) = circuit_lem size i k a a' c (fresh i (omega arith)) first in
      let supports = ap (λ s. s.measurement_supports) after in
      let (heads, done) =
        circuits_lem size (i + 1) ks a' b' rest
          (λ j l.
            let other : (i == j) ≡ false = ground (arith, l) in
            ap (get_or j []) supports
            ∙ get_or-put i j (measured (X.walk k)) a.measurement_supports
            ∙ rw (other, fresh j (omega (arith, l))) refl)
          others in
      let (all_made, same) = parts_agree (c ∷ rest) cs b' b last in
      (
        ap (map head_of) (sym all_made) ∙ rw (head, heads) refl,
        ap (λ s. s.measurement_supports) (sym same) ∙ done ∙ ap (kept X (i + 1) ks) supports,
      )

  -- The settings leave the accelerator alone.
  abbrev HasSupports : Supports → Accelerator → Type 0
  HasSupports m a = a.measurement_supports ≡ m

  read_all-HasSupports :
      (m : Supports) (ts : List Text) → Exec.Keeps (HasSupports m) (read_all X E ts)
  unfolding read_all
  read_all-HasSupports m [] = Exec.pure-Keeps (HasSupports m) []
  read_all-HasSupports m (t ∷ ts) =
      Exec.>>=-Keeps (HasSupports m) (Exec.lift (E.stod t)) _
        (Exec.lift-Keeps (HasSupports m) (E.stod t))
        λ d.
          Exec.>>=-Keeps (HasSupports m) (read_all X E ts) _ (read_all-HasSupports m ts)
            λ ds. Exec.pure-Keeps (HasSupports m) (d ∷ ds)

  readout-HasSupports :
      (m : Supports) (ts : List Text) → Exec.Keeps (HasSupports m) (readout X E ts)
  unfolding readout
  readout-HasSupports m [] = λ a r b i h. absurd (cc h)
  readout-HasSupports m (t ∷ ts) = read_all-HasSupports m (t ∷ ts)

  option_double-HasSupports :
      (m : Supports) (o : Option Text) → Exec.Keeps (HasSupports m) (option_double X E o)
  unfolding option_double
  option_double-HasSupports m none = Exec.pure-Keeps (HasSupports m) none
  option_double-HasSupports m (some t) =
      Exec.>>=-Keeps (HasSupports m) (Exec.lift (E.stod t)) _
        (Exec.lift-Keeps (HasSupports m) (E.stod t)) λ d. Exec.pure-Keeps (HasSupports m) (some d)

  errors-HasSupports :
      (m : Supports) (o : Option Text)
      → Exec.Keeps {A = List D}
          (HasSupports m)
          (elim o [ none ↦ Exec.pure [] | some s ↦ readout X E (E.split s b',') ])
  errors-HasSupports m none = Exec.pure-Keeps (HasSupports m) []
  errors-HasSupports m (some s) = readout-HasSupports m (E.split s b',')

  config-HasSupports :
      (m : Supports) (opts : Options) → Exec.Keeps (HasSupports m) (config X E opts)
  unfolding config
  config-HasSupports m opts =
      Exec.>>=-Keeps (HasSupports m) _ _ (Exec.lift-Keeps (HasSupports m) _) λ shots.
        Exec.>>=-Keeps (HasSupports m) _ _
          (errors-HasSupports m (opts (codes "local-ibm-ro-error")))
          λ ro.
            Exec.>>=-Keeps (HasSupports m) (option_double X E (opts (codes "u-p-depol"))) _
              (option_double-HasSupports m _)
              λ u.
                Exec.>>=-Keeps (HasSupports m) (option_double X E (opts (codes "cx-p-depol"))) _
                  (option_double-HasSupports m _) λ cx. Exec.pure-Keeps (HasSupports m) _

  -- When `execute` of the local accelerator succeeds and no measured qubits are kept before: it
  -- simulated one circuit for each kernel, in order, with the kernel's name and as many classical
  -- registers as the kernel has enabled measurements; the buffers returned are those of the results
  -- of this simulation, in order, each with the name of its kernel and the bit strings widened by
  -- the qubits that the kernel measures; and no measured qubits are kept after.
  pub execute_lem :
      (opts : Options) (size : ℕ) (ks : List (Kernel P)) (a a' : Accelerator) (bs : List Buffer)
      → a.measurement_supports ≡ []
      → execute X E opts size ks a ≡ ok (bs, a')
      → (cs : List (Circuit O)) × (c : Config D) × (r : Results) × (map head_of cs
          ≡ map head_of_kernel ks)
        × (E.simulate cs c ≡ finished r)
        × (by_kernel (filled size) X ks r ≡ ok bs)
        × (a'.measurement_supports ≡ [])
  unfolding execute get_or
  execute_lem opts size ks a a' bs fresh h =
      let (cs, b, first, h₁) = >>=-eq-ok (circuits X E size 0 ks) _ a h in
      let (c, d, second, h₂) = >>=-eq-ok (config X E opts) _ b h₁ in
      let (heads, supports) = circuits_lem size 0 ks a b cs (λ j l. ap (get_or j []) fresh) first in
      let same = config-HasSupports b.measurement_supports opts b c d refl second in
      let (r, simulated, made, cleared) =
        ended (E.simulate cs c) (map (λ k. k.name) ks) size d a' bs h₂ in
      let by_number =
        numbered-kept (filled size) X ks r (map (λ k. k.name) ks) d.measurement_supports refl
          (λ j k e.
            let counted : 0 + j ≡ j = omega arith in
            ap (get_or j []) (same ∙ supports ∙ ap (kept X 0 ks) fresh)
            ∙ rw counted at (kept-get_elem? X ks 0 j k [] (λ i l. refl) e)) in
      (cs, c, r, heads, simulated, sym by_number ∙ made, cleared)
