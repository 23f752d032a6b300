-- ===== src/Request/Posted.antt =====
-- The text that is posted for OpenQasm kernels, and what it is to be.
use xacc_ibm.Common.{
  ℕ, zero, suc, ◌+◌, ◌-◌, ◌<◌, ◌≡◌, refl, sym, ◌∙◌, ap, Bool, true, false, List, [], ◌∷◌, ◌++◌,
  Result, ok, err, arith, Bool-cases, Result-cases, inl, inr, ltb, ◌==◌, length, length-append,
  take, not, ◌&&◌, append_assoc, append-nil, if◌then◌else◌, >>=-eq-ok,
}
use xacc_ibm.Common
use xacc_ibm.Common.Text.{Text, codes}
use xacc_ibm.Common.Exec
use xacc_ibm.Ir.{Inst, Kernel, Xacc, is_enabled}
use xacc_ibm.Json.{Json}
use xacc_ibm.Nodes.{keep_measured, walk_qasm, escape_newlines, without_last}
use xacc_ibm.Qasm
use xacc_ibm.Qasm.{Visitor, new_visitor, visit_nodes}
use xacc_ibm.Accelerator.{Accelerator, Options, choose_backend}
use xacc_ibm.Request.{
  analogs, shots_of, kernel_json, keep_supports, kernels_json, check_online, finish_qasm,
  process_input,
}

-- One element of the array, and the elements with commas between.
abbrev pub item : Text → Text
item native = codes "{\"qasm\": \"" ++ (escape_newlines native ++ codes "\"}")

abbrev pub behind_first : List Text → Text
behind_first [] = []
behind_first (n ∷ ns) = b',' ∷ (item n ++ behind_first ns)

-- The document that is to be posted.
abbrev pub document : Text → Text → Text → List Text → Text
document shots backend first others =
    codes "{\"qasms\": ["
    ++ (item first ++ behind_first others)
    ++ codes "], \"shots\": "
    ++ shots
    ++ codes ", \"maxCredits\": 5, \"backend\": {\"name\": \""
    ++ backend
    ++ codes "\"}}"

-- The OpenQasm that the visitor prints for each kernel.
abbrev pub printed : {P : Type 0} → Xacc P → ℕ → List (Kernel P) → Result (List Text)
printed X size [] = ok []
printed X size (k ∷ ks) =
    Common.◌>>=◌ (visit_nodes X.param_text (X.walk k) (new_visitor size false))
      λ v. Common.◌>>=◌ (printed X size ks) λ ns. ok (v.native ∷ ns)

-- A walk that succeeds leaves the visitor that the visits leave.
walk_qasm-visit_nodes :
    {P : Type 0} (param_text : P → Text) (is : List (Inst P)) (v w : Visitor) (qs rs : List ℕ)
    → walk_qasm param_text is v qs ≡ ok (w, rs)
    → visit_nodes param_text is v ≡ ok w
unfolding walk_qasm visit_nodes
walk_qasm-visit_nodes param_text [] v w qs rs h = cc h
walk_qasm-visit_nodes param_text (i ∷ is) v w qs rs h = elim (Bool-cases (is_enabled i)) [
  | inr e ↦ rw e (walk_qasm-visit_nodes param_text is v w qs rs (rw e at h))
  | inl e ↦
      let (v', first, rest) = >>=-eq-ok (Qasm.visit param_text i v) _ (rw e at h) in
      let (qs', kept, others) =
        >>=-eq-ok (keep_measured i qs) (λ qs'. walk_qasm param_text is v' qs') rest in
      rw (e, first) (walk_qasm-visit_nodes param_text is v' w qs' rs others)
]

-- Every element with a comma behind it, as the loop writes them.
abbrev with_commas : List Text → Text
with_commas [] = []
with_commas (n ∷ ns) = item n ++ b',' ∷ with_commas ns

take_append : (s : Text) (c : ℕ) → take (length s) (s ++ c ∷ []) ≡ s
take_append [] c = refl
take_append (d ∷ s) c = ap (λ u. d ∷ u) (take_append s c)

pub without_last_lem : (s : Text) (c : ℕ) → without_last (s ++ c ∷ []) ≡ s
without_last_lem s c =
    let count : length (s ++ c ∷ []) - 1 ≡ length s = omega (arith, length-append s (c ∷ [])) in
    rw count (take_append s c)

commas_moved :
    (n : Text) (ns : List Text) → with_commas (n ∷ ns) ≡ (item n ++ behind_first ns) ++ b',' ∷ []
commas_moved n [] = ap (λ u. u ++ b',' ∷ []) (sym (append-nil (item n)))
commas_moved n (m ∷ ns) =
    ap (λ u. item n ++ b',' ∷ u) (commas_moved m ns)
    ∙ sym (append_assoc (item n) (b',' ∷ (item m ++ behind_first ns)) (b',' ∷ []))

module _ {P : Type 0} (X : Xacc P) where
  kernel_json-item :
      (size : ℕ) (k : Kernel P) (piece : Text) (qs : List ℕ)
      → kernel_json X false size k ≡ ok (piece, qs)
      → (v : Visitor) × (visit_nodes X.param_text (X.walk k) (new_visitor size false) ≡ ok v)
        × (piece ≡ item v.native ++ b',' ∷ [])
  unfolding kernel_json
  kernel_json-item size k piece qs h =
      elim (Result-cases (walk_qasm X.param_text (X.walk k) (new_visitor size false) [])) [
        | inl ((v, rs), e) ↦
            let same : codes "{\"qasm\": \"" ++ escape_newlines v.native ++ codes "\"}," ≡ piece =
              cc (rw (e, kernel_json) at h) in
            (
              v,
              walk_qasm-visit_nodes X.param_text (X.walk k) (new_visitor size false) v [] rs e,
              sym same
                  ∙ ap (λ u. codes "{\"qasm\": \"" ++ u)
                      (sym (append_assoc (escape_newlines v.native) (codes "\"}") (codes ","))),
            )
        | inr (why, e) ↦ absurd (cc (rw (e, kernel_json) at h))
      ]

module _ {P D : Type 0} (X : Xacc P) where
  kernels_json-printed :
      (size c : ℕ) (ks : List (Kernel P)) (json t : Text) (a a' : Accelerator D)
      → kernels_json X false size c ks json a ≡ ok (t, a')
      → (ns : List Text) × (printed X size ks ≡ ok ns) × (t ≡ json ++ with_commas ns)
  unfolding kernels_json keep_supports
  kernels_json-printed size c [] json t a a' h = ([], refl, rw append-nil (ground arith))
  kernels_json-printed size c (k ∷ ks) json t a a' h =
      elim (Result-cases (kernel_json X false size k)) [
        | inl ((piece, qs), e) ↦
            let (v, visited, made) = kernel_json-item X size k piece qs e in
            let (ns, others, rest) =
              kernels_json-printed size (c + 1) ks (json ++ piece) t
                (record (keep_supports X c qs a) { kernel_names = a.kernel_names ++ k.name ∷ [] })
                a' (rw e at h) in
            (
              v.native ∷ ns,
              rw (visited, others) refl,
              rest
                  ∙ append_assoc json piece (with_commas ns)
                  ∙ ap (λ u. json ++ u)
                      (ap (λ p. p ++ with_commas ns) made
                        ∙ append_assoc (item v.native) (b',' ∷ []) (with_commas ns)),
            )
        | inr (why, e) ↦ absurd (cc (rw e at h))
      ]

finish_qasm_lem :
    (n : Text) (ns : List Text) (shots backend : Text)
    → finish_qasm (codes "{\"qasms\": [" ++ with_commas (n ∷ ns)) shots backend
      ≡ document shots backend n ns
unfolding finish_qasm
finish_qasm_lem n ns shots backend =
    let whole = codes "{\"qasms\": [" ++ (item n ++ behind_first ns) in
    ap
      (λ u.
        u
        ++ codes "]"
        ++ codes ", \"shots\": "
        ++ shots
        ++ codes ", \"maxCredits\": 5, \"backend\": {\"name\": \""
        ++ backend
        ++ codes "\"}}")
      (ap (λ u. without_last (codes "{\"qasms\": [" ++ u)) (commas_moved n ns)
        ∙ without_last_lem whole b',')
    ∙ ap
        (λ u.
          u
          ++ shots
          ++ codes ", \"maxCredits\": 5, \"backend\": {\"name\": \""
          ++ backend
          ++ codes "\"}}")
        (append_assoc whole (codes "]") (codes ", \"shots\": "))

posted_text :
    {S : Type 0} (json t shots backend n : Text) (ms ns : List Text) (s s' : S)
    → json ≡ codes "{\"qasms\": [" ++ with_commas ms
    → ms ≡ n ∷ ns
    → Exec.pure (finish_qasm json shots backend) s ≡ ok (t, s')
    → t ≡ document shots backend n ns
posted_text json t shots backend n ms ns s s' text same h =
    let last : t ≡ finish_qasm json shots backend = cc h in
    last
    ∙ ap (λ j. finish_qasm j shots backend)
        (text ∙ ap (λ l. codes "{\"qasms\": [" ++ with_commas l) same)
    ∙ finish_qasm_lem n ns shots backend

module _ {P D : Type 0} (parse : Text → Json D) (X : Xacc P) (opts : Options)
    (cache : List (Text × Text)) (size : ℕ) where
  printed_cons :
      (k : Kernel P) (ks : List (Kernel P)) (ns : List Text)
      → printed X size (k ∷ ks) ≡ ok ns
      → (m : Text) × (ms : List Text) × (ns ≡ m ∷ ms)
  printed_cons k ks ns h =
      let (v, visited, rest) =
        >>=-eq-ok (visit_nodes X.param_text (X.walk k) (new_visitor size false)) _ h in
      let (ms, others, made) = >>=-eq-ok (printed X size ks) _ rest in (v.native, ms, cc made)

  -- When the input is processed for OpenQasm kernels, one at least, the posted text is the document
  -- that it is to be: an array with one object for each kernel, in order and with commas between,
  -- that holds the OpenQasm that the visitor prints for the kernel with its line ends escaped; the
  -- number of shots; and the name of the chosen backend.
  pub process_input-document :
      (k : Kernel P) (ks : List (Kernel P)) (t : Text) (a a' : Accelerator D)
      → analogs (k ∷ ks) ≡ 0
      → process_input parse X opts cache size (k ∷ ks) a ≡ ok (t, a')
      → (backend : Text) × (b : Accelerator D) × (n : Text) × (ns : List Text) × (choose_backend
            opts a
          ≡ ok (backend, b))
        × (printed X size (k ∷ ks) ≡ ok (n ∷ ns))
        × (t ≡ document (shots_of opts) backend n ns)
  unfolding process_input
  process_input-document k ks t a a' digital h =
      let (backend, b, chosen, rest) = Exec.>>=-eq-ok (choose_backend opts) _ a (rw digital at h) in
      let (json, c, written, rest') =
        Exec.>>=-eq-ok (kernels_json X false size 0 (k ∷ ks) (codes "{\"qasms\": [")) _ b rest in
      let (u, d, online, last) = Exec.>>=-eq-ok (check_online parse backend) _ c rest' in
      let (ms, made, text) =
        kernels_json-printed X size 0 (k ∷ ks) (codes "{\"qasms\": [") json b c written in
      let (n, ns, same) = printed_cons k ks ms made in
      (
        backend,
        b,
        n,
        ns,
        chosen,
        made ∙ ap ok same,
        posted_text json t (shots_of opts) backend n ms ns d a' text same last,
      )
