-- ===== src/Nodes/Kept.antt =====
-- The measured qubits that `processInput` and `LocalIBMAccelerator::execute` keep under the number of each
-- kernel, and what is read of them.
use xacc_ibm.Common.{
  ℕ, zero, suc, ◌+◌, ◌≤◌, ◌<◌, ◌≡◌, refl, sym, ◌∙◌, ap, Bool, true, false, List, [], ◌∷◌, ◌++◌,
  some, ok, map, Result, err, undefined, at_hand, arith, get_elem?, Bool-cases, Result-cases, inl,
  inr, ltb, ◌==◌, if◌then◌else◌, length, not, ◌&&◌,
}
use xacc_ibm.Common.Text.{Text}
use xacc_ibm.Common.Dict.{Dict, insert, assign, get_or, get_or-assign, get_or-insert}
use xacc_ibm.Common.Keys.{nat_key}
use xacc_ibm.Common.Exec.{}
use xacc_ibm.Ir.{Inst, Kernel, Xacc}
use xacc_ibm.Nodes.{walk_qasm, walk_pulse}
use xacc_ibm.Nodes.Supports.{measured, walk_nodes-measured}
use xacc_ibm.Qasm
use xacc_ibm.Qasm.{Visitor, new_visitor}
use xacc_ibm.Pulse
use xacc_ibm.Pulse.{new_pulse}
use xacc_ibm.Common

abbrev pub Supports : Type 0
Supports = Dict ℕ (List ℕ)

-- One kernel's measured qubits behind those under its number.
abbrev pub put : ℕ → List ℕ → Supports → Supports
put c qs m = assign c (get_or c [] (insert c [] m) ++ qs) (insert c [] m)

pub get_or-put :
    (c j : ℕ) (qs : List ℕ) (m : Supports)
    → get_or j [] (put c qs m) ≡ (if c == j then get_or c [] m ++ qs else get_or j [] m)
get_or-put c j qs m =
    rw
      (
        get_or-assign c j [] (get_or c [] (insert c [] m) ++ qs) (insert c [] m),
        get_or-insert c c [] m,
        get_or-insert c j [] m,
      )
      refl

pub qasm-measured :
    {P : Type 0} (param_text : P → Text) (is : List (Inst P)) (v w : Visitor) (rs : List ℕ)
    → walk_qasm param_text is v [] ≡ ok (w, rs)
    → rs ≡ measured is
unfolding walk_qasm
qasm-measured param_text is v w rs h = walk_nodes-measured (Qasm.visit param_text) is v w [] rs h

pub pulse-measured :
    {P : Type 0} (is : List (Inst P)) (v w : Text) (rs : List ℕ)
    → walk_pulse is v [] ≡ ok (w, rs)
    → rs ≡ measured is
unfolding walk_pulse
pulse-measured is v w rs h = walk_nodes-measured Pulse.visit is v w [] rs h

module _ {P : Type 0} (X : Xacc P) where
  -- The measured qubits of kernels that are numbered from `c` on.
  abbrev pub kept : ℕ → List (Kernel P) → Supports → Supports
  kept c [] m = m
  kept c (k ∷ ks) m = kept (c + 1) ks (put c (measured (X.walk k)) m)

  kept-before :
      (ks : List (Kernel P)) (c j : ℕ) (m : Supports)
      → j < c
      → get_or j [] (kept c ks m) ≡ get_or j [] m
  kept-before [] c j m l = refl
  kept-before (k ∷ ks) c j m l =
      let other : (c == j) ≡ false = ground (arith, l) in
      kept-before ks (c + 1) j (put c (measured (X.walk k)) m) (omega (arith, l))
      ∙ get_or-put c j (measured (X.walk k)) m
      ∙ rw other refl

  -- Each kernel's qubits are under its number.
  pub kept-get_elem? :
      (ks : List (Kernel P)) (c j : ℕ) (k : Kernel P) (m : Supports)
      → ((i : ℕ) → c ≤ i → get_or i [] m ≡ [])
      → get_elem? ks j ≡ some k
      → get_or (c + j) [] (kept c ks m) ≡ measured (X.walk k)
  kept-get_elem? [] c j k m h e = absurd (cc e)
  kept-get_elem? (k' ∷ ks) c zero k m h e =
      let here : c + 0 ≡ c = omega arith in
      let same : k' ≡ k = cc e in
      let self : (c == c) ≡ true = ground arith in
      rw (here, same)
        (kept-before ks (c + 1) c (put c (measured (X.walk k)) m) (omega arith)
          ∙ get_or-put c c (measured (X.walk k)) m
          ∙ rw (self, h c (omega arith)) refl)
  kept-get_elem? (k' ∷ ks) c (suc j) k m h e =
      let next : c + suc j ≡ (c + 1) + j = omega arith in
      rw next (
        kept-get_elem? ks (c + 1) j k (put c (measured (X.walk k')) m)
          (λ i l.
            let other : (c == i) ≡ false = ground (arith, l) in
            get_or-put c i (measured (X.walk k')) m ∙ rw (other, h i (omega (arith, l))) refl)
          e)

module _ {B Q : Type 0} (buffer : Text → List ℕ → Q → Result B) where
  -- What is made of part `i` of a result, with the name and the qubits that are kept under that number.
  abbrev pub numbered_one : List Text → Supports → ℕ → Q → Result B
  numbered_one names supports i q =
      Common.◌>>=◌ (at_hand (get_elem? names i)) λ name. buffer name (get_or i [] supports) q

  -- The same of all parts from `i` on, in order.
  abbrev pub numbered : List Text → Supports → ℕ → List Q → Result (List B)
  numbered names supports i [] = ok []
  numbered names supports i (q ∷ qs) =
      Common.◌>>=◌ (numbered_one names supports i q)
        λ b. Common.◌>>=◌ (numbered names supports (i + 1) qs) λ bs. ok (b ∷ bs)

  module _ {P : Type 0} (X : Xacc P) where
    -- What is made of the parts of a result, each with the name and the measured qubits of its kernel; a result with more
    -- parts than there are kernels is read beyond the end of the names.
    abbrev pub by_kernel : List (Kernel P) → List Q → Result (List B)
    by_kernel ks [] = ok []
    by_kernel [] (q ∷ qs) = err undefined
    by_kernel (k ∷ ks) (q ∷ qs) =
        Common.◌>>=◌ (buffer k.name (measured (X.walk k)) q)
          λ b. Common.◌>>=◌ (by_kernel ks qs) λ bs. ok (b ∷ bs)

    -- The two agree where what is kept from `i` on is that of the kernels.
    pub numbered-by_kernel :
        (ks : List (Kernel P)) (qs : List Q) (i : ℕ) (ns : List Text) (supports : Supports)
        → ((j : ℕ) → get_elem? ns (i + j) ≡ get_elem? (map (λ k. k.name) ks) j)
        → ((j : ℕ) (k : Kernel P)
            → get_elem? ks j ≡ some k
            → get_or (i + j) [] supports ≡ measured (X.walk k))
        → numbered ns supports i qs ≡ by_kernel ks qs
    numbered-by_kernel ks [] i ns supports h s = refl
    numbered-by_kernel [] (q ∷ qs) i ns supports h s =
        let here : i + 0 ≡ i = omega arith in let missing = rw here at (h 0) in rw missing refl
    numbered-by_kernel (k ∷ ks) (q ∷ qs) i ns supports h s =
        let here : i + 0 ≡ i = omega arith in
        let name = rw here at (h 0) in
        let qubits = rw here at (s 0 k refl) in
        let next : (j : ℕ) → i + 1 + j ≡ i + suc j = λ j. omega arith in
        rw (name, qubits)
          (ap
            (λ r.
              Common.◌>>=◌ (buffer k.name (measured (X.walk k)) q)
                λ b. Common.◌>>=◌ r λ bs. ok (b ∷ bs))
            (numbered-by_kernel ks qs (i + 1) ns supports (λ j. rw (next j) (h (suc j)))
              (λ j k' e. rw (next j) (s (suc j) k' e))))

    -- The same where the names and the qubits of the kernels are kept from the first number on.
    pub numbered-kept :
        (ks : List (Kernel P)) (qs : List Q) (ns : List Text) (supports : Supports)
        → ns ≡ map (λ k. k.name) ks
        → ((j : ℕ) (k : Kernel P)
            → get_elem? ks j ≡ some k
            → get_or j [] supports ≡ measured (X.walk k))
        → numbered ns supports 0 qs ≡ by_kernel ks qs
    numbered-kept ks qs ns supports h s =
        let counted : (j : ℕ) → 0 + j ≡ j = λ j. omega arith in
        numbered-by_kernel ks qs 0 ns supports (λ j. rw (counted j, h) refl)
          (λ j k e. rw (counted j) (s j k e))
