-- ===== src/Compiler/Width.antt =====
-- The declared quantum register holds every qubit of the kernel, and the text follows its declaration.
use xacc_ibm.Common.{
  ℕ, ◌+◌, ◌≤◌, ◌<◌, ◌≡◌, ◌∙◌, true, false, List, [], ◌∷◌, ◌++◌, Result, ok, ◌>>=◌, map_ok, ltb, ap,
  sym, append-nil, if◌then◌else◌, All, arith, Bool-cases, inl, inr,
}
use xacc_ibm.Common.Text.{Text}
use xacc_ibm.Ir.{Inst, Kernel, Xacc, is_enabled, bits}
use xacc_ibm.Qasm.{Visitor, new_visitor, visit_nodes, preamble}
use xacc_ibm.Qasm.Frame.{behind, visit_nodes-behind}
use xacc_ibm.Qasm.Operations.{IsSupported, visit_nodes_total}
use xacc_ibm.Compiler.{max_of, max_bit, translate}

le-max_of : (m : ℕ) (bs : List ℕ) → m ≤ max_of m bs
unfolding max_of
le-max_of m [] = omega arith
le-max_of m (b ∷ bs) = ground (arith, le-max_of (if ltb m b then b else m) bs)

max_of-bound : (m : ℕ) (bs : List ℕ) → All (λ b. b ≤ max_of m bs) bs
unfolding max_of
max_of-bound m [] = tt
max_of-bound m (b ∷ bs) = (
  ground (arith, le-max_of (if ltb m b then b else m) bs),
  max_of-bound (if ltb m b then b else m) bs,
)

le-max_bit : {P : Type 0} (m : ℕ) (is : List (Inst P)) → m ≤ max_bit m is
unfolding max_bit
le-max_bit m [] = omega arith
le-max_bit m (i ∷ is) =
    ground
      (arith, le-max_of m (bits i), le-max_bit (if is_enabled i then max_of m (bits i) else m) is)

-- Every qubit of an enabled node is below `n`.
abbrev pub Fits : {P : Type 0} → ℕ → List (Inst P) → Type 0
Fits n [] = Unit
Fits n (i ∷ is) = (is_enabled i ≡ true → All (λ b. b < n) (bits i)) × Fits n is

All-below : (m n : ℕ) (bs : List ℕ) → m < n → All (λ b. b ≤ m) bs → All (λ b. b < n) bs
All-below m n [] h a = tt
All-below m n (b ∷ bs) h a = (omega (arith, a.0), All-below m n bs h a.1)

max_bit-Fits : {P : Type 0} (m n : ℕ) (is : List (Inst P)) → max_bit m is < n → Fits n is
unfolding max_bit
max_bit-Fits m n [] h = tt
max_bit-Fits m n (i ∷ is) h = (
  λ e.
      All-below (max_of m (bits i)) n (bits i) (ground (arith, le-max_bit (max_of m (bits i)) is))
        (max_of-bound m (bits i)),
  max_bit-Fits (if is_enabled i then max_of m (bits i) else m) n is h,
)

max_of-lt : (m n : ℕ) (bs : List ℕ) → m < n → All (λ b. b < n) bs → max_of m bs < n
unfolding max_of
max_of-lt m n [] h a = h
max_of-lt m n (b ∷ bs) h a = max_of-lt (if ltb m b then b else m) n bs (ground arith) a.1

max_bit-lt : {P : Type 0} (m n : ℕ) (is : List (Inst P)) → m < n → Fits n is → max_bit m is < n
unfolding max_bit
max_bit-lt m n [] h f = h
max_bit-lt m n (i ∷ is) h f = elim (Bool-cases (is_enabled i)) [
  | inl e ↦ rw e (max_bit-lt (max_of m (bits i)) n is (max_of-lt m n (bits i) h (f.0 e)) f.1)
  | inr e ↦ rw e (max_bit-lt m n is h f.1)
]

native-behind :
    (s : Text) (m : Result Visitor) (w : Visitor)
    → m ≡ ok w
    → (map_ok (behind s []) m >>= λ v. ok v.native) ≡ ok (s ++ w.native)
native-behind s m w e = rw e

text-behind :
    {P : Type 0} (param_text : P → Text) (is : List (Inst P)) (n : ℕ) (w : Visitor)
    → visit_nodes param_text is (new_visitor n true) ≡ ok w
    → (visit_nodes param_text is (new_visitor n false) >>= λ v. ok v.native)
      ≡ ok (preamble n ++ w.native)
text-behind param_text is n w e =
    ap
      (λ t.
        visit_nodes param_text is (record (new_visitor n true) { native = t }) >>= λ v. ok v.native)
      (sym (append-nil (preamble n)))
    ∙ ap (λ m. m >>= λ v. ok v.native)
        (visit_nodes-behind param_text is (preamble n) [] (new_visitor n true))
    ∙ native-behind (preamble n) _ w e

-- Of a kernel whose nodes the visitor supports, the translation succeeds. Its text begins with the
-- declaration of `n` qubits; every qubit of an enabled node is below `n`, and `n` is the least
-- positive number with that property. The text behind it is that of a visitor with no preamble.
pub translate_lem :
    {P : Type 0} (X : Xacc P) (k : Kernel P)
    → All IsSupported (X.walk k)
    → (n : ℕ) × (w : Visitor) × (visit_nodes X.param_text (X.walk k) (new_visitor n true) ≡ ok w)
      × (translate X k ≡ ok (preamble n ++ w.native))
      × Fits n (X.walk k)
      × ((m : ℕ) → 0 < m → Fits m (X.walk k) → n ≤ m)
unfolding translate
translate_lem X k h =
    let n : ℕ = max_bit 0 (X.walk k) + 1 in
    let (w, e) = visit_nodes_total X.param_text (X.walk k) (new_visitor n true) h in
    (
      n,
      w,
      e,
      text-behind X.param_text (X.walk k) n w e,
      max_bit-Fits 0 n (X.walk k) (omega arith),
      λ m p f. omega (arith, max_bit-lt 0 m (X.walk k) p f),
    )
