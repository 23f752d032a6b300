-- ===== src/Listener/Gates.antt =====
-- The four spellings of the universal gate in OpenQasm, as the listener reads them.
use xacc_ibm.Common.{
  ℕ, ◌≡◌, refl, sym, ap, ◌∙◌, true, List, [], ◌∷◌, Option, some, ok, Result-cases, inl, inr,
}
use xacc_ibm.Common.Text.{Text, codes, text_eq}
use xacc_ibm.Ir.{Inst, gate, Xacc, u}
use xacc_ibm.Listener.{
  Params, str_to_param, set_params, u_gate, base_gate, user_gate, read_index, read_indices,
  capitalize,
}

-- What is used of the gate `U` of the registry: a new one has three parameters, and `setParameter`
-- replaces one.
pub record KnowsU {P : Type 0} (X : Xacc P) : Type 0 where
  pub fresh : P
  pub create_u :
      (q : ℕ)
      → X.create_instruction (codes "U") (q ∷ []) []
        ≡ ok (gate u true (q ∷ []) (fresh ∷ fresh ∷ fresh ∷ []))
  pub set_first :
      (qs : List ℕ) (a b c p : P)
      → X.set_parameter (gate u true qs (a ∷ b ∷ c ∷ [])) 0 p ≡ ok (gate u true qs (p ∷ b ∷ c ∷ []))
  pub set_second :
      (qs : List ℕ) (a b c p : P)
      → X.set_parameter (gate u true qs (a ∷ b ∷ c ∷ [])) 1 p ≡ ok (gate u true qs (a ∷ p ∷ c ∷ []))
  pub set_third :
      (qs : List ℕ) (a b c p : P)
      → X.set_parameter (gate u true qs (a ∷ b ∷ c ∷ [])) 2 p ≡ ok (gate u true qs (a ∷ b ∷ p ∷ []))

-- The gate `U(theta, phi, lambda)` on a qubit.
abbrev pub universal : {P : Type 0} → ℕ → P → P → P → Inst P
universal q theta phi lambda = gate u true (q ∷ []) (theta ∷ phi ∷ lambda ∷ [])

-- An argument, and the constants that the listener puts in for missing angles.
module _ {P D : Type 0} (X : Xacc P) (E : Params P D) (K : KnowsU X) (arg : Option Text) where
  u_gate_lem :
      (q : ℕ) (a b c : Text)
      → read_index arg ≡ ok q
      → u_gate X E arg (a ∷ b ∷ c ∷ [])
        ≡ ok (universal q (str_to_param X E a) (str_to_param X E b) (str_to_param X E c))
  unfolding u_gate set_params
  u_gate_lem q a b c e = rw (e, K.create_u, K.set_first, K.set_second, K.set_third) refl

  str_to_param_known : (t : Text) (d : D) → E.eval t ≡ some d → str_to_param X E t ≡ E.of_double d
  unfolding str_to_param
  str_to_param_known t d e = rw (e, str_to_param) refl

  u3_lem :
      (q : ℕ) (a b c : Text)
      → read_index arg ≡ ok q
      → user_gate X E (codes "u3") (arg ∷ []) (a ∷ b ∷ c ∷ [])
        ≡ ok (universal q (str_to_param X E a) (str_to_param X E b) (str_to_param X E c))
  unfolding user_gate base_gate set_params read_indices capitalize text_eq
  u3_lem q a b c e = rw (e, K.create_u, K.set_first, K.set_second, K.set_third) refl

  u2_lem :
      (q : ℕ) (b c : Text)
      → read_index arg ≡ ok q
      → user_gate X E (codes "u2") (arg ∷ []) (b ∷ c ∷ [])
        ≡ ok (
            universal q
              (E.of_double (E.divide (E.decimal 31415926 7) (E.decimal 20 1)))
              (str_to_param X E b)
              (str_to_param X E c))
  unfolding user_gate base_gate set_params read_indices capitalize text_eq
  u2_lem q b c e = rw (e, K.create_u, K.set_first, K.set_second, K.set_third) refl

  u1_lem :
      (q : ℕ) (c : Text)
      → read_index arg ≡ ok q
      → user_gate X E (codes "u1") (arg ∷ []) (c ∷ [])
        ≡ ok (
            universal q
              (E.of_double (E.decimal 0 1))
              (E.of_double (E.decimal 0 1))
              (str_to_param X E c))
  unfolding user_gate base_gate set_params read_indices capitalize text_eq
  u1_lem q c e = rw (e, K.create_u, K.set_first, K.set_second, K.set_third) refl

  pub u3-u_gate :
      (a b c : Text)
      → user_gate X E (codes "u3") (arg ∷ []) (a ∷ b ∷ c ∷ []) ≡ u_gate X E arg (a ∷ b ∷ c ∷ [])
  unfolding user_gate u_gate read_indices
  u3-u_gate a b c = elim (Result-cases (read_index arg)) [
    | inl (q, e) ↦ u3_lem q a b c e ∙ sym (u_gate_lem q a b c e)
    | inr (why, e) ↦ rw (e, user_gate, u_gate, read_indices) refl
  ]

  pub u2-u_gate :
      (half b c : Text)
      → E.eval half ≡ some (E.divide (E.decimal 31415926 7) (E.decimal 20 1))
      → user_gate X E (codes "u2") (arg ∷ []) (b ∷ c ∷ []) ≡ u_gate X E arg (half ∷ b ∷ c ∷ [])
  unfolding user_gate u_gate read_indices
  u2-u_gate half b c h = elim (Result-cases (read_index arg)) [
    | inl (q, e) ↦
        u2_lem q b c e
        ∙ ap (λ p. ok (universal q p (str_to_param X E b) (str_to_param X E c)))
            (sym (str_to_param_known half _ h))
        ∙ sym (u_gate_lem q half b c e)
    | inr (why, e) ↦ rw (e, user_gate, u_gate, read_indices) refl
  ]

  pub u1-u_gate :
      (z c : Text)
      → E.eval z ≡ some (E.decimal 0 1)
      → user_gate X E (codes "u1") (arg ∷ []) (c ∷ []) ≡ u_gate X E arg (z ∷ z ∷ c ∷ [])
  unfolding user_gate u_gate read_indices
  u1-u_gate z c h = elim (Result-cases (read_index arg)) [
    | inl (q, e) ↦
        u1_lem q c e
        ∙ ap (λ p. ok (universal q p p (str_to_param X E c))) (sym (str_to_param_known z _ h))
        ∙ sym (u_gate_lem q z z c e)
    | inr (why, e) ↦ rw (e, user_gate, u_gate, read_indices) refl
  ]
