-- ===== src/Tests/Framework.antt =====
-- A framework in which the interface `Xacc` is lawful: instruction parameters are texts, functions are
-- lists, and the registry knows the gates `H`, `CNOT`, `Measure` and `U`.
use xacc_ibm.Common.{
  ℕ, zero, suc, ◌≡◌, refl, ap, true, List, [], ◌∷◌, ◌++◌, length, Result, ok, err, undefined,
  map_ok, if◌then◌else◌,
}
use xacc_ibm.Common.Text.{Text, codes, text_eq}
use xacc_ibm.Ir.{
  Inst, Insts, gate, conditional, function, pulse, nil, cons, hadamard, cnot, u, measure, node,
  to_insts, IsFlat, Xacc, IsLawful,
}

unfoldable mutual
  pub inst_nodes : Inst Text → List (Inst Text)
  inst_nodes (gate g on qs ps) = gate g on qs ps ∷ []
  inst_nodes (conditional on q is) = conditional on q is ∷ insts_nodes is
  inst_nodes (function n a on is) = function n a on is ∷ insts_nodes is
  inst_nodes (pulse on qs r) = pulse on qs r ∷ []

  pub insts_nodes : Insts Text → List (Inst Text)
  insts_nodes nil = []
  insts_nodes (cons i is) = inst_nodes i ++ insts_nodes is

abbrev pub remove : List (Inst Text) → ℕ → Result (List (Inst Text))
remove [] n = err undefined
remove (x ∷ xs) zero = ok xs
remove (x ∷ xs) (suc n) = map_ok (λ ys. x ∷ ys) (remove xs n)

abbrev pub insert : List (Inst Text) → ℕ → Inst Text → Result (List (Inst Text))
insert xs zero i = ok (i ∷ xs)
insert [] (suc n) i = err undefined
insert (x ∷ xs) (suc n) i = map_ok (λ ys. x ∷ ys) (insert xs n i)

abbrev pub put : List Text → ℕ → Text → List Text
put [] n p = []
put (q ∷ qs) zero p = p ∷ qs
put (q ∷ qs) (suc n) p = q ∷ put qs n p

abbrev pub set_parameter : Inst Text → ℕ → Text → Result (Inst Text)
set_parameter (gate g on qs ps) n p = ok (gate g on qs (put ps n p))
set_parameter (conditional on q is) n p = err undefined
set_parameter (function m a on is) n p = err undefined
set_parameter (pulse on qs r) n p = err undefined

abbrev pub create : Text → List ℕ → List Text → Result (Inst Text)
create name qs ps =
    if text_eq name (codes "H")
    then ok (gate hadamard true qs ps)
    else if text_eq name (codes "CNOT")
    then ok (gate cnot true qs ps)
    else if text_eq name (codes "Measure")
    then ok (gate measure true qs ps)
    else if text_eq name (codes "U")
    then ok (gate u true qs (codes "0" ∷ codes "0" ∷ codes "0" ∷ []))
    else err undefined

abbrev pub xacc : Xacc Text
xacc = record {
  walk = λ k. inst_nodes (node k);
  remove_instruction = remove;
  insert_instruction = insert;
  create_instruction = create;
  param_text = λ p. p;
  set_parameter = set_parameter;
}

flat_nodes : (is : List (Inst Text)) → IsFlat is → insts_nodes (to_insts is) ≡ is
unfolding insts_nodes inst_nodes
flat_nodes [] h = refl
flat_nodes (gate g on qs ps ∷ is) h = ap (λ js. gate g on qs ps ∷ js) (flat_nodes is h.1)
flat_nodes (conditional on q js ∷ is) h = cc
flat_nodes (function n a on js ∷ is) h = cc
flat_nodes (pulse on qs r ∷ is) h = ap (λ js. pulse on qs r ∷ js) (flat_nodes is h.1)

remove_at :
    (xs : List (Inst Text)) (a : Inst Text) (ys : List (Inst Text))
    → remove (xs ++ a ∷ ys) (length xs) ≡ ok (xs ++ ys)
remove_at [] a ys = refl
remove_at (x ∷ xs) a ys = ap (map_ok (λ zs. x ∷ zs)) (remove_at xs a ys)

insert_at :
    (xs : List (Inst Text)) (a : Inst Text) (ys : List (Inst Text))
    → insert (xs ++ ys) (length xs) a ≡ ok (xs ++ a ∷ ys)
insert_at [] a ys = refl
insert_at (x ∷ xs) a ys = ap (map_ok (λ zs. x ∷ zs)) (insert_at xs a ys)

pub lawful : IsLawful xacc
unfolding text_eq inst_nodes
lawful = record {
  walk_flat = λ k h. ap (λ js. node k ∷ js) (flat_nodes k.instructions h);
  remove_at = remove_at;
  insert_at = insert_at;
  create_h = λ q. refl;
  create_cnot = λ s t. refl;
}
