-- ===== src/Accelerator/Connectivity.antt =====
-- The connectivity that a backend without couplers reports.
use xacc_ibm.Common.{
  ℕ, zero, suc, ◌+◌, ◌≡◌, refl, ◌&&◌, ◌||◌, [], ◌∷◌, ◌++◌, ◌==◌, ltb, leb, arith, ◌∙◌,
}
use xacc_ibm.Transform.{Couplers, is_coupling_available}
use xacc_ibm.Accelerator.{Backend, pairs_from, rows_from, connectivity}

is_coupling_available-append :
    (cs ds : Couplers) (a b : ℕ)
    → is_coupling_available (cs ++ ds) a b
      ≡ is_coupling_available cs a b || is_coupling_available ds a b
unfolding is_coupling_available
is_coupling_available-append [] ds a b = refl
is_coupling_available-append ((i, j) ∷ cs) ds a b =
    ground (arith, is_coupling_available-append cs ds a b)

pairs_from-available :
    (i j left a b : ℕ)
    → is_coupling_available (pairs_from i j left) a b
      ≡ (a == i) && ltb i b && leb j b && ltb b (j + left)
unfolding pairs_from is_coupling_available
pairs_from-available i j zero a b = ground arith
pairs_from-available i j (suc left) a b = ground (arith, pairs_from-available i (j + 1) left a b)

rows_from-available :
    (n i left a b : ℕ)
    → is_coupling_available (rows_from n i left) a b
      ≡ leb i a && ltb a (i + left) && ltb a b && ltb b n
unfolding rows_from is_coupling_available
rows_from-available n i zero a b = ground arith
rows_from-available n i (suc left) a b =
    is_coupling_available-append (pairs_from i 0 n) (rows_from n (i + 1) left) a b
    ∙ ground (arith, pairs_from-available i 0 n a b, rows_from-available n (i + 1) left a b)

-- A backend without couplers is reported to couple each pair of its qubits in one direction, from
-- the smaller to the greater, and no other pair.
pub connectivity-simulator :
    {D : Type 0} (b : Backend D) (s t : ℕ)
    → b.couplers ≡ []
    → is_coupling_available (connectivity b) s t ≡ ltb s t && ltb t b.n_qubits
unfolding connectivity
connectivity-simulator b s t e =
    rw e (rows_from-available b.n_qubits 0 b.n_qubits s t ∙ ground arith)
