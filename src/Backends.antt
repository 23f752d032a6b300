-- ===== src/Backends.antt =====
-- The backends that the service lists, as `IBMAccelerator::initialize` (accelerator/IBMAccelerator.cpp)
-- reads them, and the paths that it asks for.
-- `unset` is what a backend's `nQubits` holds when the document has none.

use xacc_ibm.Common.{
  ℕ, ◌+◌, Bool, true, false, not, ◌&&◌, List, [], ◌∷◌, ◌++◌, Option, none, some, Result, ok, err,
  error, if◌then◌else◌,
}
use xacc_ibm.Common
use xacc_ibm.Common.Text.{Text, codes, find_in}
use xacc_ibm.Common.Keys.{text_key}
use xacc_ibm.Json.{
  Json, has_member, member, get_string, get_int, get_bool, is_array, get_array, index,
}
use xacc_ibm.Accelerator.{Backend}
use xacc_ibm.Config.{Credentials}

-- `getBackendPath` and `postJobPath`, without the token
unfoldable pub backends_path : Credentials → Text
backends_path c = elim c.hub [
  | [] ↦ codes "/api/Backends?access_token="
  | _ ∷ _ ↦
      codes "/api/Network/"
      ++ c.hub
      ++ codes "/Groups/"
      ++ c.group
      ++ codes "/Projects/"
      ++ c.project
      ++ codes "/devices?access_token="
]

unfoldable pub jobs_path : Credentials → Text
jobs_path c = elim c.hub [
  | [] ↦ codes "/api/Jobs?access_token="
  | _ ∷ _ ↦
      codes "/api/Network/"
      ++ c.hub
      ++ codes "/Groups/"
      ++ c.group
      ++ codes "/Projects/"
      ++ c.project
      ++ codes "/jobs?access_token="
]

-- The path of a device's calibration or parameters.
abbrev pub device_data_path : Text → Text → Text → Text → Text
device_data_path hub name what token =
    codes "/api/Network/"
    ++ hub
    ++ codes "/devices/"
    ++ name
    ++ codes "/"
    ++ what
    ++ codes "?access_token="
    ++ token

module _ {D : Type 0} where
  -- A member read as text, or `other` where it is missing.
  abbrev pub text_or : Json D → Text → Text → Result Text
  text_or b key other =
      Common.◌>>=◌ (has_member b key)
        λ there. if there then Common.◌>>=◌ (member b key) get_string else ok other

  abbrev pub text_at : Json D → Text → Result Text
  text_at b key = Common.◌>>=◌ (member b key) get_string

  unfoldable pub read_couplers : List (Json D) → Result (List (ℕ × ℕ))
  read_couplers [] = ok []
  read_couplers (p ∷ ps) = Common.◌>>=◌ (Common.◌>>=◌ (index p 0) get_int) λ s.
      Common.◌>>=◌ (Common.◌>>=◌ (index p 1) get_int)
        λ t. Common.◌>>=◌ (read_couplers ps) λ rest. ok ((s, t) ∷ rest)

  -- `b.HasMember("couplingMap") && b["couplingMap"].IsArray()`
  abbrev pub has_couplers : Json D → Result Bool
  has_couplers b = Common.◌>>=◌ (has_member b (codes "couplingMap")) λ there.
      if there
      then Common.◌>>=◌ (member b (codes "couplingMap")) (λ m. ok (is_array m))
      else ok false

  -- The couplers and the gates of a device.
  unfoldable pub read_gates : Json D → Backend D → Result (Backend D)
  unfolding read_couplers
  read_gates b x = Common.◌>>=◌ (has_couplers b) λ coupled.
      if coupled
      then (Common.◌>>=◌ (member b (codes "couplingMap")) λ m. Common.◌>>=◌ (get_array m) λ ps.
          Common.◌>>=◌ (read_couplers ps) λ cs.
            Common.◌>>=◌ (has_member b (codes "gateSet")) λ gates.
              if gates
              then (Common.◌>>=◌ (text_at b (codes "gateSet")) λ set.
                  Common.◌>>=◌ (text_at b (codes "basisGates"))
                    λ basis. ok (record x { couplers = cs; gate_set = set; basis_gates = basis }))
              else ok (record x { couplers = cs }))
      else ok x

  -- What the list of the backends says of one of them.
  unfoldable pub read_backend : ℕ → Json D → Result (Backend D)
  unfolding read_gates
  read_backend unset b = Common.◌>>=◌ (has_member b (codes "nQubits")) λ counted.
      Common.◌>>=◌ (if counted then Common.◌>>=◌ (member b (codes "nQubits")) get_int else ok unset)
        λ n. Common.◌>>=◌ (text_at b (codes "name")) λ name.
          Common.◌>>=◌ (text_or b (codes "description") []) λ description.
            Common.◌>>=◌ (text_at b (codes "status")) λ status.
              Common.◌>>=◌ (Common.◌>>=◌ (member b (codes "simulator")) get_bool) λ sim.
                let x : Backend D = record {
                  name = name;
                  description = description;
                  n_qubits = n;
                  couplers = [];
                  status = not (find_in status (codes "off"));
                  is_simulator = sim;
                  gate_set = [];
                  basis_gates = [];
                  readout_errors = [];
                  gate_errors = [];
                  multi_qubit_gates = [];
                  multi_qubit_gate_errors = [];
                  t1s = [];
                  t2s = [];
                  frequencies = [];
                } in
                if sim then ok x else read_gates b x
