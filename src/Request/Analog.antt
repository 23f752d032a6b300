-- ===== src/Request/Analog.antt =====
-- What is posted of an OpenPulse kernel, and what it is to be.
use xacc_ibm.Common.{
  ℕ, ◌-◌, ◌≡◌, refl, sym, ◌∙◌, ap, true, false, List, [], ◌∷◌, ◌++◌, Result, ok, err, ◌>>=◌, length,
  take, append_assoc, append-nil, All, map, >>=-eq-ok,
}
use xacc_ibm.Common.Text.{Text, codes}
use xacc_ibm.Ir.{identity, Inst, gate, conditional, function, pulse, Kernel, Xacc}
use xacc_ibm.Nodes.{keep_measured, walk_pulse}
use xacc_ibm.Pulse
use xacc_ibm.Pulse.{new_pulse, instructions_json, visit_gate}
use xacc_ibm.Request.{kernel_json}
use xacc_ibm.Request.Posted.{without_last_lem}

-- A node of an analog kernel: the only gate that is enabled may be the identity.
abbrev pub IsAnalog : {P : Type 0} → Inst P → Type 0
IsAnalog (gate identity on qs ps) = Unit {0}
IsAnalog (gate g on qs ps) = on ≡ false
IsAnalog (conditional on q is) = Unit {0}
IsAnalog (function n a on is) = Unit {0}
IsAnalog (pulse on qs r) = Unit {0}

-- What the enabled pulses append, in order.
abbrev pub texts : {P : Type 0} → List (Inst P) → Result (List Text)
texts [] = ok []
texts (pulse true qs r ∷ is) = do t ← r; ts ← texts is; ok (t ∷ ts)
texts (i ∷ is) = texts is

abbrev joined : List Text → Text
joined [] = []
joined (t ∷ ts) = t ++ joined ts

-- A text with a comma behind it, and the texts with commas between.
abbrev pub comma_behind : Text → Text
comma_behind t = t ++ codes ","

abbrev pub behind_first : List Text → Text
behind_first [] = []
behind_first (t ∷ ts) = codes "," ++ (t ++ behind_first ts)

-- The experiment with the instructions `items`; where there is none, the opening bracket is missing.
abbrev pub experiment : Text → List Text → Text
experiment name [] = codes "{ \"name\": \"" ++ (name ++ codes "\", \"instructions\": ]}")
experiment name (item ∷ items) =
    codes "{ \"name\": \""
    ++ (name ++ (codes "\", \"instructions\": [" ++ ((item ++ behind_first items) ++ codes "]}")))

-- A walk over the nodes of an analog kernel appends what the pulses append.
walk_pulse-texts :
    {P : Type 0} (is : List (Inst P)) (native : Text) (qs : List ℕ) (ts : List Text)
    → All IsAnalog is
    → texts is ≡ ok ts
    → walk_pulse is native qs ≡ ok (native ++ joined ts, qs)
unfolding walk_pulse keep_measured Pulse.visit visit_gate
walk_pulse-texts [] native qs ts a h = let same : [] ≡ ts = cc h in rw (← same) (rw append-nil refl)
walk_pulse-texts (gate identity true bs ps ∷ is) native qs ts a h =
    walk_pulse-texts is native qs ts a.1 h
walk_pulse-texts (gate g false bs ps ∷ is) native qs ts a h = walk_pulse-texts is native qs ts a.1 h
walk_pulse-texts (gate g true bs ps ∷ is) native qs ts a h = absurd (cc (a.0))
walk_pulse-texts (conditional true q js ∷ is) native qs ts a h =
    walk_pulse-texts is native qs ts a.1 h
walk_pulse-texts (conditional false q js ∷ is) native qs ts a h =
    walk_pulse-texts is native qs ts a.1 h
walk_pulse-texts (function n b true js ∷ is) native qs ts a h =
    walk_pulse-texts is native qs ts a.1 h
walk_pulse-texts (function n b false js ∷ is) native qs ts a h =
    walk_pulse-texts is native qs ts a.1 h
walk_pulse-texts (pulse false bs r ∷ is) native qs ts a h = walk_pulse-texts is native qs ts a.1 h
walk_pulse-texts (pulse true bs (err e) ∷ is) native qs ts a h = absurd (cc h)
walk_pulse-texts (pulse true bs (ok t) ∷ is) native qs ts a h =
    let (us, others, last) = >>=-eq-ok (texts is) (λ us. ok (t ∷ us)) h in
    let same : t ∷ us ≡ ts = cc last in
    rw (← same) (
      walk_pulse-texts is (native ++ t) qs us a.1 others
      ∙ ap (λ n. ok (n, qs)) (append_assoc native t (joined us)))

commas_moved :
    (t : Text) (ts : List Text)
    → joined (map comma_behind (t ∷ ts)) ≡ (t ++ behind_first ts) ++ codes ","
commas_moved t [] = append-nil (t ++ codes ",") ∙ ap (λ u. u ++ codes ",") (sym (append-nil t))
commas_moved t (s ∷ ts) =
    ap (λ u. (t ++ codes ",") ++ u) (commas_moved s ts)
    ∙ append_assoc t (codes ",") ((s ++ behind_first ts) ++ codes ",")
    ∙ sym (append_assoc t (codes "," ++ (s ++ behind_first ts)) (codes ","))

instructions_json-experiment :
    (name : Text) (items : List Text)
    → instructions_json (new_pulse name ++ joined (map comma_behind items)) ≡ experiment name items
unfolding instructions_json new_pulse
instructions_json-experiment name [] =
    ap (λ s. take (length s - 1) s ++ codes "]}")
      (append-nil (codes "{ \"name\": \"" ++ (name ++ codes "\", \"instructions\": ["))
        ∙ ap (λ u. codes "{ \"name\": \"" ++ u)
            (sym (append_assoc name (codes "\", \"instructions\": ") (codes "["))))
    ∙ ap (λ u. u ++ codes "]}")
        (without_last_lem (codes "{ \"name\": \"" ++ (name ++ codes "\", \"instructions\": ")) b'[')
    ∙ ap (λ u. codes "{ \"name\": \"" ++ u)
        (append_assoc name (codes "\", \"instructions\": ") (codes "]}"))
instructions_json-experiment name (t ∷ ts) =
    let body = t ++ behind_first ts in
    let head = codes "{ \"name\": \"" ++ (name ++ codes "\", \"instructions\": [") in
    ap (λ s. take (length s - 1) s ++ codes "]}")
      (ap (λ u. head ++ u) (commas_moved t ts) ∙ sym (append_assoc head body (codes ",")))
    ∙ ap (λ u. u ++ codes "]}") (without_last_lem (head ++ body) b',')
    ∙ append_assoc head body (codes "]}")
    ∙ ap (λ u. codes "{ \"name\": \"" ++ u)
        (append_assoc name (codes "\", \"instructions\": [") (body ++ codes "]}"))

-- When the only gates that are enabled among the nodes of an OpenPulse kernel are identities, and
-- what its enabled pulses append, in order, are texts with a comma behind each, the text of the
-- kernel for a job is the experiment that it is to be, with a comma behind: an object with the name
-- of the kernel and the array of these texts, in order and with commas between; where there is no
-- text, the opening bracket of the array is missing. No measured qubit is kept of the kernel.
pub kernel_json-experiment :
    {P : Type 0} (X : Xacc P) (size : ℕ) (k : Kernel P) (items : List Text)
    → All IsAnalog (X.walk k)
    → texts (X.walk k) ≡ ok (map comma_behind items)
    → kernel_json X true size k ≡ ok (experiment k.name items ++ codes ",", [])
unfolding kernel_json
kernel_json-experiment X size k items a h =
    rw (walk_pulse-texts (X.walk k) (new_pulse k.name) [] (map comma_behind items) a h, kernel_json)
      (ap (λ t. ok (t ++ codes ",", [])) (instructions_json-experiment k.name items))
