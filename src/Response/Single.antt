-- ===== src/Response/Single.antt =====
-- The branch of `processResponse` for a document with one part.
use xacc_ibm.Common.{
  ℕ, ◌≡◌, refl, ◌∙◌, ap, Bool, List, [], ◌∷◌, ◌++◌, map, some, ok, if◌then◌else◌, get_elem?,
  append-nil, append_assoc, >>=-eq-ok,
}
use xacc_ibm.Common.Text.{Text, codes}
use xacc_ibm.Common.Exec
use xacc_ibm.Json.{Json, integer, members, get_double}
use xacc_ibm.Accelerator.{Accelerator}
use xacc_ibm.Outcome.{strip}
use xacc_ibm.Response.{
  Buffer, number, text, append_measurement, add_extra_info, add_device_info, single_counts,
  single_result, value_of, read_data,
}

-- The counts as the document has them.
abbrev pub written : {D : Type 0} → List (Text × ℕ) → List (Text × Json D)
written = map (λ c. (c.0, integer c.1))

-- What is stored of a count: blanks go on a simulator, and nothing changes on a device.
abbrev pub told : Bool → Text × ℕ → Text × ℕ
told sim c = (if sim then strip c.0 else c.0, c.1)

module _ {D : Type 0} where
  single_counts_lem :
      (sim : Bool) (counts : List (Text × ℕ)) (b : Buffer D) (a : Accelerator D)
      → single_counts sim (written counts) b a
        ≡ ok (record b { measurements = b.measurements ++ map (told sim) counts }, a)
  unfolding single_counts
  single_counts_lem sim [] b a = rw append-nil
  single_counts_lem sim ((s, n) ∷ counts) b a =
      single_counts_lem sim counts (append_measurement (if sim then strip s else s) n b) a
      ∙ rw append_assoc

  -- What the given buffer gains.
  abbrev pub gained : Accelerator D → Text → D → List (Text × ℕ) → Buffer D → Buffer D
  gained a name seconds counts b = add_device_info a.chosen_backend (
      add_extra_info (codes "kernel") (text name) (
        add_extra_info (codes "time") (number seconds) (record b {
          measurements = b.measurements ++ map (told a.chosen_backend.is_simulator) counts;
        })))

  of_values :
      (of_int : ℕ → D) (q time cs : Json D) (b : Buffer D) (a : Accelerator D) (name : Text)
      (seconds : D) (counts : List (Text × ℕ))
      → value_of q (codes "time") ≡ ok time
      → get_double of_int time ≡ ok seconds
      → value_of q (codes "counts") ≡ ok cs
      → members cs ≡ ok (written counts)
      → get_elem? a.kernel_names 0 ≡ some name
      → single_result of_int q b a
        ≡ ok (gained a name seconds counts b, record a { measurement_supports = [] })
  unfolding single_result
  of_values of_int q time cs b a name seconds counts found_time read found_counts listed e =
      rw (found_counts, listed, Exec.◌>>=◌)
        (rw
          (
            single_counts_lem a.chosen_backend.is_simulator counts b a,
            found_time,
            read,
            e,
            Exec.◌>>=◌,
          )
          refl)

  pub single_result_lem :
      (of_int : ℕ → D) (q : Json D) (b : Buffer D) (a : Accelerator D) (name : Text) (seconds : D)
      (counts : List (Text × ℕ))
      → read_data of_int q ≡ ok (seconds, written counts)
      → get_elem? a.kernel_names 0 ≡ some name
      → single_result of_int q b a
        ≡ ok (gained a name seconds counts b, record a { measurement_supports = [] })
  unfolding read_data
  single_result_lem of_int q b a name seconds counts h e =
      let (time, found_time, h₁) = >>=-eq-ok (value_of q (codes "time")) _ h in
      let (s, read, h₂) = >>=-eq-ok (get_double of_int time) _ h₁ in
      let (cs, found_counts, h₃) = >>=-eq-ok (value_of q (codes "counts")) _ h₂ in
      let (entries, listed, last) = >>=-eq-ok (members cs) _ h₃ in
      let same_time : s ≡ seconds = cc last in
      let same_counts : entries ≡ written counts = cc last in
      of_values of_int q time cs b a name seconds counts found_time (read ∙ ap ok same_time)
        found_counts (listed ∙ ap ok same_counts) e
