-- ===== src/Initialize/Once.antt =====
-- What `initialize` establishes, and that it runs once.
use xacc_ibm.Common.{
  ◌∙◌, sym, if_of_true, if_of_false, ℕ, ◌≡◌, refl, Bool, true, false, not, ◌&&◌, List, [], ◌∷◌,
  ◌++◌, some, ok, Bool-cases, Option-cases, inl, inr, if◌then◌else◌, arith,
}
use xacc_ibm.Common.Text.{Text, codes, find_in, text_eq, text_eq_iff}
use xacc_ibm.Common.Dict.{Dict, lookup, insert, lookup-insert}
use xacc_ibm.Common.Keys.{text_key}
use xacc_ibm.Common.Exec.{
  pure, lift, modify, Keeps, pure-Keeps, gets-Keeps, modify-Keeps, lift-Keeps, >>=-Keeps, >>=-eq-ok,
  same_state,
}
use xacc_ibm.Json.{Json, get_array}
use xacc_ibm.Accelerator.{Backend, Accelerator, Options, call, choose_backend}
use xacc_ibm.Config.{Surroundings}
use xacc_ibm.Backends.{backends_path, text_at, read_backend}
use xacc_ibm.Initialize.{
  calibrate, has_hub, add_backend, add_backends, take_credentials, login, open_service, load, start,
  initialize,
}

-- Every available backend stands under its own name.
abbrev pub IsNamed : {D : Type 0} → Accelerator D → Type 0
IsNamed {D} a = (n : Text) (b : Backend D) → lookup n a.available_backends ≡ some b → b.name ≡ n

insert-named :
    {D : Type 0} (y : Backend D) (m : Dict Text (Backend D))
    → ((n : Text) (b : Backend D) → lookup n m ≡ some b → b.name ≡ n)
    → (n : Text) (b : Backend D) → lookup n (insert y.name y m) ≡ some b
    → b.name ≡ n
insert-named y m i n b h = elim (Option-cases (lookup n m)) [
  | inr (w, e) ↦ i n b (e ∙ (rw (lookup-insert y.name n y m, e) at h))
  | inl e ↦ elim (Bool-cases (text_eq y.name n)) [
    | inl f ↦ ground (arith, text_eq_iff y.name n, rw (lookup-insert y.name n y m, e, f) at h)
    | inr f ↦ absurd (cc (rw (lookup-insert y.name n y m, e, f) at h))
  ]
]

carried :
    {D : Type 0} (a a' : Accelerator D)
    → a'.available_backends ≡ a.available_backends
    → IsNamed a
    → IsNamed a'
carried a a' e i n b h = i n b (rw e at h)

call-backends :
    {D : Type 0} (path r : Text) (a a' : Accelerator D)
    → call path a ≡ ok (r, a')
    → a'.available_backends ≡ a.available_backends
unfolding call
call-backends path r a a' h = ground arith

call-IsNamed : {D : Type 0} (path : Text) → Keeps (IsNamed {D = D}) (call path)
call-IsNamed path a r a' i h = carried a a' (call-backends path r a a' h) i

module _ {D : Type 0} (parse : Text → Json D) (of_int : ℕ → D) (unset : ℕ) where
  calibrate-IsNamed : (x : Backend D) → Keeps IsNamed (calibrate parse of_int unset x)
  unfolding calibrate
  calibrate-IsNamed x = >>=-Keeps IsNamed _ _ (gets-Keeps IsNamed (λ a. a)) λ a.
      >>=-Keeps IsNamed _ _ (call-IsNamed _) λ calibration.
        >>=-Keeps IsNamed _ _ (lift-Keeps IsNamed _)
          λ y. >>=-Keeps IsNamed _ _ (call-IsNamed _) λ parameters. lift-Keeps IsNamed _

  calibrated-IsNamed :
      (x : Backend D) (c : Bool)
      → Keeps IsNamed (if c then calibrate parse of_int unset x else pure x)
  calibrated-IsNamed x true = calibrate-IsNamed x
  calibrated-IsNamed x false = pure-Keeps IsNamed x

  add_backend-IsNamed : (b : Json D) → Keeps IsNamed (add_backend parse of_int unset b)
  unfolding add_backend
  add_backend-IsNamed b = >>=-Keeps IsNamed _ _ (lift-Keeps IsNamed (read_backend unset b)) λ x.
      >>=-Keeps IsNamed _ _ (gets-Keeps IsNamed (has_hub parse of_int unset)) λ in_hub.
        >>=-Keeps IsNamed _ _ (calibrated-IsNamed x (not x.is_simulator && in_hub)) λ y.
          modify-Keeps IsNamed
            (λ a. record a { available_backends = insert y.name y a.available_backends })
            (λ a i. insert-named y a.available_backends i)

  add_backends-IsNamed : (bs : List (Json D)) → Keeps IsNamed (add_backends parse of_int unset bs)
  unfolding add_backends
  add_backends-IsNamed [] = pure-Keeps IsNamed tt
  add_backends-IsNamed (b ∷ bs) =
      >>=-Keeps IsNamed _ _ (add_backend-IsNamed b) (λ u. add_backends-IsNamed bs)

  module _ (S : Surroundings) (opts : Options) where
    take_credentials-IsNamed : Keeps IsNamed (take_credentials parse of_int unset S opts)
    unfolding take_credentials
    take_credentials-IsNamed = >>=-Keeps IsNamed _ _ (gets-Keeps IsNamed (λ a. a)) λ a.
        >>=-Keeps IsNamed _ _ (lift-Keeps IsNamed _)
          λ c. >>=-Keeps IsNamed _ _ (modify-Keeps IsNamed _ (λ a i. i)) λ u. pure-Keeps IsNamed c

    login-IsNamed : Keeps IsNamed (login parse of_int unset S opts)
    unfolding login
    login-IsNamed =
        >>=-Keeps IsNamed _ _ (call-IsNamed (codes "/api/users/loginWithToken")) λ response.
          elim (Bool-cases (find_in response (codes "error"))) [
            | inl e ↦ λ a r a' i h. absurd (cc (rw e at h))
            | inr e ↦ λ a r a' i h.
                >>=-Keeps IsNamed (lift (text_at (parse response) (codes "id")))
                  (λ id. modify (λ a. record a { current_api_token = id })) (lift-Keeps IsNamed _)
                  (λ id. modify-Keeps IsNamed _ (λ a i. i)) a r a' i (rw e at h)
          ]

    load-IsNamed : Keeps IsNamed (load parse of_int unset S opts)
    unfolding load
    load-IsNamed = >>=-Keeps IsNamed _ _ take_credentials-IsNamed λ c.
        >>=-Keeps IsNamed _ _ login-IsNamed λ u.
          >>=-Keeps IsNamed _ _ (gets-Keeps IsNamed (λ a. a.current_api_token)) λ token.
            >>=-Keeps IsNamed _ _ (call-IsNamed (backends_path c ++ token)) λ reply.
              >>=-Keeps IsNamed _ _ (lift-Keeps IsNamed (get_array (parse reply))) λ array.
                >>=-Keeps IsNamed _ _ (add_backends-IsNamed array) λ v. pure-Keeps IsNamed c

-- What is known of an object that was initialised with the backend `name`.
pub record IsReady {D : Type 0} (name : Text) (a : Accelerator D) : Type 0 where
  pub named : IsNamed a
  pub done : a.initialized ≡ true
  pub chosen : a.chosen_backend.name ≡ name
  pub on : a.chosen_backend.status ≡ true

chosen-IsReady :
    {D : Type 0} (name : Text) (b : Backend D) (a : Accelerator D)
    → IsNamed a
    → a.initialized ≡ true
    → lookup name a.available_backends ≡ some b
    → b.status ≡ true
    → IsReady name (record a { chosen_backend = b })
chosen-IsReady name b a i d e f = record { named = i; done = d; chosen = i name b e; on = f }

choose_backend-IsReady :
    {D : Type 0} (opts : Options) (name t : Text) (a a' : Accelerator D)
    → opts (codes "ibm-backend") ≡ some name
    → IsNamed a
    → a.initialized ≡ true
    → choose_backend opts a ≡ ok (t, a')
    → IsReady name a'
unfolding choose_backend
choose_backend-IsReady opts name t a a' o i d h =
    elim (Option-cases (lookup name a.available_backends)) [
      | inl e ↦ absurd (cc (rw (choose_backend, o, e) at h))
      | inr (b, e) ↦ elim (Bool-cases b.status) [
        | inr f ↦ absurd (cc (sym (if_of_false b.status _ _ f) ∙ (rw (choose_backend, o, e) at h)))
        | inl f ↦
            rw
              (same_state name t (record a { chosen_backend = b }) a'
                (sym (if_of_true b.status _ _ f) ∙ (rw (choose_backend, o, e) at h)))
              at (chosen-IsReady name b a i d e f)
      ]
    ]

module _ {D : Type 0} (parse : Text → Json D) (of_int : ℕ → D) (unset : ℕ) (S : Surroundings)
    (opts : Options) where
  start-IsReady :
      (name : Text) (a a' : Accelerator D)
      → opts (codes "ibm-backend") ≡ some name
      → IsNamed a
      → start parse of_int unset S opts a ≡ ok (tt, a')
      → IsReady name a'
  unfolding start
  start-IsReady name a a' o i h =
      let (c, b, loaded, rest) = >>=-eq-ok (load parse of_int unset S opts) _ a h in
      let (t, d, chosen, last) =
        >>=-eq-ok (choose_backend opts) (λ t. pure tt) (open_service parse of_int unset S opts c b)
          rest in
      rw (same_state tt tt d a' last) at (
        choose_backend-IsReady opts name t (open_service parse of_int unset S opts c b) d o
          (load-IsNamed parse of_int unset S opts a c b i loaded) refl chosen)

  -- When the option names a backend, every available backend stands under its own name and the
  -- object is not initialised, a successful `initialize` leaves it initialised, with every available
  -- backend still under its own name, and with a chosen backend of that name that is on; and a
  -- second `initialize` succeeds and changes nothing.
  pub initialize-IsReady :
      (name : Text) (a a' : Accelerator D)
      → opts (codes "ibm-backend") ≡ some name
      → IsNamed a
      → a.initialized ≡ false
      → initialize parse of_int unset S opts a ≡ ok (tt, a')
      → IsReady name a' × (initialize parse of_int unset S opts a' ≡ ok (tt, a'))
  unfolding initialize
  initialize-IsReady name a a' o i n h =
      let ready = start-IsReady name a a' o i (sym (if_of_false a.initialized _ _ n) ∙ h) in
      (ready, if_of_true a'.initialized _ _ ready.done)
