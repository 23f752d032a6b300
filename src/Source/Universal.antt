-- ===== src/Source/Universal.antt =====
-- The gates `u3`, `u2` and `u1` of a source (compiler/OQASMToXACCListener.cpp, `exitUserDefGate`) and
-- the gate `U` (`exitU`).
use xacc_ibm.Common.{
  ◌≡◌, refl, sym, ap, ◌∙◌, List, [], ◌∷◌, ◌++◌, map, some, ok, ◌>>=◌, if◌then◌else◌, Bool-cases,
  inl, inr,
}
use xacc_ibm.Common.Text.{Text, codes, text_eq, text_eq_iff}
use xacc_ibm.Ir.{Xacc}
use xacc_ibm.Listener.{
  Params, Listener, Event, on_event, adding, walk_tree, enter_kernel, exit_kernel,
}
use xacc_ibm.Listener.Gates.{KnowsU, u3-u_gate, u2-u_gate, u1-u_gate}
use xacc_ibm.Parser.{Runtime}
use xacc_ibm.Parser.Written.{
  Number, real, Arg, Some, all, Operation, apply_u, apply_cx, apply_gate, apply_angles, measure,
  Statement, declare_q, declare_c, operate, guarded, operation_event, statement_events,
  statements_events, Written, source_tokens, source_events, kernel_events,
}
use xacc_ibm.Parser.Lookahead.{IsGrammatical}
use xacc_ibm.Source.{new_listener, compile_tokens}
use xacc_ibm.Source.Reading.{>>=-ext, walk_tree-append, compile_tokens-source_tokens}

abbrev zero : Number
zero = real (codes "0.0")

abbrev half_pi : Number
half_pi = real (codes "1.5707963")

-- The gate `g` with the angles `t` and `ts` on the one qubit `a`, written with `U` where it is `u3`,
-- `u2` or `u1` with as many angles as that gate has.
abbrev pub with_u : Text → Number → List Number → Arg → Operation
with_u g t [] a =
    if text_eq g (codes "u1")
    then apply_u (record { head = zero; others = zero ∷ t ∷ [] }) a
    else apply_angles g (record { head = t; others = [] }) (record { head = a; others = [] })
with_u g t (p ∷ []) a =
    if text_eq g (codes "u2")
    then apply_u (record { head = half_pi; others = t ∷ p ∷ [] }) a
    else apply_angles g (record { head = t; others = p ∷ [] }) (record { head = a; others = [] })
with_u g t (p ∷ l ∷ []) a =
    if text_eq g (codes "u3")
    then apply_u (record { head = t; others = p ∷ l ∷ [] }) a
    else apply_angles g (record { head = t; others = p ∷ l ∷ [] })
        (record { head = a; others = [] })
with_u g t ts a =
    apply_angles g (record { head = t; others = ts }) (record { head = a; others = [] })

abbrev on_args : Text → Some Number → Arg → List Arg → Operation
on_args g ts a [] = with_u g ts.head ts.others a
on_args g ts a (b ∷ bs) = apply_angles g ts (record { head = a; others = b ∷ bs })

abbrev universal : Operation → Operation
universal (apply_angles g ts xs) = on_args g ts xs.head xs.others
universal o = o

abbrev universal_statement : Statement → Statement
universal_statement (operate o) = operate (universal o)
universal_statement (guarded c n o) = guarded c n (universal o)
universal_statement s = s

-- The kernel with all its `u3`, `u2` and `u1` on one qubit written with `U`.
abbrev pub with_universal : Written → Written
with_universal w = record w {
  body = record {
    head = universal_statement w.body.head;
    others = map universal_statement w.body.others;
  };
}

module _ {P D : Type 0} (X : Xacc P) (E : Params P D) (K : KnowsU X)
    (zero_read : E.eval (codes "0.0") ≡ some (E.decimal 0 1))
    (half_read : E.eval (codes "1.5707963")
      ≡ some (E.divide (E.decimal 31415926 7) (E.decimal 20 1))) where
  -- Two operations whose callbacks do the same.
  abbrev Same : Operation → Operation → Type 0
  Same o p =
      (l : Listener P) → on_event X E (operation_event o) l ≡ on_event X E (operation_event p) l

  with_u-Same :
      (g : Text) (t : Number) (ts : List Number) (a : Arg)
      → Same
          (apply_angles g (record { head = t; others = ts }) (record { head = a; others = [] }))
          (with_u g t ts a)
  unfolding on_event
  with_u-Same g t [] a l = elim (Bool-cases (text_eq g (codes "u1"))) [
    | inr e ↦ rw e refl
    | inl e ↦
        rw (e, (text_eq_iff g (codes "u1")).0 e)
          (ap (adding X E l) (u1-u_gate X E K _ _ _ zero_read))
  ]
  with_u-Same g t (p ∷ []) a l = elim (Bool-cases (text_eq g (codes "u2"))) [
    | inr e ↦ rw e refl
    | inl e ↦
        rw (e, (text_eq_iff g (codes "u2")).0 e)
          (ap (adding X E l) (u2-u_gate X E K _ _ _ _ half_read))
  ]
  with_u-Same g t (p ∷ r ∷ []) a l = elim (Bool-cases (text_eq g (codes "u3"))) [
    | inr e ↦ rw e refl
    | inl e ↦ rw (e, (text_eq_iff g (codes "u3")).0 e) (ap (adding X E l) (u3-u_gate X E K _ _ _ _))
  ]
  with_u-Same g t (p ∷ r ∷ s ∷ ts) a l = refl

  on_args-Same :
      (g : Text) (ts : Some Number) (a : Arg) (bs : List Arg)
      → Same (apply_angles g ts (record { head = a; others = bs })) (on_args g ts a bs)
  on_args-Same g ts a [] l = with_u-Same g ts.head ts.others a l
  on_args-Same g ts a (b ∷ bs) l = refl

  universal-Same : (o : Operation) → Same o (universal o)
  universal-Same (apply_u ns a) l = refl
  universal-Same (apply_cx a b) l = refl
  universal-Same (apply_gate g xs) l = refl
  universal-Same (apply_angles g ts xs) l = on_args-Same g ts xs.head xs.others l
  universal-Same (measure q c) l = refl

  abbrev SameWalk : List Event → List Event → Type 0
  SameWalk es fs = (l : Listener P) → walk_tree X E es l ≡ walk_tree X E fs l

  joined-SameWalk :
      (es es' fs fs' : List Event)
      → SameWalk es es'
      → SameWalk fs fs'
      → SameWalk (es ++ fs) (es' ++ fs')
  joined-SameWalk es es' fs fs' h k l =
      walk_tree-append X E es fs l
      ∙ >>=-ext (walk_tree X E es l) _ _ k
      ∙ ap (λ m. m >>= λ n. walk_tree X E fs' n) (h l)
      ∙ sym (walk_tree-append X E es' fs' l)

  event-SameWalk :
      (o : Operation) → SameWalk (operation_event o ∷ []) (operation_event (universal o) ∷ [])
  unfolding walk_tree
  event-SameWalk o l = ap (λ m. m >>= λ n. walk_tree X E [] n) (universal-Same o l)

  statement-SameWalk :
      (s : Statement) → SameWalk (statement_events s) (statement_events (universal_statement s))
  statement-SameWalk (declare_q r n) l = refl
  statement-SameWalk (declare_c r n) l = refl
  statement-SameWalk (operate o) l = event-SameWalk o l
  statement-SameWalk (guarded c n o) l = event-SameWalk o l

  statements-SameWalk :
      (ss : List Statement)
      → SameWalk (statements_events ss) (statements_events (map universal_statement ss))
  statements-SameWalk [] l = refl
  statements-SameWalk (s ∷ ss) l =
      joined-SameWalk (statement_events s) _ (statements_events ss) _ (statement-SameWalk s)
        (statements-SameWalk ss) l

  kernel-SameWalk : (w : Written) → SameWalk (kernel_events w) (kernel_events (with_universal w))
  kernel-SameWalk w l =
      let entering = enter_kernel w.name (map (λ p. p.name) w.params) ∷ [] in
      let leaving = exit_kernel ∷ [] in
      let inside = statements_events (all w.body) in
      let inside' = statements_events (map universal_statement (all w.body)) in
      joined-SameWalk entering entering (inside ++ leaving) (inside' ++ leaving) (λ m. refl)
        (joined-SameWalk inside inside' leaving leaving (statements-SameWalk (all w.body))
          (λ m. refl))
        l

  source-SameWalk :
      (ws : List Written) → SameWalk (source_events ws) (source_events (map with_universal ws))
  source-SameWalk [] l = refl
  source-SameWalk (w ∷ ws) l =
      joined-SameWalk (kernel_events w) _ (source_events ws) _ (kernel-SameWalk w)
        (source-SameWalk ws) l

  -- Where the lookahead is that of the grammar, the registry has the gate `U`, and exprtk reads
  -- `0.0` as that double and `1.5707963` as 3.1415926 / 2.0: a source of kernels compiles to the
  -- same result as the source in which every `u3(a,b,c)`, `u2(b,c)` and `u1(c)` on one qubit is
  -- written `U(a,b,c)`, `U(1.5707963,b,c)` and `U(0.0,0.0,c)`.
  pub compile_tokens-universal :
      (R : Runtime)
      → IsGrammatical R
      → (ws : List Written)
      → compile_tokens X E R (source_tokens ws)
        ≡ compile_tokens X E R (source_tokens (map with_universal ws))
  compile_tokens-universal R G ws =
      compile_tokens-source_tokens X E R G ws
      ∙ ap (λ m. m >>= λ l. ok l.kernels) (source-SameWalk ws new_listener)
      ∙ sym (compile_tokens-source_tokens X E R G (map with_universal ws))
