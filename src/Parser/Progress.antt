-- ===== src/Parser/Progress.antt =====
-- What the parts of the rule functions do with their tokens: each keeps them all, as leaves or behind, or
-- ends in a syntax error, whatever the lookahead.
use xacc_ibm.Common.{
  ℕ, zero, suc, ◌+◌, ◌<◌, refl, Bool, true, false, List, [], ◌∷◌, Result, ok, length, contains,
  if◌then◌else◌, ◌==◌, arith,
}
use xacc_ibm.Parser.{
  Token, la, Tree, leaf, Runtime, Parser, rule, match, match_set, syntax_error, call, look, choose,
  alternative, repeat, while_in, repeat_predicted, many_predicted, ◌>>◌,
}
use xacc_ibm.Parser.Leaves.{leaves, yields, IsFine, then-IsFine, rule-IsFine, weaken}

-- A part that is fine on fewer than `n` tokens, and takes `k` of them at least.
pub record IsGood (n k : ℕ) (p : Parser) : Type 0 where
  pub is_fine : (ctx : List ℕ) (ts : List Token) → length ts < n → IsFine k ts (p ctx ts)

both : (n j k : ℕ) (p q : Parser) → IsGood n j p → IsGood n k q → IsGood n (j + k) (p >> q)
unfolding ◌>>◌
both n j k p q hp hq = record {
  is_fine = λ ctx ts l.
      then-IsFine j k ts (p ctx ts) (q ctx) (hp.is_fine ctx ts l)
        (λ rest m. hq.is_fine ctx rest (omega (arith, l, m)));
}

-- A part that takes a token, and any parts.
pub taking : {n : ℕ} {p q : Parser} → IsGood n 1 p → IsGood n 0 q → IsGood n 1 (p >> q)
taking {n} {p} {q} hp hq = both n 1 0 p q hp hq

pub passing : {n : ℕ} {p q : Parser} → IsGood n 0 p → IsGood n 0 q → IsGood n 0 (p >> q)
passing {n} {p} {q} hp hq = both n 0 0 p q hp hq

pub before : {n : ℕ} {p q : Parser} → IsGood n 0 p → IsGood n 1 q → IsGood n 1 (p >> q)
before {n} {p} {q} hp hq = both n 0 1 p q hp hq

-- Behind a token that is taken.
pub behind : {n : ℕ} {p q : Parser} → IsGood (suc n) 1 p → IsGood n 0 q → IsGood (suc n) 1 (p >> q)
unfolding ◌>>◌
behind {n} {p} {q} hp hq = record {
  is_fine = λ ctx ts l.
      then-IsFine 1 0 ts (p ctx ts) (q ctx) (hp.is_fine ctx ts l)
        (λ rest m. hq.is_fine ctx rest (omega (arith, l, m)));
}

pub loose : {n : ℕ} {p : Parser} → IsGood n 1 p → IsGood n 0 p
loose {n} {p} h = record {
  is_fine = λ ctx ts l. weaken 1 0 ts (p ctx ts) (omega arith) (h.is_fine ctx ts l);
}

pub called : {n k state : ℕ} {p : Parser} → IsGood n k p → IsGood n k (call state p)
called {n} {k} {state} h = record { is_fine = λ ctx ts l. h.is_fine (state ∷ ctx) ts l }

pub looked : {n k : ℕ} (f : ℕ → Parser) → ((kind : ℕ) → IsGood n k (f kind)) → IsGood n k (look f)
unfolding look
looked f h = record { is_fine = λ ctx ts l. (h (la ts)).is_fine ctx ts l }

pub in_rule : {n k : ℕ} {p : Parser} (r : ℕ) → IsGood n k p → IsGood n k (rule r p)
unfolding rule
in_rule {n} {k} {p} r h = record {
  is_fine = λ ctx ts l. rule-IsFine k r ts (p ctx ts) (h.is_fine ctx ts l);
}

pub tested :
    {n k : ℕ} {p q : Parser} (b : Bool)
    → IsGood n k p
    → IsGood n k q
    → IsGood n k (if b then p else q)
tested true hp hq = hp
tested false hp hq = hq

pub IsFine-test :
    (k : ℕ) (ts : List Token) (b : Bool) (r s : Result (List Tree × List Token))
    → IsFine k ts r
    → IsFine k ts s
    → IsFine k ts (if b then r else s)
IsFine-test k ts true r s hr hs = hr
IsFine-test k ts false r s hr hs = hs

pub nothing-IsFine : (ts : List Token) → IsFine 0 ts (ok ([], ts))
unfolding yields
nothing-IsFine ts = (refl, omega arith)

-- A part that the next tokens can leave out.
pub optional :
    {n k : ℕ} (p : Parser) (b : List Token → Bool)
    → IsGood n k p
    → IsGood n 0 (λ ctx ts. if b ts then p ctx ts else ok ([], ts))
optional {n} {k} p b h = record {
  is_fine = λ ctx ts l.
      IsFine-test 0 ts (b ts) _ _ (weaken k 0 ts (p ctx ts) (omega arith) (h.is_fine ctx ts l))
        (nothing-IsFine ts);
}

taken : (t : Token) (ts : List Token) → IsFine 1 (t ∷ ts) (ok (leaf t ∷ [], ts))
unfolding yields leaves
taken t ts = (refl, omega arith)

module _ (R : Runtime) where
  pub syntax_error-IsFine :
      (k : ℕ) (ctx : List ℕ) (ts : List Token) → IsFine k ts (syntax_error R ctx ts)
  unfolding syntax_error
  syntax_error-IsFine k ctx ts = tt

  -- An error is fine for any tokens.
  pub syntax_error_of : (ctx : List ℕ) (ts all : List Token) → IsFine 1 all (syntax_error R ctx ts)
  unfolding syntax_error
  syntax_error_of ctx ts all = tt

  match-IsFine : (kind : ℕ) (ctx : List ℕ) (ts : List Token) → IsFine 1 ts (match R kind ctx ts)
  unfolding match
  match-IsFine kind ctx [] = syntax_error-IsFine 1 ctx []
  match-IsFine kind ctx (t ∷ ts) =
      IsFine-test 1 (t ∷ ts) (t.kind == kind) _ _ (taken t ts) (syntax_error-IsFine 1 ctx (t ∷ ts))

  match_set-IsFine :
      (kinds : List ℕ) (ctx : List ℕ) (ts : List Token) → IsFine 1 ts (match_set R kinds ctx ts)
  unfolding match_set
  match_set-IsFine kinds ctx [] = syntax_error-IsFine 1 ctx []
  match_set-IsFine kinds ctx (t ∷ ts) =
      IsFine-test 1 (t ∷ ts) (contains kinds t.kind) _ _ (taken t ts)
        (syntax_error-IsFine 1 ctx (t ∷ ts))

  pub IsGood-match : {n : ℕ} (kind : ℕ) → IsGood n 1 (match R kind)
  IsGood-match {n} kind = record { is_fine = λ ctx ts l. match-IsFine kind ctx ts }

  pub IsGood-match_set : {n : ℕ} (kinds : List ℕ) → IsGood n 1 (match_set R kinds)
  IsGood-match_set {n} kinds = record { is_fine = λ ctx ts l. match_set-IsFine kinds ctx ts }

  pub IsGood-syntax_error : {n k : ℕ} → IsGood n k (syntax_error R)
  IsGood-syntax_error {n} {k} = record { is_fine = λ ctx ts l. syntax_error-IsFine k ctx ts }

  IsFine-repeat :
      (n : ℕ) (kinds : List ℕ) (p : Parser)
      → IsGood n 1 p
      → (fuel : ℕ) (ctx : List ℕ) (ts : List Token) → length ts < fuel
      → length ts < n
      → IsFine 0 ts (repeat R fuel kinds p ctx ts)
  unfolding repeat ◌>>◌
  IsFine-repeat n kinds p h zero ctx ts l m = absurd (omega (arith, l))
  IsFine-repeat n kinds p h (suc fuel) ctx ts l m =
      IsFine-test 0 ts (contains kinds (la ts)) _ _
        (weaken 1 0 ts _ (omega arith) (
          then-IsFine 1 0 ts (p ctx ts) (repeat R fuel kinds p ctx) (h.is_fine ctx ts m) (λ rest e.
            IsFine-repeat n kinds p h fuel ctx rest (omega (arith, l, e)) (omega (arith, m, e)))))
        (nothing-IsFine ts)

  pub IsGood-while_in :
      {n : ℕ} {p : Parser} (kinds : List ℕ) → IsGood n 1 p → IsGood n 0 (while_in R kinds p)
  IsGood-while_in {n} {p} kinds h = record {
    is_fine = λ ctx ts l. IsFine-repeat n kinds p h (suc (length ts)) ctx ts (omega arith) l;
  }

  IsFine-repeat_predicted :
      (n d : ℕ) (p : Parser)
      → IsGood n 1 p
      → (fuel : ℕ) (ctx : List ℕ) (ts : List Token) → length ts < fuel
      → length ts < n
      → IsFine 0 ts (repeat_predicted R fuel d p ctx ts)
  unfolding repeat_predicted ◌>>◌
  IsFine-repeat_predicted n d p h zero ctx ts l m = absurd (omega (arith, l))
  IsFine-repeat_predicted n d p h (suc fuel) ctx ts l m =
      IsFine-test 0 ts (R.predict d ctx 0 ts == 1) _ _
        (weaken 1 0 ts _ (omega arith) (
          then-IsFine 1 0 ts (p ctx ts) (repeat_predicted R fuel d p ctx) (h.is_fine ctx ts m)
            (λ rest e.
              IsFine-repeat_predicted n d p h fuel ctx rest (omega (arith, l, e))
                (omega (arith, m, e)))))
        (IsFine-test 0 ts (R.predict d ctx 0 ts == 2) _ _ (nothing-IsFine ts)
          (syntax_error-IsFine 0 ctx ts))

  pub IsGood-many_predicted :
      {n : ℕ} {p : Parser} (d : ℕ) → IsGood n 1 p → IsGood n 1 (many_predicted R d p)
  unfolding ◌>>◌
  IsGood-many_predicted {n} {p} d h = record {
    is_fine = λ ctx ts l.
        then-IsFine 1 0 ts (p ctx ts) (repeat_predicted R (suc (length ts)) d p ctx)
          (h.is_fine ctx ts l)
          (λ rest e.
            IsFine-repeat_predicted n d p h (suc (length ts)) ctx rest (omega (arith, e))
              (omega (arith, l, e)));
  }

  -- Alternatives that are good are good as a choice.
  abbrev pub AllGood : ℕ → ℕ → List Parser → Type 0
  AllGood n k [] = Unit {0}
  AllGood n k (p ∷ ps) = IsGood n k p × AllGood n k ps

  alternative-IsGood :
      (n k : ℕ) (ps : List Parser) (alt : ℕ) → AllGood n k ps → IsGood n k (alternative R ps alt)
  alternative-IsGood n k [] alt h = IsGood-syntax_error
  alternative-IsGood n k (p ∷ ps) zero h = IsGood-syntax_error
  alternative-IsGood n k (p ∷ ps) (suc zero) (hp, hs) = hp
  alternative-IsGood n k (p ∷ ps) (suc (suc alt)) (hp, hs) = alternative-IsGood n k ps (suc alt) hs

  pub IsGood-choose :
      {n k : ℕ} (d : ℕ) (ps : List Parser) → AllGood n k ps → IsGood n k (choose R d ps)
  unfolding choose
  IsGood-choose {n} {k} d ps h = record {
    is_fine = λ ctx ts l. (alternative-IsGood n k ps (R.predict d ctx 0 ts) h).is_fine ctx ts l;
  }
