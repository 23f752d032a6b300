-- ===== src/Lexer/Longest.antt =====
-- Which rule of the lexer is taken, and how long the literals match.
use xacc_ibm.Common.{
  ℕ, ◌≤◌, ◌<◌, ◌≡◌, refl, sym, Bool, true, false, not, ◌&&◌, Bool-cases, inl, inr, List, [], ◌∷◌,
  ◌++◌, ltb, length, contains, All, arith,
}
use xacc_ibm.Common.Text.{Text, starts_with, text_eq}
use xacc_ibm.Lexer.{Matcher, Literal, Rule, literal, literal_rules, longest}

-- Rules without a longer match are passed over.
pub longest-le :
    (k n : ℕ) (rs : List Rule) (s : Text) → All (λ r. r.1 s ≤ n) rs → longest k n rs s ≡ (k, n)
unfolding longest
longest-le k n [] s h = refl
longest-le k n ((k', m) ∷ rs) s (l, hs) = ground (arith, l, longest-le k n rs s hs)

-- A rule whose match is longer than those before it, and not shorter than those behind it, is taken.
pub longest-taken :
    (k n k' : ℕ) (m : Matcher) (before behind : List Rule) (s : Text)
    → n < m s
    → All (λ r. r.1 s < m s) before
    → All (λ r. r.1 s ≤ m s) behind
    → longest k n (before ++ (k', m) ∷ behind) s ≡ (k', m s)
unfolding longest
longest-taken k n k' m [] behind s l hb ha = ground (arith, l, longest-le k' (m s) behind s ha)
longest-taken k n k' m ((i, r) ∷ before) behind s l (h, hb) ha = elim (Bool-cases (ltb n (r s))) [
  | inl t ↦ rw t (longest-taken i (r s) k' m before behind s h hb ha)
  | inr f ↦ rw f (longest-taken k n k' m before behind s l hb ha)
]

-- A literal without a blank that stands at the front of a text before a blank is in the text.
pub starts_with-length :
    (l s r : Text)
    → contains l b' ' ≡ false
    → starts_with (s ++ b' ' ∷ r) l ≡ true
    → length l ≤ length s
unfolding starts_with
starts_with-length [] s r c h = omega arith
starts_with-length (d ∷ l) [] r c h = ground (arith, c, h)
starts_with-length (d ∷ l) (e ∷ s) r c h = ground (arith, c, h, starts_with-length l s r)

pub starts_with-text_eq :
    (l s r : Text) → length l ≡ length s → starts_with (s ++ b' ' ∷ r) l ≡ true → text_eq l s ≡ true
unfolding starts_with text_eq
starts_with-text_eq [] [] r e h = refl
starts_with-text_eq [] (c ∷ s) r e h = absurd (omega (arith, e))
starts_with-text_eq (d ∷ l) [] r e h = absurd (omega (arith, e))
starts_with-text_eq (d ∷ l) (c ∷ s) r e h =
    ground (arith, h, starts_with-text_eq l s r (omega (arith, e)))

-- The literals have no blank, and none of them is the text.
abbrev pub blank_free : List Literal → Bool
blank_free [] = true
blank_free ((k, l) ∷ ls) = not (contains l b' ') && blank_free ls

abbrev pub none_is : Text → List Literal → Bool
none_is s [] = true
none_is s ((k, l) ∷ ls) = not (text_eq l s) && none_is s ls

literal-lt :
    (l s r : Text)
    → 0 < length s
    → contains l b' ' ≡ false
    → text_eq l s ≡ false
    → literal l (s ++ b' ' ∷ r) < length s
unfolding literal
literal-lt l s r p c e = elim (Bool-cases (starts_with (s ++ b' ' ∷ r) l)) [
  | inl t ↦
      let other : ¬ (length l ≡ length s) = λ q. absurd (cc (e, starts_with-text_eq l s r q t)) in
      rw t (omega (arith, other, starts_with-length l s r c t))
  | inr f ↦ rw f p
]

pub both : (a b : Bool) → (not a && b) ≡ true → (a ≡ false) × (b ≡ true)
both true b h = absurd (cc h)
both false b h = (refl, h)

-- Before a blank, literals that are not the text match less of it.
pub literals-lt :
    (ls : List Literal) (s r : Text)
    → 0 < length s
    → blank_free ls ≡ true
    → none_is s ls ≡ true
    → All (λ q. q.1 (s ++ b' ' ∷ r) < length s) (literal_rules ls)
literals-lt [] s r p c e = tt
literals-lt ((k, l) ∷ ls) s r p c e =
    let (c', cs) = both (contains l b' ') (blank_free ls) c in
    let (e', es) = both (text_eq l s) (none_is s ls) e in
    (literal-lt l s r p c' e', literals-lt ls s r p cs es)

pub lt-le : (n : ℕ) (s : Text) (rs : List Rule) → All (λ r. r.1 s < n) rs → All (λ r. r.1 s ≤ n) rs
lt-le n s [] h = tt
lt-le n s ((k, m) ∷ rs) (l, hs) = (omega (arith, l), lt-le n s rs hs)

pub rule_taken :
    (k' : ℕ) (m : Matcher) (before behind : List Rule) (s : Text) (n : ℕ)
    → m s ≡ n
    → 0 < n
    → All (λ (r : Rule). r.1 s < n) before
    → All (λ (r : Rule). r.1 s ≤ n) behind
    → longest 0 0 (before ++ (k', m) ∷ behind) s ≡ (k', n)
rule_taken k' m before behind s n e l hb ha =
    let same : n ≡ m s = sym e in
    rw same (longest-taken 0 0 k' m before behind s (rw same at l) (rw same at hb) (rw same at ha))
