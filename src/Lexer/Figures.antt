-- ===== src/Lexer/Figures.antt =====
-- Numbers that the lexer reads as one token before a blank.
use xacc_ibm.Common.{
  ℕ, suc, ◌+◌, ◌≤◌, ◌<◌, ◌≡◌, refl, ap, ◌∙◌, Bool, true, false, Bool-cases, inl, inr, if◌then◌else◌,
  not, ◌&&◌, List, [], ◌∷◌, ◌++◌, ◌==◌, length, All, All-append, append_assoc, length-append, arith,
}
use xacc_ibm.Common.Text.{Text, starts_with}
use xacc_ibm.Parser.Kinds.{token_comment, token_id, token_real, token_int, token_string}
use xacc_ibm.Parser.Written.{int_token, real_token}
use xacc_ibm.Lexer.{
  Rule, Literal, literal, literal_rules, next, comment, identifier, real, integer, quoted, blank,
  end_of_line, symbols, keywords, token_ws, token_eol, is_figure,
}
use xacc_ibm.Lexer.Longest.{rule_taken, both}
use xacc_ibm.Lexer.Lexemes.{IsLexeme, all, run-all, drop-length, no_comment, split}

-- Literals that do not begin with a figure do not match figures.
abbrev begins_with_figure : Text → Bool
begins_with_figure [] = true
begins_with_figure (d ∷ l) = is_figure d

abbrev figure_free : List Literal → Bool
figure_free [] = true
figure_free ((k, l) ∷ ls) = not (begins_with_figure l) && figure_free ls

literal_of_figure :
    (l : Text) (c : ℕ) (s : Text)
    → begins_with_figure l ≡ false
    → is_figure c ≡ true
    → starts_with (c ∷ s) l ≡ false
unfolding starts_with
literal_of_figure [] c s h e = absurd (cc h)
literal_of_figure (d ∷ l) c s h e = ground (arith, h, e)

literals_of_figure :
    (ls : List Literal) (c : ℕ) (s : Text) (n : ℕ)
    → figure_free ls ≡ true
    → is_figure c ≡ true
    → 0 < n
    → All (λ (q : Rule). q.1 (c ∷ s) < n) (literal_rules ls)
unfolding literal
literals_of_figure [] c s n h e l = tt
literals_of_figure ((k, t) ∷ ls) c s n h e l =
    let (free, others) = both (begins_with_figure t) (figure_free ls) h in
    (rw (literal_of_figure t c s free e) l, literals_of_figure ls c s n others e l)

identifier_of_figure :
    (c : ℕ) (s : Text) (n : ℕ) → is_figure c ≡ true → 0 < n → identifier (c ∷ s) < n
unfolding identifier
identifier_of_figure c s n h l = ground (arith, h, l)

-- The rules before that of real numbers.
abbrev before_real : List Rule
before_real =
    literal_rules symbols
    ++ (token_comment, comment) ∷ (literal_rules keywords ++ (token_id, identifier) ∷ [])

before_figure :
    (c : ℕ) (s : Text) (n : ℕ)
    → is_figure c ≡ true
    → 0 < n
    → All (λ (q : Rule). q.1 (c ∷ s) < n) before_real
before_figure c s n h l =
    All-append (λ (q : Rule). q.1 (c ∷ s) < n) (literal_rules symbols)
      ((token_comment, comment) ∷ (literal_rules keywords ++ (token_id, identifier) ∷ []))
      (literals_of_figure symbols c s n refl h l)
      (
        no_comment c s n (ground (arith, h)) l,
        All-append (λ (q : Rule). q.1 (c ∷ s) < n) (literal_rules keywords)
            ((token_id, identifier) ∷ []) (literals_of_figure keywords c s n refl h l)
            (identifier_of_figure c s n h l, tt),
      )

last_of_figure :
    (c : ℕ) (s : Text) (n : ℕ)
    → is_figure c ≡ true
    → 0 < n
    → All
        (λ (q : Rule). q.1 (c ∷ s) ≤ n)
        ((token_string, quoted) ∷ (token_ws, blank) ∷ (token_eol, end_of_line) ∷ [])
unfolding quoted
last_of_figure c s n h l = (ground (arith, h), (ground (arith, h), (ground (arith, h), tt)))

-- Figures, one at least.
abbrev pub is_integer : Text → Bool
is_integer [] = false
is_integer (c ∷ s) = is_figure c && all is_figure s

integer_lem : (s r : Text) → is_integer s ≡ true → integer (s ++ b' ' ∷ r) ≡ length s
unfolding integer
integer_lem [] r h = absurd (cc h)
integer_lem (c ∷ s) r h = run-all is_figure (c ∷ s) b' ' r refl h

real_of_integer : (s r : Text) (n : ℕ) → is_integer s ≡ true → 0 < n → real (s ++ b' ' ∷ r) < n
unfolding real
real_of_integer [] r n h l = absurd (cc h)
real_of_integer (c ∷ s) r n h l =
    rw (run-all is_figure (c ∷ s) b' ' r refl h, drop-length s (b' ' ∷ r)) l

pub integer-IsLexeme : (s : Text) → is_integer s ≡ true → IsLexeme (int_token s)
unfolding next
integer-IsLexeme [] h r = absurd (cc h)
integer-IsLexeme (c ∷ s) h r =
    let (hc, hs) = split (is_figure c) _ h in
    let text = c ∷ (s ++ b' ' ∷ r) in
    let n = suc (length s) in
    rule_taken token_int integer (before_real ++ (token_real, real) ∷ [])
      ((token_string, quoted) ∷ (token_ws, blank) ∷ (token_eol, end_of_line) ∷ []) text n
      (integer_lem (c ∷ s) r h) (omega arith)
      (All-append (λ (q : Rule). q.1 text < n) before_real ((token_real, real) ∷ [])
        (before_figure c (s ++ b' ' ∷ r) n hc (omega arith))
        (real_of_integer (c ∷ s) r n h (omega arith), tt))
      (last_of_figure c (s ++ b' ' ∷ r) n hc (omega arith))

-- Figures, one at least, a point, and figures.
pub record IsDecimal (s : Text) : Type 0 where
  pub whole : Text
  pub fraction : Text
  pub splits : s ≡ whole ++ b'.' ∷ fraction
  pub whole_is : is_integer whole ≡ true
  pub fraction_is : all is_figure fraction ≡ true

real_lem :
    (a b r : Text)
    → is_integer a ≡ true
    → all is_figure b ≡ true
    → real (a ++ b'.' ∷ (b ++ b' ' ∷ r)) ≡ length a + 1 + length b
unfolding real
real_lem [] b r ha hb = absurd (cc ha)
real_lem (c ∷ a) b r ha hb =
    rw
      (
        run-all is_figure (c ∷ a) b'.' (b ++ b' ' ∷ r) refl ha,
        drop-length a (b'.' ∷ (b ++ b' ' ∷ r)),
        run-all is_figure b b' ' r refl hb,
      )
      (ground arith)

integer_of_real :
    (a b r : Text)
    → is_integer a ≡ true
    → integer (a ++ b'.' ∷ (b ++ b' ' ∷ r)) ≤ length a + 1 + length b
unfolding integer
integer_of_real [] b r h = absurd (cc h)
integer_of_real (c ∷ a) b r h =
    rw (run-all is_figure (c ∷ a) b'.' (b ++ b' ' ∷ r) refl h) (omega arith)

decimal_lem :
    (a b r : Text)
    → is_integer a ≡ true
    → all is_figure b ≡ true
    → next (a ++ b'.' ∷ (b ++ b' ' ∷ r)) ≡ (token_real, length a + 1 + length b)
unfolding next
decimal_lem [] b r ha hb = absurd (cc ha)
decimal_lem (c ∷ a) b r ha hb =
    let (hc, hs) = split (is_figure c) _ ha in
    let text = c ∷ (a ++ b'.' ∷ (b ++ b' ' ∷ r)) in
    let n = suc (length a) + 1 + length b in
    rule_taken token_real real before_real
      ((token_int, integer)
        ∷ (token_string, quoted)
        ∷ (token_ws, blank)
        ∷ (token_eol, end_of_line)
        ∷ [])
      text n (real_lem (c ∷ a) b r ha hb) (omega arith)
      (before_figure c (a ++ b'.' ∷ (b ++ b' ' ∷ r)) n hc (omega arith))
      (
        integer_of_real (c ∷ a) b r ha,
        last_of_figure c (a ++ b'.' ∷ (b ++ b' ' ∷ r)) n hc (omega arith),
      )

pub real-IsLexeme : (s : Text) → IsDecimal s → IsLexeme (real_token s)
real-IsLexeme s d r =
    rw
      (
        d.splits,
        append_assoc d.whole (b'.' ∷ d.fraction) (b' ' ∷ r),
        length-append d.whole (b'.' ∷ d.fraction),
      )
      (decimal_lem d.whole d.fraction r d.whole_is d.fraction_is
        ∙ ap (λ n. (token_real, n)) (omega arith))

-- Figures up to a point, and figures behind it.
abbrev figures_and_point : Text → Bool
figures_and_point [] = false
figures_and_point (c ∷ s) =
    let more = figures_and_point s in if c == b'.' then all is_figure s else is_figure c && more

abbrev pub is_decimal : Text → Bool
is_decimal [] = false
is_decimal (c ∷ s) = is_figure c && figures_and_point s

-- The part before the point, and that behind it.
record Parts (s : Text) : Type 0 where
  whole : Text
  fraction : Text
  splits : s ≡ whole ++ b'.' ∷ fraction
  whole_is : all is_figure whole ≡ true
  fraction_is : all is_figure fraction ≡ true

parts : (s : Text) → figures_and_point s ≡ true → Parts s
parts [] h = absurd (cc h)
parts (c ∷ s) h = elim (Bool-cases (c == b'.')) [
  | inl t ↦ record {
    whole = [];
    fraction = s;
    splits = ap (λ d. d ∷ s) (ground (arith, t));
    whole_is = refl;
    fraction_is = rw t at h;
  }
  | inr f ↦
      let (hc, hs) = split (is_figure c) (figures_and_point s) (rw f at h) in
      let p = parts s hs in
      record {
        whole = c ∷ p.whole;
        fraction = p.fraction;
        splits = ap (λ u. c ∷ u) p.splits;
        whole_is = cc (p.whole_is);
        fraction_is = p.fraction_is;
      }
]

pub point_found : (s : Text) → is_decimal s ≡ true → IsDecimal s
point_found [] h = absurd (cc h)
point_found (c ∷ s) h =
    let (hc, hs) = split (is_figure c) (figures_and_point s) h in
    let p = parts s hs in
    record {
      whole = c ∷ p.whole;
      fraction = p.fraction;
      splits = ap (λ u. c ∷ u) p.splits;
      whole_is = cc (p.whole_is);
      fraction_is = p.fraction_is;
    }
