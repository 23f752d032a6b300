-- ===== src/Lexer.antt =====
-- The lexer that ANTLR generates for OpenQasm (compiler/generated/OQASM2Lexer.cpp). Its rules are the
-- serialised automaton `_serializedATN`, which the ANTLR runtime reads. The runtime is the
-- parameter `Reader`: at each place it takes the rule with the longest match, and of those with the same the first
-- one (`IsLongest`). Where no rule matches, it reports that on the console, as `compile` removes the
-- listeners of the parser alone, and goes on behind some characters.
pub mod Longest
pub mod Lexemes
pub mod Figures
pub mod Spaced
pub mod Words
use xacc_ibm.Common.{
  ℕ, zero, suc, ◌+◌, ◌-◌, ◌≡◌, Bool, true, false, not, ◌&&◌, ◌||◌, List, [], ◌∷◌, ◌++◌, map, String,
  ◌==◌, leb, ltb, if◌then◌else◌, length, take, drop,
}
use xacc_ibm.Common.Text.{Text, codes, starts_with}
use xacc_ibm.Parser.{Token}
use xacc_ibm.Parser.Kinds.{
  t_0, t_1, t_2, t_3, t_4, t_5, t_6, t_7, t_8, t_9, t_10, t_11, t_12, t_13, t_14, t_15, t_16, t_17,
  t_18, t_19, t_20, t_21, t_22, t_23, t_24, t_25, t_26, t_27, t_28, t_29, t_30, token_comment,
  token_qreg, token_creg, token_gate, token_measure, token_reset, token_barrier, token_openqasm,
  token_opaque, token_id, token_real, token_int, token_string,
}

abbrev pub token_ws : ℕ
token_ws = 45

abbrev pub token_eol : ℕ
token_eol = 46

-- The sets of the automaton.
abbrev pub is_line_end : ℕ → Bool
is_line_end c = c == b'\n' || c == b'\r'

abbrev pub is_lower : ℕ → Bool
is_lower c = leb b'a' c && leb c b'z'

abbrev pub is_figure : ℕ → Bool
is_figure c = leb b'0' c && leb c b'9'

abbrev pub is_id_character : ℕ → Bool
is_id_character c = is_figure c || leb b'A' c && leb c b'Z' || c == b'_' || is_lower c

abbrev pub is_blank : ℕ → Bool
is_blank c = c == b'\t' || c == b'\n' || c == b'\r' || c == b' '

-- A rule gives the length of its longest match at the front of a text, and 0 where it has none.
abbrev pub Matcher : Type 0
Matcher = Text → ℕ

unfoldable pub literal : Text → Matcher
literal l s = if starts_with s l then length l else 0

-- The characters of a set at the front.
unfoldable pub run : (ℕ → Bool) → Matcher
run p [] = 0
run p (c ∷ s) = let n = run p s in if p c then suc n else 0

abbrev pub head_is : ℕ → Text → Bool
head_is c [] = false
head_is c (d ∷ s) = d == c

-- `'\r'? '\n'`
abbrev pub end_of_line : Matcher
end_of_line [] = 0
end_of_line (c ∷ s) = if c == b'\n' then 1 else if c == b'\r' && head_is b'\n' s then 2 else 0

-- `'//' ~[\r\n]* EOL`
unfoldable pub comment : Matcher
unfolding run
comment s =
    let n = 2 + run (λ c. not (is_line_end c)) (drop 2 s) in
    let e = end_of_line (drop n s) in if starts_with s (codes "//") && ltb 0 e then n + e else 0

-- `[a-z][A-Za-z0-9_]*`
unfoldable pub identifier : Matcher
unfolding run
identifier [] = 0
identifier (c ∷ s) = if is_lower c then suc (run is_id_character s) else 0

-- `('0'..'9')+`
unfoldable pub integer : Matcher
unfolding run
integer s = run is_figure s

-- `INT ('.' (INT)?)`
unfoldable pub real : Matcher
unfolding run
real s =
    let n = run is_figure s in
    if head_is b'.' (drop n s) && ltb 0 n then n + 1 + run is_figure (drop 1 (drop n s)) else 0

-- `'"' ~["]* '"'`
unfoldable pub quoted : Matcher
unfolding run
quoted [] = 0
quoted (c ∷ s) =
    let n = run (λ d. not (d == 34)) s in if c == 34 && head_is 34 (drop n s) then n + 2 else 0

-- `[ \t\r\n] -> skip`
abbrev pub blank : Matcher
blank [] = 0
blank (c ∷ s) = if is_blank c then 1 else 0

abbrev pub Literal : Type 0
Literal = ℕ × Text

-- The literals before the rule of comments, and those behind it.
abbrev pub symbols : List Literal
symbols =
    (t_0, codes "__qpu__")
    ∷ (t_1, codes "(")
    ∷ (t_2, codes "AcceleratorBuffer")
    ∷ (t_3, codes ",")
    ∷ (t_4, codes ")")
    ∷ (t_5, codes "{")
    ∷ (t_6, codes "}")
    ∷ (t_7, codes "int")
    ∷ (t_8, codes "double")
    ∷ (t_9, codes "float")
    ∷ (t_10, codes ";")
    ∷ (t_11, codes "include")
    ∷ (t_12, codes "[")
    ∷ (t_13, codes "]")
    ∷ (t_14, codes "U")
    ∷ (t_15, codes "CX")
    ∷ (t_16, codes "if")
    ∷ (t_17, codes "==")
    ∷ (t_18, codes "pi")
    ∷ (t_19, codes "+")
    ∷ (t_20, codes "-")
    ∷ (t_21, codes "*")
    ∷ (t_22, codes "/")
    ∷ (t_23, codes "^")
    ∷ (t_24, codes "sin")
    ∷ (t_25, codes "cos")
    ∷ (t_26, codes "tan")
    ∷ (t_27, codes "exp")
    ∷ (t_28, codes "ln")
    ∷ (t_29, codes "sqrt")
    ∷ (t_30, codes "->")
    ∷ []

abbrev pub keywords : List Literal
keywords =
    (token_qreg, codes "qreg")
    ∷ (token_creg, codes "creg")
    ∷ (token_gate, codes "gate")
    ∷ (token_measure, codes "measure")
    ∷ (token_reset, codes "reset")
    ∷ (token_barrier, codes "barrier")
    ∷ (token_openqasm, codes "OpenQASM")
    ∷ (token_openqasm, codes "OPENQASM")
    ∷ (token_opaque, codes "opaque")
    ∷ []

abbrev pub Rule : Type 0
Rule = ℕ × Matcher

abbrev pub literal_rules : List Literal → List Rule
literal_rules [] = []
literal_rules ((k, l) ∷ ls) = (k, literal l) ∷ literal_rules ls

-- The rules behind the literals.
abbrev pub last_rules : List Rule
last_rules =
    (token_id, identifier)
    ∷ (token_real, real)
    ∷ (token_int, integer)
    ∷ (token_string, quoted)
    ∷ (token_ws, blank)
    ∷ (token_eol, end_of_line)
    ∷ []

abbrev pub rules : List Rule
rules = literal_rules symbols ++ (token_comment, comment) ∷ (literal_rules keywords ++ last_rules)

-- The first rule with the longest match, where the one before has `n` characters.
unfoldable pub longest : ℕ → ℕ → List Rule → Text → ℕ × ℕ
longest k n [] s = (k, n)
longest k n ((k', m) ∷ rs) s = if ltb n (m s) then longest k' (m s) rs s else longest k n rs s

-- The first rule with the longest match at the front of a text, and its length.
unfoldable pub next : Text → ℕ × ℕ
next s = longest 0 0 rules s

-- The ANTLR runtime: the rule that it takes at a place, with the length of its match, which is 0 where no
-- rule matches, and how many more characters than one it passes over there.
pub record Reader : Type 0 where
  pub choose : Text → ℕ × ℕ
  pub recover : Text → ℕ

-- What the documentation of ANTLR says of the choice.
abbrev pub IsLongest : Reader → Type 0
IsLongest A = (s : Text) → A.choose s ≡ next s

module _ (A : Reader) where
  -- The tokens behind the first `skipped` characters. White space makes no token.
  unfoldable pub tokens_behind : ℕ → Text → List Token
  tokens_behind skipped [] = []
  tokens_behind (suc skipped) (c ∷ s) = tokens_behind skipped s
  tokens_behind zero (c ∷ s) =
      let (k, n) = A.choose (c ∷ s) in
      let rest = tokens_behind (if n == 0 then A.recover (c ∷ s) else n - 1) s in
      if n == 0 || k == token_ws then rest else record { kind = k; text = take n (c ∷ s) } ∷ rest

  -- The tokens of a source.
  unfoldable pub tokens : Text → List Token
  unfolding tokens_behind
  tokens s = tokens_behind 0 s
