-- ===== src/Lexer/Lexemes.antt =====
-- Texts that the lexer reads as one token before a blank.
use xacc_ibm.Common.{
  ℕ, suc, ◌≤◌, ◌<◌, ◌≡◌, refl, Bool, true, false, ◌&&◌, [], ◌∷◌, ◌++◌, ◌==◌, length, All,
  All-append, arith, drop,
}
use xacc_ibm.Common.Text.{Text, starts_with}
use xacc_ibm.Parser.{Token}
use xacc_ibm.Parser.Kinds.{token_comment, token_id, token_real, token_int, token_string}
use xacc_ibm.Parser.Written.{name_token}
use xacc_ibm.Lexer.{
  Rule, literal_rules, next, run, comment, identifier, real, integer, quoted, blank, end_of_line,
  symbols, keywords, token_ws, token_eol, is_lower, is_id_character,
}
use xacc_ibm.Lexer.Longest.{rule_taken, literals-lt, none_is}

abbrev pub IsLexeme : Token → Type 0
IsLexeme t = (r : Text) → next (t.text ++ b' ' ∷ r) ≡ (t.kind, length t.text)

abbrev pub all : (ℕ → Bool) → Text → Bool
all p [] = true
all p (c ∷ s) = p c && all p s

-- A run stops at a character that is not in the set.
pub run-all :
    (p : ℕ → Bool) (s : Text) (d : ℕ) (r : Text)
    → p d ≡ false
    → all p s ≡ true
    → run p (s ++ d ∷ r) ≡ length s
unfolding run
run-all p [] d r b h = rw b refl
run-all p (c ∷ s) d r b h = ground (arith, b, h, run-all p s d r b)

pub drop-length : (s r : Text) → drop (length s) (s ++ r) ≡ r
drop-length [] r = refl
drop-length (c ∷ s) r = drop-length s r

-- A name: a small letter and characters of identifiers, and none of the literals.
abbrev pub is_name : Text → Bool
is_name [] = false
is_name (c ∷ s) =
    is_lower c && (all is_id_character s && (none_is (c ∷ s) symbols && none_is (c ∷ s) keywords))

-- What the rules behind the literals make of a name.
last_of_name :
    (c : ℕ) (s r : Text) (n : ℕ)
    → is_lower c ≡ true
    → 0 < n
    → All
        (λ (q : Rule). q.1 (c ∷ (s ++ b' ' ∷ r)) ≤ n)
        ((token_real, real)
          ∷ (token_int, integer)
          ∷ (token_string, quoted)
          ∷ (token_ws, blank)
          ∷ (token_eol, end_of_line)
          ∷ [])
unfolding real integer quoted run
last_of_name c s r n h l = (
  ground (arith, h),
  (ground (arith, h), (ground (arith, h), (ground (arith, h), (ground (arith, h), tt)))),
)

identifier_lem :
    (c : ℕ) (s r : Text)
    → is_lower c ≡ true
    → all is_id_character s ≡ true
    → identifier (c ∷ (s ++ b' ' ∷ r)) ≡ suc (length s)
unfolding identifier
identifier_lem c s r hc hs = rw (hc, run-all is_id_character s b' ' r refl hs) refl

pub split : (a b : Bool) → (a && b) ≡ true → (a ≡ true) × (b ≡ true)
split true b h = (refl, h)
split false b h = absurd (cc h)

pub no_comment : (c : ℕ) (s : Text) (n : ℕ) → (c == b'/') ≡ false → 0 < n → comment (c ∷ s) < n
unfolding comment starts_with
no_comment c s n h l = rw h l

pub name-IsLexeme : (s : Text) → is_name s ≡ true → IsLexeme (name_token s)
unfolding next
name-IsLexeme [] h r = absurd (cc h)
name-IsLexeme (c ∷ s) h r =
    let text = c ∷ (s ++ b' ' ∷ r) in
    let n = suc (length s) in
    let (hc, h') = split (is_lower c) _ h in
    let (hs, h'') = split (all is_id_character s) _ h' in
    let (no_symbol, no_keyword) = split (none_is (c ∷ s) symbols) _ h'' in
    rule_taken token_id identifier
      (literal_rules symbols ++ (token_comment, comment) ∷ literal_rules keywords)
      ((token_real, real)
        ∷ (token_int, integer)
        ∷ (token_string, quoted)
        ∷ (token_ws, blank)
        ∷ (token_eol, end_of_line)
        ∷ [])
      text n (identifier_lem c s r hc hs) (omega arith)
      (All-append (λ (q : Rule). q.1 text < n) (literal_rules symbols)
        ((token_comment, comment) ∷ literal_rules keywords)
        (literals-lt symbols (c ∷ s) r (omega arith) refl no_symbol)
        (
          no_comment c (s ++ b' ' ∷ r) n (ground (arith, hc)) (omega arith),
          literals-lt keywords (c ∷ s) r (omega arith) refl no_keyword,
        ))
      (last_of_name c s r n hc (omega arith))
