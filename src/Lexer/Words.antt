-- ===== src/Lexer/Words.antt =====
-- Which tokens the lexer reads again when they are written with a blank behind each.
use xacc_ibm.Common.{
  ℕ, ◌<◌, ◌≡◌, refl, Bool, true, false, not, ◌&&◌, ◌||◌, Bool-cases, inl, inr, ◌⊎◌, List, [], ◌∷◌,
  ◌++◌, ◌==◌, length, All, arith,
}
use xacc_ibm.Common.Text.{Text, starts_with, text_eq, text_eq_iff}
use xacc_ibm.Parser.{Token}
use xacc_ibm.Parser.Kinds.{token_id, token_real, token_int}
use xacc_ibm.Lexer.{
  Reader, IsLongest, Literal, longest, next, literal, run, comment, identifier, real, integer,
  quoted, symbols, keywords, token_ws, tokens,
}
use xacc_ibm.Lexer.Lexemes.{IsLexeme, is_name, name-IsLexeme, split}
use xacc_ibm.Lexer.Figures.{is_integer, is_decimal, integer-IsLexeme, real-IsLexeme, point_found}
use xacc_ibm.Lexer.Longest.{both}
use xacc_ibm.Lexer.Spaced.{IsWhole, spaced, tokens-append}

-- A literal with its kind.
abbrev pub is_one_of : List Literal → Token → Bool
is_one_of [] t = false
is_one_of ((k, l) ∷ ls) t = t.kind == k && text_eq t.text l || is_one_of ls t

-- A name, figures, figures with a point, or a literal.
abbrev pub is_legible : Token → Bool
is_legible t =
    t.kind == token_id && is_name t.text
    || (t.kind == token_int && is_integer t.text
        || (t.kind == token_real && is_decimal t.text
            || (is_one_of symbols t || is_one_of keywords t)))

abbrev pub are_legible : List Token → Bool
are_legible [] = true
are_legible (t ∷ ts) = is_legible t && are_legible ts

abbrev ReadsLiteral : Literal → Type 0
ReadsLiteral q = (r : Text) → next (q.1 ++ b' ' ∷ r) ≡ (q.0, length q.1)

reads_symbols : All ReadsLiteral symbols
unfolding next longest literal starts_with comment identifier real integer quoted run
reads_symbols = (
  λ r. refl,
  (
    λ r. refl,
    (
      λ r. refl,
      (
        λ r. refl,
        (
          λ r. refl,
          (
            λ r. refl,
            (
              λ r. refl,
              (
                λ r. refl,
                (
                  λ r. refl,
                  (
                    λ r. refl,
                    (
                      λ r. refl,
                      (
                        λ r. refl,
                        (
                          λ r. refl,
                          (
                            λ r. refl,
                            (
                              λ r. refl,
                              (
                                λ r. refl,
                                (
                                  λ r. refl,
                                  (
                                    λ r. refl,
                                    (
                                      λ r. refl,
                                      (
                                        λ r. refl,
                                        (
                                          λ r. refl,
                                          (
                                            λ r. refl,
                                            (
                                              λ r. refl,
                                              (
                                                λ r. refl,
                                                (
                                                  λ r. refl,
                                                  (
                                                    λ r. refl,
                                                    (
                                                      λ r. refl,
                                                      (
                                                        λ r. refl,
                                                        (λ r. refl, (λ r. refl, (λ r. refl, tt))),
                                                      ),
                                                    ),
                                                  ),
                                                ),
                                              ),
                                            ),
                                          ),
                                        ),
                                      ),
                                    ),
                                  ),
                                ),
                              ),
                            ),
                          ),
                        ),
                      ),
                    ),
                  ),
                ),
              ),
            ),
          ),
        ),
      ),
    ),
  ),
)

reads_keywords : All ReadsLiteral keywords
unfolding next longest literal starts_with comment identifier real integer quoted run
reads_keywords = (
  λ r. refl,
  (
    λ r. refl,
    (λ r. refl, (λ r. refl, (λ r. refl, (λ r. refl, (λ r. refl, (λ r. refl, (λ r. refl, tt))))))),
  ),
)

-- The literals are not empty, and not white space.
abbrev sound : List Literal → Bool
sound [] = true
sound ((k, l) ∷ ls) = not (length l == 0) && (not (k == token_ws) && sound ls)

literal-IsWhole :
    (k : ℕ) (l : Text) (t : Token)
    → ReadsLiteral (k, l)
    → (length l == 0) ≡ false
    → (k == token_ws) ≡ false
    → t.kind ≡ k
    → t.text ≡ l
    → IsWhole t
literal-IsWhole k l t reads n w ek el = record {
  lexeme = λ r. rw (ek, el) (reads r);
  not_empty = ground (arith, n, el);
  not_blank = rw ek w;
}

one_of-IsWhole :
    (ls : List Literal) (t : Token)
    → All ReadsLiteral ls
    → sound ls ≡ true
    → is_one_of ls t ≡ true
    → IsWhole t
one_of-IsWhole [] t reads s h = absurd (cc h)
one_of-IsWhole ((k, l) ∷ ls) t (reads, others) s h =
    let (n, s') = both (length l == 0) _ s in
    let (w, s'') = both (k == token_ws) _ s' in
    elim (Bool-cases (t.kind == k && text_eq t.text l)) [
      | inl here ↦
          let (ek, el) = split (t.kind == k) _ here in
          literal-IsWhole k l t reads n w (ground (arith, ek)) ((text_eq_iff t.text l).0 el)
      | inr there ↦ one_of-IsWhole ls t others s'' (rw there at h)
    ]

of_kind : (t : Token) (k : ℕ) → (t.kind == k) ≡ true → t.kind ≡ k
of_kind t k h = ground (arith, h)

not_empty_of : (p : Text → Bool) (s : Text) → p [] ≡ false → p s ≡ true → 0 < length s
not_empty_of p [] e h = absurd (cc (e, h))
not_empty_of p (c ∷ s) e h = omega arith

-- Tokens of a kind whose texts a test tells.
kind-IsWhole :
    (p : Text → Bool) (k : ℕ)
    → p [] ≡ false
    → (k == token_ws) ≡ false
    → ((s : Text) → p s ≡ true → IsLexeme (record { kind = k; text = s }))
    → (t : Token) → (t.kind == k && p t.text) ≡ true
    → IsWhole t
kind-IsWhole p k e w lexeme t h =
    let (hk, ht) = split (t.kind == k) _ h in
    let same = of_kind t k hk in
    record {
      lexeme = rw same (lexeme t.text ht);
      not_empty = not_empty_of p t.text e ht;
      not_blank = rw same w;
    }

either : (a b : Bool) → (a || b) ≡ true → (a ≡ true) ⊎ (b ≡ true)
either true b h = inl refl
either false b h = inr h

legible-IsWhole : (t : Token) → is_legible t ≡ true → IsWhole t
legible-IsWhole t h = elim (either _ _ h) [
  | inl name ↦ kind-IsWhole is_name token_id refl refl name-IsLexeme t name
  | inr h' ↦ elim (either _ _ h') [
    | inl figures ↦ kind-IsWhole is_integer token_int refl refl integer-IsLexeme t figures
    | inr h'' ↦ elim (either _ _ h'') [
      | inl decimal ↦
          kind-IsWhole is_decimal token_real refl refl (λ s d. real-IsLexeme s (point_found s d)) t
            decimal
      | inr h''' ↦ elim (either _ _ h''') [
        | inl symbol ↦ one_of-IsWhole symbols t reads_symbols refl symbol
        | inr keyword ↦ one_of-IsWhole keywords t reads_keywords refl keyword
      ]
    ]
  ]
]

tokens_legible : (ts : List Token) → are_legible ts ≡ true → All IsWhole ts
tokens_legible [] h = tt
tokens_legible (t ∷ ts) h =
    let (first, others) = split (is_legible t) (are_legible ts) h in
    (legible-IsWhole t first, tokens_legible ts others)

-- Where the lexer takes the first rule with the longest match: literals of their own kind, names (a
-- small letter, and then letters, figures and underscores) that are no literal, figures, and figures
-- with a point, each written with a blank behind it, are read again as those tokens, with the tokens
-- of any text that follows behind them.
pub tokens-spaced :
    (A : Reader)
    → IsLongest A
    → (ts : List Token) (r : Text) → are_legible ts ≡ true
    → tokens A (spaced ts ++ r) ≡ ts ++ tokens A r
tokens-spaced A L ts r h = tokens-append A L ts r (tokens_legible ts h)
