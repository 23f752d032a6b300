-- ===== src/Lexer/Spaced.antt =====
-- Tokens that are written with a blank behind each, and what the lexer reads of them.
use xacc_ibm.Common.{
  ℕ, suc, ◌-◌, ◌<◌, ◌≡◌, refl, ap, ◌∙◌, false, List, [], ◌∷◌, ◌++◌, ◌==◌, length, All, arith, take,
  append_assoc,
}
use xacc_ibm.Common.Text.{Text, starts_with}
use xacc_ibm.Parser.{Token}
use xacc_ibm.Lexer.{
  Reader, IsLongest, longest, next, literal, run, comment, identifier, real, integer, quoted,
  token_ws, token_eol, tokens_behind, tokens,
}
use xacc_ibm.Lexer.Lexemes.{IsLexeme}

abbrev pub spaced : List Token → Text
spaced [] = []
spaced (t ∷ ts) = t.text ++ b' ' ∷ spaced ts

-- A text that is not empty, is no white space, and is one token before a blank.
pub record IsWhole (t : Token) : Type 0 where
  pub lexeme : IsLexeme t
  pub not_empty : 0 < length t.text
  pub not_blank : (t.kind == token_ws) ≡ false

next_of_blank : (r : Text) → next (b' ' ∷ r) ≡ (token_ws, 1)
unfolding next longest literal starts_with comment identifier real integer quoted run
next_of_blank r = refl

next_of_line_end : (r : Text) → next (b'\r' ∷ b'\n' ∷ r) ≡ (token_eol, 2)
unfolding next longest literal starts_with comment identifier real integer quoted run
next_of_line_end r = refl

take-length : (s r : Text) → take (length s) (s ++ r) ≡ s
take-length [] r = refl
take-length (c ∷ s) r = rw (take-length s r)

module _ (A : Reader) (L : IsLongest A) where
  tokens_behind-length : (s r : Text) → tokens_behind A (length s) (s ++ r) ≡ tokens_behind A 0 r
  unfolding tokens_behind
  tokens_behind-length [] r = refl
  tokens_behind-length (c ∷ s) r = tokens_behind-length s r

  behind_blank : (r : Text) → tokens_behind A 0 (b' ' ∷ r) ≡ tokens_behind A 0 r
  unfolding tokens_behind
  behind_blank r = rw (L (b' ' ∷ r), next_of_blank r) refl

  -- The step at a place where tokens begin.
  tokens_step :
      (k n c : ℕ) (s : Text)
      → next (c ∷ s) ≡ (k, suc n)
      → (k == token_ws) ≡ false
      → tokens_behind A 0 (c ∷ s) ≡ record { kind = k; text = c ∷ take n s } ∷ tokens_behind A n s
  unfolding tokens_behind
  tokens_step k n c s e w =
      let positive : (suc n == 0) ≡ false = ground arith in
      let before : suc n - 1 ≡ n = omega arith in rw (L (c ∷ s), e, w, positive, before) refl

  token_first :
      (k : ℕ) (s r : Text)
      → next (s ++ b' ' ∷ r) ≡ (k, length s)
      → 0 < length s
      → (k == token_ws) ≡ false
      → tokens_behind A 0 (s ++ b' ' ∷ r) ≡ record { kind = k; text = s } ∷ tokens_behind A 0 r
  token_first k [] r e l w = absurd (omega (arith, l))
  token_first k (c ∷ s) r e l w =
      tokens_step k (length s) c (s ++ b' ' ∷ r) e w
      ∙ ap (λ u. record { kind = k; text = c ∷ u } ∷ tokens_behind A (length s) (s ++ b' ' ∷ r))
          (take-length s (b' ' ∷ r))
      ∙ ap (λ us. record { kind = k; text = c ∷ s } ∷ us)
          (tokens_behind-length s (b' ' ∷ r) ∙ behind_blank r)

  -- Tokens that are each one token before a blank are read again when a blank stands behind each, and
  -- then the tokens of what follows.
  pub tokens-append :
      (ts : List Token) (r : Text) → All IsWhole ts → tokens A (spaced ts ++ r) ≡ ts ++ tokens A r
  unfolding tokens tokens_behind
  tokens-append [] r h = refl
  tokens-append (t ∷ ts) r (w, h) =
      ap (tokens_behind A 0) (append_assoc t.text (b' ' ∷ spaced ts) r)
      ∙ token_first t.kind t.text (spaced ts ++ r) (w.lexeme (spaced ts ++ r)) w.not_empty
          w.not_blank
      ∙ ap (λ us. t ∷ us) (tokens-append ts r h)

  -- A line end of two characters is a token where tokens begin: its match is the longest.
  pub tokens_of_line_end :
      (s : Text)
      → tokens A (b'\r' ∷ b'\n' ∷ s)
        ≡ record { kind = token_eol; text = b'\r' ∷ b'\n' ∷ [] } ∷ tokens A s
  unfolding tokens tokens_behind
  tokens_of_line_end s = rw (L (b'\r' ∷ b'\n' ∷ s), next_of_line_end s) refl
