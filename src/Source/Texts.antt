-- ===== src/Source/Texts.antt =====
-- What `OQASMCompiler::compile` makes of a text: the lexer, the parser and the listener together.
use xacc_ibm.Common.{
  ℕ, zero, suc, ◌+◌, ◌/◌, ◌%◌, ◌≡◌, refl, sym, ap, ◌∙◌, Bool, true, false, ◌&&◌, List, [], ◌∷◌,
  ◌++◌, map, ok, ◌>>=◌, All, arith, append-nil,
}
use xacc_ibm.Common.Text.{Text, text_eq, decimal, to_string}
use xacc_ibm.Ir.{Xacc}
use xacc_ibm.Listener.{Params, walk_tree}
use xacc_ibm.Parser.{Runtime, Token}
use xacc_ibm.Parser.Lookahead.{IsGrammatical}
use xacc_ibm.Parser.Written.{
  rbrace, Number, real, integer, number_token, name_token, int_token, statements_tokens,
  statement_tokens, operate, Some, Written, source_tokens, source_events,
}
use xacc_ibm.Parser.Written
use xacc_ibm.Lexer.{Reader, IsLongest, is_figure, tokens}
use xacc_ibm.Lexer.Lexemes.{split, all, is_name}
use xacc_ibm.Lexer.Figures.{is_integer}
use xacc_ibm.Lexer.Spaced.{spaced, tokens_of_line_end}
use xacc_ibm.Lexer.Words.{is_legible, are_legible, tokens-spaced}
use xacc_ibm.Source.{new_listener, compile, compile_tokens}
use xacc_ibm.Source.Reading.{compile_tokens-append}
use xacc_ibm.Source.Circuits.{
  Gate, turned, linked, measured, Fits, circuit, instructions, written, compile_tokens-circuit,
}

-- Printed numbers are figures.
integer-decimal :
    (fuel n : ℕ) (acc : Text) → all is_figure acc ≡ true → is_integer (decimal fuel n acc) ≡ true
unfolding decimal
integer-decimal zero n acc h = ground (arith, h)
integer-decimal (suc fuel) n acc h =
    let more : all is_figure ((48 + n % 10) ∷ acc) ≡ true = ground (arith, h) in
    ground (arith, h, integer-decimal fuel (n / 10) ((48 + n % 10) ∷ acc) more)

integer-to_string : (n : ℕ) → is_integer (to_string n) ≡ true
unfolding to_string
integer-to_string n = integer-decimal n n [] refl

are_legible-append :
    (ts us : List Token)
    → are_legible ts ≡ true
    → are_legible us ≡ true
    → are_legible (ts ++ us) ≡ true
are_legible-append [] us h k = k
are_legible-append (t ∷ ts) us h k =
    let (first, others) = split (is_legible t) (are_legible ts) h in
    rw first (are_legible-append ts us others k)

-- The angles of a gate are figures, with or without a point.
abbrev pub has_numbers : Gate → Bool
has_numbers (turned theta phi lambda q) =
    is_legible (number_token theta)
    && (is_legible (number_token phi) && is_legible (number_token lambda))
has_numbers (linked a b) = true
has_numbers (measured q c) = true

gate_legible :
    (g : Gate) → has_numbers g ≡ true → are_legible (statement_tokens (operate (written g))) ≡ true
unfolding text_eq
gate_legible (turned theta phi lambda q) h =
    let (a, h') = split (is_legible (number_token theta)) _ h in
    let (b, c) = split (is_legible (number_token phi)) _ h' in
    rw (a, b, c, integer-to_string q) refl
gate_legible (linked a b) h = rw (integer-to_string a, integer-to_string b) refl
gate_legible (measured q c) h = rw (integer-to_string q, integer-to_string c) refl

abbrev pub have_numbers : List Gate → Bool
have_numbers [] = true
have_numbers (g ∷ gs) = has_numbers g && have_numbers gs

gates_legible :
    (gs : List Gate)
    → have_numbers gs ≡ true
    → are_legible (statements_tokens (map (λ g. operate (written g)) gs)) ≡ true
gates_legible [] h = refl
gates_legible (g ∷ gs) h =
    let (first, others) = split (has_numbers g) (have_numbers gs) h in
    are_legible-append (statement_tokens (operate (written g)))
      (statements_tokens (map (λ g. operate (written g)) gs)) (gate_legible g first)
      (gates_legible gs others)

circuit_legible :
    (name buffer : Text) (gs : Some Gate)
    → is_name name ≡ true
    → is_name buffer ≡ true
    → have_numbers (Written.all gs) ≡ true
    → are_legible (source_tokens (circuit name buffer gs ∷ [])) ≡ true
unfolding text_eq
circuit_legible name buffer gs hn hb hg =
    rw (hn, hb)
      (are_legible-append
        (statements_tokens (map (λ g. operate (written g)) (Written.all gs)) ++ rbrace ∷ []) []
        (are_legible-append (statements_tokens (map (λ g. operate (written g)) (Written.all gs)))
          (rbrace ∷ []) (gates_legible (Written.all gs) hg) refl)
        refl)

module _ {P D : Type 0} (X : Xacc P) (E : Params P D) (A : Reader) (L : IsLongest A) where
  -- Where the lookahead is that of the grammar and the lexer takes the first rule with the longest
  -- match: a text of kernels that are written with a blank behind each of their tokens, these being
  -- literals, names (a small letter, and then letters, figures and underscores) that are no literal,
  -- figures, and figures with a point, compiles to what the callbacks of the statements make, in
  -- order, errors of the callbacks included.
  pub compile-spaced :
      (R : Runtime)
      → IsGrammatical R
      → (ws : List Written) → are_legible (source_tokens ws) ≡ true
      → compile X E R (tokens A) (spaced (source_tokens ws))
        ≡ (walk_tree X E (source_events ws) new_listener >>= λ l. ok l.kernels)
  unfolding compile tokens
  compile-spaced R G ws h =
      ap (λ s. compile_tokens X E R (tokens A s)) (sym (append-nil (spaced (source_tokens ws))))
      ∙ ap (compile_tokens X E R) (tokens-spaced A L (source_tokens ws) [] h)
      ∙ compile_tokens-append X E R G ws [] refl

  -- Where the lookahead is that of the grammar and the lexer takes the first rule with the longest
  -- match: when a line end of two characters, `\r\n`, stands behind a text of kernels that are
  -- written with a blank behind each of their tokens, these being literals, names (a small letter,
  -- and then letters, figures and underscores) that are no literal, figures, and figures with a
  -- point, what follows it, whatever it is, changes nothing in what is compiled, and makes no error.
  pub compile_behind_line_end :
      (R : Runtime)
      → IsGrammatical R
      → (ws : List Written) (s : Text) → are_legible (source_tokens ws) ≡ true
      → compile X E R (tokens A) (spaced (source_tokens ws) ++ b'\r' ∷ b'\n' ∷ s)
        ≡ compile X E R (tokens A) (spaced (source_tokens ws))
  unfolding compile
  compile_behind_line_end R G ws s h =
      ap (compile_tokens X E R) (tokens-spaced A L (source_tokens ws) (b'\r' ∷ b'\n' ∷ s) h)
      ∙ ap (λ ts. compile_tokens X E R (source_tokens ws ++ ts)) (tokens_of_line_end A L s)
      ∙ compile_tokens-append X E R G ws _ refl
      ∙ sym (compile-spaced R G ws h)

  -- Where the lookahead is that of the grammar and the lexer takes the first rule with the longest
  -- match: a kernel of rotations, CNOTs and measurements, one at least, that is written as a text
  -- with a blank behind each token, its indices in decimal and below 2^31, its angles figures with
  -- or without a point, and its own and its buffer's name a small letter followed by letters,
  -- figures and underscores and no literal of the grammar, compiles to the one kernel of that name
  -- with the instructions that the registry makes of the gates, in order, or to the first error of
  -- the registry.
  pub compile-circuit :
      (R : Runtime)
      → IsGrammatical R
      → (name buffer : Text) (gs : Some Gate) → is_name name ≡ true
      → is_name buffer ≡ true
      → have_numbers (Written.all gs) ≡ true
      → All Fits (Written.all gs)
      → compile X E R (tokens A) (spaced (source_tokens (circuit name buffer gs ∷ []))) ≡ (
          instructions X E (Written.all gs) >>= λ is.
          ok (record { name = name; parameters = []; analog = false; instructions = is } ∷ []))
  compile-circuit R G name buffer gs hn hb hg h =
      compile-spaced R G (circuit name buffer gs ∷ []) (circuit_legible name buffer gs hn hb hg)
      ∙ sym (compile_tokens-append X E R G (circuit name buffer gs ∷ []) [] refl)
      ∙ ap (compile_tokens X E R) (append-nil (source_tokens (circuit name buffer gs ∷ [])))
      ∙ compile_tokens-circuit X E R G name buffer gs h
