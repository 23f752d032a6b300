-- ===== src/Tests/Texts.antt =====
-- Tests and examples of the lexer, and of what is compiled from a text.
use xacc_ibm.Common.{ℕ, ◌^◌, ◌<◌, ◌≡◌, refl, List, [], ◌∷◌, ◌++◌, ok, ◌>>=◌, false, arith}
use xacc_ibm.Common.Text.{Text, codes, starts_with}
use xacc_ibm.Common
use xacc_ibm.Listener.{walk_tree}
use xacc_ibm.Parser.Kinds.{t_7, t_17, t_20, t_30, token_qreg, token_comment}
use xacc_ibm.Parser.Written.{
  fixed, name_token, int_token, real_token, all, source_tokens, source_events, lbracket, rbracket,
  semicolon,
}
use xacc_ibm.Lexer
use xacc_ibm.Lexer.{Reader, IsLongest, next, tokens, token_eol}
use xacc_ibm.Lexer.Spaced.{spaced}
use xacc_ibm.Lexer.Words.{tokens-spaced}
use xacc_ibm.Source.{new_listener, compile}
use xacc_ibm.Source.Circuits.{circuit, instructions}
use xacc_ibm.Source.Texts.{compile-spaced, compile_behind_line_end, compile-circuit}
use xacc_ibm.Tests.Framework.{xacc}
use xacc_ibm.Tests.Lookahead.{runtime, runtime-IsGrammatical}
use xacc_ibm.Tests.Printing.{params}
use xacc_ibm.Tests.Sources.{bell, gates}

-- A runtime that goes on behind one character.
abbrev reader : Reader
reader = record { choose = next; recover = λ s. 0 }

reader-IsLongest : IsLongest reader
reader-IsLongest s = refl

-- Without blanks, with a character that no rule matches, and with the names of literals in others.
plain_text :
    tokens reader (codes "qreg q[2];$int x1 integer 2.5-1 ->==3.")
    ≡ fixed token_qreg "qreg"
      ∷ name_token (codes "q")
      ∷ lbracket
      ∷ int_token (codes "2")
      ∷ rbracket
      ∷ semicolon
      ∷ fixed t_7 "int"
      ∷ name_token (codes "x1")
      ∷ name_token (codes "integer")
      ∷ real_token (codes "2.5")
      ∷ fixed t_20 "-"
      ∷ int_token (codes "1")
      ∷ fixed t_30 "->"
      ∷ fixed t_17 "=="
      ∷ real_token (codes "3.")
      ∷ []
unfolding tokens Lexer.next Lexer.longest Lexer.literal Lexer.run Lexer.comment Lexer.identifier
    Lexer.integer Lexer.real Lexer.quoted starts_with
plain_text = refl

-- A comment is a token, with its line end; a comment without one is two divisions and names.
commented : tokens reader (codes "//a\n;") ≡ fixed token_comment "//a\n" ∷ semicolon ∷ []
unfolding tokens Lexer.next Lexer.longest Lexer.literal Lexer.run Lexer.comment Lexer.identifier
    Lexer.integer Lexer.real Lexer.quoted starts_with
commented = refl

-- Line ends of one character are skipped; those of two are tokens.
line_ends :
    tokens reader (codes "a\nb\r\nc\r")
    ≡ name_token (codes "a")
      ∷ name_token (codes "b")
      ∷ fixed token_eol "\r\n"
      ∷ name_token (codes "c")
      ∷ []
unfolding tokens Lexer.next Lexer.longest Lexer.literal Lexer.run Lexer.comment Lexer.identifier
    Lexer.integer Lexer.real Lexer.quoted starts_with
line_ends = refl

-- The longest match has the name, and a capital begins none.
names :
    tokens reader (codes "u3 Ub")
    ≡ name_token (codes "u3") ∷ fixed 15 "U" ∷ name_token (codes "b") ∷ []
unfolding tokens Lexer.next Lexer.longest Lexer.literal Lexer.run Lexer.comment Lexer.identifier
    Lexer.integer Lexer.real Lexer.quoted starts_with
names = refl

tokens-spaced_example :
    tokens reader (spaced (source_tokens (bell ∷ [])) ++ codes "// end")
    ≡ source_tokens (bell ∷ []) ++ tokens reader (codes "// end")
unfolding Common.Text.text_eq
tokens-spaced_example =
    tokens-spaced reader reader-IsLongest (source_tokens (bell ∷ [])) (codes "// end") refl

compile-spaced_example :
    compile xacc params runtime (tokens reader) (spaced (source_tokens (bell ∷ [])))
    ≡ (walk_tree xacc params (source_events (bell ∷ [])) new_listener >>= λ l. ok l.kernels)
unfolding Common.Text.text_eq
compile-spaced_example =
    compile-spaced xacc params reader reader-IsLongest runtime runtime-IsGrammatical (bell ∷ [])
      refl

compile_behind_line_end_example :
    compile xacc params runtime
      (tokens reader)
      (spaced (source_tokens (bell ∷ [])) ++ b'\r' ∷ b'\n' ∷ codes "__qpu__ k(")
    ≡ compile xacc params runtime (tokens reader) (spaced (source_tokens (bell ∷ [])))
unfolding Common.Text.text_eq
compile_behind_line_end_example =
    compile_behind_line_end xacc params reader reader-IsLongest runtime runtime-IsGrammatical
      (bell ∷ []) (codes "__qpu__ k(") refl

compile-circuit_example :
    compile xacc params runtime
      (tokens reader)
      (spaced (source_tokens (circuit (codes "k") (codes "b") gates ∷ [])))
    ≡ (instructions xacc params (all gates) >>= λ is.
        ok (record { name = codes "k"; parameters = []; analog = false; instructions = is } ∷ []))
unfolding Common.Text.text_eq
compile-circuit_example =
    compile-circuit xacc params reader reader-IsLongest runtime runtime-IsGrammatical (codes "k")
      (codes "b") gates refl refl refl
      (omega arith, ((omega arith, omega arith), ((omega arith, omega arith), tt)))
