-- ===== src/Source.antt =====
-- `OQASMCompiler::compile` (compiler/OQASMCompiler.cpp): the kernels of a source. The lexer is the
-- argument `tokens`: see Lexer.
pub mod Reading
pub mod Conditions
pub mod Universal
pub mod Circuits
pub mod Texts
use xacc_ibm.Common.{List, [], ◌∷◌, Result, ok, err, undefined, ◌>>=◌, false}
use xacc_ibm.Common.Text.{Text}
use xacc_ibm.Ir.{Kernel, Xacc}
use xacc_ibm.Listener.{Listener, Params}
use xacc_ibm.Parser.{Token, Tree, Runtime}
use xacc_ibm.Parser.Program.{xaccsrc}
use xacc_ibm.Parser.Walk.{walk}

-- The listener's constructor; no kernel is current before the first.
abbrev pub new_listener : {P : Type 0} → Listener P
new_listener = record {
  functions = [];
  current = record { name = []; parameters = []; analog = false; instructions = [] };
  kernels = [];
}

module _ {P D : Type 0} (X : Xacc P) (E : Params P D) (R : Runtime) where
  abbrev pub walk_root : List Tree → Result (Listener P)
  walk_root [] = err undefined
  walk_root (t ∷ ts) = walk X E t new_listener

  unfoldable pub compile_tokens : List Token → Result (List (Kernel P))
  compile_tokens ts = do (root, rest) ← xaccsrc R [] ts; l ← walk_root root; ok l.kernels

  -- `compile(src)`
  unfoldable pub compile : (Text → List Token) → Text → Result (List (Kernel P))
  unfolding compile_tokens
  compile tokens src = compile_tokens (tokens src)
