-- ===== src/Lib.antt =====
-- The XACC plugins for IBM's quantum computers: an accelerator that posts kernels to the remote
-- service, one that runs them on a simulator, a transformation that fits kernels to a device, and a
-- compiler for OpenQasm.
--
-- How the parts interact. The compiler (compiler/OQASMCompiler.cpp) parses OpenQasm source
-- (compiler/generated/OQASM2Parser.cpp) and walks the tree with a listener that makes the kernels
-- (compiler/OQASMToXACCListener.cpp). A transformation (accelerator/IBMIRTransformation.cpp) reverses
-- the CNOTs that a device does not couple. `IBMAccelerator::processInput` prints every kernel with a visitor
-- (utils/OpenQasmVisitor.hpp, utils/OpenPulseVisitor.hpp), keeps its measured qubits and its name, and
-- returns the text to post; the base class posts it; `processResponse` waits for the job and turns the
-- counts of its result into buffers, using the measured qubits and the names that were kept.
-- `LocalIBMAccelerator::execute` does the same with a simulator that is linked in.
--
-- The files:
--   Common         shared names, Boolean tests, lists, texts, dictionaries, results, methods as functions
--                  from the state of an object
--   Ir             gates, conditional functions, kernels, the pulses of other plugins, and the interface
--                  of XACC
--   Transform      accelerator/IBMIRTransformation.cpp and .hpp
--   Outcome        the bit strings of counts, in accelerator/IBMAccelerator.cpp (`processResponse`) and
--                  accelerator/LocalIBMAccelerator.cpp (`execute`)
--   Qasm           utils/OpenQasmVisitor.hpp: `Visitor` has the members, `visit_hadamard` and its like
--                  are the overloads of `visit`
--   Pulse          utils/OpenPulseVisitor.hpp
--   Compiler       `OQASMCompiler::translate`, compiler/OQASMCompiler.cpp
--   Listener       compiler/OQASMToXACCListener.cpp: a callback is an event
--   Parser         the rule functions of compiler/generated/OQASM2Parser.cpp, by their names; `syntax_error`
--                  is `syntaxError` of compiler/OQASMErrorListener.hpp; Walk has the walk over the tree
--   Lexer          the rules of compiler/generated/OQASM2Lexer.cpp, and the tokens of a text
--   Source         `OQASMCompiler::compile`, compiler/OQASMCompiler.cpp
--   Json           JSON documents as the parsers give them
--   Accelerator    the members of `IBMAccelerator` and its lookups, accelerator/IBMAccelerator.cpp and .hpp
--   Nodes          the loop over the nodes of a kernel, in both accelerators
--   Request        `IBMAccelerator::processInput`
--   Response       `IBMAccelerator::processResponse`
--   Job            `processInput` and `processResponse` together, as the base class of XACC calls them
--   Config         `IBMAccelerator::searchAPIKey` and `findApiKeyInFile`
--   Backends       the documents that `IBMAccelerator::initialize` reads of a backend
--   Initialize     `IBMAccelerator::initialize` and `handleOptions`
--   Local          accelerator/LocalIBMAccelerator.cpp and .hpp
--   Tests          a framework that is lawful, the theorems at concrete inputs, and tests
--
-- State and errors. A method is a function from the state of its object to a result with the new state
-- (`Exec`). `xacc::error` does not return; it is `error` with its message. What C++ leaves undefined
-- is `undefined`, an exception that nothing catches is `thrown`, and a call of the service that is
-- never answered is `waiting`.
--
-- Bounds and fuel. Qubits, sizes and counts are natural numbers; `int` does not overflow on a buffer of
-- at most 30 qubits. The loops that poll the service run on the number of answers that are still to
-- come plus one: each round takes an answer, and without one the round waits. `to_string` runs on the
-- number that it prints, and divides it by ten in each round. The loops and the recursive rules of the
-- parser run on the number of tokens that are left and one, and take a token in each round; `out_of_fuel`
-- is the error of a round beyond.
--
-- Not modelled: XACC itself, which is the interface `Xacc` with the laws `IsLawful`; the parsers, the
-- simulator, exprtk and doubles, pulses, files, the environment and options, which are parameters; the
-- ANTLR runtime, whose prediction is a parameter with the hypotheses `IsGrammatical`, and whose choice among the rules of
-- the lexer is one with the hypothesis `IsLongest`; the empty callbacks of the generated listeners,
-- the plugin activators, the log and the console of the accelerators but for the lines of
-- `handleOptions`, and the headers of the login.
pub mod Common
pub mod Ir
pub mod Transform
pub mod Outcome
pub mod Qasm
pub mod Compiler
pub mod Json
pub mod Accelerator
pub mod Response
pub mod Job
pub mod Pulse
pub mod Request
pub mod Nodes
pub mod Listener
pub mod Parser
pub mod Lexer
pub mod Source
pub mod Config
pub mod Backends
pub mod Initialize
pub mod Local
pub mod Tests
