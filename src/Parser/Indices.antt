-- ===== src/Parser/Indices.antt =====
-- The rule indices of compiler/generated/OQASM2Parser.h.
use xacc_ibm.Common.{ℕ}

abbrev pub rule_xaccsrc : ℕ
rule_xaccsrc = 0

abbrev pub rule_xacckernel : ℕ
rule_xacckernel = 1

abbrev pub rule_typedparam : ℕ
rule_typedparam = 2

abbrev pub rule_type : ℕ
rule_type = 3

abbrev pub rule_kernelcall : ℕ
rule_kernelcall = 4

abbrev pub rule_mainprog : ℕ
rule_mainprog = 5

abbrev pub rule_program : ℕ
rule_program = 6

abbrev pub rule_line : ℕ
rule_line = 7

abbrev pub rule_statement : ℕ
rule_statement = 8

abbrev pub rule_comment : ℕ
rule_comment = 9

abbrev pub rule_include : ℕ
rule_include = 10

abbrev pub rule_filename : ℕ
rule_filename = 11

abbrev pub rule_regdecl : ℕ
rule_regdecl = 12

abbrev pub rule_qregister : ℕ
rule_qregister = 13

abbrev pub rule_cregister : ℕ
rule_cregister = 14

abbrev pub rule_registersize : ℕ
rule_registersize = 15

abbrev pub rule_gatedecl : ℕ
rule_gatedecl = 16

abbrev pub rule_gatename : ℕ
rule_gatename = 17

abbrev pub rule_gatearglist : ℕ
rule_gatearglist = 18

abbrev pub rule_gatearg : ℕ
rule_gatearg = 19

abbrev pub rule_gatebody : ℕ
rule_gatebody = 20

abbrev pub rule_gateprog : ℕ
rule_gateprog = 21

abbrev pub rule_gateline : ℕ
rule_gateline = 22

abbrev pub rule_paramlist : ℕ
rule_paramlist = 23

abbrev pub rule_param : ℕ
rule_param = 24

abbrev pub rule_opaque : ℕ
rule_opaque = 25

abbrev pub rule_opaquename : ℕ
rule_opaquename = 26

abbrev pub rule_opaquearglist : ℕ
rule_opaquearglist = 27

abbrev pub rule_opaquearg : ℕ
rule_opaquearg = 28

abbrev pub rule_qop : ℕ
rule_qop = 29

abbrev pub rule_uop : ℕ
rule_uop = 30

abbrev pub rule_conditional : ℕ
rule_conditional = 31

abbrev pub rule_action : ℕ
rule_action = 32

abbrev pub rule_explist : ℕ
rule_explist = 33

abbrev pub rule_exp : ℕ
rule_exp = 34

abbrev pub rule_unaryop : ℕ
rule_unaryop = 35

abbrev pub rule_qreg : ℕ
rule_qreg = 36

abbrev pub rule_creg : ℕ
rule_creg = 37

abbrev pub rule_gate : ℕ
rule_gate = 38

abbrev pub rule_measure : ℕ
rule_measure = 39

abbrev pub rule_reeset : ℕ
rule_reeset = 40

abbrev pub rule_barrier : ℕ
rule_barrier = 41

abbrev pub rule_id : ℕ
rule_id = 42

abbrev pub rule_real : ℕ
rule_real = 43

abbrev pub rule_string : ℕ
rule_string = 44

-- The classes of the labelled alternatives of `uop`: `UContext`, `CXContext`, `UserDefGateContext`.
abbrev pub rule_u : ℕ
rule_u = 45

abbrev pub rule_cx : ℕ
rule_cx = 46

abbrev pub rule_user_def_gate : ℕ
rule_user_def_gate = 47
