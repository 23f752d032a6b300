-- ===== src/Parser/Kinds.antt =====
-- The token types of compiler/generated/OQASM2Parser.h.
use xacc_ibm.Common.{ℕ}

-- `__qpu__`
abbrev pub t_0 : ℕ
t_0 = 1

-- `(`
abbrev pub t_1 : ℕ
t_1 = 2

-- `AcceleratorBuffer`
abbrev pub t_2 : ℕ
t_2 = 3

-- `,`
abbrev pub t_3 : ℕ
t_3 = 4

-- `)`
abbrev pub t_4 : ℕ
t_4 = 5

-- `{`
abbrev pub t_5 : ℕ
t_5 = 6

-- `}`
abbrev pub t_6 : ℕ
t_6 = 7

-- `int`
abbrev pub t_7 : ℕ
t_7 = 8

-- `double`
abbrev pub t_8 : ℕ
t_8 = 9

-- `float`
abbrev pub t_9 : ℕ
t_9 = 10

-- `;`
abbrev pub t_10 : ℕ
t_10 = 11

-- `include`
abbrev pub t_11 : ℕ
t_11 = 12

-- `[`
abbrev pub t_12 : ℕ
t_12 = 13

-- `]`
abbrev pub t_13 : ℕ
t_13 = 14

-- `U`
abbrev pub t_14 : ℕ
t_14 = 15

-- `CX`
abbrev pub t_15 : ℕ
t_15 = 16

-- `if`
abbrev pub t_16 : ℕ
t_16 = 17

-- `==`
abbrev pub t_17 : ℕ
t_17 = 18

-- `pi`
abbrev pub t_18 : ℕ
t_18 = 19

-- `+`
abbrev pub t_19 : ℕ
t_19 = 20

-- `-`
abbrev pub t_20 : ℕ
t_20 = 21

-- `*`
abbrev pub t_21 : ℕ
t_21 = 22

-- `/`
abbrev pub t_22 : ℕ
t_22 = 23

-- `^`
abbrev pub t_23 : ℕ
t_23 = 24

-- `sin`
abbrev pub t_24 : ℕ
t_24 = 25

-- `cos`
abbrev pub t_25 : ℕ
t_25 = 26

-- `tan`
abbrev pub t_26 : ℕ
t_26 = 27

-- `exp`
abbrev pub t_27 : ℕ
t_27 = 28

-- `ln`
abbrev pub t_28 : ℕ
t_28 = 29

-- `sqrt`
abbrev pub t_29 : ℕ
t_29 = 30

-- `->`
abbrev pub t_30 : ℕ
t_30 = 31

abbrev pub token_comment : ℕ
token_comment = 32

abbrev pub token_qreg : ℕ
token_qreg = 33

abbrev pub token_creg : ℕ
token_creg = 34

abbrev pub token_gate : ℕ
token_gate = 35

abbrev pub token_measure : ℕ
token_measure = 36

abbrev pub token_reset : ℕ
token_reset = 37

abbrev pub token_barrier : ℕ
token_barrier = 38

abbrev pub token_openqasm : ℕ
token_openqasm = 39

abbrev pub token_opaque : ℕ
token_opaque = 40

abbrev pub token_id : ℕ
token_id = 41

abbrev pub token_real : ℕ
token_real = 42

abbrev pub token_int : ℕ
token_int = 43

abbrev pub token_string : ℕ
token_string = 44
