-- ===== src/Common/Keys.antt =====
-- The keys of the program's maps: numbers and texts.
use Prim.Native.Nat.{ℕ}
use xacc_ibm.Common.Tests.{◌==◌, ==_iff}
use xacc_ibm.Common.Text.{Text, text_eq, text_eq_iff}
use xacc_ibm.Common.Dict.{Key}

instance abbrev pub nat_key : Key ℕ
nat_key = record { beq = ◌==◌; beq_iff = ==_iff }

instance abbrev pub text_key : Key Text
text_key = record { beq = text_eq; beq_iff = text_eq_iff }
