-- ===== src/Base/Milli.antt =====
-- The comparisons of the thousandths that stand for doubles in tests.
use native.Mathlib.Omega.{arith}
use potfit.Base.Double.{milli_double}
use potfit.Base.Order.{IsTransitive, IsTotal}

pub milli_transitive : IsTransitive milli_double
milli_transitive = record { le_trans = λ a b c h k. ground arith; le_of_lt = λ a b h. ground arith }

pub milli_total : IsTotal milli_double
milli_total = record { le_of_not-le = λ a b h. ground arith; le_of_not-lt = λ a b h. ground arith }
