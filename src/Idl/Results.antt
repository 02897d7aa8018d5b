-- ===== src/Idl/Results.antt =====
-- Where `Driver::opexec` is undefined (nodebus/core/idlparser/driver.cpp).
use jsonbus.Prelude.{ℕ, ◌==◌, ◌≡◌, true, false, ◌||◌, undefined, arith}
use jsonbus.Variant.{Variant}
use jsonbus.Idl.{NodeRoot}
use jsonbus.Idl.Exec.{
  Arithmetic, quotient, remainder, integer_op, opexec, divide, modulo, is_number, is_string,
  is_double,
}

-- Dividing integers by zero, or taking the remainder, is not guarded: the behaviour is undefined.
pub opexec_zero :
    (ar : Arithmetic) (op : ℕ) (a b : Variant) (root : NodeRoot)
    → (op == divide) || (op == modulo) ≡ true
    → is_number ar a ≡ true
    → is_number ar b ≡ true
    → is_string a || is_string b ≡ false
    → is_double a || is_double b ≡ false
    → ar.to_long_long b ≡ 0
    → opexec ar op a b root ≡ undefined
unfolding opexec integer_op quotient remainder
opexec_zero ar op a b root h na nb s d z = ground arith
