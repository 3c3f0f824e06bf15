-- ===== src/Python.antt =====
-- What the tools use of Python's standard library: `math.gcd`, `pow(a, -1, m)` and
-- `int.bit_length`, each with the laws that its documentation states.
pub mod Gcd
pub mod Inverse
pub mod BitLength
pub mod Decimal
