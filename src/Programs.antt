-- ===== src/Programs.antt =====
-- The C sources of the simulator's complex tests, cs4400/simulator/tests/complex.
pub mod Factorial
pub mod Log2
pub mod Sort
