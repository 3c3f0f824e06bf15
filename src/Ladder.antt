-- ===== src/Ladder.antt =====
-- tools/modulus_set_search.py: the offline search for modulus ladders. `Moduli` has the tests on
-- one list of moduli, `Prefixes` the products of its prefixes and the CRT constants, `Search` the
-- candidates and their report. The other children prove what these compute.
pub mod Moduli
pub mod Prefixes
pub mod Search
pub mod Primality
pub mod Coprime
pub mod Residues
pub mod Crt
pub mod Ranges
pub mod Review
pub mod Generated
pub mod Reported
mod Examples
