-- ===== src/Cry.antt =====
-- src/crypter/src/cry.rs, the crate of cryptographic helpers: random texts, encrypted files, signatures.
pub mod Wallet
pub mod Random
pub mod Wannacry
pub mod WannacryLaws
pub mod Eddsa
pub mod EddsaLaws
pub mod Evm
