-- ===== src/Rollup.antt =====
-- The conversion of the rollup config that the Rust code writes into what Go reads:
-- proposer/op/proposer/utils/utils.go.
pub mod Text
pub mod Convert
pub mod Numbers
pub mod Words
pub mod Leaves
pub mod Roundtrip
