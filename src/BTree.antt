-- ===== src/BTree.antt =====
-- The ordered collections of Rust's standard library, as far as the program uses them: `BTreeSet`
-- as the list of its elements, `BTreeMap` as the list of its entries, both in ascending order.
pub mod Sets
pub mod Maps
