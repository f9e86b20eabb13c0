-- ===== src/Index.antt =====
-- core/infra/index-memory/src/lib.rs: the hot index of the files, in memory. The records are packed
-- into numbers, and their paths are interned in two pools of strings.
pub mod Packing
pub mod Interner
pub mod Memory
