-- ===== src/Hash.antt =====
-- C/hash: the open-addressing table (Simple) and the cuckoo table (Cuckoo).
pub mod Cuckoo
pub mod Simple
