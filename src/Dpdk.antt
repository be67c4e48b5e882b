-- ===== src/Dpdk.antt =====
-- C/dpdk: the parts that do not belong to DPDK's own samples or to copies of parsers.
pub mod Int2str
pub mod Ids
