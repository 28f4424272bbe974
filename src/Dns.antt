-- ===== src/Dns.antt =====
-- src/dns.c: the packet codec. `Wire` reads and writes words, `Domain` reads names,
-- `Encode` writes them, `Head` is the head of a packet, and `Records` are its records in memory.
pub mod Wire
pub mod Domain
pub mod Encode
pub mod Head
pub mod Question
pub mod Records
mod Runs
