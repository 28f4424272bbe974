-- ===== src/Dns/Records.antt =====
-- src/dns.c: the records of a packet in memory, `struct dns_rrs`, linked by the offsets of their
-- heads: `_dns_rr_add_end`, `dns_get_rrs_start` and `dns_get_rrs_next`. `rrs` lists the heads that
-- were written, each with the offset `pos` at which it stands. The five pairs of a count and a start
-- that the `switch` picks from are a function of `dns_rr_type`.
pub mod Chain
pub mod Added
pub mod Read
mod Runs
use smartdns_ui.Prelude.{
  ℕ, zero, suc, ◌+◌, ◌*◌, ◌%◌, ◌^◌, Bool, List, [], ◌∷◌, ◌++◌, length, ltb, ◌==◌, if◌then◌else◌,
  Option, none, some, Outcome, ok, fail, stuck, ◌>>=◌, ◌>>◌, fail_if, or_fault,
}

-- the head of a `struct dns_rrs`
pub record Rrs : Type 0 where
  pub pos : ℕ
  pub next : ℕ
  pub len : ℕ
  pub rtype : ℕ

-- the count of a section and the offset of its first record
pub record Section : Type 0 where
  pub count : ℕ
  pub start : ℕ

-- `struct dns_packet`
pub record Packet : Type 0 where
  pub sections : ℕ → Section
  pub size : ℕ
  pub len : ℕ
  pub rrs : List Rrs

abbrev pub dns_rr_end : ℕ
dns_rr_end = 0xFFFF

-- `sizeof(struct dns_packet)` and `sizeof(struct dns_rrs)`, with pointers of 8 bytes
abbrev pub packet_head : ℕ
packet_head = 152

abbrev pub rrs_head : ℕ
rrs_head = 16

-- `DNS_RRS_OPT`, the last section
abbrev pub dns_rrs_opt : ℕ
dns_rrs_opt = 4

-- `dns_packet_init`, as far as the sections
abbrev pub packet_init : ℕ → Outcome Packet
packet_init size = do
  fail_if (ltb size packet_head)
  ok (record {
    sections = λ t. record { count = 0; start = dns_rr_end };
    size = size;
    len = 0;
    rrs = [];
  })

-- The record at an offset of `packet->data`.
unfoldable pub record_at : ℕ → List Rrs → Option Rrs
record_at p [] = none
record_at p (r ∷ rs) = if r.pos == p then some r else record_at p rs

-- `rrs_next->next = ...`
unfoldable pub set_next : ℕ → ℕ → List Rrs → List Rrs
set_next p v [] = []
set_next p v (r ∷ rs) = (if r.pos == p then record r { next = v } else r) ∷ set_next p v rs

-- `while (rrs_next->next != DNS_RR_END)`; a packet has no more records than heads.
unfoldable pub last_record : ℕ → List Rrs → ℕ → Outcome ℕ
last_record zero rrs p = stuck
last_record (suc fuel) rrs p = do
  r ← or_fault (record_at p rrs)
  let rest = last_record fuel rrs r.next
  if r.next == dns_rr_end then ok p else rest

-- The heads and the section, with the new record linked behind the last one.
unfoldable pub link_record : Packet → ℕ → Outcome (List Rrs × Section)
unfolding last_record set_next
link_record packet type =
    let s = packet.sections type in
    let pos = packet.len % 2 ^ 16 in
    let behind : Outcome (List Rrs × Section) = do
      last ← last_record (length packet.rrs) packet.rrs s.start
      ok (set_next last pos packet.rrs, s)
    in if s.start == dns_rr_end then ok (packet.rrs, record s { start = pos }) else behind

-- `_dns_rr_add_end`
unfoldable pub rr_add_end : Packet → ℕ → ℕ → ℕ → Outcome Packet
unfolding link_record
rr_add_end packet type rtype len = do
  fail_if (ltb packet.size (packet.len + len + packet_head + rrs_head))
  fail_if (ltb dns_rrs_opt type)
  r ← link_record packet type
  ok (record packet {
    sections = λ t.
        if t == type then record r.1 { count = (r.1.count + 1) % 2 ^ 16 } else packet.sections t;
    len = packet.len + len + rrs_head;
    rrs =
        r.0
        ++ record { pos = packet.len; next = dns_rr_end; len = len % 2 ^ 16; rtype = rtype } ∷ [];
  })

-- `dns_get_rrs_start`: the count and the first record, if there is one
unfoldable pub get_rrs_start : Packet → ℕ → ℕ × Option ℕ
get_rrs_start packet type =
    let s = packet.sections type in
    if ltb dns_rrs_opt type
    then (0, none)
    else (s.count, if s.start == dns_rr_end then none else some s.start)

-- `dns_get_rrs_next` of the record at an offset
unfoldable pub get_rrs_next : Packet → ℕ → Outcome (Option ℕ)
unfolding record_at
get_rrs_next packet p = do
  r ← or_fault (record_at p packet.rrs)
  ok (if r.next == dns_rr_end then none else some r.next)

-- `for (rrs = dns_get_rrs_start(...); rrs; rrs = dns_get_rrs_next(packet, rrs))`, the loop by which
-- a section is read: the offsets of the records that it meets.
unfoldable pub records_from : ℕ → Packet → Option ℕ → Outcome (List ℕ)
unfolding get_rrs_next
records_from fuel packet none = ok []
records_from zero packet (some p) = stuck
records_from (suc fuel) packet (some p) = do
  next ← get_rrs_next packet p
  ps ← records_from fuel packet next
  ok (p ∷ ps)
