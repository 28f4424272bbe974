-- ===== src/Dns/Records/Runs.antt =====
-- Concrete packets with records, and the theorems on them at concrete inputs.
use smartdns_ui.Prelude.{
  ℕ, ◌+◌, ◌≡◌, refl, arith, List, [], ◌∷◌, ok, fail, ◌>>=◌, ◌==◌, if◌then◌else◌, Bool-cases, inl,
  inr,
}
use smartdns_ui.Dns.Records.{
  Packet, dns_rr_end, packet_init, record_at, set_next, last_record, link_record, rr_add_end,
  get_rrs_start, get_rrs_next, records_from,
}
use smartdns_ui.Dns.Records.Added.{IsLinked, with_record, rr_add_end-IsLinked}
use smartdns_ui.Dns.Records.Read.{records_from-IsLinked}

abbrev empty_packet : Packet
empty_packet = record {
  sections = λ t. record { count = 0; start = dns_rr_end };
  size = 1000;
  len = 0;
  rrs = [];
}

init_1000 : packet_init 1000 ≡ ok empty_packet
init_1000 = refl

-- A question of 20 bytes, and two answers of 30.
three_records :
    (do
      p ← rr_add_end empty_packet 0 1 20
      q ← rr_add_end p 1 1 30
      r ← rr_add_end q 1 28 30
      records_from 3 r (get_rrs_start r 1).1)
    ≡ ok (36 ∷ 82 ∷ [])
unfolding rr_add_end link_record last_record set_next record_at get_rrs_start get_rrs_next
    records_from
three_records = refl

no_room : rr_add_end empty_packet 1 1 833 ≡ fail
unfolding rr_add_end
no_room = refl

no_section : rr_add_end empty_packet 5 1 20 ≡ fail
unfolding rr_add_end
no_section = refl

empty_packet-IsLinked : IsLinked empty_packet (λ t. [])
empty_packet-IsLinked = record {
  chain = λ t. refl;
  rising = λ t. tt;
  below = λ t. tt;
  apart = λ t u o m n. absurd m;
  counted = λ t. refl;
  heads = tt;
  enough = λ t. omega arith;
  room = omega arith;
  fits = omega arith;
  small = omega arith;
}

rr_add_end-IsLinked_example :
    (q : Packet) × (rr_add_end empty_packet 1 28 30 ≡ ok q)
    × IsLinked q (with_record (λ t. []) 1 0)
    × (q.len ≡ 0 + 30 + 16)
rr_add_end-IsLinked_example =
    rr_add_end-IsLinked empty_packet (λ t. []) 1 28 30 empty_packet-IsLinked (omega arith)
      (omega arith)

-- Two answers.
abbrev answers : Packet
answers = record {
  sections = λ t.
      if t == 1 then record { count = 2; start = 0 } else record { count = 0; start = dns_rr_end };
  size = 1000;
  len = 92;
  rrs =
      record { pos = 0; next = 46; len = 30; rtype = 1 }
      ∷ record { pos = 46; next = dns_rr_end; len = 30; rtype = 28 }
      ∷ [];
}

abbrev answer_chains : ℕ → List ℕ
answer_chains t = if t == 1 then 0 ∷ 46 ∷ [] else []

answers-IsLinked : IsLinked answers answer_chains
unfolding record_at
answers-IsLinked = record {
  chain = λ t. elim (Bool-cases (t == 1)) [
    | inl e ↦ rw e (refl, omega arith, _, refl, (refl, omega arith, _, refl, refl))
    | inr e ↦ rw e refl
  ];
  rising = λ t. elim (Bool-cases (t == 1)) [ inl e ↦ rw e (omega arith) | inr e ↦ rw e tt ];
  below = λ t. elim (Bool-cases (t == 1)) [ inl e ↦ rw e (omega arith) | inr e ↦ rw e tt ];
  apart = λ t u o m n. elim (Bool-cases (t == 1)) [
    | inl e ↦ elim (Bool-cases (u == 1)) [
      | inl f ↦ ground (arith, e, f)
      | inr f ↦ absurd (rw f at n)
    ]
    | inr e ↦ absurd (rw e at m)
  ];
  counted = λ t. elim (Bool-cases (t == 1)) [ inl e ↦ rw e refl | inr e ↦ rw e refl ];
  heads = omega arith;
  enough =
      λ t. elim (Bool-cases (t == 1)) [ inl e ↦ rw e (omega arith) | inr e ↦ rw e (omega arith) ];
  room = omega arith;
  fits = omega arith;
  small = omega arith;
}

records_from-IsLinked_example :
    ((get_rrs_start answers 1).0 ≡ 2)
    × (records_from 2 answers (get_rrs_start answers 1).1 ≡ ok (0 ∷ 46 ∷ []))
records_from-IsLinked_example =
    records_from-IsLinked answers answer_chains 1 answers-IsLinked (omega arith)
