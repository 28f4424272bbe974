-- ===== src/Dns/Records/Read.antt =====
-- Reading a section by `dns_get_rrs_start` and `dns_get_rrs_next`.
use smartdns_ui.Prelude.{
  ℕ, zero, suc, ◌≤◌, ◌≡◌, refl, arith, true, false, List, [], ◌∷◌, length, ltb, ◌==◌, if◌then◌else◌,
  Option, none, some, ok,
}
use smartdns_ui.Dns.Records.{Packet, dns_rr_end, dns_rrs_opt, get_rrs_start, records_from}
use smartdns_ui.Dns.Records.Chain.{Chain}
use smartdns_ui.Dns.Records.Added.{IsLinked}

abbrev first : ℕ → Option ℕ
first s = if s == dns_rr_end then none else some s

records_from-Chain :
    (fuel : ℕ) (p : Packet) (s : ℕ) (os : List ℕ)
    → Chain p.rrs s os
    → length os ≤ fuel
    → records_from fuel p (first s) ≡ ok os
unfolding records_from
records_from-Chain fuel p s [] c l =
    let stop : (s == dns_rr_end) ≡ true = ground (arith, c) in rw stop refl
records_from-Chain zero p s (o ∷ os) c l = absurd (omega arith)
records_from-Chain (suc fuel) p s (o ∷ os) (e, b, r, a, c) l =
    let go : (o == dns_rr_end) ≡ false = ground (arith, b) in
    rw (e, go, a, records_from-Chain fuel p r.next os c (omega (arith, l))) refl

-- In a packet whose sections hold these records, reading a section from `dns_get_rrs_start` on by
-- `dns_get_rrs_next` meets just its records, in their order, and ends; the count that comes with
-- the first one is their number.
pub records_from-IsLinked :
    (p : Packet) (chains : ℕ → List ℕ) (t : ℕ)
    → IsLinked p chains
    → t ≤ dns_rrs_opt
    → ((get_rrs_start p t).0 ≡ length (chains t))
      × (records_from (length p.rrs) p (get_rrs_start p t).1 ≡ ok (chains t))
unfolding get_rrs_start
records_from-IsLinked p chains t k known =
    let section : ltb dns_rrs_opt t ≡ false = ground arith in
    rw section (
      k.counted t,
      records_from-Chain (length p.rrs) p (p.sections t).start (chains t) (k.chain t) (k.enough t),
    )
