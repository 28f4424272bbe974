-- ===== src/Dns/Question/Bounds.antt =====
-- The heads of questions and records stay inside of the packet.
use smartdns_ui.Prelude.{
  ℕ, ◌+◌, ◌-◌, ◌/◌, ◌%◌, ◌^◌, ◌≤◌, ◌<◌, ◌≡◌, refl, ◌∙◌, List, length, set, length-set, get_elem?,
  get_elem?-set_ne, ltb, lt→ltb, Bool-cases, inl, inr, arith, ok, Ensures, Ensures-bind,
}
use smartdns_ui.Dns.Wire.{write_int, read_short-eq-ok}
use smartdns_ui.Dns.Wire.Shorts.{put_short, write_short-eq-ok, length-put_short}
use smartdns_ui.Dns.Domain.{get_domain_from_packet}
use smartdns_ui.Dns.Domain.Bounds.{get_domain_from_packet_safe}
use smartdns_ui.Dns.Encode.{Context, encode_domain}
use smartdns_ui.Dns.Encode.Bounds.{Wrote, encode_domain-Wrote}
use smartdns_ui.Dns.Question.{add_qr_head, add_rr_head, get_qr_head}

-- What was written from `from` on: `r.0` bytes, inside of the packet, and nothing in front of them.
pub record Fits (from : ℕ) (c : Context) (r : ℕ × Context) : Type 0 where
  pub same_maxsize : r.1.maxsize ≡ c.maxsize
  pub same_length : length r.1.bytes ≡ length c.bytes
  pub same_below : (q : ℕ) → q < from → get_elem? r.1.bytes q ≡ get_elem? c.bytes q
  pub whole_len : r.1.ptr ≡ from + r.0
  pub inside : r.1.ptr ≤ r.1.maxsize

get_elem?-put_short_below :
    (d : List ℕ) (p v q : ℕ) → q < p → get_elem? (put_short d p v) q ≡ get_elem? d q
get_elem?-put_short_below d p v q l =
    get_elem?-set_ne (set d p (v / 256 % 256)) (p + 1) q (v % 256) (λ e. omega arith)
    ∙ get_elem?-set_ne d p q (v / 256 % 256) (λ e. omega arith)

put_int : List ℕ → ℕ → ℕ → List ℕ
put_int b p v =
    set
      (set (set (set b p (v / 2 ^ 24 % 256)) (p + 1) (v / 2 ^ 16 % 256)) (p + 2) (v / 2 ^ 8 % 256))
      (p + 3) (v % 256)

length-put_int : (b : List ℕ) (p v : ℕ) → length (put_int b p v) ≡ length b
unfolding put_int
length-put_int b p v =
    length-set (set (set (set b p _) (p + 1) _) (p + 2) _) (p + 3) _
    ∙ length-set (set (set b p _) (p + 1) _) (p + 2) _
    ∙ length-set (set b p _) (p + 1) _
    ∙ length-set b p _

get_elem?-put_int_below :
    (b : List ℕ) (p v q : ℕ) → q < p → get_elem? (put_int b p v) q ≡ get_elem? b q
unfolding put_int
get_elem?-put_int_below b p v q l =
    get_elem?-set_ne (set (set (set b p _) (p + 1) _) (p + 2) _) (p + 3) q _ (λ e. omega arith)
    ∙ get_elem?-set_ne (set (set b p _) (p + 1) _) (p + 2) q _ (λ e. omega arith)
    ∙ get_elem?-set_ne (set b p _) (p + 1) q _ (λ e. omega arith)
    ∙ get_elem?-set_ne b p q _ (λ e. omega arith)

write_int-eq-ok :
    (b : List ℕ) (p v : ℕ) → p + 4 ≤ length b → write_int b p v ≡ ok (put_int b p v, p + 4)
unfolding write_int put_int
write_int-eq-ok b p v h = rw (lt→ltb (p + 3) (length b) (omega arith)) refl

module _ (c : Context) (inside : c.maxsize ≤ length c.bytes) where
  add_qr_head-Fits :
      (domain : List ℕ) (qtype qclass : ℕ)
      → Ensures (Fits c.ptr c) (add_qr_head c domain qtype qclass)
  unfolding add_qr_head
  add_qr_head-Fits domain qtype qclass =
      Ensures-bind (Wrote c.ptr c) (Fits c.ptr c) (encode_domain c domain) _
        (encode_domain-Wrote c domain inside)
        (λ r w. elim (Bool-cases (ltb (r.1.maxsize - r.1.ptr) 4)) [
          | inl e ↦ rw e tt
          | inr e ↦
              let d = r.1 in
              let b₁ = put_short d.bytes d.ptr qtype in
              let first =
                write_short-eq-ok d.bytes d.ptr qtype
                  (ground (arith, e, w.kept.same_maxsize, w.kept.same_length)) in
              let second = write_short-eq-ok b₁ (d.ptr + 2) qclass (
                ground (
                  arith,
                  e,
                  w.kept.same_maxsize,
                  w.kept.same_length,
                  length-put_short d.bytes d.ptr qtype,
                )) in
              rw (e, first, second)
                (record {
                  same_maxsize = w.kept.same_maxsize;
                  same_length =
                      length-put_short b₁ (d.ptr + 2) qclass
                      ∙ length-put_short d.bytes d.ptr qtype
                      ∙ w.kept.same_length;
                  same_below = λ q l.
                      get_elem?-put_short_below b₁ (d.ptr + 2) qclass q (omega (arith, w.whole_len))
                      ∙ get_elem?-put_short_below d.bytes d.ptr qtype q (omega (arith, w.whole_len))
                      ∙ w.kept.same_below q l;
                  whole_len = omega (arith, w.whole_len);
                  inside = ground (arith, e);
                })
        ])

  rr_head-Fits :
      (domain : List ℕ) (qtype qclass ttl rr_len : ℕ)
      → Ensures (Fits c.ptr c) (add_rr_head c domain qtype qclass ttl rr_len)
  unfolding add_rr_head
  rr_head-Fits domain qtype qclass ttl rr_len =
      Ensures-bind (Fits c.ptr c) (Fits c.ptr c) (add_qr_head c domain qtype qclass) _
        (add_qr_head-Fits domain qtype qclass)
        (λ r w. elim (Bool-cases (ltb (r.1.maxsize - r.1.ptr) 6)) [
          | inl e ↦ rw e tt
          | inr e ↦
              let d = r.1 in
              let b₁ = put_int d.bytes d.ptr ttl in
              let first =
                write_int-eq-ok d.bytes d.ptr ttl
                  (ground (arith, e, w.same_maxsize, w.same_length)) in
              let second = write_short-eq-ok b₁ (d.ptr + 4) rr_len (
                ground
                  (arith, e, w.same_maxsize, w.same_length, length-put_int d.bytes d.ptr ttl)) in
              rw (e, first, second)
                (record {
                  same_maxsize = w.same_maxsize;
                  same_length =
                      length-put_short b₁ (d.ptr + 4) rr_len
                      ∙ length-put_int d.bytes d.ptr ttl
                      ∙ w.same_length;
                  same_below = λ q l.
                      get_elem?-put_short_below b₁ (d.ptr + 4) rr_len q (omega (arith, w.whole_len))
                      ∙ get_elem?-put_int_below d.bytes d.ptr ttl q (omega (arith, w.whole_len))
                      ∙ w.same_below q l;
                  whole_len = omega (arith, w.whole_len);
                  inside = ground (arith, e);
                })
        ])

-- `_dns_add_rr_head` on a packet whose `maxsize` bytes are there, for every domain and wherever
-- the pointer stands: the call returns without an access outside of the packet. When it reports a
-- length, it has moved the pointer by just that length, no further than the end of the packet,
-- and the bytes in front of where it stood, the size of the packet and `maxsize` are unchanged.
pub add_rr_head-Fits :
    (c : Context) (domain : List ℕ) (qtype qclass ttl rr_len : ℕ)
    → c.maxsize ≤ length c.bytes
    → Ensures (Fits c.ptr c) (add_rr_head c domain qtype qclass ttl rr_len)
add_rr_head-Fits c domain qtype qclass ttl rr_len inside =
    rr_head-Fits c inside domain qtype qclass ttl rr_len

-- `_dns_get_qr_head` on a packet whose `maxsize` bytes are there, for every start and every size of
-- the name's buffer: the call returns, reads inside of the packet, and leaves a name that fits the
-- buffer and a pointer inside of the packet.
pub get_qr_head_safe :
    (c : Context) (maxsize : ℕ)
    → c.maxsize ≤ length c.bytes
    → Ensures (λ r. (length r.0 < maxsize) × (r.3 ≤ c.maxsize)) (get_qr_head c maxsize)
unfolding get_qr_head
get_qr_head_safe c maxsize inside =
    Ensures-bind (λ r. (length r.0 < maxsize) × (r.1 ≤ c.maxsize)) _
      (get_domain_from_packet c.bytes c.maxsize c.ptr maxsize) _
      (get_domain_from_packet_safe c.bytes c.maxsize c.ptr maxsize inside)
      (λ r h. elim (Bool-cases (ltb (c.maxsize - r.1) 4)) [
        | inl e ↦ rw e tt
        | inr e ↦
            let (v, p) = read_short-eq-ok c.bytes r.1 (ground (arith, e)) in
            let (u, q) = read_short-eq-ok c.bytes (r.1 + 2) (ground (arith, e)) in
            rw (e, p, q) (h.0, ground (arith, e))
      ])
