-- ===== src/Dns/Head/RoundTrip.antt =====
-- `_dns_decode_head` reads back what `_dns_encode_head` wrote.
use smartdns_ui.Prelude.{
  ℕ, ◌+◌, ◌*◌, ◌/◌, ◌%◌, ◌^◌, ◌≤◌, ◌<◌, ◌≡◌, ◌⊎◌, refl, ap, List, [], ◌∷◌, length, ltb-false,
  Outcome, ok, get_elem?, arith, and_field, or_field,
}
use smartdns_ui.Dns.Wire.Shorts.{
  put_short, put_shorts, ShortsAt, length-put_short, write_short-eq-ok, get_elem?-put_shorts,
  put_shorts-ShortsAt,
}
use smartdns_ui.Dns.Head.{Head, decode_fields, encode_fields, decode_head, encode_head, left_len}

-- Every field of the head fits the bits that the packet has for it.
pub record InRange (h : Head) : Type 0 where
  pub id : h.id < 2 ^ 16
  pub qr : h.qr < 2
  pub opcode : h.opcode < 16
  pub aa : h.aa < 2
  pub tc : h.tc < 2
  pub rd : h.rd < 2
  pub ra : h.ra < 2
  pub z : h.z < 2
  pub ad : h.ad < 2
  pub cd : h.cd < 2
  pub rcode : h.rcode < 16
  pub qdcount : h.qdcount < 2 ^ 16
  pub ancount : h.ancount < 2 ^ 16
  pub nscount : h.nscount < 2 ^ 16
  pub nrcount : h.nrcount < 2 ^ 16

-- The second word of the head as one number, field by field.
abbrev fields_word : Head → ℕ
fields_word h =
    (((((((((h.qr * 16 + h.opcode) * 2 + h.aa) * 2 + h.tc) * 2 + h.rd) * 2 + h.ra) * 2 + h.z) * 2
              + h.ad)
            * 2
          + h.cd)
        * 16
      + h.rcode)

module _ (h : Head) (r : InRange h) where
  encode_fields-eq : encode_fields h ≡ fields_word h
  unfolding encode_fields
  encode_fields-eq =
      let a₁ = 0 * 2 ^ 1 + h.qr in
      let a₂ = a₁ * 2 ^ 4 + h.opcode in
      let a₃ = a₂ * 2 ^ 1 + h.aa in
      let a₄ = a₃ * 2 ^ 1 + h.tc in
      let a₅ = a₄ * 2 ^ 1 + h.rd in
      let a₆ = a₅ * 2 ^ 1 + h.ra in
      let a₇ = a₆ * 2 ^ 1 + h.z in
      let a₈ = a₇ * 2 ^ 1 + h.ad in
      let a₉ = a₈ * 2 ^ 1 + h.cd in
      rw
        (
          or_field 16 15 1 0 h.qr refl r.qr,
          or_field 15 11 4 a₁ h.opcode refl r.opcode,
          or_field 11 10 1 a₂ h.aa refl r.aa,
          or_field 10 9 1 a₃ h.tc refl r.tc,
          or_field 9 8 1 a₄ h.rd refl r.rd,
          or_field 8 7 1 a₅ h.ra refl r.ra,
          or_field 7 6 1 a₆ h.z refl r.z,
          or_field 6 5 1 a₇ h.ad refl r.ad,
          or_field 5 4 1 a₈ h.cd refl r.cd,
          or_field 4 0 4 a₉ h.rcode refl r.rcode,
        )
        (omega arith)

  -- A field is cut out of the word by its mask and its shift.
  decode_fields-fields_word :
      (h₀ : Head)
      → decode_fields (fields_word h) h₀ ≡ record h {
        id = h₀.id;
        qdcount = h₀.qdcount;
        ancount = h₀.ancount;
        nscount = h₀.nscount;
        nrcount = h₀.nrcount;
      }
  unfolding decode_fields
  decode_fields-fields_word h₀ =
      let w = fields_word h in
      let e_qr : w / 2 ^ 15 % 2 ^ 1 * 2 ^ 15 / 2 ^ 15 ≡ h.qr = omega arith in
      let e_opcode : w / 2 ^ 11 % 2 ^ 4 * 2 ^ 11 / 2 ^ 11 ≡ h.opcode = omega arith in
      let e_aa : w / 2 ^ 10 % 2 ^ 1 * 2 ^ 10 / 2 ^ 10 % 256 ≡ h.aa = omega arith in
      let e_tc : w / 2 ^ 9 % 2 ^ 1 * 2 ^ 9 / 2 ^ 9 % 256 ≡ h.tc = omega arith in
      let e_rd : w / 2 ^ 8 % 2 ^ 1 * 2 ^ 8 / 2 ^ 8 % 256 ≡ h.rd = omega arith in
      let e_ra : w / 2 ^ 7 % 2 ^ 1 * 2 ^ 7 / 2 ^ 7 % 256 ≡ h.ra = omega arith in
      let e_z : w / 2 ^ 6 % 2 ^ 1 * 2 ^ 6 / 2 ^ 6 % 256 ≡ h.z = omega arith in
      let e_ad : w / 2 ^ 5 % 2 ^ 1 * 2 ^ 5 / 2 ^ 5 % 256 ≡ h.ad = omega arith in
      let e_cd : w / 2 ^ 4 % 2 ^ 1 * 2 ^ 4 / 2 ^ 4 % 256 ≡ h.cd = omega arith in
      let e_rcode : w / 2 ^ 0 % 2 ^ 4 * 2 ^ 0 / 2 ^ 0 ≡ h.rcode = omega arith in
      rw
        (
          and_field 15 1 w,
          and_field 11 4 w,
          and_field 10 1 w,
          and_field 9 1 w,
          and_field 8 1 w,
          and_field 7 1 w,
          and_field 6 1 w,
          and_field 5 1 w,
          and_field 4 1 w,
          and_field 0 4 w,
        )
        (λ i. record {
          id = h₀.id;
          qr = e_qr i;
          opcode = e_opcode i;
          aa = e_aa i;
          tc = e_tc i;
          rd = e_rd i;
          ra = e_ra i;
          z = e_z i;
          ad = e_ad i;
          cd = e_cd i;
          rcode = e_rcode i;
          qdcount = h₀.qdcount;
          ancount = h₀.ancount;
          nscount = h₀.nscount;
          nrcount = h₀.nrcount;
        })

  abbrev words : List ℕ
  words = h.id ∷ fields_word h ∷ h.qdcount ∷ h.ancount ∷ h.nscount ∷ h.nrcount ∷ []

  module _ (packet : List ℕ) (maxsize ptr : ℕ) where
    encode_head-eq :
        ptr + 12 ≤ maxsize
        → maxsize ≤ length packet
        → encode_head packet maxsize ptr h
          ≡ ok (put_shorts packet ptr words, ptr + 2 + 2 + 2 + 2 + 2 + 2, 12)
    unfolding encode_head
    encode_head-eq fits inside =
        let d₁ = put_short packet ptr h.id in
        let d₂ = put_short d₁ (ptr + 2) (fields_word h) in
        let d₃ = put_short d₂ (ptr + 2 + 2) h.qdcount in
        let d₄ = put_short d₃ (ptr + 2 + 2 + 2) h.ancount in
        let d₅ = put_short d₄ (ptr + 2 + 2 + 2 + 2) h.nscount in
        let l₁ = length-put_short packet ptr h.id in
        let l₂ = length-put_short d₁ (ptr + 2) (fields_word h) in
        let l₃ = length-put_short d₂ (ptr + 2 + 2) h.qdcount in
        let l₄ = length-put_short d₃ (ptr + 2 + 2 + 2) h.ancount in
        let l₅ = length-put_short d₄ (ptr + 2 + 2 + 2 + 2) h.nscount in
        rw (
          ltb-false (left_len maxsize ptr) 12 (omega arith),
          write_short-eq-ok packet ptr h.id (omega arith),
          encode_fields-eq,
          write_short-eq-ok d₁ (ptr + 2) (fields_word h) (omega (arith, l₁)),
          write_short-eq-ok d₂ (ptr + 2 + 2) h.qdcount (omega (arith, l₁, l₂)),
          write_short-eq-ok d₃ (ptr + 2 + 2 + 2) h.ancount (omega (arith, l₁, l₂, l₃)),
          write_short-eq-ok d₄ (ptr + 2 + 2 + 2 + 2) h.nscount (omega (arith, l₁, l₂, l₃, l₄)),
          write_short-eq-ok d₅ (ptr + 2 + 2 + 2 + 2 + 2) h.nrcount
              (omega (arith, l₁, l₂, l₃, l₄, l₅)),
        )

  decode_head-ShortsAt :
      (d : List ℕ) (maxsize ptr : ℕ) (h₀ : Head)
      → ptr + 12 ≤ maxsize
      → ShortsAt d ptr words
      → decode_head d maxsize ptr h₀ ≡ ok (h, ptr + 2 + 2 + 2 + 2 + 2 + 2)
  unfolding decode_head
  decode_head-ShortsAt d maxsize ptr h₀ fits s =
      rw
        (
          ltb-false (left_len maxsize ptr) 12 (omega arith),
          s.0,
          s.1.0,
          s.1.1.0,
          s.1.1.1.0,
          s.1.1.1.1.0,
          s.1.1.1.1.1.0,
        )
        (ap with_words (decode_fields-fields_word h₀))
    where
      with_words : Head → Outcome (Head × ℕ)
      with_words f = ok (
        record f {
          id = h.id;
          qdcount = h.qdcount;
          ancount = h.ancount;
          nscount = h.nscount;
          nrcount = h.nrcount;
        },
        ptr + 2 + 2 + 2 + 2 + 2 + 2,
      )

-- A head whose fields fit their bits, written into a packet with twelve bytes of room at the
-- pointer, is read back whole, by the same pointer and into any head; both leave the pointer
-- behind the twelve bytes, and every other byte of the packet is kept.
pub decode_head-encode_head :
    (h h₀ : Head) (packet : List ℕ) (maxsize ptr : ℕ)
    → InRange h
    → ptr + 12 ≤ maxsize
    → maxsize ≤ length packet
    → (d : List ℕ) × (encode_head packet maxsize ptr h ≡ ok (d, ptr + 12, 12))
      × (decode_head d maxsize ptr h₀ ≡ ok (h, ptr + 12))
      × ((q : ℕ) → (q < ptr) ⊎ (ptr + 12 ≤ q) → get_elem? d q ≡ get_elem? packet q)
decode_head-encode_head h h₀ packet maxsize ptr r fits inside =
    let e : ptr + 2 + 2 + 2 + 2 + 2 + 2 ≡ ptr + 12 = omega arith in
    (
      put_shorts packet ptr (words h r),
      rw e at (encode_head-eq h r packet maxsize ptr fits inside),
      rw e at (
          decode_head-ShortsAt h r _ maxsize ptr h₀ fits
            (put_shorts-ShortsAt packet ptr (words h r) (omega arith) (ground arith))),
      λ q out. get_elem?-put_shorts packet ptr (words h r) q out,
    )
