-- ===== src/Dns/Head.antt =====
-- src/dns.c: `_dns_decode_head` and `_dns_encode_head`. The context is the packet's bytes, the
-- offset of its pointer and `maxsize`. C's masks and shifts are kept; a narrower field takes the
-- value modulo its width.
pub mod RoundTrip
use smartdns_ui.Prelude.{
  ℕ, ◌+◌, ◌-◌, ◌*◌, ◌/◌, ◌%◌, ◌^◌, List, ltb, bit_and, bit_or, Outcome, ok, ◌>>=◌, ◌>>◌, fail_if,
}
use smartdns_ui.Dns.Wire.{read_short, write_short}

-- `struct dns_head`, without its padding
pub record Head : Type 0 where
  pub id : ℕ
  pub qr : ℕ
  pub opcode : ℕ
  pub aa : ℕ
  pub tc : ℕ
  pub rd : ℕ
  pub ra : ℕ
  pub z : ℕ
  pub ad : ℕ
  pub cd : ℕ
  pub rcode : ℕ
  pub qdcount : ℕ
  pub ancount : ℕ
  pub nscount : ℕ
  pub nrcount : ℕ

abbrev pub qr_mask : ℕ
qr_mask = 0x8000

abbrev pub opcode_mask : ℕ
opcode_mask = 0x7800

abbrev pub aa_mask : ℕ
aa_mask = 0x0400

abbrev pub tc_mask : ℕ
tc_mask = 0x0200

abbrev pub rd_mask : ℕ
rd_mask = 0x0100

abbrev pub ra_mask : ℕ
ra_mask = 0x0080

abbrev pub z_mask : ℕ
z_mask = 0x0040

abbrev pub ad_mask : ℕ
ad_mask = 0x0020

abbrev pub cd_mask : ℕ
cd_mask = 0x0010

abbrev pub rcode_mask : ℕ
rcode_mask = 0x000F

-- `_dns_left_len`
abbrev pub left_len : ℕ → ℕ → ℕ
left_len maxsize ptr = maxsize - ptr

-- The fields of the second word.
pub decode_fields : ℕ → Head → Head
decode_fields fields head = record head {
  qr = bit_and fields qr_mask / 2 ^ 15;
  opcode = bit_and fields opcode_mask / 2 ^ 11;
  aa = bit_and fields aa_mask / 2 ^ 10 % 256;
  tc = bit_and fields tc_mask / 2 ^ 9 % 256;
  rd = bit_and fields rd_mask / 2 ^ 8 % 256;
  ra = bit_and fields ra_mask / 2 ^ 7 % 256;
  z = bit_and fields z_mask / 2 ^ 6 % 256;
  ad = bit_and fields ad_mask / 2 ^ 5 % 256;
  cd = bit_and fields cd_mask / 2 ^ 4 % 256;
  rcode = bit_and fields rcode_mask / 2 ^ 0;
}

-- `fields` after the ten `|=`
pub encode_fields : Head → ℕ
encode_fields head =
    let f₁ = bit_or 0 (bit_and (head.qr * 2 ^ 15) qr_mask) in
    let f₂ = bit_or f₁ (bit_and (head.opcode * 2 ^ 11) opcode_mask) in
    let f₃ = bit_or f₂ (bit_and (head.aa * 2 ^ 10) aa_mask) in
    let f₄ = bit_or f₃ (bit_and (head.tc * 2 ^ 9) tc_mask) in
    let f₅ = bit_or f₄ (bit_and (head.rd * 2 ^ 8) rd_mask) in
    let f₆ = bit_or f₅ (bit_and (head.ra * 2 ^ 7) ra_mask) in
    let f₇ = bit_or f₆ (bit_and (head.z * 2 ^ 6) z_mask) in
    let f₈ = bit_or f₇ (bit_and (head.ad * 2 ^ 5) ad_mask) in
    let f₉ = bit_or f₈ (bit_and (head.cd * 2 ^ 4) cd_mask) in
    bit_or f₉ (bit_and (head.rcode * 2 ^ 0) rcode_mask)

unfoldable pub decode_head : List ℕ → ℕ → ℕ → Head → Outcome (Head × ℕ)
unfolding decode_fields
decode_head packet maxsize ptr head = do
  fail_if (ltb (left_len maxsize ptr) 12)
  (id, p₁) ← read_short packet ptr
  (fields, p₂) ← read_short packet p₁
  (qdcount, p₃) ← read_short packet p₂
  (ancount, p₄) ← read_short packet p₃
  (nscount, p₅) ← read_short packet p₄
  (nrcount, p₆) ← read_short packet p₅
  ok (
    record (decode_fields fields head) {
      id = id;
      qdcount = qdcount;
      ancount = ancount;
      nscount = nscount;
      nrcount = nrcount;
    },
    p₆,
  )

-- The packet, its pointer and the length that was written.
unfoldable pub encode_head : List ℕ → ℕ → ℕ → Head → Outcome (List ℕ × ℕ × ℕ)
unfolding encode_fields
encode_head packet maxsize ptr head = do
  fail_if (ltb (left_len maxsize ptr) 12)
  (d₁, p₁) ← write_short packet ptr head.id
  (d₂, p₂) ← write_short d₁ p₁ (encode_fields head)
  (d₃, p₃) ← write_short d₂ p₂ head.qdcount
  (d₄, p₄) ← write_short d₃ p₃ head.ancount
  (d₅, p₅) ← write_short d₄ p₄ head.nscount
  (d₆, p₆) ← write_short d₅ p₅ head.nrcount
  ok (d₆, p₆, 12)
