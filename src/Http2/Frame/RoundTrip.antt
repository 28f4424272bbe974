-- ===== src/Http2/Frame/RoundTrip.antt =====
-- Reading back the integers and the head of a frame that src/http_parse/http2.c writes.
use smartdns_ui.Prelude.{
  ℕ, ◌+◌, ◌-◌, ◌*◌, ◌/◌, ◌%◌, ◌^◌, ◌<◌, ◌≡◌, refl, ap, ◌∙◌, List, ◌++◌, ok, bit_or, bit_and,
  or_disjoint, and_ones, arith,
}
use smartdns_ui.Http2.Frame.{
  read_uint32, read_uint24, write_uint32, write_uint24, read_frame_header, write_frame_header,
}

-- The bytes of an integer, put together.
or_bytes :
    (a b c d : ℕ)
    → b < 256
    → c < 256
    → d < 256
    → bit_or (bit_or (bit_or (a * 2 ^ 24) (b * 2 ^ 16)) (c * 2 ^ 8)) d
      ≡ a * 2 ^ 24 + b * 2 ^ 16 + c * 2 ^ 8 + d
or_bytes a b c d hb hc hd =
    let e₁ : bit_or (a * 2 ^ 24) (b * 2 ^ 16) ≡ (a * 256 + b) * 2 ^ 16 =
      or_disjoint 24 a (b * 2 ^ 16) (omega arith) ∙ omega arith in
    let e₂ : bit_or ((a * 256 + b) * 2 ^ 16) (c * 2 ^ 8) ≡ (a * 65536 + b * 256 + c) * 2 ^ 8 =
      or_disjoint 16 (a * 256 + b) (c * 2 ^ 8) (omega arith) ∙ omega arith in
    rw (e₁, e₂, or_disjoint 8 (a * 65536 + b * 256 + c) d hd) (omega arith)

three_bytes :
    (v : ℕ)
    → v < 2 ^ 24
    → bit_or (bit_or (v / 2 ^ 16 % 256 * 2 ^ 16) (v / 2 ^ 8 % 256 * 2 ^ 8)) (v % 256) ≡ v
three_bytes v h =
    let a : ℕ = v / 2 ^ 16 % 256 in
    let b : ℕ = v / 2 ^ 8 % 256 in
    let e : bit_or (a * 2 ^ 16) (b * 2 ^ 8) ≡ (a * 256 + b) * 2 ^ 8 =
      or_disjoint 16 a (b * 2 ^ 8) (omega arith) ∙ omega arith in
    ap (λ t. bit_or t (v % 256)) e
    ∙ or_disjoint 8 (a * 256 + b) (v % 256) (omega arith)
    ∙ omega arith

pub four_bytes :
    (v : ℕ)
    → v < 2 ^ 32
    → bit_or
        (bit_or
          (bit_or (v / 2 ^ 24 % 256 * 2 ^ 24) (v / 2 ^ 16 % 256 * 2 ^ 16))
          (v / 2 ^ 8 % 256 * 2 ^ 8))
        (v % 256)
      ≡ v
four_bytes v h =
    or_bytes (v / 2 ^ 24 % 256) (v / 2 ^ 16 % 256) (v / 2 ^ 8 % 256) (v % 256) (omega arith)
      (omega arith) (omega arith)
    ∙ omega arith

pub read_uint32-write_uint32 :
    (v : ℕ) (bytes : List ℕ) → v < 2 ^ 32 → read_uint32 (write_uint32 v ++ bytes) ≡ ok v
unfolding read_uint32 write_uint32
read_uint32-write_uint32 v bytes h = ap ok (four_bytes v h)

pub read_uint24-write_uint24 :
    (v : ℕ) (bytes : List ℕ) → v < 2 ^ 24 → read_uint24 (write_uint24 v ++ bytes) ≡ ok v
unfolding read_uint24 write_uint24
read_uint24-write_uint24 v bytes h = ap ok (three_bytes v h)

-- A frame head with a length of 24 bits and a type and flags of 8 bits, once written, is read back
-- from the front of any bytes: the length, the type and the flags as they were, and the stream's id
-- without its reserved bit.
pub read_frame_header-write_frame_header :
    (length type flags stream_id : ℕ) (payload : List ℕ)
    → length < 2 ^ 24
    → type < 256
    → flags < 256
    → read_frame_header (write_frame_header length type flags stream_id ++ payload)
      ≡ ok (record { length = length; type = type; flags = flags; stream_id = stream_id % 2 ^ 31 })
unfolding read_frame_header write_frame_header
read_frame_header-write_frame_header length type flags stream_id payload hl ht hf =
    let masked : bit_and stream_id (2 ^ 31 - 1) ≡ stream_id % 2 ^ 31 = and_ones 31 stream_id in
    let again : bit_and (stream_id % 2 ^ 31) (2 ^ 31 - 1) ≡ stream_id % 2 ^ 31 =
      and_ones 31 (stream_id % 2 ^ 31) ∙ omega arith in
    let ht' : type % 256 ≡ type = omega arith in
    let hf' : flags % 256 ≡ flags = omega arith in
    rw
      (
        masked,
        four_bytes (stream_id % 2 ^ 31) (omega arith),
        again,
        three_bytes length hl,
        ht',
        hf',
      )
      refl
