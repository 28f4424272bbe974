-- ===== src/Hpack/Integer.antt =====
-- `hpack_encode_integer` and `hpack_decode_integer`. The encoder's buffer is written from its start
-- on, byte after byte: a result is the list of the bytes written, and its length what the code
-- returns. `first` is the byte that stands in the buffer before the call. The decoder's `data`
-- holds `data_len` bytes.
pub mod RoundTrip
use smartdns_ui.Prelude.{
  ℕ, zero, suc, ◌+◌, ◌-◌, ◌*◌, ◌/◌, ◌%◌, ◌^◌, ◌||◌, List, [], ◌∷◌, ltb, leb, ◌==◌, if◌then◌else◌,
  bit_and, bit_or, Outcome, ok, fail, stuck, ◌>>=◌, ◌>>◌, fail_if,
}

-- the `while (value >= 128)` and the last byte
unfoldable pub encode_groups : ℕ → ℕ → ℕ → ℕ → Outcome (List ℕ)
encode_groups zero value offset buf_size = stuck
encode_groups (suc fuel) value offset buf_size =
    let more : Outcome (List ℕ) = do
      fail_if (leb buf_size offset)
      bytes ← encode_groups fuel (value / 2 ^ 7) (offset + 1) buf_size
      ok (bit_or (bit_and value 0x7F) 0x80 % 256 ∷ bytes)
    in let last : Outcome (List ℕ) = do fail_if (leb buf_size offset); ok (value % 256 ∷ [])
      in if leb 128 value then more else last

-- A `uint64_t` has ten groups of seven bits at most.
unfoldable pub encode_integer : ℕ → ℕ → ℕ → ℕ → Outcome (List ℕ)
encode_integer value prefix_bits first buf_size =
    let max_prefix = 2 ^ prefix_bits - 1 in
    if ltb value max_prefix
    then (do fail_if (ltb buf_size 1); ok (bit_or first (value % 256) ∷ []))
    else (do
      fail_if (ltb buf_size 1)
      bytes ← encode_groups 10 (value - max_prefix) 1 buf_size
      ok (bit_or first (max_prefix % 256) ∷ bytes))

-- the `while (offset < data_len)`, on the bytes that are left
unfoldable pub decode_groups : List ℕ → ℕ → ℕ → ℕ → Outcome (ℕ × ℕ)
decode_groups [] offset result shift = fail
decode_groups (byte ∷ rest) offset result shift =
    let chunk = bit_and byte 0x7F in
    let result' = result + chunk * 2 ^ shift in
    let more = decode_groups rest (offset + 1) result' (shift + 7) in
    if leb 64 shift || ltb ((2 ^ 64 - 1 - result) / 2 ^ shift) chunk
    then fail
    else if bit_and byte 0x80 == 0
    then ok (result', offset + 1)
    else more

-- The value and the number of bytes read.
unfoldable pub decode_integer : List ℕ → ℕ → Outcome (ℕ × ℕ)
decode_integer [] prefix_bits = fail
decode_integer (byte ∷ rest) prefix_bits =
    let max_prefix = 2 ^ prefix_bits - 1 in
    let result = bit_and byte max_prefix in
    if ltb result max_prefix then ok (result, 1) else decode_groups rest 1 result 0
