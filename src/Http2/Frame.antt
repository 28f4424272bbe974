-- ===== src/Http2/Frame.antt =====
-- The integers and the head of a frame in src/http_parse/http2.c. What the code writes to a buffer
-- is the list of the bytes, and what it reads is the bytes from there on.
pub mod RoundTrip
use smartdns_ui.Prelude.{
  ℕ, ◌+◌, ◌*◌, ◌/◌, ◌%◌, ◌^◌, List, [], ◌∷◌, ◌++◌, length, Outcome, ok, fault, ◌>>=◌, bit_or,
  bit_and,
}

abbrev pub frame_data : ℕ
frame_data = 0x00

abbrev pub frame_rst_stream : ℕ
frame_rst_stream = 0x03

abbrev pub frame_settings : ℕ
frame_settings = 0x04

abbrev pub frame_ping : ℕ
frame_ping = 0x06

abbrev pub frame_goaway : ℕ
frame_goaway = 0x07

abbrev pub frame_window_update : ℕ
frame_window_update = 0x08

abbrev pub flag_end_stream : ℕ
flag_end_stream = 0x01

abbrev pub flag_ack : ℕ
flag_ack = 0x01

-- `read_uint32`
unfoldable pub read_uint32 : List ℕ → Outcome ℕ
read_uint32 (a ∷ b ∷ c ∷ d ∷ bytes) =
    ok (bit_or (bit_or (bit_or (a * 2 ^ 24) (b * 2 ^ 16)) (c * 2 ^ 8)) d)
read_uint32 bytes = fault

-- `read_uint24`
unfoldable pub read_uint24 : List ℕ → Outcome ℕ
read_uint24 (a ∷ b ∷ c ∷ bytes) = ok (bit_or (bit_or (a * 2 ^ 16) (b * 2 ^ 8)) c)
read_uint24 bytes = fault

-- `write_uint32`
unfoldable pub write_uint32 : ℕ → List ℕ
write_uint32 value =
    value / 2 ^ 24 % 256 ∷ value / 2 ^ 16 % 256 ∷ value / 2 ^ 8 % 256 ∷ value % 256 ∷ []

-- `write_uint24`
unfoldable pub write_uint24 : ℕ → List ℕ
write_uint24 value = value / 2 ^ 16 % 256 ∷ value / 2 ^ 8 % 256 ∷ value % 256 ∷ []

-- `_http2_write_frame_header`
unfoldable pub write_frame_header : ℕ → ℕ → ℕ → ℕ → List ℕ
unfolding write_uint24 write_uint32
write_frame_header length type flags stream_id =
    write_uint24 length ++ type % 256 ∷ flags % 256 ∷ write_uint32 (bit_and stream_id 0x7FFFFFFF)

-- The head of a frame, as `_http2_process_frames` takes it apart.
pub record FrameHead : Type 0 where
  pub length : ℕ
  pub type : ℕ
  pub flags : ℕ
  pub stream_id : ℕ

unfoldable pub read_frame_header : List ℕ → Outcome FrameHead
unfolding read_uint24 read_uint32
read_frame_header (a ∷ b ∷ c ∷ type ∷ flags ∷ bytes) = do
  length ← read_uint24 (a ∷ b ∷ c ∷ [])
  id ← read_uint32 bytes
  ok (record { length = length; type = type; flags = flags; stream_id = bit_and id 0x7FFFFFFF })
read_frame_header bytes = fault
