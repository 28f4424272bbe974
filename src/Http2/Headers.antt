-- ===== src/Http2/Headers.antt =====
-- `_http2_process_headers_frame` of src/http_parse/http2.c: HEADERS and CONTINUATION frames, the
-- block that they make up, and its decoding.
pub mod Block
pub mod Sound
pub mod Ready
use smartdns_ui.Prelude.{
  ℕ, zero, suc, ◌+◌, ◌-◌, ◌*◌, ◌^◌, Bool, true, false, Option, none, some, List, [], ◌∷◌, ◌++◌,
  length, take, drop, min, ltb, leb, ◌==◌, ◌&&◌, ◌||◌, not, if◌then◌else◌, bit_and, Outcome, ok,
  fail, fault, stuck, ◌>>=◌, ◌>>◌, access,
}
use smartdns_ui.Hpack.Table.Static.{Field}
use smartdns_ui.Hpack.Table.{HpackContext}
use smartdns_ui.Hpack.Header.{Step, decode_field}
use smartdns_ui.Http2.Frame.{flag_end_stream}
use smartdns_ui.Http2.State.{
  Stream, StreamState, idle, opened, half_closed_remote, closed, Ctx, find_stream, create_stream,
  new_stream,
}
use smartdns_ui.Http2.Control.{
  with_goaway, with_rst, with_protocol_error, rst_protocol_error, rst_internal_error,
  rst_stream_closed,
}
use smartdns_ui.Http2.Receive.{Handled, with_stream, is_closed, mark_stream_reset, has_flag}
use smartdns_ui.Http2.Receive.ContentLength.{check_content_length}

abbrev pub frame_headers : ℕ
frame_headers = 0x01

abbrev pub frame_continuation : ℕ
frame_continuation = 0x09

abbrev pub flag_end_headers : ℕ
flag_end_headers = 0x04

abbrev pub flag_padded : ℕ
flag_padded = 0x08

abbrev pub flag_priority : ℕ
flag_priority = 0x20

abbrev pub rst_refused_stream : ℕ
rst_refused_stream = 7

abbrev pub rst_compression_error : ℕ
rst_compression_error = 9

abbrev pub max_header_block_size : ℕ
max_header_block_size = 65536

-- `_http2_clear_continuation`
abbrev pub clear_continuation : Ctx → Ctx
clear_continuation c = record c {
  header_block = [];
  header_block_capacity = 0;
  continuation_stream_id = 0;
  continuation_flags = 0;
  continuation_active = false;
  continuation_refuse_stream = false;
}

-- `while (new_capacity < needed)`: a capacity doubles up to the limit, so 32 rounds are enough.
unfoldable pub grow_block : ℕ → ℕ → ℕ → Option ℕ
grow_block zero capacity needed = none
grow_block (suc fuel) capacity needed =
    let temp = min (capacity * 2) max_header_block_size in
    let rest = grow_block fuel temp needed in
    if ltb capacity needed then (if leb temp capacity then none else rest) else some capacity

-- The capacity that a block of `needed` bytes gets
unfoldable pub block_capacity : ℕ → ℕ → Option ℕ
unfolding grow_block
block_capacity capacity needed =
    if ltb capacity needed
    then grow_block 32 (if capacity == 0 then 4096 else capacity) needed
    else some capacity

-- `_http2_append_header_block`
unfoldable pub append_header_block : Ctx → List ℕ → Option Ctx
unfolding block_capacity
append_header_block c bytes =
    let needed = length c.header_block + length bytes in
    let appended : Option Ctx = elim (block_capacity c.header_block_capacity needed) [
      | none ↦ none
      | some n ↦
          some (record c { header_block = c.header_block ++ bytes; header_block_capacity = n })
    ] in
    if ltb max_header_block_size needed then none else appended

-- `hpack_decode_headers` as its caller sees it, by the same `decode_field` as `decode_headers` of
-- Hpack/Header, but with what the context has become by the time of an error. The callback is
-- `_http2_on_header`, which puts a header at the end of the stream's. A field that is wrong stops it,
-- and what the fields before it did stays: the result is whether all is decoded, the decoder and the
-- headers.
unfoldable pub decode_block :
    ℕ → HpackContext → Bool → List ℕ → List Field → Outcome (Bool × (HpackContext × List Field))
unfolding decode_field
decode_block fuel hpack seen [] headers = ok (true, (hpack, headers))
decode_block zero hpack seen (byte ∷ rest) headers = stuck
decode_block (suc fuel) hpack seen (byte ∷ rest) headers =
    elim (decode_field hpack seen byte (byte ∷ rest)) [
      | ok step ↦
          decode_block fuel step.hpack step.seen (drop step.read (byte ∷ rest))
            (headers ++ take 1 step.header)
      | fail ↦ ok (false, (hpack, headers))
      | fault ↦ fault
      | stuck ↦ stuck
    ]

-- A stream that is refused is one on the C stack, whose changes are lost.
abbrev pub store : Ctx → ℕ → Bool → Stream → Ctx
store c stream_id use_tmp s = if use_tmp then c else with_stream c stream_id s

abbrev pub open_idle : StreamState → StreamState
open_idle idle = opened
open_idle state = state

-- The state after END_STREAM on HEADERS
abbrev pub headers_end : StreamState → StreamState
headers_end opened = half_closed_remote
headers_end state = state

-- The end of `_http2_process_headers_frame`: a block of a stream that is not refused is decoded.
unfoldable pub take_headers : Ctx → ℕ → Stream → Bool → Handled
unfolding check_content_length
take_headers c stream_id s end_stream =
    let s₁ : Stream = record s { state = open_idle s.state } in
    let s₂ : Stream = record s₁ { end_stream_received = true; state = headers_end s₁.state } in
    if end_stream
    then (if check_content_length s.header_list (length s.body_buffer) true
        then (
          true,
          with_stream (with_rst c stream_id rst_protocol_error) stream_id (mark_stream_reset s₁),
        )
        else (true, with_stream c stream_id s₂))
    else (true, with_stream c stream_id s₁)

-- From the decoding on; the block is in `c`.
unfoldable pub decode_headers_frame : Ctx → ℕ → Stream → Bool → Bool → ℕ → Outcome Handled
unfolding decode_block take_headers
decode_headers_frame c stream_id s use_tmp refuse headers_flags = do
  r ← decode_block (length c.header_block) c.decoder false c.header_block s.header_list
  let decoded : Ctx = record c { decoder = r.1.0 }
  let s' : Stream = record s { header_list = r.1.1 }
  let stored : Ctx = store decoded stream_id use_tmp s'
  ok (
      if not r.0
      then (false, clear_continuation (with_rst stored stream_id rst_compression_error))
      else if refuse
      then (true, with_rst (clear_continuation stored) stream_id rst_refused_stream)
      else take_headers (clear_continuation stored) stream_id s'
          (has_flag headers_flags flag_end_stream))

-- From `_http2_append_header_block` on, with the stream
unfoldable pub add_block : Ctx → ℕ → Stream → Bool → Bool → List ℕ → ℕ → Bool → Outcome Handled
unfolding append_header_block decode_headers_frame
add_block c stream_id s use_tmp refuse bytes flags is_headers =
    let s' : Stream = if is_headers then record s { header_list = [] } else s in
    let started : Ctx → Ctx = λ c.
      if is_headers
      then record c {
        continuation_stream_id = stream_id;
        continuation_flags = flags;
        continuation_active = true;
        continuation_refuse_stream = refuse;
      }
      else c in
    let stored : Ctx = store c stream_id use_tmp s' in
    elim (append_header_block stored bytes) [
      | none ↦ ok (false, clear_continuation (with_rst stored stream_id rst_internal_error))
      | some c' ↦
          let headers_flags = if is_headers then flags else c'.continuation_flags in
          let decoded = decode_headers_frame c' stream_id s' use_tmp refuse headers_flags in
          if has_flag flags flag_end_headers then decoded else ok (true, started c')
    ]

-- From `_http2_find_stream` on; `refuse` is what the frame before said.
unfoldable pub headers_on_stream : Ctx → ℕ → List ℕ → ℕ → Bool → Bool → Outcome Handled
unfolding add_block find_stream create_stream
headers_on_stream c stream_id bytes flags is_headers refuse =
    let full =
      ltb 0 c.max_concurrent_streams && leb c.max_concurrent_streams c.active_peer_streams in
    let refused = refuse || (is_headers && full) in
    let tmp = add_block c stream_id (new_stream c stream_id) true true bytes flags is_headers in
    let created : Outcome Handled = elim (create_stream c stream_id) [
      | none ↦ ok (false, c)
      | some c' ↦ add_block c' stream_id (new_stream c stream_id) false false bytes flags is_headers
    ] in
    let unknown : Outcome Handled =
      if not is_headers && not refuse
      then ok (false, with_goaway c rst_protocol_error)
      else if refused
      then tmp
      else created in
    let known : Stream → Outcome Handled = λ s.
      (let rst : Ctx = with_rst c stream_id rst_stream_closed in
        let ended : Handled =
          if is_closed s.state && s.end_stream_read_handled
          then (true, with_stream rst stream_id (mark_stream_reset s))
          else (false, with_protocol_error rst) in
        let added = add_block c stream_id s false refuse bytes flags is_headers in
        if s.end_stream_received || is_closed s.state then ok ended else added) in
    elim (find_stream c.streams stream_id) [ none ↦ unknown | some s ↦ known s ]

-- `pad_len = data[0]; data++; len--;` behind its guard. A read of `data[0]` needs that it is there.
unfoldable pub read_pad_len : Bool → List ℕ → Outcome (Option (ℕ × List ℕ))
read_pad_len padded bytes =
    let read : Outcome (Option (ℕ × List ℕ)) = elim bytes [
      | [] ↦ fault
      | b ∷ left ↦ ok (some (b, left))
    ] in
    if padded then (if ltb (length bytes) 1 then ok none else read) else ok (some (0, bytes))

-- `data += 5; len -= 5;` behind its guard. The step needs that the bytes are there.
unfoldable pub skip_priority : Bool → Option (ℕ × List ℕ) → Outcome (Option (ℕ × List ℕ))
skip_priority has_priority none = ok none
skip_priority has_priority (some (pad_len, rest)) =
    let skipped : Outcome (Option (ℕ × List ℕ)) =
      access (leb 5 (length rest)) >> ok (some (pad_len, drop 5 rest)) in
    if has_priority
    then (if ltb (length rest) 5 then ok none else skipped)
    else ok (some (pad_len, rest))

-- `len -= pad_len;` behind its guard. The length is not to become negative.
unfoldable pub cut_padding : Option (ℕ × List ℕ) → Outcome (Option (List ℕ))
cut_padding none = ok none
cut_padding (some (pad_len, rest)) =
    let body : Outcome (Option (List ℕ)) =
      access (leb pad_len (length rest)) >> ok (some (take (length rest - pad_len) rest)) in
    if ltb (length rest) pad_len then ok none else body

-- The padding and the priority of a HEADERS frame are taken off; `none` if they do not fit.
unfoldable pub strip_padding : List ℕ → ℕ → Outcome (Option (List ℕ))
unfolding read_pad_len skip_priority cut_padding
strip_padding bytes flags = do
  padded ← read_pad_len (has_flag flags flag_padded) bytes
  rest ← skip_priority (has_flag flags flag_priority) padded
  cut_padding rest

-- `_http2_process_headers_frame`
unfoldable pub process_headers_frame : Ctx → ℕ → List ℕ → ℕ → ℕ → Outcome Handled
unfolding headers_on_stream strip_padding
process_headers_frame c stream_id bytes flags frame_type =
    let wrong : Outcome Handled = ok (false, with_goaway c rst_protocol_error) in
    let headers : Outcome Handled = strip_padding bytes flags >>= λ o. elim o [
      | none ↦ ok (false, c)
      | some body ↦ headers_on_stream c stream_id body flags true false
    ] in
    let continuation : Outcome Handled =
      headers_on_stream c stream_id bytes flags false c.continuation_refuse_stream in
    let other_flags = not (bit_and flags (255 - flag_end_headers) == 0) in
    if stream_id == 0
    then wrong
    else if frame_type == frame_headers
    then (if c.continuation_active then wrong else headers)
    else if not c.continuation_active || not (c.continuation_stream_id == stream_id)
    then wrong
    else if other_flags
    then wrong
    else continuation
