-- ===== src/Http2/Receive.antt =====
-- What src/http_parse/http2.c does with a frame of the peer, less its head: `true` for a result of
-- 0, and the context.
pub mod ContentLength
pub mod Data
pub mod Sound
use smartdns_ui.Prelude.{
  add32, sub32, lt32, ℕ, ◌+◌, ◌-◌, ◌*◌, ◌%◌, ◌^◌, Bool, true, false, Option, none, some, List, [],
  ◌∷◌, ◌++◌, length, ltb, leb, ◌==◌, ◌&&◌, ◌||◌, not, if◌then◌else◌, bit_and, bit_or, Outcome, ok,
  fault, ◌>>=◌,
}
use smartdns_ui.Hpack.Table.{resize_dynamic_table}
use smartdns_ui.Http2.Frame.{read_uint32, flag_ack, flag_end_stream}
use smartdns_ui.Http2.Output.{Output, Sent, safe_buffer_size, grow, int_max}
use smartdns_ui.Http2.State.{
  Stream, StreamState, opened, half_closed_local, half_closed_remote, closed, Ctx, find_stream,
  put_stream, stream_id_was_seen,
}
use smartdns_ui.Http2.Control.{
  send_settings, send_window_update, with_goaway, with_rst, with_protocol_error, rst_protocol_error,
  rst_internal_error, rst_flow_control_error, rst_stream_closed, settings_header_table_size,
  settings_enable_push, settings_max_concurrent_streams, settings_initial_window_size,
  settings_max_frame_size, settings_max_header_list_size, max_header_table_size,
}
use smartdns_ui.Http2.Body.{flush_bodies}
use ContentLength.{check_content_length}

abbrev pub Handled : Type 0
Handled = Bool × Ctx

abbrev pub with_stream : Ctx → ℕ → Stream → Ctx
with_stream c stream_id s = record c { streams = put_stream c.streams stream_id s }

abbrev pub is_closed : StreamState → Bool
is_closed closed = true
is_closed state = false

abbrev pub is_remote_end : StreamState → Bool
is_remote_end half_closed_remote = true
is_remote_end closed = true
is_remote_end state = false

-- `_http2_mark_stream_reset`
abbrev pub mark_stream_reset : Stream → Stream
mark_stream_reset s = record s {
  state = closed;
  end_stream_received = true;
  end_stream_read_handled = true;
  body_buffer = [];
  body_read_offset = 0;
}

-- A stream's state after END_STREAM on a DATA frame
abbrev pub remote_end : StreamState → StreamState
remote_end opened = half_closed_remote
remote_end half_closed_local = closed
remote_end state = state

abbrev pub has_flag : ℕ → ℕ → Bool
has_flag flags flag = not (bit_and flags flag == 0)

-- The capacity of the body buffer after a frame. A stream starts with 8192 bytes, and no operation
-- makes that less; with none the loop of the code would not end. Decompression, which replaces the
-- buffer, is not modelled.
abbrev pub body_capacity : ℕ → ℕ → Option ℕ
body_capacity size needed =
    let doubled : Option ℕ = elim (safe_buffer_size size 2) [
      | none ↦ none
      | some n ↦ grow 32 n needed
    ] in
    if ltb size needed then doubled else some size

-- `_http2_process_data_frame`: the WINDOW_UPDATE frames after the data, by what the connection's
-- one gave. `s` has the data already.
unfoldable pub update_windows : Ctx → ℕ → Stream → ℕ → Handled
unfolding send_window_update put_stream
update_windows c stream_id s len =
    let conn : Sent = send_window_update c.out 0 len in
    let c₁ : Ctx = record c { out = conn.1 } in
    let c₂ : Ctx = record c₁ { recv_conn_window_size = add32 c.recv_conn_window_size len } in
    let sent : Sent = send_window_update c₂.out stream_id len in
    let grown : Stream = record s { recv_window_size = add32 s.recv_window_size len } in
    if len == 0
    then (true, with_stream c stream_id s)
    else if not conn.0
    then (false, with_stream c₁ stream_id s)
    else if s.end_stream_received || is_closed s.state
    then (true, with_stream c₂ stream_id s)
    else if sent.0
    then (true, with_stream (record c₂ { out = sent.1 }) stream_id grown)
    else (false, with_stream (record c₁ { out = sent.1 }) stream_id s)

-- The rest of `_http2_process_data_frame`, once the frame is accepted.
unfoldable pub append_data : Ctx → ℕ → Stream → List ℕ → Bool → ℕ → Handled
unfolding update_windows
append_data c stream_id s bytes end_stream size =
    let c' : Ctx = record c {
      recv_conn_window_size = sub32 c.recv_conn_window_size (length bytes);
    } in
    let s' : Stream = record s {
      body_buffer = s.body_buffer ++ bytes;
      body_buffer_size = size;
      recv_window_size = sub32 s.recv_window_size (length bytes);
      end_stream_received = s.end_stream_received || end_stream;
      state = if end_stream then remote_end s.state else s.state;
    } in
    update_windows c' stream_id s' (length bytes)

-- `_http2_process_data_frame` on the stream that it found
unfoldable pub data_on_stream : Ctx → ℕ → Stream → List ℕ → ℕ → Handled
unfolding append_data put_stream check_content_length
data_on_stream c stream_id s bytes flags =
    let len = length bytes in
    let total = length s.body_buffer + len in
    let end_stream = has_flag flags flag_end_stream in
    let rst : ℕ → Ctx = λ code. with_rst c stream_id code in
    let reset : ℕ → Ctx = λ code. with_stream (rst code) stream_id (mark_stream_reset s) in
    let accepted : Handled = elim (body_capacity s.body_buffer_size total) [
      | none ↦ (false, rst rst_internal_error)
      | some size ↦ append_data c stream_id s bytes end_stream size
    ] in
    if s.end_stream_received || is_remote_end s.state
    then (if is_closed s.state && s.end_stream_read_handled
        then (true, reset rst_stream_closed)
        else (false, with_protocol_error (rst rst_stream_closed)))
    else if ltb (int_max - len) (length s.body_buffer)
    then (false, rst rst_internal_error)
    else if check_content_length s.header_list total end_stream
    then (true, reset rst_protocol_error)
    else if ltb (1024 * 1024) total
    then (false, with_protocol_error (rst rst_internal_error))
    else if lt32 s.recv_window_size len || lt32 c.recv_conn_window_size len
    then (false, with_protocol_error (rst rst_flow_control_error))
    else accepted

-- `_http2_process_data_frame`; padding is not taken off, since the code does not look for it.
unfoldable pub process_data_frame : Ctx → ℕ → List ℕ → ℕ → Handled
unfolding data_on_stream find_stream stream_id_was_seen
process_data_frame c stream_id bytes flags =
    let found : Handled = elim (find_stream c.streams stream_id) [
      | none ↦
          if stream_id_was_seen c stream_id
          then (true, with_rst c stream_id rst_stream_closed)
          else (false, with_protocol_error (with_rst c stream_id rst_protocol_error))
      | some s ↦ data_on_stream c stream_id s bytes flags
    ] in
    if stream_id == 0 then (false, with_goaway c rst_protocol_error) else found
