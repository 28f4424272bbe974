-- ===== src/Http2/Control.antt =====
-- The control frames that src/http_parse/http2.c sends. `SETTINGS` are six bytes each: the second
-- write of the code begins at the last two bytes of the first.
use smartdns_ui.Prelude.{
  ℕ, ◌*◌, ◌^◌, Bool, List, [], ◌++◌, length, take, ltb, if◌then◌else◌, bit_and,
}
use smartdns_ui.Http2.Frame.{
  write_frame_header, write_uint32, frame_rst_stream, frame_settings, frame_goaway,
  frame_window_update, flag_ack,
}
use smartdns_ui.Http2.Output.{Output, Sent, send_frame, err_protocol}
use smartdns_ui.Http2.State.{Ctx}

-- `HTTP2_RST_*`
abbrev pub rst_protocol_error : ℕ
rst_protocol_error = 1

abbrev pub rst_internal_error : ℕ
rst_internal_error = 2

abbrev pub rst_flow_control_error : ℕ
rst_flow_control_error = 3

abbrev pub rst_stream_closed : ℕ
rst_stream_closed = 5

-- `HTTP2_SETTINGS_*`
abbrev pub settings_header_table_size : ℕ
settings_header_table_size = 0x01

abbrev pub settings_enable_push : ℕ
settings_enable_push = 0x02

abbrev pub settings_max_concurrent_streams : ℕ
settings_max_concurrent_streams = 0x03

abbrev pub settings_initial_window_size : ℕ
settings_initial_window_size = 0x04

abbrev pub settings_max_frame_size : ℕ
settings_max_frame_size = 0x05

abbrev pub settings_max_header_list_size : ℕ
settings_max_header_list_size = 0x06

abbrev pub default_window_size : ℕ
default_window_size = 65535

abbrev pub default_max_frame_size : ℕ
default_max_frame_size = 16384

-- `HPACK_MAX_DYNAMIC_TABLE_SIZE`
abbrev pub max_header_table_size : ℕ
max_header_table_size = 65536

abbrev pub setting : ℕ → ℕ → List ℕ
setting id value = take 2 (write_uint32 (id * 2 ^ 16)) ++ write_uint32 value

-- The payload of `_http2_send_settings` without the acknowledgement
unfoldable pub settings_payload : Bool → ℕ → List ℕ
unfolding write_uint32
settings_payload is_client max_concurrent_streams =
    (if is_client then setting settings_enable_push 0 else [])
    ++ setting settings_header_table_size max_header_table_size
    ++ setting settings_initial_window_size default_window_size
    ++ setting settings_max_frame_size default_max_frame_size
    ++ (if ltb 0 max_concurrent_streams
        then setting settings_max_concurrent_streams max_concurrent_streams
        else [])

-- `_http2_send_settings`
unfoldable pub send_settings : Output → Bool → ℕ → Bool → Sent
unfolding settings_payload write_frame_header send_frame
send_settings out is_client max_concurrent_streams ack =
    let payload = if ack then [] else settings_payload is_client max_concurrent_streams in
    send_frame out (
      write_frame_header (length payload) frame_settings (if ack then flag_ack else 0) 0 ++ payload)

-- `_http2_send_window_update`
unfoldable pub send_window_update : Output → ℕ → ℕ → Sent
unfolding write_frame_header write_uint32 send_frame
send_window_update out stream_id increment = send_frame out (
    write_frame_header 4 frame_window_update 0 stream_id
    ++ write_uint32 (bit_and increment 0x7FFFFFFF))

-- `_http2_send_goaway` without debug data, for stream 0
unfoldable pub send_goaway : Output → ℕ → Sent
unfolding write_frame_header write_uint32 send_frame
send_goaway out error_code =
    send_frame out
      (write_frame_header 8 frame_goaway 0 0 ++ write_uint32 0 ++ write_uint32 error_code)

-- `http2_send_rst_stream`
unfoldable pub send_rst_stream : Output → ℕ → ℕ → Sent
unfolding write_frame_header write_uint32 send_frame
send_rst_stream out stream_id error_code =
    send_frame out (write_frame_header 4 frame_rst_stream 0 stream_id ++ write_uint32 error_code)

-- The code's answers to a frame that is wrong: it tells the peer, and may give the connection up.
abbrev pub with_goaway : Ctx → ℕ → Ctx
with_goaway c error_code = record c {
  out = record (send_goaway c.out error_code).1 { status = err_protocol };
}

abbrev pub with_rst : Ctx → ℕ → ℕ → Ctx
with_rst c stream_id error_code = record c { out = (send_rst_stream c.out stream_id error_code).1 }

abbrev pub with_protocol_error : Ctx → Ctx
with_protocol_error c = record c { out = record c.out { status = err_protocol } }
