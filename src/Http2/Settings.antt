-- ===== src/Http2/Settings.antt =====
-- `_http2_process_settings_frame` and `_http2_process_window_update_frame` of
-- src/http_parse/http2.c.
pub mod Windows
pub mod Sound
pub mod Agree
pub mod Updates
use smartdns_ui.Prelude.{
  add32, sub32, lt32, ℕ, ◌+◌, ◌-◌, ◌*◌, ◌%◌, ◌^◌, Bool, true, false, Option, none, some, List, [],
  ◌∷◌, length, ltb, ◌==◌, ◌&&◌, ◌||◌, not, if◌then◌else◌, bit_and, bit_or, Outcome, ok, ◌>>=◌,
}
use smartdns_ui.Hpack.Table.{resize_dynamic_table}
use smartdns_ui.Http2.Frame.{read_uint32, flag_ack}
use smartdns_ui.Http2.Output.{Sent, int_max}
use smartdns_ui.Http2.State.{Stream, Ctx, find_stream, put_stream}
use smartdns_ui.Http2.Control.{
  send_settings, with_goaway, with_rst, with_protocol_error, rst_protocol_error,
  rst_flow_control_error, settings_header_table_size, settings_enable_push,
  settings_max_concurrent_streams, settings_initial_window_size, settings_max_frame_size,
  settings_max_header_list_size, max_header_table_size,
}
use smartdns_ui.Http2.Body.{flush_bodies}
use smartdns_ui.Http2.Receive.{Handled, has_flag, with_stream}

abbrev pub int_min : ℕ
int_min = 2 ^ 31

-- A window that `delta` would take out of the range of `int`
abbrev pub overflows : ℕ → ℕ → Bool
overflows window delta =
    (lt32 0 delta && lt32 (sub32 int_max delta) window)
    || (lt32 delta 0 && lt32 window (sub32 int_min delta))

-- `list_for_each_entry` of the change of the initial window: whether no stream overflows. The
-- streams before one that does are changed.
unfoldable pub shift_windows : List Stream → ℕ → Bool × List Stream
shift_windows [] delta = (true, [])
shift_windows (s ∷ streams) delta =
    let rest = shift_windows streams delta in
    let s' : Stream = record s { send_window_size = add32 s.send_window_size delta } in
    if overflows s.send_window_size delta then (false, s ∷ streams) else (rest.0, s' ∷ rest.1)

unfoldable pub set_initial_window : Ctx → ℕ → Handled
unfolding shift_windows
set_initial_window c value =
    let shifted = shift_windows c.streams (sub32 value c.send_initial_window_size) in
    let c' : Ctx = record c { send_initial_window_size = value; streams = shifted.1 } in
    if ltb int_max value
    then (false, with_goaway c rst_flow_control_error)
    else if shifted.0
    then (true, c')
    else (false, with_goaway c' rst_flow_control_error)

-- One setting of the peer
unfoldable pub apply_setting : Ctx → ℕ → ℕ → Handled
unfolding set_initial_window
apply_setting c id value =
    let table_size = if ltb max_header_table_size value then max_header_table_size else value in
    let wrong : Handled = (false, with_goaway c rst_protocol_error) in
    if id == settings_header_table_size
    then (true, record c { encoder = resize_dynamic_table c.encoder table_size })
    else if id == settings_enable_push
    then (if ltb 1 value || (not c.is_client && not (value == 0)) then wrong else (true, c))
    else if id == settings_max_concurrent_streams
    then (true, record c { peer_max_concurrent_streams = value })
    else if id == settings_initial_window_size
    then set_initial_window c value
    else if id == settings_max_frame_size
    then (if ltb value 16384 || ltb 16777215 value
        then wrong
        else (true, record c { peer_max_frame_size = value }))
    else if id == settings_max_header_list_size
    then (true, record c { peer_max_header_list_size = value })
    else (true, c)

-- `while (offset + 6 <= len)`
unfoldable pub settings_loop : Ctx → List ℕ → Outcome Handled
unfolding apply_setting read_uint32
settings_loop c (a ∷ b ∷ v₀ ∷ v₁ ∷ v₂ ∷ v₃ ∷ bytes) = do
  value ← read_uint32 (v₀ ∷ v₁ ∷ v₂ ∷ v₃ ∷ [])
  let r = apply_setting c (bit_or (a * 2 ^ 8) b) value
  let rest = settings_loop r.1 bytes
  if r.0 then rest else ok r
settings_loop c bytes = ok (true, c)

-- `_http2_process_settings_frame`
unfoldable pub process_settings_frame : Ctx → List ℕ → ℕ → Outcome Handled
unfolding settings_loop send_settings
process_settings_frame c bytes flags =
    let wrong : Outcome Handled = ok (false, with_goaway c rst_protocol_error) in
    let settings : Outcome Handled = do
      r ← settings_loop c bytes
      let c' : Ctx = record r.1 { settings_received = true }
      let ack : Sent = send_settings c'.out c'.is_client c'.max_concurrent_streams true
      ok (if r.0 then (ack.0, record c' { out = ack.1 }) else r)
    in if has_flag flags flag_ack
      then (if length bytes == 0 then ok (true, c) else wrong)
      else if not (length bytes % 6 == 0)
      then wrong
      else settings

-- A window that an increment would take out of the range of `int`
abbrev pub is_too_much : ℕ → ℕ → Bool
is_too_much window increment = lt32 (sub32 int_max increment) window

-- The increment of a WINDOW_UPDATE, on the connection or on a stream
unfoldable pub add_window : Ctx → ℕ → ℕ → Handled
unfolding find_stream put_stream
add_window c stream_id increment =
    let conn : Ctx = record c { send_conn_window_size = add32 c.send_conn_window_size increment } in
    let on_stream : Stream → Handled = λ s.
      if is_too_much s.send_window_size increment
      then (false, with_rst c stream_id rst_flow_control_error)
      else (
        true,
        with_stream c stream_id
            (record s { send_window_size = add32 s.send_window_size increment }),
      ) in
    let stream : Handled = elim (find_stream c.streams stream_id) [
      | none ↦ (true, c)
      | some s ↦ on_stream s
    ] in
    if stream_id == 0
    then (if is_too_much c.send_conn_window_size increment
        then (false, with_goaway c rst_flow_control_error)
        else (true, conn))
    else stream

-- `_http2_process_window_update_frame` from the test for an increment of 0 on
unfoldable pub apply_increment : Ctx → ℕ → ℕ → Outcome Handled
unfolding add_window flush_bodies
apply_increment c stream_id increment =
    let r = add_window c stream_id increment in
    let flushed : Outcome Handled = flush_bodies r.1 r.1.streams >>= λ c'. ok (true, c') in
    if increment == 0
    then (if stream_id == 0
        then ok (false, with_goaway c rst_protocol_error)
        else ok (false, with_protocol_error (with_rst c stream_id rst_protocol_error)))
    else if r.0
    then flushed
    else ok r

-- `_http2_process_window_update_frame`
unfoldable pub process_window_update_frame : Ctx → ℕ → List ℕ → Outcome Handled
unfolding apply_increment read_uint32
process_window_update_frame c stream_id bytes =
    let updated : Outcome Handled =
      read_uint32 bytes >>= λ value. apply_increment c stream_id (bit_and value 0x7FFFFFFF) in
    if not (length bytes == 4) then ok (false, with_goaway c rst_protocol_error) else updated
