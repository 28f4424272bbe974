-- ===== src/Http2/Receive/Sound.antt =====
-- What a DATA frame keeps true of a context of src/http_parse/http2.c.
use smartdns_ui.Prelude.{
  add32, sub32, lt32, ℕ, ◌+◌, ◌-◌, ◌*◌, ◌≡◌, refl, Bool, true, false, Option, none, some, List,
  length, ltb, ◌==◌, ◌&&◌, ◌||◌, not, if◌then◌else◌, if_cases, Option-cases, inl, inr, ◌++◌,
}
use mathlib.Core.Path.{subst, sym}
use smartdns_ui.Http2.Frame.{flag_end_stream}
use smartdns_ui.Http2.Output.{Sent, int_max}
use smartdns_ui.Http2.State.{Stream, Ctx, find_stream, put_stream, stream_id_was_seen}
use smartdns_ui.Http2.Control.{
  send_window_update, with_goaway, with_rst, with_protocol_error, rst_protocol_error,
  rst_stream_closed, rst_internal_error, rst_flow_control_error,
}
use smartdns_ui.Http2.Receive.ContentLength.{check_content_length}
use smartdns_ui.Http2.Receive.{
  Handled, with_stream, is_closed, is_remote_end, mark_stream_reset, remote_end, has_flag,
  body_capacity, update_windows, append_data, data_on_stream, process_data_frame,
}
use smartdns_ui.Http2.Settings.Windows.{IsWord}
use smartdns_ui.Http2.Settings.Sound.{Input, input, IsSound, IsSound-same}
use smartdns_ui.Http2.Settings.Updates.{IsSound-streams, put_stream-IsWord, find_stream-IsWord}

-- Another stream is put in, and the fields that soundness reads are as they were.
pub IsSound-put :
    {i : Input} (c c' : Ctx) (stream_id : ℕ) (s : Stream)
    → (c'.peer_max_frame_size ≡ c.peer_max_frame_size)
      × (c'.send_initial_window_size ≡ c.send_initial_window_size)
      × (c'.send_conn_window_size ≡ c.send_conn_window_size)
      × (c'.streams ≡ c.streams)
      × (input c' ≡ input c)
    → IsWord s
    → IsSound i c
    → IsSound i (with_stream c' stream_id s)
IsSound-put c c' stream_id s same w h =
    let h' = IsSound-same c c' same h in
    IsSound-streams c' c'.out c'.send_conn_window_size (put_stream c'.streams stream_id s) h'
      h'.conn_window (put_stream-IsWord c'.streams stream_id s h'.windows w)

append_data-IsSound :
    {i : Input} (c : Ctx) (stream_id : ℕ) (s : Stream) (bytes : List ℕ) (end_stream : Bool)
    (size : ℕ)
    → IsWord s
    → IsSound i c
    → IsSound i (append_data c stream_id s bytes end_stream size).1
unfolding append_data update_windows
append_data-IsSound {i} c stream_id s bytes end_stream size k h =
    let n : ℕ = length bytes in
    let v : ℕ = sub32 c.recv_conn_window_size n in
    let s' : Stream = record s {
      body_buffer = s.body_buffer ++ bytes;
      body_buffer_size = size;
      recv_window_size = sub32 s.recv_window_size n;
      end_stream_received = s.end_stream_received || end_stream;
      state = if end_stream then remote_end s.state else s.state;
    } in
    let grown : Stream = record s' { recv_window_size = add32 s'.recv_window_size n } in
    let conn : Sent = send_window_update c.out 0 n in
    let c₀ : Ctx = record c { recv_conn_window_size = v } in
    let c₁ : Ctx = record c₀ { out = conn.1 } in
    let c₂ : Ctx = record c₁ { recv_conn_window_size = add32 v n } in
    let sent : Sent = send_window_update c₂.out stream_id n in
    let P : Handled → Type 0 = λ r. IsSound i r.1 in
    let empty : Handled = (true, with_stream c₀ stream_id s') in
    let failed : Handled = (false, with_stream c₁ stream_id s') in
    let last : Handled = (true, with_stream c₂ stream_id s') in
    let both : Handled = (true, with_stream (record c₂ { out = sent.1 }) stream_id grown) in
    let half : Handled = (false, with_stream (record c₁ { out = sent.1 }) stream_id s') in
    let on_stream : Handled = if sent.0 then both else half in
    let after_conn : Handled =
      if s'.end_stream_received || is_closed s'.state then last else on_stream in
    let nonempty : Handled = if not conn.0 then failed else after_conn in
    if_cases P (n == 0) empty nonempty
      (λ e. IsSound-put c c₀ stream_id s' (refl, refl, refl, refl, refl) k h)
      (λ e.
        if_cases P (not conn.0) failed after_conn
          (λ e. IsSound-put c c₁ stream_id s' (refl, refl, refl, refl, refl) k h)
          (λ e.
            if_cases P (s'.end_stream_received || is_closed s'.state) last on_stream
              (λ e. IsSound-put c c₂ stream_id s' (refl, refl, refl, refl, refl) k h)
              (λ e.
                if_cases P sent.0 both half
                  (λ e.
                    IsSound-put c (record c₂ { out = sent.1 }) stream_id grown
                      (refl, refl, refl, refl, refl) k h)
                  (λ e.
                    IsSound-put c (record c₁ { out = sent.1 }) stream_id s'
                      (refl, refl, refl, refl, refl) k h))))

data_on_stream-IsSound :
    {i : Input} (c : Ctx) (stream_id : ℕ) (s : Stream) (bytes : List ℕ) (flags : ℕ)
    → IsWord s
    → IsSound i c
    → IsSound i (data_on_stream c stream_id s bytes flags).1
unfolding data_on_stream
data_on_stream-IsSound {i} c stream_id s bytes flags k h =
    let n : ℕ = length bytes in
    let total : ℕ = length s.body_buffer + n in
    let end_stream : Bool = has_flag flags flag_end_stream in
    let rst : ℕ → Ctx = λ code. with_rst c stream_id code in
    let reset : ℕ → Handled =
      λ code. (true, with_stream (rst code) stream_id (mark_stream_reset s)) in
    let P : Handled → Type 0 = λ r. IsSound i r.1 in
    let stop : ℕ → Handled = λ code. (false, with_protocol_error (rst code)) in
    let no_room : Handled = (false, rst rst_internal_error) in
    let take_data : Option ℕ → Handled = λ o. elim o [
      | none ↦ no_room
      | some size ↦ append_data c stream_id s bytes end_stream size
    ] in
    let accepted : Handled = take_data (body_capacity s.body_buffer_size total) in
    let no_window : Bool = lt32 s.recv_window_size n || lt32 c.recv_conn_window_size n in
    let from_window : Handled = if no_window then stop rst_flow_control_error else accepted in
    let too_long : Bool = ltb (1024 * 1024) total in
    let from_limit : Handled = if too_long then stop rst_internal_error else from_window in
    let bad_content : Bool = check_content_length s.header_list total end_stream in
    let from_content : Handled = if bad_content then reset rst_protocol_error else from_limit in
    let too_big : Bool = ltb (int_max - n) (length s.body_buffer) in
    let from_big : Handled = if too_big then no_room else from_content in
    let handled : Bool = is_closed s.state && s.end_stream_read_handled in
    let on_ended : Handled = if handled then reset rst_stream_closed else stop rst_stream_closed in
    let sound_reset : (code : ℕ) → P (reset code) = λ code.
      IsSound-put c (rst code) stream_id (mark_stream_reset s) (refl, refl, refl, refl, refl) k h in
    let sound_stop : (code : ℕ) → P (stop code) =
      λ code. IsSound-same c (stop code).1 (refl, refl, refl, refl, refl) h in
    let sound_room : P no_room = IsSound-same c no_room.1 (refl, refl, refl, refl, refl) h in
    let sound_take : (o : Option ℕ) → P (take_data o) = λ o. elim o as (λ o. P (take_data o)) [
      | none ↦ sound_room
      | some size ↦ append_data-IsSound c stream_id s bytes end_stream size k h
    ] in
    if_cases P (s.end_stream_received || is_remote_end s.state) on_ended from_big
      (λ e.
        if_cases P handled (reset rst_stream_closed) (stop rst_stream_closed)
          (λ e. sound_reset rst_stream_closed) (λ e. sound_stop rst_stream_closed))
      (λ e.
        if_cases P too_big no_room from_content (λ e. sound_room)
          (λ e.
            if_cases P bad_content (reset rst_protocol_error) from_limit
              (λ e. sound_reset rst_protocol_error)
              (λ e.
                if_cases P too_long (stop rst_internal_error) from_window
                  (λ e. sound_stop rst_internal_error)
                  (λ e.
                    if_cases P no_window (stop rst_flow_control_error) accepted
                      (λ e. sound_stop rst_flow_control_error)
                      (λ e. sound_take (body_capacity s.body_buffer_size total))))))

-- A DATA frame keeps what `process_settings_frame-IsSound` says.
pub process_data_frame-IsSound :
    {i : Input} (c : Ctx) (stream_id : ℕ) (bytes : List ℕ) (flags : ℕ)
    → IsSound i c
    → IsSound i (process_data_frame c stream_id bytes flags).1
unfolding process_data_frame
process_data_frame-IsSound {i} c stream_id bytes flags h =
    let P : Handled → Type 0 = λ r. IsSound i r.1 in
    let seen : Handled = (true, with_rst c stream_id rst_stream_closed) in
    let unseen : Handled = (false, with_protocol_error (with_rst c stream_id rst_protocol_error)) in
    let wrong : Handled = (false, with_goaway c rst_protocol_error) in
    let found : Option Stream → Handled = λ o. elim o [
      | none ↦ if stream_id_was_seen c stream_id then seen else unseen
      | some s ↦ data_on_stream c stream_id s bytes flags
    ] in
    let sound_found : P (found (find_stream c.streams stream_id)) =
      elim (Option-cases (find_stream c.streams stream_id)) [
        | inl e ↦
            subst (λ o. P (found o)) (sym e)
              (if_cases P (stream_id_was_seen c stream_id) seen unseen
                (λ e. IsSound-same c seen.1 (refl, refl, refl, refl, refl) h)
                (λ e. IsSound-same c unseen.1 (refl, refl, refl, refl, refl) h))
        | inr (s, e) ↦
            subst (λ o. P (found o)) (sym e)
              (data_on_stream-IsSound c stream_id s bytes flags
                (find_stream-IsWord c.streams stream_id s h.windows e) h)
      ] in
    if_cases P (stream_id == 0) wrong (found (find_stream c.streams stream_id))
      (λ e. IsSound-same c wrong.1 (refl, refl, refl, refl, refl) h) (λ e. sound_found)
