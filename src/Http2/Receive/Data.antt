-- ===== src/Http2/Receive/Data.antt =====
-- What a DATA frame does to a stream of src/http_parse/http2.c and to the receive windows.
use smartdns_ui.Prelude.{
  add32, sub32, lt32, ℕ, ◌+◌, ◌-◌, ◌*◌, ◌^◌, ◌≤◌, ◌<◌, ◌≡◌, ◌⊎◌, inl, inr, refl, sym, ◌∙◌, Bool,
  true, false, Option, none, some, List, ◌++◌, length, length-append, ltb, ◌==◌, ◌&&◌, ◌||◌, not,
  if◌then◌else◌, if_cases, ==_iff, arith,
}
use mathlib.Core.Bool.{true≢false}
use smartdns_ui.Http2.Output.{Sent, int_max}
use smartdns_ui.Http2.State.{
  Stream, StreamState, idle, opened, half_closed_local, half_closed_remote, closed, Ctx,
  find_stream, put_stream,
}
use smartdns_ui.Http2.Control.{
  send_window_update, with_rst, with_protocol_error, rst_stream_closed, rst_internal_error,
  rst_protocol_error, rst_flow_control_error,
}
use smartdns_ui.Http2.Frame.{flag_end_stream}
use smartdns_ui.Http2.Receive.ContentLength.{check_content_length}
use smartdns_ui.Http2.Receive.{
  Handled, with_stream, is_closed, is_remote_end, mark_stream_reset, remote_end, has_flag,
  body_capacity, update_windows, append_data, data_on_stream, process_data_frame,
}

-- The data is in the stream's buffer, within the limits, and the windows are open again, except
-- the stream's when it has ended.
abbrev pub Accepted : Ctx → Stream → List ℕ → Bool → Ctx → Stream → Type 0
Accepted c s bytes end_stream c' s' =
    (s'.body_buffer ≡ s.body_buffer ++ bytes)
    × (length s'.body_buffer ≤ 1024 * 1024)
    × (check_content_length s.header_list (length s'.body_buffer) end_stream ≡ false)
    × (length bytes ≤ s.recv_window_size)
    × (length bytes ≤ c.recv_conn_window_size)
    × (c'.recv_conn_window_size ≡ c.recv_conn_window_size)
    × (s'.end_stream_received ≡ end_stream)
    × (s'.state ≡ (if end_stream then remote_end s.state else s.state))
    × (s'.recv_window_size + (if end_stream then length bytes else 0) ≡ s.recv_window_size)

-- The stream is reset, and what it had is dropped.
abbrev pub IsReset : Ctx → Stream → Ctx → Stream → Type 0
IsReset c s c' s' =
    (s' ≡ mark_stream_reset s) × (c'.recv_conn_window_size ≡ c.recv_conn_window_size)

abbrev pub Receives : Ctx → ℕ → Stream → List ℕ → Bool → Handled → Type 0
Receives c stream_id s bytes end_stream (true, c') =
    (s' : Stream) × (c'.streams ≡ put_stream c.streams stream_id s')
    × (Accepted c s bytes end_stream c' s' ⊎ IsReset c s c' s')
Receives c stream_id s bytes end_stream (false, c') =
    c'.recv_conn_window_size ≤ c.recv_conn_window_size

window_paid :
    (w n : ℕ)
    → w < 2 ^ 31
    → n ≤ 2 ^ 20
    → lt32 w n ≡ false
    → (n ≤ w) × (sub32 w n ≡ w - n) × (add32 (sub32 w n) n ≡ w)
window_paid w n hw hn e = (ground arith, ground arith, ground arith)

-- What a window lacks once the data is in, by whether the stream has ended.
window_left :
    (end_stream : Bool) (u n w : ℕ)
    → (end_stream ≡ true → u + n ≡ w)
    → (end_stream ≡ false → u ≡ w)
    → u + (if end_stream then n else 0) ≡ w
window_left true u n w f g = f refl
window_left false u n w f g = omega (arith, g refl)

-- A stream that has the data, with a window
abbrev filled : Stream → List ℕ → Bool → ℕ → ℕ → Stream
filled s bytes end_stream size window = record s {
  body_buffer = s.body_buffer ++ bytes;
  body_buffer_size = size;
  recv_window_size = window;
  end_stream_received = s.end_stream_received || end_stream;
  state = if end_stream then remote_end s.state else s.state;
}

-- What the tests before the append leave.
record CanTake (c : Ctx) (s : Stream) (bytes : List ℕ) (end_stream : Bool) : Type 0 where
  not_ended : s.end_stream_received ≡ false
  open_state : is_remote_end s.state ≡ false
  small : length s.body_buffer + length bytes ≤ 1024 * 1024
  content :
      check_content_length s.header_list (length s.body_buffer + length bytes) end_stream ≡ false
  window : s.recv_window_size < 2 ^ 31
  conn_window : c.recv_conn_window_size < 2 ^ 31
  fits : lt32 s.recv_window_size (length bytes) ≡ false
  conn_fits : lt32 c.recv_conn_window_size (length bytes) ≡ false

accept :
    (c c' : Ctx) (s : Stream) (bytes : List ℕ) (end_stream : Bool) (size window : ℕ)
    → CanTake c s bytes end_stream
    → c'.recv_conn_window_size ≡ c.recv_conn_window_size
    → window + (if end_stream then length bytes else 0) ≡ s.recv_window_size
    → Accepted c s bytes end_stream c' (filled s bytes end_stream size window)
accept c c' s bytes end_stream size window can e w =
    let size_is : length (s.body_buffer ++ bytes) ≡ length s.body_buffer + length bytes =
      length-append s.body_buffer bytes in
    let paid =
      window_paid s.recv_window_size (length bytes) can.window (omega (arith, can.small))
        can.fits in
    let conn_paid =
      window_paid c.recv_conn_window_size (length bytes) can.conn_window (omega (arith, can.small))
        can.conn_fits in
    (
      refl,
      omega (arith, can.small, size_is),
      rw size_is can.content,
      paid.0,
      conn_paid.0,
      e,
      rw can.not_ended refl,
      refl,
      w,
    )

ended_iff :
    (received end_stream : Bool) (state : StreamState)
    → received ≡ false
    → is_remote_end state ≡ false
    → (received || end_stream || is_closed (if end_stream then remote_end state else state))
      ≡ end_stream
ended_iff true end_stream state r h = absurd (true≢false r)
ended_iff false true state r h = refl
ended_iff false false idle r h = refl
ended_iff false false opened r h = refl
ended_iff false false half_closed_local r h = refl
ended_iff false false half_closed_remote r h = absurd (true≢false h)
ended_iff false false closed r h = absurd (true≢false h)

append_data-Receives :
    (c : Ctx) (stream_id : ℕ) (s : Stream) (bytes : List ℕ) (end_stream : Bool) (size : ℕ)
    → CanTake c s bytes end_stream
    → Receives c stream_id s bytes end_stream (append_data c stream_id s bytes end_stream size)
unfolding append_data update_windows
append_data-Receives c stream_id s bytes end_stream size can =
    let n : ℕ = length bytes in
    let w : ℕ = sub32 s.recv_window_size n in
    let v : ℕ = sub32 c.recv_conn_window_size n in
    let s' : Stream = filled s bytes end_stream size w in
    let grown : Stream = filled s bytes end_stream size (add32 w n) in
    let conn : Sent = send_window_update c.out 0 n in
    let c₀ : Ctx = record c { recv_conn_window_size = v } in
    let c₁ : Ctx = record c₀ { out = conn.1 } in
    let c₂ : Ctx = record c₁ { recv_conn_window_size = add32 v n } in
    let sent : Sent = send_window_update c₂.out stream_id n in
    let ended : Bool = s'.end_stream_received || is_closed s'.state in
    let P : Handled → Type 0 = Receives c stream_id s bytes end_stream in
    let empty : Handled = (true, with_stream c₀ stream_id s') in
    let failed : Handled = (false, with_stream c₁ stream_id s') in
    let last : Handled = (true, with_stream c₂ stream_id s') in
    let both : Handled = (true, with_stream (record c₂ { out = sent.1 }) stream_id grown) in
    let half : Handled = (false, with_stream (record c₁ { out = sent.1 }) stream_id s') in
    let on_stream : Handled = if sent.0 then both else half in
    let after_conn : Handled = if ended then last else on_stream in
    let nonempty : Handled = if not conn.0 then failed else after_conn in
    let paid = window_paid s.recv_window_size n can.window (omega (arith, can.small)) can.fits in
    let conn_paid =
      window_paid c.recv_conn_window_size n can.conn_window (omega (arith, can.small))
        can.conn_fits in
    let end_is : ended ≡ end_stream =
      ended_iff s.end_stream_received end_stream s.state can.not_ended can.open_state in
    let lower : v ≤ c.recv_conn_window_size = omega (arith, conn_paid.1) in
    let lacks : w + n ≡ s.recv_window_size = omega (arith, paid.0, paid.1) in
    let is_zero : (n == 0) ≡ true → n ≡ 0 = (==_iff n 0).0 in
    if_cases P (n == 0) empty nonempty
      (λ e. (
        s',
        refl,
        inl (
            accept c empty.1 s bytes end_stream size w can (omega (arith, conn_paid.1, is_zero e))
              (window_left end_stream w n _ (λ k. lacks) (λ k. omega (arith, lacks, is_zero e)))),
      ))
      (λ e₀.
        if_cases P (not conn.0) failed after_conn (λ e. lower)
          (λ e₁.
            if_cases P ended last on_stream
              (λ e. (
                s',
                refl,
                inl (
                    accept c last.1 s bytes end_stream size w can conn_paid.2 (
                      window_left end_stream w n _ (λ k. lacks)
                        (λ k. absurd (true≢false (sym e ∙ end_is ∙ k))))),
              ))
              (λ e₂.
                if_cases P sent.0 both half
                  (λ e. (
                    grown,
                    refl,
                    inl (
                        accept c both.1 s bytes end_stream size (add32 w n) can conn_paid.2 (
                          window_left end_stream (add32 w n) n _
                            (λ k. absurd (true≢false (sym (end_is ∙ k) ∙ e₂))) (λ k. paid.2))),
                  ))
                  (λ e. lower))))

pub or-false : (a b : Bool) → (a || b) ≡ false → (a ≡ false) × (b ≡ false)
or-false true b e = absurd (true≢false e)
or-false false b e = (refl, e)

take_data :
    (c : Ctx) (stream_id : ℕ) (s : Stream) (bytes : List ℕ) (end_stream : Bool)
    (capacity : Option ℕ)
    → CanTake c s bytes end_stream
    → Receives c stream_id s bytes end_stream (elim capacity [
      | none ↦ (false, with_rst c stream_id rst_internal_error)
      | some size ↦ append_data c stream_id s bytes end_stream size
    ])
take_data c stream_id s bytes end_stream none can = omega arith
take_data c stream_id s bytes end_stream (some size) can =
    append_data-Receives c stream_id s bytes end_stream size can

-- The tests of a DATA frame, and what each leads to
data_on_stream-Receives :
    (c : Ctx) (stream_id : ℕ) (s : Stream) (bytes : List ℕ) (flags : ℕ)
    → s.recv_window_size < 2 ^ 31
    → c.recv_conn_window_size < 2 ^ 31
    → Receives c stream_id s bytes
        (has_flag flags flag_end_stream)
        (data_on_stream c stream_id s bytes flags)
unfolding data_on_stream
data_on_stream-Receives c stream_id s bytes flags hw hc =
    let n : ℕ = length bytes in
    let total : ℕ = length s.body_buffer + n in
    let end_stream : Bool = has_flag flags flag_end_stream in
    let rst : ℕ → Ctx = λ code. with_rst c stream_id code in
    let reset : ℕ → Ctx = λ code. with_stream (rst code) stream_id (mark_stream_reset s) in
    let P : Handled → Type 0 = Receives c stream_id s bytes end_stream in
    let stop : ℕ → Handled = λ code. (false, with_protocol_error (rst code)) in
    let no_room : Handled = (false, rst rst_internal_error) in
    let accepted : Handled = elim (body_capacity s.body_buffer_size total) [
      | none ↦ no_room
      | some size ↦ append_data c stream_id s bytes end_stream size
    ] in
    let no_window : Bool = lt32 s.recv_window_size n || lt32 c.recv_conn_window_size n in
    let from_window : Handled = if no_window then stop rst_flow_control_error else accepted in
    let too_long : Bool = ltb (1024 * 1024) total in
    let from_limit : Handled = if too_long then stop rst_internal_error else from_window in
    let bad_content : Bool = check_content_length s.header_list total end_stream in
    let from_content : Handled =
      if bad_content then (true, reset rst_protocol_error) else from_limit in
    let too_big : Bool = ltb (int_max - n) (length s.body_buffer) in
    let from_big : Handled = if too_big then no_room else from_content in
    let handled : Bool = is_closed s.state && s.end_stream_read_handled in
    let on_ended : Handled =
      if handled then (true, reset rst_stream_closed) else stop rst_stream_closed in
    let ended : Bool = s.end_stream_received || is_remote_end s.state in
    if_cases P ended on_ended from_big
      (λ e.
        if_cases P handled (true, reset rst_stream_closed) (stop rst_stream_closed)
          (λ e. (mark_stream_reset s, refl, inr (refl, refl))) (λ e. omega arith))
      (λ e₀.
        if_cases P too_big no_room from_content (λ e. omega arith)
          (λ e.
            if_cases P bad_content (true, reset rst_protocol_error) from_limit
              (λ e. (mark_stream_reset s, refl, inr (refl, refl)))
              (λ e₁.
                if_cases P too_long (stop rst_internal_error) from_window (λ e. omega arith)
                  (λ e₂.
                    if_cases P no_window (stop rst_flow_control_error) accepted (λ e. omega arith)
                      (λ e₃.
                        let can : CanTake c s bytes end_stream = record {
                          not_ended = (or-false _ _ e₀).0;
                          open_state = (or-false _ _ e₀).1;
                          small = ground arith;
                          content = e₁;
                          window = hw;
                          conn_window = hc;
                          fits = (or-false _ _ e₃).0;
                          conn_fits = (or-false _ _ e₃).1;
                        } in
                        take_data c stream_id s bytes end_stream
                          (body_capacity s.body_buffer_size total) can)))))

-- A DATA frame for a stream in the table, with both receive windows not negative. If it is taken
-- then either the stream is reset and its body dropped, or the frame's bytes follow the body, which
-- is within 1 MiB and agrees with its content-length (a body that ends is as long as it says); the
-- bytes were within both windows, the connection's window is as before the frame, and so is the
-- stream's unless it has ended; the state changes with END_STREAM only. If the frame is refused,
-- the connection's window is no larger.
pub process_data_frame-Receives :
    (c : Ctx) (stream_id : ℕ) (s : Stream) (bytes : List ℕ) (flags : ℕ)
    → 0 < stream_id
    → find_stream c.streams stream_id ≡ some s
    → s.recv_window_size < 2 ^ 31
    → c.recv_conn_window_size < 2 ^ 31
    → Receives c stream_id s bytes
        (has_flag flags flag_end_stream)
        (process_data_frame c stream_id bytes flags)
unfolding process_data_frame
process_data_frame-Receives c stream_id s bytes flags h f hw hc =
    let nonzero : (stream_id == 0) ≡ false = ground arith in
    rw (nonzero, f) (data_on_stream-Receives c stream_id s bytes flags hw hc)
