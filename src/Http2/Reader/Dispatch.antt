-- ===== src/Http2/Reader/Dispatch.antt =====
-- The `switch` of `_http2_process_frames` of src/http_parse/http2.c on any frame.
use smartdns_ui.Prelude.{
  ℕ, ◌≤◌, ◌≡◌, inl, inr, refl, sym, Bool, true, Option, none, some, List, [], ◌∷◌, ◌++◌, length,
  ltb, ◌==◌, ◌||◌, not, if◌then◌else◌, Option-cases, Outcome, ok, Ensures, Ensures-if, Ensures-bind,
  arith,
}
use mathlib.Core.Path.{subst}
use smartdns_ui.Http2.Frame.{
  FrameHead, read_frame_header, read_uint24, write_frame_header, frame_data, frame_rst_stream,
  frame_settings, frame_ping, frame_goaway, frame_window_update, flag_ack,
}
use smartdns_ui.Http2.Output.{Sent, err_eof, send_frame}
use smartdns_ui.Http2.State.{Stream, closed, Ctx, Read, find_stream}
use smartdns_ui.Http2.Control.{with_protocol_error}
use smartdns_ui.Http2.Receive.{Handled, with_stream, has_flag, process_data_frame}
use smartdns_ui.Http2.Receive.Sound.{IsSound-put, process_data_frame-IsSound}
use smartdns_ui.Http2.Settings.{process_settings_frame, process_window_update_frame}
use smartdns_ui.Http2.Settings.Sound.{input, IsSound, IsSound-same, process_settings_frame-IsSound}
use smartdns_ui.Http2.Settings.Updates.{
  find_stream-IsWord, read_uint32-Returns, process_window_update_frame-IsSound,
}
use smartdns_ui.Http2.Headers.{process_headers_frame, frame_headers, frame_continuation}
use smartdns_ui.Http2.Headers.Sound.{IsReady, IsReady-same}
use smartdns_ui.Http2.Headers.Ready.{process_headers_frame-IsReady}
use smartdns_ui.Http2.Reader.{
  ret_minus, ret_status, with_status, Dispatched, frame_ret, returns, handled, give_up,
  status_or_io, process_ping, process_rst, process_frame, frame_header_size,
}

abbrev pub OnDispatched : (Ctx → Type 0) → Dispatched → Type 0
OnDispatched P (frame_ret b c) = P c
OnDispatched P (returns ret c) = P c

pub read_frame_header-Returns :
    (bytes : List ℕ)
    → frame_header_size ≤ length bytes
    → Ensures (λ _. Unit {0}) (read_frame_header bytes)
unfolding read_frame_header read_uint24
read_frame_header-Returns [] h = absurd (omega arith)
read_frame_header-Returns (a ∷ []) h = absurd (omega arith)
read_frame_header-Returns (a ∷ b ∷ []) h = absurd (omega arith)
read_frame_header-Returns (a ∷ b ∷ c ∷ []) h = absurd (omega arith)
read_frame_header-Returns (a ∷ b ∷ c ∷ d ∷ []) h = absurd (omega arith)
read_frame_header-Returns (a ∷ b ∷ c ∷ d ∷ e ∷ bytes) h =
    Ensures-bind (λ _. Unit {0}) (λ _. Unit {0}) _ _ (read_uint32-Returns bytes (omega arith))
      (λ id k. tt)

-- The frames that leave the input, by the soundness of their handlers
module _ {i : List ℕ × List Read} (c : Ctx) (h : IsReady i c) where
  sound_handled :
      (o : Outcome Handled)
      → Ensures (λ r. IsSound (c.decoder, i) r.1) o
      → Ensures (OnDispatched (IsReady i)) (handled o)
  sound_handled o k =
      Ensures-bind (λ r. IsSound (c.decoder, i) r.1) (OnDispatched (IsReady i)) o _ k
        (λ r s. IsReady-same c.decoder r.1 h.1 s)

  same-IsReady :
      (c' : Ctx)
      → (c'.peer_max_frame_size ≡ c.peer_max_frame_size)
        × (c'.send_initial_window_size ≡ c.send_initial_window_size)
        × (c'.send_conn_window_size ≡ c.send_conn_window_size)
        × (c'.streams ≡ c.streams)
        × (input c' ≡ input c)
      → IsReady i c'
  same-IsReady c' e = IsReady-same c.decoder c' h.1 (IsSound-same c c' e h.0)

  process_ping-IsReady :
      (payload : List ℕ) (flags : ℕ)
      → Ensures (OnDispatched (IsReady i)) (process_ping c payload flags)
  unfolding process_ping
  process_ping-IsReady payload flags =
      let sent : Sent = send_frame c.out (write_frame_header 8 frame_ping flag_ack 0 ++ payload) in
      let c' : Ctx = record c { out = sent.1 } in
      let P : Dispatched → Type 0 = OnDispatched (IsReady i) in
      let echo : Outcome Dispatched = ok (frame_ret true c') in
      let lost : Outcome Dispatched = ok (returns (ret_status (status_or_io c')) c') in
      Ensures-if P (has_flag flags flag_ack) (ok (frame_ret true c)) (if sent.0 then echo else lost)
        (λ e. h)
        (λ e.
          Ensures-if P sent.0 echo lost (λ e. same-IsReady c' (refl, refl, refl, refl, refl))
            (λ e. same-IsReady c' (refl, refl, refl, refl, refl)))

  process_rst-IsReady : (stream_id : ℕ) → IsReady i (process_rst c stream_id)
  unfolding process_rst
  process_rst-IsReady stream_id =
      let rst : Option Stream → Ctx =
        λ o. elim o [ none ↦ c | some s ↦ with_stream c stream_id (record s { state = closed }) ] in
      elim (Option-cases (find_stream c.streams stream_id)) [
        | inl e ↦ subst (λ o. IsReady i (rst o)) (sym e) h
        | inr (s, e) ↦
            subst (λ o. IsReady i (rst o)) (sym e)
              (IsReady-same c.decoder (rst (some s)) h.1 (
                IsSound-put c c stream_id (record s { state = closed })
                  (refl, refl, refl, refl, refl)
                  (find_stream-IsWord c.streams stream_id s h.0.windows e) h.0))
      ]

  pub process_frame-IsReady :
      (f : FrameHead) (payload : List ℕ)
      → Ensures (OnDispatched (IsReady i)) (process_frame c f payload)
  unfolding process_frame
  process_frame-IsReady f payload =
      let P : Dispatched → Type 0 = OnDispatched (IsReady i) in
      let id : ℕ = f.stream_id in
      let on_data : Outcome Dispatched =
        ok (let r = process_data_frame c id payload f.flags in frame_ret r.0 r.1) in
      let headers : Outcome Dispatched =
        handled (process_headers_frame c id payload f.flags f.type) in
      let settings : Outcome Dispatched = handled (process_settings_frame c payload f.flags) in
      let window : Outcome Dispatched = handled (process_window_update_frame c id payload) in
      let ping : Outcome Dispatched = process_ping c payload f.flags in
      let rst : Outcome Dispatched = ok (frame_ret true (process_rst c id)) in
      let short : Outcome Dispatched = ok (returns ret_minus (with_protocol_error c)) in
      let goaway : Outcome Dispatched = ok (frame_ret true (with_status c err_eof)) in
      let ignore : Outcome Dispatched = ok (frame_ret true c) in
      let not_8 : Bool = not (length payload == 8) || not (id == 0) in
      let not_4 : Bool = not (length payload == 4) || id == 0 in
      let on_goaway : Outcome Dispatched = if ltb (length payload) 8 then short else goaway in
      let on_rst : Outcome Dispatched = if not_4 then give_up c else rst in
      let on_ping : Outcome Dispatched = if not_8 then give_up c else ping in
      let on_settings : Outcome Dispatched = if id == 0 then settings else give_up c in
      let from_goaway : Outcome Dispatched = if f.type == frame_goaway then on_goaway else ignore in
      let from_rst : Outcome Dispatched =
        if f.type == frame_rst_stream then on_rst else from_goaway in
      let from_ping : Outcome Dispatched = if f.type == frame_ping then on_ping else from_rst in
      let from_window : Outcome Dispatched =
        if f.type == frame_window_update then window else from_ping in
      let from_settings : Outcome Dispatched =
        if f.type == frame_settings then on_settings else from_window in
      let from_headers : Outcome Dispatched =
        if f.type == frame_headers || f.type == frame_continuation
        then headers
        else from_settings in
      let wrong : Ensures P (give_up c) = same-IsReady _ (refl, refl, refl, refl, refl) in
      Ensures-if P (f.type == frame_data) on_data from_headers
        (λ e. IsReady-same c.decoder _ h.1 (process_data_frame-IsSound c id payload f.flags h.0))
        (λ e.
          Ensures-if P (f.type == frame_headers || f.type == frame_continuation) headers
            from_settings
            (λ e.
              Ensures-bind (λ r. IsReady i r.1) P
                (process_headers_frame c id payload f.flags f.type) _
                (process_headers_frame-IsReady c id payload f.flags f.type h) (λ r k. k))
            (λ e.
              Ensures-if P (f.type == frame_settings) on_settings from_window
                (λ e.
                  Ensures-if P (id == 0) settings (give_up c)
                    (λ e.
                      sound_handled (process_settings_frame c payload f.flags)
                        (process_settings_frame-IsSound c payload f.flags h.0))
                    (λ e. wrong))
                (λ e.
                  Ensures-if P (f.type == frame_window_update) window from_ping
                    (λ e.
                      sound_handled (process_window_update_frame c id payload)
                        (process_window_update_frame-IsSound c id payload h.0))
                    (λ e.
                      Ensures-if P (f.type == frame_ping) on_ping from_rst
                        (λ e.
                          Ensures-if P not_8 (give_up c) ping (λ e. wrong)
                            (λ e. process_ping-IsReady payload f.flags))
                        (λ e.
                          Ensures-if P (f.type == frame_rst_stream) on_rst from_goaway
                            (λ e.
                              Ensures-if P not_4 (give_up c) rst (λ e. wrong)
                                (λ e. process_rst-IsReady id))
                            (λ e.
                              Ensures-if P (f.type == frame_goaway) on_goaway ignore
                                (λ e.
                                  Ensures-if P (ltb (length payload) 8) short goaway
                                    (λ e. same-IsReady _ (refl, refl, refl, refl, refl))
                                    (λ e. same-IsReady _ (refl, refl, refl, refl, refl)))
                                (λ e. h)))))))
