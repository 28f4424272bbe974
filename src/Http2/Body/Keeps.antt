-- ===== src/Http2/Body/Keeps.antt =====
-- What a flush of src/http_parse/http2.c leaves alone.
use smartdns_ui.Prelude.{
  is_positive, ℕ, zero, suc, ◌-◌, ◌<◌, ◌≡◌, refl, Bool, true, false, List, [], length, length-drop,
  take, ◌==◌, ◌&&◌, not, if◌then◌else◌, if_cases, Outcome, ok, Ensures, Ensures-if, arith,
}
use smartdns_ui.Http2.Output.{Sent, send_frame}
use smartdns_ui.Http2.State.{Stream, Ctx}
use smartdns_ui.Http2.Body.{
  data_frame, send_data_frame, clear_pending_send, mark_end_sent, Flushed, flush_end, allowed,
  flush_loop, flush_pending_send,
}
use smartdns_ui.Http2.Body.Flow.{unsent}
use smartdns_ui.Http2.Body.Flush.{after_round, length-after_round, no_zero}

-- Of the context, only the output and the connection's window differ.
abbrev pub Unchanged : Ctx → Flushed → Type 0
Unchanged c r =
    r.1.0 ≡ record c { out = r.1.0.out; send_conn_window_size = r.1.0.send_conn_window_size }

flush_end-Unchanged : (c : Ctx) (s : Stream) → Unchanged c (flush_end c s)
unfolding flush_end
flush_end-Unchanged c s =
    let sent : Sent = send_data_frame c.out s.stream_id [] true in
    let c' : Ctx = record c { out = sent.1 } in
    let P : Flushed → Type 0 = Unchanged c in
    let done : Flushed = (true, (c', clear_pending_send (mark_end_sent s))) in
    let failed : Flushed = (false, (c', s)) in
    let none_left : Flushed = (true, (c, clear_pending_send s)) in
    if_cases P (s.pending_send_end_stream && not s.end_stream_sent)
      (if sent.0 then done else failed) none_left
      (λ e. if_cases P sent.0 done failed (λ e. refl) (λ e. refl)) (λ e. refl)

flush_loop-Unchanged :
    (fuel : ℕ) (c : Ctx) (s : Stream)
    → length (unsent s) < fuel
    → Ensures (Unchanged c) (flush_loop fuel c s)
unfolding flush_loop send_data_frame
flush_loop-Unchanged zero c s h = absurd (omega arith)
flush_loop-Unchanged (suc fuel) c s h =
    let left : List ℕ = unsent s in
    let n : ℕ = allowed c s (length left) in
    let ends : Bool = s.pending_send_end_stream && (n == length left) in
    let sent : Sent = send_frame c.out (data_frame s.stream_id (take n left) ends) in
    let c' : Ctx = record c { out = sent.1; send_conn_window_size = c.send_conn_window_size - n } in
    let rest : Outcome Flushed = flush_loop fuel c' (after_round s n ends) in
    let failed : Outcome Flushed = ok (false, (record c { out = sent.1 }, s)) in
    let blocked : Outcome Flushed = ok (false, (c, s)) in
    let P : Flushed → Type 0 = Unchanged c in
    let positive : Bool = is_positive s.send_window_size && is_positive c.send_conn_window_size in
    let sending : Outcome Flushed = if sent.0 then rest else failed in
    let some_bytes : Outcome Flushed = if n == 0 then blocked else sending in
    let windows : Outcome Flushed = if not positive then blocked else some_bytes in
    Ensures-if P (length left == 0) (ok (flush_end c s)) windows (λ e. flush_end-Unchanged c s)
      (λ e₀.
        Ensures-if P (not positive) blocked some_bytes (λ e. refl)
          (λ e₁.
            Ensures-if P (n == 0) blocked sending (λ e. refl)
              (λ e₂.
                Ensures-if P sent.0 rest failed
                  (λ e. flush_loop-Unchanged fuel c' (after_round s n ends) (
                    omega
                      (arith, length-after_round s n ends, no_zero n e₂, no_zero (length left) e₀)))
                  (λ e. refl))))

pub flush_pending_send-Unchanged :
    (c : Ctx) (s : Stream) → Ensures (Unchanged c) (flush_pending_send c s)
unfolding flush_pending_send
flush_pending_send-Unchanged c s =
    flush_loop-Unchanged (suc (length s.pending_send_body)) c s
      (omega (arith, length-drop s.pending_send_body_offset s.pending_send_body))
