-- ===== src/Http2/Body/Flush.antt =====
-- The loop of `_http2_stream_flush_pending_send` of src/http_parse/http2.c.
use smartdns_ui.Prelude.{
  is_positive, ℕ, zero, suc, ◌+◌, ◌-◌, ◌≤◌, ◌<◌, ◌≡◌, inl, inr, refl, ap, sym, ◌∙◌, min, Bool, true,
  false, List, [], ◌∷◌, length, take, drop, ◌==◌, ◌&&◌, not, if◌then◌else◌, drop-drop, suc-eq-zero,
  length-drop, Outcome, ok, Ensures, Ensures-mono, Ensures-if, arith,
}
use mathlib.Core.Path.{subst}
use mathlib.Core.Bool.{true≢false}
use smartdns_ui.Http2.Output.{Output, Sent, send_frame}
use smartdns_ui.Http2.State.{Stream, Ctx}
use smartdns_ui.Http2.Body.{
  data_frame, send_data_frame, mark_end_sent, Flushed, flush_end, allowed, flush_loop,
  flush_pending_send,
}
use smartdns_ui.Http2.Body.Flow.{unsent, Flushes, FlushesFrom, FlushesFrom-after, flush_end-Flushes}

-- A round that sends `n` bytes.
first_round :
    (c : Ctx) (s : Stream) (out : Output) (n : ℕ) (ends done : Bool) (r : Flushed)
    → 0 < n
    → n ≤ allowed c s (length (unsent s))
    → is_positive s.send_window_size && is_positive c.send_conn_window_size ≡ true
    → ends ≡ (s.pending_send_end_stream && (n == length (unsent s)))
    → send_frame c.out (data_frame s.stream_id (take n (unsent s)) ends) ≡ (true, out)
    → (ends ≡ true → done ≡ true)
    → FlushesFrom c.peer_max_frame_size s.stream_id s.pending_send_end_stream done out
        (drop (s.pending_send_body_offset + n) s.pending_send_body)
        (s.send_window_size - n)
        (c.send_conn_window_size - n)
        r
    → Flushes c s r
first_round c s out n ends done r h0 hn hp he e marked f =
    let next : List ℕ → Type 0 = λ left.
      FlushesFrom c.peer_max_frame_size s.stream_id s.pending_send_end_stream done out left
        (s.send_window_size - n) (c.send_conn_window_size - n) r in
    let left : drop (s.pending_send_body_offset + n) s.pending_send_body ≡ drop n (unsent s) =
      sym (drop-drop n s.pending_send_body_offset s.pending_send_body) in
    FlushesFrom-after c.peer_max_frame_size s.stream_id s.pending_send_end_stream s.end_stream_sent
      done c.out out (unsent s) s.send_window_size c.send_conn_window_size n r h0 (omega arith)
      (omega arith) (omega arith) (omega arith) hp (rw (← he) e) (λ k. marked (he ∙ k))
      (subst next left f)

abbrev pub after_round : Stream → ℕ → Bool → Stream
after_round s n ends =
    let s' : Stream = record s {
      pending_send_body_offset = s.pending_send_body_offset + n;
      send_window_size = s.send_window_size - n;
    } in
    if ends then mark_end_sent s' else s'

round-Flushes :
    (c : Ctx) (s : Stream) (out : Output) (n : ℕ) (ends : Bool) (o : Outcome Flushed)
    → 0 < n
    → n ≤ allowed c s (length (unsent s))
    → is_positive s.send_window_size && is_positive c.send_conn_window_size ≡ true
    → ends ≡ (s.pending_send_end_stream && (n == length (unsent s)))
    → send_frame c.out (data_frame s.stream_id (take n (unsent s)) ends) ≡ (true, out)
    → Ensures
        (Flushes
          (record c { out = out; send_conn_window_size = c.send_conn_window_size - n })
          (after_round s n ends))
        o
    → Ensures (Flushes c s) o
round-Flushes c s out n true o h0 hn hp he e h =
    Ensures-mono
      (Flushes (record c { out = out; send_conn_window_size = c.send_conn_window_size - n })
        (after_round s n true))
      (Flushes c s) o h (λ r f. first_round c s out n true true r h0 hn hp he e (λ k. refl) f)
round-Flushes c s out n false o h0 hn hp he e h =
    Ensures-mono
      (Flushes (record c { out = out; send_conn_window_size = c.send_conn_window_size - n })
        (after_round s n false))
      (Flushes c s) o h
      (λ r f.
        first_round c s out n false s.end_stream_sent r h0 hn hp he e
          (λ k. absurd (true≢false (sym k))) f)

unsent_after :
    (s : Stream) (n : ℕ)
    → length (drop (s.pending_send_body_offset + n) s.pending_send_body) ≡ length (unsent s) - n
unsent_after s n =
    ap length (sym (drop-drop n s.pending_send_body_offset s.pending_send_body))
    ∙ length-drop n (unsent s)

pub length-after_round :
    (s : Stream) (n : ℕ) (ends : Bool)
    → length (unsent (after_round s n ends)) ≡ length (unsent s) - n
length-after_round s n true = unsent_after s n
length-after_round s n false = unsent_after s n

no_bytes : (xs : List ℕ) → (length xs == 0) ≡ true → xs ≡ []
no_bytes [] e = refl
no_bytes (x ∷ xs) e = absurd (true≢false (sym e ∙ suc-eq-zero (length xs)))

pub no_zero : (n : ℕ) → (n == 0) ≡ false → 0 < n
no_zero n e = ground arith

not-false : (b : Bool) → not b ≡ false → b ≡ true
not-false true e = refl
not-false false e = sym e

not-true : (b : Bool) → not b ≡ true → b ≡ false
not-true true e = sym e
not-true false e = refl

most_is_zero :
    (l w v m : ℕ)
    → (l == 0) ≡ false
    → not (is_positive w && is_positive v) ≡ false
    → (min (min (min l w) v) m == 0) ≡ true
    → m ≡ 0
most_is_zero l w v m e₀ e₁ e = ground arith

-- No round that is left is a round with nothing to send.
flush_loop-Flushes :
    (fuel : ℕ) (c : Ctx) (s : Stream)
    → length (unsent s) < fuel
    → Ensures (Flushes c s) (flush_loop fuel c s)
unfolding flush_loop send_data_frame
flush_loop-Flushes zero c s h = absurd (omega arith)
flush_loop-Flushes (suc fuel) c s h =
    let left : List ℕ = unsent s in
    let n : ℕ = allowed c s (length left) in
    let ends : Bool = s.pending_send_end_stream && (n == length left) in
    let sent : Sent = send_frame c.out (data_frame s.stream_id (take n left) ends) in
    let c' : Ctx = record c { out = sent.1; send_conn_window_size = c.send_conn_window_size - n } in
    let rest : Outcome Flushed = flush_loop fuel c' (after_round s n ends) in
    let failed : Outcome Flushed = ok (false, (record c { out = sent.1 }, s)) in
    let blocked : Outcome Flushed = ok (false, (c, s)) in
    let P : Flushed → Type 0 = Flushes c s in
    let positive : Bool = is_positive s.send_window_size && is_positive c.send_conn_window_size in
    let sending : Outcome Flushed = if sent.0 then rest else failed in
    let some_bytes : Outcome Flushed = if n == 0 then blocked else sending in
    let windows : Outcome Flushed = if not positive then blocked else some_bytes in
    Ensures-if P (length left == 0) (ok (flush_end c s)) windows
      (λ e. flush_end-Flushes c s (no_bytes left e))
      (λ e₀.
        Ensures-if P (not positive) blocked some_bytes
          (λ e. (
            [],
            refl,
            λ k q. refl,
            omega arith,
            omega arith,
            λ k. absurd (omega arith),
            inl (refl, inl (not-true positive e)),
          ))
          (λ e₁.
            Ensures-if P (n == 0) blocked sending
              (λ e. (
                [],
                refl,
                λ k q. refl,
                omega arith,
                omega arith,
                λ k. absurd (omega arith),
                inl (
                  refl,
                  inr (
                      most_is_zero (length left) s.send_window_size c.send_conn_window_size
                        c.peer_max_frame_size e₀ e₁ e),
                ),
              ))
              (λ e₂.
                Ensures-if P sent.0 rest failed
                  (λ e.
                    round-Flushes c s sent.1 n ends rest (no_zero n e₂) (omega arith)
                      (not-false positive e₁) refl (ap (λ b. (b, sent.1)) e)
                      (flush_loop-Flushes fuel c' (after_round s n ends) (
                        omega (
                          arith,
                          length-after_round s n ends,
                          no_zero n e₂,
                          no_zero (length left) e₀,
                        ))))
                  (λ e. (
                    [],
                    refl,
                    λ k q. refl,
                    omega arith,
                    omega arith,
                    λ k. absurd (omega arith),
                    inr (
                      c.out,
                      refl,
                      data_frame s.stream_id (take n left) ends,
                      ap (λ b. (b, sent.1)) e,
                    ),
                  )))))

-- A flush returns, in at most a round for each byte that is pending. What it sends is the first of
-- those bytes in their order, cut into data frames that the peer's frame size allows; END_STREAM is
-- set on the frame that sends the last byte and on no other, if an end is wanted, and no frame comes
-- after one with it, an empty one neither; with no byte left an end is sent in an empty frame unless
-- it was sent before. Both windows pay for every byte, and none is sent unless both are positive. If the flush succeeds then nothing is
-- pending, and an end that was wanted is sent. If it does not then a window is used up, or the
-- peer takes no frame, or `_http2_send_frame` fails.
pub flush_pending_send-Flushes :
    (c : Ctx) (s : Stream) → Ensures (Flushes c s) (flush_pending_send c s)
unfolding flush_pending_send
flush_pending_send-Flushes c s =
    flush_loop-Flushes (suc (length s.pending_send_body)) c s
      (omega (arith, length-drop s.pending_send_body_offset s.pending_send_body))
