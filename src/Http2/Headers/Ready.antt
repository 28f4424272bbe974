-- ===== src/Http2/Headers/Ready.antt =====
-- `_http2_process_headers_frame` of src/http_parse/http2.c on any frame.
use smartdns_ui.Prelude.{
  ℕ, ◌+◌, ◌^◌, ◌<◌, ◌≡◌, refl, sym, Bool, true, false, Option, none, some, List, [], ◌∷◌, ltb, leb,
  ◌==◌, ◌&&◌, ◌||◌, not, bit_and, ◌-◌, if◌then◌else◌, if_cases, Option-cases, inl, inr, Outcome, ok,
  Ensures, Ensures-if, Ensures-bind, le→leb, length, ◌>>=◌, arith,
}
use mathlib.Core.Path.{subst}
use smartdns_ui.Http2.State.{
  Stream, Ctx, Read, find_stream, create_stream, new_stream, is_local_stream_id,
}
use smartdns_ui.Http2.Control.{
  with_goaway, with_rst, with_protocol_error, rst_protocol_error, rst_stream_closed,
}
use smartdns_ui.Http2.Output.Growth.{ltb-false→le}
use smartdns_ui.Http2.Receive.{has_flag, Handled, with_stream, is_closed, mark_stream_reset}
use smartdns_ui.Http2.Receive.Sound.{IsSound-put}
use smartdns_ui.Http2.Settings.Windows.{IsWord}
use smartdns_ui.Http2.Settings.Sound.{Input, input, IsSound, IsSound-same}
use smartdns_ui.Http2.Settings.Updates.{find_stream-IsWord}
use smartdns_ui.Http2.Headers.{
  add_block, headers_on_stream, read_pad_len, skip_priority, cut_padding, flag_padded,
  flag_priority, strip_padding, process_headers_frame, frame_headers, flag_end_headers,
}
use smartdns_ui.Http2.Headers.Sound.{OnCtx, IsReady, IsReady-same, add_block-IsReady}

create_stream-IsSound :
    {i : Input} (c : Ctx) (stream_id : ℕ)
    → IsSound i c
    → OnCtx (IsSound i) (create_stream c stream_id)
unfolding create_stream
create_stream-IsSound {i} c stream_id h =
    let seen : ℕ → ℕ = λ m. if ltb m stream_id then stream_id else m in
    let local : Ctx = record c {
      max_local_stream_id_seen = seen c.max_local_stream_id_seen;
      streams = new_stream c stream_id ∷ c.streams;
      active_local_streams = c.active_local_streams + 1;
    } in
    let peer : Ctx = record c {
      max_peer_stream_id_seen = seen c.max_peer_stream_id_seen;
      streams = new_stream c stream_id ∷ c.streams;
      active_peer_streams = c.active_peer_streams + 1;
    } in
    let no_local : Bool = leb c.peer_max_concurrent_streams c.active_local_streams in
    let no_peer : Bool =
      ltb 0 c.max_concurrent_streams && leb c.max_concurrent_streams c.active_peer_streams in
    let P : Option Ctx → Type 0 = OnCtx (IsSound i) in
    let word : c.send_initial_window_size < 2 ^ 32 = omega (arith, h.initial) in
    let with_new : (c' : Ctx)
        → c'.peer_max_frame_size ≡ c.peer_max_frame_size
        → c'.send_initial_window_size ≡ c.send_initial_window_size
        → c'.send_conn_window_size ≡ c.send_conn_window_size
        → c'.streams ≡ new_stream c stream_id ∷ c.streams
        → input c' ≡ input c
        → IsSound i c' =
      λ c' f k w s n.
        IsSound-same (record c { streams = new_stream c stream_id ∷ c.streams }) c' (f, k, w, s, n)
          (record {
            same = h.same;
            frame_size = h.frame_size;
            frame_size_most = h.frame_size_most;
            initial = h.initial;
            conn_window = h.conn_window;
            windows = (word, h.windows);
          }) in
    if_cases P (is_local_stream_id c.is_client stream_id) (if no_local then none else some local)
      (if no_peer then none else some peer)
      (λ e.
        if_cases P no_local none (some local) (λ e. tt)
          (λ e. with_new local refl refl refl refl refl))
      (λ e.
        if_cases P no_peer none (some peer) (λ e. tt) (λ e. with_new peer refl refl refl refl refl))

headers_on_stream-IsReady :
    {i : List ℕ × List Read} (c : Ctx) (stream_id : ℕ) (bytes : List ℕ) (flags : ℕ)
    (is_headers refuse : Bool)
    → IsReady i c
    → Ensures (λ r. IsReady i r.1) (headers_on_stream c stream_id bytes flags is_headers refuse)
unfolding headers_on_stream
headers_on_stream-IsReady {i} c stream_id bytes flags is_headers refuse h =
    let P : Handled → Type 0 = λ r. IsReady i r.1 in
    let full : Bool =
      ltb 0 c.max_concurrent_streams && leb c.max_concurrent_streams c.active_peer_streams in
    let refused : Bool = refuse || (is_headers && full) in
    let fresh : Stream = new_stream c stream_id in
    let word : IsWord fresh = omega (arith, h.0.initial) in
    let tmp : Outcome Handled = add_block c stream_id fresh true true bytes flags is_headers in
    let create : Option Ctx → Outcome Handled = λ o. elim o [
      | none ↦ ok (false, c)
      | some c' ↦ add_block c' stream_id fresh false false bytes flags is_headers
    ] in
    let created : Outcome Handled = create (create_stream c stream_id) in
    let sound_created : Ensures P created =
      elim (create_stream c stream_id)
          as (λ o. OnCtx (IsSound (c.decoder, i)) o → Ensures P (create o)) [
            | none ↦ λ k. h
            | some c' ↦ λ k.
                add_block-IsReady c' stream_id fresh false false bytes flags is_headers word
                  (IsReady-same c.decoder c' h.1 k)
          ]
        (create_stream-IsSound c stream_id h.0) in
    let goaway : Outcome Handled = ok (false, with_goaway c rst_protocol_error) in
    let unknown : Outcome Handled =
      if not is_headers && not refuse then goaway else if refused then tmp else created in
    let sound_unknown : Ensures P unknown =
      Ensures-if P (not is_headers && not refuse) goaway (if refused then tmp else created)
        (λ e. IsReady-same c.decoder _ h.1 (IsSound-same c _ (refl, refl, refl, refl, refl) h.0))
        (λ e.
          Ensures-if P refused tmp created
            (λ e. add_block-IsReady c stream_id fresh true true bytes flags is_headers word h)
            (λ e. sound_created)) in
    let known : Stream → Outcome Handled = λ s.
      (let rst : Ctx = with_rst c stream_id rst_stream_closed in
        let ended : Handled =
          if is_closed s.state && s.end_stream_read_handled
          then (true, with_stream rst stream_id (mark_stream_reset s))
          else (false, with_protocol_error rst) in
        let added = add_block c stream_id s false refuse bytes flags is_headers in
        if s.end_stream_received || is_closed s.state then ok ended else added) in
    let sound_known : (s : Stream) → IsWord s → Ensures P (known s) = λ s w.
      let rst : Ctx = with_rst c stream_id rst_stream_closed in
      let reset : Handled = (true, with_stream rst stream_id (mark_stream_reset s)) in
      let stop : Handled = (false, with_protocol_error rst) in
      let handled : Bool = is_closed s.state && s.end_stream_read_handled in
      Ensures-if P (s.end_stream_received || is_closed s.state)
        (ok (if handled then reset else stop))
        (add_block c stream_id s false refuse bytes flags is_headers)
        (λ e.
          if_cases P handled reset stop
            (λ e. IsReady-same c.decoder reset.1 h.1 (
              IsSound-put c rst stream_id (mark_stream_reset s) (refl, refl, refl, refl, refl) w
                h.0))
            (λ e.
              IsReady-same c.decoder stop.1 h.1
                (IsSound-same c stop.1 (refl, refl, refl, refl, refl) h.0)))
        (λ e. add_block-IsReady c stream_id s false refuse bytes flags is_headers w h) in
    let found : Option Stream → Outcome Handled =
      λ o. elim o [ none ↦ unknown | some s ↦ known s ] in
    elim (Option-cases (find_stream c.streams stream_id)) [
      | inl e ↦ subst (λ o. Ensures P (found o)) (sym e) sound_unknown
      | inr (s, e) ↦
          subst (λ o. Ensures P (found o)) (sym e)
            (sound_known s (find_stream-IsWord c.streams stream_id s h.0.windows e))
    ]

read_pad_len-Ensures :
    (padded : Bool) (bytes : List ℕ) → Ensures (λ o. Unit {0}) (read_pad_len padded bytes)
unfolding read_pad_len
read_pad_len-Ensures false bytes = tt
read_pad_len-Ensures true [] = tt
read_pad_len-Ensures true (b ∷ bytes) =
    Ensures-if (λ o. Unit {0}) (ltb (length (b ∷ bytes)) 1) (ok none) (ok (some (b, bytes)))
      (λ e. tt) (λ e. tt)

skip_priority-Ensures :
    (has : Bool) (o : Option (ℕ × List ℕ)) → Ensures (λ o. Unit {0}) (skip_priority has o)
unfolding skip_priority
skip_priority-Ensures has none = tt
skip_priority-Ensures false (some (p, rest)) = tt
skip_priority-Ensures true (some (p, rest)) =
    Ensures-if (λ o. Unit {0}) (ltb (length rest) 5) (ok none) _ (λ e. tt)
      (λ e. rw (le→leb 5 (length rest) (ltb-false→le _ _ e)) tt)

cut_padding-Ensures : (o : Option (ℕ × List ℕ)) → Ensures (λ o. Unit {0}) (cut_padding o)
unfolding cut_padding
cut_padding-Ensures none = tt
cut_padding-Ensures (some (p, rest)) =
    Ensures-if (λ o. Unit {0}) (ltb (length rest) p) (ok none) _ (λ e. tt)
      (λ e. rw (le→leb p (length rest) (ltb-false→le _ _ e)) tt)

-- No byte is read that is not there.
strip_padding-Ensures :
    (bytes : List ℕ) (flags : ℕ) → Ensures (λ o. Unit {0}) (strip_padding bytes flags)
unfolding strip_padding
strip_padding-Ensures bytes flags =
    Ensures-bind (λ o. Unit {0}) (λ o. Unit {0}) (read_pad_len (has_flag flags flag_padded) bytes) _
      (read_pad_len-Ensures (has_flag flags flag_padded) bytes)
      (λ padded k.
        Ensures-bind (λ o. Unit {0}) (λ o. Unit {0})
          (skip_priority (has_flag flags flag_priority) padded) _
          (skip_priority-Ensures (has_flag flags flag_priority) padded)
          (λ rest k. cut_padding-Ensures rest))

-- Whatever a HEADERS or CONTINUATION frame of the peer has, its processing returns, and the context
-- is sound and its decoder's table in order, after an error too.
pub process_headers_frame-IsReady :
    {i : List ℕ × List Read} (c : Ctx) (stream_id : ℕ) (bytes : List ℕ) (flags frame_type : ℕ)
    → IsReady i c
    → Ensures (λ r. IsReady i r.1) (process_headers_frame c stream_id bytes flags frame_type)
unfolding process_headers_frame
process_headers_frame-IsReady {i} c stream_id bytes flags frame_type h =
    let P : Handled → Type 0 = λ r. IsReady i r.1 in
    let wrong : Outcome Handled = ok (false, with_goaway c rst_protocol_error) in
    let strip : Option (List ℕ) → Outcome Handled = λ o. elim o [
      | none ↦ ok (false, c)
      | some body ↦ headers_on_stream c stream_id body flags true false
    ] in
    let headers : Outcome Handled = strip_padding bytes flags >>= strip in
    let continuation : Outcome Handled =
      headers_on_stream c stream_id bytes flags false c.continuation_refuse_stream in
    let other_flags : Bool = not (bit_and flags (255 - flag_end_headers) == 0) in
    let mismatch : Bool =
      not c.continuation_active || not (c.continuation_stream_id == stream_id) in
    let tested : Outcome Handled = if other_flags then wrong else continuation in
    let from_continuation : Outcome Handled = if mismatch then wrong else tested in
    let from_headers : Outcome Handled = if c.continuation_active then wrong else headers in
    let sound_wrong : P (false, with_goaway c rst_protocol_error) =
      IsReady-same c.decoder _ h.1 (IsSound-same c _ (refl, refl, refl, refl, refl) h.0) in
    Ensures-if P (stream_id == 0) wrong
      (if frame_type == frame_headers then from_headers else from_continuation) (λ e. sound_wrong)
      (λ e.
        Ensures-if P (frame_type == frame_headers) from_headers from_continuation
          (λ e.
            Ensures-if P c.continuation_active wrong headers (λ e. sound_wrong)
              (λ e.
                Ensures-bind (λ o. Unit {0}) P (strip_padding bytes flags) strip
                  (strip_padding-Ensures bytes flags)
                  (λ o k. elim o as (λ o. Ensures P (strip o)) [
                    | none ↦ h
                    | some body ↦ headers_on_stream-IsReady c stream_id body flags true false h
                  ])))
          (λ e.
            Ensures-if P mismatch wrong tested (λ e. sound_wrong)
              (λ e.
                Ensures-if P other_flags wrong continuation (λ e. sound_wrong)
                  (λ e.
                    headers_on_stream-IsReady c stream_id bytes flags false
                      c.continuation_refuse_stream h))))
