-- ===== src/Http2/Body.antt =====
-- How a stream of src/http_parse/http2.c sends its body: the data frame, the bytes that wait for
-- the peer's windows, and their flush. The results are whether the call succeeds, and the context
-- with the stream. `errno` is not modelled: after a failed flush bytes are still pending.
pub mod Flow
pub mod Flush
pub mod Keeps
use smartdns_ui.Prelude.{
  is_positive, ℕ, zero, suc, ◌+◌, ◌-◌, min, Bool, true, false, Option, none, some, List, [], ◌∷◌,
  ◌++◌, length, take, drop, ltb, ◌==◌, ◌&&◌, ◌||◌, not, if◌then◌else◌, Outcome, ok, stuck, ◌>>=◌,
}
use smartdns_ui.Http2.Frame.{write_frame_header, frame_data, flag_end_stream}
use smartdns_ui.Http2.Output.{Output, Sent, new_capacity, send_frame}
use smartdns_ui.Http2.State.{
  Stream, StreamState, opened, half_closed_local, half_closed_remote, closed, Ctx, find_stream,
  put_stream, remove_stream,
}

-- `_http2_send_data_frame`: its frame, and the call
unfoldable pub data_frame : ℕ → List ℕ → Bool → List ℕ
unfolding write_frame_header
data_frame stream_id bytes end_stream =
    write_frame_header (length bytes) frame_data (if end_stream then flag_end_stream else 0)
      stream_id
    ++ bytes

unfoldable pub send_data_frame : Output → ℕ → List ℕ → Bool → Sent
unfolding data_frame send_frame
send_data_frame out stream_id bytes end_stream =
    send_frame out (data_frame stream_id bytes end_stream)

-- `_http2_stream_has_pending_send`
unfoldable pub has_pending_send : Stream → Bool
has_pending_send s =
    ltb s.pending_send_body_offset (length s.pending_send_body)
    || (s.pending_send_end_stream && not s.end_stream_sent)

-- `_http2_stream_clear_pending_send`
abbrev pub clear_pending_send : Stream → Stream
clear_pending_send s = record s {
  pending_send_body = [];
  pending_send_body_size = 0;
  pending_send_body_offset = 0;
  pending_send_end_stream = false;
}

abbrev pub local_end : StreamState → StreamState
local_end opened = half_closed_local
local_end half_closed_remote = closed
local_end state = state

-- `_http2_stream_mark_end_sent`
abbrev pub mark_end_sent : Stream → Stream
mark_end_sent s = record s {
  end_stream_sent = true;
  state = if s.end_stream_sent then s.state else local_end s.state;
}

abbrev pub Flushed : Type 0
Flushed = Bool × (Ctx × Stream)

-- What `_http2_stream_flush_pending_send` does when all bytes are sent.
unfoldable pub flush_end : Ctx → Stream → Flushed
unfolding send_data_frame
flush_end c s =
    let sent : Sent = send_data_frame c.out s.stream_id [] true in
    let c' = record c { out = sent.1 } in
    if s.pending_send_end_stream && not s.end_stream_sent
    then (if sent.0 then (true, (c', clear_pending_send (mark_end_sent s))) else (false, (c', s)))
    else (true, (c, clear_pending_send s))

-- How much of `remain` bytes the windows and the peer's frame size let through.
abbrev pub allowed : Ctx → Stream → ℕ → ℕ
allowed c s remain =
    min (min (min remain s.send_window_size) c.send_conn_window_size) c.peer_max_frame_size

-- `_http2_stream_flush_pending_send`; a round of its loop sends a byte at least.
unfoldable pub flush_loop : ℕ → Ctx → Stream → Outcome Flushed
unfolding flush_end send_data_frame
flush_loop zero c s = stuck
flush_loop (suc fuel) c s =
    let left : List ℕ = drop s.pending_send_body_offset s.pending_send_body in
    let n : ℕ = allowed c s (length left) in
    let end_stream : Bool = s.pending_send_end_stream && (n == length left) in
    let sent : Sent = send_data_frame c.out s.stream_id (take n left) end_stream in
    let c' : Ctx = record c { out = sent.1; send_conn_window_size = c.send_conn_window_size - n } in
    let s' : Stream = record s {
      pending_send_body_offset = s.pending_send_body_offset + n;
      send_window_size = s.send_window_size - n;
    } in
    let rest : Outcome Flushed = flush_loop fuel c' (if end_stream then mark_end_sent s' else s') in
    if length left == 0
    then ok (flush_end c s)
    else if not (is_positive s.send_window_size && is_positive c.send_conn_window_size)
    then ok (false, (c, s))
    else if n == 0
    then ok (false, (c, s))
    else if sent.0
    then rest
    else ok (false, (record c { out = sent.1 }, s))

unfoldable pub flush_pending_send : Ctx → Stream → Outcome Flushed
unfolding flush_loop
flush_pending_send c s = flush_loop (suc (length s.pending_send_body)) c s

-- `_http2_stream_queue_send_body`
unfoldable pub queue_send_body : Stream → List ℕ → Bool → Option Stream
unfolding new_capacity
queue_send_body s bytes end_stream =
    let queued : Option Stream =
      elim (new_capacity 512 s.pending_send_body_size (length s.pending_send_body + length bytes)) [
        | none ↦ none
        | some size ↦ some (record s {
          pending_send_body = s.pending_send_body ++ bytes;
          pending_send_body_size = size;
          pending_send_end_stream = s.pending_send_end_stream || end_stream;
        })
      ] in
    if s.end_stream_sent || s.pending_send_end_stream then none else queued

-- A stream after its flush, back in the table; one that was closed meanwhile is removed.
abbrev pub flushed_ctx : Stream → Flushed → Ctx
flushed_ctx s r =
    let c : Ctx = record r.1.0 { streams = put_stream r.1.0.streams s.stream_id r.1.1 } in
    if not (has_pending_send r.1.1) && r.1.1.close_after_send
    then remove_stream c s.stream_id
    else c

-- `_http2_ctx_flush_pending_send_bodies`, with the streams that are left to visit
unfoldable pub flush_bodies : Ctx → List Stream → Outcome Ctx
unfolding flush_pending_send
flush_bodies c [] = ok c
flush_bodies c (s ∷ streams) =
    let flushed : Outcome Ctx =
      flush_pending_send c s >>= λ r. flush_bodies (flushed_ctx s r) streams in
    let skipped : Outcome Ctx = flush_bodies c streams in
    if has_pending_send s then flushed else skipped
