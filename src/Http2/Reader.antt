-- ===== src/Http2/Reader.antt =====
-- `_http2_process_frames` of src/http_parse/http2.c: the preface of a client, and the frames.
pub mod Fill
pub mod Dispatch
pub mod Safe
use smartdns_ui.Prelude.{
  ℕ, zero, suc, ◌+◌, ◌-◌, ◌*◌, ◌^◌, Bool, true, false, Option, none, some, List, [], ◌∷◌, ◌++◌,
  length, take, drop, ltb, leb, ◌==◌, ◌&&◌, ◌||◌, not, if◌then◌else◌, is_empty, ◌⊎◌, inl, inr,
  Outcome, ok, fail, fault, stuck, ◌>>=◌, ◌>>◌, access,
}
use smartdns_ui.Hpack.Table.Static.{codes}
use smartdns_ui.Http2.Frame.{
  FrameHead, read_frame_header, write_frame_header, frame_data, frame_rst_stream, frame_settings,
  frame_ping, frame_goaway, frame_window_update, flag_ack,
}
use smartdns_ui.Http2.Output.{
  Output, Sent, Status, connected, err_eof, err_io, err_protocol, err_http1, is_open, send_frame,
}
use smartdns_ui.Http2.State.{Stream, closed, Ctx, Read, chunk, read_again, read_error, find_stream}
use smartdns_ui.Http2.Control.{with_goaway, with_protocol_error, rst_protocol_error}
use smartdns_ui.Http2.Receive.{Handled, with_stream, has_flag, process_data_frame}
use smartdns_ui.Http2.Settings.{process_settings_frame, process_window_update_frame}
use smartdns_ui.Http2.Headers.{process_headers_frame, frame_headers, frame_continuation}

-- The results of `_http2_process_frames`: 0, `HTTP2_ERR_EAGAIN`, −1, or the status of the context.
pub data Ret : Type 0 where
  ret_zero : Ret
  ret_again : Ret
  ret_minus : Ret
  ret_status : Status → Ret

-- `bio_read` of at most `n` bytes to the end of `read_buffer`, or why the caller returns.
unfoldable pub read_more : Ctx → ℕ → List Read → Option Ret × Ctx
read_more c n [] = (some ret_again, record c { want_read = true; reads = [] })
read_more c n (read_again ∷ reads) = (some ret_again, record c { want_read = true; reads = reads })
read_more c n (read_error ∷ reads) =
    (some (ret_status err_io), record c { out = record c.out { status = err_io }; reads = reads })
read_more c n (chunk [] ∷ reads) =
    (some (ret_status err_eof), record c { out = record c.out { status = err_eof }; reads = reads })
read_more c n (chunk (b ∷ bytes) ∷ reads) =
    let left : List ℕ = drop n (b ∷ bytes) in
    (
      none,
      record c {
        read_buffer = c.read_buffer ++ take n (b ∷ bytes);
        reads = if is_empty left then reads else chunk left ∷ reads;
      },
    )

-- The buffer is to have `needed` bytes; `short` is what the caller returns when it still does not.
unfoldable pub fill : Ctx → ℕ → Ret → Option Ret × Ctx
unfolding read_more
fill c needed short =
    let r = read_more c (needed - length c.read_buffer) c.reads in
    let after : Option Ret × Ctx = elim r.0 [
      | some ret ↦ r
      | none ↦
          if ltb (length r.1.read_buffer) needed
          then (some short, record r.1 { want_read = true })
          else r
    ] in
    if ltb (length c.read_buffer) needed then after else (none, c)

abbrev pub preface : List ℕ
preface = codes "PRI * HTTP/2.0" ++ 13 ∷ 10 ∷ 13 ∷ 10 ∷ [] ++ codes "SM" ++ 13 ∷ 10 ∷ 13 ∷ 10 ∷ []

-- `memcmp(buffer, bytes, length) == 0`
unfoldable pub starts_with : List ℕ → List ℕ → Bool
starts_with [] buffer = true
starts_with (b ∷ bytes) [] = false
starts_with (b ∷ bytes) (x ∷ buffer) = b == x && starts_with bytes buffer

unfoldable pub looks_like_http1 : List ℕ → Bool
unfolding starts_with
looks_like_http1 buffer =
    starts_with (codes "GET ") buffer
    || starts_with (codes "POST ") buffer
    || starts_with (codes "HEAD ") buffer
    || starts_with (codes "PUT ") buffer
    || starts_with (codes "DELETE ") buffer
    || starts_with (codes "OPTIONS ") buffer
    || starts_with (codes "PATCH ") buffer
    || starts_with (codes "CONNECT ") buffer
    || starts_with (codes "TRACE ") buffer

abbrev pub with_status : Ctx → Status → Ctx
with_status c status = record c { out = record c.out { status = status } }

-- The end of `http2_verify_connection_preface`, once the bytes are read
unfoldable pub check_preface : Option Ret × Ctx → Option Ret × Ctx
unfolding starts_with looks_like_http1
check_preface (some ret, c) = (some ret, c)
check_preface (none, c) =
    let verified : Option Ret × Ctx = (
      none,
      record c { read_buffer = drop (length preface) c.read_buffer; preface_received = true },
    ) in
    if starts_with preface c.read_buffer
    then verified
    else if looks_like_http1 c.read_buffer
    then (some (ret_status err_http1), with_status c err_http1)
    else (some (ret_status err_protocol), with_status c err_protocol)

-- `http2_verify_connection_preface`
unfoldable pub verify_connection_preface : Ctx → Option Ret × Ctx
unfolding fill check_preface
verify_connection_preface c =
    let checked = check_preface (fill c (length preface) ret_again) in
    if c.is_client || c.preface_received then (none, c) else checked

-- What a frame does: it is handled, with `frame_ret`, or the call returns at once.
pub data Dispatched : Type 0 where
  frame_ret : Bool → Ctx → Dispatched
  returns : Ret → Ctx → Dispatched

abbrev pub handled : Outcome Handled → Outcome Dispatched
handled o = o >>= λ r. ok (frame_ret r.0 r.1)

abbrev pub give_up : Ctx → Outcome Dispatched
give_up c = ok (returns (ret_status err_protocol) (with_goaway c rst_protocol_error))

-- `ctx->status < 0 ? ctx->status : HTTP2_ERR_IO`
abbrev pub status_or_io : Ctx → Status
status_or_io c = if is_open c.out.status then err_io else c.out.status

unfoldable pub process_ping : Ctx → List ℕ → ℕ → Outcome Dispatched
unfolding write_frame_header send_frame
process_ping c payload flags =
    let sent : Sent = send_frame c.out (write_frame_header 8 frame_ping flag_ack 0 ++ payload) in
    let c' : Ctx = record c { out = sent.1 } in
    if has_flag flags flag_ack
    then ok (frame_ret true c)
    else if sent.0
    then ok (frame_ret true c')
    else ok (returns (ret_status (status_or_io c')) c')

-- `RST_STREAM` of the peer
unfoldable pub process_rst : Ctx → ℕ → Ctx
unfolding find_stream
process_rst c stream_id = elim (find_stream c.streams stream_id) [
  | none ↦ c
  | some s ↦ with_stream c stream_id (record s { state = closed })
]

-- `switch (type)`
unfoldable pub process_frame : Ctx → FrameHead → List ℕ → Outcome Dispatched
unfolding process_data_frame process_headers_frame process_settings_frame
    process_window_update_frame process_ping process_rst
process_frame c h payload =
    if h.type == frame_data
    then ok (let r = process_data_frame c h.stream_id payload h.flags in frame_ret r.0 r.1)
    else if h.type == frame_headers || h.type == frame_continuation
    then handled (process_headers_frame c h.stream_id payload h.flags h.type)
    else if h.type == frame_settings
    then (if h.stream_id == 0
        then handled (process_settings_frame c payload h.flags)
        else give_up c)
    else if h.type == frame_window_update
    then handled (process_window_update_frame c h.stream_id payload)
    else if h.type == frame_ping
    then (if not (length payload == 8) || not (h.stream_id == 0)
        then give_up c
        else process_ping c payload h.flags)
    else if h.type == frame_rst_stream
    then (if not (length payload == 4) || h.stream_id == 0
        then give_up c
        else ok (frame_ret true (process_rst c h.stream_id)))
    else if h.type == frame_goaway
    then (if ltb (length payload) 8
        then ok (returns ret_minus (with_protocol_error c))
        else ok (frame_ret true (with_status c err_eof)))
    else ok (frame_ret true c)

abbrev pub frame_header_size : ℕ
frame_header_size = 9

abbrev pub read_buffer_size : ℕ
read_buffer_size = 16384 + 9

-- After a frame: its bytes leave the buffer, or the call returns and they stay.
abbrev pub after_frame : ℕ → Dispatched → (Ret × Ctx) ⊎ Ctx
after_frame size (returns ret c) = inl (ret, c)
after_frame size (frame_ret true c) = inr (record c { read_buffer = drop size c.read_buffer })
after_frame size (frame_ret false c) =
    let c' : Ctx = if is_open c.out.status then with_status c err_protocol else c in
    inl (ret_status c'.out.status, c')

-- A frame whose head is in the buffer, from the reading of its payload on. What handles the frame
-- is given the payload as `len` bytes of the buffer, all of which it may read: the buffer is to
-- have them.
unfoldable pub process_payload : Ctx → FrameHead → Outcome ((Ret × Ctx) ⊎ Ctx)
unfolding fill process_frame
process_payload c h =
    let size = frame_header_size + h.length in
    let whole = fill c size ret_zero in
    let handled_frame : Outcome ((Ret × Ctx) ⊎ Ctx) =
      process_frame whole.1 h (take h.length (drop frame_header_size whole.1.read_buffer)) >>= λ d.
      ok (after_frame size d) in
    let frame : Outcome ((Ret × Ctx) ⊎ Ctx) =
      access (leb size (length whole.1.read_buffer)) >> handled_frame in
    elim whole.0 [ some ret ↦ ok (inl (ret, whole.1)) | none ↦ frame ]

-- The tests of the head
unfoldable pub process_head : Ctx → FrameHead → Outcome ((Ret × Ctx) ⊎ Ctx)
unfolding process_payload
process_head c h =
    let payload = process_payload c h in
    if ltb c.local_max_frame_size h.length || ltb (read_buffer_size - frame_header_size) h.length
    then ok (inl (ret_status err_protocol, with_status c err_protocol))
    else if c.continuation_active && not (h.type == frame_continuation)
    then ok (inl (ret_status err_protocol, with_goaway c rst_protocol_error))
    else payload

-- One round of the loop
unfoldable pub process_round : Ctx → Outcome ((Ret × Ctx) ⊎ Ctx)
unfolding fill read_frame_header process_head
process_round c =
    let first = fill c frame_header_size ret_zero in
    elim first.0 [
      | some ret ↦ ok (inl (ret, first.1))
      | none ↦ read_frame_header first.1.read_buffer >>= λ h. process_head first.1 h
    ]

-- `while (1)`
unfoldable pub process_loop : ℕ → Ctx → Outcome (Ret × Ctx)
unfolding process_round
process_loop zero c = stuck
process_loop (suc fuel) c =
    process_round c >>= λ r. elim r [ inl result ↦ ok result | inr c' ↦ process_loop fuel c' ]

-- The bytes that are there or will come: a round that goes on takes nine of them at least.
abbrev pub bytes_of : List Read → ℕ
bytes_of [] = 0
bytes_of (chunk bytes ∷ reads) = length bytes + bytes_of reads
bytes_of (read ∷ reads) = bytes_of reads

-- `_http2_process_frames`
unfoldable pub process_frames : Ctx → Outcome (Ret × Ctx)
unfolding verify_connection_preface process_loop
process_frames c =
    let c₀ : Ctx = record c { want_read = false } in
    let r = verify_connection_preface c₀ in
    let verified : Outcome (Ret × Ctx) = elim r.0 [
      | some ret ↦ ok (ret, r.1)
      | none ↦ process_loop (suc (length r.1.read_buffer + bytes_of r.1.reads)) r.1
    ] in
    if c.io_closed then ok (ret_status c.out.status, c) else verified
