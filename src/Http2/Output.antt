-- ===== src/Http2/Output.antt =====
-- How src/http_parse/http2.c sends: `_http2_send_frame`, with the buffer of what the peer has not
-- taken yet, and the frames of one call. `bio_write` is the caller's: what it will answer, call by
-- call, is `writes`, and `wire` has the bytes that it took, in order. Memory is never short, and
-- the buffer stays below 2 ^ 31 bytes.
pub mod Growth
pub mod Order
pub mod Frames
use smartdns_ui.Prelude.{
  ℕ, zero, suc, ◌+◌, ◌-◌, ◌*◌, ◌/◌, ◌^◌, min, Bool, true, false, Option, none, some, List, [], ◌∷◌,
  ◌++◌, length, take, drop, ltb, if◌then◌else◌, not, bit_and,
}
use smartdns_ui.Http2.Frame.{
  write_frame_header, write_uint32, frame_data, frame_rst_stream, frame_settings, frame_ping,
  frame_goaway, frame_window_update, flag_end_stream, flag_ack,
}

-- `HTTP2_ERR_*` in `status`, or that it is not negative.
pub data Status : Type 0 where
  connected : Status
  err_eof : Status
  err_io : Status
  err_protocol : Status
  err_http1 : Status

abbrev pub is_open : Status → Bool
is_open connected = true
is_open status = false

-- An answer of `bio_write`: it takes at most so many bytes of those offered, `EAGAIN`, or another
-- error. To take none is the end of the connection. After the last answer it is `EAGAIN` for good.
pub data Write : Type 0 where
  took : ℕ → Write
  again : Write
  error : Write

-- The sending part of `struct http2_ctx`; `pending` is the first `pending_write_len` bytes of
-- `pending_write_buffer`.
pub record Output : Type 0 where
  pub status : Status
  pub want_write : Bool
  pub pending : List ℕ
  pub pending_write_capacity : ℕ
  pub writes : List Write
  pub wire : List ℕ

abbrev pub int_max : ℕ
int_max = 2 ^ 31 - 1

-- `safe_buffer_size` of a capacity that is no negative `int` and a factor that is positive
abbrev pub safe_buffer_size : ℕ → ℕ → Option ℕ
safe_buffer_size current factor =
    if ltb (int_max / factor) current then none else some (current * factor)

-- `while (new_capacity < needed)`: from a capacity of one byte or more 32 rounds are enough, since a
-- capacity doubles until it is too large for an `int`. No caller starts from 0, where the code would
-- not end.
unfoldable pub grow : ℕ → ℕ → ℕ → Option ℕ
grow zero capacity needed = none
grow (suc fuel) capacity needed =
    let doubled : Option ℕ = elim (safe_buffer_size capacity 2) [
      | none ↦ none
      | some c ↦ grow fuel c needed
    ] in
    if ltb capacity needed then doubled else some capacity

-- The capacity that holds `needed` bytes, from the present one.
unfoldable pub new_capacity : ℕ → ℕ → ℕ → Option ℕ
unfolding grow
new_capacity initial capacity needed =
    let doubled : Option ℕ = elim (safe_buffer_size capacity 2) [
      | none ↦ none
      | some c ↦ grow 32 c needed
    ] in
    if ltb capacity needed
    then (if ltb 0 capacity then doubled else grow 32 initial needed)
    else some capacity

-- A result of `len` is `true`, and −1 is `false`.
abbrev pub Sent : Type 0
Sent = Bool × Output

-- `buffer_new_data`
unfoldable pub buffer_new_data : Output → List ℕ → Sent
unfolding new_capacity
buffer_new_data out [] = (true, record out { want_write = true })
buffer_new_data out (b ∷ unsent) =
    let bytes : List ℕ = b ∷ unsent in
    elim (new_capacity 8192 out.pending_write_capacity (length out.pending + length bytes)) [
      | none ↦ (false, out)
      | some capacity ↦ (
        true,
        record out {
          want_write = true;
          pending = out.pending ++ bytes;
          pending_write_capacity = capacity;
        },
      )
    ]

-- `bio_write` takes `n` of the bytes: those, and the rest.
abbrev pub write_bytes : Output → List Write → ℕ → List ℕ → Output
write_bytes out writes n bytes = record out { writes = writes; wire = out.wire ++ take n bytes }

-- `while (total_sent < len)`, with the data that is left. A round uses up an answer.
unfoldable pub send_loop : List Write → Output → List ℕ → Sent
unfolding buffer_new_data
send_loop writes out [] = (true, record out { want_write = false; writes = writes })
send_loop [] out (b ∷ data_left) =
    buffer_new_data (record out { want_write = true; writes = [] }) (b ∷ data_left)
send_loop (again ∷ writes) out (b ∷ data_left) =
    buffer_new_data (record out { want_write = true; writes = writes }) (b ∷ data_left)
send_loop (error ∷ writes) out (b ∷ data_left) =
    (false, record out { status = err_io; writes = writes })
send_loop (took zero ∷ writes) out (b ∷ data_left) =
    (false, record out { status = err_eof; writes = writes })
send_loop (took (suc n) ∷ writes) out (b ∷ data_left) =
    send_loop writes (write_bytes out writes (suc n) (b ∷ data_left)) (drop n data_left)

-- `_http2_send_frame` with bytes pending, by the answer of the first `bio_write`
unfoldable pub send_pending : List Write → Output → List ℕ → List ℕ → Sent
unfolding buffer_new_data send_loop
send_pending [] out pending frame =
    buffer_new_data (record out { want_write = true; writes = [] }) frame
send_pending (again ∷ writes) out pending frame =
    buffer_new_data (record out { want_write = true; writes = writes }) frame
send_pending (error ∷ writes) out pending frame =
    (false, record out { status = err_io; writes = writes })
send_pending (took zero ∷ writes) out pending frame =
    (false, record out { status = err_eof; writes = writes })
send_pending (took (suc n) ∷ writes) out pending frame =
    let out' = record (write_bytes out writes (suc n) pending) { pending = drop (suc n) pending } in
    if ltb (suc n) (length pending)
    then buffer_new_data (record out' { want_write = true }) frame
    else send_loop writes (record out' { want_write = false }) frame

-- `_http2_send_frame`
unfoldable pub send_frame : Output → List ℕ → Sent
unfolding send_pending send_loop
send_frame out frame =
    let sent : Sent = elim out.pending [
      | [] ↦ send_loop out.writes out frame
      | b ∷ pending ↦ send_pending out.writes out (b ∷ pending) frame
    ] in
    if is_open out.status then sent else (false, out)
