-- ===== src/Http2/State.antt =====
-- `struct http2_ctx` and `struct http2_stream` of src/http_parse/http2.c, and the table of the
-- streams. The hash map and the list of a context hold the same streams, a new one first in both:
-- `streams`. An `int` that can be negative is its 32-bit word.
pub mod Counted
use smartdns_ui.Prelude.{
  is_positive, lt32, add32, sub32, ℕ, ◌+◌, ◌-◌, ◌*◌, ◌%◌, ◌^◌, Bool, true, false, Option, none,
  some, List, [], ◌∷◌, ◌++◌, ltb, leb, ◌==◌, ◌&&◌, ◌||◌, not, if◌then◌else◌,
}
use smartdns_ui.Hpack.Table.Static.{Field}
use smartdns_ui.Hpack.Table.{HpackContext}
use smartdns_ui.Http2.Output.{Output}

-- `http2_stream_state_t`
pub data StreamState : Type 0 where
  idle : StreamState
  opened : StreamState
  half_closed_local : StreamState
  half_closed_remote : StreamState
  closed : StreamState

-- `body_buffer` is its first `body_buffer_len` bytes, and `pending_send_body` likewise.
pub record Stream : Type 0 where
  pub stream_id : ℕ
  pub state : StreamState
  pub header_list : List Field
  pub body_buffer : List ℕ
  pub body_buffer_size : ℕ
  pub body_read_offset : ℕ
  pub end_stream_received : Bool
  pub end_stream_sent : Bool
  pub end_stream_read_handled : Bool
  pub accepted : Bool
  pub send_window_size : ℕ
  pub recv_window_size : ℕ
  pub pending_send_body : List ℕ
  pub pending_send_body_size : ℕ
  pub pending_send_body_offset : ℕ
  pub pending_send_end_stream : Bool
  pub close_after_send : Bool

-- An answer of `bio_read`: bytes that have come, of which it gives as many as are asked for and
-- keeps the others, `EAGAIN`, or another error. No bytes are the end of the connection, and after
-- the last answer it is `EAGAIN` for good.
pub data Read : Type 0 where
  chunk : List ℕ → Read
  read_again : Read
  read_error : Read

-- `read_buffer` is its first `read_buffer_len` bytes, and `header_block` likewise; `reads` is what
-- `bio_read` will answer.
pub record Ctx : Type 0 where
  pub out : Output
  pub is_client : Bool
  pub settings_received : Bool
  pub max_local_stream_id_seen : ℕ
  pub max_peer_stream_id_seen : ℕ
  pub send_conn_window_size : ℕ
  pub recv_conn_window_size : ℕ
  pub peer_max_frame_size : ℕ
  pub peer_max_header_list_size : ℕ
  pub send_initial_window_size : ℕ
  pub recv_initial_window_size : ℕ
  pub active_local_streams : ℕ
  pub active_peer_streams : ℕ
  pub max_concurrent_streams : ℕ
  pub peer_max_concurrent_streams : ℕ
  pub encoder : HpackContext
  pub decoder : HpackContext
  pub streams : List Stream
  pub io_closed : Bool
  pub preface_received : Bool
  pub want_read : Bool
  pub local_max_frame_size : ℕ
  pub read_buffer : List ℕ
  pub reads : List Read
  pub header_block : List ℕ
  pub header_block_capacity : ℕ
  pub continuation_stream_id : ℕ
  pub continuation_flags : ℕ
  pub continuation_active : Bool
  pub continuation_refuse_stream : Bool

-- `_http2_is_local_stream_id`
unfoldable pub is_local_stream_id : Bool → ℕ → Bool
is_local_stream_id is_client stream_id =
    not (stream_id == 0) && (if is_client then not (stream_id % 2 == 0) else (stream_id % 2 == 0))

-- `_http2_stream_id_was_seen`
unfoldable pub stream_id_was_seen : Ctx → ℕ → Bool
unfolding is_local_stream_id
stream_id_was_seen c stream_id =
    not (stream_id == 0)
    && (if is_local_stream_id c.is_client stream_id
        then leb stream_id c.max_local_stream_id_seen
        else leb stream_id c.max_peer_stream_id_seen)

-- `_http2_find_stream`
unfoldable pub find_stream : List Stream → ℕ → Option Stream
find_stream [] stream_id = none
find_stream (s ∷ streams) stream_id =
    let rest = find_stream streams stream_id in if s.stream_id == stream_id then some s else rest

-- A change of the stream that `find_stream` gives.
unfoldable pub put_stream : List Stream → ℕ → Stream → List Stream
put_stream [] stream_id s' = []
put_stream (s ∷ streams) stream_id s' =
    let rest = put_stream streams stream_id s' in
    if s.stream_id == stream_id then s' ∷ streams else s ∷ rest

abbrev pub new_stream : Ctx → ℕ → Stream
new_stream c stream_id = record {
  stream_id = stream_id;
  state = idle;
  header_list = [];
  body_buffer = [];
  body_buffer_size = 8192;
  body_read_offset = 0;
  end_stream_received = false;
  end_stream_sent = false;
  end_stream_read_handled = false;
  accepted = if c.is_client then not (stream_id % 2 == 0) else (stream_id % 2 == 0);
  send_window_size = c.send_initial_window_size;
  recv_window_size = c.recv_initial_window_size;
  pending_send_body = [];
  pending_send_body_size = 0;
  pending_send_body_offset = 0;
  pending_send_end_stream = false;
  close_after_send = false;
}

-- `_http2_create_stream`: it is refused when the side that opens it has too many.
unfoldable pub create_stream : Ctx → ℕ → Option Ctx
unfolding is_local_stream_id
create_stream c stream_id =
    let is_local = is_local_stream_id c.is_client stream_id in
    let seen : ℕ → ℕ = λ m. if ltb m stream_id then stream_id else m in
    let local : Ctx = record c {
      max_local_stream_id_seen = seen c.max_local_stream_id_seen;
      streams = new_stream c stream_id ∷ c.streams;
      active_local_streams = c.active_local_streams + 1;
    } in
    let peer : Ctx = record c {
      max_peer_stream_id_seen = seen c.max_peer_stream_id_seen;
      streams = new_stream c stream_id ∷ c.streams;
      active_peer_streams = c.active_peer_streams + 1;
    } in
    let no_local = leb c.peer_max_concurrent_streams c.active_local_streams in
    let no_peer =
      ltb 0 c.max_concurrent_streams && leb c.max_concurrent_streams c.active_peer_streams in
    if is_local
    then (if no_local then none else some local)
    else (if no_peer then none else some peer)

abbrev pub count_removed : Ctx → ℕ → Ctx
count_removed c stream_id =
    if is_local_stream_id c.is_client stream_id
    then record c { active_local_streams = c.active_local_streams - 1 }
    else record c { active_peer_streams = c.active_peer_streams - 1 }

abbrev pub drop_stream : List Stream → ℕ → List Stream
drop_stream [] stream_id = []
drop_stream (s ∷ streams) stream_id =
    let rest = drop_stream streams stream_id in
    if s.stream_id == stream_id then streams else s ∷ rest

-- `_http2_remove_stream` of the stream with this identifier
unfoldable pub remove_stream : Ctx → ℕ → Ctx
unfolding find_stream
remove_stream c stream_id = elim (find_stream c.streams stream_id) [
  | none ↦ c
  | some s ↦ count_removed (record c { streams = drop_stream c.streams stream_id }) stream_id
]
