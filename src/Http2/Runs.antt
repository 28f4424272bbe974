-- ===== src/Http2/Runs.antt =====
-- Concrete runs of src/http_parse/http2.c, and its theorems at concrete inputs.
use smartdns_ui.Prelude.{
  ℕ, ◌≤◌, ◌<◌, ◌≡◌, ◌⊎◌, refl, true, false, none, some, List, [], ◌∷◌, ◌++◌, ok, Ensures, arith,
}
use smartdns_ui.Hpack.Table.Static.{codes}
use smartdns_ui.Http2.Frame.{write_frame_header, read_frame_header, flag_end_stream}
use smartdns_ui.Http2.Frame.RoundTrip.{read_frame_header-write_frame_header}
use smartdns_ui.Http2.Output.{Output, took, again, connected, new_capacity, send_frame}
use smartdns_ui.Http2.Output.Growth.{new_capacity_enough}
use smartdns_ui.Http2.Output.Order.{Delivers, send_frame-Delivers}
use smartdns_ui.Http2.Output.Frames.{send_frames, InOrder, send_frames-InOrder}
use smartdns_ui.Http2.State.{
  Stream, opened, Ctx, Read, chunk, read_again, new_stream, find_stream, create_stream,
  remove_stream,
}
use smartdns_ui.Http2.State.Counted.{IsCounted, Opened, OnCtx, streams-IsCounted}
use smartdns_ui.Http2.Body.{flush_pending_send}
use smartdns_ui.Http2.Body.Flow.{Flushes}
use smartdns_ui.Http2.Body.Flush.{flush_pending_send-Flushes}
use smartdns_ui.Http2.Control.{settings_payload}
use smartdns_ui.Http2.Receive.{has_flag, process_data_frame}
use smartdns_ui.Http2.Receive.Data.{Receives, process_data_frame-Receives}
use smartdns_ui.Http2.Settings.{set_initial_window, settings_loop}
use smartdns_ui.Http2.Settings.Windows.{Takes, set_initial_window-Takes}
use smartdns_ui.Http2.Settings.Agree.{agreed, settings_payload-agreed}
use smartdns_ui.Http2.Headers.{append_header_block, max_header_block_size}
use smartdns_ui.Http2.Headers.Block.{append_header_block-HasRoom}
use smartdns_ui.Http2.Reader.{preface, process_frames}
use smartdns_ui.Http2.Reader.Fill.{Rests}
use smartdns_ui.Http2.Reader.Safe.{process_frames-Rests}
use smartdns_ui.Http2.Start.{ctx_new, ctx_new-Rests}

-- `bio_write` takes three bytes, then would block.
abbrev slow : Output
slow = record {
  status = connected;
  want_write = false;
  pending = 7 ∷ [];
  pending_write_capacity = 16;
  writes = took 1 ∷ took 2 ∷ again ∷ took 9 ∷ [];
  wire = [];
}

sent_in_parts : send_frames slow ((1 ∷ 2 ∷ 3 ∷ []) ∷ (4 ∷ []) ∷ []) ≡ (
  true,
  record {
    status = connected;
    want_write = true;
    pending = 4 ∷ [];
    pending_write_capacity = 16;
    writes = [];
    wire = 7 ∷ 1 ∷ 2 ∷ 3 ∷ [];
  },
)
unfolding send_frames send_frame
sent_in_parts = refl

send_frames-InOrder_example :
    InOrder (7 ∷ 1 ∷ 2 ∷ 3 ∷ 4 ∷ []) (send_frames slow ((1 ∷ 2 ∷ 3 ∷ []) ∷ (4 ∷ []) ∷ []))
send_frames-InOrder_example = send_frames-InOrder slow ((1 ∷ 2 ∷ 3 ∷ []) ∷ (4 ∷ []) ∷ [])

send_frame-Delivers_example : Delivers slow (1 ∷ 2 ∷ 3 ∷ []) (send_frame slow (1 ∷ 2 ∷ 3 ∷ []))
send_frame-Delivers_example = send_frame-Delivers slow (1 ∷ 2 ∷ 3 ∷ [])

new_capacity_enough_example : (c : ℕ) × (new_capacity 8192 0 100000 ≡ some c) × (100000 ≤ c)
new_capacity_enough_example = new_capacity_enough 8192 0 100000 (omega arith) (omega arith)

read_frame_header-write_frame_header_example :
    read_frame_header (write_frame_header 4 8 0 0x80000001 ++ 0 ∷ 0 ∷ 0 ∷ 1 ∷ [])
    ≡ ok (record { length = 4; type = 8; flags = 0; stream_id = 1 })
read_frame_header-write_frame_header_example =
    read_frame_header-write_frame_header 4 8 0 0x80000001 (0 ∷ 0 ∷ 0 ∷ 1 ∷ []) (omega arith)
      (omega arith) (omega arith)

-- A server, and a client's preface, an empty SETTINGS frame and a DATA frame that is cut off
abbrev client_bytes : List Read
client_bytes =
    chunk (preface ++ 0 ∷ 0 ∷ 0 ∷ 4 ∷ 0 ∷ [])
    ∷ chunk (0 ∷ 0 ∷ 0 ∷ 0 ∷ [])
    ∷ read_again
    ∷ chunk (0 ∷ 0 ∷ 9 ∷ [])
    ∷ []

abbrev server : Ctx
server = ctx_new false 2 client_bytes (took 5 ∷ [])

process_frames-Rests_example : Ensures (λ r. Rests r.1) (process_frames server)
process_frames-Rests_example =
    process_frames-Rests server (ctx_new-Rests false 2 client_bytes (took 5 ∷ [])).0

streams-IsCounted_example :
    OnCtx (Opened server 1) (create_stream server 1) × IsCounted (remove_stream server 1)
streams-IsCounted_example =
    streams-IsCounted server 1 (ctx_new-Rests false 2 client_bytes (took 5 ∷ [])).1

-- A stream with five bytes to send in a window of three
abbrev sending : Stream
sending = record (new_stream server 1) {
  state = opened;
  send_window_size = 3;
  pending_send_body = 10 ∷ 11 ∷ 12 ∷ 13 ∷ 14 ∷ [];
  pending_send_end_stream = true;
}

flush_pending_send-Flushes_example :
    Ensures (Flushes server sending) (flush_pending_send server sending)
flush_pending_send-Flushes_example = flush_pending_send-Flushes server sending

abbrev receiving : Stream
receiving = record sending {
  header_list = record { name = codes "content-length"; value = codes "2" } ∷ [];
  recv_window_size = 65535;
}

abbrev with_stream_1 : Ctx
with_stream_1 = record server { streams = receiving ∷ []; recv_conn_window_size = 65535 }

process_data_frame-Receives_example :
    Receives with_stream_1 1 receiving
      (1 ∷ 2 ∷ [])
      (has_flag 1 flag_end_stream)
      (process_data_frame with_stream_1 1 (1 ∷ 2 ∷ []) 1)
process_data_frame-Receives_example =
    process_data_frame-Receives with_stream_1 1 receiving (1 ∷ 2 ∷ []) 1 (omega arith)
      (unfold find_stream in refl) (omega arith) (omega arith)

set_initial_window-Takes_example :
    Takes
      (record with_stream_1 { send_initial_window_size = 65535 })
      1
      (set_initial_window (record with_stream_1 { send_initial_window_size = 65535 }) 1)
set_initial_window-Takes_example =
    set_initial_window-Takes (record with_stream_1 { send_initial_window_size = 65535 }) 1
      (omega arith) (omega arith, tt)

settings_payload-agreed_example :
    settings_loop
      (record with_stream_1 { send_initial_window_size = 65535 })
      (settings_payload true 100)
    ≡ ok (true, agreed (record with_stream_1 { send_initial_window_size = 65535 }) 100)
settings_payload-agreed_example =
    settings_payload-agreed (record with_stream_1 { send_initial_window_size = 65535 }) true 100
      (omega arith, tt) refl (omega arith)

abbrev empty_block : Ctx
empty_block = record server { header_block = []; header_block_capacity = 0 }

append_header_block-HasRoom_example :
    (3 ≤ max_header_block_size
      × ((n : ℕ) × (append_header_block empty_block (1 ∷ 2 ∷ 3 ∷ [])
            ≡ some
                (record empty_block { header_block = 1 ∷ 2 ∷ 3 ∷ []; header_block_capacity = n }))
          × (3 ≤ n)
          × (n ≤ max_header_block_size)))
    ⊎ (max_header_block_size < 3 × (append_header_block empty_block (1 ∷ 2 ∷ 3 ∷ []) ≡ none))
append_header_block-HasRoom_example =
    append_header_block-HasRoom empty_block (1 ∷ 2 ∷ 3 ∷ []) (omega arith)
