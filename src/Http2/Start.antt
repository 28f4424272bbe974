-- ===== src/Http2/Start.antt =====
-- `http2_ctx_new` of src/http_parse/http2.c: a context as it starts, with what the caller's functions
-- will answer.
use smartdns_ui.Prelude.{ℕ, ◌-◌, ◌^◌, refl, Bool, false, List, [], if◌then◌else◌, arith}
use smartdns_ui.Hpack.Table.{init_context}
use smartdns_ui.Hpack.Header.Safe.{IsLimited}
use smartdns_ui.Http2.Output.{Output, Write, connected, send_frame}
use smartdns_ui.Http2.State.{Ctx, Read}
use smartdns_ui.Http2.State.Counted.{IsCounted}
use smartdns_ui.Http2.Control.{default_window_size, default_max_frame_size, send_settings}
use smartdns_ui.Http2.Reader.{preface}
use smartdns_ui.Http2.Reader.Fill.{Rests}

-- `_http2_ctx_init_common`
unfoldable pub ctx_init_common : Bool → ℕ → List Read → List Write → Ctx
unfolding init_context
ctx_init_common is_client max_concurrent_streams reads writes = record {
  out = record {
    status = connected;
    want_write = false;
    pending = [];
    pending_write_capacity = 0;
    writes = writes;
    wire = [];
  };
  is_client = is_client;
  settings_received = false;
  max_local_stream_id_seen = 0;
  max_peer_stream_id_seen = 0;
  send_conn_window_size = default_window_size;
  recv_conn_window_size = default_window_size;
  peer_max_frame_size = default_max_frame_size;
  peer_max_header_list_size = 65536;
  send_initial_window_size = default_window_size;
  recv_initial_window_size = default_window_size;
  active_local_streams = 0;
  active_peer_streams = 0;
  max_concurrent_streams = max_concurrent_streams;
  peer_max_concurrent_streams = 2 ^ 32 - 1;
  encoder = record init_context { max_dynamic_table_size = 4096 };
  decoder = init_context;
  streams = [];
  io_closed = false;
  preface_received = false;
  want_read = false;
  local_max_frame_size = default_max_frame_size;
  read_buffer = [];
  reads = reads;
  header_block = [];
  header_block_capacity = 0;
  continuation_stream_id = 0;
  continuation_flags = 0;
  continuation_active = false;
  continuation_refuse_stream = false;
}

-- `http2_ctx_new`
unfoldable pub ctx_new : Bool → ℕ → List Read → List Write → Ctx
unfolding ctx_init_common send_frame send_settings
ctx_new is_client max_concurrent_streams reads writes =
    let c = ctx_init_common is_client max_concurrent_streams reads writes in
    let out : Output = if is_client then (send_frame c.out preface).1 else c.out in
    record c { out = (send_settings out is_client max_concurrent_streams false).1 }

init_context-IsLimited : IsLimited init_context
unfolding init_context
init_context-IsLimited = (
  record {
    consistent = record { size_counted = refl; entries_counted = refl; sized = tt };
    fits = omega arith;
  },
  omega arith,
)

-- A context that starts is at rest, and its counters of streams are right.
pub ctx_new-Rests :
    (is_client : Bool) (max_concurrent_streams : ℕ) (reads : List Read) (writes : List Write)
    → Rests (ctx_new is_client max_concurrent_streams reads writes)
      × IsCounted (ctx_new is_client max_concurrent_streams reads writes)
unfolding ctx_new ctx_init_common
ctx_new-Rests is_client m reads writes = (
  (
    (
      record {
        same = refl;
        frame_size = omega arith;
        frame_size_most = omega arith;
        initial = omega arith;
        conn_window = omega arith;
        windows = tt;
      },
      init_context-IsLimited,
    ),
    omega arith,
  ),
  (refl, refl, λ h. omega arith),
)
