-- ===== src/Http2/Settings/Updates.antt =====
-- The flush after a WINDOW_UPDATE of src/http_parse/http2.c, and what the frame keeps true.
use smartdns_ui.Prelude.{
  add32, ℕ, ◌-◌, ◌^◌, ◌≤◌, ◌<◌, ◌≡◌, refl, sym, true, false, Option, none, some, List, [], ◌∷◌,
  length, ◌==◌, ◌&&◌, not, bit_and, if◌then◌else◌, if_cases, All, Outcome, ok, Ensures, Ensures-if,
  Ensures-bind, Ensures-and, ◌>>=◌, arith,
}
use mathlib.Core.Path.{subst}
use smartdns_ui.Http2.Frame.{read_uint32}
use smartdns_ui.Http2.Output.{Output}
use smartdns_ui.Http2.State.{
  Stream, Ctx, find_stream, put_stream, drop_stream, remove_stream, count_removed,
  is_local_stream_id,
}
use smartdns_ui.Http2.Control.{
  with_goaway, with_rst, with_protocol_error, rst_protocol_error, rst_flow_control_error,
}
use smartdns_ui.Http2.Receive.{Handled, with_stream}
use smartdns_ui.Http2.Body.{
  Flushed, has_pending_send, flush_pending_send, flushed_ctx, flush_bodies,
}
use smartdns_ui.Http2.Body.Flow.{Flushes}
use smartdns_ui.Http2.Body.Flush.{flush_pending_send-Flushes}
use smartdns_ui.Http2.Body.Keeps.{Unchanged, flush_pending_send-Unchanged}
use smartdns_ui.Http2.Settings.{
  is_too_much, add_window, apply_increment, process_window_update_frame,
}
use smartdns_ui.Http2.Settings.Windows.{IsWord}
use smartdns_ui.Http2.Settings.Sound.{Input, IsSound, IsSound-same}

pub put_stream-IsWord :
    (streams : List Stream) (stream_id : ℕ) (s : Stream)
    → All IsWord streams
    → IsWord s
    → All IsWord (put_stream streams stream_id s)
unfolding put_stream
put_stream-IsWord [] stream_id s h w = tt
put_stream-IsWord (t ∷ streams) stream_id s (v, h) w =
    if_cases (All IsWord) (t.stream_id == stream_id) (s ∷ streams)
      (t ∷ put_stream streams stream_id s) (λ e. (w, h))
      (λ e. (v, put_stream-IsWord streams stream_id s h w))

drop_stream-IsWord :
    (streams : List Stream) (stream_id : ℕ)
    → All IsWord streams
    → All IsWord (drop_stream streams stream_id)
drop_stream-IsWord [] stream_id h = tt
drop_stream-IsWord (t ∷ streams) stream_id (v, h) =
    if_cases (All IsWord) (t.stream_id == stream_id) streams (t ∷ drop_stream streams stream_id)
      (λ e. h) (λ e. (v, drop_stream-IsWord streams stream_id h))

abbrev OnSome : (Stream → Type 0) → Option Stream → Type 0
OnSome P none = Unit
OnSome P (some s) = P s

find_stream-OnSome :
    (streams : List Stream) (stream_id : ℕ)
    → All IsWord streams
    → OnSome IsWord (find_stream streams stream_id)
unfolding find_stream
find_stream-OnSome [] stream_id h = tt
find_stream-OnSome (t ∷ streams) stream_id (v, h) =
    if_cases (OnSome IsWord) (t.stream_id == stream_id) (some t) (find_stream streams stream_id)
      (λ e. v) (λ e. find_stream-OnSome streams stream_id h)

pub find_stream-IsWord :
    (streams : List Stream) (stream_id : ℕ) (s : Stream)
    → All IsWord streams
    → find_stream streams stream_id ≡ some s
    → IsWord s
find_stream-IsWord streams stream_id s h e =
    subst (OnSome IsWord) e (find_stream-OnSome streams stream_id h)

-- The streams and the output are new, and the connection's window is a word.
pub IsSound-streams :
    {i : Input} (c : Ctx) (out : Output) (conn_window : ℕ) (streams : List Stream)
    → IsSound i c
    → conn_window < 2 ^ 32
    → All IsWord streams
    → IsSound i (record c { out = out; send_conn_window_size = conn_window; streams = streams })
IsSound-streams c out conn_window streams h w hs = record {
  same = h.same;
  frame_size = h.frame_size;
  frame_size_most = h.frame_size_most;
  initial = h.initial;
  conn_window = w;
  windows = hs;
}

remove_stream-IsSound :
    {i : Input} (c : Ctx) (stream_id : ℕ) → IsSound i c → IsSound i (remove_stream c stream_id)
unfolding remove_stream
remove_stream-IsSound {i} c stream_id h =
    let c' : Ctx = record c { streams = drop_stream c.streams stream_id } in
    let h' : IsSound i c' =
      IsSound-streams c c.out c.send_conn_window_size _ h h.conn_window
        (drop_stream-IsWord c.streams stream_id h.windows) in
    elim (find_stream c.streams stream_id)
      as (λ o. IsSound i (elim o [ none ↦ c | some s ↦ count_removed c' stream_id ])) [
        | none ↦ h
        | some s ↦
            if_cases (IsSound i) (is_local_stream_id c.is_client stream_id)
              (record c' { active_local_streams = c'.active_local_streams - 1 })
              (record c' { active_peer_streams = c'.active_peer_streams - 1 })
              (λ e. IsSound-same c' _ (refl, refl, refl, refl, refl) h')
              (λ e. IsSound-same c' _ (refl, refl, refl, refl, refl) h')
      ]

flushed_ctx-IsSound :
    {i : Input} (c : Ctx) (s : Stream) (r : Flushed)
    → IsWord s
    → IsSound i c
    → Flushes c s r × Unchanged c r
    → IsSound i (flushed_ctx s r)
flushed_ctx-IsSound {i} c s (b, (c', s')) w h
      ((chunks, follows, last, paid, conn_paid, positive, leaves), unchanged) =
    let stored : Ctx = record c' { streams = put_stream c'.streams s.stream_id s' } in
    let h' : IsSound i stored =
      subst (λ x. IsSound i (record x { streams = put_stream x.streams s.stream_id s' }))
        (sym unchanged)
        (IsSound-streams c c'.out c'.send_conn_window_size (put_stream c.streams s.stream_id s') h
          (omega (arith, h.conn_window))
          (put_stream-IsWord c.streams s.stream_id s' h.windows (omega arith))) in
    if_cases (IsSound i) (not (has_pending_send s') && s'.close_after_send)
      (remove_stream stored s.stream_id) stored (λ e. remove_stream-IsSound stored s.stream_id h')
      (λ e. h')

flush_bodies-IsSound :
    {i : Input} (streams : List Stream) (c : Ctx)
    → All IsWord streams
    → IsSound i c
    → Ensures (IsSound i) (flush_bodies c streams)
unfolding flush_bodies
flush_bodies-IsSound {i} [] c hs h = h
flush_bodies-IsSound {i} (s ∷ streams) c (w, hs) h =
    let P : Ctx → Type 0 = IsSound i in
    let Q : Flushed → Type 0 = λ r. Flushes c s r × Unchanged c r in
    let flushed : Outcome Ctx =
      flush_pending_send c s >>= λ r. flush_bodies (flushed_ctx s r) streams in
    Ensures-if P (has_pending_send s) flushed (flush_bodies c streams)
      (λ e.
        Ensures-bind Q P (flush_pending_send c s) _
          (Ensures-and (Flushes c s) (Unchanged c) (flush_pending_send c s)
            (flush_pending_send-Flushes c s) (flush_pending_send-Unchanged c s))
          (λ r k.
            flush_bodies-IsSound streams (flushed_ctx s r) hs (flushed_ctx-IsSound c s r w h k)))
      (λ e. flush_bodies-IsSound streams c hs h)

add_window-IsSound :
    {i : Input} (c : Ctx) (stream_id increment : ℕ)
    → IsSound i c
    → IsSound i (add_window c stream_id increment).1
unfolding add_window
add_window-IsSound {i} c stream_id increment h =
    let P : Handled → Type 0 = λ r. IsSound i r.1 in
    let conn_window : ℕ = add32 c.send_conn_window_size increment in
    let conn : Handled = (true, record c { send_conn_window_size = conn_window }) in
    let refused : Handled = (false, with_goaway c rst_flow_control_error) in
    let rst : Handled = (false, with_rst c stream_id rst_flow_control_error) in
    let known : Stream → Handled = λ s. if is_too_much s.send_window_size increment then rst else (
      true,
      with_stream c stream_id (record s { send_window_size = add32 s.send_window_size increment }),
    ) in
    let stream : Handled = elim (find_stream c.streams stream_id) [
      | none ↦ (true, c)
      | some s ↦ known s
    ] in
    let same_rst : P rst = IsSound-same c _ (refl, refl, refl, refl, refl) h in
    let sound_known : (s : Stream) → P (known s) = λ s.
      let s' : Stream = record s { send_window_size = add32 s.send_window_size increment } in
      if_cases P (is_too_much s.send_window_size increment) rst (true, with_stream c stream_id s')
        (λ e. same_rst)
        (λ e.
          IsSound-streams c c.out c.send_conn_window_size (put_stream c.streams stream_id s') h
            h.conn_window (put_stream-IsWord c.streams stream_id s' h.windows (omega arith))) in
    let sound_stream : P stream =
      elim (find_stream c.streams stream_id)
        as (λ o. P (elim o [ none ↦ (true, c) | some s ↦ known s ])) [
          | none ↦ h
          | some s ↦ sound_known s
        ] in
    if_cases P (stream_id == 0)
      (if is_too_much c.send_conn_window_size increment then refused else conn) stream
      (λ e.
        if_cases P (is_too_much c.send_conn_window_size increment) refused conn
          (λ e. IsSound-same c _ (refl, refl, refl, refl, refl) h)
          (λ e. IsSound-streams c c.out conn_window c.streams h (omega arith) h.windows))
      (λ e. sound_stream)

apply_increment-IsSound :
    {i : Input} (c : Ctx) (stream_id increment : ℕ)
    → IsSound i c
    → Ensures (λ r. IsSound i r.1) (apply_increment c stream_id increment)
unfolding apply_increment
apply_increment-IsSound {i} c stream_id increment h =
    let P : Handled → Type 0 = λ r. IsSound i r.1 in
    let r : Handled = add_window c stream_id increment in
    let sound : P r = add_window-IsSound c stream_id increment h in
    let flushed : Outcome Handled = flush_bodies r.1 r.1.streams >>= λ c'. ok (true, c') in
    let rest : Outcome Handled = if r.0 then flushed else ok r in
    let goaway : Outcome Handled = ok (false, with_goaway c rst_protocol_error) in
    let rst : Outcome Handled =
      ok (false, with_protocol_error (with_rst c stream_id rst_protocol_error)) in
    Ensures-if P (increment == 0) (if stream_id == 0 then goaway else rst) rest
      (λ e.
        Ensures-if P (stream_id == 0) goaway rst
          (λ e. IsSound-same c _ (refl, refl, refl, refl, refl) h)
          (λ e. IsSound-same c _ (refl, refl, refl, refl, refl) h))
      (λ e.
        Ensures-if P r.0 flushed (ok r)
          (λ e.
            Ensures-bind (IsSound i) P (flush_bodies r.1 r.1.streams) _
              (flush_bodies-IsSound r.1.streams r.1 sound.windows sound) (λ c' k. k))
          (λ e. sound))

pub read_uint32-Returns :
    (bytes : List ℕ) → 4 ≤ length bytes → Ensures (λ _. Unit {0}) (read_uint32 bytes)
unfolding read_uint32
read_uint32-Returns [] h = absurd (omega arith)
read_uint32-Returns (a ∷ []) h = absurd (omega arith)
read_uint32-Returns (a ∷ b ∷ []) h = absurd (omega arith)
read_uint32-Returns (a ∷ b ∷ c ∷ []) h = absurd (omega arith)
read_uint32-Returns (a ∷ b ∷ c ∷ d ∷ bytes) h = tt

-- Whatever a WINDOW_UPDATE frame of the peer has, its processing and the flush of all streams after
-- it return, and keep what `process_settings_frame-IsSound` says.
pub process_window_update_frame-IsSound :
    {i : Input} (c : Ctx) (stream_id : ℕ) (bytes : List ℕ)
    → IsSound i c
    → Ensures (λ r. IsSound i r.1) (process_window_update_frame c stream_id bytes)
unfolding process_window_update_frame
process_window_update_frame-IsSound {i} c stream_id bytes h =
    let P : Handled → Type 0 = λ r. IsSound i r.1 in
    let wrong : Outcome Handled = ok (false, with_goaway c rst_protocol_error) in
    let updated : Outcome Handled =
      read_uint32 bytes >>= λ value. apply_increment c stream_id (bit_and value 0x7FFFFFFF) in
    Ensures-if P (not (length bytes == 4)) wrong updated
      (λ e. IsSound-same c _ (refl, refl, refl, refl, refl) h)
      (λ e.
        Ensures-bind (λ _. Unit {0}) P (read_uint32 bytes) _
          (read_uint32-Returns bytes (ground arith))
          (λ value k. apply_increment-IsSound c stream_id (bit_and value 0x7FFFFFFF) h))
