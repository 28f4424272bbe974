-- ===== src/Http2/Settings/Sound.antt =====
-- What the settings and the window updates of a peer keep true of a context of
-- src/http_parse/http2.c.
use smartdns_ui.Prelude.{
  sub32, ℕ, ◌*◌, ◌%◌, ◌^◌, ◌≤◌, ◌<◌, ◌≡◌, refl, ◌∙◌, Bool, true, false, List, [], ◌∷◌, ltb, ◌==◌,
  ◌&&◌, ◌||◌, not, length, if◌then◌else◌, bit_or, All, Bool-cases, if_cases, inl, inr, Outcome, ok,
  Ensures, Ensures-if, Ensures-bind, ◌>>=◌, arith,
}
use smartdns_ui.Http2.State.{Stream, Ctx, Read}
use smartdns_ui.Http2.Output.{Output, Sent, int_max}
use smartdns_ui.Http2.Control.{
  send_settings, with_goaway, rst_flow_control_error, rst_protocol_error,
  settings_header_table_size, settings_enable_push, settings_max_concurrent_streams,
  settings_initial_window_size, settings_max_frame_size, settings_max_header_list_size,
  max_header_table_size,
}
use smartdns_ui.Http2.Receive.{Handled, has_flag}
use smartdns_ui.Hpack.Table.{HpackContext, resize_dynamic_table}
use smartdns_ui.Http2.Frame.{read_uint32, flag_ack}
use smartdns_ui.Http2.Settings.{
  overflows, shift_windows, set_initial_window, apply_setting, settings_loop,
  process_settings_frame,
}
use smartdns_ui.Http2.Settings.Windows.{IsWord}

-- What the frames that carry no headers leave as it is
abbrev pub Input : Type 0
Input = HpackContext × (List ℕ × List Read)

abbrev pub input : Ctx → Input
input c = (c.decoder, (c.read_buffer, c.reads))

-- The input is `i`, the peer's limits are as RFC 9113 has them, and the windows are words.
pub record IsSound (i : Input) (c : Ctx) : Type 0 where
  pub same : input c ≡ i
  pub frame_size : 16384 ≤ c.peer_max_frame_size
  pub frame_size_most : c.peer_max_frame_size ≤ 16777215
  pub initial : c.send_initial_window_size < 2 ^ 31
  pub conn_window : c.send_conn_window_size < 2 ^ 32
  pub windows : All IsWord c.streams

shift_windows-IsWord :
    (streams : List Stream) (delta : ℕ)
    → All IsWord streams
    → All IsWord (shift_windows streams delta).1
unfolding shift_windows
shift_windows-IsWord [] delta h = tt
shift_windows-IsWord (s ∷ streams) delta (w, h) =
    elim (Bool-cases (overflows s.send_window_size delta)) [
      | inl e ↦ rw e (w, h)
      | inr e ↦ rw e (omega arith, shift_windows-IsWord streams delta h)
    ]

IsSound-out :
    {i : Input} (c : Ctx) (out : Output) → IsSound i c → IsSound i (record c { out = out })
IsSound-out c out h = record {
  same = h.same;
  frame_size = h.frame_size;
  frame_size_most = h.frame_size_most;
  initial = h.initial;
  conn_window = h.conn_window;
  windows = h.windows;
}

set_initial_window-IsSound :
    {i : Input} (c : Ctx) (value : ℕ) → IsSound i c → IsSound i (set_initial_window c value).1
unfolding set_initial_window
set_initial_window-IsSound {i} c value h =
    let shifted : Bool × List Stream =
      shift_windows c.streams (sub32 value c.send_initial_window_size) in
    let c' : Ctx = record c { send_initial_window_size = value; streams = shifted.1 } in
    let failed : Handled = (false, with_goaway c rst_flow_control_error) in
    let taken : Handled = (true, c') in
    let overflown : Handled = (false, with_goaway c' rst_flow_control_error) in
    let new : value < 2 ^ 31 → IsSound i c' = λ small. record {
      same = h.same;
      frame_size = h.frame_size;
      frame_size_most = h.frame_size_most;
      initial = small;
      conn_window = h.conn_window;
      windows = shift_windows-IsWord c.streams (sub32 value c.send_initial_window_size) h.windows;
    } in
    if_cases (λ r. IsSound i r.1) (ltb int_max value) failed
      (if shifted.0 then taken else overflown) (λ e. IsSound-out c _ h)
      (λ e.
        let small : value < 2 ^ 31 = ground arith in
        if_cases (λ r. IsSound i r.1) shifted.0 taken overflown (λ e'. new small)
          (λ e'. IsSound-out c' _ (new small)))

-- The fields that soundness reads are as they were.
pub IsSound-same :
    {i : Input} (c c' : Ctx)
    → (c'.peer_max_frame_size ≡ c.peer_max_frame_size)
      × (c'.send_initial_window_size ≡ c.send_initial_window_size)
      × (c'.send_conn_window_size ≡ c.send_conn_window_size)
      × (c'.streams ≡ c.streams)
      × (input c' ≡ input c)
    → IsSound i c
    → IsSound i c'
IsSound-same c c' (f, k, w, s, n) h = record {
  same = n ∙ h.same;
  frame_size = rw f h.frame_size;
  frame_size_most = rw f h.frame_size_most;
  initial = rw k h.initial;
  conn_window = rw w h.conn_window;
  windows = rw s h.windows;
}

IsSound-frame :
    {i : Input} (c : Ctx) (value : ℕ)
    → IsSound i c
    → (ltb value 16384 || ltb 16777215 value) ≡ false
    → IsSound i (record c { peer_max_frame_size = value })
IsSound-frame c value h e = record {
  same = h.same;
  frame_size = ground arith;
  frame_size_most = ground arith;
  initial = h.initial;
  conn_window = h.conn_window;
  windows = h.windows;
}

apply_setting-IsSound :
    {i : Input} (c : Ctx) (id value : ℕ) → IsSound i c → IsSound i (apply_setting c id value).1
unfolding apply_setting
apply_setting-IsSound {i} c id value h =
    let table_size : ℕ = if ltb max_header_table_size value then max_header_table_size else value in
    let wrong : Handled = (false, with_goaway c rst_protocol_error) in
    let sound_wrong : IsSound i wrong.1 = IsSound-out c _ h in
    let set_header_list : Handled = (true, record c { peer_max_header_list_size = value }) in
    let other : Handled =
      if id == settings_max_header_list_size then set_header_list else (true, c) in
    let set_frame : Handled = (true, record c { peer_max_frame_size = value }) in
    let frame : Handled = if ltb value 16384 || ltb 16777215 value then wrong else set_frame in
    let from_frame : Handled = if id == settings_max_frame_size then frame else other in
    let from_window : Handled =
      if id == settings_initial_window_size then set_initial_window c value else from_frame in
    let set_streams : Handled = (true, record c { peer_max_concurrent_streams = value }) in
    let from_streams : Handled =
      if id == settings_max_concurrent_streams then set_streams else from_window in
    let no_push : Bool = ltb 1 value || (not c.is_client && not (value == 0)) in
    let push : Handled = if no_push then wrong else (true, c) in
    let from_push : Handled = if id == settings_enable_push then push else from_streams in
    let table : Handled =
      (true, record c { encoder = resize_dynamic_table c.encoder table_size }) in
    if_cases (λ r. IsSound i r.1) (id == settings_header_table_size) table from_push
      (λ e. IsSound-same c _ (refl, refl, refl, refl, refl) h)
      (λ e.
        if_cases (λ r. IsSound i r.1) (id == settings_enable_push) push from_streams
          (λ e. if_cases (λ r. IsSound i r.1) no_push wrong (true, c) (λ e. sound_wrong) (λ e. h))
          (λ e.
            if_cases (λ r. IsSound i r.1) (id == settings_max_concurrent_streams) set_streams
              from_window (λ e. IsSound-same c _ (refl, refl, refl, refl, refl) h)
              (λ e.
                if_cases (λ r. IsSound i r.1) (id == settings_initial_window_size)
                  (set_initial_window c value) from_frame
                  (λ e. set_initial_window-IsSound c value h)
                  (λ e.
                    if_cases (λ r. IsSound i r.1) (id == settings_max_frame_size) frame other
                      (λ e.
                        if_cases (λ r. IsSound i r.1) (ltb value 16384 || ltb 16777215 value) wrong
                          set_frame (λ e. sound_wrong) (λ e. IsSound-frame c value h e))
                      (λ e.
                        if_cases (λ r. IsSound i r.1) (id == settings_max_header_list_size)
                          set_header_list (true, c)
                          (λ e. IsSound-same c _ (refl, refl, refl, refl, refl) h) (λ e. h))))))

settings_loop-IsSound :
    {i : Input} (bytes : List ℕ) (c : Ctx)
    → IsSound i c
    → Ensures (λ r. IsSound i r.1) (settings_loop c bytes)
unfolding settings_loop read_uint32
settings_loop-IsSound {i} [] c h = h
settings_loop-IsSound {i} (a ∷ []) c h = h
settings_loop-IsSound {i} (a ∷ b ∷ []) c h = h
settings_loop-IsSound {i} (a ∷ b ∷ v₀ ∷ []) c h = h
settings_loop-IsSound {i} (a ∷ b ∷ v₀ ∷ v₁ ∷ []) c h = h
settings_loop-IsSound {i} (a ∷ b ∷ v₀ ∷ v₁ ∷ v₂ ∷ []) c h = h
settings_loop-IsSound {i} (a ∷ b ∷ v₀ ∷ v₁ ∷ v₂ ∷ v₃ ∷ bytes) c h =
    let value : ℕ = bit_or (bit_or (bit_or (v₀ * 2 ^ 24) (v₁ * 2 ^ 16)) (v₂ * 2 ^ 8)) v₃ in
    let r : Handled = apply_setting c (bit_or (a * 2 ^ 8) b) value in
    let sound : IsSound i r.1 = apply_setting-IsSound c (bit_or (a * 2 ^ 8) b) value h in
    Ensures-if (λ r. IsSound i r.1) r.0 (settings_loop r.1 bytes) (ok r)
      (λ e. settings_loop-IsSound bytes r.1 sound) (λ e. sound)

-- Whatever a SETTINGS frame of the peer has, its processing returns, with 0 or −1, and then the
-- peer's frame size is still within the limits of RFC 9113, its initial window an `int` that is not
-- negative, and the windows are words.
pub process_settings_frame-IsSound :
    {i : Input} (c : Ctx) (bytes : List ℕ) (flags : ℕ)
    → IsSound i c
    → Ensures (λ r. IsSound i r.1) (process_settings_frame c bytes flags)
unfolding process_settings_frame
process_settings_frame-IsSound {i} c bytes flags h =
    let P : Handled → Type 0 = λ r. IsSound i r.1 in
    let wrong : Outcome Handled = ok (false, with_goaway c rst_protocol_error) in
    let sound_wrong : IsSound i (with_goaway c rst_protocol_error) =
      IsSound-same c _ (refl, refl, refl, refl, refl) h in
    let finish : Handled → Outcome Handled = λ r.
      (let c' : Ctx = record r.1 { settings_received = true } in
        let ack : Sent = send_settings c'.out c'.is_client c'.max_concurrent_streams true in
        ok (if r.0 then (ack.0, record c' { out = ack.1 }) else r)) in
    let settings : Outcome Handled = settings_loop c bytes >>= finish in
    Ensures-if P (has_flag flags flag_ack) (if length bytes == 0 then ok (true, c) else wrong)
      (if not (length bytes % 6 == 0) then wrong else settings)
      (λ e. Ensures-if P (length bytes == 0) (ok (true, c)) wrong (λ e. h) (λ e. sound_wrong))
      (λ e.
        Ensures-if P (not (length bytes % 6 == 0)) wrong settings (λ e. sound_wrong)
          (λ e.
            Ensures-bind P P (settings_loop c bytes) finish (settings_loop-IsSound bytes c h)
              (λ r k.
                let c' : Ctx = record r.1 { settings_received = true } in
                let ack : Sent = send_settings c'.out c'.is_client c'.max_concurrent_streams true in
                if_cases (λ r. IsSound i r.1) r.0 (ack.0, record c' { out = ack.1 }) r
                  (λ e. IsSound-same r.1 _ (refl, refl, refl, refl, refl) k) (λ e. k))))
