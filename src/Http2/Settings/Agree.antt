-- ===== src/Http2/Settings/Agree.antt =====
-- The settings that one end of src/http_parse/http2.c sends, as another end takes them.
use smartdns_ui.Prelude.{
  ℕ, ◌+◌, ◌*◌, ◌/◌, ◌%◌, ◌^◌, ◌<◌, ◌≡◌, refl, Bool, true, false, List, [], ◌∷◌, ◌++◌, ltb,
  Bool-cases, inl, inr, if◌then◌else◌, ok, arith, All, bit_or, or_disjoint, ap, ◌∙◌,
}
use mathlib.Core.Path.{Path}
use smartdns_ui.Hpack.Table.{resize_dynamic_table}
use smartdns_ui.Http2.State.{Stream, Ctx}
use smartdns_ui.Http2.Frame.{write_uint32}
use smartdns_ui.Http2.Frame.RoundTrip.{four_bytes}
use smartdns_ui.Http2.Control.{
  setting, settings_header_table_size, settings_enable_push, settings_max_concurrent_streams,
  settings_initial_window_size, settings_max_frame_size, settings_payload, default_window_size,
  default_max_frame_size, max_header_table_size,
}
use smartdns_ui.Http2.Settings.Windows.{IsWord}
use smartdns_ui.Http2.Settings.{
  apply_setting, settings_loop, set_initial_window, shift_windows, overflows,
}

-- One setting that is taken
settings_loop-setting :
    (c c' : Ctx) (id value : ℕ) (bytes : List ℕ)
    → id < 256
    → value < 2 ^ 32
    → apply_setting c id value ≡ (true, c')
    → settings_loop c (setting id value ++ bytes) ≡ settings_loop c' bytes
unfolding settings_loop write_uint32
settings_loop-setting c c' id value bytes hi hv e =
    let name : bit_or (id * 65536 / 16777216 % 256 * 2 ^ 8) (id * 65536 / 65536 % 256) ≡ id =
      or_disjoint 8 (id * 65536 / 16777216 % 256) (id * 65536 / 65536 % 256) (omega arith)
      ∙ omega arith in
    rw (name, four_bytes value hv, e) refl

-- A window that moves by 0
overflows-zero : (w : ℕ) → w < 2 ^ 32 → overflows w 0 ≡ false
overflows-zero w h = ground arith

keep-if :
    (t : Bool) (s s' : Stream) (streams : List Stream) (rest : Bool × List Stream)
    → t ≡ false
    → s' ≡ s
    → rest ≡ (true, streams)
    → Path
        (Bool × List Stream)
        (if t then (false, s ∷ streams) else (rest.0, s' ∷ rest.1))
        (true, s ∷ streams)
keep-if t s s' streams rest e f g = rw (e, f, g) refl

shift_windows-zero :
    (streams : List Stream) → All IsWord streams → shift_windows streams 0 ≡ (true, streams)
unfolding shift_windows
shift_windows-zero [] h = refl
shift_windows-zero (s ∷ streams) (w, h) =
    let same : (s.send_window_size + 0) % 2 ^ 32 ≡ s.send_window_size = omega arith in
    let s' : Stream = record s { send_window_size = (s.send_window_size + 0) % 2 ^ 32 } in
    let kept : s' ≡ s = ap (λ w. record s { send_window_size = w }) same in
    keep-if (overflows s.send_window_size 0) s s' streams (shift_windows streams 0)
      (overflows-zero s.send_window_size w) kept (shift_windows-zero streams h)

set_initial_window-same :
    (c : Ctx)
    → All IsWord c.streams
    → c.send_initial_window_size ≡ default_window_size
    → set_initial_window c default_window_size ≡ (true, c)
unfolding set_initial_window
set_initial_window-same c h e = rw (e, shift_windows-zero c.streams h) refl

abbrev pub agreed : Ctx → ℕ → Ctx
agreed c max_concurrent_streams = record c {
  encoder = resize_dynamic_table c.encoder max_header_table_size;
  peer_max_frame_size = default_max_frame_size;
  peer_max_concurrent_streams =
      if ltb 0 max_concurrent_streams
      then max_concurrent_streams
      else c.peer_max_concurrent_streams;
}

-- The settings from the header table on
tail-agreed :
    (c : Ctx) (more : List ℕ)
    → All IsWord c.streams
    → c.send_initial_window_size ≡ default_window_size
    → settings_loop c (
        setting settings_header_table_size max_header_table_size
        ++ (setting settings_initial_window_size default_window_size
            ++ (setting settings_max_frame_size default_max_frame_size ++ more)))
      ≡ settings_loop
          (record c {
            encoder = resize_dynamic_table c.encoder max_header_table_size;
            peer_max_frame_size = default_max_frame_size;
          })
          more
tail-agreed c more h e =
    let c₁ : Ctx = record c { encoder = resize_dynamic_table c.encoder max_header_table_size } in
    let c₂ : Ctx = record c₁ { peer_max_frame_size = default_max_frame_size } in
    settings_loop-setting c c₁ settings_header_table_size max_header_table_size _ (omega arith)
      (omega arith) (unfold apply_setting in refl)
    ∙ settings_loop-setting c₁ c₁ settings_initial_window_size default_window_size _ (omega arith)
        (omega arith) (unfold apply_setting in set_initial_window-same c₁ h e)
    ∙ settings_loop-setting c₁ c₂ settings_max_frame_size default_max_frame_size more (omega arith)
        (omega arith) (unfold apply_setting in refl)

streams-agreed :
    (c : Ctx) (m : ℕ)
    → m < 2 ^ 32
    → settings_loop c (if ltb 0 m then setting settings_max_concurrent_streams m else [])
      ≡ ok (
        true,
        record c {
          peer_max_concurrent_streams = if ltb 0 m then m else c.peer_max_concurrent_streams;
        },
      )
unfolding settings_loop write_uint32
streams-agreed c m h = elim (Bool-cases (ltb 0 m)) [
  | inl e ↦
      let c' : Ctx = record c { peer_max_concurrent_streams = m } in
      rw e (
        settings_loop-setting c c' settings_max_concurrent_streams m [] (omega arith) h
          (unfold apply_setting in refl))
  | inr e ↦ rw e refl
]

push-agreed : (c : Ctx) → apply_setting c settings_enable_push 0 ≡ (true, c)
unfolding apply_setting
push-agreed c = elim (Bool-cases c.is_client) [ inl e ↦ rw e refl | inr e ↦ rw e refl ]

-- The settings that a context sends when it starts are all taken by the context at the other end,
-- client or server, whose streams have the default window: the peer's frame size and header table
-- are what was sent, its limit of streams is if there is one, and no window moves.
pub settings_payload-agreed :
    (c : Ctx) (is_client : Bool) (max_concurrent_streams : ℕ)
    → All IsWord c.streams
    → c.send_initial_window_size ≡ default_window_size
    → max_concurrent_streams < 2 ^ 32
    → settings_loop c (settings_payload is_client max_concurrent_streams)
      ≡ ok (true, agreed c max_concurrent_streams)
unfolding settings_payload write_uint32
settings_payload-agreed c true m h e hm =
    settings_loop-setting c c settings_enable_push 0 _ (omega arith) (omega arith) (push-agreed c)
    ∙ tail-agreed c _ h e
    ∙ streams-agreed _ m hm
settings_payload-agreed c false m h e hm = tail-agreed c _ h e ∙ streams-agreed _ m hm
