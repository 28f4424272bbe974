-- ===== src/Http2/Headers/Sound.antt =====
-- What a HEADERS or CONTINUATION frame keeps true of a context of src/http_parse/http2.c.
use smartdns_ui.Prelude.{
  ℕ, ◌+◌, ◌≡◌, refl, sym, ap, Bool, true, false, Option, none, some, List, [], length, ltb, not,
  if◌then◌else◌, if_cases, ◌++◌, Outcome, ok, Ensures, Ensures-if, Ensures-bind, arith,
}
use mathlib.Core.Path.{subst}
use smartdns_ui.Hpack.Table.{HpackContext}
use smartdns_ui.Hpack.Header.Safe.{IsLimited}
use smartdns_ui.Http2.Frame.{flag_end_stream}
use smartdns_ui.Http2.State.{Stream, Ctx, Read}
use smartdns_ui.Http2.Control.{with_rst, rst_protocol_error, rst_internal_error}
use smartdns_ui.Http2.Receive.ContentLength.{check_content_length}
use smartdns_ui.Http2.Receive.{Handled, with_stream, mark_stream_reset, has_flag}
use smartdns_ui.Http2.Receive.Sound.{IsSound-put}
use smartdns_ui.Http2.Settings.Windows.{IsWord}
use smartdns_ui.Http2.Settings.Sound.{Input, IsSound, IsSound-same}
use smartdns_ui.Http2.Headers.Block.{decode_block-IsLimited}
use smartdns_ui.Http2.Headers.{
  clear_continuation, block_capacity, append_header_block, decode_block, store, open_idle,
  headers_end, take_headers, decode_headers_frame, add_block, flag_end_headers,
  rst_compression_error, rst_refused_stream, max_header_block_size,
}

-- The context is sound, with its decoder's table in order, and with what is to be read.
abbrev pub IsReady : List ℕ × List Read → Ctx → Type 0
IsReady i c = IsSound (c.decoder, i) c × IsLimited c.decoder

take_headers-IsSound :
    {i : Input} (c : Ctx) (stream_id : ℕ) (s : Stream) (end_stream : Bool)
    → IsWord s
    → IsSound i c
    → IsSound i (take_headers c stream_id s end_stream).1
unfolding take_headers
take_headers-IsSound {i} c stream_id s end_stream w h =
    let s₁ : Stream = record s { state = open_idle s.state } in
    let s₂ : Stream = record s₁ { end_stream_received = true; state = headers_end s₁.state } in
    let P : Handled → Type 0 = λ r. IsSound i r.1 in
    let reset : Handled = (
      true,
      with_stream (with_rst c stream_id rst_protocol_error) stream_id (mark_stream_reset s₁),
    ) in
    let ended : Handled = (true, with_stream c stream_id s₂) in
    let bad : Bool = check_content_length s.header_list (length s.body_buffer) true in
    if_cases P end_stream (if bad then reset else ended) (true, with_stream c stream_id s₁)
      (λ e.
        if_cases P bad reset ended
          (λ e.
            IsSound-put c (with_rst c stream_id rst_protocol_error) stream_id (mark_stream_reset s₁)
              (refl, refl, refl, refl, refl) w h)
          (λ e. IsSound-put c c stream_id s₂ (refl, refl, refl, refl, refl) w h))
      (λ e. IsSound-put c c stream_id s₁ (refl, refl, refl, refl, refl) w h)

store-IsSound :
    {i : Input} (c : Ctx) (stream_id : ℕ) (use_tmp : Bool) (s : Stream)
    → IsWord s
    → IsSound i c
    → IsSound i (store c stream_id use_tmp s)
store-IsSound c stream_id true s w h = h
store-IsSound c stream_id false s w h =
    IsSound-put c c stream_id s (refl, refl, refl, refl, refl) w h

-- A handler that leaves the input leaves the decoder.
pub IsReady-same :
    {i : List ℕ × List Read} (d : HpackContext) (c : Ctx)
    → IsLimited d
    → IsSound (d, i) c
    → IsReady i c
IsReady-same {i} d c l h =
    let e : c.decoder ≡ d = ap (λ (t : Input). t.0) h.same in
    (subst (λ t. IsSound (t, i) c) (sym e) h, subst IsLimited (sym e) l)

-- After a change of the decoder and of a stream
decoded_stream :
    {i : List ℕ × List Read} (c : Ctx) (d : HpackContext) (stream_id : ℕ) (use_tmp : Bool)
    (s : Stream)
    → IsWord s
    → IsReady i c
    → IsSound (d, i) (store (record c { decoder = d }) stream_id use_tmp s)
decoded_stream {i} c d stream_id use_tmp s w (h, l) =
    let c' : Ctx = record c { decoder = d } in
    let e : (c.read_buffer, c.reads) ≡ i = ap (λ (t : Input). t.1) h.same in
    let sound : IsSound (d, i) c' = record {
      same = ap (λ t. (d, t)) e;
      frame_size = h.frame_size;
      frame_size_most = h.frame_size_most;
      initial = h.initial;
      conn_window = h.conn_window;
      windows = h.windows;
    } in
    store-IsSound c' stream_id use_tmp s w sound

decode_headers_frame-IsReady :
    {i : List ℕ × List Read} (c : Ctx) (stream_id : ℕ) (s : Stream) (use_tmp refuse : Bool)
    (flags : ℕ)
    → IsWord s
    → IsReady i c
    → Ensures (λ r. IsReady i r.1) (decode_headers_frame c stream_id s use_tmp refuse flags)
unfolding decode_headers_frame
decode_headers_frame-IsReady {i} c stream_id s use_tmp refuse flags w h =
    let P : Handled → Type 0 = λ r. IsReady i r.1 in
    Ensures-bind (λ r. IsLimited r.1.0) P
      (decode_block (length c.header_block) c.decoder false c.header_block s.header_list) _
      (decode_block-IsLimited (length c.header_block) c.decoder false c.header_block s.header_list
        h.1 (omega arith))
      (λ r l.
        let d : HpackContext = r.1.0 in
        let s' : Stream = record s { header_list = r.1.1 } in
        let stored : Ctx = store (record c { decoder = d }) stream_id use_tmp s' in
        let sound : IsSound (d, i) stored = decoded_stream c d stream_id use_tmp s' w h in
        let failed : Handled =
          (false, clear_continuation (with_rst stored stream_id rst_compression_error)) in
        let refused : Handled =
          (true, with_rst (clear_continuation stored) stream_id rst_refused_stream) in
        let cleared : Ctx = clear_continuation stored in
        let sound_cleared : IsSound (d, i) cleared =
          IsSound-same stored cleared (refl, refl, refl, refl, refl) sound in
        let taken : Handled = take_headers cleared stream_id s' (has_flag flags flag_end_stream) in
        if_cases P (not r.0) failed (if refuse then refused else taken)
          (λ e.
            IsReady-same d failed.1 l
              (IsSound-same stored failed.1 (refl, refl, refl, refl, refl) sound))
          (λ e.
            if_cases P refuse refused taken
              (λ e.
                IsReady-same d refused.1 l
                  (IsSound-same stored refused.1 (refl, refl, refl, refl, refl) sound))
              (λ e. IsReady-same d taken.1 l (
                take_headers-IsSound cleared stream_id s' (has_flag flags flag_end_stream) w
                  sound_cleared))))

abbrev pub OnCtx : (Ctx → Type 0) → Option Ctx → Type 0
OnCtx P none = Unit
OnCtx P (some c) = P c

append_header_block-IsSound :
    {i : Input} (c : Ctx) (bytes : List ℕ)
    → IsSound i c
    → OnCtx (IsSound i) (append_header_block c bytes)
unfolding append_header_block
append_header_block-IsSound {i} c bytes h =
    let needed : ℕ = length c.header_block + length bytes in
    let appended : Option ℕ → Option Ctx = λ o. elim o [
      | none ↦ none
      | some n ↦
          some (record c { header_block = c.header_block ++ bytes; header_block_capacity = n })
    ] in
    let found : Option ℕ = block_capacity c.header_block_capacity needed in
    if_cases (OnCtx (IsSound i)) (ltb max_header_block_size needed) none (appended found) (λ e. tt)
      (λ e. elim found as (λ o. OnCtx (IsSound i) (appended o)) [
        | none ↦ tt
        | some n ↦ IsSound-same c _ (refl, refl, refl, refl, refl) h
      ])

pub add_block-IsReady :
    {i : List ℕ × List Read} (c : Ctx) (stream_id : ℕ) (s : Stream) (use_tmp refuse : Bool)
    (bytes : List ℕ) (flags : ℕ) (is_headers : Bool)
    → IsWord s
    → IsReady i c
    → Ensures (λ r. IsReady i r.1) (add_block c stream_id s use_tmp refuse bytes flags is_headers)
unfolding add_block
add_block-IsReady {i} c stream_id s use_tmp refuse bytes flags is_headers w h =
    let P : Handled → Type 0 = λ r. IsReady i r.1 in
    let d : HpackContext = c.decoder in
    let s' : Stream = if is_headers then record s { header_list = [] } else s in
    let w' : IsWord s' =
      if_cases IsWord is_headers (record s { header_list = [] }) s (λ e. w) (λ e. w) in
    let stored : Ctx = store c stream_id use_tmp s' in
    let sound : IsSound (d, i) stored = store-IsSound c stream_id use_tmp s' w' h.0 in
    let failed : Handled =
      (false, clear_continuation (with_rst stored stream_id rst_internal_error)) in
    let started : Ctx → Ctx = λ c.
      if is_headers
      then record c {
        continuation_stream_id = stream_id;
        continuation_flags = flags;
        continuation_active = true;
        continuation_refuse_stream = refuse;
      }
      else c in
    let go : Ctx → Outcome Handled = λ c'.
      (let headers_flags = if is_headers then flags else c'.continuation_flags in
        let decoded = decode_headers_frame c' stream_id s' use_tmp refuse headers_flags in
        if has_flag flags flag_end_headers then decoded else ok (true, started c')) in
    let next : Option Ctx → Outcome Handled = λ o. elim o [ none ↦ ok failed | some c' ↦ go c' ] in
    let sound_go : (c' : Ctx) → IsSound (d, i) c' → Ensures P (go c') = λ c' k.
      let decoded : Outcome Handled =
        decode_headers_frame c' stream_id s' use_tmp refuse
          (if is_headers then flags else c'.continuation_flags) in
      Ensures-if P (has_flag flags flag_end_headers) decoded (ok (true, started c'))
        (λ e.
          decode_headers_frame-IsReady c' stream_id s' use_tmp refuse
            (if is_headers then flags else c'.continuation_flags) w' (IsReady-same d c' h.1 k))
        (λ e.
          if_cases (IsReady i) is_headers
            (record c' {
              continuation_stream_id = stream_id;
              continuation_flags = flags;
              continuation_active = true;
              continuation_refuse_stream = refuse;
            })
            c' (λ e. IsReady-same d _ h.1 (IsSound-same c' _ (refl, refl, refl, refl, refl) k))
            (λ e. IsReady-same d c' h.1 k)) in
    elim (append_header_block stored bytes)
        as (λ o. OnCtx (IsSound (d, i)) o → Ensures P (next o)) [
          | none ↦ λ k.
              IsReady-same d failed.1 h.1
                (IsSound-same stored failed.1 (refl, refl, refl, refl, refl) sound)
          | some c' ↦ λ k. sound_go c' k
        ]
      (append_header_block-IsSound stored bytes sound)
