-- ===== src/Http2/Reader/Safe.antt =====
-- `_http2_process_frames` of src/http_parse/http2.c on any bytes.
use smartdns_ui.Prelude.{
  ℕ, zero, suc, ◌+◌, ◌-◌, ◌≤◌, ◌<◌, ◌≡◌, ◌⊎◌, inl, inr, refl, ap, sym, Bool, true, false, Option,
  none, some, List, length, length-drop, take, drop, ltb, ◌==◌, ◌&&◌, ◌||◌, not, if◌then◌else◌,
  if_cases, Outcome, ok, ◌>>=◌, ◌>>◌, access, leb, le→leb, Ensures, Ensures-if, Ensures-bind,
  Ensures-mono, arith,
}
use mathlib.Core.Path.{subst}
use smartdns_ui.Http2.Frame.{FrameHead, read_frame_header}
use smartdns_ui.Http2.Output.{err_protocol, err_http1, is_open}
use smartdns_ui.Http2.Output.Growth.{ltb-false→le}
use smartdns_ui.Http2.State.{Ctx, Read}
use smartdns_ui.Http2.Control.{with_goaway, rst_protocol_error}
use smartdns_ui.Http2.Receive.Data.{or-false}
use smartdns_ui.Http2.Settings.Sound.{Input}
use smartdns_ui.Http2.Headers.{frame_continuation}
use smartdns_ui.Http2.Headers.Sound.{IsReady}
use smartdns_ui.Http2.Reader.Fill.{Rests, size, Rests-read, Filled, Enough, fill-Filled}
use smartdns_ui.Http2.Reader.{
  Ret, ret_zero, ret_again, ret_status, fill, preface, starts_with, looks_like_http1, with_status,
  check_preface, verify_connection_preface, Dispatched, frame_ret, returns, process_frame,
  process_payload, process_head, frame_header_size, read_buffer_size, after_frame, process_round,
  process_loop, bytes_of, process_frames,
}
use smartdns_ui.Http2.Reader.Dispatch.{
  OnDispatched, read_frame_header-Returns, process_frame-IsReady,
}

-- A round ends the call, or takes bytes off what is there and to come.
abbrev pub Rounded : ℕ → (Ret × Ctx) ⊎ Ctx → Type 0
Rounded n (inl (ret, c)) = Rests c
Rounded n (inr c) = Rests c × (size c < n)

Rests-same :
    {i : List ℕ × List Read} (c : Ctx) → length i.0 ≤ read_buffer_size → IsReady i c → Rests c
Rests-same {i} c m h =
    let e : (c.read_buffer, c.reads) ≡ i = ap (λ (t : Input). t.1) h.0.same in
    let room : length c.read_buffer ≤ read_buffer_size =
      subst (λ b. length b ≤ read_buffer_size) (sym (ap (λ (t : List ℕ × List Read). t.0) e)) m in
    (subst (λ t. IsReady t c) (sym e) h, room)

same_size : {i : List ℕ × List Read} (c : Ctx) → IsReady i c → size c ≡ length i.0 + bytes_of i.1
same_size c h = ap (λ (t : Input). length t.1.0 + bytes_of t.1.1) h.0.same

after_frame-Rounded :
    (c : Ctx) (n : ℕ) (d : Dispatched)
    → 0 < n
    → n ≤ length c.read_buffer
    → length c.read_buffer ≤ read_buffer_size
    → OnDispatched (IsReady (c.read_buffer, c.reads)) d
    → Rounded (size c) (after_frame n d)
after_frame-Rounded c n (returns ret c') p l m k = Rests-same c' m k
after_frame-Rounded c n (frame_ret true c') p l m k =
    let rests : Rests c' = Rests-same c' m k in
    let same : length c'.read_buffer ≡ length c.read_buffer =
      ap (λ (t : Input). length t.1.0) k.0.same in
    let left : length (drop n c'.read_buffer) ≡ length c'.read_buffer - n =
      length-drop n c'.read_buffer in
    (
      Rests-read c' _ (refl, refl, refl, refl, refl) (omega (arith, left, same)) rests,
      omega (arith, left, same, same_size c' k),
    )
after_frame-Rounded c n (frame_ret false c') p l m k =
    let rests : Rests c' = Rests-same c' m k in
    if_cases Rests (is_open c'.out.status) (with_status c' err_protocol) c'
      (λ e. Rests-read c' _ (refl, refl, refl, refl, refl) rests.1 rests) (λ e. rests)

Rounded-le : (n m : ℕ) (r : (Ret × Ctx) ⊎ Ctx) → n ≤ m → Rounded n r → Rounded m r
Rounded-le n m (inl (ret, c)) l h = h
Rounded-le n m (inr c) l (h, k) = (h, omega arith)

process_payload-Rounded :
    (c : Ctx) (f : FrameHead)
    → f.length ≤ read_buffer_size - frame_header_size
    → Rests c
    → Ensures (Rounded (size c)) (process_payload c f)
unfolding process_payload
process_payload-Rounded c f l h =
    let n : ℕ = frame_header_size + f.length in
    let filled = fill-Filled c n ret_zero (omega arith) h in
    whole (fill c n ret_zero) filled.0 filled.1
  where
    whole :
        (w : Option Ret × Ctx)
        → Filled c w
        → Enough (frame_header_size + f.length) w
        → Ensures (Rounded (size c)) (elim w.0 [
          | some ret ↦ ok (inl (ret, w.1))
          | none ↦
              access (leb (frame_header_size + f.length) (length w.1.read_buffer))
              >> (process_frame w.1 f (take f.length (drop frame_header_size w.1.read_buffer))
                  >>= λ d. ok (after_frame (frame_header_size + f.length) d))
        ])
    whole (some ret, c') k enough = k.0
    whole (none, c') k enough =
        let payload : List ℕ = take f.length (drop frame_header_size c'.read_buffer) in
        rw (le→leb (frame_header_size + f.length) (length c'.read_buffer) enough) (
          Ensures-bind (OnDispatched (IsReady (c'.read_buffer, c'.reads))) (Rounded (size c))
            (process_frame c' f payload) _ (process_frame-IsReady c' k.0.0 f payload)
            (λ d r.
              Rounded-le (size c') (size c) (after_frame (frame_header_size + f.length) d)
                (omega (arith, k.1))
                (after_frame-Rounded c' (frame_header_size + f.length) d (omega arith) enough k.0.1
                  r)))

process_head-Rounded :
    (c : Ctx) (f : FrameHead) → Rests c → Ensures (Rounded (size c)) (process_head c f)
unfolding process_head
process_head-Rounded c f h =
    let P : (Ret × Ctx) ⊎ Ctx → Type 0 = Rounded (size c) in
    let too_long : Outcome ((Ret × Ctx) ⊎ Ctx) =
      ok (inl (ret_status err_protocol, with_status c err_protocol)) in
    let no_continuation : Outcome ((Ret × Ctx) ⊎ Ctx) =
      ok (inl (ret_status err_protocol, with_goaway c rst_protocol_error)) in
    let bad_length : Bool =
      ltb c.local_max_frame_size f.length || ltb (read_buffer_size - frame_header_size) f.length in
    let bad_type : Bool = c.continuation_active && not (f.type == frame_continuation) in
    Ensures-if P bad_length too_long (if bad_type then no_continuation else process_payload c f)
      (λ e. Rests-read c _ (refl, refl, refl, refl, refl) h.1 h)
      (λ e.
        Ensures-if P bad_type no_continuation (process_payload c f)
          (λ e. Rests-read c _ (refl, refl, refl, refl, refl) h.1 h)
          (λ e'. process_payload-Rounded c f (ltb-false→le _ _ (or-false _ _ e).1) h))

process_round-Rounded : (c : Ctx) → Rests c → Ensures (Rounded (size c)) (process_round c)
unfolding process_round
process_round-Rounded c h =
    let filled = fill-Filled c frame_header_size ret_zero (omega arith) h in
    first (fill c frame_header_size ret_zero) filled.0 filled.1
  where
    first :
        (w : Option Ret × Ctx)
        → Filled c w
        → Enough frame_header_size w
        → Ensures (Rounded (size c)) (elim w.0 [
          | some ret ↦ ok (inl (ret, w.1))
          | none ↦ read_frame_header w.1.read_buffer >>= λ f. process_head w.1 f
        ])
    first (some ret, c') k enough = k.0
    first (none, c') k enough =
        Ensures-bind (λ _. Unit {0}) (Rounded (size c)) (read_frame_header c'.read_buffer) _
          (read_frame_header-Returns c'.read_buffer enough)
          (λ f u.
            Ensures-mono (Rounded (size c')) (Rounded (size c)) (process_head c' f)
              (process_head-Rounded c' f k.0)
              (λ r q. Rounded-le (size c') (size c) r (omega (arith, k.1)) q))

process_loop-Rests :
    (fuel : ℕ) (c : Ctx) → size c < fuel → Rests c → Ensures (λ r. Rests r.1) (process_loop fuel c)
unfolding process_loop
process_loop-Rests zero c l h = absurd (omega arith)
process_loop-Rests (suc fuel) c l h =
    Ensures-bind (Rounded (size c)) (λ r. Rests r.1) (process_round c) _ (process_round-Rounded c h)
      (next (λ c' l' h'. process_loop-Rests fuel c' l' h'))
  where
    next :
        ((c' : Ctx) → size c' < fuel → Rests c' → Ensures (λ r. Rests r.1) (process_loop fuel c'))
        → (r : (Ret × Ctx) ⊎ Ctx) → Rounded (size c) r
        → Ensures (λ r. Rests r.1) (elim r [ inl q ↦ ok q | inr c' ↦ process_loop fuel c' ])
    next rec (inl (ret, c')) k = k
    next rec (inr c') (k, s) = rec c' (omega arith) k

check_preface-Rests : (r : Option Ret × Ctx) → Rests r.1 → Rests (check_preface r).1
unfolding check_preface
check_preface-Rests (some ret, c') k = k
check_preface-Rests (none, c') k =
    let P : Option Ret × Ctx → Type 0 = λ r. Rests r.1 in
    let verified : Option Ret × Ctx = (
      none,
      record c' { read_buffer = drop (length preface) c'.read_buffer; preface_received = true },
    ) in
    let http1 : Option Ret × Ctx = (some (ret_status err_http1), with_status c' err_http1) in
    let other : Option Ret × Ctx = (some (ret_status err_protocol), with_status c' err_protocol) in
    if_cases P (starts_with preface c'.read_buffer) verified
      (if looks_like_http1 c'.read_buffer then http1 else other)
      (λ e.
        Rests-read c' verified.1 (refl, refl, refl, refl, refl)
          (omega (arith, k.1, length-drop (length preface) c'.read_buffer)) k)
      (λ e.
        if_cases P (looks_like_http1 c'.read_buffer) http1 other
          (λ e. Rests-read c' http1.1 (refl, refl, refl, refl, refl) k.1 k)
          (λ e. Rests-read c' other.1 (refl, refl, refl, refl, refl) k.1 k))

verify_connection_preface-Rests : (c : Ctx) → Rests c → Rests (verify_connection_preface c).1
unfolding verify_connection_preface
verify_connection_preface-Rests c h =
    let filled = fill-Filled c (length preface) ret_again (omega arith) h in
    let checked : Option Ret × Ctx = check_preface (fill c (length preface) ret_again) in
    if_cases (λ (r : Option Ret × Ctx). Rests r.1) (c.is_client || c.preface_received) (none, c)
      checked (λ e. h) (λ e. check_preface-Rests (fill c (length preface) ret_again) filled.0.0)

-- In a context that is ready, whatever a peer sends, however its bytes are cut and whatever
-- `bio_write` answers to what is sent back: `_http2_process_frames` returns. It handles a frame only
-- when all bytes of its payload are in the buffer, and reads the head of a frame, padding, priority,
-- settings and increments only where they are. Its buffer of 16,393 bytes is not overrun, and every
-- loop in it ends. The context stays ready: the peer's frame size and initial window are within the
-- limits of RFC 9113, the windows are words, and the dynamic table of the decoder is in order and
-- within its limit.
pub process_frames-Rests : (c : Ctx) → Rests c → Ensures (λ r. Rests r.1) (process_frames c)
unfolding process_frames
process_frames-Rests c h =
    let P : Ret × Ctx → Type 0 = λ r. Rests r.1 in
    let c₀ : Ctx = record c { want_read = false } in
    let h₀ : Rests c₀ = Rests-read c c₀ (refl, refl, refl, refl, refl) h.1 h in
    let run : Option Ret × Ctx → Outcome (Ret × Ctx) = λ r. elim r.0 [
      | some ret ↦ ok (ret, r.1)
      | none ↦ process_loop (suc (length r.1.read_buffer + bytes_of r.1.reads)) r.1
    ] in
    let v : Option Ret × Ctx = verify_connection_preface c₀ in
    Ensures-if P c.io_closed (ok (ret_status c.out.status, c)) (run v) (λ e. h)
      (λ e. running v (verify_connection_preface-Rests c₀ h₀))
  where
    running :
        (r : Option Ret × Ctx)
        → Rests r.1
        → Ensures
            (λ r. Rests r.1)
            (elim r.0 [
              | some ret ↦ ok (ret, r.1)
              | none ↦ process_loop (suc (length r.1.read_buffer + bytes_of r.1.reads)) r.1
            ])
    running (some ret, c') k = k
    running (none, c') k = process_loop-Rests (suc (size c')) c' (omega arith) k
