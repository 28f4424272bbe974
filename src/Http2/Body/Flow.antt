-- ===== src/Http2/Body/Flow.antt =====
-- What a flush of src/http_parse/http2.c sends, under flow control: chunks of the pending body.
use smartdns_ui.Prelude.{
  is_positive, ℕ, zero, suc, ◌+◌, ◌-◌, ◌≤◌, ◌<◌, ◌≡◌, ◌⊎◌, inl, inr, refl, ap, sym, ◌∙◌, Bool, true,
  false, List, [], ◌∷◌, ◌++◌, map, length, take, drop, ◌==◌, ◌&&◌, not, if◌then◌else◌, is_empty,
  length-take, take-append_drop, arith,
}
use mathlib.Core.Bool.{true≢false}
use smartdns_ui.Http2.Output.{Output, Sent, send_frame}
use smartdns_ui.Http2.State.{Stream, Ctx}
use smartdns_ui.Http2.Body.{
  data_frame, send_data_frame, has_pending_send, clear_pending_send, mark_end_sent, Flushed,
  flush_end,
}

-- A data frame of a stream
pub record Chunk : Type 0 where
  pub bytes : List ℕ
  pub end_stream : Bool

abbrev pub frames : ℕ → List Chunk → List (List ℕ)
frames stream_id chunks = map (λ d. data_frame stream_id d.bytes d.end_stream) chunks

abbrev pub total : List Chunk → ℕ
total [] = 0
total (d ∷ chunks) = length d.bytes + total chunks

abbrev pub unsent : Stream → List ℕ
unsent s = drop s.pending_send_body_offset s.pending_send_body

-- The chunks are the bytes from `left` up to `left'`, each at most `most` long, and the one that
-- ends the body has the flag, if an end is wanted. No chunk comes after one with the flag.
abbrev pub Follows : ℕ → Bool → List ℕ → List Chunk → List ℕ → Type 0
Follows most wanted left [] left' = left ≡ left'
Follows most wanted left (d ∷ chunks) left' =
    (rest : List ℕ) × (left ≡ d.bytes ++ rest)
    × (length d.bytes ≤ most)
    × (d.end_stream ≡ (wanted && is_empty rest))
    × (d.end_stream ≡ true → chunks ≡ [])
    × Follows most wanted rest chunks left'

-- The frames are sent from the first output on, which becomes the second.
abbrev pub Sends : Output → List (List ℕ) → Output → Type 0
Sends out [] out' = out ≡ out'
Sends out (frame ∷ more) out' =
    (mid : Output) × (send_frame out frame ≡ (true, mid)) × Sends mid more out'

-- Why a flush leaves bytes behind: a window is used up, or the peer takes no frame, or sending
-- fails.
abbrev pub Stops : Output → List (List ℕ) → Ctx → Stream → Type 0
Stops out sent c s =
    (Sends out sent c.out
      × ((is_positive s.send_window_size && is_positive c.send_conn_window_size ≡ false)
          ⊎ (c.peer_max_frame_size ≡ 0)))
    ⊎ ((mid : Output) × Sends out sent mid
        × (frame : List ℕ) × (send_frame mid frame ≡ (false, c.out)))

-- A flush that starts with these bytes and windows: chunks that follow each other, paid by both
-- windows. If the flag was sent before, no chunk comes after the bytes, an empty one neither.
abbrev pub Leaves : ℕ → Bool → Output → List Chunk → Flushed → Type 0
Leaves stream_id wanted out chunks (true, (c', s')) =
    Sends out (frames stream_id chunks) c'.out
    × (has_pending_send s' ≡ false)
    × (wanted ≡ true → s'.end_stream_sent ≡ true)
Leaves stream_id wanted out chunks (false, (c', s')) = Stops out (frames stream_id chunks) c' s'

abbrev pub FlushesFrom : ℕ → ℕ → Bool → Bool → Output → List ℕ → ℕ → ℕ → Flushed → Type 0
FlushesFrom most stream_id wanted done out left window conn_window r =
    (chunks : List Chunk) × Follows most wanted left chunks (unsent r.1.1)
    × (done ≡ true → left ≡ [] → chunks ≡ [])
    × (r.1.1.send_window_size + total chunks ≡ window)
    × (r.1.0.send_conn_window_size + total chunks ≡ conn_window)
    × (0 < total chunks → is_positive window && is_positive conn_window ≡ true)
    × Leaves stream_id wanted out chunks r

abbrev pub Flushes : Ctx → Stream → Flushed → Type 0
Flushes c s =
    FlushesFrom c.peer_max_frame_size s.stream_id s.pending_send_end_stream s.end_stream_sent c.out
      (unsent s) s.send_window_size c.send_conn_window_size

module _ {ℓ} {A : Type ℓ} where
  is_empty-nil : (xs : List A) → is_empty xs ≡ true → xs ≡ []
  is_empty-nil [] e = refl
  is_empty-nil (x ∷ xs) e = absurd (true≢false (sym e))

  is_empty-drop : (n : ℕ) (xs : List A) → n ≤ length xs → (n == length xs) ≡ is_empty (drop n xs)
  is_empty-drop zero [] h = refl
  is_empty-drop zero (x ∷ xs) h = ground arith
  is_empty-drop (suc n) [] h = absurd (omega arith)
  is_empty-drop (suc n) (x ∷ xs) h =
      let both : (suc n == suc (length xs)) ≡ (n == length xs) = ground arith in
      both ∙ is_empty-drop n xs (omega arith)

no_more :
    (wanted : Bool) (n : ℕ) (xs : List ℕ)
    → n ≤ length xs
    → wanted && (n == length xs) ≡ true
    → drop n xs ≡ []
no_more true n xs h e = is_empty-nil (drop n xs) (sym (is_empty-drop n xs h) ∙ e)
no_more false n xs h e = absurd (true≢false (sym e))

-- One round that sends a chunk, and the rounds after it.
Leaves-after :
    (stream_id : ℕ) (wanted : Bool) (out mid : Output) (d : Chunk) (chunks : List Chunk)
    (r : Flushed)
    → send_frame out (data_frame stream_id d.bytes d.end_stream) ≡ (true, mid)
    → Leaves stream_id wanted mid chunks r
    → Leaves stream_id wanted out (d ∷ chunks) r
Leaves-after stream_id wanted out mid d chunks (true, (c', s')) e (sends, none, ended) =
    ((mid, e, sends), none, ended)
Leaves-after stream_id wanted out mid d chunks (false, (c', s')) e (inl (sends, b)) =
    inl ((mid, e, sends), b)
Leaves-after stream_id wanted out mid d chunks (false, (c', s')) e
      (inr (last, sends, frame, failed)) =
    inr (last, (mid, e, sends), frame, failed)

pub FlushesFrom-after :
    (most stream_id : ℕ) (wanted done done' : Bool) (out mid : Output) (left : List ℕ)
    (window conn_window n : ℕ) (r : Flushed)
    → 0 < n
    → n ≤ length left
    → n ≤ most
    → n ≤ window
    → n ≤ conn_window
    → is_positive window && is_positive conn_window ≡ true
    → send_frame out (data_frame stream_id (take n left) (wanted && (n == length left)))
      ≡ (true, mid)
    → (wanted && (n == length left) ≡ true → done' ≡ true)
    → FlushesFrom most stream_id wanted done' mid (drop n left) (window - n) (conn_window - n) r
    → FlushesFrom most stream_id wanted done out left window conn_window r
FlushesFrom-after most stream_id wanted done done' out mid left window conn_window n r h0 hl hm hw
      hc hp e marked (chunks, follows, last, paid, conn_paid, positive, leaves) =
    let d : Chunk = record { bytes = take n left; end_stream = wanted && (n == length left) } in
    let size : length (take n left) ≡ n = omega (arith, length-take n left) in
    (
      d ∷ chunks,
      (
        drop n left,
        sym (take-append_drop n left),
        omega arith,
        ap (λ b. wanted && b) (is_empty-drop n left hl),
        λ k. last (marked k) (no_more wanted n left hl k),
        follows,
      ),
      λ k q. absurd (omega (arith, ap length q)),
      omega arith,
      omega arith,
      λ k. hp,
      Leaves-after stream_id wanted out mid d chunks r e leaves,
    )

-- The end of a flush, by whether an end is wanted, whether it was sent, and what sending it gives.
end-Flushes :
    (c : Ctx) (s : Stream) (wanted done : Bool) (sent : Sent)
    → s.pending_send_end_stream ≡ wanted
    → s.end_stream_sent ≡ done
    → send_frame c.out (data_frame s.stream_id [] true) ≡ sent
    → unsent s ≡ []
    → Flushes c s (
        if wanted && not done
        then (if sent.0
            then (true, (record c { out = sent.1 }, clear_pending_send (mark_end_sent s)))
            else (false, (record c { out = sent.1 }, s)))
        else (true, (c, clear_pending_send s)))
unfolding has_pending_send
end-Flushes c s false done sent p q e h = (
  [],
  h,
  λ k q. refl,
  omega arith,
  omega arith,
  λ k. absurd (omega arith),
  (refl, refl, λ k. absurd (true≢false (sym k ∙ p))),
)
end-Flushes c s true true sent p q e h =
    ([], h, λ k q. refl, omega arith, omega arith, λ k. absurd (omega arith), (refl, refl, λ k. q))
end-Flushes c s true false (true, out) p q e h = (
  record { bytes = []; end_stream = true } ∷ [],
  ([], h, omega arith, rw p refl, λ k. refl, refl),
  λ k. absurd (true≢false (sym k ∙ q)),
  omega arith,
  omega arith,
  λ k. absurd (omega arith),
  ((out, e, refl), refl, λ k. refl),
)
end-Flushes c s true false (false, out) p q e h = (
  [],
  refl,
  λ k q. refl,
  omega arith,
  omega arith,
  λ k. absurd (omega arith),
  inr (c.out, refl, data_frame s.stream_id [] true, e),
)

pub flush_end-Flushes : (c : Ctx) (s : Stream) → unsent s ≡ [] → Flushes c s (flush_end c s)
unfolding flush_end send_data_frame
flush_end-Flushes c s h =
    end-Flushes c s s.pending_send_end_stream s.end_stream_sent _ refl refl refl h
