-- ===== src/Http2/Output/Frames.antt =====
-- Several frames through `_http2_send_frame` of src/http_parse/http2.c, one after another.
use smartdns_ui.Prelude.{
  ℕ, ◌≡◌, ap, sym, ◌∙◌, true, false, List, [], ◌∷◌, ◌++◌, append_assoc, append-nil, if◌then◌else◌,
}
use smartdns_ui.Http2.Output.{Output, Sent, send_frame}
use smartdns_ui.Http2.Output.Order.{Delivers, send_frame-Delivers}

-- The frames that calls hand over as long as they succeed.
unfoldable pub send_frames : Output → List (List ℕ) → Sent
unfolding send_frame
send_frames out [] = (true, out)
send_frames out (frame ∷ frames) =
    let sent : Sent = send_frame out frame in
    let rest : Sent = send_frames sent.1 frames in if sent.0 then rest else sent

abbrev pub concat : List (List ℕ) → List ℕ
concat [] = []
concat (frame ∷ frames) = frame ++ concat frames

-- The bytes on the wire are a prefix of `bytes`; if all went well, what it lacks is pending.
abbrev pub InOrder : List ℕ → Sent → Type 0
InOrder bytes (true, out') = out'.wire ++ out'.pending ≡ bytes
InOrder bytes (false, out') = (rest : List ℕ) × (out'.wire ++ rest ≡ bytes)

InOrder-sent :
    (out : Output) (frame more : List ℕ) (r : Sent) (rest : Sent)
    → Delivers out frame r
    → InOrder (r.1.wire ++ r.1.pending ++ more) rest
    → InOrder (out.wire ++ out.pending ++ (frame ++ more)) (if r.0 then rest else r)
InOrder-sent out frame more (true, out') rest (d, w, f) o =
    let same : out'.wire ++ out'.pending ++ more ≡ out.wire ++ out.pending ++ (frame ++ more) =
      ap (λ t. t ++ more) d ∙ append_assoc (out.wire ++ out.pending) frame more in
    rw (← same) o
InOrder-sent out frame more (false, out') rest ((left, d), f) o = (
  left ++ more,
  sym (append_assoc out'.wire left more)
      ∙ ap (λ t. t ++ more) d
      ∙ append_assoc (out.wire ++ out.pending) frame more,
)

-- However `bio_write` cuts them up, the frames get to the peer byte by byte in the order of the
-- calls, after what was pending before: the wire is a prefix of that, and as long as all calls
-- succeed, what is not on the wire is what is pending.
pub send_frames-InOrder :
    (out : Output) (frames : List (List ℕ))
    → InOrder (out.wire ++ out.pending ++ concat frames) (send_frames out frames)
unfolding send_frames
send_frames-InOrder out [] = sym (append-nil (out.wire ++ out.pending))
send_frames-InOrder out (frame ∷ frames) =
    let sent : Sent = send_frame out frame in
    InOrder-sent out frame (concat frames) sent (send_frames sent.1 frames)
      (send_frame-Delivers out frame) (send_frames-InOrder sent.1 frames)
