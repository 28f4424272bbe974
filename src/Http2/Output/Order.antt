-- ===== src/Http2/Output/Order.antt =====
-- What `_http2_send_frame` does to the order of the bytes, and the buffer that holds them back.
use smartdns_ui.Prelude.{
  ℕ, zero, suc, ◌+◌, ◌≤◌, ◌<◌, ◌≡◌, refl, ap, sym, ◌∙◌, Bool, true, false, Option, none, some, List,
  [], ◌∷◌, ◌++◌, length, take, drop, ltb, ltb→lt, Bool-cases, length-append, length-drop,
  append_assoc, not, ◌&&◌, append-nil, is_empty, take-append_drop, drop_all, drop_some, inl, inr,
  arith,
}
use smartdns_ui.Http2.Output.Growth.{ltb-false→le, new_capacity-le}
use smartdns_ui.Http2.Output.{
  Output, Sent, Write, took, again, error, Status, err_io, err_eof, is_open, buffer_new_data,
  write_bytes, send_loop, send_pending, send_frame,
}

-- `pending_write_buffer` holds the bytes that are pending.
abbrev pub HasRoom : Output → Type 0
HasRoom out = length out.pending ≤ out.pending_write_capacity

-- What a call does: if it succeeds, its frame follows all that was handed over before, on the wire
-- or in the buffer, and the caller waits to write when something is left; else the wire has a part
-- of that.
abbrev pub Delivers : Output → List ℕ → Sent → Type 0
Delivers out frame (true, out') =
    (out'.wire ++ out'.pending ≡ out.wire ++ out.pending ++ frame)
    × (out'.want_write ≡ not (is_empty out'.pending))
    × (HasRoom out → HasRoom out')
Delivers out frame (false, out') =
    ((rest : List ℕ) × (out'.wire ++ rest ≡ out.wire ++ out.pending ++ frame))
    × (HasRoom out → HasRoom out')

Delivers-eq :
    (out₁ out₂ : Output) (frame₁ frame₂ : List ℕ) (r : Sent)
    → out₁.wire ++ out₁.pending ++ frame₁ ≡ out₂.wire ++ out₂.pending ++ frame₂
    → (HasRoom out₂ → HasRoom out₁)
    → Delivers out₁ frame₁ r
    → Delivers out₂ frame₂ r
Delivers-eq out₁ out₂ frame₁ frame₂ (true, out') e room (d, w, f) = (d ∙ e, w, λ h. f (room h))
Delivers-eq out₁ out₂ frame₁ frame₂ (false, out') e room ((rest, d), f) =
    ((rest, d ∙ e), λ h. f (room h))

is_empty-append : (xs ys : List ℕ) (b : ℕ) → is_empty (xs ++ b ∷ ys) ≡ false
is_empty-append [] ys b = refl
is_empty-append (x ∷ xs) ys b = refl

-- With a capacity that is enough for the bytes, or none.
keep_pending :
    (out : Output) (b : ℕ) (unsent : List ℕ) (found : Option ℕ)
    → ((c : ℕ) → found ≡ some c → length out.pending + length (b ∷ unsent) ≤ c)
    → Delivers out (b ∷ unsent) (elim found [
      | none ↦ (false, out)
      | some capacity ↦ (
        true,
        record out {
          want_write = true;
          pending = out.pending ++ b ∷ unsent;
          pending_write_capacity = capacity;
        },
      )
    ])
keep_pending out b unsent none h =
    ((out.pending ++ b ∷ unsent, sym (append_assoc out.wire out.pending (b ∷ unsent))), λ k. k)
keep_pending out b unsent (some capacity) h = (
  sym (append_assoc out.wire out.pending (b ∷ unsent)),
  rw (is_empty-append out.pending unsent b) refl,
  λ k. rw (length-append out.pending (b ∷ unsent)) (h capacity refl),
)

-- After bytes are kept back, something is pending.
buffer_new_data-Delivers :
    (out : Output) (frame : List ℕ)
    → is_empty out.pending && is_empty frame ≡ false
    → Delivers
        (record out { want_write = true })
        frame
        (buffer_new_data (record out { want_write = true }) frame)
unfolding buffer_new_data
buffer_new_data-Delivers out [] h =
    (sym (append-nil (out.wire ++ out.pending)), nonempty out.pending h, λ k. k)
  where
    nonempty : (xs : List ℕ) → is_empty xs && true ≡ false → true ≡ not (is_empty xs)
    nonempty [] e = e
    nonempty (x ∷ xs) e = refl
buffer_new_data-Delivers out (b ∷ unsent) h =
    keep_pending (record out { want_write = true }) b unsent _
      (new_capacity-le 8192 out.pending_write_capacity (length out.pending + length (b ∷ unsent)))

-- A stop before all is taken: what is left is what was not on the wire.
stop-Delivers :
    (out : Output) (frame : List ℕ) (status : Status) (writes : List Write)
    → Delivers out frame (false, record out { status = status; writes = writes })
stop-Delivers out frame status writes =
    ((out.pending ++ frame, sym (append_assoc out.wire out.pending frame)), λ k. k)

and_false : (b : Bool) → b && false ≡ false
and_false true = refl
and_false false = refl

-- With no byte pending
send_loop-Delivers :
    (writes : List Write) (out : Output) (frame : List ℕ)
    → out.pending ≡ []
    → Delivers out frame (send_loop writes out frame)
unfolding send_loop
send_loop-Delivers writes out [] h = (sym (append-nil (out.wire ++ out.pending)), rw h refl, λ k. k)
send_loop-Delivers [] out (b ∷ frame) h =
    buffer_new_data-Delivers (record out { writes = [] }) (b ∷ frame) (and_false _)
send_loop-Delivers (again ∷ writes) out (b ∷ frame) h =
    buffer_new_data-Delivers (record out { writes = writes }) (b ∷ frame) (and_false _)
send_loop-Delivers (error ∷ writes) out (b ∷ frame) h = stop-Delivers out (b ∷ frame) err_io writes
send_loop-Delivers (took zero ∷ writes) out (b ∷ frame) h =
    stop-Delivers out (b ∷ frame) err_eof writes
send_loop-Delivers (took (suc n) ∷ writes) out (b ∷ frame) h =
    let out' : Output = write_bytes out writes (suc n) (b ∷ frame) in
    let same : out.wire ++ b ∷ take n frame ++ [] ++ drop n frame ≡ out.wire ++ [] ++ b ∷ frame =
      rw (append-nil (out.wire ++ b ∷ take n frame), append-nil out.wire)
        (append_assoc out.wire (b ∷ take n frame) (drop n frame)
          ∙ ap (λ t. out.wire ++ b ∷ t) (take-append_drop n frame)) in
    Delivers-eq out' out (drop n frame) (b ∷ frame) _ (rw h same) (λ k. k)
      (send_loop-Delivers writes out' (drop n frame) h)

send_pending-Delivers :
    (writes : List Write) (out : Output) (pending frame : List ℕ)
    → out.pending ≡ pending
    → is_empty pending ≡ false
    → Delivers out frame (send_pending writes out pending frame)
unfolding send_pending
send_pending-Delivers writes out [] frame h k = cc
send_pending-Delivers [] out (p ∷ pending) frame h k =
    buffer_new_data-Delivers (record out { writes = [] }) frame (rw h refl)
send_pending-Delivers (again ∷ writes) out (p ∷ pending) frame h k =
    buffer_new_data-Delivers (record out { writes = writes }) frame (rw h refl)
send_pending-Delivers (error ∷ writes) out (p ∷ pending) frame h k =
    stop-Delivers out frame err_io writes
send_pending-Delivers (took zero ∷ writes) out (p ∷ pending) frame h k =
    stop-Delivers out frame err_eof writes
send_pending-Delivers (took (suc n) ∷ writes) out (p ∷ pending) frame h k =
    let some_of : List ℕ = p ∷ take n pending in
    let left : List ℕ = drop n pending in
    let out' : Output = record (write_bytes out writes (suc n) (p ∷ pending)) { pending = left } in
    let same : out.wire ++ some_of ++ left ++ frame ≡ out.wire ++ out.pending ++ frame = rw h (
      ap (λ t. t ++ frame)
        (append_assoc out.wire some_of left
          ∙ ap (λ t. out.wire ++ p ∷ t) (take-append_drop n pending))) in
    let shrinks : length left ≤ length out.pending = rw h (omega (arith, length-drop n pending)) in
    let room : HasRoom out → HasRoom out' = λ r. omega arith in
    elim (Bool-cases (ltb (suc n) (length (p ∷ pending)))) [
      | inl e ↦
          let more : n < length pending = omega (arith, ltb→lt (suc n) (length (p ∷ pending)) e) in
          let holds : Delivers (record out' { want_write = true }) frame
              (buffer_new_data (record out' { want_write = true }) frame) =
            buffer_new_data-Delivers out' frame (rw (drop_some n pending more) refl) in
          rw e (Delivers-eq (record out' { want_write = true }) out frame frame _ same room holds)
      | inr e ↦
          let none_left : left ≡ [] = drop_all n pending (omega (arith, ltb-false→le _ _ e)) in
          let out₂ : Output = record out' { want_write = false } in
          rw e (
            Delivers-eq out₂ out frame frame _ same room
              (send_loop-Delivers writes out₂ frame none_left))
    ]

send-Delivers :
    (out : Output) (pending frame : List ℕ)
    → out.pending ≡ pending
    → Delivers out frame (elim pending [
      | [] ↦ send_loop out.writes out frame
      | b ∷ pending ↦ send_pending out.writes out (b ∷ pending) frame
    ])
send-Delivers out [] frame h = send_loop-Delivers out.writes out frame h
send-Delivers out (b ∷ pending) frame h =
    send_pending-Delivers out.writes out (b ∷ pending) frame h refl

-- A frame that is accepted follows, byte by byte, what was on the wire and what was pending; if the
-- call fails, the wire is a prefix of that. What was on the wire stays there.
pub send_frame-Delivers :
    (out : Output) (frame : List ℕ) → Delivers out frame (send_frame out frame)
unfolding send_frame
send_frame-Delivers out frame = elim (Bool-cases (is_open out.status)) [
  | inl e ↦ rw e (send-Delivers out out.pending frame refl)
  | inr e ↦ rw e (stop-Delivers out frame out.status out.writes)
]
