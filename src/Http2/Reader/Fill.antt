-- ===== src/Http2/Reader/Fill.antt =====
-- Reading into `read_buffer` of src/http_parse/http2.c.
use smartdns_ui.Prelude.{
  ℕ, ◌+◌, ◌-◌, ◌≤◌, ◌≡◌, refl, ap, sym, true, Option, none, some, List, [], ◌∷◌, ◌++◌, length,
  length-append, length-take, length-drop, take, drop, is_empty, ltb, ltb→lt, if◌then◌else◌,
  if_cases, arith,
}
use smartdns_ui.Http2.Output.Growth.{ltb-false→le}
use smartdns_ui.Http2.State.{Ctx, Read, chunk, read_again, read_error}
use smartdns_ui.Http2.Headers.Sound.{IsReady}
use smartdns_ui.Http2.Reader.{Ret, read_more, fill, bytes_of, read_buffer_size}

-- A context between two calls: it is ready, and its buffer is not overrun.
abbrev pub Rests : Ctx → Type 0
Rests c = IsReady (c.read_buffer, c.reads) c × (length c.read_buffer ≤ read_buffer_size)

-- The bytes that are there or are to come.
abbrev pub size : Ctx → ℕ
size c = length c.read_buffer + bytes_of c.reads

-- Only what is to be read, the output and fields of the reader differ.
pub Rests-read :
    (c c' : Ctx)
    → (c'.peer_max_frame_size ≡ c.peer_max_frame_size)
      × (c'.send_initial_window_size ≡ c.send_initial_window_size)
      × (c'.send_conn_window_size ≡ c.send_conn_window_size)
      × (c'.streams ≡ c.streams)
      × (c'.decoder ≡ c.decoder)
    → length c'.read_buffer ≤ read_buffer_size
    → Rests c
    → Rests c'
Rests-read c c' (f, k, w, s, d) room ((h, l), m) = (
  (
    record {
      same = refl;
      frame_size = rw f h.frame_size;
      frame_size_most = rw f h.frame_size_most;
      initial = rw k h.initial;
      conn_window = rw w h.conn_window;
      windows = rw s h.windows;
    },
    rw d l,
  ),
  room,
)

-- A read ends the call, or adds bytes that came and loses none.
abbrev pub Filled : Ctx → Option Ret × Ctx → Type 0
Filled c r = Rests r.1 × (size r.1 ≡ size c)

bytes_of-left :
    (bytes : List ℕ) (reads : List Read)
    → bytes_of (if is_empty bytes then reads else chunk bytes ∷ reads)
      ≡ length bytes + bytes_of reads
bytes_of-left [] reads = omega arith
bytes_of-left (b ∷ bytes) reads = refl

read_more-Filled :
    (c : Ctx) (n : ℕ) (reads : List Read)
    → c.reads ≡ reads
    → length c.read_buffer + n ≤ read_buffer_size
    → Rests c
    → Filled c (read_more c n reads)
unfolding read_more
read_more-Filled c n [] e m h = (
  Rests-read c _ (refl, refl, refl, refl, refl) h.1 h,
  ap (λ r. length c.read_buffer + bytes_of r) (sym e),
)
read_more-Filled c n (read_again ∷ reads) e m h = (
  Rests-read c _ (refl, refl, refl, refl, refl) h.1 h,
  ap (λ r. length c.read_buffer + bytes_of r) (sym e),
)
read_more-Filled c n (read_error ∷ reads) e m h = (
  Rests-read c _ (refl, refl, refl, refl, refl) h.1 h,
  ap (λ r. length c.read_buffer + bytes_of r) (sym e),
)
read_more-Filled c n (chunk [] ∷ reads) e m h =
    (Rests-read c _ (refl, refl, refl, refl, refl) h.1 h, rw e (omega arith))
read_more-Filled c n (chunk (b ∷ bytes) ∷ reads) e m h =
    let all : List ℕ = b ∷ bytes in
    let got : length (c.read_buffer ++ take n all) ≡ length c.read_buffer + length (take n all) =
      length-append c.read_buffer (take n all) in
    let taken = length-take n all in
    let left = length-drop n all in
    (
      Rests-read c _ (refl, refl, refl, refl, refl) (omega (arith, got, taken)) h,
      rw (e, got, bytes_of-left (drop n all) reads) (omega (arith, taken, left)),
    )

abbrev pub Enough : ℕ → Option Ret × Ctx → Type 0
Enough needed (none, c) = needed ≤ length c.read_buffer
Enough needed (some ret, c) = Unit

after_read : ℕ → Ret → Option Ret × Ctx → Option Ret × Ctx
after_read needed short r = elim r.0 [
  | some ret ↦ r
  | none ↦
      if ltb (length r.1.read_buffer) needed
      then (some short, record r.1 { want_read = true })
      else r
]

after_read-Filled :
    (c : Ctx) (needed : ℕ) (short : Ret) (r : Option Ret × Ctx)
    → Filled c r
    → Filled c (after_read needed short r) × Enough needed (after_read needed short r)
unfolding after_read
after_read-Filled c needed short (some ret, c') h = (h, tt)
after_read-Filled c needed short (none, c') h =
    if_cases (λ r. Filled c r × Enough needed r) (ltb (length c'.read_buffer) needed)
      (some short, record c' { want_read = true }) (none, c')
      (λ e. ((Rests-read c' _ (refl, refl, refl, refl, refl) h.0.1 h.0, h.1), tt))
      (λ e. (h, ltb-false→le _ _ e))

-- What `fill` does: it returns, or the buffer has the bytes.
pub fill-Filled :
    (c : Ctx) (needed : ℕ) (short : Ret)
    → needed ≤ read_buffer_size
    → Rests c
    → Filled c (fill c needed short) × Enough needed (fill c needed short)
unfolding fill after_read
fill-Filled c needed short m h =
    let P : Option Ret × Ctx → Type 0 = λ r. Filled c r × Enough needed r in
    let r : Option Ret × Ctx = read_more c (needed - length c.read_buffer) c.reads in
    if_cases P (ltb (length c.read_buffer) needed) (after_read needed short r) (none, c)
      (λ e.
        let room : length c.read_buffer + (needed - length c.read_buffer) ≤ read_buffer_size =
          omega (arith, ltb→lt _ _ e) in
        after_read-Filled c needed short r
          (read_more-Filled c (needed - length c.read_buffer) c.reads refl room h))
      (λ e. ((h, refl), ltb-false→le _ _ e))
