-- ===== src/Http2/State/Counted.antt =====
-- The counters of active streams of src/http_parse/http2.c, against the streams in the table.
use smartdns_ui.Prelude.{
  ℕ, ◌+◌, ◌-◌, ◌≤◌, ◌<◌, ◌≡◌, ap, sym, ◌∙◌, Bool, true, false, Option, none, some, List, [], ◌∷◌,
  ltb, leb, ◌==◌, ==_iff, ◌&&◌, not, if◌then◌else◌, if_cases, Bool-cases, Option-cases, inl, inr,
  arith,
}
use mathlib.Core.Path.{subst}
use mathlib.Core.Bool.{true≢false}
use smartdns_ui.Http2.State.{
  Stream, Ctx, is_local_stream_id, find_stream, new_stream, create_stream, drop_stream,
  count_removed, remove_stream,
}

abbrev one : Bool → ℕ
one b = if b then 1 else 0

-- The streams whose identifier has a property
abbrev pub count : (ℕ → Bool) → List Stream → ℕ
count p [] = 0
count p (s ∷ streams) = one (p s.stream_id) + count p streams

abbrev pub is_local : Ctx → ℕ → Bool
is_local c stream_id = is_local_stream_id c.is_client stream_id

-- The counters count, and the peer has no more streams than it is let have, if there is a limit.
abbrev pub IsCounted : Ctx → Type 0
IsCounted c =
    (c.active_local_streams ≡ count (is_local c) c.streams)
    × (c.active_peer_streams ≡ count (λ stream_id. not (is_local c stream_id)) c.streams)
    × (0 < c.max_concurrent_streams → c.active_peer_streams ≤ c.max_concurrent_streams)

abbrev pub OnCtx : (Ctx → Type 0) → Option Ctx → Type 0
OnCtx P none = Unit
OnCtx P (some c) = P c

local_counted : (b : Bool) (n : ℕ) → b ≡ true → (one b + n ≡ n + 1) × (one (not b) + n ≡ n)
local_counted b n e = rw e (omega arith, omega arith)

peer_counted : (b : Bool) (n : ℕ) → b ≡ false → (one b + n ≡ n) × (one (not b) + n ≡ n + 1)
peer_counted b n e = rw e (omega arith, omega arith)

-- The context after a stream is opened: a stream of this side's is opened only within what the
-- peer lets this side have.
abbrev pub Opened : Ctx → ℕ → Ctx → Type 0
Opened c stream_id c' =
    IsCounted c'
    × (is_local c stream_id ≡ true → c'.active_local_streams ≤ c.peer_max_concurrent_streams)

create_stream-IsCounted :
    (c : Ctx) (stream_id : ℕ) → IsCounted c → OnCtx (Opened c stream_id) (create_stream c stream_id)
unfolding create_stream
create_stream-IsCounted c stream_id (l, p, m) =
    let seen : ℕ → ℕ = λ n. if ltb n stream_id then stream_id else n in
    let local : Ctx = record c {
      max_local_stream_id_seen = seen c.max_local_stream_id_seen;
      streams = new_stream c stream_id ∷ c.streams;
      active_local_streams = c.active_local_streams + 1;
    } in
    let peer : Ctx = record c {
      max_peer_stream_id_seen = seen c.max_peer_stream_id_seen;
      streams = new_stream c stream_id ∷ c.streams;
      active_peer_streams = c.active_peer_streams + 1;
    } in
    let no_local : Bool = leb c.peer_max_concurrent_streams c.active_local_streams in
    let no_peer : Bool =
      ltb 0 c.max_concurrent_streams && leb c.max_concurrent_streams c.active_peer_streams in
    let P : Option Ctx → Type 0 = OnCtx (Opened c stream_id) in
    let ours : ℕ = count (is_local c) c.streams in
    let theirs : ℕ = count (λ n. not (is_local c n)) c.streams in
    if_cases P (is_local c stream_id) (if no_local then none else some local)
      (if no_peer then none else some peer)
      (λ e.
        if_cases P no_local none (some local) (λ k. tt)
          (λ k. (
            (
              omega (arith, l, (local_counted (is_local c stream_id) ours e).0),
              omega (arith, p, (local_counted (is_local c stream_id) theirs e).1),
              m,
            ),
            λ q. ground arith,
          )))
      (λ e.
        if_cases P no_peer none (some peer) (λ k. tt)
          (λ k. (
            (
              omega (arith, l, (peer_counted (is_local c stream_id) ours e).0),
              omega (arith, p, (peer_counted (is_local c stream_id) theirs e).1),
              λ q. ground arith,
            ),
            λ q. absurd (true≢false (sym q ∙ e)),
          )))

else_branch : (b : Bool) (x y z : Option Stream) → b ≡ false → (if b then x else y) ≡ z → y ≡ z
else_branch true x y z e h = absurd (true≢false e)
else_branch false x y z e h = h

count-drop_stream :
    (p : ℕ → Bool) (streams : List Stream) (stream_id : ℕ) (s : Stream)
    → find_stream streams stream_id ≡ some s
    → count p (drop_stream streams stream_id) + one (p stream_id) ≡ count p streams
unfolding find_stream
count-drop_stream p [] stream_id s e = cc
count-drop_stream p (t ∷ streams) stream_id s e = elim (Bool-cases (t.stream_id == stream_id)) [
  | inl k ↦
      let ids : t.stream_id ≡ stream_id = (==_iff t.stream_id stream_id).0 k in
      let same : one (p stream_id) ≡ one (p t.stream_id) = ap (λ n. one (p n)) (sym ids) in
      rw k (omega (arith, same))
  | inr k ↦
      let e' : find_stream streams stream_id ≡ some s =
        else_branch (t.stream_id == stream_id) (some t) (find_stream streams stream_id) (some s) k
          e in
      rw k (omega (arith, count-drop_stream p streams stream_id s e'))
]

remove_stream-IsCounted :
    (c : Ctx) (stream_id : ℕ) → IsCounted c → IsCounted (remove_stream c stream_id)
unfolding remove_stream
remove_stream-IsCounted c stream_id (l, p, m) =
    let c' : Ctx = record c { streams = drop_stream c.streams stream_id } in
    let removed : Option Stream → Ctx =
      λ o. elim o [ none ↦ c | some s ↦ count_removed c' stream_id ] in
    let ours : Ctx = record c' { active_local_streams = c.active_local_streams - 1 } in
    let theirs : Ctx = record c' { active_peer_streams = c.active_peer_streams - 1 } in
    let left : ℕ = count (is_local c) c'.streams in
    let right : ℕ = count (λ n. not (is_local c n)) c'.streams in
    elim (Option-cases (find_stream c.streams stream_id)) [
      | inl e ↦ subst (λ o. IsCounted (removed o)) (sym e) (l, p, m)
      | inr (s, e) ↦
          let dropped = count-drop_stream (is_local c) c.streams stream_id s e in
          let dropped' = count-drop_stream (λ n. not (is_local c n)) c.streams stream_id s e in
          subst (λ o. IsCounted (removed o)) (sym e)
            (if_cases IsCounted (is_local c stream_id) ours theirs
              (λ k.
                let counted = local_counted (is_local c stream_id) left k in
                let counted' = local_counted (is_local c stream_id) right k in
                (omega (arith, l, dropped, counted.0), omega (arith, p, dropped', counted'.1), m))
              (λ k.
                let counted = peer_counted (is_local c stream_id) left k in
                let counted' = peer_counted (is_local c stream_id) right k in
                (
                  omega (arith, l, dropped, counted.0),
                  omega (arith, p, dropped', counted'.1),
                  λ q. omega (arith, m q),
                )))
    ]

-- In a context whose counters are right, opening and removing a stream keep the counters of active
-- streams right: each side's is the number of its streams in the table. The peer's streams stay
-- within the limit of this side, if it has one, and a stream of this side that is opened is within
-- the limit of the peer.
pub streams-IsCounted :
    (c : Ctx) (stream_id : ℕ)
    → IsCounted c
    → OnCtx (Opened c stream_id) (create_stream c stream_id) × IsCounted (remove_stream c stream_id)
streams-IsCounted c stream_id h =
    (create_stream-IsCounted c stream_id h, remove_stream-IsCounted c stream_id h)
