-- ===== src/Dns/Wire/Shorts.antt =====
-- Runs of 16-bit words: what `write_short` stores, `read_short` gives back, and the rest is kept.
use smartdns_ui.Prelude.{
  ℕ, ◌+◌, ◌*◌, ◌/◌, ◌%◌, ◌^◌, ◌≤◌, ◌<◌, ◌≡◌, ◌≢◌, refl, ◌∙◌, List, [], ◌∷◌, length, set, get_elem?,
  length-set, get_elem?-set_self, get_elem?-set_ne, lt→ltb, All, arith, ok, some, ◌⊎◌, inl,
}
use smartdns_ui.Dns.Wire.{read_short, write_short}

abbrev pub put_short : List ℕ → ℕ → ℕ → List ℕ
put_short d p v = set (set d p (v / 256 % 256)) (p + 1) (v % 256)

abbrev pub put_shorts : List ℕ → ℕ → List ℕ → List ℕ
put_shorts d p [] = d
put_shorts d p (v ∷ vs) = put_shorts (put_short d p v) (p + 2) vs

abbrev pub ShortsAt : List ℕ → ℕ → List ℕ → Type 0
ShortsAt d p [] = Unit
ShortsAt d p (v ∷ vs) = (read_short d p ≡ ok (v, p + 2)) × ShortsAt d (p + 2) vs

pub length-put_short : (d : List ℕ) (p v : ℕ) → length (put_short d p v) ≡ length d
length-put_short d p v = length-set (set d p _) (p + 1) _ ∙ length-set d p _

pub write_short-eq-ok :
    (d : List ℕ) (p v : ℕ) → p + 2 ≤ length d → write_short d p v ≡ ok (put_short d p v, p + 2)
unfolding write_short
write_short-eq-ok d p v h = rw (lt→ltb (p + 1) (length d) (omega arith))

get_elem?-put_short :
    (d : List ℕ) (p v q : ℕ) → q ≢ p → q ≢ p + 1 → get_elem? (put_short d p v) q ≡ get_elem? d q
get_elem?-put_short d p v q h k =
    get_elem?-set_ne (set d p _) (p + 1) q _ (λ e. k (omega arith))
    ∙ get_elem?-set_ne d p q _ (λ e. h (omega arith))

read_short-put_short_self :
    (d : List ℕ) (p v : ℕ)
    → p + 2 ≤ length d
    → v < 2 ^ 16
    → read_short (put_short d p v) p ≡ ok (v, p + 2)
unfolding read_short
read_short-put_short_self d p v h r =
    let hi : get_elem? (put_short d p v) p ≡ some (v / 256 % 256) =
      get_elem?-set_ne (set d p _) (p + 1) p _ (λ e. omega arith)
      ∙ get_elem?-set_self d p _ (omega arith) in
    let lo : get_elem? (put_short d p v) (p + 1) ≡ some (v % 256) =
      get_elem?-set_self (set d p _) (p + 1) _ (omega (arith, length-set d p (v / 256 % 256))) in
    let whole : v / 256 % 256 * 256 + v % 256 ≡ v = omega arith in rw (hi, lo, whole)

-- Bytes outside of the run are kept.
pub get_elem?-put_shorts :
    (d : List ℕ) (p : ℕ) (vs : List ℕ) (q : ℕ)
    → (q < p) ⊎ (p + 2 * length vs ≤ q)
    → get_elem? (put_shorts d p vs) q ≡ get_elem? d q
get_elem?-put_shorts d p [] q h = refl
get_elem?-put_shorts d p (v ∷ vs) q h =
    get_elem?-put_shorts (put_short d p v) (p + 2) vs q (ground arith)
    ∙ get_elem?-put_short d p v q (λ e. ground arith) (λ e. ground arith)

pub length-put_shorts : (d : List ℕ) (p : ℕ) (vs : List ℕ) → length (put_shorts d p vs) ≡ length d
length-put_shorts d p [] = refl
length-put_shorts d p (v ∷ vs) =
    length-put_shorts (put_short d p v) (p + 2) vs ∙ length-put_short d p v

-- After a run is written, it is read back.
pub put_shorts-ShortsAt :
    (d : List ℕ) (p : ℕ) (vs : List ℕ)
    → p + 2 * length vs ≤ length d
    → All (λ v. v < 2 ^ 16) vs
    → ShortsAt (put_shorts d p vs) p vs
put_shorts-ShortsAt d p [] h r = tt
put_shorts-ShortsAt d p (v ∷ vs) h (r, rs) = (
  read_kept (put_short d p v) p (p + 2) vs (omega arith)
      ∙ read_short-put_short_self d p v (omega arith) r,
  put_shorts-ShortsAt (put_short d p v) (p + 2) vs (omega (arith, length-put_short d p v)) rs,
)
  where
    read_kept :
        (d : List ℕ) (q p : ℕ) (vs : List ℕ)
        → q + 2 ≤ p
        → read_short (put_shorts d p vs) q ≡ read_short d q
    read_kept d q p vs h =
        unfold read_short in
        rw (
          get_elem?-put_shorts d p vs q (inl (omega arith)),
          get_elem?-put_shorts d p vs (q + 1) (inl (omega arith)),
        )
