-- ===== src/DnsCache/Entry/Keeps.antt =====
-- The calls on an entry keep its reference count what its users make it.
use smartdns_ui.Prelude.{
  ℕ, zero, suc, ◌+◌, ◌<◌, ◌≡◌, refl, sym, ◌⊎◌, inl, inr, arith, Bool, true, false, Bool-cases, List,
  [], ◌∷◌, ◌++◌, none, some, lt→ltb, ap, ◌==◌, if◌then◌else◌, Outcome, ok, ◌>>=◌,
}
use mathlib.Core.Path.{subst}
use smartdns_ui.DnsCache.Entry.{
  Info, Entry, Store, Answer, dns_cache_release, remove, replace, update_timer, rearm, answer_info,
  new_data,
}
use smartdns_ui.DnsCache.Entry.Life.{World, due, Counted}

-- What a release leaves of an entry with `n` more references.
abbrev pub Left : Entry → List ℕ → ℕ → Store → Type 0
Left e put n s =
    ((n ≡ 0) × (s ≡ record { entry = none; put = put ++ e.cache_data ∷ [] }))
    ⊎ ((0 < n) × (s ≡ record { entry = some (record e { ref = n }); put = put }))

abbrev entry_of : ℕ → Bool → Bool → ℕ → Info → ℕ → Entry
entry_of ref listed pending expires info cache_data = record {
  ref = ref;
  listed = listed;
  pending = pending;
  expires = expires;
  info = info;
  cache_data = cache_data;
}

pub dns_cache_release-Left :
    (e : Entry) (put : List ℕ) (n : ℕ)
    → e.ref ≡ suc n
    → (s : Store) × (dns_cache_release (record { entry = some e; put = put }) ≡ ok s)
      × Left e put n s
unfolding dns_cache_release
dns_cache_release-Left e put zero r = rw r (_, refl, inl (refl, refl))
dns_cache_release-Left e put (suc n) r = rw (lt→ltb 1 e.ref (omega (arith, r))) (
  _,
  refl,
  inr (
    omega arith,
    ap (λ k. record { entry = some (record e { ref = k }); put = put }) (omega (arith, r)),
  ),
)

-- A call on the store of `w` that is no fault, after which the users are those of `w`.
abbrev pub Keeps : World → Outcome Store → Type 0
Keeps w o = (s : Store) × (o ≡ ok s) × Counted w s.entry

module _ (w : World) where
  Left-Counted :
      (e : Entry) (put : List ℕ) (s : Store) → Left e put (due w e + w.lost) s → Counted w s.entry
  Left-Counted e put s (inl (z, p)) =
      subst (λ x. Counted w x.entry) (sym p) (omega arith, omega arith, omega arith, omega arith)
  Left-Counted e put s (inr (z, p)) = subst (λ x. Counted w x.entry) (sym p) (refl, z)

  -- A release by one more user than there are.
  pub dns_cache_release-Keeps :
      (e : Entry) (put : List ℕ)
      → e.ref ≡ suc (due w e + w.lost)
      → Keeps w (dns_cache_release (record { entry = some e; put = put }))
  dns_cache_release-Keeps e put q =
      let (s, p, left) = dns_cache_release-Left e put (due w e + w.lost) q in
      (s, p, Left-Counted e put s left)

  release_twice :
      (e : Entry) (put : List ℕ)
      → e.ref ≡ suc (suc (due w e + w.lost))
      → Keeps w
          (do s ← dns_cache_release (record { entry = some e; put = put }); dns_cache_release s)
  release_twice e put q =
      let n = due w e + w.lost in
      let (s, p, left) = dns_cache_release-Left e put (suc n) q in
      rw p (elim left [
        | inl (z, _) ↦ absurd (omega arith)
        | inr (_, t) ↦ rw t (dns_cache_release-Keeps (record e { ref = suc n }) put refl)
      ])

  Keeps-if :
      (b : Bool) (o o' : Outcome Store)
      → (b ≡ true → Keeps w o)
      → (b ≡ false → Keeps w o')
      → Keeps w (if b then o else o')
  Keeps-if true o o' f g = f refl
  Keeps-if false o o' f g = g refl

  pub remove-Keeps :
      (e : Entry) (put : List ℕ)
      → Counted w (some e)
      → Keeps w (remove (record { entry = some e; put = put }))
  unfolding remove
  remove-Keeps e put c =
      Keeps-if e.listed _ _
        (λ l.
          Keeps-if e.pending _ _
            (λ k.
              release_twice (record e { listed = false; pending = false }) put
                (ground (arith, c.0)))
            (λ k. dns_cache_release-Keeps (record e { listed = false }) put (ground (arith, c.0))))
        (λ l. (_, refl, c))

  rearm-Keeps :
      (s : Store) (e : Entry) (timeout : ℕ) → Counted w (some e) → Keeps w (rearm s e timeout)
  unfolding rearm
  rearm-Keeps s e timeout c = elim (Bool-cases e.pending) [
    | inl k ↦ rw k (_, refl, (ground (arith, c.0), c.1))
    | inr k ↦
        let more : (e.ref + 1 == 1) ≡ false = ground (arith, c.1) in
        rw (k, more) (_, refl, (ground (arith, c.0), omega arith))
  ]

  -- The put of data changes no count.
  Keeps-put :
      (o : Outcome Store) (old : List ℕ)
      → Keeps w o
      → Keeps w (do s ← o; ok (record s { put = s.put ++ old }))
  Keeps-put o old (s, p, k) = rw p (_, refl, k)

  pub replace-Keeps :
      (a : Answer) (now : ℕ) (e : Entry) (put : List ℕ)
      → Counted w (some e)
      → Keeps w (replace a now (record { entry = some e; put = put }))
  unfolding replace
  replace-Keeps a now e put c =
      Keeps-if e.listed _ _
        (λ l. Keeps-put _ _ (
          rearm-Keeps (record { entry = some e; put = put })
            (record e { info = answer_info e.info a now; cache_data = new_data e a.cache_data })
            a.timeout (c.0, c.1)))
        (λ l. (_, refl, c))

  pub update_timer-Keeps :
      (timeout : ℕ) (e : Entry) (put : List ℕ)
      → Counted w (some e)
      → Keeps w (update_timer timeout (record { entry = some e; put = put }))
  unfolding update_timer
  update_timer-Keeps timeout e put c =
      Keeps-if e.listed _ _ (λ l. rearm-Keeps (record { entry = some e; put = put }) e timeout c)
        (λ l. (_, refl, c))
