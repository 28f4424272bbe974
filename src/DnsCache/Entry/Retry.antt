-- ===== src/DnsCache/Entry/Retry.antt =====
-- `dns_cache_expired` when the callback asks for the timer to be set again.
use smartdns_ui.Prelude.{
  ℕ, ◌+◌, ◌-◌, ◌<◌, ◌≡◌, refl, sym, inl, inr, arith, true, false, Bool-cases, List, Option, none,
  some, ok,
}
use mathlib.Core.Path.{subst}
use smartdns_ui.DnsCache.Entry.{
  Info, Entry, Store, Action, action_retry, action_update, expired_action,
}
use smartdns_ui.DnsCache.Entry.Life.{
  World, act, end_expired, step, is_listed, is_pending, Reaches, IsCounted,
}
use smartdns_ui.DnsCache.Entry.Keeps.{dns_cache_release-Left, Left}
use smartdns_ui.DnsCache.Entry.Safe.{Reaches-IsCounted}

-- The whole of `dns_cache_expired`, when nothing comes between its two parts, leaves the entry as
-- long in the cache as it was, and without a timer.
abbrev pub StaysUnarmed : World → Action → Type 0
StaysUnarmed w a =
    (v : World) × (u : World) × (step w (act a) ≡ ok v)
    × (step v end_expired ≡ ok u)
    × (is_pending u.store ≡ false)
    × (is_listed u.store ≡ is_listed w.store)

module _ (e : Entry) (s : Store) where
  unarmed-Left :
      (put : List ℕ) (expires n : ℕ)
      → e.pending ≡ false
      → (e.listed ≡ true → 0 < n)
      → Left (record e { expires = expires }) put n s
      → (is_pending s ≡ false) × (is_listed s ≡ e.listed)
  unarmed-Left put expires n q l (inl (z, p)) =
      subst (λ x. (is_pending x ≡ false) × (is_listed x ≡ e.listed)) (sym p)
        (refl, elim (Bool-cases e.listed) [ inl t ↦ absurd (omega (arith, l t)) | inr f ↦ sym f ])
  unarmed-Left put expires n q l (inr (z, p)) =
      subst (λ x. (is_pending x ≡ false) × (is_listed x ≡ e.listed)) (sym p) (q, refl)

-- The two actions that set the timer, and the ticks that they set it to.
data Sets (info : Info) : Action → ℕ → Type 0 where
  retry : Sets info action_retry 300
  update : Sets info action_update info.timeout

module _ (put : List ℕ) (h r n l : ℕ) (e : Entry) where
  abbrev world : World
  world = record {
    store = record { entry = some e; put = put };
    holders = h;
    running = r;
    ending = n;
    lost = l;
  }

  act_unarmed :
      (a : Action) (timeout : ℕ)
      → Sets e.info a timeout
      → e.pending ≡ false
      → step world (act a)
        ≡ ok (record world {
          store = record { entry = some (record e { expires = timeout }); put = put };
          running = r - 1;
          ending = n + 1;
        })
  unfolding expired_action
  act_unarmed _ _ retry q = rw q refl
  act_unarmed _ _ update q = rw q refl

  world_unarmed :
      (a : Action) (timeout : ℕ)
      → Sets e.info a timeout
      → IsCounted world
      → 0 < r
      → e.pending ≡ false
      → StaysUnarmed world a
  world_unarmed a timeout t c busy q =
      let e' = record e { expires = timeout } in
      let (s, p, left) = dns_cache_release-Left e' put (e.ref - 1) (omega (arith, c.1)) in
      let (off, same) =
        unarmed-Left e s put timeout (e.ref - 1) q (λ i. ground (arith, c.0)) left in
      (
        _,
        record world { store = s; running = r - 1; ending = n + 1 - 1 },
        act_unarmed a timeout t q,
        rw p refl,
        off,
        same,
      )

-- When the timer of an entry has run out and nobody has set it since, then `dns_cache_expired`,
-- told by the callback to try again or to go on with the entry's own timeout, sets no timer: the
-- entry stays in the cache if it was there, and nothing will make it expire. `dns_timer_mod`, by
-- which it asks for the timer, leaves a timer that is not pending alone.
pub Reaches-StaysUnarmed :
    (w : World)
    → Reaches w
    → 0 < w.running
    → is_pending w.store ≡ false
    → StaysUnarmed w action_retry × StaysUnarmed w action_update
Reaches-StaysUnarmed w reached busy q =
    go w.store.entry w.store.put w.holders w.running w.ending w.lost (Reaches-IsCounted w reached)
      busy q
  where
    go :
        (o : Option Entry) (put : List ℕ) (h r n l : ℕ)
        → IsCounted (record {
          store = record { entry = o; put = put };
          holders = h;
          running = r;
          ending = n;
          lost = l;
        })
        → 0 < r
        → is_pending (record { entry = o; put = put }) ≡ false
        → StaysUnarmed
            (record {
              store = record { entry = o; put = put };
              holders = h;
              running = r;
              ending = n;
              lost = l;
            })
            action_retry
          × StaysUnarmed
              (record {
                store = record { entry = o; put = put };
                holders = h;
                running = r;
                ending = n;
                lost = l;
              })
              action_update
    go none put h r n l c busy q = absurd (omega (arith, c.1))
    go (some e) put h r n l c busy q = (
      world_unarmed put h r n l e action_retry _ retry c busy q,
      world_unarmed put h r n l e action_update _ update c busy q,
    )
