-- ===== src/DnsCache/Entry/Safe.antt =====
-- An entry is not used after it is freed, whatever threads do.
use smartdns_ui.Prelude.{
  ℕ, ◌+◌, ◌-◌, ◌<◌, ◌≡◌, refl, ◌∙◌, inl, inr, arith, true, false, Bool-cases, List, [], Option,
  none, some, ltb→lt, ap, ◌==◌, Outcome, ok, ◌>>=◌,
}
use mathlib.Core.Path.{subst}
use smartdns_ui.DnsCache.Entry.{
  Info, Entry, Store, Action, action_ok, action_del, action_retry, action_update, expired_action,
  insert,
}
use smartdns_ui.DnsCache.Entry.Life.{
  World, Event, look, drop_reference, set_answer, set_timer, evict_entry, delete_held, fire, act,
  end_expired, can_happen, step, Reaches, inserted, happens, Counted, IsCounted,
}
use smartdns_ui.DnsCache.Entry.Keeps.{
  Keeps, dns_cache_release-Keeps, remove-Keeps, replace-Keeps, update_timer-Keeps,
}

-- A step that is no fault and keeps the count.
abbrev Goes : World → Event → Type 0
Goes w event = (w' : World) × (step w event ≡ ok w') × IsCounted w'

-- A world by its parts.
abbrev world : Store → ℕ → ℕ → ℕ → ℕ → World
world s h r n l = record { store = s; holders = h; running = r; ending = n; lost = l }

abbrev store_of : Option Entry → List ℕ → Store
store_of e put = record { entry = e; put = put }

Goes-Keeps :
    (w : World) (h r n l : ℕ) (event : Event) (o : Outcome Store)
    → step w event ≡ (o >>= λ s. ok (world s h r n l))
    → Keeps (world w.store h r n l) o
    → Goes w event
Goes-Keeps w h r n l event o e (s, p, k) =
    (world s h r n l, e ∙ ap (λ x. x >>= λ s. ok (world s h r n l)) p, k)

module _ (put : List ℕ) (h r n l : ℕ) where
  freed-Goes :
      (event : Event)
      → IsCounted (world (store_of none put) h r n l)
      → can_happen (world (store_of none put) h r n l) event ≡ true
      → Goes (world (store_of none put) h r n l) event
  freed-Goes look c t = absurd (ground arith)
  freed-Goes drop_reference c t = absurd (ground arith)
  freed-Goes (set_answer a now) c t = absurd (ground arith)
  freed-Goes (set_timer timeout) c t = absurd (ground arith)
  freed-Goes evict_entry c t = absurd (ground arith)
  freed-Goes delete_held c t = absurd (ground arith)
  freed-Goes fire c t = absurd (ground arith)
  freed-Goes (act a) c t = absurd (ground arith)
  freed-Goes end_expired c t = absurd (ground arith)

  module _ (e : Entry) where
    abbrev live : World
    live = world (store_of (some e) put) h r n l

    act-Goes : (a : Action) → IsCounted live → 0 < r → Goes live (act a)
    unfolding expired_action
    act-Goes action_ok c t = (_, refl, (ground (arith, c.0), c.1))
    act-Goes action_del c t =
        let (s, p, k) =
          remove-Keeps (world (store_of (some e) put) h (r - 1) (n + 1) l) e put
            (ground (arith, c.0), c.1) in
        rw p (_, refl, k)
    act-Goes action_retry c t = elim (Bool-cases e.pending) [
      | inl q ↦ rw q (_, refl, (ground (arith, c.0), c.1))
      | inr q ↦ rw q (_, refl, (ground (arith, c.0), c.1))
    ]
    act-Goes action_update c t = elim (Bool-cases e.pending) [
      | inl q ↦ rw q (_, refl, (ground (arith, c.0), c.1))
      | inr q ↦ rw q (_, refl, (ground (arith, c.0), c.1))
    ]

    live-Goes : (event : Event) → IsCounted live → can_happen live event ≡ true → Goes live event
    live-Goes look c t =
        let more : (e.ref + 1 == 1) ≡ false = ground (arith, c.1) in
        rw more (_, refl, (ground (arith, c.0), omega arith))
    live-Goes drop_reference c t = Goes-Keeps _ (h - 1) r n l drop_reference _ refl (
        dns_cache_release-Keeps (world (store_of (some e) put) (h - 1) r n l) e put
          (ground (arith, c.0)))
    live-Goes (set_answer a now) c t =
        Goes-Keeps _ h r n l (set_answer a now) _ refl (replace-Keeps live a now e put c)
    live-Goes (set_timer timeout) c t =
        Goes-Keeps _ h r n l (set_timer timeout) _ refl (update_timer-Keeps live timeout e put c)
    live-Goes evict_entry c t = Goes-Keeps _ h r n l evict_entry _ refl (remove-Keeps live e put c)
    live-Goes delete_held c t = Goes-Keeps _ h r n l delete_held _ refl (remove-Keeps live e put c)
    live-Goes fire c t = (_, refl, (ground (arith, c.0), c.1))
    live-Goes (act a) c t = act-Goes a c (ltb→lt 0 r t)
    live-Goes end_expired c t = Goes-Keeps _ h r (n - 1) l end_expired _ refl (
        dns_cache_release-Keeps (world (store_of (some e) put) h r (n - 1) l) e put
          (ground (arith, c.0)))

step-Goes : (w : World) (event : Event) → IsCounted w → can_happen w event ≡ true → Goes w event
step-Goes w event c t = go w.store.entry w.store.put w.holders w.running w.ending w.lost c t
  where
    go :
        (o : Option Entry) (put : List ℕ) (h r n l : ℕ)
        → IsCounted (world (store_of o put) h r n l)
        → can_happen (world (store_of o put) h r n l) event ≡ true
        → Goes (world (store_of o put) h r n l) event
    go none put h r n l = freed-Goes put h r n l event
    go (some e) put h r n l = live-Goes put h r n l e event

-- A new entry is referenced by its place in the cache and by its timer.
insert-ok :
    (info : Info) (cache_data timeout : ℕ)
    → insert info cache_data timeout
      ≡ ok (record {
        entry = some (record {
          ref = 2;
          listed = true;
          pending = true;
          expires = timeout;
          info = info;
          cache_data = cache_data;
        });
        put = [];
      })
unfolding insert
insert-ok info cache_data timeout = refl

pub Reaches-IsCounted : (w : World) → Reaches w → IsCounted w
Reaches-IsCounted u (inserted info cache_data timeout s e) =
    let new = insert-ok info cache_data timeout in
    let same : record {
      entry = some (record {
        ref = 2;
        listed = true;
        pending = true;
        expires = timeout;
        info = info;
        cache_data = cache_data;
      });
      put = [];
    }
        ≡ s =
      cc in
    subst (λ x. Counted u x.entry) same (refl, omega arith)
Reaches-IsCounted u (happens v w event h t e) =
    let (w', p, c) = step-Goes v event (Reaches-IsCounted v h) t in
    let same : w' ≡ w = cc in subst IsCounted same c

-- Whatever threads do with an entry from its insertion on, one locked section after the other: its
-- reference count is the sum of its place in the cache, its timer, the callers that hold it and the
-- calls of `dns_cache_expired` that have yet to release it, and of one for each time that a callback
-- asked for the timer after another thread had set it; and no call that can come next uses the entry
-- after it is freed or counts below 0.
pub Reaches-Counted :
    (w : World)
    → Reaches w
    → IsCounted w
      × ((event : Event) → can_happen w event ≡ true → (w' : World) × (step w event ≡ ok w'))
Reaches-Counted w h =
    let c = Reaches-IsCounted w h in
    (c, λ event t. let (w', p, _) = step-Goes w event c t in (w', p))
