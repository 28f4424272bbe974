-- ===== src/DnsCache/Table/Threads/Safe.antt =====
-- The cache of src/dns_cache.c stays in order whatever threads do with it.
use smartdns_ui.Prelude.{
  ℕ, ◌≤◌, ◌<◌, ◌≡◌, refl, sym, ap, ◌∙◌, Bool, true, List, [], ◌∷◌, Option, none, some, ltb, length,
  Bool-cases, Option-cases, inl, inr, arith, ◌>>=◌, Outcome, ok, fail, ltb→lt, is_positive, Ensures,
  Ensures-if,
}
use mathlib.Core.Bool.{true≢false}
use mathlib.Core.Path.{subst}
use smartdns_ui.DnsCache.Entry.{Answer, dns_cache_release, remove}
use smartdns_ui.DnsCache.Entry.Life.{Counted, detach}
use smartdns_ui.DnsCache.Table.{
  Key, Item, Table, stored, remove_by_domain, new_info, new_item, dns_cache_lookup,
  dns_cache_insert,
}
use smartdns_ui.DnsCache.Table.Kept.{Users, IsTable, entry_of}
use smartdns_ui.DnsCache.Table.Calls.{drop-Ends, end-Ends, remove-Ends, detach-Ends}
use smartdns_ui.DnsCache.Table.Insert.Oldest.{
  kept, length-kept, Inserts, new_entry, remove_by_domain-Cleared, add_item-Inserts,
  insert_item-Inserts,
}
use smartdns_ui.DnsCache.Table.Threads.{
  Cache, ThreadCall, look, remove_old, add_answer, set_answer, set_timer, delete_held, update_held,
  use_hit, drop_reference, flush, fire, act, end_expired, is_pending, can_call, with_users, call,
  calls, new_cache,
}
use smartdns_ui.DnsCache.Table.Threads.Entries.{
  IsCache, Safe, Has, used, on_entry-Safe, on_entry-SafeSame, replace_at-Safe, update_timer_at-Safe,
  dns_cache_update-Safe, dns_cache_hitnum_dec_get-Safe, expired_at-Safe,
}
use smartdns_ui.DnsCache.Table.Threads.Whole.{
  Found, one_more, dns_cache_lookup-Found, dns_cache_flush-Flushes,
}

-- In a cache that is in order, with a positive size and no more than that listed: an insertion
-- returns. The old entry of the key leaves the list, then `k` of the oldest entries do, and the new
-- one, with the answer and its data, is at the end; no more than the size are listed. Each of the
-- `k` goes when more entries than the size are counted, the new one included, or memory is short,
-- and the last leaves neither, or no entry, or is the 33rd. If memory is not short then none goes as
-- long as one more fits, and those that go leave the cache full.
pub dns_cache_insert-Inserts :
    (bucket_of : Key → ℕ) (key : Key) (answer : Answer) (cache_data now : ℕ) (mem : ℕ → Bool)
    (u : Users) (t : Table)
    → IsTable 0 u t
    → is_positive t.size ≡ true
    → length t.cache_list ≤ t.size
    → Inserts u
        (kept bucket_of (stored key) t)
        mem
        (new_item
          (stored key)
          (bucket_of (stored key))
          (new_entry (new_info key answer now) cache_data answer.timeout))
        t
        (remove_by_domain bucket_of (stored key) t)
        (dns_cache_insert bucket_of key answer cache_data now mem t)
unfolding dns_cache_insert
dns_cache_insert-Inserts bucket_of key answer cache_data now mem u t h p room = rw p (
    insert_item-Inserts bucket_of (stored key) (new_info key answer now) cache_data answer.timeout
      mem u t h (ground (arith, p)) room)

module _ (bucket_of : Key → ℕ) (c : Cache) (h : IsCache c) where
  look-Safe : (key : Key) → Safe (call bucket_of c (look key))
  unfolding call
  look-Safe key = elim (Bool-cases (is_positive c.table.size)) [
    | inl p ↦
        let (r, ran, first, f) = dns_cache_lookup-Found bucket_of key c.users c.table h.0 p in
        rw ran (found r f)
    | inr p ↦
        let ran : dns_cache_lookup bucket_of key c.table ≡ ok (none, c.table) =
          unfold dns_cache_lookup in rw p refl in
        rw ran (c, refl, h)
  ]
    where
      found :
          (r : Option ℕ × Table)
          → Found key (bucket_of key) c.users c.table r
          → Safe (elim r.0 [
            | none ↦ ok (record c { table = r.1 })
            | some a ↦ ok (with_users c a (one_more (c.users a)) r.1)
          ])
      found (none, t) (k, list, size, e) =
          (record c { table = t }, refl, (k, omega (arith, ap length list, size, h.1)))
      found (some a, t) (k, list, size, item, at, e, last) = (
        with_users c a (one_more (c.users a)) t,
        refl,
        (k, omega (arith, ap length list, size, h.1)),
      )

  remove_old-Safe : (key : Key) → Safe (call bucket_of c (remove_old key))
  unfolding call
  remove_old-Safe key =
      let (t, ran, k, list, next, size, num, num') =
        remove_by_domain-Cleared bucket_of (stored key) c.users c.table h.0 in
      (
        record c { table = t },
        ap (λ r. r >>= λ x. ok (record c { table = x })) ran,
        (k, omega (arith, ap length list, length-kept bucket_of (stored key) c.table, size, h.1)),
      )

  add_answer-Safe :
      (key : Key) (answer : Answer) (cache_data now : ℕ) (mem : ℕ → Bool)
      → is_positive c.table.size ≡ true
      → Safe (call bucket_of c (add_answer key answer cache_data now mem))
  unfolding call
  add_answer-Safe key answer cache_data now mem p =
      let (t, ran, k, next, size, room, n, list, needed, new, few, t₁, t₂, same, run, last) =
        add_item-Inserts bucket_of (stored key) (new_info key answer now) cache_data answer.timeout
          mem c.users c.table h.0 (ground (arith, p)) h.1 in
      (
        record c { table = t },
        ap (λ r. r >>= λ x. ok (record c { table = x })) ran,
        (k, omega (arith, room, size)),
      )

  flush-Safe : Safe (call bucket_of c flush)
  unfolding call
  flush-Safe =
      let (t, ran, k, empty, size) = dns_cache_flush-Flushes c.users c.table h.0 in
      rw ran (record c { table = t }, refl, (k, omega (arith, ap length empty)))

  holder : (a : ℕ) → ltb 0 (c.users a).holders ≡ true → Has c h a
  holder a e = used c h a (omega (arith, ltb→lt 0 (c.users a).holders e))

  armed :
      (a : ℕ)
      → is_pending (c.table.heap a) ≡ true
      → (item : Item) × (c.table.heap a ≡ some item) × (item.entry.pending ≡ true)
  armed a e = elim (Option-cases (c.table.heap a)) [
    | inl k ↦ absurd (true≢false (sym e ∙ ap is_pending k))
    | inr (item, k) ↦ (item, k, sym (ap is_pending k) ∙ e)
  ]

  -- Each call that a thread can make is no fault, and leaves the cache in order.
  call-Safe : (next : ThreadCall) → can_call c next ≡ true → Safe (call bucket_of c next)
  unfolding call
  call-Safe (look key) e = look-Safe key
  call-Safe (remove_old key) e = remove_old-Safe key
  call-Safe (add_answer key answer cache_data now mem) e =
      add_answer-Safe key answer cache_data now mem e
  call-Safe (set_answer a answer now) e = replace_at-Safe c h a answer now (holder a e)
  call-Safe (set_timer a timeout) e = update_timer_at-Safe c h a timeout (holder a e)
  call-Safe (delete_held a) e =
      let (item, at, k) = holder a e in
      let (s, r, q, off) = remove-Ends (c.users a) item.entry c.table.put k in
      on_entry-SafeSame c h a item remove at (s, r, q, λ l. absurd (true≢false (sym l ∙ off)))
  call-Safe (update_held a) e = dns_cache_update-Safe c h a (holder a e)
  call-Safe (use_hit a) e = dns_cache_hitnum_dec_get-Safe c h a (holder a e)
  call-Safe (drop_reference a) e =
      let (item, at, k) = holder a e in
      on_entry-Safe c h a item _ dns_cache_release at
        (drop-Ends (c.users a) item.entry c.table.put k (ltb→lt 0 _ e))
  call-Safe flush e = flush-Safe
  call-Safe (fire a) e =
      let (item, at, pending) = armed a e in
      let k : Counted (c.users a) (some item.entry) =
        subst (λ o. Counted (c.users a) (entry_of o)) at (h.0.counted a) in
      let (s, r, q, stays) = detach-Ends (c.users a) item.entry c.table.put k pending in
      on_entry-Safe c h a item _ detach at (s, r, q, λ l. sym stays ∙ l)
  call-Safe (act a action) e =
      let running : 0 < (c.users a).running = ltb→lt 0 _ e in
      expired_at-Safe c h a action running (used c h a (omega (arith, running)))
  call-Safe (end_expired a) e =
      let ending : 0 < (c.users a).ending = ltb→lt 0 _ e in
      let (item, at, k) = used c h a (omega (arith, ending)) in
      on_entry-Safe c h a item _ dns_cache_release at
        (end-Ends (c.users a) item.entry c.table.put k ending)

-- Whatever threads do with a cache that is in order, one locked section at a time and in any order,
-- with no entry that they have no reference to: no call uses an entry after it is freed or frees it
-- twice; every reference count is the sum of the entry's place, its timer, those who hold it or have
-- yet to release it, and of one for each time that a callback asked for the timer after another
-- thread had set it; `num` is the number of the entries that are not freed; the list has those that
-- are listed, each once, and never more than the size of the cache.
pub calls-IsCache :
    (bucket_of : Key → ℕ) (c : Cache) (list : List ThreadCall)
    → IsCache c
    → Ensures IsCache (calls bucket_of c list)
unfolding calls
calls-IsCache bucket_of c [] h = h
calls-IsCache bucket_of c (next ∷ more) h =
    let rest : Outcome Cache = call bucket_of c next >>= λ c'. calls bucket_of c' more in
    Ensures-if IsCache (can_call c next) rest fail
      (λ e.
        let (c', ran, h') = call-Safe bucket_of c h next e in
        subst (λ o. Ensures IsCache (o >>= λ x. calls bucket_of x more)) (sym ran)
          (calls-IsCache bucket_of c' more h'))
      (λ e. tt)

-- A new cache is in order.
pub new_cache-IsCache : (size mem_size : ℕ) → IsCache (new_cache size mem_size)
new_cache-IsCache size mem_size = (
  record {
    fresh = λ a k. refl;
    counted = λ a. (refl, refl, refl, refl);
    listing = λ a. refl;
    all_listed = refl;
    number = refl;
  },
  omega arith,
)
