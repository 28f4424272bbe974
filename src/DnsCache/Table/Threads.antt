-- ===== src/DnsCache/Table/Threads.antt =====
-- The cache of src/dns_cache.c among threads: what they can do next, one locked section at a time,
-- and who has a reference to which entry.
pub mod Entries
pub mod Whole
pub mod Safe
pub mod Answers
use smartdns_ui.Prelude.{
  is_positive, ℕ, ◌+◌, ◌-◌, ◌==◌, Bool, true, false, Option, none, some, List, [], ◌∷◌, ltb,
  if◌then◌else◌, Outcome, ok, fail, fault, ◌>>=◌,
}
use smartdns_ui.DnsCache.Entry.{Entry, Store, Answer, Action, dns_cache_release, expired_action}
use smartdns_ui.DnsCache.Entry.Life.{World, detach, loses}
use smartdns_ui.DnsCache.Table.{
  Key, Item, Table, commit, on_entry, dns_cache_init, dns_cache_lookup, replace_at, update_timer_at,
  dns_cache_delete, dns_cache_flush, dns_cache_update, dns_cache_hitnum_dec_get, remove_by_domain,
  add_item, new_info, stored,
}
use smartdns_ui.DnsCache.Table.Kept.{Users, set_users}

pub record Cache : Type 0 where
  pub table : Table
  pub users : Users

-- `dns_cache_expired` up to its last lines, with the action that the callback answered; the result
-- is `mod_ret`.
unfoldable pub expired_at : Action → ℕ → Table → Outcome (ℕ × Table)
unfolding expired_action
expired_at action a t = elim (t.heap a) [
  | none ↦ fault
  | some item ↦ expired_action action (record { entry = some item.entry; put = t.put }) >>= λ r.
      ok (r.0, commit t a item r.1)
]

-- What a thread does: a lookup, or one of the two sections under the lock of `dns_cache_insert`,
-- which removes the old entry of the key and adds the new one; with an entry that it has, the sections of
-- `dns_cache_replace` and `dns_cache_update_timer`, `dns_cache_delete`, `dns_cache_update`,
-- `dns_cache_hitnum_dec_get` or its release; a flush; and the timer of an entry with the two parts
-- of `dns_cache_expired`.
pub data ThreadCall : Type 0 where
  look : Key → ThreadCall
  remove_old : Key → ThreadCall
  add_answer : Key → Answer → ℕ → ℕ → (ℕ → Bool) → ThreadCall
  set_answer : ℕ → Answer → ℕ → ThreadCall
  set_timer : ℕ → ℕ → ThreadCall
  delete_held : ℕ → ThreadCall
  update_held : ℕ → ThreadCall
  use_hit : ℕ → ThreadCall
  drop_reference : ℕ → ThreadCall
  flush : ThreadCall
  fire : ℕ → ThreadCall
  act : ℕ → Action → ThreadCall
  end_expired : ℕ → ThreadCall

abbrev pub is_pending : Option Item → Bool
is_pending o = elim o [ none ↦ false | some item ↦ item.entry.pending ]

-- Who has a reference has the pointer, and the timer wheel has it by its link.
abbrev pub can_call : Cache → ThreadCall → Bool
can_call c (look key) = true
can_call c (remove_old key) = true
can_call c (add_answer key answer cache_data now mem) = is_positive c.table.size
can_call c (set_answer a answer now) = ltb 0 (c.users a).holders
can_call c (set_timer a timeout) = ltb 0 (c.users a).holders
can_call c (delete_held a) = ltb 0 (c.users a).holders
can_call c (update_held a) = ltb 0 (c.users a).holders
can_call c (use_hit a) = ltb 0 (c.users a).holders
can_call c (drop_reference a) = ltb 0 (c.users a).holders
can_call c flush = true
can_call c (fire a) = is_pending (c.table.heap a)
can_call c (act a _) = ltb 0 (c.users a).running
can_call c (end_expired a) = ltb 0 (c.users a).ending

-- The users of `a` become `w`.
abbrev pub with_users : Cache → ℕ → World → Table → Cache
with_users c a w t = record { table = t; users = set_users c.users a w }

-- The users behind the `switch` of `dns_cache_expired`
abbrev pub users_after : World → Bool → ℕ → World
users_after w lose mod_ret =
    let lost = if lose then w.lost + 1 else w.lost in
    if mod_ret == 0
    then record w { running = w.running - 1; ending = w.ending + 1; lost = lost }
    else record w { running = w.running - 1; lost = lost }

module _ (bucket_of : Key → ℕ) where
  unfoldable pub call : Cache → ThreadCall → Outcome Cache
  unfolding dns_cache_lookup remove_by_domain add_item replace_at update_timer_at dns_cache_flush
      dns_cache_update dns_cache_hitnum_dec_get on_entry expired_at
  call c (look key) = dns_cache_lookup bucket_of key c.table >>= λ r. elim r.0 [
    | none ↦ ok (record c { table = r.1 })
    | some a ↦ ok (with_users c a (record (c.users a) { holders = (c.users a).holders + 1 }) r.1)
  ]
  call c (remove_old key) =
      remove_by_domain bucket_of (stored key) c.table >>= λ t. ok (record c { table = t })
  call c (add_answer key answer cache_data now mem) =
      add_item bucket_of (stored key) (new_info key answer now) cache_data answer.timeout mem
        c.table
      >>= λ t. ok (record c { table = t })
  call c (set_answer a answer now) =
      replace_at answer now a c.table >>= λ r. ok (record c { table = r.1 })
  call c (set_timer a timeout) =
      update_timer_at timeout a c.table >>= λ r. ok (record c { table = r.1 })
  call c (delete_held a) = dns_cache_delete a c.table >>= λ t. ok (record c { table = t })
  call c (update_held a) = dns_cache_update a c.table >>= λ t. ok (record c { table = t })
  call c (use_hit a) = dns_cache_hitnum_dec_get a c.table >>= λ r. ok (record c { table = r.1 })
  call c (drop_reference a) = on_entry dns_cache_release a c.table >>= λ t.
      ok (with_users c a (record (c.users a) { holders = (c.users a).holders - 1 }) t)
  call c flush = dns_cache_flush c.table >>= λ t. ok (record c { table = t })
  call c (fire a) = on_entry detach a c.table >>= λ t.
      ok (with_users c a (record (c.users a) { running = (c.users a).running + 1 }) t)
  call c (act a action) = expired_at action a c.table >>= λ r. ok (
      with_users c a (users_after (c.users a) (loses (is_pending (c.table.heap a)) action) r.0) r.1)
  call c (end_expired a) = on_entry dns_cache_release a c.table >>= λ t.
      ok (with_users c a (record (c.users a) { ending = (c.users a).ending - 1 }) t)

  -- Calls in their order; one that nobody can make ends them.
  unfoldable pub calls : Cache → List ThreadCall → Outcome Cache
  unfolding call
  calls c [] = ok c
  calls c (next ∷ more) =
      let rest : Outcome Cache = call c next >>= λ c'. calls c' more in
      if can_call c next then rest else fail

-- A cache that is new
abbrev pub nobody : World
nobody = record {
  store = record { entry = none; put = [] };
  holders = 0;
  running = 0;
  ending = 0;
  lost = 0;
}

abbrev pub new_cache : ℕ → ℕ → Cache
new_cache size mem_size = record { table = dns_cache_init size mem_size; users = λ a. nobody }
