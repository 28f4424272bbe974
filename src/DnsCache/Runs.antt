-- ===== src/DnsCache/Runs.antt =====
-- Concrete lives of a cache entry, and its theorems at concrete inputs.
use smartdns_ui.Prelude.{ℕ, ◌≡◌, refl, arith, Bool, true, false, [], ◌∷◌, none, some, ok}
use smartdns_ui.DnsCache.Entry.{
  Info, Entry, Store, action_del, action_retry, action_update, insert, remove, dns_cache_release,
  dns_cache_expired, expired_action,
}
use smartdns_ui.DnsCache.Entry.Life.{
  World, Event, Reaches, inserted, happens, IsCounted, can_happen, step, fire,
}
use smartdns_ui.DnsCache.Entry.Safe.{Reaches-Counted}
use smartdns_ui.DnsCache.Entry.Retry.{StaysUnarmed, Reaches-StaysUnarmed}

abbrev info : Info
info = record {
  rcode = 0;
  qtype = 1;
  query_flag = 0;
  ttl = 60;
  speed = 12;
  timeout = 60;
  is_visited = 1;
  insert_time = 1000;
  replace_time = 1000;
}

abbrev entry : ℕ → Bool → ℕ → Entry
entry ref pending expires = record {
  ref = ref;
  listed = true;
  pending = pending;
  expires = expires;
  info = info;
  cache_data = 7;
}

abbrev store : Entry → Store
store e = record { entry = some e; put = [] }

-- The callback of an entry without hits: it goes, and its data is put once.
expired_del :
    dns_cache_expired action_del (store (entry 2 false 60))
    ≡ ok (record { entry = none; put = 7 ∷ [] })
unfolding dns_cache_expired expired_action remove dns_cache_release
expired_del = refl

expired_retry :
    dns_cache_expired action_retry (store (entry 2 false 60)) ≡ ok (store (entry 1 false 300))
unfolding dns_cache_expired expired_action dns_cache_release
expired_retry = refl

abbrev fresh : World
fresh = record { store = store (entry 2 true 60); holders = 0; running = 0; ending = 0; lost = 0 }

abbrev fired : World
fired = record { store = store (entry 2 false 60); holders = 0; running = 1; ending = 0; lost = 0 }

fresh_reached : Reaches fresh
unfolding insert
fresh_reached = inserted info 7 60 (store (entry 2 true 60)) refl

fired_reached : Reaches fired
fired_reached = happens fresh fired fire fresh_reached refl refl

Reaches-Counted_example :
    IsCounted fired
    × ((event : Event) → can_happen fired event ≡ true → (w : World) × (step fired event ≡ ok w))
Reaches-Counted_example = Reaches-Counted fired fired_reached

Reaches-StaysUnarmed_example : StaysUnarmed fired action_retry × StaysUnarmed fired action_update
Reaches-StaysUnarmed_example = Reaches-StaysUnarmed fired fired_reached (omega arith) refl
