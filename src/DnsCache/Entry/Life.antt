-- ===== src/DnsCache/Entry/Life.antt =====
-- The life of an entry among threads: what can happen next, one locked section at a time, and who
-- has a reference.
use smartdns_ui.Prelude.{
  ℕ, ◌+◌, ◌-◌, ◌<◌, ◌≡◌, Bool, true, false, Option, none, some, ltb, ◌==◌, ◌&&◌, if◌then◌else◌,
  Outcome, ok, fault, ◌>>=◌,
}
use smartdns_ui.DnsCache.Entry.{
  Info, Entry, Store, Answer, Action, action_ok, action_del, action_retry, action_update,
  dns_cache_get, dns_cache_release, remove, replace, update_timer, expired_action, insert,
}

-- An entry and who uses it: callers that have it from `dns_cache_lookup`, and calls of
-- `dns_cache_expired` before and behind the `switch`. `lost` counts the times that the timer
-- was asked for though it was set, each of which leaves a reference that nobody will release.
pub record World : Type 0 where
  pub store : Store
  pub holders : ℕ
  pub running : ℕ
  pub ending : ℕ
  pub lost : ℕ

-- What happens next: a lookup, the release of one, the sections under the lock of
-- `dns_cache_replace` and `dns_cache_update_timer`, a removal by the cache itself or by
-- `dns_cache_delete` of a holder, the timer, and the two parts of `dns_cache_expired`.
pub data Event : Type 0 where
  look : Event
  drop_reference : Event
  set_answer : Answer → ℕ → Event
  set_timer : ℕ → Event
  evict_entry : Event
  delete_held : Event
  fire : Event
  act : Action → Event
  end_expired : Event

abbrev pub is_listed : Store → Bool
is_listed s = elim s.entry [ none ↦ false | some e ↦ e.listed ]

abbrev pub is_pending : Store → Bool
is_pending s = elim s.entry [ none ↦ false | some e ↦ e.pending ]

-- The cache finds an entry in its hash table or its list, and the timer wheel by its link; who
-- holds a reference has the pointer.
abbrev pub can_happen : World → Event → Bool
can_happen w look = is_listed w.store
can_happen w drop_reference = ltb 0 w.holders
can_happen w (set_answer a now) = ltb 0 w.holders
can_happen w (set_timer timeout) = ltb 0 w.holders
can_happen w evict_entry = is_listed w.store
can_happen w delete_held = ltb 0 w.holders
can_happen w fire = is_pending w.store
can_happen w (act a) = ltb 0 w.running
can_happen w end_expired = ltb 0 w.ending

abbrev pub detach : Store → Outcome Store
detach s = elim s.entry [
  | none ↦ fault
  | some e ↦ ok (record s { entry = some (record e { pending = false }) })
]

-- The actions for which the timer is asked for
abbrev pub asks_timer : Action → Bool
asks_timer action_ok = false
asks_timer action_del = false
asks_timer action_retry = true
asks_timer action_update = true

-- Another thread has set the timer again, with a reference of its own, while a callback ran that
-- asks for it: the timer has two references then and will release one.
abbrev pub loses : Bool → Action → Bool
loses pending a = asks_timer a && pending

-- The call of `dns_cache_expired` behind its `switch`: it goes on to its release, or is over.
abbrev pub acted : World → Action → ℕ × Store → World
acted w a (mod_ret, s) =
    let lost = if loses (is_pending w.store) a then w.lost + 1 else w.lost in
    if mod_ret == 0
    then record w { store = s; running = w.running - 1; ending = w.ending + 1; lost = lost }
    else record w { store = s; running = w.running - 1; lost = lost }

abbrev pub step : World → Event → Outcome World
step w look = do s ← dns_cache_get w.store; ok (record w { store = s; holders = w.holders + 1 })
step w drop_reference = do
  s ← dns_cache_release w.store
  ok (record w { store = s; holders = w.holders - 1 })
step w (set_answer a now) = do s ← replace a now w.store; ok (record w { store = s })
step w (set_timer timeout) = do s ← update_timer timeout w.store; ok (record w { store = s })
step w evict_entry = do s ← remove w.store; ok (record w { store = s })
step w delete_held = do s ← remove w.store; ok (record w { store = s })
step w fire = do s ← detach w.store; ok (record w { store = s; running = w.running + 1 })
step w (act a) = do r ← expired_action a w.store; ok (acted w a r)
step w end_expired = do
  s ← dns_cache_release w.store
  ok (record w { store = s; ending = w.ending - 1 })

-- The entry as `dns_cache_insert` leaves it, and whatever can happen from there on.
pub data Reaches : World → Type 0 where
  inserted :
      (info : Info) (cache_data timeout : ℕ) (s : Store)
      → insert info cache_data timeout ≡ ok s
      → Reaches (record { store = s; holders = 0; running = 0; ending = 0; lost = 0 })
  happens :
      (w w' : World) (event : Event)
      → Reaches w
      → can_happen w event ≡ true
      → step w event ≡ ok w'
      → Reaches w'

abbrev pub one_if : Bool → ℕ
one_if b = if b then 1 else 0

-- The references that are due to an entry: its place in the cache, its timer, and its users.
abbrev pub due : World → Entry → ℕ
due w e = one_if e.listed + one_if e.pending + w.holders + w.running + w.ending

-- The reference count is what is due and one for each that is lost, and a freed entry has no users.
abbrev pub Counted : World → Option Entry → Type 0
Counted w none = (w.holders ≡ 0) × (w.running ≡ 0) × (w.ending ≡ 0) × (w.lost ≡ 0)
Counted w (some e) = (e.ref ≡ due w e + w.lost) × (0 < e.ref)

abbrev pub IsCounted : World → Type 0
IsCounted w = Counted w w.store.entry
