-- ===== src/DnsCache/Table/Calls.antt =====
-- Each call on an entry of src/dns_cache.c keeps its count, and lists no entry that was not listed.
use smartdns_ui.Prelude.{
  ℕ, suc, ◌+◌, ◌-◌, ◌<◌, ◌≡◌, refl, sym, ◌∙◌, Bool, true, false, List, Option, none, some, ◌==◌,
  ltb, if◌then◌else◌, Bool-cases, inl, inr, arith, ◌>>=◌, Outcome, ok, fail, fault, stuck,
}
use mathlib.Core.Bool.{true≢false}
use mathlib.Core.Path.{subst}
use smartdns_ui.DnsCache.Entry.{
  Entry, Store, Answer, Action, action_ok, action_del, action_retry, action_update, expired_action,
  use_entry, write, dns_cache_get, dns_cache_release, remove, replace, update_timer, rearm,
  answer_info, new_data,
}
use smartdns_ui.DnsCache.Entry.Life.{World, Counted, due, detach, loses}
use smartdns_ui.DnsCache.Entry.Keeps.{
  Keeps, dns_cache_release-Keeps, remove-Keeps, replace-Keeps, update_timer-Keeps,
}
use smartdns_ui.DnsCache.Table.{is_listed}
use smartdns_ui.DnsCache.Table.Threads.{users_after}

-- What a call gives, if it gives anything
abbrev Gives {ℓ} : {A : Type ℓ} → (A → Type 0) → Outcome A → Type 0
Gives P (ok a) = P a
Gives P fail = Unit
Gives P fault = Unit
Gives P stuck = Unit

Gives-bind {ℓ κ} :
    {A : Type ℓ} {B : Type κ} (P : A → Type 0) (Q : B → Type 0) (m : Outcome A) (f : A → Outcome B)
    → Gives P m
    → ((a : A) → P a → Gives Q (f a))
    → Gives Q (m >>= f)
Gives-bind P Q (ok a) f h k = k a h
Gives-bind P Q fail f h k = tt
Gives-bind P Q fault f h k = tt
Gives-bind P Q stuck f h k = tt

Gives-if {ℓ} :
    {A : Type ℓ} (P : A → Type 0) (t : Bool) (m k : Outcome A)
    → (t ≡ true → Gives P m)
    → (t ≡ false → Gives P k)
    → Gives P (if t then m else k)
Gives-if P true m k f g = f refl
Gives-if P false m k f g = g refl

abbrev store_of : Entry → List ℕ → Store
store_of e put = record { entry = some e; put = put }

-- `P` of whether the entry is listed
abbrev On : (Bool → Type 0) → Store → Type 0
On P s = P (is_listed s)

module _ (P : Bool → Type 0) where
  get-On : (s : Store) → On P s → Gives (On P) (dns_cache_get s)
  get-On s h = go s.entry h
    where
      go :
          (o : Option Entry)
          → On P (record s { entry = o })
          → Gives (On P) (dns_cache_get (record s { entry = o }))
      go none h = tt
      go (some e) h = Gives-if (On P) (e.ref + 1 == 1) fault _ (λ _. tt) (λ _. h)

  release-On : (s : Store) → On P s → P false → Gives (On P) (dns_cache_release s)
  release-On s h f = go s.entry h
    where
      go :
          (o : Option Entry)
          → On P (record s { entry = o })
          → Gives (On P) (dns_cache_release (record s { entry = o }))
      go none h = unfold dns_cache_release in tt
      go (some e) h =
          unfold dns_cache_release in
          Gives-if (On P) (ltb 1 e.ref) _ _ (λ _. h)
            (λ _. Gives-if (On P) (e.ref == 0) fault _ (λ _. tt) (λ _. f))

  use_entry-On :
      (s : Store) (f : Entry → Outcome Store)
      → On P s
      → ((e : Entry) → P e.listed → Gives (On P) (f e))
      → Gives (On P) (use_entry s f)
  use_entry-On s f h k = go s.entry h
    where
      go :
          (o : Option Entry)
          → On P (record s { entry = o })
          → Gives (On P) (use_entry (record s { entry = o }) f)
      go none h = tt
      go (some e) h = k e h

  rearm-On : (s : Store) (e : Entry) (timeout : ℕ) → P e.listed → Gives (On P) (rearm s e timeout)
  unfolding rearm
  rearm-On s e timeout h =
      let s₁ : Store = write s (record e { expires = timeout }) in
      Gives-if (On P) ((if e.pending then 1 else 0) == 0) _ (ok s₁)
        (λ _. Gives-bind (On P) (On P) (dns_cache_get s₁) _ (get-On s₁ h) (λ s₂ h₂.
          Gives-bind (On P) (On P)
            (use_entry s₂ (λ e₂. ok (write s₂ (record e₂ { expires = timeout })))) _
            (use_entry-On s₂ _ h₂ (λ e₂ k. k))
            (λ s₃ h₃.
              use_entry-On s₃ _ h₃
                (λ e₃ k. Gives-if (On P) e₃.pending fault _ (λ _. tt) (λ _. k)))))
        (λ _. h)

remove-On : (e : Entry) (put : List ℕ) → Gives (On (λ l. l ≡ false)) (remove (store_of e put))
unfolding remove
remove-On e put =
    let P : Bool → Type 0 = λ l. l ≡ false in
    let off : Store = store_of (record e { listed = false; pending = false }) put in
    Gives-if (On P) e.listed _ _
      (λ _.
        Gives-if (On P) e.pending _ _
          (λ _.
            Gives-bind (On P) (On P) (dns_cache_release off) _ (release-On P off refl refl)
              (λ s h. release-On P s h refl))
          (λ _. release-On P (store_of (record e { listed = false }) put) refl refl))
      (λ k. k)

-- These two leave the entry where it is.
abbrev pub Stays : Entry → Store → Type 0
Stays e s = is_listed s ≡ e.listed

pub replace-Stays :
    (answer : Answer) (now : ℕ) (e : Entry) (put : List ℕ)
    → Gives (Stays e) (replace answer now (store_of e put))
unfolding replace
replace-Stays answer now e put =
    Gives-if (Stays e) e.listed _ _
      (λ k.
        Gives-bind (Stays e) (Stays e) _ _
          (rearm-On (λ l. l ≡ e.listed) (store_of e put)
            (record e {
              info = answer_info e.info answer now;
              cache_data = new_data e answer.cache_data;
            })
            answer.timeout refl)
          (λ s h. h))
      (λ k. refl)

update_timer-Stays :
    (timeout : ℕ) (e : Entry) (put : List ℕ)
    → Gives (Stays e) (update_timer timeout (store_of e put))
unfolding update_timer
update_timer-Stays timeout e put =
    Gives-if (Stays e) e.listed _ _
      (λ k. rearm-On (λ l. l ≡ e.listed) (store_of e put) e timeout refl) (λ k. refl)

Keeps-Gives :
    (w : World) (P : Store → Type 0) (o : Outcome Store)
    → Keeps w o
    → Gives P o
    → (s : Store) × (o ≡ ok s) × Counted w s.entry × P s
Keeps-Gives w P o (s, p, c) h = (s, p, c, subst (λ r. Gives P r) p h)

-- A call that is no fault, whose users are `w` after it
abbrev pub Ends : World → (Store → Type 0) → Outcome Store → Type 0
Ends w P o = (s : Store) × (o ≡ ok s) × Counted w s.entry × P s

-- The entry is listed only if it was.
abbrev pub Within : Entry → Store → Type 0
Within e s = is_listed s ≡ true → e.listed ≡ true

module _ (w : World) (e : Entry) (put : List ℕ) (c : Counted w (some e)) where
  abbrev store : Store
  store = store_of e put

  pub get-Ends : Ends (record w { holders = w.holders + 1 }) (Stays e) (dns_cache_get store)
  get-Ends =
      let more : (e.ref + 1 == 1) ≡ false = ground (arith, c.1) in
      rw more (_, refl, (ground (arith, c.0), omega arith), refl)

  release-Ends :
      (w' : World) → e.ref ≡ suc (due w' e + w'.lost) → Ends w' (Within e) (dns_cache_release store)
  release-Ends w' r = Keeps-Gives w' (Within e) _ (dns_cache_release-Keeps w' e put r) (
      release-On (λ l. l ≡ true → e.listed ≡ true) store (λ l. l)
        (λ l. absurd (true≢false (sym l))))

  pub drop-Ends :
      0 < w.holders
      → Ends (record w { holders = w.holders - 1 }) (Within e) (dns_cache_release store)
  drop-Ends k = release-Ends (record w { holders = w.holders - 1 }) (ground (arith, c.0))

  pub end-Ends :
      0 < w.ending → Ends (record w { ending = w.ending - 1 }) (Within e) (dns_cache_release store)
  end-Ends k = release-Ends (record w { ending = w.ending - 1 }) (ground (arith, c.0))

  pub remove-Ends : Ends w (λ s. is_listed s ≡ false) (remove store)
  remove-Ends =
      Keeps-Gives w (λ s. is_listed s ≡ false) _ (remove-Keeps w e put c) (remove-On e put)

  pub replace-Ends : (answer : Answer) (now : ℕ) → Ends w (Stays e) (replace answer now store)
  replace-Ends answer now =
      Keeps-Gives w (Stays e) _ (replace-Keeps w answer now e put c)
        (replace-Stays answer now e put)

  pub update_timer-Ends : (timeout : ℕ) → Ends w (Stays e) (update_timer timeout store)
  update_timer-Ends timeout =
      Keeps-Gives w (Stays e) _ (update_timer-Keeps w timeout e put c)
        (update_timer-Stays timeout e put)

  pub detach-Ends :
      e.pending ≡ true → Ends (record w { running = w.running + 1 }) (Stays e) (detach store)
  detach-Ends k = (_, refl, (ground (arith, c.0, k), c.1), refl)

  -- The call of `dns_cache_expired` up to its last lines
  abbrev Acts : Action → Outcome (ℕ × Store) → Type 0
  Acts action o =
      (r : ℕ × Store) × (o ≡ ok r)
      × Counted (users_after w (loses e.pending action) r.0) r.1.entry
      × Within e r.1

  pub expired_action-Acts :
      (action : Action) → 0 < w.running → Acts action (expired_action action store)
  unfolding expired_action
  expired_action-Acts action_ok k = (_, refl, (ground (arith, c.0), c.1), λ l. l)
  expired_action-Acts action_del k =
      let w' : World = record w { running = w.running - 1; ending = w.ending + 1 } in
      let (s, p, q) = remove-Keeps w' e put (ground (arith, c.0), c.1) in
      let off : is_listed s ≡ false =
        subst (λ r. Gives (On (λ l. l ≡ false)) r) p (remove-On e put) in
      rw p (_, refl, q, λ l. absurd (true≢false (sym l ∙ off)))
  expired_action-Acts action_retry k = elim (Bool-cases e.pending) [
    | inl q ↦ rw q (_, refl, (ground (arith, c.0), c.1), λ l. l)
    | inr q ↦ rw q (_, refl, (ground (arith, c.0), c.1), λ l. l)
  ]
  expired_action-Acts action_update k = elim (Bool-cases e.pending) [
    | inl q ↦ rw q (_, refl, (ground (arith, c.0), c.1), λ l. l)
    | inr q ↦ rw q (_, refl, (ground (arith, c.0), c.1), λ l. l)
  ]
