-- ===== src/Recovery/Accounts.antt =====
-- What becomes of the pending orders in kalshi_agent/recovery.py.
use kalshi_agent.Base.{
  ℕ, ◌+◌, ◌≡◌, refl, Bool, true, false, ◌||◌, Option, none, some, List, [], ◌∷◌, ◌++◌, length,
  count_if, if◌then◌else◌, any, Elem, last_where-found, last_where-missing, length-append, arith,
  inl, inr, ◌⊎◌, Option-cases, Bool-cases,
}
use kalshi_agent.Result.{ok}
use kalshi_agent.Wire.{OrderResponse}
use kalshi_agent.Storage.{Db, Order, Level, info, warning}
use kalshi_agent.Recovery.{
  has_client_id, has_order_id, by_client_id, by_kalshi_id, match_order, is_pending, Recovered,
  recover_row, recover_rows, Summary, list_all, after_listing, recover_in_flight_orders,
}

abbrev carries_kalshi_id : Option ℕ → OrderResponse → Bool
carries_kalshi_id none r = false
carries_kalshi_id (some kid) r = has_order_id kid r

-- The remote order carries one of the two ids of the local one.
abbrev pub carries : Order → OrderResponse → Bool
carries o r = has_client_id o.client_order_id r || carries_kalshi_id o.kalshi_order_id r

-- What becomes of one row: a pending order takes the id and the status of a remote order that
-- carries one of its ids, or is lost where none does; another one stays as it is.
abbrev pub Fate : List OrderResponse → Order → Order → Type 0
Fate remote o o' =
    (is_pending o ≡ false → o' ≡ o)
    × (is_pending o ≡ true
        → ((o' ≡ record o { status = "lost" }) × (any (carries o) remote ≡ false))
          ⊎ ((r : OrderResponse) × (o'
                ≡ record o { kalshi_order_id = some r.order_id; status = r.status })
              × (carries o r ≡ true)
              × Elem r remote))

abbrev pub Fates : List OrderResponse → List Order → List Order → Type 0
Fates remote [] [] = Unit
Fates remote (o ∷ os) (o' ∷ os') = Fate remote o o' × Fates remote os os'
Fates remote _ _ = ⊥

by_kalshi_id-found :
    (k : Option ℕ) (remote : List OrderResponse) (r : OrderResponse)
    → by_kalshi_id k remote ≡ some r
    → (carries_kalshi_id k r ≡ true) × Elem r remote
by_kalshi_id-found none remote r e = absurd (ground arith)
by_kalshi_id-found (some kid) remote r e = last_where-found (has_order_id kid) remote r e

by_kalshi_id-missing :
    (k : Option ℕ) (remote : List OrderResponse)
    → by_kalshi_id k remote ≡ none
    → any (carries_kalshi_id k) remote ≡ false
by_kalshi_id-missing none [] e = refl
by_kalshi_id-missing none (r ∷ rs) e = by_kalshi_id-missing none rs refl
by_kalshi_id-missing (some kid) remote e = last_where-missing (has_order_id kid) remote e

any-or :
    (p q : OrderResponse → Bool) (rs : List OrderResponse)
    → any p rs ≡ false
    → any q rs ≡ false
    → any (λ r. p r || q r) rs ≡ false
any-or p q [] a b = refl
any-or p q (r ∷ rs) a b = ground (arith, any-or p q rs)

match_order-found :
    (o : Order) (remote : List OrderResponse) (r : OrderResponse)
    → match_order o remote ≡ some r
    → (carries o r ≡ true) × Elem r remote
unfolding match_order
match_order-found o remote r e = elim (Option-cases (by_client_id o.client_order_id remote)) [
  | inl q ↦ ground (arith, by_kalshi_id-found o.kalshi_order_id remote r)
  | inr (x, q) ↦ ground (arith, last_where-found (has_client_id o.client_order_id) remote r)
]

match_order-missing :
    (o : Order) (remote : List OrderResponse)
    → match_order o remote ≡ none
    → any (carries o) remote ≡ false
unfolding match_order
match_order-missing o remote e = elim (Option-cases (by_client_id o.client_order_id remote)) [
  | inl q ↦
      any-or (has_client_id o.client_order_id) (carries_kalshi_id o.kalshi_order_id) remote
        (last_where-missing (has_client_id o.client_order_id) remote q)
        (by_kalshi_id-missing o.kalshi_order_id remote (ground arith))
  | inr (x, q) ↦ absurd (ground arith)
]

abbrev is_warning : Level → Bool
is_warning warning = true
is_warning info = false

-- The rows that the loop leaves, and its counts.
Settles : List OrderResponse → List Order → Recovered → Type 0
Settles remote os done =
    Fates remote os done.orders
    × (done.recovered + done.lost ≡ count_if is_pending os)
    × (length done.events ≡ count_if is_pending os)
    × (done.lost ≡ count_if (λ e. is_warning e.level) done.events)

abbrev matched : Order → OrderResponse → Order
matched o r = record o { kalshi_order_id = some r.order_id; status = r.status }

matched-Fate :
    (remote : List OrderResponse) (o : Order) (r : OrderResponse)
    → (carries o r ≡ true) × Elem r remote
    → Fate remote o (if is_pending o then matched o r else o)
matched-Fate remote o r found = elim (Bool-cases (is_pending o)) [
  | inl q ↦ rw q (λ no_pending. absurd (ground arith), λ is. inr (r, refl, found.0, found.1))
  | inr q ↦ rw q (λ _. refl, λ is. absurd (ground arith))
]

recover_rows-Settles :
    (remote : List OrderResponse) (os : List Order) → Settles remote os (recover_rows remote os)
unfolding recover_rows Settles recover_row
recover_rows-Settles remote [] = (tt, refl, refl, refl)
recover_rows-Settles remote (o ∷ os) = elim (Option-cases (match_order o remote)) [
  | inl q ↦ ground (arith, recover_rows-Settles remote os, match_order-missing o remote)
  | inr (r, q) ↦
      let fate : Fate remote o (if is_pending o then matched o r else o) =
        matched-Fate remote o r (match_order-found o remote r q) in
      rw q (ground (arith, fate, recover_rows-Settles remote os))
]

-- A recovery whose three calls return accounts for every order: the counts of recovered and lost
-- orders add up to that of the pending ones, a lost order carries no id that Kalshi knows, a
-- recovered one has the id and the status of an order of Kalshi with one of its ids, and the other
-- rows stay as they are.
pub recovery_accounts :
    (resting executed canceled : List OrderResponse) (db db' : Db) (s : Summary)
    → recover_in_flight_orders (ok resting) (ok executed) (ok canceled) db ≡ (ok s, db')
    → Fates (resting ++ executed ++ canceled) db.orders db'.orders
      × (s.pending ≡ count_if is_pending db.orders)
      × (s.recovered + s.lost ≡ s.pending)
      × (length db'.events ≡ length db.events + s.pending)
      × (s.failed ≡ false)
unfolding recover_in_flight_orders list_all after_listing Settles
recovery_accounts resting executed canceled db db' s e =
    let remote = resting ++ executed ++ canceled in
    let done = recover_rows remote db.orders in
    ground (arith, recover_rows-Settles remote db.orders, length-append db.events done.events)
