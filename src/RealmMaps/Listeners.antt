-- ===== src/RealmMaps/Listeners.antt =====
-- Subscriptions to changes in realm/features/maps/store.go.
use foilen_box.Prelude.{
  ℕ, suc, ◌≤◌, ◌<◌, ◌≡◌, refl, inl, inr, Bool, false, ◌&&◌, ◌||◌, not, List, [], ◌∷◌, ◌++◌, arith,
  ◌==◌, Bool-cases,
}
use foilen_box.RealmMaps.Database.{Datastore}
use foilen_box.RealmMaps.{Store, Listener, record_listener, remove_listener, subscribe, unsubscribe}

-- Ids rise along the list and stay below the next one.
abbrev pub Rising : ℕ → List Listener → ℕ → Type 0
Rising lo [] next = lo ≤ next
Rising lo (l ∷ ls) next = (lo ≤ l.id) × Rising (suc l.id) ls next

abbrev pub listens : ℕ → List Listener → Bool
listens id [] = false
listens id (l ∷ ls) = l.id == id || listens id ls

Rising-snoc :
    (lo : ℕ) (ls : List Listener) (next : ℕ)
    → Rising lo ls next
    → Rising lo (ls ++ record_listener next ∷ []) (suc next)
Rising-snoc lo [] next r = (r, omega arith)
Rising-snoc lo (l ∷ ls) next r = (r.0, Rising-snoc (suc l.id) ls next r.1)

Rising-mono :
    (lo lo' : ℕ) (ls : List Listener) (next : ℕ) → lo ≤ lo' → Rising lo' ls next → Rising lo ls next
Rising-mono lo lo' [] next h r = omega arith
Rising-mono lo lo' (l ∷ ls) next h r = (omega arith, r.1)

Rising-remove :
    (id lo : ℕ) (ls : List Listener) (next : ℕ)
    → Rising lo ls next
    → Rising lo (remove_listener id ls) next
unfolding remove_listener
Rising-remove id lo [] next r = r
Rising-remove id lo (l ∷ ls) next r = elim (Bool-cases (l.id == id)) [
  | inl e ↦ rw e (Rising-mono lo (suc l.id) ls next (omega arith) r.1)
  | inr e ↦ rw e (r.0, Rising-remove id (suc l.id) ls next r.1)
]

listens_below :
    (id lo : ℕ) (ls : List Listener) (next : ℕ)
    → Rising lo ls next
    → id < lo
    → listens id ls ≡ false
listens_below id lo [] next r h = refl
listens_below id lo (l ∷ ls) next r h = ground (arith, listens_below id (suc l.id) ls next r.1)

listens-remove :
    (id other lo : ℕ) (ls : List Listener) (next : ℕ)
    → Rising lo ls next
    → listens other (remove_listener id ls) ≡ (listens other ls && not (id == other))
unfolding remove_listener
listens-remove id other lo [] next r = refl
listens-remove id other lo (l ∷ ls) next r =
    ground (
      arith,
      listens-remove id other (suc l.id) ls next r.1,
      listens_below id (suc l.id) ls next r.1,
    )

listens-snoc :
    (id next : ℕ) (ls : List Listener)
    → listens id (ls ++ record_listener next ∷ []) ≡ (listens id ls || next == id)
listens-snoc id next [] = ground arith
listens-snoc id next (l ∷ ls) = ground (arith, listens-snoc id next ls)

Rising-le : (lo : ℕ) (ls : List Listener) (next : ℕ) → Rising lo ls next → lo ≤ next
Rising-le lo [] next r = r
Rising-le lo (l ∷ ls) next r = omega (arith, Rising-le (suc l.id) ls next r.1)

listens_above :
    (id lo : ℕ) (ls : List Listener) (next : ℕ)
    → Rising lo ls next
    → next ≤ id
    → listens id ls ≡ false
listens_above id lo [] next r h = refl
listens_above id lo (l ∷ ls) next r h =
    ground (arith, listens_above id (suc l.id) ls next r.1, Rising-le (suc l.id) ls next r.1)

module _ (d : Datastore) where
  abbrev pub Numbered : Store d → Type 0
  Numbered s = Rising 0 s.listeners s.next_listener_id

  -- Subscribing gives an id that nobody has and adds that listener alone; unsubscribing removes
  -- the listener of that id alone; both keep the ids distinct.
  pub subscribe-unsubscribe :
      (s : Store d) (id other : ℕ)
      → Numbered s
      → (listens (subscribe d s).1 s.listeners ≡ false)
        × (listens other (subscribe d s).0.listeners
            ≡ (listens other s.listeners || (subscribe d s).1 == other))
        × Numbered (subscribe d s).0
        × (listens other (unsubscribe d id s).listeners
            ≡ (listens other s.listeners && not (id == other)))
        × Numbered (unsubscribe d id s)
  unfolding subscribe unsubscribe
  subscribe-unsubscribe s id other r = (
    listens_above s.next_listener_id 0 s.listeners s.next_listener_id r (omega arith),
    listens-snoc other s.next_listener_id s.listeners,
    Rising-snoc 0 s.listeners s.next_listener_id r,
    listens-remove id other 0 s.listeners s.next_listener_id r,
    Rising-remove id 0 s.listeners s.next_listener_id r,
  )
