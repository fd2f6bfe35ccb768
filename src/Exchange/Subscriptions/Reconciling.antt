-- ===== src/Exchange/Subscriptions/Reconciling.antt =====
-- What `reconcileDesiredStores` of realm/features/maps/feature.go leaves.
use foilen_box.Prelude.{
  ◌≡◌, Bool, true, false, not, ◌&&◌, ◌||◌, none, List, [], ◌∷◌, Text, text_eq, contains_text,
  lookup, if◌then◌else◌,
}
use foilen_box.Peers.{Peers}
use foilen_box.RealmMaps.{Store, map_id}
use foilen_box.RealmMaps.Database.{Datastore}
use foilen_box.Exchange.Subscriptions.{Subs, group_subs_for, Reconciled}
use foilen_box.Exchange.Subscriptions.Claims.{is_asked}

-- Whether the requests ask the peer for the store.
abbrev pub requested : Text → Text → List (Text × List Text) → Bool
requested p name [] = false
requested p name ((q, names) ∷ asked) =
    text_eq q p && contains_text names name || requested p name asked

abbrev pub is_nil : List Text → Bool
is_nil [] = true
is_nil (x ∷ xs) = false

-- Whether a map of that id is one of the stores.
pub has_id : Text → Text → List Text → Bool
has_id g id [] = false
has_id g id (name ∷ names) = text_eq (map_id g name) id || has_id g id names

module _ (d : Datastore) where
  -- What a reconciliation leaves, given the names that the configuration has.
  abbrev pub Settled : (Text → Bool) → Text → List Text → Subs → Store d → Reconciled d → Type 0
  Settled reachable g names s store r =
      let gs = group_subs_for g s in
      ((group_subs_for g r.subs).desired ≡ names)
      × ((name : Text)
          → contains_text r.removed name
            ≡ (contains_text gs.desired name && not (contains_text names name)))
      × ((name p : Text)
          → is_asked g name p r.subs ≡ (
              (is_asked g name p s
                || (contains_text gs.initialized p && reachable p && contains_text names name))
              && not (contains_text r.removed name)))
      × ((name p : Text)
          → requested p name r.asked ≡ (
              contains_text gs.initialized p
              && reachable p
              && contains_text names name
              && not (is_asked g name p s)))
      × ((p : Text)
          → contains_text r.unsubscribed p
            ≡ (contains_text gs.initialized p && reachable p && not (is_nil r.removed)))
      × ((id : Text)
          → lookup id r.store.map_meta
            ≡ (if has_id g id r.removed then none else lookup id store.map_meta))
