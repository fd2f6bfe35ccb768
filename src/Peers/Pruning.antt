-- ===== src/Peers/Pruning.antt =====
-- Which peers `PruneStale` and `Remove` of realm/peers/store.go take away.
use foilen_box.Prelude.{
  ℕ, ◌≤◌, ◌<◌, ◌≡◌, refl, subst, ◌⊎◌, inl, inr, Bool, true, false, ◌&&◌, Option, none, some, List,
  [], ◌∷◌, arith, Text, Unique, lookup, lookup-delete, text_eq, text_eq_iff, if◌then◌else◌,
  Bool-cases,
}
use foilen_box.Model.{PeerInfo}
use foilen_box.Peers.{Peers, prune_stale, is_stale, remove, removable}

abbrev keep_unless {ℓ} : {A : Type ℓ} → (A → Bool) → Option A → Option A
keep_unless bad none = none
keep_unless bad (some a) = if bad a then none else some a

lookup-prune_stale :
    (cutoff : ℕ) (id : Text) (m : Peers)
    → Unique m
    → lookup id (prune_stale cutoff m).0 ≡ keep_unless (is_stale cutoff) (lookup id m)
unfolding prune_stale lookup
lookup-prune_stale cutoff id [] u = refl
lookup-prune_stale cutoff id ((k, p) ∷ m) u =
    ground (arith, text_eq_iff k id, lookup-prune_stale cutoff id m u.1)

-- Whether an entry is one of a list of peers.
abbrev pub Among : PeerInfo → List PeerInfo → Type 0
Among p [] = ⊥
Among p (q ∷ qs) = (q ≡ p) ⊎ Among p qs

removed_stale :
    (cutoff : ℕ) (m : Peers) (p : PeerInfo)
    → Among p (prune_stale cutoff m).1
    → (p.connected ≡ false) × (p.last_seen < cutoff)
unfolding prune_stale is_stale
removed_stale cutoff [] p h = absurd h
removed_stale cutoff ((k, q) ∷ m) p h = elim (Bool-cases (is_stale cutoff q)) [
  | inl e ↦ elim (let first : (q ≡ p) ⊎ Among p (prune_stale cutoff m).1 = rw e at h in first) [
    | inl same ↦
        subst (λ t. (t.connected ≡ false) × (t.last_seen < cutoff)) same
          (ground (arith, e), ground (arith, e))
    | inr r ↦ removed_stale cutoff m p r
  ]
  | inr e ↦ removed_stale cutoff m p (rw e at h)
]

-- `PruneStale` keeps every entry that is connected or was seen since the cutoff, drops every other
-- one, and returns only peers that were neither.
pub prune_stale_lem :
    (cutoff : ℕ) (id : Text) (p : PeerInfo) (m : Peers)
    → Unique m
    → lookup id m ≡ some p
    → (((p.connected ≡ true) ⊎ (cutoff ≤ p.last_seen))
        → lookup id (prune_stale cutoff m).0 ≡ some p)
      × (p.connected ≡ false → p.last_seen < cutoff → lookup id (prune_stale cutoff m).0 ≡ none)
      × ((q : PeerInfo)
          → Among q (prune_stale cutoff m).1
          → (q.connected ≡ false) × (q.last_seen < cutoff))
unfolding is_stale
prune_stale_lem cutoff id p m u e = (
  λ h. ground (arith, lookup-prune_stale cutoff id m u),
  λ off old. ground (arith, lookup-prune_stale cutoff id m u),
  removed_stale cutoff m,
)

-- `Remove` takes away the entry of a disconnected peer and no other; a connected or unknown peer
-- makes it do nothing.
pub remove_lem :
    (id j : Text) (m : Peers)
    → ((remove id m).1 ≡ removable (lookup id m))
      × (lookup j (remove id m).0
          ≡ (if removable (lookup id m) && text_eq id j then none else lookup j m))
unfolding remove
remove_lem id j m = (ground arith, ground (arith, lookup-delete id j m))
