-- ===== src/RealmMaps/Reads/Events.antt =====
-- Which events `EventsSinceForStore` of realm/features/maps/store.go sends, and in which order.
use foilen_box.Prelude.{
  ℕ, ◌≡◌, refl, sym, ◌∙◌, ap, subst, inl, inr, ◌↔◌, ◌⊎◌, ◌<◌, true, false, none, some, [], ◌∷◌,
  ◌++◌, arith, ltb, Bool, Text, codes, Map, lookup, Unique, text_eq, text_eq_iff, if◌then◌else◌,
  Bool-cases, Option-cases, Listed, Rising, sort_on-Rising, Listed-sort_on,
}
use foilen_box.Model.Replica.{MapEvent}
use foilen_box.RealmMaps.{Store, map_id}
use foilen_box.RealmMaps.Database.{
  Datastore, Value, meta_value, index_value, state_value, event_value, cursor_value, Got, found,
  not_found, below, got_in,
}
use foilen_box.RealmMaps.Reads.{keep_newer, events_since}

-- Some key of the entries holds the event.
abbrev Held : MapEvent → Map Value → Type 0
Held ev entries = (k : Text) × (got_in entries k ≡ found (event_value ev))

Held-cons :
    (ev : MapEvent) (j : Text) (v : Value) (entries : Map Value)
    → lookup j entries ≡ none
    → Held ev ((j, v) ∷ entries) ↔ ((v ≡ event_value ev) ⊎ Held ev entries)
unfolding lookup
Held-cons ev j v entries fresh = (
  λ (k, h). elim (Bool-cases (text_eq j k)) [
    | inl e ↦ inl (let g : found v ≡ found (event_value ev) = rw (e, got_in) at h in cc)
    | inr e ↦ inr (k, rw (e, got_in) at h)
  ],
  λ h. elim h [
    | inl e ↦ (j, ground (arith, e, text_eq_iff j j))
    | inr (k, g) ↦ (
      k,
      elim (Bool-cases (text_eq j k)) [
        | inl e ↦
            let same : j ≡ k = (text_eq_iff j k).0 e in
            let bad : got_in entries j ≡ found (event_value ev) = rw same g in
            absurd (let f : not_found ≡ found (event_value ev) = rw (fresh, got_in) at bad in cc)
        | inr e ↦ rw (e, got_in) g
      ],
    )
  ],
)

abbrev Newer : ℕ → MapEvent → Map Value → Type 0
Newer since ev entries = (since < ev.updated_at) × Held ev entries

module _ (since : ℕ) (ev : MapEvent) where
  -- An entry that is no event adds none.
  Newer-skip :
      (j : Text) (v : Value) (entries : Map Value)
      → lookup j entries ≡ none
      → (v ≡ event_value ev → ⊥)
      → Listed ev (keep_newer since entries) ↔ Newer since ev entries
      → Listed ev (keep_newer since entries) ↔ Newer since ev ((j, v) ∷ entries)
  Newer-skip j v entries fresh other rest =
      let (to, from) = Held-cons ev j v entries fresh in
      (
        λ l. let (late, held) = rest.0 l in (late, from (inr held)),
        λ (late, held). elim (to held) [ inl e ↦ absurd (other e) | inr h ↦ rest.1 (late, h) ],
      )

  Newer-event :
      (j : Text) (e : MapEvent) (entries : Map Value)
      → lookup j entries ≡ none
      → Listed ev (keep_newer since entries) ↔ Newer since ev entries
      → Listed ev (keep_newer since ((j, event_value e) ∷ entries))
        ↔ Newer since ev ((j, event_value e) ∷ entries)
  unfolding keep_newer
  Newer-event j e entries fresh rest =
      let (to, from) = Held-cons ev j (event_value e) entries fresh in
      elim (Bool-cases (ltb since e.updated_at)) [
        | inl t ↦ rw t (
          λ l. elim l [
            | inl q ↦ (
              subst (λ x. since < x.updated_at) q (ground (arith, t)),
              from (inl (ap event_value q)),
            )
            | inr r ↦ let (late, held) = rest.0 r in (late, from (inr held))
          ],
          λ (late, held). elim (to held) [ inl q ↦ inl cc | inr h ↦ inr (rest.1 (late, h)) ],
        )
        | inr t ↦ rw t (
          λ l. let (late, held) = rest.0 l in (late, from (inr held)),
          λ (late, held). elim (to held) [
            | inl q ↦
                let same : e ≡ ev = cc in
                absurd (ground (arith, t, subst (λ x. since < x.updated_at) (sym same) late))
            | inr h ↦ rest.1 (late, h)
          ],
        )
      ]

  Listed-keep_newer :
      (entries : Map Value)
      → Unique entries
      → Listed ev (keep_newer since entries) ↔ Newer since ev entries
  unfolding keep_newer lookup
  Listed-keep_newer [] u =
      (λ l. absurd l, λ (late, (k, h)). let f : not_found ≡ found (event_value ev) = h in cc)
  Listed-keep_newer ((j, event_value e) ∷ entries) u =
      Newer-event j e entries u.0 (Listed-keep_newer entries u.1)
  Listed-keep_newer ((j, meta_value i) ∷ entries) u =
      Newer-skip j (meta_value i) entries u.0 (λ e. cc) (Listed-keep_newer entries u.1)
  Listed-keep_newer ((j, index_value) ∷ entries) u =
      Newer-skip j index_value entries u.0 (λ e. cc) (Listed-keep_newer entries u.1)
  Listed-keep_newer ((j, state_value e) ∷ entries) u =
      Newer-skip j (state_value e) entries u.0 (λ e. cc) (Listed-keep_newer entries u.1)
  Listed-keep_newer ((j, cursor_value c) ∷ entries) u =
      Newer-skip j (cursor_value c) entries u.0 (λ e. cc) (Listed-keep_newer entries u.1)

module _ (d : Datastore) where
  open d use {Db, get, query, got_in-query, query-Unique}

  abbrev pub event_prefix : Text → Text → Text
  event_prefix group_id store_name = codes "/" ++ (map_id group_id store_name ++ codes "/event")

  inside_iff :
      (inside : Bool) (g : Got) (a : Got) (v : Value)
      → a ≡ (if inside then g else not_found)
      → (a ≡ found v) ↔ ((inside ≡ true) × (g ≡ found v))
  inside_iff true g a v e = (λ h. (refl, sym e ∙ h), λ h. e ∙ h.1)
  inside_iff false g a v e = (
    λ h. absurd (let f : not_found ≡ found v = sym e ∙ h in cc),
    λ h. absurd (let f : false ≡ true = h.0 in cc),
  )

  -- When the database answers the query, the events sent are those that it holds below the event
  -- prefix of the map and that are strictly newer than the cursor, no other, and they are sent from
  -- the oldest to the newest.
  pub events_since_lem :
      (group_id store_name : Text) (since : ℕ) (s : Store d) (entries : Map Value) (ev : MapEvent)
      → query (event_prefix group_id store_name) s.db ≡ some entries
      → (Listed ev (events_since d group_id store_name since s) ↔ (
          (since < ev.updated_at)
          × ((k : Text) × (below (event_prefix group_id store_name) k ≡ true)
              × (get k s.db ≡ found (event_value ev)))))
        × Rising (λ e. e.updated_at) (events_since d group_id store_name since s)
  unfolding events_since
  events_since_lem group_id store_name since s entries ev q =
      let prefix = event_prefix group_id store_name in
      let (down, up) = Listed-sort_on (λ e. e.updated_at) ev (keep_newer since entries) in
      let (to, from) = Listed-keep_newer since ev entries (query-Unique prefix s.db entries q) in
      let at = λ (k : Text).
        inside_iff (below prefix k) (get k s.db) (got_in entries k) (event_value ev)
          (got_in-query prefix k s.db entries q) in
      rw (q, events_since)
        (
          (
            λ l.
                let (late, (k, h)) = to (down l) in
                let (inside, holds) = (at k).0 h in (late, (k, inside, holds)),
            λ (late, (k, inside, holds)). up (from (late, (k, (at k).1 (inside, holds)))),
          ),
          sort_on-Rising (λ e. e.updated_at) (keep_newer since entries),
        )

  -- An event that is sent is strictly newer than the cursor, and the database holds it below the event
  -- prefix of the map.
  pub events_since-held :
      (group_id store_name : Text) (since : ℕ) (s : Store d) (ev : MapEvent)
      → Listed ev (events_since d group_id store_name since s)
      → (since < ev.updated_at)
        × ((k : Text) × (below (event_prefix group_id store_name) k ≡ true)
            × (get k s.db ≡ found (event_value ev)))
  unfolding events_since
  events_since-held group_id store_name since s ev l =
      elim (Option-cases (query (event_prefix group_id store_name) s.db)) [
        | inl q ↦ absurd (let l' : Listed ev [] = rw (q, events_since) at l in l')
        | inr (entries, q) ↦ (events_since_lem group_id store_name since s entries ev q).0.0 l
      ]
