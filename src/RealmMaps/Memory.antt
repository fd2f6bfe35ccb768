-- ===== src/RealmMaps/Memory.antt =====
-- A database in memory to run realm/features/maps/store.go on.
use foilen_box.Prelude.{
  ◌≡◌, refl, sym, ◌∙◌, ap, subst, Bool, inl, inr, some_inj, none, some, List, [], ◌∷◌, arith, Text,
  Map, lookup, insert, delete, lookup-insert, lookup-delete, Unique, Entries, text_eq, text_eq_iff,
  contains_text, if◌then◌else◌, Bool-cases,
}
use foilen_box.RealmMaps.Database.{Datastore, Value, found, not_found, after_batch, below, got_in}
use foilen_box.RealmMaps.{Store}

unfoldable pub write_all : List (Text × Value) → Map Value → Map Value
write_all [] db = db
write_all ((k, v) ∷ ws) db = write_all ws (insert k v db)

pub remove_all : List Text → Map Value → Map Value
remove_all [] db = db
remove_all (k ∷ ks) db = remove_all ks (delete k db)

-- The entries of a namespace, the first of each key.
unfoldable pub entries_below : (Text → Bool) → Map Value → Map Value
entries_below keep [] = []
entries_below keep ((k, v) ∷ db) =
    let rest = delete k (entries_below keep db) in if keep k then (k, v) ∷ rest else rest

pub got_in-insert :
    (j k : Text) (v : Value) (db : Map Value)
    → got_in (insert j v db) k ≡ (if text_eq j k then found v else got_in db k)
got_in-insert j k v db = ground (arith, lookup-insert j k v db)

pub got_in-delete :
    (j k : Text) (db : Map Value)
    → got_in (delete j db) k ≡ (if text_eq j k then not_found else got_in db k)
got_in-delete j k db = ground (arith, lookup-delete j k db)

pub got_in-write_all :
    (ws : List (Text × Value)) (k : Text) (db : Map Value)
    → got_in (write_all ws db) k ≡ after_batch ws k (got_in db k)
unfolding write_all
got_in-write_all [] k db = refl
got_in-write_all ((j, v) ∷ ws) k db =
    got_in-write_all ws k (insert j v db) ∙ ap (after_batch ws k) (got_in-insert j k v db)

pub got_in-remove_all :
    (ks : List Text) (k : Text) (db : Map Value)
    → got_in (remove_all ks db) k ≡ (if contains_text ks k then not_found else got_in db k)
unfolding remove_all contains_text
got_in-remove_all [] k db = refl
got_in-remove_all (j ∷ ks) k db =
    got_in-remove_all ks k (delete j db) ∙ ground (arith, got_in-delete j k db)

lookup-entries_below :
    (keep : Text → Bool) (k : Text) (db : Map Value)
    → lookup k (entries_below keep db) ≡ (if keep k then lookup k db else none)
unfolding entries_below lookup
lookup-entries_below keep k [] = ground arith
lookup-entries_below keep k ((j, v) ∷ db) = elim (Bool-cases (text_eq j k)) [
  | inl e ↦
      let same : j ≡ k = (text_eq_iff j k).0 e in
      ground (arith, e, ap keep same, lookup-delete j k (entries_below keep db))
  | inr e ↦
      ground (arith, e, lookup-delete j k (entries_below keep db), lookup-entries_below keep k db)
]

delete-Unique : (k : Text) (m : Map Value) → Unique m → Unique (delete k m)
unfolding delete
delete-Unique k [] u = tt
delete-Unique k ((j, v) ∷ m) u = elim (Bool-cases (text_eq j k)) [
  | inl e ↦ rw e (delete-Unique k m u.1)
  | inr e ↦ rw e (ground (arith, lookup-delete k j m, u.0), delete-Unique k m u.1)
]

pub entries_below-Unique : (keep : Text → Bool) (db : Map Value) → Unique (entries_below keep db)
unfolding entries_below
entries_below-Unique keep [] = tt
entries_below-Unique keep ((k, v) ∷ db) =
    let rest = delete-Unique k (entries_below keep db) (entries_below-Unique keep db) in
    elim (Bool-cases (keep k)) [
      | inl e ↦
          rw e (ground (arith, lookup-delete k k (entries_below keep db), text_eq_iff k k), rest)
      | inr e ↦ rw e rest
    ]

pub got_in-entries_below :
    (prefix k : Text) (db : Map Value)
    → got_in (entries_below (below prefix) db) k
      ≡ (if below prefix k then got_in db k else not_found)
got_in-entries_below prefix k db = ground (arith, lookup-entries_below (below prefix) k db)

pub own_key : (m : Map Value) → Entries (λ k v. k ≡ k) m
own_key [] = tt
own_key ((k, v) ∷ m) = (refl, own_key m)

-- What a step that cannot fail leaves.
pub after : {A : Type 0} (P : A → Type 0) (a b : A) → some a ≡ some b → P a → P b
after P a b e p = subst P (some_inj e) p

abbrev pub memory : Datastore
memory = record {
  Db = Map Value;
  get = λ k db. got_in db k;
  put = λ k v db. some (insert k v db);
  remove = λ k db. some (delete k db);
  commit = λ ws db. some (write_all ws db);
  commit_removal = λ ks db. some (remove_all ks db);
  query = λ prefix db. some (entries_below (below prefix) db);
  new_key = λ k. k;
  get-put = λ j k v db db' e. ap (λ m. got_in m k) (sym (some_inj e)) ∙ got_in-insert j k v db;
  get-remove = λ j k db db' e. ap (λ m. got_in m k) (sym (some_inj e)) ∙ got_in-delete j k db;
  get-commit = λ ws k db db' e. ap (λ m. got_in m k) (sym (some_inj e)) ∙ got_in-write_all ws k db;
  get-commit_removal =
      λ ks k db db' e. ap (λ m. got_in m k) (sym (some_inj e)) ∙ got_in-remove_all ks k db;
  got_in-query = λ prefix k db es e.
      ap (λ m. got_in m k) (sym (some_inj e)) ∙ got_in-entries_below prefix k db;
  query-Unique = λ prefix db es e. after Unique _ es e (entries_below-Unique (below prefix) db);
  new_key_of_query = λ prefix db es e. own_key es;
}

abbrev pub empty_store : Store memory
empty_store = record {
  db = [];
  map_meta = [];
  peer_cursors = [];
  listeners = [];
  next_listener_id = 0;
}
