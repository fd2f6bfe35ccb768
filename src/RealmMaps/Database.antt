-- ===== src/RealmMaps/Database.antt =====
-- The database that realm/features/maps/store.go opens, as far as the store uses it.
use foilen_box.Prelude.{
  ℕ, ◌≡◌, Bool, Option, none, some, List, [], ◌∷◌, ◌++◌, Text, codes, Map, lookup, Unique, Entries,
  text_eq, contains_text, has_prefix, if◌then◌else◌,
}
use foilen_box.Model.Replica.{MapEntry, MapEvent}

pub record MapInfo : Type 0 where
  pub group_id : Text
  pub store_name : Text

-- What the store writes, by the kind of its key.
pub data Value : Type 0 where
  meta_value : MapInfo → Value
  index_value : Value
  state_value : MapEntry → Value
  event_value : MapEvent → Value
  cursor_value : Map (Map ℕ) → Value

pub data Got : Type 0 where
  found : Value → Got
  not_found get_failed : Got

-- What a batch of writes leaves at a key.
abbrev pub after_batch : List (Text × Value) → Text → Got → Got
after_batch [] k g = g
after_batch ((j, v) ∷ ws) k g = after_batch ws k (if text_eq j k then found v else g)

-- The keys of the namespace that a prefix names are those below it.
abbrev pub below : Text → Text → Bool
below prefix k = has_prefix (prefix ++ codes "/") k

abbrev pub got_in : Map Value → Text → Got
got_in entries k = elim (lookup k entries) [ none ↦ not_found | some v ↦ found v ]

-- A write that fails changes nothing; a batch is written as a whole. A query gives the entries below
-- its prefix, each once.
pub record Datastore : Type 1 where
  pub Db : Type 0
  pub get : Text → Db → Got
  pub put : Text → Value → Db → Option Db
  pub remove : Text → Db → Option Db
  pub commit : List (Text × Value) → Db → Option Db
  pub commit_removal : List Text → Db → Option Db
  pub query : Text → Db → Option (Map Value)
  pub new_key : Text → Text
  pub get-put :
      (j k : Text) (v : Value) (db db' : Db)
      → put j v db ≡ some db'
      → get k db' ≡ (if text_eq j k then found v else get k db)
  pub get-remove :
      (j k : Text) (db db' : Db)
      → remove j db ≡ some db'
      → get k db' ≡ (if text_eq j k then not_found else get k db)
  pub get-commit :
      (ws : List (Text × Value)) (k : Text) (db db' : Db)
      → commit ws db ≡ some db'
      → get k db' ≡ after_batch ws k (get k db)
  pub get-commit_removal :
      (ks : List Text) (k : Text) (db db' : Db)
      → commit_removal ks db ≡ some db'
      → get k db' ≡ (if contains_text ks k then not_found else get k db)
  pub got_in-query :
      (prefix k : Text) (db : Db) (entries : Map Value)
      → query prefix db ≡ some entries
      → got_in entries k ≡ (if below prefix k then get k db else not_found)
  pub query-Unique :
      (prefix : Text) (db : Db) (entries : Map Value)
      → query prefix db ≡ some entries
      → Unique entries
  pub new_key_of_query :
      (prefix : Text) (db : Db) (entries : Map Value)
      → query prefix db ≡ some entries
      → Entries (λ k v. new_key k ≡ k) entries
