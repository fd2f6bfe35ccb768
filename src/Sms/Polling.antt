-- ===== src/Sms/Polling.antt =====
-- Which messages `processStore` of internal/sms/manager.go notifies.
use foilen_box.Prelude.{
  ℕ, ◌+◌, ◌≤◌, ◌≡◌, ◌≢◌, ◌⊎◌, refl, sym, ap, subst, ◌∙◌, inl, inr, Bool, true, false, ◌&&◌, ◌||◌,
  ltb, Listed, Listed-append, text_eq_iff, Option, none, some, List, [], ◌∷◌, arith, Text, text_eq,
  text_eq_refl, contains_text, Map, contains_text-set_add, Bool-cases,
}
use foilen_box.Model.Replica.{MapEntry}
use foilen_box.Sms.{
  SmsMessage, Kind, message_kind, create_kind, enabled_kind, parse_key, fulfill_create, notify,
  notices, for_kind, note, notify_freshness_window, process_entries,
}

module _ (decode : Text → Option SmsMessage) (local_id : Text) (own_store : Bool) where
  -- Every message key of the entries is known.
  abbrev KnownOne : List Text → Text → Option (Text × Kind) → Type 0
  KnownOne known key none = Unit {0}
  KnownOne known key (some (peer_id, create_kind)) = Unit {0}
  KnownOne known key (some (peer_id, enabled_kind)) = Unit {0}
  KnownOne known key (some (peer_id, message_kind)) = contains_text known key ≡ true

  abbrev Known : List Text → Map MapEntry → Type 0
  Known known [] = Unit {0}
  Known known ((key, entry) ∷ entries) = KnownOne known key (parse_key key) × Known known entries

  -- The keys that are known are kept.
  abbrev Keeps : List Text → List Text → Type 0
  Keeps known after = (key : Text) → contains_text known key ≡ true → contains_text after key ≡ true

  module _ (first_pass : Bool) (now : ℕ) where
    Keeps-note :
        (key : Text) (kind : Option (Text × Kind)) (known : List Text)
        → Keeps known (note decode local_id own_store first_pass now key kind known)
    Keeps-note key none known j h = h
    Keeps-note key (some (peer_id, create_kind)) known j h = h
    Keeps-note key (some (peer_id, enabled_kind)) known j h = h
    Keeps-note key (some (peer_id, message_kind)) known j h =
        ground (arith, h, contains_text-set_add key j known)

    Keeps-process_entries :
        (entries : Map MapEntry) (known : List Text)
        → Keeps known (process_entries decode local_id own_store first_pass now entries known).0
    unfolding process_entries
    Keeps-process_entries [] known key h = h
    Keeps-process_entries ((k, entry) ∷ entries) known key h =
        Keeps-process_entries entries _ key (Keeps-note k (parse_key k) known key h)

    KnownOne-note :
        (key : Text) (kind : Option (Text × Kind)) (known after : List Text)
        → Keeps (note decode local_id own_store first_pass now key kind known) after
        → KnownOne after key kind
    KnownOne-note key none known after keeps = tt
    KnownOne-note key (some (peer_id, create_kind)) known after keeps = tt
    KnownOne-note key (some (peer_id, enabled_kind)) known after keeps = tt
    KnownOne-note key (some (peer_id, message_kind)) known after keeps =
        keeps key (contains_text-set_add key key known ∙ ground (arith, text_eq_refl key))

    Known-process_entries :
        (entries : Map MapEntry) (known : List Text)
        → Known (process_entries decode local_id own_store first_pass now entries known).0 entries
    unfolding process_entries
    Known-process_entries [] known = tt
    Known-process_entries ((k, entry) ∷ entries) known =
        let known' = note decode local_id own_store first_pass now k (parse_key k) known in
        (
          KnownOne-note k (parse_key k) known _ (Keeps-process_entries entries known'),
          Known-process_entries entries known',
        )

    -- The entry that a notification comes from, when these keys are known.
    abbrev pub From : List Text → Map MapEntry → SmsMessage → Type 0
    From known entries msg =
        (key : Text) × ((entry : MapEntry) × Listed (key, entry) entries
          × (decode entry.value ≡ some msg)
          × (contains_text known key ≡ false)
          × (first_pass ≡ false)
          × (now ≤ msg.timestamp + notify_freshness_window)
          × ((peer_id : Text) × (parse_key key ≡ some (peer_id, message_kind))
              × (peer_id ≢ local_id)))

    notified :
        (known : Bool) (peer_id : Text) (o : Option SmsMessage) (msg : SmsMessage)
        → Listed (notify msg) (notices decode local_id own_store first_pass now known peer_id o)
        → (o ≡ some msg)
          × (known ≡ false)
          × (first_pass ≡ false)
          × (now ≤ msg.timestamp + notify_freshness_window)
          × (peer_id ≢ local_id)
    notified known peer_id none msg l = absurd l
    notified known peer_id (some m) msg l =
        elim (Bool-cases (
          known
          || first_pass
          || text_eq peer_id local_id
          || ltb (m.timestamp + notify_freshness_window) now)) [
            | inl t ↦ absurd (let l' : Listed (notify msg) [] = rw t at l in l')
            | inr t ↦
                let l' : Listed (notify msg) (notify m ∷ []) = rw t at l in
                elim l' [
                  | inl q ↦
                      let same : m ≡ msg = cc in
                      (
                        ap some same,
                        ground (arith, t),
                        ground (arith, t),
                        subst (λ x. now ≤ x.timestamp + notify_freshness_window) same
                            (ground (arith, t)),
                        λ e. ground (arith, t, (text_eq_iff peer_id local_id).1 e),
                      )
                  | inr r ↦ absurd r
                ]
          ]

    From-cons :
        (k : Text) (e : MapEntry) (known after : List Text) (entries : Map MapEntry)
        (msg : SmsMessage)
        → Keeps known after
        → From after entries msg
        → From known ((k, e) ∷ entries) msg
    From-cons k e known after entries msg keeps
          (key, (entry, among, is, fresh, seeded, recent, of)) =
        (key, (entry, inr among, is, unknown key fresh, seeded, recent, of))
      where
        unknown : (j : Text) → contains_text after j ≡ false → contains_text known j ≡ false
        unknown j h = elim (Bool-cases (contains_text known j)) [
          | inl t ↦ absurd (let f : true ≡ false = sym (keeps j t) ∙ h in cc)
          | inr t ↦ t
        ]

    From-for_kind :
        (k : Text) (e : MapEntry) (kind : Option (Text × Kind)) (known : List Text)
        (entries : Map MapEntry) (msg : SmsMessage)
        → parse_key k ≡ kind
        → Listed
            (notify msg)
            (for_kind decode local_id own_store first_pass now k (contains_text known k) e kind)
        → From known ((k, e) ∷ entries) msg
    From-for_kind k e none known entries msg h l = absurd l
    From-for_kind k e (some (peer_id, enabled_kind)) known entries msg h l = absurd l
    From-for_kind k e (some (peer_id, create_kind)) known entries msg h l =
        elim (Bool-cases (own_store && text_eq peer_id local_id)) [
          | inl t ↦
              let l' : Listed (notify msg) (fulfill_create k e ∷ []) = rw t at l in
              elim l' [
                | inl q ↦ absurd (let f : fulfill_create k e ≡ notify msg = q in cc)
                | inr r ↦ absurd r
              ]
          | inr t ↦ absurd (let l' : Listed (notify msg) [] = rw t at l in l')
        ]
    From-for_kind k e (some (peer_id, message_kind)) known entries msg h l =
        let (is, fresh, seeded, recent, other) =
          notified (contains_text known k) peer_id (decode e.value) msg l in
        (k, (e, inl refl, is, fresh, seeded, recent, (peer_id, h, other)))

    process_entries-From :
        (entries : Map MapEntry) (known : List Text) (msg : SmsMessage)
        → Listed
            (notify msg)
            (process_entries decode local_id own_store first_pass now entries known).1
        → From known entries msg
    unfolding process_entries
    process_entries-From [] known msg l = absurd l
    process_entries-From ((k, e) ∷ entries) known msg l =
        let after = note decode local_id own_store first_pass now k (parse_key k) known in
        elim (Listed-append (notify msg)
          (for_kind decode local_id own_store first_pass now k (contains_text known k) e
            (parse_key k))
          (process_entries decode local_id own_store first_pass now entries after).1 l) [
            | inl first ↦ From-for_kind k e (parse_key k) known entries msg refl first
            | inr later ↦
                From-cons k e known after entries msg (Keeps-note k (parse_key k) known)
                  (process_entries-From entries after msg later)
          ]

  -- The known keys after passes over the store, each with whether it is the first, its time, and the
  -- entries that it reads.
  unfoldable pub passes : List (Bool × ℕ × Map MapEntry) → List Text → List Text
  passes [] known = known
  passes ((first_pass, now, entries) ∷ ps) known =
      passes ps (process_entries decode local_id own_store first_pass now entries known).0

  -- A pass over the store had an entry at the key.
  abbrev pub Had : Text → List (Bool × ℕ × Map MapEntry) → Type 0
  Had key [] = ⊥
  Had key ((first_pass, now, entries) ∷ ps) =
      ((entry : MapEntry) × Listed (key, entry) entries) ⊎ Had key ps

  Keeps-passes :
      (ps : List (Bool × ℕ × Map MapEntry)) (known : List Text) → Keeps known (passes ps known)
  unfolding passes
  Keeps-passes [] known key h = h
  Keeps-passes ((first_pass, now, entries) ∷ ps) known key h =
      Keeps-passes ps _ key (Keeps-process_entries first_pass now entries known key h)

  Known-Listed :
      (known : List Text) (key peer_id : Text) (entry : MapEntry) (entries : Map MapEntry)
      → Known known entries
      → parse_key key ≡ some (peer_id, message_kind)
      → Listed (key, entry) entries
      → contains_text known key ≡ true
  Known-Listed known key peer_id entry [] h m l = absurd l
  Known-Listed known key peer_id entry ((k, e) ∷ entries) (h, hs) m (inl q) =
      let same : k ≡ key = ap (λ x. x.0) q in
      subst (KnownOne known key) m (subst (λ j. KnownOne known j (parse_key j)) same h)
  Known-Listed known key peer_id entry ((k, e) ∷ entries) (h, hs) m (inr l) =
      Known-Listed known key peer_id entry entries hs m l

  contains-passes :
      (ps : List (Bool × ℕ × Map MapEntry)) (known : List Text) (key peer_id : Text)
      → parse_key key ≡ some (peer_id, message_kind)
      → Had key ps
      → contains_text (passes ps known) key ≡ true
  unfolding passes
  contains-passes [] known key peer_id m h = absurd h
  contains-passes ((first_pass, now, entries) ∷ ps) known key peer_id m (inl (entry, l)) =
      Keeps-passes ps _ key (
        Known-Listed _ key peer_id entry entries
          (Known-process_entries first_pass now entries known) m l)
  contains-passes ((first_pass, now, entries) ∷ ps) known key peer_id m (inr h) =
      contains-passes ps _ key peer_id m h

  -- After any passes of a peer over a store, over whatever entries in whatever order, each message
  -- that the next pass notifies is the decoded value of an entry that it reads, under a message key
  -- of another peer at which no pass before had an entry. The pass is not marked as the first, and
  -- the message is not older than ten minutes. So a key that was notified, or seen in the first
  -- pass, is not notified in a later one. The identifier of the peer and whether the store is its
  -- own are the same in all passes.
  pub process_entries-notify :
      (ps : List (Bool × ℕ × Map MapEntry)) (known : List Text) (first_pass : Bool) (now : ℕ)
      (entries : Map MapEntry) (msg : SmsMessage)
      → Listed
          (notify msg)
          (process_entries decode local_id own_store first_pass now entries (passes ps known)).1
      → (key : Text) × ((entry : MapEntry) × Listed (key, entry) entries
          × (decode entry.value ≡ some msg)
          × (¬ Had key ps)
          × (first_pass ≡ false)
          × (now ≤ msg.timestamp + 600000)
          × ((peer_id : Text) × (parse_key key ≡ some (peer_id, message_kind))
              × (peer_id ≢ local_id)))
  process_entries-notify ps known first_pass now entries msg l =
      let (key, (entry, among, is, fresh, seeded, recent, (peer_id, kind, other))) =
        process_entries-From first_pass now entries (passes ps known) msg l in
      (
        key,
        (
          entry,
          among,
          is,
          λ h.
              let f : true ≡ false = sym (contains-passes ps known key peer_id kind h) ∙ fresh in
              cc,
          seeded,
          recent,
          (peer_id, kind, other),
        ),
      )
