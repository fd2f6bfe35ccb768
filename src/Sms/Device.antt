-- ===== src/Sms/Device.antt =====
-- What `reconcileDeviceStore` of internal/sms/manager.go writes to the map.
use foilen_box.Prelude.{
  ◌≡◌, refl, sym, ◌∙◌, ap, ap₂, is_empty, subst, inl, inr, ◌↔◌, true, false, not, ◌&&◌, Option,
  none, some, some_inj, List, [], ◌∷◌, ℕ, arith, Text, text_eq, text_eq_iff, contains_text, Map,
  Bool-cases, Listed,
}
use foilen_box.Model.Replica.{MapEntry}
use foilen_box.Sms.{
  SmsMessage, Kind, message_kind, create_kind, enabled_kind, parse_key, keys, to_add, to_remove,
  existing_own, is_message_of, message_key, device_entries, Calls, reconcile_device_store,
}

-- The map has an entry that is not deleted at the key, which is one of a message of this peer.
abbrev pub Own : Text → Map MapEntry → Text → Type 0
Own local_id entries key =
    ((entry : MapEntry) × Listed (key, entry) entries × (entry.deleted ≡ false))
    × (parse_key key ≡ some (local_id, message_kind))

contains_iff : (xs : List Text) (k : Text) → (contains_text xs k ≡ true) ↔ Listed k xs
unfolding contains_text
contains_iff [] k = (λ h. absurd (let f : false ≡ true = h in cc), λ h. absurd h)
contains_iff (x ∷ xs) k =
    let (to, from) = contains_iff xs k in
    elim (Bool-cases (text_eq x k)) [
      | inl e ↦ (λ h. inl ((text_eq_iff x k).0 e), λ h. ground (arith, e))
      | inr e ↦ (
        λ h. inr (to (ground (arith, h, e))),
        λ h. elim h [
          | inl q ↦ ground (arith, (text_eq_iff x k).1 q)
          | inr r ↦ ground (arith, from r)
        ],
      )
    ]

is_message_of_iff :
    (local_id : Text) (o : Option (Text × Kind))
    → (is_message_of local_id o ≡ true) ↔ (o ≡ some (local_id, message_kind))
is_message_of_iff local_id none = (λ h. cc, λ h. cc)
is_message_of_iff local_id (some (peer_id, message_kind)) = (
  λ h. ap (λ p. some (p, message_kind)) ((text_eq_iff peer_id local_id).0 h),
  λ h. (text_eq_iff peer_id local_id).1 (ap (λ x. x.0) (some_inj h)),
)
is_message_of_iff local_id (some (peer_id, create_kind)) = (
  λ h. absurd (let f : false ≡ true = h in cc),
  λ h. absurd (let f : create_kind ≡ message_kind = ap (λ x. x.1) (some_inj h) in cc),
)
is_message_of_iff local_id (some (peer_id, enabled_kind)) = (
  λ h. absurd (let f : false ≡ true = h in cc),
  λ h. absurd (let f : enabled_kind ≡ message_kind = ap (λ x. x.1) (some_inj h) in cc),
)

Listed-existing_own :
    (local_id key : Text) (entries : Map MapEntry)
    → Listed key (existing_own local_id entries) ↔ Own local_id entries key
unfolding existing_own
Listed-existing_own local_id key [] = (λ l. absurd l, λ ((e, l, live), kind). absurd l)
Listed-existing_own local_id key ((k, e) ∷ entries) =
    let (to, from) = Listed-existing_own local_id key entries in
    let (is, of) = is_message_of_iff local_id (parse_key k) in
    elim (Bool-cases (not e.deleted && is_message_of local_id (parse_key k))) [
      | inl t ↦ rw t (
        λ l. elim l [
          | inl q ↦ (
            (e, inl (ap (λ j. (j, e)) q), ground (arith, t)),
            subst (λ j. parse_key j ≡ some (local_id, message_kind)) q (is (ground (arith, t))),
          )
          | inr r ↦ let ((f, l', live), kind) = to r in ((f, inr l', live), kind)
        ],
        λ ((f, l, live), kind). elim l [
          | inl q ↦ inl (ap (λ x. x.0) q)
          | inr r ↦ inr (from ((f, r, live), kind))
        ],
      )
      | inr t ↦ rw t (
        λ l. let ((f, l', live), kind) = to l in ((f, inr l', live), kind),
        λ ((f, l, live), kind). elim l [
          | inl q ↦
              let there : parse_key k ≡ some (local_id, message_kind) =
                subst (λ j. parse_key j ≡ some (local_id, message_kind)) (sym (ap (λ x. x.0) q))
                  kind in
              let kept : e.deleted ≡ false = ap (λ x. x.1.deleted) q ∙ live in
              absurd (ground (arith, t, of there, kept))
          | inr r ↦ from ((f, r, live), kind)
        ],
      )
    ]

Listed-to_add :
    (own : List Text) (rows : Map Text) (row : Text × Text)
    → Listed row (to_add own rows) ↔ (Listed row rows × (contains_text own row.0 ≡ false))
unfolding to_add
Listed-to_add own [] row = (λ l. absurd l, λ h. absurd h.0)
Listed-to_add own ((k, v) ∷ rows) row =
    let (to, from) = Listed-to_add own rows row in
    elim (Bool-cases (contains_text own k)) [
      | inl t ↦ rw t (
        λ l. let (l', fresh) = to l in (inr l', fresh),
        λ (l, fresh). elim l [
          | inl q ↦
              let f : true ≡ false = sym t ∙ (ap (λ x. contains_text own x.0) q ∙ fresh) in
              absurd (let g : true ≡ false = f in cc)
          | inr r ↦ from (r, fresh)
        ],
      )
      | inr t ↦ rw t (
        λ l. elim l [
          | inl q ↦ (inl q, ap (λ x. contains_text own x.0) (sym q) ∙ t)
          | inr r ↦ let (l', fresh) = to r in (inr l', fresh)
        ],
        λ (l, fresh). elim l [ inl q ↦ inl q | inr r ↦ inr (from (r, fresh)) ],
      )
    ]

contains-to_remove :
    (on_device existing : List Text) (key : Text)
    → contains_text (to_remove on_device existing) key
      ≡ (contains_text existing key && not (contains_text on_device key))
unfolding to_remove contains_text
contains-to_remove on_device [] key = refl
contains-to_remove on_device (k ∷ existing) key =
    ground (arith, text_eq_iff k key, contains-to_remove on_device existing key)

Listed-keys :
    (key : Text) (rows : Map Text) → Listed key (keys rows) ↔ ((v : Text) × Listed (key, v) rows)
Listed-keys key [] = (λ l. absurd l, λ h. absurd h.1)
Listed-keys key ((k, v) ∷ rows) =
    let (to, from) = Listed-keys key rows in
    (
      λ l. elim l [
        | inl q ↦ (v, inl (ap (λ j. (j, v)) q))
        | inr r ↦ let (w, l') = to r in (w, inr l')
      ],
      λ (w, l). elim l [ inl q ↦ inl (ap (λ x. x.0) q) | inr r ↦ inr (from (w, r)) ],
    )

module _ (sha256_hex : Text → Text) (decimal : ℕ → Text) (encode : SmsMessage → Text) where
  -- A message of the device that is kept under the key with the value.
  abbrev pub Kept : Text → List SmsMessage → Text → Text → Type 0
  Kept local_id rows key value =
      (msg : SmsMessage) × Listed msg rows
      × (message_key sha256_hex decimal local_id msg.timestamp (encode msg) ≡ key)
      × (encode msg ≡ value)

  Listed-device_entries :
      (local_id key value : Text) (rows : List SmsMessage)
      → Listed (key, value) (device_entries sha256_hex decimal encode local_id rows)
        ↔ Kept local_id rows key value
  unfolding device_entries
  Listed-device_entries local_id key value [] = (λ l. absurd l, λ (m, l, k, v). absurd l)
  Listed-device_entries local_id key value (msg ∷ rows) =
      let (to, from) = Listed-device_entries local_id key value rows in
      (
        λ l. elim l [
          | inl q ↦ (msg, inl refl, ap (λ x. x.0) q, ap (λ x. x.1) q)
          | inr r ↦ let (m, l', k, v) = to r in (m, inr l', k, v)
        ],
        λ (m, l, k, v). elim l [
          | inl q ↦ inl (
              ap (λ x. (message_key sha256_hex decimal local_id x.timestamp (encode x), encode x)) q
              ∙ ap₂ (λ i j. (i, j)) k v)
          | inr r ↦ inr (from (m, r, k, v))
        ],
      )

  -- For a peer with an identifier, when the messages of the device are read and the map is not locked:
  -- the calls set exactly the messages of the device, each under its key with its encoding, at whose
  -- key the map has no live message entry of this peer; and they delete exactly the keys of the live
  -- message entries of this peer that no message of the device has. Entries of other peers, requests
  -- and other keys are neither.
  pub reconcile_device_store_lem :
      (local_id : Text) (rows : List SmsMessage) (entries : Map MapEntry)
      → is_empty local_id ≡ false
      → (calls : Calls) × (reconcile_device_store sha256_hex decimal encode local_id
            (some rows)
            (some entries)
          ≡ some calls)
        × ((key value : Text)
            → Listed (key, value) calls.sets
              ↔ (Kept local_id rows key value × (¬ Own local_id entries key)))
        × ((key : Text)
            → Listed key calls.deletes
              ↔ (Own local_id entries key × (¬ ((value : Text) × Kept local_id rows key value))))
  unfolding reconcile_device_store
  reconcile_device_store_lem local_id rows entries named =
      let own = existing_own local_id entries in
      let on_device = device_entries sha256_hex decimal encode local_id rows in
      (
        record { sets = to_add own on_device; deletes = to_remove (keys on_device) own },
        rw named refl,
        λ key value.
            let (to, from) = Listed-to_add own on_device (key, value) in
            let (down, up) = Listed-device_entries local_id key value rows in
            let (seen, back) = Listed-existing_own local_id key entries in
            let (mem, put) = contains_iff own key in
            (
              λ l.
                  let (l', fresh) = to l in
                  (down l', λ o. let f : true ≡ false = sym (put (back o)) ∙ fresh in cc),
              λ (kept, other). from (
                up kept,
                elim (Bool-cases (contains_text own key)) [
                  | inl t ↦ absurd (other (seen (mem t)))
                  | inr t ↦ t
                ],
              ),
            ),
        λ key.
            let same = contains-to_remove (keys on_device) own key in
            let (mem, put) = contains_iff (to_remove (keys on_device) own) key in
            let (in_own, own_in) = contains_iff own key in
            let (in_dev, dev_in) = contains_iff (keys on_device) key in
            let (seen, back) = Listed-existing_own local_id key entries in
            let (has, held) = Listed-keys key on_device in
            (
              λ l.
                  let t = put l in
                  (
                    seen (in_own (ground (arith, t, same))),
                    λ (v, kept).
                        let there =
                          dev_in (held (v, (Listed-device_entries local_id key v rows).1 kept)) in
                        absurd (ground (arith, t, same, there)),
                  ),
              λ (o, gone). elim (Bool-cases (contains_text (keys on_device) key)) [
                | inl t ↦
                    let (v, l) = has (in_dev t) in
                    absurd (gone (v, (Listed-device_entries local_id key v rows).0 l))
                | inr t ↦ mem (ground (arith, t, same, own_in (back o)))
              ],
            ),
      )
