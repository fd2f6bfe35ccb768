-- ===== src/Sms/Keys.antt =====
-- The keys of internal/sms/model.go are read back as what they were made from.
use foilen_box.Prelude.{
  ℕ, ◌≡◌, refl, ap, ◌∙◌, inl, inr, Bool, true, false, none, some, [], ◌∷◌, ◌++◌, Text, codes,
  text_eq, is_empty, take, ◌==◌, if◌then◌else◌, Bool-cases,
}
use foilen_box.Sms.{
  slash, cut_slash, kind_in, kind_of, with_peer, parse_parts, create_key, enabled_key, message_key,
  parse_key, create_kind, enabled_kind, message_kind,
}

-- A text with no slash.
unfoldable pub has_no_slash : Text → Bool
has_no_slash [] = true
has_no_slash (c ∷ t) = let rest = has_no_slash t in if c == slash then false else rest

cut_slash-append : (p t : Text) → has_no_slash p ≡ true → cut_slash (p ++ slash ∷ t) ≡ (p, some t)
unfolding cut_slash has_no_slash
cut_slash-append [] t h = refl
cut_slash-append (c ∷ p) t h = elim (Bool-cases (c == slash)) [
  | inl e ↦ absurd (let f : false ≡ true = rw e at h in cc)
  | inr e ↦ rw (e, cut_slash-append p t (rw e at h)) refl
]

cut_slash-none : (p : Text) → has_no_slash p ≡ true → cut_slash p ≡ (p, none)
unfolding cut_slash has_no_slash
cut_slash-none [] h = refl
cut_slash-none (c ∷ p) h = elim (Bool-cases (c == slash)) [
  | inl e ↦ absurd (let f : false ≡ true = rw e at h in cc)
  | inr e ↦ rw (e, cut_slash-none p (rw e at h)) refl
]

parse_key-append :
    (p t : Text)
    → has_no_slash p ≡ true
    → is_empty p ≡ false
    → parse_key (p ++ slash ∷ t) ≡ with_peer p (kind_in t)
unfolding parse_key parse_parts
parse_key-append p t plain full = ap parse_parts (cut_slash-append p t plain) ∙ rw full refl

-- For a peer whose identifier is not empty and has no slash, and a time whose digits have no slash and
-- are neither of the two words: a key for a request to send, with an identifier that is not empty, is
-- read back as a request of that peer, a marker as a marker of it, and the key of a message as a
-- message of it.
pub parse_key_lem :
    (sha256_hex : Text → Text) (decimal : ℕ → Text) (peer_id unique_id value : Text) (ts : ℕ)
    → has_no_slash peer_id ≡ true
    → is_empty peer_id ≡ false
    → is_empty unique_id ≡ false
    → has_no_slash (decimal ts) ≡ true
    → text_eq (decimal ts) (codes "create") ≡ false
    → text_eq (decimal ts) (codes "enabled") ≡ false
    → (parse_key (create_key peer_id unique_id) ≡ some (peer_id, create_kind))
      × (parse_key (enabled_key peer_id) ≡ some (peer_id, enabled_kind))
      × (parse_key (message_key sha256_hex decimal peer_id ts value) ≡ some (peer_id, message_kind))
unfolding create_key enabled_key message_key kind_in cut_slash text_eq
parse_key_lem sha256_hex decimal peer_id unique_id value ts plain full named digits not_create
      not_enabled =
    let hash = take 16 (sha256_hex value) in
    (
      parse_key-append peer_id (codes "create/" ++ unique_id) plain full ∙ rw named refl,
      parse_key-append peer_id (codes "enabled") plain full,
      parse_key-append peer_id (decimal ts ++ (codes "/" ++ hash)) plain full
          ∙ ap (λ parts. with_peer peer_id (kind_of parts.0 parts.1))
              (cut_slash-append (decimal ts) hash digits)
          ∙ rw (not_create, not_enabled) refl,
    )
