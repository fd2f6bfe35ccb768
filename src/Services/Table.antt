-- ===== src/Services/Table.antt =====
-- The table of served sessions of realm/features/services/feature.go: it names open sessions only,
-- each under the key that it was opened for.
use foilen_box.Prelude.{
  ℕ, zero, suc, ◌≡◌, ◌≢◌, refl, sym, ◌∙◌, ap, subst, inl, inr, Bool, true, false, none, some, List,
  [], ◌∷◌, ◌++◌, arith, Text, map_option, lookup, lookup-insert, lookup-delete, length, get_elem?,
  text_eq, text_eq_iff, ◌==◌, ==_iff, if◌then◌else◌, Bool-cases, Option-cases,
}
use foilen_box.Tunnel.{Session, new_session, shutdown}
use foilen_box.Services.{
  Entry, Feature, set_at, set_session, is_place, remove_session, shut, add_session,
}

pub record Sound (heap : List Entry) (key : Text) (n : ℕ) : Type 0 where
  pub entry : Entry
  pub stands : get_elem? heap n ≡ some entry
  pub keyed : entry.key ≡ key
  pub open_ : entry.session.closed ≡ false

pub record IsValid (f : Feature) : Type 0 where
  pub sound : (key : Text) (n : ℕ) → lookup key f.sessions ≡ some n → Sound f.heap key n

abbrev with_session : Session → Entry → Entry
with_session t e = record e { session = t }

get-set_at :
    (n k : ℕ) (t : Session) (es : List Entry)
    → get_elem? (set_at n t es) k
      ≡ (if n == k then map_option (with_session t) (get_elem? es k) else get_elem? es k)
unfolding set_at
get-set_at n k t [] = ground arith
get-set_at zero zero t (e ∷ es) = refl
get-set_at zero (suc k) t (e ∷ es) = ground arith
get-set_at (suc n) zero t (e ∷ es) = ground arith
get-set_at (suc n) (suc k) t (e ∷ es) = ground (arith, get-set_at n k t es)

get-append_some :
    (k : ℕ) (es fs : List Entry) (e : Entry)
    → get_elem? es k ≡ some e
    → get_elem? (es ++ fs) k ≡ some e
get-append_some k [] fs e h = cc
get-append_some zero (x ∷ es) fs e h = h
get-append_some (suc k) (x ∷ es) fs e h = get-append_some k es fs e h

get-append_last : (es : List Entry) (e : Entry) → get_elem? (es ++ e ∷ []) (length es) ≡ some e
get-append_last [] e = refl
get-append_last (x ∷ es) e = get-append_last es e

pub set_session-IsValid :
    (n : ℕ) (t : Session) (f : Feature) → t.closed ≡ false → IsValid f → IsValid (set_session n t f)
unfolding set_session
set_session-IsValid n t f o v = record {
  sound = λ key k h.
      let s = v.sound key k h in
      elim (Bool-cases (n == k)) [
        | inl e ↦ record {
          entry = record (s.entry) { session = t };
          stands = get-set_at n k t f.heap ∙ rw (e, s.stands);
          keyed = s.keyed;
          open_ = o;
        }
        | inr e ↦ record {
          entry = s.entry;
          stands = get-set_at n k t f.heap ∙ rw e s.stands;
          keyed = s.keyed;
          open_ = s.open_;
        }
      ];
}

pub add_session-IsValid :
    (key remote : Text) (f : Feature) → IsValid f → IsValid (add_session key remote f)
unfolding add_session new_session
add_session-IsValid key remote f v = record {
  sound = λ other k h.
      let before : (if text_eq key other then some (length f.heap) else lookup other f.sessions)
          ≡ some k =
        sym (lookup-insert key other (length f.heap) f.sessions) ∙ h in
      elim (Bool-cases (text_eq key other)) [
        | inl e ↦
            let at : length f.heap ≡ k = ground (arith, before, e) in
            subst (Sound _ other) at (record {
              entry = record { key = key; peer_id = remote; session = new_session };
              stands = get-append_last f.heap _;
              keyed = (text_eq_iff key other).0 e;
              open_ = refl;
            })
        | inr e ↦
            let s = v.sound other k (rw e at before) in
            record {
              entry = s.entry;
              stands = get-append_some k f.heap _ s.entry s.stands;
              keyed = s.keyed;
              open_ = s.open_;
            }
      ];
}

-- The session that a place holds is the one that a valid table means by it.
key_of :
    (f : Feature) (key : Text) (n : ℕ) (x : Entry)
    → IsValid f
    → get_elem? f.heap n ≡ some x
    → lookup key f.sessions ≡ some n
    → x.key ≡ key
key_of f key n x v e h =
    let s = v.sound key n h in
    let same : some x ≡ some s.entry = sym e ∙ s.stands in
    let at : x ≡ s.entry = cc in ap (λ y. y.key) at ∙ s.keyed

same_heap :
    (key : Text) (n : ℕ) (f : Feature) (k : ℕ)
    → get_elem? (remove_session key n f).heap k ≡ get_elem? f.heap k
unfolding remove_session
same_heap key n f k = ground arith

remove_set :
    (key : Text) (n : ℕ) (t : Session) (f : Feature)
    → set_session n t (remove_session key n f) ≡ remove_session key n (set_session n t f)
unfolding remove_session set_session
remove_set key n t f = elim (Bool-cases (is_place n (lookup key f.sessions))) [
  | inl e ↦ rw e refl
  | inr e ↦ rw e refl
]

-- What the table still names once a session is removed from it.
pub remains :
    (f : Feature) (key : Text) (n k : ℕ) (x : Entry)
    → IsValid f
    → get_elem? f.heap n ≡ some x
    → lookup key (remove_session x.key n f).sessions ≡ some k
    → (lookup key f.sessions ≡ some k) × (n ≢ k)
unfolding remove_session
remains f key n k x v e h = elim (Bool-cases (is_place n (lookup x.key f.sessions))) [
  | inl p ↦
      let left : (if text_eq x.key key then none else lookup key f.sessions) ≡ some k =
        sym (lookup-delete x.key key f.sessions) ∙ (rw p at h) in
      let other : text_eq x.key key ≡ false = ground (arith, left) in
      let was : lookup key f.sessions ≡ some k = rw other at left in
      (
        was,
        λ q.
            let same = key_of f key n x v e (was ∙ ap some (sym q)) in
            let eq : text_eq x.key key ≡ true = (text_eq_iff x.key key).1 same in cc,
      )
  | inr p ↦
      let was : lookup key f.sessions ≡ some k = rw p at h in
      (
        was,
        λ q.
            let here = was ∙ ap some (sym q) in
            let same = key_of f key n x v e here in
            let named : lookup x.key f.sessions ≡ some n =
              ap (λ y. lookup y f.sessions) same ∙ here in
            let yes : is_place n (lookup x.key f.sessions) ≡ true =
              rw named ((==_iff n n).1 refl) in
            cc,
      )
]

remove-IsValid :
    (f : Feature) (n : ℕ) (t : Session) (x : Entry)
    → IsValid f
    → get_elem? f.heap n ≡ some x
    → IsValid (set_session n t (remove_session x.key n f))
unfolding set_session
remove-IsValid f n t x v e = record {
  sound = λ key k h.
      let (was, apart) = remains f key n k x v e h in
      let s = v.sound key k was in
      let other : (n == k) ≡ false = ground (arith, apart) in
      record {
        entry = s.entry;
        stands =
            get-set_at n k t (remove_session x.key n f).heap
            ∙ rw other (same_heap x.key n f k ∙ s.stands);
        keyed = s.keyed;
        open_ = s.open_;
      };
}

either : (b : Bool) (f g : Feature) → IsValid f → IsValid g → IsValid (if b then f else g)
either true f g v w = v
either false f g v w = w

pub shut-IsValid : (n : ℕ) (f : Feature) → IsValid f → IsValid (shut n f)
unfolding shut
shut-IsValid n f v = elim (Option-cases (get_elem? f.heap n)) [
  | inl e ↦ rw (e, shut) v
  | inr (x, e) ↦
      rw (e, shut)
        (either x.session.closed f (remove_session x.key n (set_session n (shutdown x.session) f)) v
          (subst IsValid (remove_set x.key n (shutdown x.session) f)
            (remove-IsValid f n (shutdown x.session) x v e)))
]
