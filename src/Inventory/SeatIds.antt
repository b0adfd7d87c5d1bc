-- ===== src/Inventory/SeatIds.antt =====
-- `normalize_seat_ids` of services/seat-inventory-service/app/domain/rules.py: the seats of a request.
use event_ticketing_soa.Common.{
  ◌≤◌, Bool, true, false, ◌≡◌, ◌&&◌, not, List, [], ◌∷◌, arith, refl, inl, inr, ◌⊎◌, Result-cases,
  ok, length, Bool-cases, map, ◌↔◌, sym, ap, subst,
}
use event_ticketing_soa.Common.Rows.{In}
use event_ticketing_soa.Common.Text.{Text, text_eq, text_eq_iff, text_le, strip, matches_identifier}
use event_ticketing_soa.Inventory.Rules.{
  validate_identifier, validate_each, insert_text, sort_unique, normalize_seat_ids,
}

-- `s < t` on strings.
abbrev pub comes_first : Text → Text → Bool
comes_first s t = text_le s t && not (text_eq s t)

-- Sorted, and without a duplicate.
unfoldable pub is_increasing : List Text → Bool
is_increasing [] = true
is_increasing (x ∷ []) = true
is_increasing (x ∷ y ∷ ys) = comes_first x y && is_increasing (y ∷ ys)

text_le-total : (s t : Text) → text_le s t ≡ false → text_le t s ≡ true
unfolding text_le
text_le-total [] t h = absurd (cc)
text_le-total (a ∷ s) [] h = refl
text_le-total (a ∷ s) (b ∷ t) h = ground (arith, text_le-total s t)

text_eq_sym : (s t : Text) → text_eq s t ≡ text_eq t s
unfolding text_eq
text_eq_sym [] [] = refl
text_eq_sym [] (b ∷ t) = refl
text_eq_sym (a ∷ s) [] = refl
text_eq_sym (a ∷ s) (b ∷ t) = ground (arith, text_eq_sym s t)

is_increasing-tail :
    (x : Text) (xs : List Text) → is_increasing (x ∷ xs) ≡ true → is_increasing xs ≡ true
unfolding is_increasing
is_increasing-tail x [] h = refl
is_increasing-tail x (y ∷ ys) h = ground arith

cons-is_increasing :
    (x t : Text) (xs : List Text)
    → is_increasing (x ∷ xs) ≡ true
    → comes_first x t ≡ true
    → is_increasing (insert_text t xs) ≡ true
    → is_increasing (x ∷ insert_text t xs) ≡ true
unfolding is_increasing insert_text
cons-is_increasing x t [] h k l = ground arith
cons-is_increasing x t (y ∷ ys) h k l = ground arith

insert_text-is_increasing :
    (t : Text) (xs : List Text) → is_increasing xs ≡ true → is_increasing (insert_text t xs) ≡ true
unfolding insert_text is_increasing
insert_text-is_increasing t [] h = refl
insert_text-is_increasing t (x ∷ xs) h =
    let rest = insert_text-is_increasing t xs (is_increasing-tail x xs h) in
    elim (Bool-cases (text_eq t x)) [
      | inl e ↦ rw e h
      | inr e ↦ elim (Bool-cases (text_le t x)) [
        | inl k ↦ rw (e, k) (ground (arith, e, k, h))
        | inr k ↦
            rw (e, k)
              (cons-is_increasing x t xs h (ground (arith, text_le-total t x k, text_eq_sym x t, e))
                rest)
      ]
    ]

sort_unique-is_increasing : (ts : List Text) → is_increasing (sort_unique ts) ≡ true
unfolding sort_unique is_increasing
sort_unique-is_increasing [] = refl
sort_unique-is_increasing (t ∷ ts) =
    insert_text-is_increasing t (sort_unique ts) (sort_unique-is_increasing ts)

-- The same texts.
In-insert_text :
    (t : Text) (xs : List Text) (u : Text) → In u (insert_text t xs) → (u ≡ t) ⊎ In u xs
unfolding insert_text
In-insert_text t [] u (inl h) = inl h
In-insert_text t [] u (inr h) = inr h
In-insert_text t (x ∷ xs) u h = ground (arith, In-insert_text t xs u)

insert_text-In :
    (t : Text) (xs : List Text) (u : Text) → (u ≡ t) ⊎ In u xs → In u (insert_text t xs)
unfolding insert_text
insert_text-In t [] u h = h
insert_text-In t (x ∷ xs) u h = ground (arith, insert_text-In t xs u, text_eq_iff t x)

pub sort_unique-In : (ts : List Text) (u : Text) → In u (sort_unique ts) ↔ In u ts
unfolding sort_unique
sort_unique-In [] u = (λ h. h, λ h. h)
sort_unique-In (t ∷ ts) u =
    let (f, g) = sort_unique-In ts u in
    (
      λ h. elim (In-insert_text t (sort_unique ts) u h) [ inl e ↦ inl e | inr k ↦ inr (f k) ],
      λ h. insert_text-In t (sort_unique ts) u (elim h [ inl e ↦ inl e | inr k ↦ inr (g k) ]),
    )

-- What the identifiers are read as.
record ReadAs (ts us : List Text) : Type 0 where
  stripped : us ≡ map strip ts
  identifiers : (u : Text) → In u us → matches_identifier u ≡ true

validate_each-ReadAs : (ts us : List Text) → validate_each ts ≡ ok us → ReadAs ts us
unfolding validate_each validate_identifier
validate_each-ReadAs [] us h =
    let e : [] ≡ us = ground arith in
    subst (ReadAs []) e (record { stripped = refl; identifiers = λ u i. absurd (cc) })
validate_each-ReadAs (t ∷ ts) us h = elim (Bool-cases (matches_identifier (strip t))) [
  | inr k ↦ absurd (ground arith)
  | inl k ↦ elim (Result-cases (validate_each ts)) [
    | inr (e, l) ↦ absurd (ground arith)
    | inl (vs, l) ↦
        let e : strip t ∷ vs ≡ us = ground arith in
        let r = validate_each-ReadAs ts vs l in
        subst (ReadAs (t ∷ ts)) e (record {
          stripped = ap (λ ys. strip t ∷ ys) r.stripped;
          identifiers = λ u i. elim i [
            | inl f ↦ subst (λ x. matches_identifier x ≡ true) (sym f) k
            | inr j ↦ r.identifiers u j
          ];
        })
  ]
]

-- The seats that a request asks for.
pub record IsSelection (ts ids : List Text) : Type 0 where
  pub increasing : is_increasing ids ≡ true
  pub same : (u : Text) → In u ids ↔ In u (map strip ts)
  pub identifiers : (u : Text) → In u ids → matches_identifier u ≡ true
  pub same_length : length ids ≡ length ts
  pub some_seat : 1 ≤ length ids
  pub few : length ids ≤ 50

-- The identifiers that a request is read with are those it gave, without the space around them, in
-- order and without a duplicate: one for each that it gave, at least one and at most fifty.
pub normalize_seat_ids-IsSelection :
    (ts ids : List Text) → normalize_seat_ids ts ≡ ok ids → IsSelection ts ids
unfolding normalize_seat_ids
normalize_seat_ids-IsSelection ts ids h = elim (Result-cases (validate_each ts)) [
  | inr (e, k) ↦ absurd (ground arith)
  | inl (us, k) ↦
      let e : sort_unique us ≡ ids = ground arith in
      let r = validate_each-ReadAs ts us k in
      record {
        increasing = subst (λ x. is_increasing x ≡ true) e (sort_unique-is_increasing us);
        same = λ u.
            subst (λ x. In u ids ↔ In u x) r.stripped
              (subst (λ x. In u x ↔ In u us) e (sort_unique-In us u));
        identifiers = λ u i. r.identifiers u ((sort_unique-In us u).0 (subst (In u) (sym e) i));
        same_length = ground arith;
        some_seat = ground arith;
        few = ground arith;
      }
]
