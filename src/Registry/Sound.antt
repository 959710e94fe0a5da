-- ===== src/Registry/Sound.antt =====
-- Every listed item is stored, passes the filters and stands in the order of ids.
use evernight_ai.Prelude.{
  ℕ, ◌≤◌, String, ◌≡◌, refl, inl, inr, Bool, true, Option, none, some, List, arith, eq_iff, ◌==◌,
  nat_eq, string_eq, option_eq, pair_eq, Bool-cases, length, keep, All, length-take, All-take,
  All-keep_both, All-map,
}
use evernight_ai.Dict.{Dict, values}
use evernight_ai.Auth.{PrincipalScope, scope_permits}
use evernight_ai.Registry.{
  Item, list_items, list_restricted, restrict_owner, restrict_to, after_cursor, owned_by, up_to,
  sorted,
}
use evernight_ai.Registry.Listing.{
  IsKeyed, IsSorted, Stored, values-Stored, All-sorted, sorted-IsSorted, keep-IsSorted,
  take-IsSorted,
}
use evernight_ai.Registry.Clearing.{matches_cursor, matches_owner}

restricted_to_owner :
    (inside owner o x : Option String)
    → restrict_to inside owner ≡ some o
    → matches_owner o x ≡ true
    → (matches_owner owner x ≡ true)
      × (scope_permits (some (record { owner_id = inside })) x ≡ true)
unfolding restrict_to matches_owner scope_permits
restricted_to_owner none owner o x h m = ground arith
restricted_to_owner (some s) none o x h m = ground arith
restricted_to_owner (some s) (some t) o x h m = elim (Bool-cases (t == s)) [
  | inl e ↦ ground (arith, e, (eq_iff t s).0 e)
  | inr e ↦ ground (arith, e)
]

-- The owner that a listing filters by is one that both the caller and the scope ask for.
restricted_owner :
    (scope : Option PrincipalScope) (owner o x : Option String)
    → restrict_owner scope owner ≡ some o
    → matches_owner o x ≡ true
    → (matches_owner owner x ≡ true) × (scope_permits scope x ≡ true)
unfolding restrict_owner
restricted_owner none owner o x h m = unfold scope_permits in ground arith
restricted_owner (some scope) owner o x h m = restricted_to_owner scope.owner_id owner o x h m

module _ {A : Type 0} ⦃it : Item A⦄ where
  -- A list in the order of ids whose items satisfy `P`.
  abbrev pub Listing : (A → Type 0) → List A → Type 0
  Listing P l = All P l × IsSorted l

  pub keep-Listing :
      (P : A → Type 0) (p : A → Bool) (l : List A)
      → Listing P l
      → Listing (λ a. P a × (p a ≡ true)) (keep p l)
  keep-Listing P p l h = (All-keep_both P p l h.0, keep-IsSorted p l h.1)

  pub all-Listing :
      (P : A → Type 0) (l : List A) → Listing P l → Listing (λ a. P a × (true ≡ true)) l
  all-Listing P l h = (All-map P _ l (λ a p. (p, refl)) h.0, h.1)

  after_cursor-Listing :
      (P : A → Type 0) (o : Option String) (l : List A)
      → Listing P l
      → Listing (λ a. P a × (matches_cursor o (it.item_id a) ≡ true)) (after_cursor o l)
  unfolding after_cursor matches_cursor
  after_cursor-Listing P none l h = all-Listing P l h
  after_cursor-Listing P (some c) l h = keep-Listing P _ l h

  owned_by-Listing :
      (P : A → Type 0) (o : Option String) (l : List A)
      → Listing P l
      → Listing (λ a. P a × (matches_owner o (it.owner_of a) ≡ true)) (owned_by o l)
  unfolding owned_by matches_owner
  owned_by-Listing P none l h = all-Listing P l h
  owned_by-Listing P (some c) l h = keep-Listing P _ l h

  up_to-Listing : (P : A → Type 0) (o : Option ℕ) (l : List A) → Listing P l → Listing P (up_to o l)
  unfolding up_to
  up_to-Listing P none l h = h
  up_to-Listing P (some n) l h = (All-take P n l h.0, take-IsSorted n l h.1)

  -- The filters that all listings share.
  abbrev pub Passes :
      Dict String A → Option String → Option String → Option PrincipalScope → A → Type 0
  Passes d cursor owner scope a =
      Stored d a
      × (matches_cursor cursor (it.item_id a) ≡ true)
      × (matches_owner owner (it.owner_of a) ≡ true)
      × (scope_permits scope (it.owner_of a) ≡ true)

  ordered-Listing :
      (d : Dict String A) (cursor owner o : Option String) (scope : Option PrincipalScope)
      → IsKeyed d
      → restrict_owner scope owner ≡ some o
      → Listing (Passes d cursor owner scope) (owned_by o (after_cursor cursor (sorted (values d))))
  ordered-Listing d cursor owner o scope h r =
      let by_owner = owned_by-Listing _ o (after_cursor cursor (sorted (values d))) (
        after_cursor-Listing (Stored d) cursor (sorted (values d))
          (All-sorted (Stored d) (values d) (values-Stored d h), sorted-IsSorted (values d))) in
      (
        All-map _ _ _
            (λ a p.
              let m = restricted_owner scope owner o (it.owner_of a) r p.1 in
              (p.0.0, p.0.1, m.0, m.1))
            by_owner.0,
        by_owner.1,
      )

  -- Where `select` keeps the order and adds the facts `Q`, the listing has them all.
  module _ (Q : A → Type 0) (select : List A → List A)
      (selects : (P : A → Type 0) (l : List A)
        → Listing P l
        → Listing (λ a. P a × Q a) (select l)) where
    restricted-Listing :
        (d : Dict String A) (cursor : Option String) (limit : Option ℕ) (owner : Option String)
        (scope : Option PrincipalScope) (o : Option (Option String))
        → IsKeyed d
        → restrict_owner scope owner ≡ o
        → Listing
            (λ a. Passes d cursor owner scope a × Q a)
            (list_restricted d cursor limit select o)
    unfolding list_restricted
    restricted-Listing d cursor limit owner scope none h r = (tt, tt)
    restricted-Listing d cursor limit owner scope (some o) h r =
        up_to-Listing _ limit _ (selects _ _ (ordered-Listing d cursor owner o scope h r))

    pub list_items-Listing :
        (d : Dict String A) (cursor : Option String) (limit : Option ℕ) (owner : Option String)
        (scope : Option PrincipalScope)
        → IsKeyed d
        → Listing
            (λ a. Passes d cursor owner scope a × Q a)
            (list_items d cursor limit owner select scope)
    unfolding list_items
    list_items-Listing d cursor limit owner scope h =
        restricted-Listing d cursor limit owner scope (restrict_owner scope owner) h refl

  length-up_to : (n : ℕ) (l : List A) → length (up_to (some n) l) ≤ n
  unfolding up_to
  length-up_to n l = length-take n l

  restricted-length :
      (d : Dict String A) (cursor : Option String) (n : ℕ) (select : List A → List A)
      (o : Option (Option String))
      → length (list_restricted d cursor (some n) select o) ≤ n
  unfolding list_restricted
  restricted-length d cursor n select none = omega arith
  restricted-length d cursor n select (some o) = length-up_to n _

  pub length-list_items :
      (d : Dict String A) (cursor : Option String) (n : ℕ) (owner : Option String)
      (select : List A → List A) (scope : Option PrincipalScope)
      → length (list_items d cursor (some n) owner select scope) ≤ n
  unfolding list_items
  length-list_items d cursor n owner select scope =
      restricted-length d cursor n select (restrict_owner scope owner)
