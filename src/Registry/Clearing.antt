-- ===== src/Registry/Clearing.antt =====
-- The listing and `clear`, exactly: which items they return, and which they remove.
use evernight_ai.Prelude.{
  All-map, String, ◌≡◌, refl, sym, ◌∙◌, inl, inr, Bool, true, false, not, ◌&&◌, Option, none, some,
  List, [], ◌∷◌, arith, eq_iff, if◌then◌else◌, text_ltb, ◌==◌, nat_eq, string_eq, option_eq,
  pair_eq, Bool-cases, Option-cases, is_some, when, All, All-keep, keep_sound, ok,
}
use evernight_ai.Dict.{Dict, lookup, erase, values}
use evernight_ai.Dict.Laws.{lookup-erase}
use evernight_ai.Auth.{PrincipalScope, scope_permits}
use evernight_ai.Registry.{
  Item, unregister, sorted, owned_by, restrict_owner, after_cursor, up_to, restrict_to,
  list_restricted, list_items, unregister_all, clear,
}
use evernight_ai.Registry.Laws.{SameOutside}
use evernight_ai.Registry.Listing.{
  unregister_all-IsKeyed, Fresh, Distinct, IsKeyed, Stored, Distinct-values, values-Stored,
  All-sorted, Distinct-sorted, Distinct-keep, find_id, find_id-values, find_id-sorted, find_id-keep,
}

-- The filters of a listing, as one test.
unfoldable pub matches_cursor : Option String → String → Bool
matches_cursor none k = true
matches_cursor (some c) k = text_ltb c k

unfoldable pub matches_owner : Option String → Option String → Bool
matches_owner none owner = true
matches_owner (some o) owner = owner == some o

module _ {A : Type 0} ⦃it : Item A⦄ where
  pub listed : Option String → Option String → Option PrincipalScope → A → Bool
  unfolding matches_cursor matches_owner
  listed cursor owner scope a =
      matches_cursor cursor (it.item_id a)
      && (matches_owner owner (it.owner_of a) && scope_permits scope (it.owner_of a))

  find_id-after_cursor :
      (k : String) (cursor : Option String) (l : List A)
      → Distinct l
      → find_id k (after_cursor cursor l)
        ≡ when (λ a. matches_cursor cursor (it.item_id a)) (find_id k l)
  unfolding after_cursor matches_cursor
  find_id-after_cursor k none l h = ground arith
  find_id-after_cursor k (some c) l h = find_id-keep k _ l h

  find_id-owned_by :
      (k : String) (owner : Option String) (l : List A)
      → Distinct l
      → find_id k (owned_by owner l) ≡ when (λ a. matches_owner owner (it.owner_of a)) (find_id k l)
  unfolding owned_by matches_owner
  find_id-owned_by k none l h = ground arith
  find_id-owned_by k (some o) l h = find_id-keep k _ l h

  Distinct-after_cursor :
      (cursor : Option String) (l : List A) → Distinct l → Distinct (after_cursor cursor l)
  unfolding after_cursor
  Distinct-after_cursor none l h = h
  Distinct-after_cursor (some c) l h = Distinct-keep _ l h

  abbrev ordered : Dict String A → Option String → List A
  ordered d cursor = after_cursor cursor (sorted (values d))

  find_id-ordered :
      (k : String) (d : Dict String A) (cursor owner : Option String)
      → IsKeyed d
      → find_id k (owned_by owner (ordered d cursor))
        ≡ when
            (λ a. matches_owner owner (it.owner_of a))
            (when (λ a. matches_cursor cursor (it.item_id a)) (lookup k d))
  find_id-ordered k d cursor owner h =
      let distinct = Distinct-sorted (values d) (Distinct-values d h) in
      rw (
        find_id-owned_by k owner (ordered d cursor) (Distinct-after_cursor cursor _ distinct),
        find_id-after_cursor k cursor (sorted (values d)) distinct,
        find_id-sorted k (values d) (Distinct-values d h),
        find_id-values k d h,
      )

  when_never : (p : A → Bool) (found : Option A) → ((a : A) → p a ≡ false) → when p found ≡ none
  when_never p none h = refl
  when_never p (some a) h = rw (h a)

  listed_two_owners :
      (cursor : Option String) (o s : String) (a : A)
      → (o == s) ≡ false
      → listed cursor (some o) (some (record { owner_id = some s })) a ≡ false
  unfolding listed matches_cursor matches_owner scope_permits
  listed_two_owners cursor o s a h = elim (Option-cases (it.owner_of a)) [
    | inl e ↦ ground (arith, e)
    | inr (x, e) ↦ ground (arith, e, eq_iff x o, eq_iff x s, eq_iff o s)
  ]

  -- The test that the restricted owner and the scope make together.
  list_to :
      (d : Dict String A) (cursor owner inside : Option String) (k : String)
      → IsKeyed d
      → find_id k (list_restricted d cursor none (λ l. l) (restrict_to inside owner))
        ≡ when (listed cursor owner (some (record { owner_id = inside }))) (lookup k d)
  unfolding list_restricted restrict_to up_to listed matches_cursor matches_owner scope_permits
      find_id
  list_to d cursor owner none k h = ground (arith, find_id-ordered k d cursor owner h)
  list_to d cursor none (some s) k h = ground (arith, find_id-ordered k d cursor (some s) h)
  list_to d cursor (some o) (some s) k h = elim (Bool-cases (o == s)) [
    | inl same ↦
        rw ((eq_iff o s).0 same) (ground (arith, find_id-ordered k d cursor (some s) h, eq_iff s s))
    | inr differ ↦
        rw differ (sym (when_never _ (lookup k d) (λ a. listed_two_owners cursor o s a differ)))
  ]

  -- In a register that keeps each item under its own id, a listing without a limit holds an item
  -- exactly when it is stored and passes the cursor, the owner and the scope.
  pub list_items_exact :
      (d : Dict String A) (cursor owner : Option String) (scope : Option PrincipalScope)
      (k : String)
      → IsKeyed d
      → find_id k (list_items d cursor none owner (λ l. l) scope)
        ≡ when (listed cursor owner scope) (lookup k d)
  unfolding list_items restrict_owner
  list_items_exact d cursor owner (some scope) k h = list_to d cursor owner scope.owner_id k h
  list_items_exact d cursor owner none k h =
      unfold list_restricted up_to listed matches_cursor matches_owner scope_permits in
      ground (arith, find_id-ordered k d cursor owner h)

  abbrev Permitted : Option PrincipalScope → A → Type 0
  Permitted scope a = scope_permits scope (it.owner_of a) ≡ true

  Stored-erase :
      (k : String) (d : Dict String A) (l : List A)
      → Fresh k l
      → All (Stored d) l
      → All (Stored (erase k d)) l
  Stored-erase k d [] f h = tt
  Stored-erase k d (a ∷ l) f h = (
    ground
        (arith, lookup-erase k (it.item_id a) d, eq_iff k (it.item_id a), eq_iff (it.item_id a) k),
    Stored-erase k d l f.1 h.1,
  )

  unregister-Stored :
      (d : Dict String A) (a : A) (scope : Option PrincipalScope)
      → Stored d a
      → Permitted scope a
      → unregister d (it.item_id a) scope ≡ ok (erase (it.item_id a) d)
  unfolding unregister
  unregister-Stored d a scope h p = ground arith

  unregister_all_exact :
      (d : Dict String A) (l : List A) (scope : Option PrincipalScope)
      → Distinct l
      → All (Stored d) l
      → All (Permitted scope) l
      → (d' : Dict String A) × (unregister_all d l scope ≡ ok d')
        × ((k : String) → lookup k d' ≡ (if is_some (find_id k l) then none else lookup k d))
  unfolding unregister_all find_id
  unregister_all_exact d [] scope h s p = (d, refl, λ k. refl)
  unregister_all_exact d (a ∷ l) scope h s p =
      let rest =
        unregister_all_exact (erase (it.item_id a) d) l scope h.1
          (Stored-erase (it.item_id a) d l h.0 s.1) p.1 in
      (
        rest.0,
        rw (unregister-Stored d a scope s.0 p.0) rest.1,
        λ k. ground (arith, rest.2 k, lookup-erase (it.item_id a) k d),
      )

  abbrev Clearable : Dict String A → Option PrincipalScope → List A → Type 0
  Clearable d scope l = Distinct l × All (Stored d) l × All (Permitted scope) l

  All-of : (P : A → Type 0) (l : List A) → ((a : A) → P a) → All P l
  All-of P [] h = tt
  All-of P (a ∷ l) h = (h a, All-of P l h)

  owned-Clearable :
      (d : Dict String A) (inside : Option String) (l : List A)
      → Distinct l
      → All (Stored d) l
      → Clearable d (some (record { owner_id = inside })) (owned_by inside l)
  unfolding owned_by scope_permits
  owned-Clearable d none l h s = (h, s, All-of _ l (λ a. refl))
  owned-Clearable d (some o) l h s = (
    Distinct-keep _ l h,
    All-keep (Stored d) _ l s,
    All-map _ _ _ (λ a e. e) (keep_sound (λ a. it.owner_of a == some o) l),
  )

  cleared_list-Clearable :
      (d : Dict String A) (scope : Option PrincipalScope)
      → IsKeyed d
      → Clearable d scope (list_items d none none none (λ l. l) scope)
  unfolding list_items list_restricted restrict_owner restrict_to after_cursor up_to
  cleared_list-Clearable d none h = (
    Distinct-sorted (values d) (Distinct-values d h),
    All-sorted (Stored d) (values d) (values-Stored d h),
    unfold owned_by scope_permits in All-of _ (sorted (values d)) (λ a. refl),
  )
  cleared_list-Clearable d (some scope) h = by_owner scope.owner_id
    where
      listing : List A
      listing = sorted (values d)

      by_owner :
          (inside : Option String)
          → Clearable d
              (some (record { owner_id = inside }))
              (list_restricted d none none (λ l. l) (restrict_to inside none))
      by_owner none =
          owned-Clearable d none listing (Distinct-sorted (values d) (Distinct-values d h))
            (All-sorted (Stored d) (values d) (values-Stored d h))
      by_owner (some o) =
          owned-Clearable d (some o) listing (Distinct-sorted (values d) (Distinct-values d h))
            (All-sorted (Stored d) (values d) (values-Stored d h))

  -- On a register that keeps each item under its own id, `clear` under a scope does not raise: it
  -- removes what the scope permits, and keeps all the rest.
  pub clear_exact :
      (d : Dict String A) (scope : Option PrincipalScope)
      → IsKeyed d
      → (d' : Dict String A) × (clear d scope ≡ ok d')
        × ((k : String)
            → lookup k d' ≡ when (λ a. not (scope_permits scope (it.owner_of a))) (lookup k d))
  unfolding clear
  clear_exact d scope h =
      let (distinct, stored, permitted) = cleared_list-Clearable d scope h in
      let done =
        unregister_all_exact d (list_items d none none none (λ l. l) scope) scope distinct stored
          permitted in
      (
        done.0,
        done.1,
        λ k.
            done.2 k
            ∙ unfold listed matches_cursor matches_owner in
              ground (arith, list_items_exact d none none scope k h),
      )

  pub clear-IsKeyed :
      (d d' : Dict String A) (scope : Option PrincipalScope)
      → IsKeyed d
      → clear d scope ≡ ok d'
      → IsKeyed d'
  unfolding clear
  clear-IsKeyed d d' scope h e =
      unregister_all-IsKeyed d (list_items d none none none (λ l. l) scope) scope d' h e

  pub clear-SameOutside :
      (d d' : Dict String A) (scope : Option PrincipalScope)
      → IsKeyed d
      → clear d scope ≡ ok d'
      → SameOutside scope d d'
  clear-SameOutside d d' scope h e k =
      let (c, runs, looks) = clear_exact d scope h in ground (arith, e, runs, looks k)
