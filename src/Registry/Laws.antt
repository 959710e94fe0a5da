-- ===== src/Registry/Laws.antt =====
-- What the operations of a register do to what each scope can see.
use evernight_ai.Prelude.{
  String, ◌≡◌, refl, ◌∙◌, Bool, true, false, not, Option, some, arith, eq_iff, nat_eq, string_eq,
  option_eq, pair_eq, is_some, when, Result, ok, err,
}
use evernight_ai.Dict.{Dict, lookup}
use evernight_ai.Dict.Laws.{lookup-insert, lookup-erase}
use evernight_ai.Auth.{PrincipalScope, scope_permits}
use evernight_ai.Registry.{Item, register, has, get, unregister, kept, kept_state}

module _ {A : Type 0} ⦃it : Item A⦄ where
  -- `a` is hidden from the scope.
  abbrev pub hidden : Option PrincipalScope → A → Bool
  hidden scope a = not (scope_permits scope (it.owner_of a))

  -- Two states that hold the same items outside a scope.
  abbrev pub SameOutside : Option PrincipalScope → Dict String A → Dict String A → Type 0
  SameOutside scope d d' =
      (k : String) → when (hidden scope) (lookup k d') ≡ when (hidden scope) (lookup k d)

  pub SameOutside-trans :
      (scope : Option PrincipalScope) (d d' d'' : Dict String A)
      → SameOutside scope d d'
      → SameOutside scope d' d''
      → SameOutside scope d d''
  SameOutside-trans scope d d' d'' h h' k = h' k ∙ h k

  pub has_iff :
      (d : Dict String A) (k : String) (scope : Option PrincipalScope)
      → has d k scope ≡ true
      → (a : A) × (lookup k d ≡ some a) × (scope_permits scope (it.owner_of a) ≡ true)
  unfolding has
  has_iff d k scope h = ground arith

  pub get_found :
      (d : Dict String A) (k : String) (scope : Option PrincipalScope) (a : A)
      → get d k scope ≡ ok a
      → (lookup k d ≡ some a) × (scope_permits scope (it.owner_of a) ≡ true)
  unfolding get
  get_found d k scope a h = ground arith

  pub get_of_lookup :
      (d : Dict String A) (k : String) (scope : Option PrincipalScope) (a : A)
      → lookup k d ≡ some a
      → scope_permits scope (it.owner_of a) ≡ true
      → get d k scope ≡ ok a
  unfolding get
  get_of_lookup d k scope a h p = ground arith

  pub register-get :
      (d d' : Dict String A) (a : A) (scope : Option PrincipalScope)
      → register d a scope ≡ ok d'
      → get d' (it.item_id a) scope ≡ ok a
  unfolding register
  register-get d d' a scope h =
      get_of_lookup d' (it.item_id a) scope a
        (ground (
          arith,
          lookup-insert (it.item_id a) (it.item_id a) a d,
          eq_iff (it.item_id a) (it.item_id a),
        ))
        (ground arith)

  pub unregister-SameOutside :
      (d d' : Dict String A) (k : String) (scope : Option PrincipalScope)
      → unregister d k scope ≡ ok d'
      → SameOutside scope d d'
  unfolding unregister
  unregister-SameOutside d d' k scope h j =
      ground (arith, has_iff d k scope, lookup-erase k j d, eq_iff k j)

  -- The register holds an item of this id that the scope does not permit.
  pub takes_over : Dict String A → Option PrincipalScope → String → Bool
  takes_over d scope k = is_some (when (hidden scope) (lookup k d))

  -- A write leaves the items outside the scope alone, unless it takes over the id of one.
  pub register-SameOutside :
      (d d' : Dict String A) (a : A) (scope : Option PrincipalScope)
      → takes_over d scope (it.item_id a) ≡ false
      → register d a scope ≡ ok d'
      → SameOutside scope d d'
  unfolding register takes_over
  register-SameOutside d d' a scope seen h j =
      ground (arith, lookup-insert (it.item_id a) j a d, eq_iff (it.item_id a) j)

  pub has-takes_over :
      (d : Dict String A) (k : String) (scope : Option PrincipalScope)
      → has d k scope ≡ true
      → takes_over d scope k ≡ false
  unfolding takes_over
  has-takes_over d k scope h = ground (arith, has_iff d k scope)

  -- An item that the scope can see is not taken over when it is written back.
  pub get-takes_over :
      (d : Dict String A) (k : String) (a : A) (scope : Option PrincipalScope)
      → it.item_id a ≡ k
      → get d k scope ≡ ok a
      → takes_over d scope (it.item_id a) ≡ false
  unfolding takes_over
  get-takes_over d k a scope same h = rw same (ground (arith, get_found d k scope a h))

  pub kept_induction :
      (P : Dict String A → Type 0) (d : Dict String A) (r : Result (Dict String A × A))
      → P d
      → ((d' : Dict String A) (t : A) → r ≡ ok (d', t) → P d')
      → P (kept d r)
  unfolding kept
  kept_induction P d (ok (d', t)) h next = next d' t refl
  kept_induction P d (err e) h next = h

  pub kept_state_induction :
      (P : Dict String A → Type 0) (d : Dict String A) (r : Result (Dict String A))
      → P d
      → ((d' : Dict String A) → r ≡ ok d' → P d')
      → P (kept_state d r)
  unfolding kept_state
  kept_state_induction P d (ok d') h next = next d' refl
  kept_state_induction P d (err e) h next = h
