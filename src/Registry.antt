-- ===== src/Registry.antt =====
-- The in-memory registers of core/domain/{session,context,memory}.py, whose text differs in names
-- only: a dictionary of items, each with an id and an owner, read and written under a scope.
pub mod Laws
pub mod Listing
pub mod Clearing
pub mod Sound
use evernight_ai.Prelude.{
  String, Bool, true, false, not, ◌&&◌, Option, none, some, List, [], ◌∷◌, ℕ, keep, take, Error,
  Result, ok, err, ◌>>=◌, ◌==◌, string_eq, option_eq, text_ltb, is_some, if◌then◌else◌,
}
use evernight_ai.Dict.{Dict, lookup, insert, erase, values}
use evernight_ai.Auth.{PrincipalScope, scope_permits}

-- What a register asks of its items, and the error that it raises.
pub record Item (A : Type 0) : Type 0 where
  pub item_id : A → String
  pub owner_of : A → Option String
  pub missing : Error

-- The owner to filter by, or `none` where the listing is empty at once.
restrict_to : Option String → Option String → Option (Option String)
restrict_to none owner = some owner
restrict_to (some s) owner = if is_some owner && not (owner == some s) then none else some (some s)

restrict_owner : Option PrincipalScope → Option String → Option (Option String)
unfolding restrict_to
restrict_owner none owner = some owner
restrict_owner (some scope) owner = restrict_to scope.owner_id owner

module _ {A : Type 0} ⦃it : Item A⦄ where
  -- `register`: only the new item's owner is tested.
  unfoldable pub register : Dict String A → A → Option PrincipalScope → Result (Dict String A)
  unfolding scope_permits insert
  register d a scope =
      if scope_permits scope (it.owner_of a) then ok (insert (it.item_id a) a d) else err it.missing

  in_scope : Option PrincipalScope → Option A → Bool
  in_scope scope none = false
  in_scope scope (some a) = scope_permits scope (it.owner_of a)

  -- `has`
  unfoldable pub has : Dict String A → String → Option PrincipalScope → Bool
  unfolding in_scope scope_permits lookup
  has d k scope = in_scope scope (lookup k d)

  found : Bool → Option A → Result A
  found true (some a) = ok a
  found _ _ = err it.missing

  -- `get`; where `has` answers true the entry is there.
  unfoldable pub get : Dict String A → String → Option PrincipalScope → Result A
  unfolding has found
  get d k scope = found (has d k scope) (lookup k d)

  -- `unregister`
  unfoldable pub unregister :
      Dict String A → String → Option PrincipalScope → Result (Dict String A)
  unfolding has erase
  unregister d k scope = if has d k scope then ok (erase k d) else err it.missing

  -- The place of an item among items sorted by id; equal ids keep their order.
  insert_sorted : A → List A → List A
  insert_sorted a [] = a ∷ []
  insert_sorted a (b ∷ bs) =
      let rest = insert_sorted a bs in
      if text_ltb (it.item_id b) (it.item_id a) then b ∷ rest else a ∷ b ∷ bs

  -- `sorted(items, key=lambda item: item.id)`
  unfoldable pub sorted : List A → List A
  unfolding insert_sorted
  sorted [] = []
  sorted (a ∷ as') = insert_sorted a (sorted as')

  -- `if cursor is not None: items = [item for item in items if item.id > cursor]`
  after_cursor : Option String → List A → List A
  after_cursor none l = l
  after_cursor (some c) l = keep (λ a. text_ltb c (it.item_id a)) l

  -- `if owner_id is not None: items = [item for item in items if item.owner_id == owner_id]`
  owned_by : Option String → List A → List A
  owned_by none l = l
  owned_by (some o) l = keep (λ a. it.owner_of a == some o) l

  up_to : Option ℕ → List A → List A
  up_to none l = l
  up_to (some n) l = take n l

  list_restricted :
      Dict String A → Option String → Option ℕ → (List A → List A) → Option (Option String) → List A
  unfolding sorted after_cursor owned_by up_to
  list_restricted d cursor limit select none = []
  list_restricted d cursor limit select (some owner) =
      up_to limit (select (owned_by owner (after_cursor cursor (sorted (values d)))))

  -- `list_sessions`, `list_contexts`, `list_memories`; `select` is the part that they do not share.
  unfoldable pub list_items :
      Dict String A
      → Option String
      → Option ℕ
      → Option String
      → (List A → List A)
      → Option PrincipalScope
      → List A
  unfolding list_restricted restrict_owner
  list_items d cursor limit owner select scope =
      list_restricted d cursor limit select (restrict_owner scope owner)

  -- `unregister` of each item in turn.
  unfoldable pub unregister_all :
      Dict String A → List A → Option PrincipalScope → Result (Dict String A)
  unfolding unregister
  unregister_all d [] scope = ok d
  unregister_all d (a ∷ as') scope = do
    d' ← unregister d (it.item_id a) scope
    unregister_all d' as' scope

  -- `clear` of the managers.
  unfoldable pub clear : Dict String A → Option PrincipalScope → Result (Dict String A)
  unfolding list_items unregister_all
  clear d scope = unregister_all d (list_items d none none none (λ l. l) scope) scope

  -- The register after a call that returns an item, or that raises and leaves it as it was.
  unfoldable pub kept : Dict String A → Result (Dict String A × A) → Dict String A
  kept d (ok (d', a)) = d'
  kept d (err e) = d

  unfoldable pub kept_state : Dict String A → Result (Dict String A) → Dict String A
  kept_state d (ok d') = d'
  kept_state d (err e) = d
