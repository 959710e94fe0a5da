-- ===== src/Registry/Listing.antt =====
-- What a listing holds: the items of the register that the scope permits.
use evernight_ai.Prelude.{
  ℕ, zero, suc, String, ◌≡◌, refl, inl, inr, Bool, false, Option, none, some, List, [], ◌∷◌, arith,
  eq_iff, if◌then◌else◌, text_ltb, ◌==◌, nat_eq, string_eq, option_eq, pair_eq, Bool-cases, when,
  when, text_ltb_asym, text_le_trans, keep, take, All, All-keep, All-take, ok, >>=-eq-ok,
}
use evernight_ai.Dict.{Dict, lookup, insert, erase, values}
use evernight_ai.Auth.{PrincipalScope}
use evernight_ai.Registry.{Item, register, unregister, unregister_all, insert_sorted, sorted}

module _ {A : Type 0} ⦃it : Item A⦄ where
  -- No item of the list has the id.
  abbrev pub Fresh : String → List A → Type 0
  Fresh k = All (λ a. (it.item_id a == k) ≡ false)

  -- The ids of the list are distinct.
  abbrev pub Distinct : List A → Type 0
  Distinct [] = Unit {0}
  Distinct (a ∷ l) = Fresh (it.item_id a) l × Distinct l

  -- Each entry is stored under the id of its item, and no id is stored twice.
  abbrev pub IsKeyed : Dict String A → Type 0
  IsKeyed [] = Unit {0}
  IsKeyed ((k, a) ∷ d) = (k ≡ it.item_id a) × Fresh k (values d) × IsKeyed d

  Fresh-insert :
      (j k : String) (a : A) (d : Dict String A)
      → (it.item_id a == j) ≡ false
      → Fresh j (values d)
      → Fresh j (values (insert k a d))
  unfolding insert
  Fresh-insert j k a [] h f = (h, tt)
  Fresh-insert j k a ((i, b) ∷ d) h f = ground (arith, Fresh-insert j k a d h f.1)

  pub insert-IsKeyed : (a : A) (d : Dict String A) → IsKeyed d → IsKeyed (insert (it.item_id a) a d)
  unfolding insert
  insert-IsKeyed a [] h = (refl, tt, tt)
  insert-IsKeyed a ((i, b) ∷ d) h = ground (
    arith,
    insert-IsKeyed a d h.2,
    Fresh-insert i (it.item_id a) a d,
    eq_iff i (it.item_id a),
    eq_iff (it.item_id a) i,
  )

  Fresh-erase :
      (j k : String) (d : Dict String A) → Fresh j (values d) → Fresh j (values (erase k d))
  unfolding erase
  Fresh-erase j k [] f = tt
  Fresh-erase j k ((i, b) ∷ d) f = ground (arith, Fresh-erase j k d f.1)

  pub erase-IsKeyed : (k : String) (d : Dict String A) → IsKeyed d → IsKeyed (erase k d)
  unfolding erase
  erase-IsKeyed k [] h = tt
  erase-IsKeyed k ((i, b) ∷ d) h = ground (arith, erase-IsKeyed k d h.2, Fresh-erase i k d h.1)

  pub Distinct-values : (d : Dict String A) → IsKeyed d → Distinct (values d)
  Distinct-values [] h = tt
  Distinct-values ((k, a) ∷ d) h = ground (arith, Distinct-values d h.2)

  -- The values of a keyed dictionary are found under their ids.
  abbrev pub Stored : Dict String A → A → Type 0
  Stored d a = lookup (it.item_id a) d ≡ some a

  Stored-cons :
      (k : String) (b : A) (d : Dict String A) (l : List A)
      → Fresh k l
      → All (Stored d) l
      → All (Stored ((k, b) ∷ d)) l
  unfolding lookup
  Stored-cons k b d [] f h = tt
  Stored-cons k b d (a ∷ l) f h =
      ground (arith, Stored-cons k b d l f.1 h.1, eq_iff (it.item_id a) k, eq_iff k (it.item_id a))

  pub values-Stored : (d : Dict String A) → IsKeyed d → All (Stored d) (values d)
  unfolding lookup
  values-Stored [] h = tt
  values-Stored ((k, a) ∷ d) h =
      ground
        (arith, Stored-cons k a d (values d) h.1 (values-Stored d h.2), eq_iff k (it.item_id a))

  All-insert_sorted {κ} :
      (P : A → Type κ) (a : A) (l : List A) → P a → All P l → All P (insert_sorted a l)
  unfolding insert_sorted
  All-insert_sorted P a [] p h = (p, tt)
  All-insert_sorted P a (b ∷ l) p h = ground (arith, All-insert_sorted P a l p h.1)

  pub All-sorted {κ} : (P : A → Type κ) (l : List A) → All P l → All P (sorted l)
  unfolding sorted
  All-sorted P [] h = tt
  All-sorted P (a ∷ l) h = All-insert_sorted P a (sorted l) h.0 (All-sorted P l h.1)

  Distinct-insert_sorted :
      (a : A) (l : List A) → Fresh (it.item_id a) l → Distinct l → Distinct (insert_sorted a l)
  unfolding insert_sorted
  Distinct-insert_sorted a [] f h = (tt, tt)
  Distinct-insert_sorted a (b ∷ l) f h = ground (
    arith,
    Distinct-insert_sorted a l f.1 h.1,
    All-insert_sorted (λ c. (it.item_id c == it.item_id b) ≡ false) a l,
    eq_iff (it.item_id a) (it.item_id b),
    eq_iff (it.item_id b) (it.item_id a),
  )

  pub Distinct-sorted : (l : List A) → Distinct l → Distinct (sorted l)
  unfolding sorted
  Distinct-sorted [] h = tt
  Distinct-sorted (a ∷ l) h =
      Distinct-insert_sorted a (sorted l) (All-sorted _ l h.0) (Distinct-sorted l h.1)

  pub Distinct-keep : (p : A → Bool) (l : List A) → Distinct l → Distinct (keep p l)
  Distinct-keep p [] h = tt
  Distinct-keep p (a ∷ l) h =
      ground
        (arith, Distinct-keep p l h.1, All-keep (λ c. (it.item_id c == it.item_id a) ≡ false) p l)

  -- The item of a list with the id.
  unfoldable pub find_id : String → List A → Option A
  find_id k [] = none
  find_id k (a ∷ l) = if it.item_id a == k then some a else find_id k l

  find_id_of_Fresh : (k : String) (l : List A) → Fresh k l → find_id k l ≡ none
  unfolding find_id
  find_id_of_Fresh k [] f = refl
  find_id_of_Fresh k (a ∷ l) f = ground (arith, find_id_of_Fresh k l f.1)

  pub find_id-values :
      (k : String) (d : Dict String A) → IsKeyed d → find_id k (values d) ≡ lookup k d
  unfolding find_id lookup
  find_id-values k [] h = refl
  find_id-values k ((j, a) ∷ d) h =
      ground (arith, find_id-values k d h.2, eq_iff j k, eq_iff (it.item_id a) k)

  find_id-insert_sorted :
      (k : String) (a : A) (l : List A)
      → Fresh (it.item_id a) l
      → find_id k (insert_sorted a l) ≡ (if it.item_id a == k then some a else find_id k l)
  unfolding find_id insert_sorted
  find_id-insert_sorted k a [] f = refl
  find_id-insert_sorted k a (b ∷ l) f = ground (
    arith,
    find_id-insert_sorted k a l f.1,
    eq_iff (it.item_id a) k,
    eq_iff (it.item_id b) k,
    eq_iff (it.item_id b) (it.item_id a),
  )

  pub find_id-sorted : (k : String) (l : List A) → Distinct l → find_id k (sorted l) ≡ find_id k l
  unfolding find_id sorted
  find_id-sorted k [] h = refl
  find_id-sorted k (a ∷ l) h =
      ground
        (arith, find_id-insert_sorted k a (sorted l) (All-sorted _ l h.0), find_id-sorted k l h.1)

  pub find_id-keep :
      (k : String) (p : A → Bool) (l : List A)
      → Distinct l
      → find_id k (keep p l) ≡ when p (find_id k l)
  unfolding find_id
  find_id-keep k p [] h = refl
  find_id-keep k p (a ∷ l) h = ground (
    arith,
    find_id-keep k p l h.1,
    find_id_of_Fresh k (keep p l),
    find_id_of_Fresh k l,
    All-keep (λ c. (it.item_id c == k) ≡ false) p l,
    eq_iff (it.item_id a) k,
  )

  -- In the order of ids.
  abbrev pub IsSorted : List A → Type 0
  IsSorted [] = Unit {0}
  IsSorted (a ∷ l) = All (λ b. text_ltb (it.item_id b) (it.item_id a) ≡ false) l × IsSorted l

  All-le :
      (a b : A) (l : List A)
      → text_ltb (it.item_id b) (it.item_id a) ≡ false
      → All (λ c. text_ltb (it.item_id c) (it.item_id b) ≡ false) l
      → All (λ c. text_ltb (it.item_id c) (it.item_id a) ≡ false) l
  All-le a b [] h k = tt
  All-le a b (c ∷ l) h k =
      (text_le_trans (it.item_id a) (it.item_id b) (it.item_id c) h k.0, All-le a b l h k.1)

  insert_sorted-IsSorted : (a : A) (l : List A) → IsSorted l → IsSorted (insert_sorted a l)
  unfolding insert_sorted
  insert_sorted-IsSorted a [] h = (tt, tt)
  insert_sorted-IsSorted a (b ∷ l) h = elim (Bool-cases (text_ltb (it.item_id b) (it.item_id a))) [
    | inl less ↦
        rw (less, insert_sorted)
          (
            All-insert_sorted (λ c. text_ltb (it.item_id c) (it.item_id b) ≡ false) a l
                (text_ltb_asym (it.item_id b) (it.item_id a) less) h.0,
            insert_sorted-IsSorted a l h.1,
          )
    | inr more ↦ rw (more, insert_sorted) ((more, All-le a b l more h.0), h)
  ]

  pub sorted-IsSorted : (l : List A) → IsSorted (sorted l)
  unfolding sorted
  sorted-IsSorted [] = tt
  sorted-IsSorted (a ∷ l) = insert_sorted-IsSorted a (sorted l) (sorted-IsSorted l)

  pub keep-IsSorted : (p : A → Bool) (l : List A) → IsSorted l → IsSorted (keep p l)
  keep-IsSorted p [] h = tt
  keep-IsSorted p (a ∷ l) h = ground (
    arith,
    keep-IsSorted p l h.1,
    All-keep (λ b. text_ltb (it.item_id b) (it.item_id a) ≡ false) p l,
  )

  pub take-IsSorted : (n : ℕ) (l : List A) → IsSorted l → IsSorted (take n l)
  take-IsSorted zero l h = tt
  take-IsSorted (suc n) [] h = tt
  take-IsSorted (suc n) (a ∷ l) h = (All-take _ n l h.0, take-IsSorted n l h.1)

  -- An entry is stored under its own id.
  pub IsKeyed-lookup :
      (k : String) (a : A) (d : Dict String A) → IsKeyed d → lookup k d ≡ some a → it.item_id a ≡ k
  unfolding lookup
  IsKeyed-lookup k a [] h e = cc
  IsKeyed-lookup k a ((j, b) ∷ d) h e = ground (arith, IsKeyed-lookup k a d h.2, eq_iff j k)

  pub register-IsKeyed :
      (d d' : Dict String A) (a : A) (scope : Option PrincipalScope)
      → IsKeyed d
      → register d a scope ≡ ok d'
      → IsKeyed d'
  unfolding register
  register-IsKeyed d d' a scope h e = ground (arith, insert-IsKeyed a d h)

  pub unregister-IsKeyed :
      (d d' : Dict String A) (k : String) (scope : Option PrincipalScope)
      → IsKeyed d
      → unregister d k scope ≡ ok d'
      → IsKeyed d'
  unfolding unregister
  unregister-IsKeyed d d' k scope h e = ground (arith, erase-IsKeyed k d h)

  pub unregister_all-IsKeyed :
      (d : Dict String A) (l : List A) (scope : Option PrincipalScope) (d' : Dict String A)
      → IsKeyed d
      → unregister_all d l scope ≡ ok d'
      → IsKeyed d'
  unfolding unregister_all
  unregister_all-IsKeyed d [] scope d' h e = ground arith
  unregister_all-IsKeyed d (a ∷ l) scope d' h e =
      let (next, first, others) =
        >>=-eq-ok (unregister d (it.item_id a) scope) (λ u. unregister_all u l scope) e in
      unregister_all-IsKeyed next l scope d'
        (unregister-IsKeyed d next (it.item_id a) scope h first) others
