-- ===== src/ImageTask/Queue.antt =====
-- Which task a worker gets.
use evernight_ai.Prelude.{
  ℕ, String, ◌≡◌, refl, sym, ◌⊎◌, inl, inr, Bool, true, false, none, some, List, [], ◌∷◌, arith,
  ◌==◌, nat_eq, string_eq, option_eq, pair_eq, Bool-cases, text_ltb_asym, text_le_trans, keep, All,
  All-keep_both,
}
use mathlib.Core.Path.{subst}
use evernight_ai.Dict.{Dict, lookup, insert, values}
use evernight_ai.ImageTask.{
  ImageTask, status_eq, queued, pair_ltb, task_item, insert_by, sort_by, earlier, claimed, claim,
}
use evernight_ai.Registry.Listing.{IsKeyed, Stored, values-Stored}

pair_ltb_asym : (m n : ℕ) (i j : String) → pair_ltb m i n j ≡ true → pair_ltb n j m i ≡ false
unfolding pair_ltb
pair_ltb_asym m n i j h = ground (arith, h, text_ltb_asym i j)

pair_le_trans :
    (m n o : ℕ) (i j k : String)
    → pair_ltb n j m i ≡ false
    → pair_ltb o k n j ≡ false
    → pair_ltb o k m i ≡ false
unfolding pair_ltb
pair_le_trans m n o i j k h g = ground (arith, h, g, text_le_trans i j k)

module _ {R : Type 0} where
  All-insert_by {κ} :
      (P : ImageTask R → Type κ) (before : ImageTask R → ImageTask R → Bool) (t : ImageTask R)
      (l : List (ImageTask R))
      → P t
      → All P l
      → All P (insert_by before t l)
  unfolding insert_by
  All-insert_by P before t [] p h = (p, tt)
  All-insert_by P before t (u ∷ us) p h = ground (arith, p, h, All-insert_by P before t us p h.1)

  pub All-sort_by {κ} :
      (P : ImageTask R → Type κ) (before : ImageTask R → ImageTask R → Bool)
      (l : List (ImageTask R))
      → All P l
      → All P (sort_by before l)
  unfolding sort_by
  All-sort_by P before [] h = tt
  All-sort_by P before (t ∷ ts) h = All-insert_by P before t _ h.0 (All-sort_by P before ts h.1)

  -- Nothing of the list is before the task.
  abbrev pub Least : ImageTask R → List (ImageTask R) → Type 0
  Least t = All (λ u. earlier u t ≡ false)

  abbrev pub HeadLeast : List (ImageTask R) → Type 0
  HeadLeast [] = Unit {0}
  HeadLeast (t ∷ ts) = Least t (t ∷ ts)

  earlier_irreflexive : (t : ImageTask R) → earlier t t ≡ false
  unfolding earlier
  earlier_irreflexive t =
      elim (Bool-cases (pair_ltb t.created_at t.task_id t.created_at t.task_id)) [
        | inl h ↦ pair_ltb_asym t.created_at t.created_at t.task_id t.task_id h
        | inr h ↦ h
      ]

  Least-later :
      (t u : ImageTask R) (l : List (ImageTask R)) → earlier u t ≡ false → Least u l → Least t l
  unfolding earlier
  Least-later t u [] h k = tt
  Least-later t u (v ∷ l) h k = (
    pair_le_trans t.created_at u.created_at v.created_at t.task_id u.task_id v.task_id h k.0,
    Least-later t u l h k.1,
  )

  insert_by-HeadLeast :
      (t : ImageTask R) (l : List (ImageTask R)) → HeadLeast l → HeadLeast (insert_by earlier t l)
  unfolding insert_by
  insert_by-HeadLeast t [] h = (earlier_irreflexive t, tt)
  insert_by-HeadLeast t (u ∷ us) h = elim (Bool-cases (earlier u t)) [
    | inl b ↦
        let after : earlier t u ≡ false =
          unfold earlier in pair_ltb_asym u.created_at t.created_at u.task_id t.task_id b in
        rw b (h.0, All-insert_by (λ v. earlier v u ≡ false) earlier t us after h.1)
    | inr b ↦ rw b (earlier_irreflexive t, (b, Least-later t u us b h.1))
  ]

  sort_by-HeadLeast : (l : List (ImageTask R)) → HeadLeast (sort_by earlier l)
  unfolding sort_by
  sort_by-HeadLeast [] = tt
  sort_by-HeadLeast (t ∷ ts) = insert_by-HeadLeast t _ (sort_by-HeadLeast ts)

  insert_by-All {κ} :
      (P : ImageTask R → Type κ) (before : ImageTask R → ImageTask R → Bool) (t : ImageTask R)
      (l : List (ImageTask R))
      → All P (insert_by before t l)
      → P t × All P l
  unfolding insert_by
  insert_by-All P before t [] h = h
  insert_by-All P before t (u ∷ us) h = elim (Bool-cases (before u t)) [
    | inl b ↦
        let (first, rest) = rw b at h in
        let (p, q) = insert_by-All P before t us rest in (p, (first, q))
    | inr b ↦ rw b at h
  ]

  sort_by-All {κ} :
      (P : ImageTask R → Type κ) (before : ImageTask R → ImageTask R → Bool)
      (l : List (ImageTask R))
      → All P (sort_by before l)
      → All P l
  unfolding sort_by
  sort_by-All P before [] h = tt
  sort_by-All P before (t ∷ ts) h =
      let (p, q) = insert_by-All P before t _ h in (p, sort_by-All P before ts q)

  -- The tasks that wait.
  abbrev pub waiting : Dict String (ImageTask R) → List (ImageTask R)
  waiting d = keep (λ t. t.status == queued) (values d)

  no_items : (l : List (ImageTask R)) → All (λ u. ⊥) l → l ≡ []
  no_items [] h = refl
  no_items (t ∷ ts) h = absurd h.0

  -- What `claim` came to, if the tasks that wait are sorted to `l`.
  claim_from :
      (d : Dict String (ImageTask R)) (worker : String) (lease now : ℕ) (l : List (ImageTask R))
      → sort_by earlier (waiting d) ≡ l
      → All (λ t. (lookup t.task_id d ≡ some t) × ((t.status == queued) ≡ true)) l
      → HeadLeast l
      → (waiting d ≡ [] × (claim d worker lease now ≡ (d, none)))
        ⊎ ((t : ImageTask R) × (lookup t.task_id d ≡ some t)
            × (t.status ≡ queued)
            × Least t (waiting d)
            × (claim d worker lease now ≡ (
              insert t.task_id (claimed worker lease now t) d,
              some (claimed worker lease now t),
            )))
  unfolding claim
  claim_from d worker lease now [] e a h = inl (
    no_items (waiting d)
        (sort_by-All (λ u. ⊥) earlier (waiting d) (subst (All (λ u. ⊥)) (sym e) tt)),
    rw (claim, e) refl,
  )
  claim_from d worker lease now (t ∷ ts) e a h = inr (
    t,
    a.0.0,
    (status_eq.beq_iff t.status queued).0 a.0.1,
    sort_by-All (λ u. earlier u t ≡ false) earlier (waiting d) (subst (Least t) (sym e) h),
    rw (claim, e) refl,
  )

  -- In a store that keeps each task under its own id, a worker that claims gets the oldest of the
  -- tasks that wait, by creation and then by id, and the task is stored as running under the
  -- worker's lease; it gets none only where no task waits, and then the store stays as it is.
  pub claim_exact :
      (d : Dict String (ImageTask R)) (worker : String) (lease now : ℕ)
      → IsKeyed d
      → (waiting d ≡ [] × (claim d worker lease now ≡ (d, none)))
        ⊎ ((t : ImageTask R) × (lookup t.task_id d ≡ some t)
            × (t.status ≡ queued)
            × Least t (waiting d)
            × (claim d worker lease now ≡ (
              insert t.task_id (claimed worker lease now t) d,
              some (claimed worker lease now t),
            )))
  claim_exact d worker lease now k =
      claim_from d worker lease now (sort_by earlier (waiting d)) refl
        (All-sort_by _ earlier (waiting d)
          (All-keep_both (Stored d) (λ t. t.status == queued) (values d) (values-Stored d k)))
        (sort_by-HeadLeast (waiting d))
