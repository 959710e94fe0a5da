-- ===== src/Agent/Lifecycle/Drained.antt =====
-- A shutdown waits for the active runs and lets no further run in.
use evernight_ai.Prelude.{
  ◌+◌, ◌-◌, ℕ, zero, suc, ◌≤◌, ◌≡◌, refl, ◌∙◌, ◌⊎◌, inl, inr, true, false, not, ◌&&◌, arith, ◌==◌,
  nat_eq, string_eq, option_eq, pair_eq, Bool-cases, err, Error,
}
use evernight_ai.Agent.Lifecycle.{
  enter_run, exit_run, start_closing, is_drained, loop_test, notify, after_exit, System, new_system,
  Progress, Step, enters, refused, exits, wakes, closes, progresses, Steps, stays, goes,
}

-- The count is the number of runs inside; a `close` is behind its loop, or has been notified, only
-- when no run is inside and none can enter; one sleeps only while a run is inside and none can
-- enter; and once the lifecycle is closing, some `close` sleeps, is notified or is behind its loop.
abbrev pub IsSound : System → Type 0
IsSound s =
    (s.lifecycle.active_count ≡ s.inside)
    × ((s.behind_wait && not (s.lifecycle.closing && (s.inside == 0))) ≡ false)
    × ((not (s.notified == 0) && not (s.lifecycle.closing && (s.inside == 0))) ≡ false)
    × ((not (s.asleep == 0) && not (s.lifecycle.closing && not (s.inside == 0))) ≡ false)
    × ((s.lifecycle.closing && (s.asleep == 0) && (s.notified == 0) && not s.behind_wait) ≡ false)

loop_test-IsSound :
    (s : System)
    → s.lifecycle.active_count ≡ s.inside
    → s.lifecycle.closing ≡ true
    → ((s.behind_wait && not (s.inside == 0)) ≡ false)
    → ((not (s.notified == 0) && not (s.inside == 0)) ≡ false)
    → ((not (s.asleep == 0) && (s.inside == 0)) ≡ false)
    → IsSound (loop_test s)
unfolding loop_test is_drained
loop_test-IsSound s count c b n a = elim (Bool-cases (s.lifecycle.active_count == 0)) [
  | inl e ↦
      rw (loop_test, e)
        (
          count,
          ground (arith, e, count, c),
          ground (arith, e, count, c),
          ground (arith, e, count, c, a),
          ground (arith, c),
        )
  | inr e ↦
      rw (loop_test, e)
        (
          count,
          ground (arith, e, count, c, b),
          ground (arith, e, count, c, n),
          ground (arith, e, count, c),
          ground (arith, c),
        )
]

after_exit-IsSound : (s : System) (n : ℕ) → s.inside ≡ suc n → IsSound s → IsSound (after_exit s n)
unfolding after_exit exit_run notify
after_exit-IsSound s n e h =
    let left : s.lifecycle.active_count - 1 ≡ n = omega (arith, e, h.0) in
    elim (Bool-cases (n == 0)) [
      | inl z ↦
          rw (left, z)
            (
              refl,
              ground (arith, e, h, z),
              ground (arith, e, h, z),
              ground (arith, e, h, z),
              ground (arith, e, h, z),
            )
      | inr z ↦
          rw (left, z)
            (
              refl,
              ground (arith, e, h, z),
              ground (arith, e, h, z),
              ground (arith, e, h, z),
              ground (arith, e, h, z),
            )
    ]

-- A notified `close` finds no run inside.
notified_drained :
    (s : System) (n : ℕ)
    → s.notified ≡ suc n
    → IsSound s
    → (s.lifecycle.closing ≡ true) × (s.inside ≡ 0)
notified_drained s n e h = (ground (arith, e, h), ground (arith, e, h))

Progress-IsSound : (s t : System) → Progress s t → IsSound s → IsSound t
Progress-IsSound s _ (exits {n = n} e) h = after_exit-IsSound s n e h
Progress-IsSound s _ (wakes {n = n} e) h =
    let (closed, empty) = notified_drained s n e h in
    loop_test-IsSound (record s { notified = n }) h.0 closed (ground (arith, empty))
      (ground (arith, empty)) (ground (arith, h, empty))

Step-IsSound : (s t : System) → Step s t → IsSound s → IsSound t
unfolding enter_run start_closing
Step-IsSound s _ (enters {l = l} e) h = elim (Bool-cases s.lifecycle.closing) [
  | inl c ↦ ground (arith, e, c)
  | inr c ↦ ground (arith, e, c, h)
]
Step-IsSound s _ (refused e) h = h
Step-IsSound s _ closes h =
    loop_test-IsSound (record s { lifecycle = start_closing s.lifecycle }) h.0 refl
      (ground (arith, h)) (ground (arith, h)) (ground (arith, h))
Step-IsSound s _ (progresses {t = t} p) h = Progress-IsSound s t p h

Steps-IsSound : (s t : System) → Steps s t → IsSound s → IsSound t
Steps-IsSound s _ stays h = h
Steps-IsSound s u (goes {t = t} step steps) h = Steps-IsSound t u steps (Step-IsSound s t step h)

new_system-IsSound : IsSound new_system
new_system-IsSound = (refl, refl, refl, refl, refl)

-- Whenever some shutdown is behind its wait, no run is active, and a run that tries to enter gets
-- the shutdown error.
pub behind_wait_drained :
    (s : System)
    → Steps new_system s
    → s.behind_wait ≡ true
    → (s.inside ≡ 0)
      × (s.lifecycle.active_count ≡ 0)
      × (enter_run s.lifecycle ≡ err Error.agent_shutdown)
unfolding enter_run
behind_wait_drained s steps h =
    let sound = Steps-IsSound new_system s steps new_system-IsSound in
    let closed : s.lifecycle.closing ≡ true = ground (arith, h, sound) in
    let empty : s.inside ≡ 0 = ground (arith, h, sound) in
    (empty, ground (arith, empty, sound), rw closed refl)

-- However the runs exit and the notified shutdowns have their turns, some shutdown gets behind its
-- wait: it is there, or something can happen and whatever happens leads to it.
pub data MustEnd : System → Type 0 where
  completed : {s : System} → s.behind_wait ≡ true → MustEnd s
  leads : {s u : System} → Progress s u → ((t : System) → Progress s t → MustEnd t) → MustEnd s

-- What is left to happen.
abbrev left : System → ℕ
left s = s.inside + s.asleep + s.notified

after_exit_closing : (s : System) (n : ℕ) → (after_exit s n).lifecycle.closing ≡ s.lifecycle.closing
unfolding after_exit exit_run notify
after_exit_closing s n = elim (Bool-cases (s.lifecycle.active_count - 1 == 0)) [
  | inl z ↦ rw z refl
  | inr z ↦ rw z refl
]

after_exit-left : (s : System) (n : ℕ) → suc (left (after_exit s n)) ≡ suc n + s.asleep + s.notified
unfolding after_exit exit_run notify
after_exit-left s n = elim (Bool-cases (s.lifecycle.active_count - 1 == 0)) [
  | inl z ↦ rw z (omega arith)
  | inr z ↦ rw z (omega arith)
]

-- A notified `close` that has its turn is behind its wait.
wakes_behind :
    (s : System) (n : ℕ)
    → s.notified ≡ suc n
    → IsSound s
    → (loop_test (record s { notified = n })).behind_wait ≡ true
unfolding loop_test is_drained
wakes_behind s n e h =
    let drained : (s.lifecycle.active_count == 0) ≡ true = ground (arith, e, h) in
    rw (loop_test, drained) refl

-- What happens brings a shutdown behind its wait, or leaves less to happen.
Progress-less :
    (s t : System)
    → Progress s t
    → s.lifecycle.closing ≡ true
    → IsSound s
    → (t.behind_wait ≡ true) ⊎ ((suc (left t) ≡ left s) × (t.lifecycle.closing ≡ true) × IsSound t)
Progress-less s _ (exits {n = n} e) c sound = inr (
  omega (arith, e, after_exit-left s n),
  after_exit_closing s n ∙ c,
  after_exit-IsSound s n e sound,
)
Progress-less s _ (wakes {n = n} e) c sound = inl (wakes_behind s n e sound)

predecessor : (n : ℕ) → (n == 0) ≡ false → (m : ℕ) × (n ≡ suc m)
predecessor zero h = ground (arith, h)
predecessor (suc m) h = (m, refl)

completes_within :
    (fuel : ℕ) (s : System) → left s ≤ fuel → s.lifecycle.closing ≡ true → IsSound s → MustEnd s
completes_within zero s h c sound = completed (ground (arith, h, c, sound))
completes_within (suc fuel) s h c sound =
    let next : (t : System) → Progress s t → MustEnd t = λ t p. elim (Progress-less s t p c sound) [
      | inl b ↦ completed b
      | inr (less, closing, still) ↦ completes_within fuel t (omega (arith, h, less)) closing still
    ] in
    elim (Bool-cases s.behind_wait) [
      | inl b ↦ completed b
      | inr b ↦ elim (Bool-cases (s.inside == 0)) [
        | inl z ↦
            let (n, e) = predecessor s.notified (ground (arith, c, b, z, sound)) in
            leads (wakes e) next
        | inr z ↦ let (n, e) = predecessor s.inside z in leads (exits e) next
      ]
    ]

-- From every state that can be reached and in which a shutdown has begun, some shutdown gets behind
-- its wait: while none is, some active run can exit or some shutdown that `notify_all` has woken
-- can have its turn, and in whatever order these happen, a shutdown is behind its wait after
-- finitely many of them.
pub shutdown_completes : (s : System) → Steps new_system s → s.lifecycle.closing ≡ true → MustEnd s
shutdown_completes s steps h =
    completes_within (left s) s (omega arith) h
      (Steps-IsSound new_system s steps new_system-IsSound)
