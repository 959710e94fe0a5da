-- ===== src/Skill/Builtin.antt =====
-- The skills that are no templates.
use evernight_ai.Prelude.{
  String, ◌≡◌, refl, sym, ap, ◌∙◌, inl, inr, Bool, true, false, not, ◌&&◌, Option, none, some, List,
  [], ◌∷◌, arith, eq_iff, if◌then◌else◌, Eq, ◌==◌, nat_eq, string_eq, option_eq, pair_eq, if_either,
  Bool-cases, Option-cases, is_some, or_else, ok, Error, ◌>>=◌, require, >>=-eq-ok, Result-cases,
  ok-injective,
}
use evernight_ai.Dict.{Dict, lookup, insert, erase, contains}
use evernight_ai.Dict.Laws.{lookup-insert, lookup-erase}
use evernight_ai.Skill.{
  SkillDefinition, SkillTemplateConfig, SkillTemplateUpdate, Renderer, Tools, Register, Manager,
  has, get, get_renderer, unregister, check_validator, register,
}
use evernight_ai.Skill.Template.{
  build_template, install, create_template, get_template, updated, update_template, unsave,
  delete_template, restore_config, restore_all, list_configs, restore, SkillCall, creates, updates,
  deletes, restores, kept_first, kept, step, run,
}

module _ {S : Type 0} where
  -- Each template is kept under its own name.
  abbrev pub NamedTemplates : Dict String (SkillTemplateConfig S) → Type 0
  NamedTemplates d =
      (j : String) (c : SkillTemplateConfig S) → lookup j d ≡ some c → c.skill.name ≡ j

  insert-NamedTemplates :
      (name : String) (config : SkillTemplateConfig S) (d : Dict String (SkillTemplateConfig S))
      → config.skill.name ≡ name
      → NamedTemplates d
      → NamedTemplates (insert name config d)
  insert-NamedTemplates name config d same h j c found = elim (Bool-cases (name == j)) [
    | inl b ↦
        let here : config ≡ c = ground (arith, found, b, lookup-insert name j config d) in
        ap (λ z. z.skill.name) (sym here) ∙ same ∙ (eq_iff name j).0 b
    | inr b ↦ h j c (ground (arith, found, b, lookup-insert name j config d))
  ]

  erase-NamedTemplates :
      (name : String) (d : Dict String (SkillTemplateConfig S))
      → NamedTemplates d
      → NamedTemplates (erase name d)
  erase-NamedTemplates name d h j c found = h j c (ground (arith, found, lookup-erase name j d))

module _ {S V : Type 0} where
  -- The skill `k` and its renderer are registered, and are no template's.
  IsBuiltin : String → SkillDefinition S → Renderer V → Manager S V → Type 0
  IsBuiltin k s f m =
      (lookup k m.register.skills ≡ some s)
      × (lookup k m.register.renderers ≡ some f)
      × (lookup k m.templates ≡ none)
      × NamedTemplates m.templates

  build_name :
      (tools : Tools S V) (config : SkillTemplateConfig S) (b : SkillDefinition S × Renderer V)
      → build_template tools config ≡ ok b
      → b.0.name ≡ config.skill.name
  unfolding build_template
  build_name tools config b e = elim (Option-cases tools.template_factory) [
    | inl n ↦ ground (arith, e, n)
    | inr (factory, n) ↦
        let definition = record config.skill { is_template = true } in
        let made : (check_validator tools definition >>= λ done.
        factory config >>= λ g. ok (definition, g))
            ≡ ok b =
          ground (arith, e, n) in
        let (_, _, e1) = >>=-eq-ok (check_validator tools definition) _ made in
        let (g, _, e2) = >>=-eq-ok (factory config) _ e1 in
        ap (λ z. z.0.name) (sym (ok-injective e2))
  ]

  register_ok :
      (tools : Tools S V) (r r' : Register S V) (skill : SkillDefinition S) (f : Renderer V)
      → register tools r skill f ≡ ok r'
      → (r'.skills ≡ insert skill.name skill r.skills)
        × (r'.renderers ≡ insert skill.name f r.renderers)
  unfolding register
  register_ok tools r r' skill f e =
      let (_, _, e1) = >>=-eq-ok (check_validator tools skill) _ e in
      (ap (λ z. z.skills) (sym (ok-injective e1)), ap (λ z. z.renderers) (sym (ok-injective e1)))

  install-IsBuiltin :
      (tools : Tools S V) (m : Manager S V) (b : Bool) (name k : String)
      (config : SkillTemplateConfig S) (s : SkillDefinition S) (f : Renderer V)
      (p : Manager S V × SkillDefinition S)
      → config.skill.name ≡ name
      → (name == k) ≡ false
      → install tools m b name config ≡ ok p
      → IsBuiltin k s f m
      → IsBuiltin k s f p.0
  unfolding install IsBuiltin
  install-IsBuiltin tools m b name k config s f p same other e h =
      let (built, e0, e1) = >>=-eq-ok (build_template tools config) _ e in
      let (r, e2, e3) = >>=-eq-ok (register tools m.register built.0 built.1) _ e1 in
      let (skills, renderers) = register_ok tools m.register r built.0 built.1 e2 in
      let named : built.0.name ≡ name = build_name tools config built e0 ∙ same in
      let made = ap (λ z. z.0) (sym (ok-injective e3)) in
      let at : p.0.register ≡ r = ap (λ z. z.register) made in
      let there : p.0.templates ≡ insert name config m.templates = ap (λ z. z.templates) made in
      (
        rw (at, skills, named, lookup-insert name k built.0 m.register.skills, other) h.0,
        rw (at, renderers, named, lookup-insert name k built.1 m.register.renderers, other) h.1,
        rw (there, lookup-insert name k config m.templates, other) h.2,
        rw there (insert-NamedTemplates name config m.templates same h.3),
      )

  not_template :
      (m : Manager S V) (j k : String) (c : SkillTemplateConfig S) (s : SkillDefinition S)
      (f : Renderer V)
      → get_template m j ≡ ok c
      → IsBuiltin k s f m
      → ((j == k) ≡ false) × (c.skill.name ≡ j)
  unfolding get_template IsBuiltin
  not_template m j k c s f e h =
      let (d, _, e1) = >>=-eq-ok (get m.register j) _ e in
      let found : lookup j m.templates ≡ some c = elim (Option-cases (lookup j m.templates)) [
        | inl n ↦ ground (arith, e1, n)
        | inr (c', n) ↦ ground (arith, e1, n)
      ] in
      let other : (j == k) ≡ false = elim (Bool-cases (j == k)) [
        | inl b ↦ ground (arith, found, h.2, (eq_iff j k).0 b)
        | inr b ↦ b
      ] in
      (other, h.3 j c found)

  has_builtin :
      (m : Manager S V) (k : String) (s : SkillDefinition S) (f : Renderer V)
      → IsBuiltin k s f m
      → has m.register k ≡ true
  unfolding has contains IsBuiltin
  has_builtin m k s f h = rw (h.0, h.1) refl

  create-IsBuiltin :
      (tools : Tools S V) (m : Manager S V) (config : SkillTemplateConfig S) (revision k : String)
      (s : SkillDefinition S) (f : Renderer V) (p : Manager S V × SkillDefinition S)
      → create_template tools m config revision ≡ ok p
      → IsBuiltin k s f m
      → IsBuiltin k s f p.0
  unfolding create_template
  create-IsBuiltin tools m config revision k s f p e h =
      let (_, free, e1) =
        >>=-eq-ok (require (not (has m.register config.skill.name)) Error.skill_conflict) _ e in
      let other : (config.skill.name == k) ≡ false = elim (Bool-cases (config.skill.name == k)) [
        | inl b ↦ ground (arith, free, has_builtin m k s f h, (eq_iff config.skill.name k).0 b)
        | inr b ↦ b
      ] in
      let skill = record config.skill { is_template = true; revision = some revision } in
      install-IsBuiltin tools m true config.skill.name k (record config { skill = skill }) s f p
        refl other e1 h

  delete-IsBuiltin :
      (m m' : Manager S V) (j k : String) (s : SkillDefinition S) (f : Renderer V)
      → delete_template m j ≡ ok m'
      → IsBuiltin k s f m
      → IsBuiltin k s f m'
  unfolding delete_template unregister
  delete-IsBuiltin m m' j k s f e h =
      let (c, e0, e1) = >>=-eq-ok (get_template m j) _ e in
      let (other, _) = not_template m j k c s f e0 h in
      let (st, _, e2) = >>=-eq-ok (unsave m.store j) _ e1 in
      let (r, e3, e4) = >>=-eq-ok (unregister m.register j) _ e2 in
      let (_, _, e5) = >>=-eq-ok (require (has m.register j) Error.skill_not_found) _ e3 in
      let made = sym (ok-injective e4) in
      let gone = sym (ok-injective e5) in
      unfold IsBuiltin in
      (
        rw (ap (λ z. z.register) made, gone, lookup-erase j k m.register.skills, other)
            (unfold IsBuiltin in h.0),
        rw (ap (λ z. z.register) made, gone, lookup-erase j k m.register.renderers, other)
            (unfold IsBuiltin in h.1),
        rw (ap (λ z. z.templates) made, lookup-erase j k m.templates, other)
            (unfold IsBuiltin in h.2),
        rw (ap (λ z. z.templates) made)
            (erase-NamedTemplates j m.templates (unfold IsBuiltin in h.3)),
      )

  builtin_conflicts :
      (m : Manager S V) (k : String) (s : SkillDefinition S) (f : Renderer V)
      → IsBuiltin k s f m
      → not (has m.register k && not (contains k m.templates)) ≡ false
  unfolding contains
  builtin_conflicts m k s f h =
      let none_kept : lookup k m.templates ≡ none = unfold IsBuiltin in h.2 in
      rw (has_builtin m k s f h, none_kept) refl

  restore_config-IsBuiltin :
      (tools : Tools S V) (new_revision : String → String) (m m' : Manager S V)
      (config : SkillTemplateConfig S) (k : String) (s : SkillDefinition S) (f : Renderer V)
      → restore_config tools new_revision m config ≡ ok m'
      → IsBuiltin k s f m
      → IsBuiltin k s f m'
  unfolding restore_config
  restore_config-IsBuiltin tools new_revision m m' config k s f e h =
      let name = config.skill.name in
      let (_, free, e1) =
        >>=-eq-ok
          (require (not (has m.register name && not (contains name m.templates)))
            Error.skill_conflict)
          _ e in
      let other : (name == k) ≡ false = elim (Bool-cases (name == k)) [
        | inl b ↦ ground (arith, free, builtin_conflicts m k s f h, (eq_iff name k).0 b)
        | inr b ↦ b
      ] in
      let fresh = record config.skill {
        revision = some (or_else config.skill.revision (new_revision name));
      } in
      let again : SkillTemplateConfig S = record config { skill = fresh } in
      let (p, e2, e3) =
        >>=-eq-ok (install tools m (not (is_some config.skill.revision)) name again) _ e1 in
      rw (sym (ok-injective e3)) (
        install-IsBuiltin tools m (not (is_some config.skill.revision)) name k again s f p refl
          other e2 h)

  restore_all-IsBuiltin :
      (tools : Tools S V) (new_revision : String → String) (configs : List (SkillTemplateConfig S))
      (m : Manager S V) (k : String) (s : SkillDefinition S) (f : Renderer V)
      → IsBuiltin k s f m
      → IsBuiltin k s f (restore_all tools new_revision configs m).0
  unfolding restore_all IsBuiltin
  restore_all-IsBuiltin tools new_revision [] m k s f h = h
  restore_all-IsBuiltin tools new_revision (c ∷ configs) m k s f h =
      elim (Result-cases (restore_config tools new_revision m c)) [
        | inl (m', e) ↦
            rw (restore_all, e)
              (restore_all-IsBuiltin tools new_revision configs m' k s f
                (restore_config-IsBuiltin tools new_revision m m' c k s f e h))
        | inr (x, e) ↦ rw (restore_all, e) h
      ]

  restore-IsBuiltin :
      (tools : Tools S V) (new_revision : String → String) (m : Manager S V) (k : String)
      (s : SkillDefinition S) (f : Renderer V)
      → IsBuiltin k s f m
      → IsBuiltin k s f (restore tools new_revision m).0
  unfolding restore
  restore-IsBuiltin tools new_revision m k s f h =
      elim m.store
        as (λ o.
          IsBuiltin k s f
            (elim o as (λ x. Manager S V × Option Error) [
              | none ↦ (m, none)
              | some store ↦ restore_all tools new_revision (list_configs store) m
            ]).0) [
              | none ↦ h
              | some store ↦ restore_all-IsBuiltin tools new_revision (list_configs store) m k s f h
            ]

  get_found :
      (r : Register S V) (k : String) (s : SkillDefinition S)
      → get r k ≡ ok s
      → lookup k r.skills ≡ some s
  unfolding get
  get_found r k s e = elim (Option-cases (lookup k r.skills)) [
    | inl n ↦ ground (arith, e, n)
    | inr (s', n) ↦ elim (Bool-cases (has r k)) [
      | inl b ↦ ground (arith, e, n, b)
      | inr b ↦ ground (arith, e, n, b)
    ]
  ]

  get_renderer_found :
      (r : Register S V) (k : String) (f : Renderer V)
      → get_renderer r k ≡ ok f
      → lookup k r.renderers ≡ some f
  unfolding get_renderer
  get_renderer_found r k f e = elim (Option-cases (lookup k r.renderers)) [
    | inl n ↦ ground (arith, e, n)
    | inr (g, n) ↦ elim (Bool-cases (has r k)) [
      | inl b ↦ ground (arith, e, n, b)
      | inr b ↦ ground (arith, e, n, b)
    ]
  ]

  builtin_answers :
      (m : Manager S V) (k : String) (s : SkillDefinition S) (f : Renderer V)
      → IsBuiltin k s f m
      → (get m.register k ≡ ok s)
        × (get_renderer m.register k ≡ ok f)
        × (contains k m.templates ≡ false)
  unfolding get get_renderer contains
  builtin_answers m k s f h =
      let there = has_builtin m k s f h in
      let skill : lookup k m.register.skills ≡ some s = unfold IsBuiltin in h.0 in
      let renderer : lookup k m.register.renderers ≡ some f = unfold IsBuiltin in h.1 in
      let none_kept : lookup k m.templates ≡ none = unfold IsBuiltin in h.2 in
      (rw (get, skill, there) refl, rw (get_renderer, renderer, there) refl, rw none_kept refl)

  module _ ⦃config_eq : Eq (SkillTemplateConfig S)⦄ where
    update-IsBuiltin :
        (tools : Tools S V) (m : Manager S V) (j : String) (u : SkillTemplateUpdate S)
        (revision k : String) (s : SkillDefinition S) (f : Renderer V)
        (p : Manager S V × SkillDefinition S)
        → update_template tools m j u revision ≡ ok p
        → IsBuiltin k s f m
        → IsBuiltin k s f p.0
    unfolding update_template
    update-IsBuiltin tools m j u revision k s f p e h =
        let (c, e0, e1) = >>=-eq-ok (get_template m j) _ e in
        let (other, named) = not_template m j k c s f e0 h in
        let new : SkillTemplateConfig S = updated c u in
        let renewed : SkillTemplateConfig S =
          if config_eq.beq new c
          then new
          else record new { skill = record new.skill { revision = some revision } } in
        let same : renewed.skill.name ≡ j =
          unfold updated in
          if_either (λ (x : SkillTemplateConfig S). x.skill.name ≡ j) (config_eq.beq new c) named
            named in
        install-IsBuiltin tools m true j k renewed s f p same other e1 h

    step-IsBuiltin :
        (tools : Tools S V) (new_revision : String → String) (m : Manager S V) (c : SkillCall S)
        (k : String) (s : SkillDefinition S) (f : Renderer V)
        → IsBuiltin k s f m
        → IsBuiltin k s f (step tools new_revision m c)
    unfolding step kept_first kept
    step-IsBuiltin tools new_revision m (creates config revision) k s f h =
        elim (Result-cases (create_template tools m config revision)) [
          | inl (p, e) ↦ rw e (create-IsBuiltin tools m config revision k s f p e h)
          | inr (x, e) ↦ rw e h
        ]
    step-IsBuiltin tools new_revision m (updates j u revision) k s f h =
        elim (Result-cases (update_template tools m j u revision)) [
          | inl (p, e) ↦ rw e (update-IsBuiltin tools m j u revision k s f p e h)
          | inr (x, e) ↦ rw e h
        ]
    step-IsBuiltin tools new_revision m (deletes j) k s f h =
        elim (Result-cases (delete_template m j)) [
          | inl (m', e) ↦ rw e (delete-IsBuiltin m m' j k s f e h)
          | inr (x, e) ↦ rw e h
        ]
    step-IsBuiltin tools new_revision m restores k s f h =
        restore-IsBuiltin tools new_revision m k s f h

    run-IsBuiltin :
        (tools : Tools S V) (new_revision : String → String) (calls : List (SkillCall S))
        (m : Manager S V) (k : String) (s : SkillDefinition S) (f : Renderer V)
        → IsBuiltin k s f m
        → IsBuiltin k s f (run tools new_revision m calls)
    unfolding run
    run-IsBuiltin tools new_revision [] m k s f h = h
    run-IsBuiltin tools new_revision (c ∷ calls) m k s f h =
        run-IsBuiltin tools new_revision calls (step tools new_revision m c) k s f
          (step-IsBuiltin tools new_revision m c k s f h)

    -- A skill that is registered with its renderer when the manager starts, with no templates and
    -- with whatever store, stays: whatever templates are created, updated, deleted and restored,
    -- the register still returns this skill and this renderer for its name, and the name is no
    -- template's.
    pub registered_skill_stays :
        (tools : Tools S V) (new_revision : String → String) (calls : List (SkillCall S))
        (r : Register S V) (store : Option (Dict String (SkillTemplateConfig S))) (k : String)
        (s : SkillDefinition S) (f : Renderer V)
        → get r k ≡ ok s
        → get_renderer r k ≡ ok f
        → let m =
            run tools new_revision (record { register = r; templates = []; store = store }) calls in
          (get m.register k ≡ ok s)
          × (get_renderer m.register k ≡ ok f)
          × (contains k m.templates ≡ false)
    registered_skill_stays tools new_revision calls r store k s f e g =
        let m : Manager S V = record { register = r; templates = []; store = store } in
        let start : IsBuiltin k s f m =
          unfold IsBuiltin lookup in
          (get_found r k s e, get_renderer_found r k f g, refl, λ j c n. ground (arith, n)) in
        builtin_answers (run tools new_revision m calls) k s f
          (run-IsBuiltin tools new_revision calls m k s f start)
