-- ===== src/Skill/Template.antt =====
-- The templates of core/domain/skill.py, and infra/adapters/skill/sqlite.py.
use evernight_ai.Prelude.{
  String, Bool, true, not, ◌&&◌, Option, none, some, List, [], ◌∷◌, if◌then◌else◌, text_ltb, Eq,
  nat_eq, string_eq, option_eq, pair_eq, is_some, or_else, Result, ok, err, Error, ◌>>=◌, ◌>>◌,
  require, sorted_by,
}
use evernight_ai.Dict.{Dict, lookup, insert, erase, contains, values}
use evernight_ai.Skill.{
  capability_eq, SkillDefinition, SkillTemplateConfig, SkillTemplateUpdate, Renderer, Tools,
  Manager, has, get, unregister, check_validator, register,
}

module _ {S : Type 0} where
  -- `SQLiteSkillTemplateStore.save`, if there is a store.
  unfoldable pub save :
      Option (Dict String (SkillTemplateConfig S))
      → SkillTemplateConfig S
      → Option (Dict String (SkillTemplateConfig S))
  unfolding insert
  save none config = none
  save (some store) config = some (insert config.skill.name config store)

  -- The current template with the fields of the update that are set.
  unfoldable pub updated : SkillTemplateConfig S → SkillTemplateUpdate S → SkillTemplateConfig S
  updated c u = record {
    skill = record c.skill {
      description = or_else u.description c.skill.description;
      is_enabled = or_else u.is_enabled c.skill.is_enabled;
      input_schema = or_else u.input_schema c.skill.input_schema;
      output_schema = or_else u.output_schema c.skill.output_schema;
      capabilities = or_else u.capabilities c.skill.capabilities;
      required_tools = or_else u.required_tools c.skill.required_tools;
    };
    prompt = or_else u.prompt c.prompt;
  }

  -- `SQLiteSkillTemplateStore.delete`, if there is a store.
  unfoldable pub unsave :
      Option (Dict String (SkillTemplateConfig S))
      → String
      → Result (Option (Dict String (SkillTemplateConfig S)))
  unfolding contains erase
  unsave none skill_name = ok none
  unsave (some store) skill_name =
      require (contains skill_name store) Error.skill_not_found
      >> ok (some (erase skill_name store))

  -- `SQLiteSkillTemplateStore.list_configs`
  unfoldable pub list_configs : Dict String (SkillTemplateConfig S) → List (SkillTemplateConfig S)
  list_configs store = sorted_by (λ c d. text_ltb c.skill.name d.skill.name) (values store)

module _ {S V : Type 0} where
  -- `SkillManager._build_template`
  unfoldable pub build_template :
      Tools S V → SkillTemplateConfig S → Result (SkillDefinition S × Renderer V)
  unfolding check_validator
  build_template tools config = elim tools.template_factory [
    | none ↦ err Error.skill_configuration
    | some factory ↦ do
      let definition = record config.skill { is_template = true }
      check_validator tools definition
      renderer ← factory config
      ok (definition, renderer)
  ]

  -- The template is built, saved, registered and kept under the name.
  unfoldable pub install :
      Tools S V
      → Manager S V
      → Bool
      → String
      → SkillTemplateConfig S
      → Result (Manager S V × SkillDefinition S)
  unfolding build_template save register insert
  install tools m saves name config = do
    built ← build_template tools config
    let store = if saves then save m.store config else m.store
    r ← register tools m.register built.0 built.1
    let templates = insert name config m.templates
    ok (record { register = r; templates = templates; store = store }, built.0)

  -- `SkillManager.create_template`; `revision` is `uuid4().hex`.
  unfoldable pub create_template :
      Tools S V
      → Manager S V
      → SkillTemplateConfig S
      → String
      → Result (Manager S V × SkillDefinition S)
  unfolding has install
  create_template tools m config revision = do
    require (not (has m.register config.skill.name)) Error.skill_conflict
    let skill = record config.skill { is_template = true; revision = some revision }
    install tools m true skill.name (record config { skill = skill })

  -- `SkillManager.get_template`
  unfoldable pub get_template : Manager S V → String → Result (SkillTemplateConfig S)
  unfolding get lookup
  get_template m skill_name = do
    found ← get m.register skill_name
    elim (lookup skill_name m.templates) [
      | none ↦ err Error.skill_configuration
      | some config ↦ ok config
    ]

  -- `SkillManager.update_template`
  unfoldable pub update_template :
      ⦃config_eq : Eq (SkillTemplateConfig S)⦄
      → Tools S V
      → Manager S V
      → String
      → SkillTemplateUpdate S
      → String
      → Result (Manager S V × SkillDefinition S)
  unfolding get_template updated install
  update_template ⦃config_eq⦄ tools m skill_name update revision = do
    current ← get_template m skill_name
    let config = updated current update
    let renewed =
        if config_eq.beq config current
        then config
        else record config { skill = record config.skill { revision = some revision } }
    install tools m true skill_name renewed

  -- `SkillManager.delete_template`
  unfoldable pub delete_template : Manager S V → String → Result (Manager S V)
  unfolding get_template unsave unregister erase
  delete_template m skill_name = do
    current ← get_template m skill_name
    store ← unsave m.store skill_name
    r ← unregister m.register skill_name
    ok (record { register = r; templates = erase skill_name m.templates; store = store })

  -- The loop's body of `restore`; `new_revision` gives a config its new `uuid4().hex`.
  unfoldable pub restore_config :
      Tools S V → (String → String) → Manager S V → SkillTemplateConfig S → Result (Manager S V)
  unfolding has contains install
  restore_config tools new_revision m config = do
    let name = config.skill.name
    require (not (has m.register name && not (contains name m.templates))) Error.skill_conflict
    let fresh = record config.skill {
      revision = some (or_else config.skill.revision (new_revision name));
    }
    let needs_revision = not (is_some config.skill.revision)
    installed ← install tools m needs_revision name (record config { skill = fresh })
    ok installed.0

  unfoldable pub restore_all :
      Tools S V
      → (String → String)
      → List (SkillTemplateConfig S)
      → Manager S V
      → Manager S V × Option Error
  unfolding restore_config
  restore_all tools new_revision [] m = (m, none)
  restore_all tools new_revision (c ∷ configs) m = elim (restore_config tools new_revision m c) [
    | err x ↦ (m, some x)
    | ok m' ↦ restore_all tools new_revision configs m'
  ]

  -- `SkillManager.restore`: the manager after it, and what it raised if it did.
  unfoldable pub restore : Tools S V → (String → String) → Manager S V → Manager S V × Option Error
  unfolding restore_all list_configs
  restore tools new_revision m = elim m.store [
    | none ↦ (m, none)
    | some store ↦ restore_all tools new_revision (list_configs store) m
  ]

-- The calls that change the templates.
pub data SkillCall (S : Type 0) : Type 0 where
  creates : SkillTemplateConfig S → String → SkillCall S
  updates : String → SkillTemplateUpdate S → String → SkillCall S
  deletes : String → SkillCall S
  restores : SkillCall S

module _ {S V : Type 0} where
  unfoldable pub kept_first {κ} :
      {X : Type κ} → Manager S V → Result (Manager S V × X) → Manager S V
  kept_first m (err x) = m
  kept_first m (ok p) = p.0

  unfoldable pub kept : Manager S V → Result (Manager S V) → Manager S V
  kept m (err x) = m
  kept m (ok m') = m'

  -- The manager after a call; what raises changes nothing but what `restore` had restored.
  unfoldable pub step :
      ⦃config_eq : Eq (SkillTemplateConfig S)⦄
      → Tools S V
      → (String → String)
      → Manager S V
      → SkillCall S
      → Manager S V
  unfolding create_template update_template delete_template restore kept_first kept
  step tools new_revision m (creates config revision) =
      kept_first m (create_template tools m config revision)
  step tools new_revision m (updates skill_name update revision) =
      kept_first m (update_template tools m skill_name update revision)
  step tools new_revision m (deletes skill_name) = kept m (delete_template m skill_name)
  step tools new_revision m restores = (restore tools new_revision m).0

  unfoldable pub run :
      ⦃config_eq : Eq (SkillTemplateConfig S)⦄
      → Tools S V
      → (String → String)
      → Manager S V
      → List (SkillCall S)
      → Manager S V
  unfolding step
  run tools new_revision m [] = m
  run tools new_revision m (c ∷ calls) = run tools new_revision (step tools new_revision m c) calls
