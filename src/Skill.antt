-- ===== src/Skill.antt =====
-- core/schema/skill.py, core/domain/skill.py and application/skill_prompt.py: the skills that are
-- registered, the templates that users make, and how a skill is rendered.
pub mod Builtin
pub mod Render
pub mod Template
use evernight_ai.Prelude.{
  ℕ, zero, suc, ◌+◌, ◌-◌, ◌*◌, ◌/◌, ◌≤◌, ◌<◌, max, String, ◌≡◌, refl, sym, ap, ◌∙◌, ◌≢◌, ◌↔◌, ◌⊎◌,
  inl, inr, Bool, true, false, not, ◌&&◌, ◌||◌, Option, none, some, List, [], ◌∷◌, ◌++◌, map,
  reverse, arith, eq_iff, ltb, leb, eqb, if◌then◌else◌, text_ltb, Eq, ◌==◌, nat_eq, nat_beq_iff,
  string_eq, option_eq, pair_eq, discrete_eq, string-discrete, nat-discrete, beq_refl, if_either,
  Bool-cases, Option-cases, is_some, or_else, when, text_ltb_asym, text_le_trans, length, keep, any,
  all, take, drop, get_elem?, All, length-append, length-keep-le, length-take, All-append,
  All-behind, All-keep, All-take, keep_sound, keep-append, keep_none, length-drop-le, All-keep_both,
  All-map, Result, ok, err, Error, ◌>>=◌, ◌>>◌, require, >>=-eq-ok, Result-cases, ok-injective,
  place_by, sorted_by, All-sorted_by, sorted_by-All, Sorted, sorted_by-Sorted, length-sorted_by, ℤ,
  pos, negsuc, negated, int_ltb, int_ltb_asym, int_le_trans, minus,
}
use evernight_ai.Dict.{Dict, lookup, insert, erase, contains, values}
use evernight_ai.Content.{Content}

-- `SkillCapability`
pub data SkillCapability : Type 0 where
  chat tool_use memory context agent streaming : SkillCapability

unfoldable pub SkillCapability-discrete : Discrete SkillCapability
SkillCapability-discrete = hlevel

instance abbrev pub capability_eq : Eq SkillCapability
capability_eq = discrete_eq SkillCapability-discrete

-- `SkillDefinition`; `S` is the type of JSON schemas.
pub record SkillDefinition (S : Type 0) : Type 0 where
  pub name : String
  pub description : String
  pub is_enabled : Bool
  pub is_template : Bool
  pub revision : Option String
  pub input_schema : Option S
  pub output_schema : Option S
  pub capabilities : List SkillCapability
  pub required_tools : List String

-- `SkillTemplateConfig`: a definition and its prompt.
pub record SkillTemplateConfig (S : Type 0) : Type 0 where
  pub skill : SkillDefinition S
  pub prompt : String

-- `SkillTemplateUpdate`: the fields that are set.
pub record SkillTemplateUpdate (S : Type 0) : Type 0 where
  pub description : Option String
  pub prompt : Option String
  pub is_enabled : Option Bool
  pub input_schema : Option (Option S)
  pub output_schema : Option (Option S)
  pub capabilities : Option (List SkillCapability)
  pub required_tools : Option (List String)

-- `SkillRenderRequest`; `V` is the type of the variables.
pub record SkillRenderRequest (V : Type 0) : Type 0 where
  pub render_id : String
  pub skill_name : String
  pub variables : V

-- `RenderedSkill`
pub record RenderedSkill : Type 0 where
  pub render_id : String
  pub skill_name : String
  pub messages : List Content

-- What a renderer does: it returns a skill or something else, or raises SkillInputError,
-- SkillRenderError or another exception.
pub data Rendering : Type 0 where
  returns : RenderedSkill → Rendering
  returns_other raises_input raises_render raises_other : Rendering

abbrev pub Renderer : Type 0 → Type 0
Renderer V = SkillRenderRequest V → Rendering

-- What the JSON Schema library finds of some variables.
pub data Judgement : Type 0 where
  accepted violated undecided : Judgement

-- What the manager uses of libraries, and its template factory; `is_schema` says that the draft is
-- supported and the schema is valid, and `judge` is `undecided` where it raises.
pub record Tools (S V : Type 0) : Type 0 where
  pub strip : String → String
  pub is_schema : S → Bool
  pub judge : S → V → Judgement
  pub template_factory : Option (SkillTemplateConfig S → Result (Renderer V))

-- `SkillRegister`
pub record Register (S V : Type 0) : Type 0 where
  pub skills : Dict String (SkillDefinition S)
  pub renderers : Dict String (Renderer V)

-- `SkillManager`; the store of templates, by their names.
pub record Manager (S V : Type 0) : Type 0 where
  pub register : Register S V
  pub templates : Dict String (SkillTemplateConfig S)
  pub store : Option (Dict String (SkillTemplateConfig S))

module _ {S V : Type 0} where
  -- `SkillRegister.has`
  unfoldable pub has : Register S V → String → Bool
  unfolding contains
  has r skill_name = contains skill_name r.skills && contains skill_name r.renderers

  -- `SkillRegister.get`
  unfoldable pub get : Register S V → String → Result (SkillDefinition S)
  unfolding has lookup
  get r skill_name = elim (when (λ s. has r skill_name) (lookup skill_name r.skills)) [
    | none ↦ err Error.skill_not_found
    | some skill ↦ ok skill
  ]

  -- `SkillRegister.get_renderer`
  unfoldable pub get_renderer : Register S V → String → Result (Renderer V)
  unfolding has lookup
  get_renderer r skill_name = elim (when (λ f. has r skill_name) (lookup skill_name r.renderers)) [
    | none ↦ err Error.skill_not_found
    | some renderer ↦ ok renderer
  ]

  -- `SkillRegister.unregister`
  unfoldable pub unregister : Register S V → String → Result (Register S V)
  unfolding has erase
  unregister r skill_name = do
    require (has r skill_name) Error.skill_not_found
    ok (record { skills = erase skill_name r.skills; renderers = erase skill_name r.renderers })

  -- `_input_validator`: it raises or not; the validator is of the same schema.
  unfoldable pub check_validator : Tools S V → SkillDefinition S → Result (Unit {0})
  check_validator tools skill = elim skill.input_schema [
    | none ↦ ok tt
    | some schema ↦ require (tools.is_schema schema) Error.skill_configuration
  ]

  -- `SkillRegister.register`
  unfoldable pub register :
      Tools S V → Register S V → SkillDefinition S → Renderer V → Result (Register S V)
  unfolding check_validator insert
  register tools r skill renderer = do
    check_validator tools skill
    ok (record {
      skills = insert skill.name skill r.skills;
      renderers = insert skill.name renderer r.renderers;
    })

  -- `SkillManager.supports`
  unfoldable pub supports : Manager S V → String → SkillCapability → Result Bool
  unfolding get
  supports m skill_name capability = do
    skill ← get m.register skill_name
    ok (skill.is_enabled && any (λ c. c == capability) skill.capabilities)
