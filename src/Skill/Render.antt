-- ===== src/Skill/Render.antt =====
-- How a skill is rendered, alone and for a chat.
use evernight_ai.Prelude.{
  ℕ, suc, String, not, ◌&&◌, Option, none, some, List, [], ◌∷◌, ◌++◌, if◌then◌else◌, ◌==◌, nat_eq,
  string_eq, option_eq, pair_eq, or_else, when, any, all, Result, ok, err, Error, ◌>>=◌, ◌>>◌,
  require,
}
use evernight_ai.Content.{Content}
use evernight_ai.Skill.{
  SkillCapability, capability_eq, SkillRenderRequest, RenderedSkill, Rendering, returns,
  returns_other, raises_input, raises_render, raises_other, accepted, violated, undecided, Tools,
  Manager, get, get_renderer, check_validator, supports,
}

-- `ChatSkill`
pub record ChatSkill (V : Type 0) : Type 0 where
  pub skill_name : String
  pub render_id : Option String
  pub variables : V

module _ {V : Type 0} where
  -- What `render` makes of what the renderer did.
  unfoldable pub checked : SkillRenderRequest V → Rendering → Result RenderedSkill
  checked request (returns rendered) =
      if (rendered.skill_name == request.skill_name) && (rendered.render_id == request.render_id)
      then ok rendered
      else err Error.skill_render
  checked request returns_other = err Error.skill_render
  checked request raises_input = err Error.skill_input
  checked request raises_render = err Error.skill_render
  checked request raises_other = err Error.skill_render

  -- `skill.render_id or f"{skill.skill_name}-{index}"`, where the second text is `default`.
  unfoldable pub render_id_of : ChatSkill V → String → String
  render_id_of skill default = or_else (when (λ i. not (i == "")) skill.render_id) default

module _ {S V : Type 0} where
  -- `SkillManager.validate_input`
  unfoldable pub validate_input : Tools S V → Manager S V → SkillRenderRequest V → Result (Unit {0})
  unfolding get check_validator
  validate_input tools m request = do
    require (not (tools.strip request.skill_name == "")) Error.skill_input
    require (not (tools.strip request.render_id == "")) Error.skill_input
    skill ← get m.register request.skill_name
    require skill.is_enabled Error.skill_disabled
    check_validator tools skill
    elim skill.input_schema [
      | none ↦ ok tt
      | some schema ↦ elim (tools.judge schema request.variables) [
        | accepted ↦ ok tt
        | violated ↦ err Error.skill_input
        | undecided ↦ err Error.skill_configuration
      ]
    ]

  -- `SkillManager.render`
  unfoldable pub render : Tools S V → Manager S V → SkillRenderRequest V → Result RenderedSkill
  unfolding validate_input get get_renderer checked
  render tools m request = do
    validate_input tools m request
    skill ← get m.register request.skill_name
    renderer ← get_renderer m.register skill.name
    checked request (renderer request)

  -- One round of `render_chat_skill_messages`; `tools_there` are the names of the tools.
  unfoldable pub render_chat_skill :
      Tools S V
      → Manager S V
      → SkillCapability
      → List String
      → (String → ℕ → String)
      → ℕ
      → ChatSkill V
      → Result RenderedSkill
  unfolding get supports render render_id_of
  render_chat_skill tools m capability tools_there numbered index skill = do
    definition ← get m.register skill.skill_name
    require definition.is_enabled Error.skill_disabled
    require (all (λ t. any (λ u. u == t) tools_there) definition.required_tools) Error.skill_input
    supported ← supports m skill.skill_name capability
    require supported Error.skill_input
    render tools m (record {
      render_id = render_id_of skill (numbered skill.skill_name index);
      skill_name = skill.skill_name;
      variables = skill.variables;
    })

  -- `render_chat_skill_messages`, from an index on; `numbered` is `f"{name}-{index}"`.
  unfoldable pub render_chat_skill_messages :
      Tools S V
      → Manager S V
      → SkillCapability
      → List String
      → (String → ℕ → String)
      → ℕ
      → List (ChatSkill V)
      → Result (List Content × List RenderedSkill)
  unfolding render_chat_skill
  render_chat_skill_messages tools m capability tools_there numbered index [] = ok ([], [])
  render_chat_skill_messages tools m capability tools_there numbered index (skill ∷ skills) = do
    rendered ← render_chat_skill tools m capability tools_there numbered index skill
    rest ← render_chat_skill_messages tools m capability tools_there numbered (suc index) skills
    ok (rendered.messages ++ rest.0, rendered ∷ rest.1)
