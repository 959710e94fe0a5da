-- ===== src/Tests/Skills.antt =====
-- Skills at concrete inputs.
use evernight_ai.Prelude.{
  String, ◌≡◌, refl, true, false, none, some, List, [], ◌∷◌, Eq, nat_eq, string_eq, option_eq,
  pair_eq, discrete_eq, string-discrete, ok, err, Error,
}
use evernight_ai.Dict.{contains, lookup}
use evernight_ai.Skill.{
  SkillDefinition, SkillTemplateConfig, SkillRenderRequest, returns, returns_other, Renderer,
  accepted, Tools, Register, Manager, has, get, get_renderer, SkillCapability-discrete,
  check_validator,
}
use evernight_ai.Skill.Template.{SkillCall, creates, deletes, restores, run, create_template}
use evernight_ai.Skill.Render.{render, validate_input, checked}
use evernight_ai.Skill.Builtin.{registered_skill_stays}

config_discrete : Discrete (SkillTemplateConfig String)
config_discrete = hlevel (string-discrete, SkillCapability-discrete)

instance abbrev config_eq : Eq (SkillTemplateConfig String)
config_eq = discrete_eq config_discrete

-- It renders no messages.
abbrev silent : Renderer String
silent q = returns (record { render_id = q.render_id; skill_name = q.skill_name; messages = [] })

abbrev stubborn : Renderer String
stubborn q = returns_other

abbrev plain_tools : Tools String String
plain_tools = record {
  strip = λ s. s;
  is_schema = λ s. true;
  judge = λ s v. accepted;
  template_factory = some (λ c. ok stubborn);
}

abbrev skill_of : String → SkillDefinition String
skill_of k = record {
  name = k;
  description = "a skill";
  is_enabled = true;
  is_template = false;
  revision = none;
  input_schema = none;
  output_schema = none;
  capabilities = [];
  required_tools = [];
}

abbrev config_of : String → SkillTemplateConfig String
config_of k = record { skill = skill_of k; prompt = "write" }

abbrev one_skill : Register String String
one_skill = record { skills = ("sum", skill_of "sum") ∷ []; renderers = ("sum", silent) ∷ [] }

abbrev started : Manager String String
started = record { register = one_skill; templates = []; store = some [] }

abbrev some_calls : List (SkillCall String)
some_calls =
    creates (config_of "sum") "r1"
    ∷ creates (config_of "note") "r2"
    ∷ restores
    ∷ deletes "note"
    ∷ []

-- A run: a template cannot take the name of a skill.
create_taken : create_template plain_tools started (config_of "sum") "r1" ≡ err Error.skill_conflict
unfolding create_template has contains lookup
create_taken = refl

abbrev a_request : SkillRenderRequest String
a_request = record { render_id = "1"; skill_name = "sum"; variables = "v" }

render_sum :
    render plain_tools started a_request
    ≡ ok (record { render_id = "1"; skill_name = "sum"; messages = [] })
unfolding render validate_input checked get get_renderer has contains lookup check_validator
render_sum = refl

registered_skill_stays_example :
    let m = run plain_tools (λ k. "r") started some_calls in
    (get m.register "sum" ≡ ok (skill_of "sum"))
    × (get_renderer m.register "sum" ≡ ok silent)
    × (contains "sum" m.templates ≡ false)
unfolding get get_renderer has contains lookup
registered_skill_stays_example =
    registered_skill_stays plain_tools (λ k. "r") some_calls one_skill (some []) "sum"
      (skill_of "sum") silent refl refl
