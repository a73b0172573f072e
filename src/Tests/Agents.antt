-- ===== src/Tests/Agents.antt =====
-- The scripted and the command-line agent at concrete inputs.
use multi_agent_testbed.Base.{
  ◌+◌, String, ◌≡◌, refl, false, none, some, [], ◌∷◌, length, min, returned, raised, max,
}
use multi_agent_testbed.Contracts.Enums.{message}
use multi_agent_testbed.Contracts.Ids.{num, text}
use multi_agent_testbed.Sdk.{AgentRequest}
use multi_agent_testbed.Packs.Python.{Python}
use multi_agent_testbed.Adapters.Templates.{
  IsResolved, render, render-IsResolved, replaced, replace_all, remove_all, remove_first,
  unclosed_placeholder,
}
use multi_agent_testbed.Adapters.Scripted.{Step, ScriptedAgent, invoke_all, snapshot, restore}
use multi_agent_testbed.Adapters.Script.{restore-invoke_all}

abbrev python : Python
python = record { repr = λ v. "?"; parse_float = λ s. none }

abbrev request : AgentRequest
request = record {
  invocation_id = num 1;
  agent_id = "ada";
  logical_time = 1;
  instruction = "Look it up.";
  inbox = none;
  observation = [];
  private_facts = ("code", text "42") ∷ [];
  history = [];
  seed = 7;
}

render-IsResolved_example :
    IsResolved "{obs." (render python "{agent_id}: {private.code}{obs.x}!" request)
render-IsResolved_example = render-IsResolved python "{agent_id}: {private.code}{obs.x}!" request

-- A known placeholder is replaced, an unknown one goes.
rendered_text : render python "{agent_id}: {private.code}{obs.x}!" request ≡ returned "ada: 42!"
unfolding render replaced replace_all remove_all remove_first
rendered_text = refl

-- One that is never closed raises.
unclosed : render python "{private.name" request ≡ raised unclosed_placeholder
unfolding render replaced replace_all remove_all remove_first
unclosed = refl

abbrev say : String → Step
say content = record {
  kind = message;
  content = content;
  recipients = [];
  action = [];
  tool = none;
  tool_args = [];
  model_calls = 1;
  private = false;
  repeat = 1;
}

abbrev scripted : ScriptedAgent
scripted = record {
  agent_id = "ada";
  steps = (say "one" ∷ []) ∷ (say "two" ∷ []) ∷ [];
  cost_per_step = 0;
  cursor = 0;
}

restore-invoke_all_example :
    ((invoke_all python scripted (request ∷ request ∷ request ∷ [])).1.cursor
      ≡ max scripted.cursor (
          min
            (length scripted.steps)
            (scripted.cursor + length (request ∷ request ∷ request ∷ []))))
    × (restore (snapshot (invoke_all python scripted (request ∷ request ∷ request ∷ [])).1) scripted
        ≡ some (invoke_all python scripted (request ∷ request ∷ request ∷ [])).1)
restore-invoke_all_example = restore-invoke_all python scripted (request ∷ request ∷ request ∷ [])
