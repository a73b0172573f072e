-- ===== src/Adapters/Scripted.antt =====
-- src/testbed_adapters/agents/python/scripted.py: the agent that follows a script. A step's kind and
-- counts are read already; a turn that is a single step is a list of one.
use multi_agent_testbed.Base.{
  ℕ, zero, suc, ◌+◌, String, Bool, true, false, ◌&&◌, not, Option, none, some, List, [], ◌∷◌, ◌++◌,
  Dict, if◌then◌else◌, Outcome, returned, raised, lookup,
}
use multi_agent_testbed.Contracts.Enums.{AgentEventKind, final, tool_call}
use multi_agent_testbed.Contracts.Ids.{
  Json, num, text, arr, obj, Items, nil, cons, Fields, end, field, as_dict, object,
}
use multi_agent_testbed.Contracts.Events.{no_resources}
use multi_agent_testbed.Sdk.{AgentRequest, AgentEvent}
use multi_agent_testbed.Packs.Python.{Python, is_space}
use multi_agent_testbed.Adapters.Templates.{RenderError, render}

pub record Step : Type 0 where
  pub kind : AgentEventKind
  pub content : String
  pub recipients : List String
  pub action : Dict Json
  pub tool : Option String
  pub tool_args : Dict Json
  pub model_calls : ℕ
  pub private : Bool
  pub repeat : ℕ

pub record ScriptedAgent : Type 0 where
  pub agent_id : String
  pub steps : List (List Step)
  pub cost_per_step : ℕ
  pub cursor : ℕ

-- What follows a value that was rendered; an exception passes through.
abbrev pub rendered :
    {A B : Type 0} → Outcome RenderError A → (A → Outcome RenderError B) → Outcome RenderError B
rendered (returned a) f = f a
rendered (raised e) f = raised e

module _ (py : Python) (request : AgentRequest) where
  -- `_render_any`
  unfoldable mutual
    pub render_any : Json → Outcome RenderError Json
    render_any (text s) = rendered (render py s request) (λ t. returned (text t))
    render_any (obj f) = rendered (render_fields f) (λ g. returned (obj g))
    render_any (arr xs) = rendered (render_items xs) (λ ys. returned (arr ys))
    render_any v = returned v

    pub render_items : Items → Outcome RenderError Items
    render_items nil = returned nil
    render_items (cons v rest) =
        rendered (render_any v) (λ w. rendered (render_items rest) (λ ws. returned (cons w ws)))

    pub render_fields : Fields → Outcome RenderError Fields
    render_fields end = returned end
    render_fields (field k v rest) =
        rendered (render_any v) (λ w. rendered (render_fields rest) (λ ws. returned (field k w ws)))

-- `len(s.split())`, with whether a word has begun
abbrev words_from : Bool → String → ℕ
words_from begun String.[] = 0
words_from begun (String.◌∷◌ c s) =
    (if not begun && not (is_space c) then 1 else 0) + words_from (not (is_space c)) s

abbrev pub words : String → ℕ
words s = words_from false s

abbrev is_call : AgentEventKind → Bool
is_call tool_call = true
is_call _ = false

abbrev emission : ScriptedAgent → Step → AgentRequest → String → Dict Json → Dict Json → AgentEvent
emission agent step request content action tool_args = record {
  kind = step.kind;
  content = content;
  recipients = step.recipients;
  action = action;
  tool_name = step.tool;
  tool_args = tool_args;
  resource_delta = record no_resources {
    model_calls = step.model_calls;
    input_tokens = words request.instruction;
    output_tokens = words content;
    tool_calls = if is_call step.kind then 1 else 0;
    cost_usd = agent.cost_per_step;
  };
  private = step.private;
}

-- `_build`
unfoldable pub build_emission :
    Python → ScriptedAgent → Step → AgentRequest → Outcome RenderError AgentEvent
unfolding render_any render
build_emission py agent step request = rendered (render py step.content request) (λ content.
    rendered (render_any py request (object step.action)) (λ action.
      rendered (render_any py request (object step.tool_args)) (λ tool_args.
        returned (emission agent step request content (as_dict action) (as_dict tool_args)))))

-- What a turn yields, and whether an exception then ends it.
abbrev pub yielded : List AgentEvent → List AgentEvent × Bool → List AgentEvent × Bool
yielded before after = (before ++ after.0, after.1)

-- `for _ in range(repeat): yield self._build(step, request)`
unfoldable pub emit_step : Python → ScriptedAgent → Step → AgentRequest → ℕ → List AgentEvent × Bool
unfolding build_emission
emit_step py agent step request zero = ([], false)
emit_step py agent step request (suc n) =
    let rest = emit_step py agent step request n in
    elim (build_emission py agent step request) [
      | raised e ↦ ([], true)
      | returned event ↦ yielded (event ∷ []) rest
    ]

unfoldable pub emit_all : Python → ScriptedAgent → List Step → AgentRequest → List AgentEvent × Bool
unfolding emit_step
emit_all py agent [] request = ([], false)
emit_all py agent (step ∷ steps) request =
    let rest = emit_all py agent steps request in
    let now = emit_step py agent step request step.repeat in
    if now.1 then now else yielded now.0 rest

-- `AgentEvent(kind=FINAL, content="script exhausted", …)`
abbrev pub exhausted : AgentEvent
exhausted = record {
  kind = final;
  content = "script exhausted";
  recipients = [];
  action = [];
  tool_name = none;
  tool_args = [];
  resource_delta = record no_resources { model_calls = 1; output_tokens = 4 };
  private = false;
}

-- `self.steps[cursor]`; `none` is past the end
unfoldable pub turn_at : ℕ → List (List Step) → Option (List Step)
turn_at n [] = none
turn_at zero (turn ∷ turns) = some turn
turn_at (suc n) (turn ∷ turns) = turn_at n turns

-- `invoke`: the events of one turn, and the agent after it
unfoldable pub invoke :
    Python → ScriptedAgent → AgentRequest → (List AgentEvent × Bool) × ScriptedAgent
unfolding turn_at emit_all
invoke py agent request = elim (turn_at agent.cursor agent.steps) [
  | none ↦ ((exhausted ∷ [], false), agent)
  | some turn ↦
      let moved = record agent { cursor = suc agent.cursor } in
      (emit_all py moved turn request, moved)
]

-- What `snapshot` writes, where the agent has an artifact store; `restore` reads it.
unfoldable pub snapshot : ScriptedAgent → Json
snapshot agent = object (("cursor", num agent.cursor) ∷ [])

-- `int(body["cursor"])`; `none` where there is no such key or it holds no number.
abbrev cursor_in : Option Json → Option ℕ
cursor_in (some (num n)) = some n
cursor_in _ = none

unfoldable pub restore : Json → ScriptedAgent → Option ScriptedAgent
unfolding lookup
restore body agent = elim (cursor_in (lookup "cursor" (as_dict body))) [
  | none ↦ none
  | some n ↦ some (record agent { cursor = n })
]

-- The answers to a sequence of requests.
unfoldable pub invoke_all :
    Python → ScriptedAgent → List AgentRequest → List (List AgentEvent × Bool) × ScriptedAgent
unfolding invoke
invoke_all py agent [] = ([], agent)
invoke_all py agent (request ∷ requests) =
    let now = invoke py agent request in
    let rest = invoke_all py now.1 requests in (now.0 ∷ rest.0, rest.1)
