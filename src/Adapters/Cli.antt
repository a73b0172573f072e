-- ===== src/Adapters/Cli.antt =====
-- src/testbed_adapters/agents/cli/adapter.py: what a command-line agent's process gives is turned
-- into events. The process, and the reading of a line of its output, are parameters.
use multi_agent_testbed.Base.{
  String, Bool, true, false, none, List, [], ◌∷◌, if◌then◌else◌, str_eq, ◌==◌, ℤ, pos, negsuc,
}
use multi_agent_testbed.Contracts.Enums.{error}
use multi_agent_testbed.Contracts.Events.{no_resources}
use multi_agent_testbed.Sdk.{AgentEvent}
use multi_agent_testbed.Packs.Python.{strip}
use Prim.Native.String

-- How the process ended: late, or with a return code, the beginning of what it wrote to stderr, and
-- the lines of its output.
pub data Ended : Type 0 where
  timed_out : Ended
  exited : ℤ → String → List String → Ended

pub record CliAgent : Type 0 where
  pub command : List String
  pub last_error : String

abbrev pub failure : String → AgentEvent
failure content = record {
  kind = error;
  content = content;
  recipients = [];
  action = [];
  tool_name = none;
  tool_args = [];
  resource_delta = no_resources;
  private = false;
}

-- What a line holds: no JSON, an object that is no agent event, where an exception ends the stream,
-- or an event. `decimal` writes a return code, `beginning` the first characters of a line.
pub data Line : Type 0 where
  not_json malformed : Line
  event : AgentEvent → Line

pub record Reading : Type 0 where
  pub parse : String → Line
  pub decimal : ℤ → String
  pub beginning : String → String

abbrev continued : AgentEvent → List AgentEvent × Bool → List AgentEvent × Bool
continued e rest = (e ∷ rest.0, rest.1)

-- The loop over the lines of the output.
unfoldable pub read_lines : Reading → List String → List AgentEvent × Bool
read_lines r [] = ([], false)
read_lines r (line ∷ lines) =
    let rest = read_lines r lines in
    let stripped = strip line in
    if str_eq stripped "" then rest else elim (r.parse stripped) [
      | not_json ↦
          continued (failure (String.◌++◌ "cli agent emitted non-JSON: " (r.beginning stripped)))
            rest
      | malformed ↦ ([], true)
      | event e ↦ continued e rest
    ]

abbrev has_succeeded : ℤ → Bool
has_succeeded (pos n) = n == 0
has_succeeded (negsuc n) = false

-- `CliAgent.invoke`: the events, whether an exception ends the stream, and the agent after it
unfoldable pub invoke : Reading → CliAgent → Ended → (List AgentEvent × Bool) × CliAgent
unfolding read_lines
invoke r agent timed_out =
    ((failure "cli agent timed out" ∷ [], false), record agent { last_error = "timeout" })
invoke r agent (exited code written lines) =
    if has_succeeded code then (read_lines r lines, agent) else (
      (
        failure (
              String.◌++◌ "cli agent exited "
                (String.◌++◌ (r.decimal code) (String.◌++◌ ": " written)))
            ∷ [],
        false,
      ),
      record agent { last_error = written },
    )

-- `health`
unfoldable pub is_healthy : CliAgent → Bool
is_healthy agent = str_eq agent.last_error ""
