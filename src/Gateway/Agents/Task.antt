-- ===== src/Gateway/Agents/Task.antt =====
-- The run of an agent's program: executeTask of
-- src/linksmart.eu/lc/core/cmd/device-gateway/agents_linux.go. What the operating system does is a
-- parameter. Bytes stand as texts. A write to a pipe waits while the pipe is full, and the output of
-- a program while it runs: either may never return.
use lslc_core.Common.{
  ℕ, String, Bool, true, false, List, [], ◌∷◌, Option, none, some, Result, ok, err, if◌then◌else◌,
  ◌==◌, ◌≡◌,
}
use lslc_core.Common.Words.{concat, trim_newlines}
use lslc_core.Gateway.{Agent}

-- An exec.Cmd before it is started: the program, its arguments and its directory.
pub record Command : Type 0 where
  pub program : String
  pub arguments : List String
  pub dir : String

-- What the gateway uses of the packages os, os/exec, io and time. An error stands as its text. The
-- result of a call that never returns is none.
pub record Os : Type 1 where
  pub State : Type 0
  pub Pipe : Type 0
  pub now : State → ℕ
  pub getwd : State → String
  pub stdin_pipe : Command → State → State × Result String Pipe
  pub write : Pipe → String → State → Option (State × Option String)
  pub output : Command → State → Option (State × Result String String)
  pub stdout_pipe : Command → State → State × Option String
  pub start : Command → State → State

-- AgentResponse; `cached` is in nanoseconds since the year 1, 0 for the zero time.
pub record AgentResponse : Type 0 where
  pub resource_id : String
  pub payload : String
  pub is_error : Bool
  pub cached : ℕ

-- An AgentResponse with the fields that a literal of the source gives.
abbrev pub error_response : String → String → AgentResponse
error_response id message = record {
  resource_id = id;
  payload = message;
  is_error = true;
  cached = 0;
}

module _ (o : Os) where
  -- The command of an agent.
  unfoldable pub command_of : Agent → o.State → Command
  command_of a s = record {
    program = "/bin/bash";
    arguments = "-c" ∷ a.exec ∷ [];
    dir = if a.dir == "" then o.getwd s else a.dir;
  }

  -- executeTask: the input is written before the program is started.
  unfoldable pub execute_task : String → Agent → String → o.State → Option (o.State × AgentResponse)
  unfolding command_of
  execute_task id a input s =
      let cmd = command_of a s in
      let (s1, opened) = o.stdin_pipe cmd s in
      elim opened [
        | err m ↦ some (s1, error_response id m)
        | ok writer ↦ elim (o.write writer (concat (input ∷ "\n" ∷ [])) s1) [
          | none ↦ none
          | some (s2, some m) ↦ some (s2, error_response id m)
          | some (s2, none) ↦ elim (o.output cmd s2) [
            | none ↦ none
            | some (s3, err m) ↦ some (s3, record (error_response id m) { cached = o.now s2 })
            | some (s3, ok text) ↦ some (
              s3,
              record {
                resource_id = id;
                payload = trim_newlines text;
                is_error = false;
                cached = o.now s2;
              },
            )
          ]
        ]
      ]

-- Every call of the operating system that the loop of the manager makes returns.
pub record IsReturning (o : Os) : Type 0 where
  pub written :
      (p : o.Pipe) (t : String) (s : o.State)
      → (r : o.State × Option String) × (o.write p t s ≡ some r)
  pub ran :
      (c : Command) (s : o.State) → (r : o.State × Result String String) × (o.output c s ≡ some r)
