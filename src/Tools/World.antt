-- ===== src/Tools/World.antt =====
-- What the tools of cli/tools/executor.go use of the outside, whose state is of the type `W`: files,
-- commands, the store of the scheduled jobs, the servers of external tools, images and JSON.
use xclaw.Prelude.{ℕ, Bool, List, Option, String}
use xclaw.Prelude.Dict.{Dict}
use xclaw.Prelude.Result.{Result}
use xclaw.Scheduler.Job.{CronJob}

pub record SubagentInfo : Type 0 where
  pub id : String
  pub role : String
  pub workspace : String
  pub tools : List String
  pub status : String
  pub last_task : String
  pub last_result : String
  pub created_at : ℕ
  pub updated_at : ℕ

-- CronStore; an error is its text.
pub record CronStore (W : Type 0) : Type 0 where
  pub create_cron_job : CronJob → W → Option String × W
  pub update_cron_job : CronJob → W → Option String × W
  pub delete_cron_job : String → W → Option String × W
  pub list_cron_jobs : String → Bool → W → Result String (List CronJob)

-- An external tool, as its server lists it, with the names of its parameters.
pub record ToolInfo : Type 0 where
  pub full_name : String
  pub server_name : String
  pub description : String
  pub param_names : List String
  pub risk : String

pub record McpManager (W : Type 0) : Type 0 where
  pub list_tools : W → List ToolInfo
  pub call_tool : String → Dict String → W → Result String (ToolInfo × String) × W

-- The first image of the provider's answer.
pub record ImageData : Type 0 where
  pub b64_json : String
  pub url : String
  pub revised_prompt : String

pub record Outside (W : Type 0) : Type 0 where
  -- os.Getwd, os.ReadDir (names, and which are directories), os.ReadFile
  pub getwd : W → Option String
  pub read_dir : String → W → Result String (List (String × Bool))
  pub read_file : String → W → Result String String
  -- os.MkdirAll, os.WriteFile, appending to a file, os.RemoveAll
  pub mkdir_all : String → W → Option String × W
  pub write_file : String → String → W → Option String × W
  pub append_file : String → String → W → Option String × W
  pub remove_all : String → W → W
  -- the checks of a workspace: the report, where they block
  pub validate : String → W → Option String × W
  -- rg on a directory: its output, and its error
  pub ripgrep : String → String → W → String × Option String
  -- sandbox.Exec: standard output and standard error
  pub exec : Bool → String → String → List String → W → Result String (String × String) × W
  pub cron_store : Option (CronStore W)
  pub mcp : Option (McpManager W)
  -- the key in the environment, and the request for an image: `none` where no image came of it
  pub api_key : String
  pub request_image : Dict String → String → W → Option ImageData × W
  pub decode_base64 : String → Option String
  -- json.Marshal, and the time in a log's format
  pub object_json : List (String × String) → String
  pub subagent_json : SubagentInfo → String
  pub subagents_json : List SubagentInfo → String
  pub jobs_json : List CronJob → String
  pub timestamp : ℕ → String
