-- ===== src/Tools/CronTools.antt =====
-- The tools on scheduled jobs (cli/tools/executor.go): `addCronJob`, `listCronJobs`, `removeCronJob`
-- and `updateCronJob`.
use xclaw.Prelude.{
  ℕ, Bool, true, false, ◌||◌, not, List, [], ◌∷◌, Option, none, some, String, str_eq, show_decimal,
  ◌<>◌, if◌then◌else◌,
}
use xclaw.Prelude.Dict.{Dict}
use xclaw.Prelude.Int.{ℤ, pos, negsuc}
use xclaw.Prelude.Parse.{atoi}
use xclaw.Prelude.Result.{Result, ok, err, ◌>>=◌}
use xclaw.Scheduler.Job.{CronJob}
use xclaw.Tools.World.{Outside, CronStore}
use xclaw.Tools.Result.{trimmed_param, or_else}
use xclaw.Tools.Executor.{Executor, require}
use xclaw.Tools.Subagents.{named_id}

abbrev not_configured : String
not_configured = "cron store not configured"

-- A number that is given and not negative.
abbrev retry_limit_or : ℤ → Option ℤ → ℤ
retry_limit_or old none = old
retry_limit_or old (some (negsuc n)) = old
retry_limit_or old (some (pos n)) = pos n

abbrev agent_of : Executor → Dict String → String
agent_of e params = or_else (trimmed_param params "agent_id") e.cron_agent_id

-- A field takes the value that is given, if one is.
abbrev given_or : Dict String → String → String → String
given_or params key old = or_else (trimmed_param params key) old

-- The job that add_cron_job makes, by its checks in their order.
unfoldable pub checked_job : (ℕ → ℕ) → Executor → Dict String → Result String CronJob
checked_job now e params =
    let name = trimmed_param params "name" in
    let schedule = trimmed_param params "schedule" in
    let payload = or_else (trimmed_param params "payload") (trimmed_param params "message") in
    let agent_id = agent_of e params in
    require (not (str_eq name "")) "name is required" >>= λ _.
    require (not (str_eq schedule "")) "schedule is required" >>= λ _.
    require (not (str_eq payload "")) "payload is required" >>= λ _.
    require (not (str_eq agent_id "")) "agent_id not set" >>= λ _. ok (record {
      id = "cron_" <> show_decimal (now 2);
      agent_id = agent_id;
      name = name;
      schedule = schedule;
      schedule_type = given_or params "schedule_type" "cron";
      job_type = given_or params "job_type" "message";
      payload = payload;
      execution_mode = given_or params "execution_mode" "main";
      session_id = trimmed_param params "session_id";
      target_channel = trimmed_param params "target_channel";
      priority = given_or params "priority" "normal";
      enabled = true;
      retry_limit = retry_limit_or (pos 3) (atoi (trimmed_param params "retry_limit"));
      last_run_at = none;
      next_run_at = none;
      last_status = "";
      last_error = "";
      created_at = now 3;
      updated_at = now 4;
    })

unfoldable pub find_job : String → List CronJob → Result String CronJob
find_job id [] = err "cron job not found"
find_job id (job ∷ jobs) = let rest = find_job id jobs in if str_eq job.id id then ok job else rest

abbrev enabled_or : String → Bool → Bool
enabled_or v old = if str_eq v "true" then true else if str_eq v "false" then false else old

-- The fields that update_cron_job replaces.
unfoldable pub updated_job : ℕ → Dict String → CronJob → CronJob
updated_job now params job = record job {
  name = given_or params "name" job.name;
  schedule = given_or params "schedule" job.schedule;
  schedule_type = given_or params "schedule_type" job.schedule_type;
  payload = given_or params "payload" job.payload;
  execution_mode = given_or params "execution_mode" job.execution_mode;
  priority = given_or params "priority" job.priority;
  enabled = enabled_or (trimmed_param params "enabled") job.enabled;
  retry_limit = retry_limit_or job.retry_limit (atoi (trimmed_param params "retry_limit"));
  updated_at = now;
}

abbrev checked_id : Dict String → Result String String
checked_id params =
    let id = named_id params "cron_id" in
    require (not (str_eq id "")) "id is required" >>= λ _. ok id

module _ {W : Type 0} (out : Outside W) (now : ℕ → ℕ) where
  abbrev answered : List (String × String) → Option String × W → Result String String × W
  answered fields (none, w) = (ok (out.object_json fields), w)
  answered fields (some error, w) = (err error, w)

  abbrev created : CronStore W → Result String CronJob → W → Result String String × W
  created store (err error) w = (err error, w)
  created store (ok job) w =
      answered
        (("id", job.id)
          ∷ ("name", job.name)
          ∷ ("schedule", job.schedule)
          ∷ ("status", "created")
          ∷ [])
        (store.create_cron_job job w)

  unfoldable pub add_cron_job : Executor → Dict String → W → Result String String × W
  unfolding checked_job
  add_cron_job e params w = elim out.cron_store [
    | none ↦ (err not_configured, w)
    | some store ↦ created store (checked_job now e params) w
  ]

  unfoldable pub list_cron_jobs : Executor → Dict String → W → Result String String
  list_cron_jobs e params w = elim out.cron_store [
    | none ↦ err not_configured
    | some store ↦
        let only = trimmed_param params "enabled_only" in
        store.list_cron_jobs (agent_of e params) (str_eq only "true" || str_eq only "1") w
        >>= λ jobs. ok (out.jobs_json jobs)
  ]

  abbrev removed : CronStore W → Result String String → W → Result String String × W
  removed store (err error) w = (err error, w)
  removed store (ok id) w =
      answered (("id", id) ∷ ("status", "removed") ∷ []) (store.delete_cron_job id w)

  unfoldable pub remove_cron_job : Dict String → W → Result String String × W
  remove_cron_job params w = elim out.cron_store [
    | none ↦ (err not_configured, w)
    | some store ↦ removed store (checked_id params) w
  ]

  abbrev updated : CronStore W → Dict String → Result String CronJob → W → Result String String × W
  updated store params (err error) w = (err error, w)
  updated store params (ok job) w =
      let job' = updated_job (now 2) params job in
      answered (("id", job'.id) ∷ ("name", job'.name) ∷ ("status", "updated") ∷ [])
        (store.update_cron_job job' w)

  unfoldable pub update_cron_job : Executor → Dict String → W → Result String String × W
  unfolding find_job updated_job
  update_cron_job e params w = elim out.cron_store [
    | none ↦ (err not_configured, w)
    | some store ↦
        updated store params
          (checked_id params >>= λ id.
            store.list_cron_jobs (agent_of e params) false w >>= λ jobs. find_job id jobs)
          w
  ]
