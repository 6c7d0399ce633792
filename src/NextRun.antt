-- ===== src/NextRun.antt =====
-- pkg/models/job.go: when a job runs next. Cron schedules and time zones come from outside.
pub mod First
use scheduler.Base.{
  ℕ, zero, suc, ◌+◌, ◌-◌, ◌*◌, ◌<◌, Bool, true, false, ◌&&◌, ◌||◌, Option, none, some, ltb, leb,
  nat_beq, if◌then◌else◌, String,
}
use scheduler.Models.{Job}

-- A cron.Schedule with an activation within five years of every time, since Next of one without gives the
-- zero time. Its documentation: Next returns the next activation time, later than the given time. It
-- reckons in the zone of that time: `next zone t` for the instant `t` in the zone of that name.
pub record Schedule : Type 0 where
  pub next : String → ℕ → ℕ
  pub later : (zone : String) (t : ℕ) → t < next zone t

-- What the code calls: cron.Parse, time.LoadLocation (does the zone exist), the zone in which the times of
-- stored jobs and logs come, the clock, and the text of an execution id, a format of the project id, the
-- job id and two times. The readings of the clock in one run of a handler are taken to be the same.
pub record World : Type 0 where
  pub parse : String → Option Schedule
  pub has_location : String → Bool
  pub stored_zone : String
  pub now : ℕ
  pub id_text : ℕ → ℕ → ℕ → ℕ → String

abbrev pub second : ℕ
second = 1000000000

-- now.Sub(t).Round(time.Second) >= 0: halves round away from zero.
abbrev pub rounds_to_past : ℕ → ℕ → Bool
rounds_to_past now t = leb t now || ltb (2 * (t - now)) second

-- The `for` loop of GetNextExecutionTime; each round moves `t` on, so that `now - t` rounds do.
unfoldable pub advance : ℕ → (ℕ → ℕ) → ℕ → ℕ → ℕ
advance zero next now t = t
advance (suc rounds) next now t =
    let more = advance rounds next now (next t) in
    if rounds_to_past now t && ltb t now then more else t

-- ConvertTimeToJobTimezone: the same instant in the zone of the job, if it exists.
unfoldable pub convert_time_to_job_timezone : World → Job → ℕ → Option (String × ℕ)
convert_time_to_job_timezone w job t =
    if w.has_location job.timezone then some (job.timezone, t) else none

-- The instant from which the loop starts.
abbrev pub start_of : Job → ℕ
start_of job =
    if nat_beq job.last_execution_date 0 then job.date_created else job.last_execution_date

abbrev pub advance_from : World → Option Schedule → Option (String × ℕ) → Option ℕ
advance_from w none t = none
advance_from w (some s) none = none
advance_from w (some s) (some (zone, t)) = some (advance (w.now - t) (s.next zone) w.now t)

-- GetNextExecutionTime; `none` is an error.
unfoldable pub get_next_execution_time : World → Job → Option ℕ
unfolding advance convert_time_to_job_timezone
get_next_execution_time w job =
    advance_from w (w.parse job.spec) (convert_time_to_job_timezone w job (start_of job))

abbrev pub id_or_empty : World → Job → Option ℕ → String
id_or_empty w job none = ""
id_or_empty w job (some t) = w.id_text job.project_id job.id job.last_execution_date t

-- GetNextExecutionId. Its error is always nil: where the time is an error, the id is empty.
unfoldable pub get_next_execution_id : World → Job → String
unfolding get_next_execution_time
get_next_execution_id w job = id_or_empty w job (get_next_execution_time w job)
