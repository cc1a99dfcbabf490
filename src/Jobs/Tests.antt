-- ===== src/Jobs/Tests.antt =====
-- The lists of jobs at concrete inputs.
use easy_cron.Prelude.{ℕ, true, false, String, none, [], ◌∷◌}
use easy_cron.Prelude.Int.{pos}
use easy_cron.Domain.{Job}
use easy_cron.Jobs.{Tables}
use easy_cron.Jobs.Lists.{JobFilter}

abbrev job : ℕ → String → Job
job i ns = record {
  id = i;
  namespace = ns;
  name = "report";
  enabled = true;
  schedule_id = i;
  delivery = record { webhook_url = "https://example.com"; secret = ""; timeout = pos 0 };
  analytics = record { enabled = false; retention_seconds = pos 0 };
  created_at = i;
  updated_at = i;
}

abbrev tables : Tables
tables = record {
  schedules = [];
  jobs = job 3 "a" ∷ job 1 "b" ∷ job 2 "a" ∷ [];
  tags = [];
  executions = [];
  attempts = [];
}

abbrev filter : JobFilter
filter = record {
  namespace = "a";
  tags = [];
  enabled = none;
  name = "";
  list_params = record { limit = pos 0; offset = pos 0 };
}
