-- ===== src/Tests/Scripts.antt =====
-- The operator's tools at concrete inputs.
use llm_gateway_fallback_rou.Base.{
  ℕ, ◌+◌, ◌≤◌, ◌≡◌, refl, String, some, none, ◌↔◌, ◌⊎◌, false, true, List, [], ◌∷◌, pos, ◌-ℤ◌,
  str_eq, if◌then◌else◌,
}
use llm_gateway_fallback_rou.Chains.{billable_providers}
use llm_gateway_fallback_rou.Ledger.{Env, Store, AuditRow, answered, failed, ok}
use llm_gateway_fallback_rou.ProviderBudget.{snapshot}
use llm_gateway_fallback_rou.Wiring.{find_name}
use llm_gateway_fallback_rou.Admin.Pages.{AuditLogEntry}
use llm_gateway_fallback_rou.Scripts.Reconcile.{
  reconcile, Agree, reconcile_lem, worst_gap, audit_total,
}
use llm_gateway_fallback_rou.Texts.{strip_left, strip_right}
use llm_gateway_fallback_rou.Chains.{is_routable, find_chain}
use llm_gateway_fallback_rou.Scripts.Bench.{
  all_digits, cut_index, strip_slashes, scratch_redis_url, Sample, collect, insert_time, sort_times,
  pct, measure, medians, run_bench,
}
use llm_gateway_fallback_rou.Scripts.Bench.Configured.{
  configured_redis_url, url_of_lines, before_sign, after_sign, unquote_left, unquote_right,
}
use llm_gateway_fallback_rou.Scripts.Purge.{Run, purge, count, purge-IsKept}

abbrev calm : Env
calm = record {
  wire = λ n. answered;
  time = λ n. 5000000;
  database = λ n. answered;
  hash_key = λ k. k;
  provider_lifetime_budget = 1200000000;
  monthly_budget_per_key = 1500000000;
  provider_retry_attempts = 1;
  strict_model_routing = false;
}

abbrev paid : AuditRow
paid = record {
  outcome = "success";
  provider = "openai";
  input_tokens = 40;
  output_tokens = 9;
  cost_usd = 3420;
}

-- the ledger holds a reservation that the audit log does not know
abbrev stranded : Store
stranded = record {
  providers = λ p. if str_eq p "openai" then pos 7000 else pos 0;
  months = λ h m. pos 0;
  sent = 0;
  spent_gauge = λ p. pos 0;
  remaining_gauge = λ p. 0;
  leaked_key = 0;
  leaked_provider = 0;
  refused = [];
  requests = [];
  usage = [];
  audit = paid ∷ [];
  audit_writes = 1;
  unhandled = 0;
}

gap_found : (reconcile calm answered 3000 stranded).0 ≡ ok 1
unfolding reconcile snapshot billable_providers worst_gap audit_total find_name ◌-ℤ◌
gap_found = refl

unreadable : (reconcile (record calm { wire = λ n. failed false }) answered 3000 stranded).0 ≡ ok 2
unfolding reconcile snapshot billable_providers
unreadable = refl

reconcile_lem_example :
    (code : ℕ) × ((reconcile calm answered 3000 stranded).0 ≡ ok code)
    × ((code ≡ 0) ↔ Agree 3000 stranded billable_providers)
    × ((code ≡ 0) ⊎ (code ≡ 1))
reconcile_lem_example = reconcile_lem calm (λ n. refl) 3000 stranded

abbrev entry : AuditLogEntry
entry = record {
  created_at = 5;
  request_id = "client-hung-up";
  api_key_hash = "h";
  team = "";
  requested_model = "fast";
  provider = "openai";
  outcome = "success";
  input_tokens = 1;
  output_tokens = 1;
  cost_usd = 225;
  latency_ms = 3;
}

abbrev log : List AuditLogEntry
log = entry ∷ record entry { request_id = "r9" } ∷ entry ∷ []

-- one more row with the id arrives between the query and the deletion
abbrev run : Run
run = record {
  query = answered;
  write = answered;
  reads_back = true;
  meanwhile = record entry { created_at = 6 } ∷ [];
  commit = answered;
}

-- that row is removed, and the file has no copy of it
removed_uncopied :
    let left = purge run "client-hung-up" true log in
    (left.rows ≡ record entry { request_id = "r9" } ∷ []) × (left.exported ≡ entry ∷ entry ∷ [])
unfolding purge
removed_uncopied = (refl, refl)

purge-IsKept_example :
    let left = purge run "client-hung-up" true log in
    count (λ row. str_eq row.team "") log
    ≤ count (λ row. str_eq row.team "") left.rows + count (λ row. str_eq row.team "") left.exported
purge-IsKept_example = purge-IsKept run "client-hung-up" true log (λ row. str_eq row.team "")

-- the URL of .env, under its own database
env_file_read :
    scratch_redis_url (
      configured_redis_url none
        (some ("# REDIS" ∷ "REDIS_URL = 'redis://cache:6379/0'" ∷ "REDIS_URL=second" ∷ [])))
    ≡ "redis://cache:6379/14"
unfolding scratch_redis_url cut_index all_digits configured_redis_url url_of_lines before_sign
    after_sign unquote_left unquote_right strip_left strip_right
env_file_read = refl

-- the index of a URL that goes on after it stays, and 14 is appended
query_kept : scratch_redis_url "redis://cache/0?client_name=a" ≡ "redis://cache/0?client_name=a/14"
unfolding scratch_redis_url cut_index all_digits strip_slashes
query_kept = refl

-- the second chain is faster on one endpoint, which disproves the measurement
abbrev noisy : String → String → ℕ → Sample
noisy chain endpoint n = record { status = 200; time = if str_eq chain "local" then 9 else n }

noise_found : run_bench true noisy 3 "smart" true ≡ some 3
unfolding run_bench measure collect sort_times insert_time medians pct is_routable find_chain
noise_found = refl
