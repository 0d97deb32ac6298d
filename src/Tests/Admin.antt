-- ===== src/Tests/Admin.antt =====
-- The admin API and the request schemas at concrete inputs.
use llm_gateway_fallback_rou.Base.{
  ◌+◌, ◌*◌, ◌≤◌, ◌≡◌, refl, true, false, none, some, List, [], ◌∷◌, arith, pos, All, member,
}
use llm_gateway_fallback_rou.Chains.{default_chain, find_chain}
use llm_gateway_fallback_rou.Providers.{total_chars}
use llm_gateway_fallback_rou.Reservation.{max_output}
use llm_gateway_fallback_rou.Ledger.{Store, answered, failed, ok, err, http}
use llm_gateway_fallback_rou.RateLimit.{TokenBucketLimiter, Buckets}
use llm_gateway_fallback_rou.RateLimit.Allowance.{last_at}
use llm_gateway_fallback_rou.Texts.{strip_left, strip_right, compare_digest}
use llm_gateway_fallback_rou.Gate.{Gate, missing, require_api_key}
use llm_gateway_fallback_rou.Gate.Keys.{Headers, extract_key, find_allowed}
use llm_gateway_fallback_rou.Admin.{
  ApiKeyRecord, Database, Turn, Request, create, revoke, create_key, revoke_key, find_row,
  end_transaction, is_valid_db_key, serve, serve_all,
}
use llm_gateway_fallback_rou.Admin.Table.{IsTable, serve_all-IsTable}
use llm_gateway_fallback_rou.Admin.Revocation.{with_table, revoked_for_good}
use llm_gateway_fallback_rou.Admin.Door.{Door, Attempt, looked_at, asks, guesses_bounds}
use llm_gateway_fallback_rou.Admin.Pages.{list_keys, by_newest}
use llm_gateway_fallback_rou.Schemas.{
  ChatCompletionRequest, one_text, is_completion_request, is_chat_message, cap_total_content,
  sampling_params, ignored_params,
}
use llm_gateway_fallback_rou.Schemas.Caps.{IsBoundedFor, accepted_worst_case}

abbrev turn : Turn
turn = record {
  request_id = "r1";
  admin_key = "admin";
  raw_key = "k7";
  new_id = 7;
  now = 50;
  query = answered;
  commit = answered;
}

abbrev nothing : Database
nothing = record { keys = []; events = [] }

nothing-IsTable : IsTable nothing
nothing-IsTable = record { distinct = tt; logged = tt; about = tt }

-- two keys, the second after a commit whose reply was lost, and a revocation
abbrev history : List Request
history =
    create turn "red"
    ∷ create (record turn { raw_key = "k8"; new_id = 8; now = 60; commit = failed true }) "blue"
    ∷ create (record turn { raw_key = "k7"; new_id = 9 }) "green"
    ∷ revoke turn 7
    ∷ []

serve_all-IsTable_example : IsTable (serve_all (λ k. k) history nothing)
serve_all-IsTable_example = serve_all-IsTable (λ k. k) history nothing nothing-IsTable

abbrev red : ApiKeyRecord
red = record { id = 7; key_hash = "k7"; team = "red"; created_at = 50; revoked = true }

abbrev blue : ApiKeyRecord
blue = record { id = 8; key_hash = "k8"; team = "blue"; created_at = 60; revoked = false }

after_history : (serve_all (λ k. k) history nothing).keys ≡ blue ∷ red ∷ []
unfolding serve_all serve create_key revoke_key find_row end_transaction
after_history = refl

second_page : list_keys (pos 1) (pos 1) (serve_all (λ k. k) history nothing) ≡ red ∷ []
unfolding list_keys by_newest serve_all serve create_key revoke_key find_row end_transaction
second_page = refl

-- a table with one key, and a gateway whose settings list it as well
abbrev one_key : Database
one_key = record {
  keys = record red { revoked = false } ∷ [];
  events =
      (record {
        request_id = "r0";
        action = "issued";
        key_id = 7;
        team = "red";
        admin_key_hash = "admin";
        created_at = 50;
      })
      ∷ [];
}

one_key-IsTable : IsTable one_key
one_key-IsTable = record {
  distinct = (refl, refl, tt);
  logged = ((refl, refl), tt);
  about = (refl, tt);
}

abbrev limiter : TokenBucketLimiter
limiter = record { capacity = 20; refill_rate = 1; hash_key = λ k. k }

abbrev gate : Gate
gate = record {
  env = record {
    wire = λ n. answered;
    time = λ n. 5000000;
    database = λ n. answered;
    hash_key = λ k. k;
    provider_lifetime_budget = 1200000000;
    monthly_budget_per_key = 1500000000;
    provider_retry_attempts = 1;
    strict_model_routing = false;
  };
  allowed = "k1" ∷ "k7" ∷ [];
  db_key = λ k. missing;
  limiter = limiter;
  now = 100;
  script = answered;
}

abbrev presents_k7 : Headers
presents_k7 = record { authorization = none; x_api_key = some " k7" }

abbrev after_revocation : Database
after_revocation = serve_all (λ k. k) history (revoke_key (λ k. k) turn 7 one_key).1

listed_key : require_api_key (with_table (λ k. k) after_revocation gate) presents_k7 ≡ ok "k7"
unfolding require_api_key extract_key strip_left strip_right find_allowed compare_digest
listed_key = refl

-- without the list, the same caller is refused
revoked_key :
    require_api_key
      (with_table (λ k. k) after_revocation (record gate { allowed = "k1" ∷ [] }))
      presents_k7
    ≡ err (http 401 "invalid API key")
unfolding require_api_key extract_key strip_left strip_right find_allowed compare_digest
    is_valid_db_key serve_all serve create_key revoke_key find_row end_transaction
revoked_key = refl

revoked_for_good_example : member "k7" ("k1" ∷ "k7" ∷ []) ≡ true
unfolding find_row revoke_key end_transaction
revoked_for_good_example =
    revoked_for_good (λ k. k) turn 7 (record red { revoked = false }) one_key history gate
      presents_k7 "k7" one_key-IsTable refl refl refl listed_key

abbrev door : Door
door = record { admin_api_key = some "admin"; limiter = limiter; script = answered }

abbrev start : Store
start = record {
  providers = λ p. pos 0;
  months = λ h m. pos 0;
  sent = 0;
  spent_gauge = λ p. pos 0;
  remaining_gauge = λ p. 0;
  leaked_key = 0;
  leaked_provider = 0;
  refused = [];
  requests = [];
  usage = [];
  audit = [];
  audit_writes = 0;
  unhandled = 0;
}

abbrev empty : Buckets
empty k = none

abbrev attempts : List Attempt
attempts =
    record { at = 100; header = some "guess" }
    ∷ record { at = 100; header = none }
    ∷ record { at = 103; header = some "admin" }
    ∷ []

guesses_bounds_example :
    looked_at door attempts empty start + 100 * 1 ≤ 20 + last_at 100 (asks attempts) * 1
guesses_bounds_example =
    guesses_bounds door 100 attempts empty start refl
      (omega arith, (omega arith, (omega arith, tt)))

abbrev request : ChatCompletionRequest
request = record {
  model = "smart";
  messages = record { role = "user"; content = "What is a ledger?" } ∷ [];
  stream = false;
  temperature = some 700;
  top_p = none;
  max_tokens = some 64;
  stop = some (one_text "END");
  model_fields_set = "messages" ∷ "model" ∷ "temperature" ∷ "max_tokens" ∷ "stop" ∷ [];
  model_extra = "seed" ∷ "n" ∷ [];
}

ignored_run : ignored_params request ≡ "n" ∷ "seed" ∷ []
unfolding ignored_params
ignored_run = refl

accepted_worst_case_example :
    All
      (IsBoundedFor (total_chars request.messages) (max_output (some (sampling_params request))))
      default_chain
unfolding is_completion_request is_chat_message cap_total_content total_chars find_chain
accepted_worst_case_example = accepted_worst_case request "fast" default_chain refl refl
