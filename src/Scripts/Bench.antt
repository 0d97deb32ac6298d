-- ===== src/Scripts/Bench.antt =====
-- scripts/bench_overhead.py: which Redis the benchmark writes to, its samples, its percentiles and
-- its exit codes. The times and the statuses of the requests are given; printing is left out. A URL
-- is taken to have no line break at its end.
use Prim.Native.Char.{code}
use llm_gateway_fallback_rou.Base.{
  ℕ, zero, suc, ◌+◌, ◌-◌, ◌*◌, ◌/◌, String, Bool, true, false, not, ◌&&◌, ◌||◌, Option, none, some,
  List, [], ◌∷◌, ◌==◌, ltb, leb, str_eq, if◌then◌else◌, ℤ, pos, pos_part, ltb_ℤ, min, length,
}
use llm_gateway_fallback_rou.Chains.{is_routable}
use llm_gateway_fallback_rou.Texts.{is_blank, strip, glue}
pub mod Scratch
pub mod Samples
pub mod Configured

abbrev pub is_digit : ℕ → Bool
is_digit c = leb 48 c && leb c 57

-- `\d*$`
unfoldable pub all_digits : String → Bool
all_digits String.[] = true
all_digits (String.◌∷◌ c s) = let rest = all_digits s in if is_digit (code c) then rest else false

-- the text before the first match of `/\d+$`
unfoldable pub cut_index : String → Option String
unfolding all_digits
cut_index String.[] = none
cut_index (String.◌∷◌ c s) =
    let rest = cut_index s in
    if code c == b'/' && (not (is_blank s) && all_digits s)
    then some String.[]
    else elim rest [ some p ↦ some (String.◌∷◌ c p) | none ↦ none ]

-- `s.rstrip("/")`
unfoldable pub strip_slashes : String → String
strip_slashes String.[] = String.[]
strip_slashes (String.◌∷◌ c s) =
    let rest = strip_slashes s in
    if code c == b'/' && is_blank rest then String.[] else String.◌∷◌ c rest

-- `_scratch_redis_url`, with `_SCRATCH_DB`
unfoldable pub scratch_redis_url : String → String
unfolding cut_index strip_slashes
scratch_redis_url url = elim (cut_index url) [
  | some server ↦ glue server "/14"
  | none ↦ glue (strip_slashes url) "/14"
]

-- `_positive_int`, on a number that was read; `none` is the ArgumentTypeError
unfoldable pub positive_int : ℤ → Option ℕ
positive_int value = if ltb_ℤ value (pos 1) then none else some (pos_part value)

-- A driven request: its status, and the time that it took.
pub record Sample : Type 0 where
  pub status : ℕ
  pub time : ℕ

-- `samples.append` over the measured requests; `none` is the RuntimeError
unfoldable pub collect : (ℕ → Sample) → ℕ → Option (List ℕ)
collect drive zero = some []
collect drive (suc n) =
    let rest = collect drive n in
    if (drive n).status == 200
    then elim rest [ some times ↦ some ((drive n).time ∷ times) | none ↦ none ]
    else none

unfoldable pub insert_time : ℕ → List ℕ → List ℕ
insert_time x [] = x ∷ []
insert_time x (y ∷ ys) = let rest = insert_time x ys in if leb x y then x ∷ y ∷ ys else y ∷ rest

-- `samples.sort()`
unfoldable pub sort_times : List ℕ → List ℕ
unfolding insert_time
sort_times [] = []
sort_times (x ∷ xs) = insert_time x (sort_times xs)

abbrev pub get_time : List ℕ → ℕ → Option ℕ
get_time [] i = none
get_time (x ∷ xs) zero = some x
get_time (x ∷ xs) (suc i) = get_time xs i

-- `_pct`, for a share in hundredths; `none` is the IndexError
unfoldable pub pct : List ℕ → ℕ → Option ℕ
pct samples p = get_time samples (min (length samples - 1) (length samples * p / 100))

-- the endpoints, in the order in which they are driven
abbrev pub endpoints : List String
endpoints = "/v1/chat" ∷ "/v1/chat/stream" ∷ "/v1/chat/completions" ∷ []

-- `_measure`, after the warm-ups
unfoldable pub measure : (String → ℕ → Sample) → ℕ → List String → Option (List (String × List ℕ))
unfolding collect sort_times
measure drive requests [] = some []
measure drive requests (e ∷ es) = elim (collect (drive e) requests) [
  | none ↦ none
  | some times ↦ elim (measure drive requests es) [
    | none ↦ none
    | some results ↦ some ((e, sort_times times) ∷ results)
  ]
]

-- the medians, which the tables and the deltas read; `none` is the IndexError
unfoldable pub medians : List (String × List ℕ) → Option (List ℕ)
unfolding pct
medians [] = some []
medians ((e, samples) ∷ rest) = elim (pct samples 50) [
  | none ↦ none
  | some t ↦ elim (medians rest) [ none ↦ none | some ts ↦ some (t ∷ ts) ]
]

-- whether a delta is negative
abbrev pub implausible : List ℕ → List ℕ → Bool
implausible (b ∷ bs) (f ∷ fs) = ltb b f || implausible bs fs
implausible bs fs = false

-- the comparison with the free chain
abbrev pub compare_chains : Option (List ℕ) → Option (List ℕ) → Option ℕ
compare_chains (some billable) (some free) = some (if implausible billable free then 3 else 0)
compare_chains billable free = none

-- `_FREE_CHAIN`
abbrev pub free_chain : String
free_chain = "local"

-- whether each chain is in FALLBACK_CHAINS
abbrev pub all_known : String → Bool → Bool
all_known chain against_free = is_routable chain && (not against_free || is_routable free_chain)

-- `_run`, by its exit code; `none` is an exception
unfoldable pub run_bench : Bool → (String → String → ℕ → Sample) → ℕ → String → Bool → Option ℕ
unfolding measure medians is_routable
run_bench reachable drive requests chain against_free =
    if not reachable
    then some 2
    else if not (all_known chain against_free)
    then some 1
    else elim (measure (drive chain) requests endpoints) [
      | none ↦ some 1
      | some billable ↦
          if against_free
          then elim (measure (drive free_chain) requests endpoints) [
            | none ↦ some 1
            | some free ↦ compare_chains (medians billable) (medians free)
          ]
          else elim (medians billable) [ none ↦ none | some ts ↦ some 0 ]
    ]
