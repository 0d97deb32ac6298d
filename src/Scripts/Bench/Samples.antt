-- ===== src/Scripts/Bench/Samples.antt =====
-- The benchmark reads no percentile of an empty sample.
use llm_gateway_fallback_rou.Base.{
  ℕ, zero, suc, ◌-◌, ◌*◌, ◌/◌, ◌≤◌, ◌<◌, String, ◌≡◌, ◌≢◌, refl, sym, subst, ◌∙◌, ℤ, Bool, true,
  min, Option, none, some, List, [], ◌∷◌, length, arith, All, Option-cases, Bool-cases, inl, inr,
}
use llm_gateway_fallback_rou.Scripts.Bench.{
  Sample, collect, insert_time, sort_times, get_time, pct, measure, medians, compare_chains,
  endpoints, free_chain, all_known, positive_int, run_bench,
}

insert_time-length : (x : ℕ) (xs : List ℕ) → length (insert_time x xs) ≡ suc (length xs)
unfolding insert_time
insert_time-length x [] = refl
insert_time-length x (y ∷ ys) = ground (arith, insert_time-length x ys)

sort_times-length : (xs : List ℕ) → length (sort_times xs) ≡ length xs
unfolding sort_times
sort_times-length [] = refl
sort_times-length (x ∷ xs) =
    omega (arith, insert_time-length x (sort_times xs), sort_times-length xs)

collect-length :
    (drive : ℕ → Sample) (n : ℕ) (times : List ℕ) → collect drive n ≡ some times → length times ≡ n
unfolding collect
collect-length drive zero times e = ground (arith, e)
collect-length drive (suc n) times e = elim (Option-cases (collect drive n)) [
  | inl none_left ↦ ground (arith, e, none_left)
  | inr (rest, got) ↦ ground (arith, e, got, collect-length drive n rest got)
]

get_time_some : (xs : List ℕ) (i : ℕ) → i < length xs → get_time xs i ≢ none
get_time_some [] i h = absurd (omega (arith, h))
get_time_some (x ∷ xs) zero h = λ e. cc e
get_time_some (x ∷ xs) (suc i) h = get_time_some xs i (omega (arith, h))

pct_some : (xs : List ℕ) (p : ℕ) → 1 ≤ length xs → pct xs p ≢ none
unfolding pct
pct_some xs p h = get_time_some xs (min (length xs - 1) (length xs * p / 100)) (omega (arith, h))

abbrev IsSampled : ℕ → String × List ℕ → Type 0
IsSampled n (e, xs) = length xs ≡ n

get-some : {A : Type 0} (x : Option A) → x ≢ none → (a : A) × (x ≡ some a)
get-some x h = elim (Option-cases x) [ inl e ↦ absurd (h e) | inr (a, e) ↦ (a, e) ]

module _ (drive : String → ℕ → Sample) (requests : ℕ) where
  measure-All :
      (es : List String) (results : List (String × List ℕ))
      → measure drive requests es ≡ some results
      → All (IsSampled requests) results
  unfolding measure
  measure-All [] results e = let same : [] ≡ results = cc e in rw (sym same) tt
  measure-All (x ∷ es) results e = elim (Option-cases (collect (drive x) requests)) [
    | inl failed ↦ cc (rw (failed, measure) at e)
    | inr (times, got) ↦ elim (Option-cases (measure drive requests es)) [
      | inl failed ↦ cc (rw (got, failed, measure) at e)
      | inr (rest, more) ↦
          let same : ((x, sort_times times) ∷ rest) ≡ results = cc (rw (got, more, measure) at e) in
          subst (All (IsSampled requests)) same (
            sort_times-length times ∙ collect-length (drive x) requests times got,
            measure-All es rest more,
          )
    ]
  ]

medians_some :
    (requests : ℕ) (results : List (String × List ℕ))
    → 1 ≤ requests
    → All (IsSampled requests) results
    → medians results ≢ none
unfolding medians
medians_some n [] h all = λ e. cc e
medians_some n ((x, samples) ∷ rest) h all =
    let (t, a) = get-some (pct samples 50) (pct_some samples 50 (omega (arith, all.0, h))) in
    let (ts, b) = get-some (medians rest) (medians_some n rest h all.1) in
    rw (a, b, medians) (λ e. cc e)

compared_some :
    (billable free : Option (List ℕ))
    → billable ≢ none
    → free ≢ none
    → compare_chains billable free ≢ none
compared_some none free b f = absurd (b refl)
compared_some (some bs) none b f = absurd (f refl)
compared_some (some bs) (some fs) b f = λ e. cc e

-- the medians of what was measured
measured :
    (drive : String → ℕ → Sample) (n : ℕ) (results : List (String × List ℕ))
    → 1 ≤ n
    → measure drive n endpoints ≡ some results
    → medians results ≢ none
measured drive n results least e =
    medians_some n results least (measure-All drive n endpoints results e)

-- reachable, on chains that exist
running :
    (drive : String → String → ℕ → Sample) (n : ℕ) (chain : String) (against_free : Bool)
    → 1 ≤ n
    → all_known chain against_free ≡ true
    → run_bench true drive n chain against_free ≢ none
unfolding run_bench
running drive n chain against_free least known =
    elim (Option-cases (measure (drive chain) n endpoints)) [
      | inl failed ↦ rw (known, failed, run_bench) (λ e. cc e)
      | inr (billable, got) ↦ elim (Bool-cases against_free) [
        | inr alone ↦
            let (ts, a) =
              get-some (medians billable) (measured (drive chain) n billable least got) in
            rw (known, got, alone, a, run_bench) (λ e. cc e)
        | inl both ↦ elim (Option-cases (measure (drive free_chain) n endpoints)) [
          | inl failed ↦ rw (known, got, both, failed, run_bench) (λ e. cc e)
          | inr (free, more) ↦
              rw (known, got, both, more, run_bench)
                (compared_some (medians billable) (medians free)
                  (measured (drive chain) n billable least got)
                  (measured (drive free_chain) n free least more))
        ]
      ]
    ]

-- With at least one request per endpoint, which is what the parser of the arguments accepts, the
-- benchmark ends with an exit code, whatever the requests answer and however long they take: it
-- reads no percentile of an empty sample.
pub run_bench_total :
    (value : ℤ) (requests : ℕ) (reachable : Bool) (drive : String → String → ℕ → Sample)
    (chain : String) (against_free : Bool)
    → positive_int value ≡ some requests
    → run_bench reachable drive requests chain against_free ≢ none
unfolding run_bench positive_int
run_bench_total value n reachable drive chain against_free e =
    let least : 1 ≤ n = ground (arith, e) in
    elim (Bool-cases reachable) [
      | inr down ↦ rw (down, run_bench) (λ e. cc e)
      | inl up ↦ elim (Bool-cases (all_known chain against_free)) [
        | inr unknown ↦ rw (up, unknown, run_bench) (λ e. cc e)
        | inl known ↦ rw up (running drive n chain against_free least known)
      ]
    ]
