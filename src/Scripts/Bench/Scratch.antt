-- ===== src/Scripts/Bench/Scratch.antt =====
-- The index of a Redis URL, as the benchmark swaps it.

use llm_gateway_fallback_rou.Base.{String, ◌≡◌, refl, true, false, some, arith}
use llm_gateway_fallback_rou.Texts.{is_blank, glue}
use llm_gateway_fallback_rou.Scripts.Bench.{all_digits, cut_index, scratch_redis_url}

-- a slash is no digit
slash_inside : (s digits : String) → all_digits (glue s (glue "/" digits)) ≡ false
unfolding all_digits
slash_inside String.[] digits = ground arith
slash_inside (String.◌∷◌ c s) digits = ground (arith, slash_inside s digits)

cut_index-index :
    (s digits : String)
    → all_digits digits ≡ true
    → is_blank digits ≡ false
    → cut_index (glue s (glue "/" digits)) ≡ some s
unfolding cut_index
cut_index-index String.[] digits d b = ground (arith, d, b)
cut_index-index (String.◌∷◌ c s) digits d b =
    ground (arith, slash_inside s digits, cut_index-index s digits d b)

-- A URL that ends in a slash and the index of a database becomes the same with the index 14.
pub scratch_redis_url_lem :
    (server digits : String)
    → all_digits digits ≡ true
    → is_blank digits ≡ false
    → scratch_redis_url (glue server (glue "/" digits)) ≡ glue server "/14"
unfolding scratch_redis_url
scratch_redis_url_lem server digits d b =
    rw (cut_index-index server digits d b, scratch_redis_url) refl
