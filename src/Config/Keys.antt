-- ===== src/Config/Keys.antt =====
-- What the settings keep of the keys that an operator writes.
use Prim.Native.Char.{code}
use llm_gateway_fallback_rou.Base.{
  ℕ, ◌≤◌, String, ◌≡◌, refl, sym, ap, ◌∙◌, false, Option, none, some, List, [], ◌∷◌, ◌==◌, All,
  arith, Bool-cases, inl, inr,
}
use llm_gateway_fallback_rou.Providers.{len}
use llm_gateway_fallback_rou.Texts.{is_blank, strip, strip_left, strip_right, split_on, glue}
use llm_gateway_fallback_rou.Config.{
  has_placeholder_run, min_plausible_key_length, blank_out_placeholder_keys, keep_stripped, comma,
  split_list,
}

abbrev pub Lacks : ℕ → String → Type 0
Lacks sep String.[] = Unit
Lacks sep (String.◌∷◌ c s) = ((code c == sep) ≡ false) × Lacks sep s

-- A key as it is kept: not empty, without a comma, and without space around it.
abbrev pub IsKey : String → Type 0
IsKey k = (is_blank k ≡ false) × Lacks comma k × (strip k ≡ k)

-- the keys with commas between them
abbrev pub joined : List String → String
joined [] = ""
joined (k ∷ []) = k
joined (k ∷ ks) = glue k (glue "," (joined ks))

split_on-glue :
    (sep : ℕ) (w t : String) (rest : List String)
    → Lacks sep w
    → split_on sep t ≡ String.[] ∷ rest
    → split_on sep (glue w t) ≡ w ∷ rest
unfolding split_on
split_on-glue sep String.[] t rest lacks e = e
split_on-glue sep (String.◌∷◌ c w) t rest lacks e =
    rw (lacks.0, split_on) (rw (split_on-glue sep w t rest lacks.1 e) refl)

glue-nil : (w : String) → glue w String.[] ≡ w
glue-nil String.[] = refl
glue-nil (String.◌∷◌ c w) = ap (String.◌∷◌ c) (glue-nil w)

split_on_one : (k : String) → Lacks comma k → split_on comma k ≡ k ∷ []
unfolding split_on
split_on_one k lacks =
    ap (split_on comma) (sym (glue-nil k)) ∙ split_on-glue comma k String.[] [] lacks refl

split_on-joined :
    (k : String) (ks : List String) → All IsKey (k ∷ ks) → split_on comma (joined (k ∷ ks)) ≡ k ∷ ks
unfolding split_on
split_on-joined k [] keys = split_on_one k keys.0.1
split_on-joined k (j ∷ ks) keys =
    split_on-glue comma k (glue "," (joined (j ∷ ks))) (j ∷ ks) keys.0.1
      (ap (λ ws. String.[] ∷ ws) (split_on-joined j ks keys.1))

keep_stripped_keys : (ks : List String) → All IsKey ks → keep_stripped ks ≡ ks
unfolding keep_stripped
keep_stripped_keys [] keys = refl
keep_stripped_keys (k ∷ ks) keys =
    rw (keys.0.2, keep_stripped) (rw keys.0.0 (ap (λ ws. k ∷ ws) (keep_stripped_keys ks keys.1)))

-- Any list of keys, each without a comma, not empty and without space around it, is read back
-- from the setting that holds them with commas between.
pub split_list-joined : (ks : List String) → All IsKey ks → split_list (joined ks) ≡ ks
unfolding split_list keep_stripped split_on strip_left strip_right
split_list-joined [] keys = refl
split_list-joined (k ∷ ks) keys =
    ap keep_stripped (split_on-joined k ks keys) ∙ keep_stripped_keys (k ∷ ks) keys

abbrev pub NotBlank : String → Type 0
NotBlank k = is_blank k ≡ false

keep_stripped-NotBlank : (ks : List String) → All NotBlank (keep_stripped ks)
unfolding keep_stripped
keep_stripped-NotBlank [] = tt
keep_stripped-NotBlank (k ∷ ks) = elim (Bool-cases (is_blank (strip k))) [
  | inl blank ↦ rw (blank, keep_stripped) (keep_stripped-NotBlank ks)
  | inr some_text ↦ rw (some_text, keep_stripped) (some_text, keep_stripped-NotBlank ks)
]

-- Whatever the setting holds, no key that is kept is empty.
pub split_list-NotBlank : (s : String) → All NotBlank (split_list s)
unfolding split_list
split_list-NotBlank s = keep_stripped-NotBlank (split_on comma s)

-- A provider key that is kept is the key that was written, long enough, and no placeholder.
pub kept_key :
    (value : Option String) (key : String)
    → blank_out_placeholder_keys value ≡ some key
    → (value ≡ some key)
      × (min_plausible_key_length ≤ len key)
      × (has_placeholder_run 0 key ≡ false)
unfolding blank_out_placeholder_keys
kept_key none key e = cc e
kept_key (some value) key e = ground (arith, e)
