-- ===== src/Account.antt =====
-- What either ledger of app/budget promises its requests: an account with a limit, which any
-- number of requests claim from, and the moves that keep it within the limit.
use llm_gateway_fallback_rou.Base.{
  ℕ, ◌+◌, ◌≤◌, ◌≡◌, refl, Bool, true, false, List, [], ◌∷◌, ◌++◌, ℤ, pos, ◌+ℤ◌, leb_ℤ, arith,
  int_laws, parts_of_eq, ap, leb→le,
}

-- A request after its claim of an amount: served or being served, or about to hand it back.
pub data Phase : Type 0 where
  admitted refused : ℕ → Phase

abbrev pub phase_of : Bool → ℕ → Phase
phase_of true w = admitted w
phase_of false w = refused w

pub record Account : Type 0 where
  pub total : ℤ
  pub requests : List Phase
  pub spent : ℕ  -- the real cost of the settled requests, and what was spent before

-- whether a claim that raises the total to this is let through
abbrev pub fits : ℕ → ℤ → Bool
fits limit total = leb_ℤ total (pos limit)

pub data Move (limit : ℕ) (a : Account) : Account → Type 0 where
  grant :
      (w : ℕ) (total : ℤ)
      → total ≡ a.total +ℤ pos w
      → Move limit a (record {
        total = total;
        requests = phase_of (fits limit (a.total +ℤ pos w)) w ∷ a.requests;
        spent = a.spent;
      })
  release :
      (before after : List Phase) (w : ℕ) (total : ℤ)
      → a.requests ≡ before ++ (refused w ∷ after)
      → total +ℤ pos w ≡ a.total
      → Move limit a (record { total = total; requests = before ++ after; spent = a.spent })
  conclude :
      (before after : List Phase) (w actual : ℕ) (total : ℤ)
      → a.requests ≡ before ++ (admitted w ∷ after)
      → actual ≤ w
      → total +ℤ pos w ≡ a.total +ℤ pos actual
      → Move limit a
          (record { total = total; requests = before ++ after; spent = a.spent + actual })
  rest :
      (total : ℤ)
      → total ≡ a.total
      → Move limit a (record { total = total; requests = a.requests; spent = a.spent })

abbrev pub weight : List Phase → ℕ
weight [] = 0
weight (admitted w ∷ r) = w + weight r
weight (refused w ∷ r) = w + weight r

-- the reservations of the requests that were let through
abbrev pub held : List Phase → ℕ
held [] = 0
held (admitted w ∷ r) = w + held r
held (refused w ∷ r) = held r

weight-append : (xs ys : List Phase) → weight (xs ++ ys) ≡ weight xs + weight ys
weight-append [] ys = omega arith
weight-append (admitted w ∷ xs) ys = omega (arith, weight-append xs ys)
weight-append (refused w ∷ xs) ys = omega (arith, weight-append xs ys)

held-append : (xs ys : List Phase) → held (xs ++ ys) ≡ held xs + held ys
held-append [] ys = omega arith
held-append (admitted w ∷ xs) ys = omega (arith, held-append xs ys)
held-append (refused w ∷ xs) ys = held-append xs ys

held-le-weight : (xs : List Phase) → held xs ≤ weight xs
held-le-weight [] = omega arith
held-le-weight (admitted w ∷ xs) = omega (arith, held-le-weight xs)
held-le-weight (refused w ∷ xs) = omega (arith, held-le-weight xs)

-- The total counts the money spent and every claim, and what is spent and let through is within
-- the limit.
pub record IsWithin (limit : ℕ) (a : Account) : Type 0 where
  pub ledger : a.total ≡ pos (a.spent + weight a.requests)
  pub ceiling : a.spent + held a.requests ≤ limit

grant-IsWithin :
    (limit : ℕ) (a : Account) (w : ℕ) (total : ℤ) (b : Bool)
    → fits limit (a.total +ℤ pos w) ≡ b
    → total ≡ a.total +ℤ pos w
    → IsWithin limit a
    → IsWithin limit
        (record { total = total; requests = phase_of b w ∷ a.requests; spent = a.spent })
grant-IsWithin limit a w total true room e i = record {
  ledger = omega (int_laws, parts_of_eq e, parts_of_eq i.ledger);
  ceiling = omega (int_laws, leb→le _ _ room, parts_of_eq i.ledger, held-le-weight a.requests);
}
grant-IsWithin limit a w total false over e i = record {
  ledger = omega (int_laws, parts_of_eq e, parts_of_eq i.ledger);
  ceiling = i.ceiling;
}

-- Every move keeps an account exact and within its limit.
pub Move-IsWithin :
    (limit : ℕ) {a b : Account} → Move limit a b → IsWithin limit a → IsWithin limit b
Move-IsWithin limit {a} (grant w total e) i =
    grant-IsWithin limit a w total (fits limit (a.total +ℤ pos w)) refl e i
Move-IsWithin limit {a} (release before after w total e back) i = record {
  ledger = omega (
    int_laws,
    parts_of_eq back,
    parts_of_eq i.ledger,
    ap weight e,
    weight-append before (refused w ∷ after),
    weight-append before after,
  );
  ceiling = omega (
    arith,
    i.ceiling,
    ap held e,
    held-append before (refused w ∷ after),
    held-append before after,
  );
}
Move-IsWithin limit {a} (conclude before after w actual total e le paid) i = record {
  ledger = omega (
    int_laws,
    parts_of_eq paid,
    parts_of_eq i.ledger,
    ap weight e,
    weight-append before (admitted w ∷ after),
    weight-append before after,
  );
  ceiling = omega (
    arith,
    i.ceiling,
    le,
    ap held e,
    held-append before (admitted w ∷ after),
    held-append before after,
  );
}
Move-IsWithin limit (rest total e) i = record {
  ledger = omega (int_laws, parts_of_eq e, parts_of_eq i.ledger);
  ceiling = i.ceiling;
}
