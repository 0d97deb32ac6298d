-- ===== src/Tests/Migrations.antt =====
-- The migrations on a database that keeps the list of what was created.
use llm_gateway_fallback_rou.Base.{
  ◌≡◌, refl, ◌&&◌, Option, none, some, List, [], ◌∷◌, str_eq, str_eq_refl, sym, ◌++◌, if◌then◌else◌,
}
use llm_gateway_fallback_rou.Migrations.{
  Operation, create_table, create_index, drop_index, drop_table, upgrade_to_head, downgrade_to_base,
  metadata,
}
use llm_gateway_fallback_rou.Migrations.Revert.{run, IsSql, whole, downgrade_restores}
use llm_gateway_fallback_rou.Migrations.Models.{
  created_table, declared_table, created_index, declared_index, head_is_metadata,
}

unfoldable perform : Operation → List Operation → Option (List Operation)
perform (create_table t) s = some (create_table t ∷ s)
perform (create_index i) s = some (create_index i ∷ s)
perform (drop_table n) (create_table t ∷ s) = if str_eq n t.name then some s else none
perform (drop_table n) s = none
perform (drop_index n t) (create_index i ∷ s) =
    if str_eq n i.name && str_eq t i.table then some s else none
perform (drop_index n t) s = none

perform-IsSql : IsSql perform
unfolding perform
perform-IsSql = record {
  table_dropped = λ t s s' e.
      let same : (create_table t ∷ s) ≡ s' = cc e in
      rw (sym same, perform, str_eq_refl t.name) refl;
  index_dropped = λ i s s' e.
      let same : (create_index i ∷ s) ≡ s' = cc e in
      rw (sym same, perform, str_eq_refl i.name, str_eq_refl i.table) refl;
}

abbrev backwards : List Operation → List Operation
backwards [] = []
backwards (o ∷ os) = backwards os ++ (o ∷ [])

abbrev at_head : List Operation
at_head = backwards upgrade_to_head

-- both upgrades come through
upgraded : run perform upgrade_to_head [] ≡ some at_head
unfolding run perform
upgraded = refl

downgrade_restores_example : run perform downgrade_to_base at_head ≡ some []
downgrade_restores_example = downgrade_restores perform perform-IsSql whole [] at_head upgraded

head_is_metadata_example :
    (created_table "audit_log" upgrade_to_head ≡ declared_table "audit_log" metadata)
    × (created_index "audit_log" "request_id" upgrade_to_head
        ≡ declared_index "audit_log" "request_id" metadata)
head_is_metadata_example = head_is_metadata "audit_log" "request_id"
