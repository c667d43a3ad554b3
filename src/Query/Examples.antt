-- ===== src/Query/Examples.antt =====
-- The theorems at concrete queries.
use ormpp.Base.{
  true, false, ◌&&◌, List, [], ◌∷◌, ◌++◌, some, Bytes, codes, to_string, ◌≡◌, ◌≢◌, refl, arith,
}
use ormpp.Utility.Keys.{Entity, sqlite, postgresql, get_short_struct_name}
use ormpp.Utility.Escape.{plus}
use ormpp.Query.Placeholder.{plain, step, replace_postgresql_placeholders}
use ormpp.Query.Placeholder.OnePass.{number, replace_postgresql_placeholders-number}
use ormpp.Query.Where.{ColInfo, to_sql}
use ormpp.Query.Where.Brackets.{
  Balanced, inside, Filter, compares, is_like, or_else, to_condition, HasPlainNames,
  to_condition-Balanced,
}
use ormpp.Query.Partition.{
  value, range_partition, RangePartitionDesc, is_valid_sql_identifier, partition_range_predicate,
}
use ormpp.Query.Delete.{Database, matching_in_partition, delete_context, build_sql}
use ormpp.Query.Delete.Execute.{bracketed, build_sql-confined}
use ormpp.Query.Alter.{AlterOp, add_column, drop_partition, execute}
use ormpp.Query.Alter.Statements.{planned, run_all, execute-planned}
use ormpp.Query.Builder as B
use ormpp.Query.Builder.{Context, from, rows, token}
use ormpp.Query.Builder.Stages.{
  Stage, query_builder, stage_where, stage_group_by, stage_limit, stage_offset, filter, group_by,
  limit, offset, apply, has_where, has_group_by, has_limit, Reached, begun, called, here, there,
  filters, groups, limits, offsets,
}
use ormpp.Query.Builder.Stages.Paired.{reached-paired}
use ormpp.Query.Builder.Stages.Refinement.{render, described, final_text, build_sql-described}

abbrev markers : Bytes
markers = codes "a=? and b='?''?' -- ?\n and /*?*/ c=?"

numbered_markers :
    replace_postgresql_placeholders markers ≡ some (codes "a=$1 and b='?''?' -- ?\n and /*?*/ c=$2")
unfolding replace_postgresql_placeholders step to_string
numbered_markers = refl

replace_postgresql_placeholders-number_example :
    replace_postgresql_placeholders markers ≡ some (number plain markers 1)
replace_postgresql_placeholders-number_example = replace_postgresql_placeholders-number markers

abbrev person : Entity
person = record { struct_name = codes "person"; member_names = codes "name" ∷ codes "age" ∷ [] }

abbrev age : ColInfo
age = record { name = codes "age"; class_name = codes "person"; sort_order = [] }

abbrev name : ColInfo
name = record { name = codes "name"; class_name = codes "person"; sort_order = [] }

abbrev hostile : Filter
hostile = or_else (compares age (plus 20) (codes ">")) (is_like name (codes "') or (1=1"))

abbrev hostile-HasPlainNames : HasPlainNames hostile
hostile-HasPlainNames = omega arith

to_condition-Balanced_example : Balanced (to_sql (to_condition hostile))
to_condition-Balanced_example = to_condition-Balanced hostile hostile-HasPlainNames

abbrev adults : RangePartitionDesc
adults = range_partition (codes "p1") (value (plus 18)) (value (plus 99))

build_sql-confined_example :
    let request = matching_in_partition (codes "age") adults (to_condition hostile) in
    (condition : Bytes) × (build_sql sqlite person (delete_context request)
      ≡ (codes "DELETE FROM " ++ get_short_struct_name person) ++ (codes " WHERE " ++ condition))
    × (bracketed condition
        ≡ some (
          partition_range_predicate (codes "age") adults,
          codes " AND " ++ to_sql (to_condition hostile),
        ))
    × (bracketed (to_sql (to_condition hostile)) ≡ some (inside (to_condition hostile), []))
unfolding is_valid_sql_identifier
build_sql-confined_example =
    build_sql-confined person (codes "age") (codes "p1") (plus 18) (plus 99) hostile refl
      hostile-HasPlainNames

-- A database that keeps the statements it is sent, and refuses a second one.
abbrev log : Database (List Bytes)
log = record {
  execute = λ sql sent. (sql ∷ sent, elim sent [ [] ↦ true | _ ∷ _ ↦ false ]);
  get_last_affect_rows = λ sent. 7;
}

abbrev alterations : List AlterOp
alterations =
    add_column (codes "height") (codes "INT")
    ∷ drop_partition adults
    ∷ add_column (codes "w") (codes "INT")
    ∷ []

execute-planned_example :
    let (sqls, whole) = planned sqlite (codes "person") alterations in
    execute log sqlite (codes "person") alterations []
    ≡ ((run_all log sqls []).0, (run_all log sqls []).1 && whole)
execute-planned_example = execute-planned log sqlite (codes "person") alterations []

abbrev fields : Bytes
fields = codes "person.name,COUNT(person.age)"

-- A query with a filter and a limit; behind the limit, the builder's stage behind `where` is called
-- again for a `group_by`, and the stage behind `limit` twice for an `offset`.
abbrev limited : Context
limited =
    apply person stage_where (limit (rows 10))
      (apply person query_builder (filter (to_condition hostile)) (from fields person))

abbrev grouped : Context
grouped = apply person stage_where (group_by (name ∷ [])) limited

abbrev skipped : Context
skipped = apply person stage_limit (offset (rows 5)) grouped

abbrev skipped_twice : Context
skipped_twice = apply person stage_limit (offset token) skipped

abbrev kept_stages : List Stage
kept_stages =
    stage_offset ∷ stage_offset ∷ stage_group_by ∷ stage_limit ∷ stage_where ∷ query_builder ∷ []

past : Reached person (from fields person) kept_stages skipped_twice
unfolding has_where has_group_by has_limit
past =
    called
      (called
        (called (called (called begun here (filters refl)) here (limits refl)) (there here)
          (groups refl))
        (there here) offsets)
      (there (there here)) offsets

reached-paired_example :
    (skipped_twice.having_clause ≢ [] → skipped_twice.group_by_clause ≢ [])
    × (skipped_twice.offset_clause ≢ [] → skipped_twice.limit_clause ≢ [])
reached-paired_example = reached-paired person fields past

build_sql-described_example :
    B.build_sql postgresql skipped_twice
    ≡ some
        (final_text postgresql (render person (from fields person).select_clause (described past)))
unfolding from
build_sql-described_example = build_sql-described postgresql person fields past (λ e. cc)
