-- ===== src/Query/Create/Keys.antt =====
-- The auto key that the creation of a table registers.
use ormpp.Base.{
  Bool, true, false, List, [], ◌∷◌, none, some, Bytes, is_empty, equal, equal_iff, if◌then◌else◌,
  Bool-cases, inl, inr, ◌≡◌, refl, ap, ◌∙◌, arith,
}
use ormpp.Utility.Keys.{
  Entity, Registry, find, emplace, add_auto_key_field, is_auto_key, get_short_struct_name, DbType,
}
use ormpp.Utility.Keys.Names.{find-emplace_new, is_auto_key_found}
use ormpp.Query.Delete.{Database}
use ormpp.Query.Create.{
  TableBuilder, contains, register_loop, register_auto_increment_field, validate_partition_config,
  execute,
}

find-emplace_kept :
    (k v w : Bytes) (m : List (Bytes × Bytes)) → find k m ≡ some v → find k (emplace k w m) ≡ some v
unfolding find emplace
find-emplace_kept k v w [] h = cc
find-emplace_kept k v w ((j, u) ∷ m) h = ground (arith, find-emplace_kept k v w m)

find-add_auto_key_field :
    (table key : Bytes) (r : Registry)
    → find table r.auto_key_map ≡ none
    → find table (add_auto_key_field table key r).auto_key_map ≡ some key
unfolding add_auto_key_field
find-add_auto_key_field table key r h = find-emplace_new table key r.auto_key_map h

module _ (table field : Bytes) where
  register_loop_step :
      (name : Bytes) (names : List Bytes) (r : Registry) {same : Bool}
      → equal name field ≡ same
      → register_loop table field (name ∷ names) r
        ≡ register_loop table field names (if same then add_auto_key_field table name r else r)
  unfolding register_loop
  register_loop_step name names r e =
      ap
        (λ (b : Bool).
          register_loop table field names (if b then add_auto_key_field table name r else r))
        e

  find-register_loop_kept :
      (v : Bytes) (names : List Bytes) (r : Registry)
      → find table r.auto_key_map ≡ some v
      → find table (register_loop table field names r).auto_key_map ≡ some v
  find-register_loop_kept v [] r h = unfold register_loop in h
  find-register_loop_kept v (name ∷ names) r h = elim (Bool-cases (equal name field)) [
    | inl e ↦ rw (register_loop_step name names r e) (
        find-register_loop_kept v names (add_auto_key_field table name r)
          (unfold add_auto_key_field in find-emplace_kept table v name r.auto_key_map h))
    | inr e ↦ rw (register_loop_step name names r e) (find-register_loop_kept v names r h)
  ]

  find-register_loop :
      (names : List Bytes) (r : Registry)
      → contains field names ≡ true
      → find table r.auto_key_map ≡ none
      → find table (register_loop table field names r).auto_key_map ≡ some field
  unfolding contains
  find-register_loop [] r c h = cc
  find-register_loop (name ∷ names) r c h = elim (Bool-cases (equal name field)) [
    | inl e ↦ rw (register_loop_step name names r e) (
        find-register_loop_kept field names (add_auto_key_field table name r)
          (find-add_auto_key_field table name r h ∙ ap some ((equal_iff name field).0 e)))
    | inr e ↦ rw (register_loop_step name names r e) (find-register_loop names r (rw e at c) h)
  ]

-- The creation of a table with a valid configuration registers the auto key so that it is found, also
-- for a struct in a namespace and whatever the database answers: where the field is a member and the
-- struct had no auto key, exactly that member is the auto key afterwards.
execute-is_auto_key :
    {D : Type 0} (db : Database D) (kind : DbType) (b : TableBuilder) (t : Entity)
    (columns : List (Bytes × Bytes)) (r : Registry) (d : D) (field : Bytes)
    → validate_partition_config kind b ≡ true
    → is_empty b.auto_increment_field ≡ false
    → contains b.auto_increment_field t.member_names ≡ true
    → find (get_short_struct_name t) r.auto_key_map ≡ none
    → is_auto_key (execute db kind b t columns r d).0.0 t field ≡ equal b.auto_increment_field field
unfolding execute register_auto_increment_field
execute-is_auto_key db kind b t columns r d field valid named member new =
    let table = get_short_struct_name t in
    let found = find-register_loop table b.auto_increment_field t.member_names r member new in
    rw (valid, named)
      (is_auto_key_found (register_loop table b.auto_increment_field t.member_names r) t field table
        b.auto_increment_field refl found)
