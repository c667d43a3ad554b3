-- ===== src/Query/Update/Examples.antt =====
-- The theorem at a concrete update.
use ormpp.Base.{List, [], ◌∷◌, codes}
use ormpp.Utility.Keys.{Entity}
use ormpp.Query.Where.{ColInfo}
use ormpp.Query.Partition.{raw_sql}
use ormpp.Query.Update.{Assignment, set, set_null}

abbrev person : Entity
person = record { struct_name = codes "person"; member_names = codes "name" ∷ codes "age" ∷ [] }

abbrev age : ColInfo
age = record { name = codes "age"; class_name = codes "person"; sort_order = [] }

abbrev name : ColInfo
name = record { name = codes "name"; class_name = codes "person"; sort_order = [] }

abbrev further : List Assignment
further = set age (raw_sql (codes "age+1")) ∷ set_null age ∷ []
