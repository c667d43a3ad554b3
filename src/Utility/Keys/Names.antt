-- ===== src/Utility/Keys/Names.antt =====
-- A key that `REGISTER_AUTO_KEY` registers, and what `is_auto_key` finds of it.
use ormpp.Base.{
  false, List, [], ◌∷◌, ◌++◌, none, some, Bytes, equal, equal_iff, All, Bool-cases, inl, inr, ◌≡◌,
  ◌≢◌, refl, sym, ap, ◌∙◌, arith,
}
use mathlib.Core.Path.{subst}
use ormpp.Utility.Keys.{
  Entity, Registry, behind_last, get_short_struct_name, find, emplace, add_auto_key_field,
  register_auto_key, is_auto_key,
}

-- The text has no colon.
abbrev pub HasNoColon : Bytes → Type 0
HasNoColon s = All (λ c. c ≢ b':') s

behind_last-none : (s : Bytes) → HasNoColon s → behind_last b':' s ≡ none
unfolding behind_last
behind_last-none [] h = refl
behind_last-none (c ∷ s) h = rw (behind_last-none s h.1) (ground arith)

behind_last-some : (scope s : Bytes) → HasNoColon s → behind_last b':' (scope ++ b':' ∷ s) ≡ some s
unfolding behind_last
behind_last-some [] s h = rw (behind_last-none s h)
behind_last-some (c ∷ scope) s h = rw (behind_last-some scope s h)

find-emplace_other :
    (j k v : Bytes) (m : List (Bytes × Bytes))
    → equal k j ≡ false
    → find j (emplace k v m) ≡ find j m
unfolding find emplace
find-emplace_other j k v [] h = rw h
find-emplace_other j k v ((i, w) ∷ m) h =
    ground (arith, equal_iff i k, equal_iff i j, equal_iff k j, find-emplace_other j k v m h)

pub find-emplace_new :
    (k v : Bytes) (m : List (Bytes × Bytes)) → find k m ≡ none → find k (emplace k v m) ≡ some v
unfolding find emplace
find-emplace_new k v [] h = ground (arith, equal_iff k k)
find-emplace_new k v ((i, w) ∷ m) h = ground (arith, find-emplace_new k v m)

has_colon : (scope s : Bytes) → HasNoColon (scope ++ b':' ∷ s) → ⊥
has_colon [] s h = h.0 refl
has_colon (c ∷ scope) s h = has_colon scope s h.1

scope_differs : (scope s : Bytes) → HasNoColon s → equal (scope ++ b':' ∷ s) s ≡ false
scope_differs scope s h = elim (Bool-cases (equal (scope ++ b':' ∷ s) s)) [
  | inl e ↦
      absurd (has_colon scope s (subst HasNoColon (sym ((equal_iff (scope ++ b':' ∷ s) s).0 e)) h))
  | inr e ↦ e
]

short_plain : (t : Entity) → HasNoColon t.struct_name → get_short_struct_name t ≡ t.struct_name
unfolding get_short_struct_name
short_plain t h = rw (behind_last-none t.struct_name h, get_short_struct_name)

short_scoped :
    (t : Entity) (scope short : Bytes)
    → t.struct_name ≡ scope ++ b':' ∷ short
    → HasNoColon short
    → get_short_struct_name t ≡ short
unfolding get_short_struct_name
short_scoped t scope short e h =
    rw (ap (behind_last b':') e ∙ behind_last-some scope short h, get_short_struct_name)

module _ (r : Registry) (t : Entity) (field short : Bytes) where
  pub is_auto_key_found :
      (v : Bytes)
      → get_short_struct_name t ≡ short
      → find short r.auto_key_map ≡ some v
      → is_auto_key r t field ≡ equal v field
  unfolding is_auto_key
  is_auto_key_found v e f = rw (ap (λ (n : Bytes). find n r.auto_key_map) e ∙ f, is_auto_key)

  is_auto_key_missing :
      get_short_struct_name t ≡ short
      → find short r.auto_key_map ≡ none
      → is_auto_key r t field ≡ false
  unfolding is_auto_key
  is_auto_key_missing e f = rw (ap (λ (n : Bytes). find n r.auto_key_map) e ∙ f, is_auto_key)

module _ (t : Entity) (key : Bytes) (r : Registry) where
  -- For a struct outside every namespace, registered for the first time, exactly the registered
  -- member is the auto key.
  is_auto_key-register_plain :
      (field : Bytes)
      → HasNoColon t.struct_name
      → find t.struct_name r.auto_key_map ≡ none
      → is_auto_key (register_auto_key t key r) t field ≡ equal key field
  is_auto_key-register_plain field h new =
      is_auto_key_found (register_auto_key t key r) t field t.struct_name key (short_plain t h) (
        unfold register_auto_key add_auto_key_field in
        find-emplace_new t.struct_name key r.auto_key_map new)

  -- For a struct in a namespace the registration is under the full name and the search under the
  -- short one: whatever key is registered, no member of the struct becomes an auto key by it.
  is_auto_key-register_scoped :
      (scope short field : Bytes)
      → t.struct_name ≡ scope ++ b':' ∷ short
      → HasNoColon short
      → find short r.auto_key_map ≡ none
      → is_auto_key (register_auto_key t key r) t field ≡ false
  is_auto_key-register_scoped scope short field e h new =
      is_auto_key_missing (register_auto_key t key r) t field short (short_scoped t scope short e h)
        (unfold register_auto_key add_auto_key_field in
          (find-emplace_other short t.struct_name key r.auto_key_map
              (ap (λ (n : Bytes). equal n short) e ∙ scope_differs scope short h)
            ∙ new))
