-- ===== src/Utility/Update/Guarded.antt =====
-- No update without a condition, and how many parameters an update has.
use ormpp.Base.{
  ℕ, false, List, [], ◌∷◌, ◌++◌, ◌==◌, Bytes, codes, is_empty, append_assoc, append-nil, Bool-cases,
  inl, inr, ◌≡◌, ◌≢◌, ◌↔◌, refl, sym, ap, ◌∙◌,
}
use ormpp.Utility.Keys.{Entity, DbType}
use ormpp.Utility.Insert.{append}
use ormpp.Utility.Update.{keep_or_drop, strip, generate_update_sql}

keep_or_drop-ne-nil : (c : ℕ) (s : Bytes) → (c == b' ') ≡ false → keep_or_drop c s ≢ []
keep_or_drop-ne-nil c [] h e = cc (rw h at e)
keep_or_drop-ne-nil c (d ∷ ds) h e = cc

strip-ne-nil : (c : ℕ) (s : Bytes) → (c == b' ') ≡ false → strip (c ∷ s) ≢ []
unfolding strip
strip-ne-nil c s h = keep_or_drop-ne-nil c (strip s) h

-- `append` only adds at the end.
append-extends :
    (strs : List Bytes) (sql : Bytes) → (more : Bytes) × (append sql strs ≡ sql ++ more)
unfolding append
append-extends [] sql = ([], sym (append-nil sql))
append-extends (s ∷ strs) sql = elim (Bool-cases (is_empty s)) [
  | inl e ↦ rw e (append-extends strs sql)
  | inr e ↦
      let (more, h) = append-extends strs (sql ++ (s ++ b' ' ∷ [])) in
      rw e ((s ++ b' ' ∷ []) ++ more, h ∙ append_assoc sql (s ++ b' ' ∷ []) more)
]

update_head :
    (strs : List Bytes) → append [] (codes "update" ∷ strs) ≡ append (codes "update ") strs
unfolding append
update_head strs = refl

strip_update :
    (name rest : List Bytes) → strip (append (append [] (codes "update" ∷ name)) rest) ≢ []
strip_update name rest e =
    let (a, h) = append-extends name (codes "update ") in
    let (b, k) = append-extends rest (codes "update " ++ a) in
    strip-ne-nil b'u' (codes "pdate " ++ (a ++ b)) refl
      (ap strip (sym (ap (λ (s : Bytes). append s rest) (update_head name ∙ h) ∙ k)) ∙ e)

-- The statement is empty, and the callers then refuse to run it, exactly if there is neither a
-- condition among the arguments nor a conflict key: no update goes out without a condition.
generate_update_sql-eq-nil :
    (db : DbType) (members args keys : List Bytes) (t : Entity)
    → (generate_update_sql db members args keys t ≡ []) ↔ ((args ≡ []) × (keys ≡ []))
unfolding generate_update_sql
generate_update_sql-eq-nil db members [] [] t = ((λ _. (refl, refl)), (λ _. refl))
generate_update_sql-eq-nil db members [] (k ∷ ks) t =
    ((λ e. absurd (strip_update _ _ e)), (λ h. cc (h.1)))
generate_update_sql-eq-nil db members (a ∷ as') keys t =
    ((λ e. absurd (strip_update _ _ e)), (λ h. cc (h.0)))
