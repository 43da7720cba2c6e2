-- ===== src/Features/Registry/Laws.antt =====
-- What is registered is found again, and other groups are not disturbed.
use ml_monitor.Prelude.{
  ℕ, ◌≡◌, refl, sym, ap, ◌∙◌, String, Bool, true, false, Option, some, List, [], ◌∷◌, ◌++◌, map,
  any, select, arith, ◌==◌, string_eq, eq_iff, if◌then◌else◌, Bool-cases, inl, inr,
}
use mathlib.Core.List.{append-nil, append_assoc}
use ml_monitor.Prelude.Dict.{get-put}
use ml_monitor.Features.Registry.{
  Feature, FeatureRegistry, GroupRow, done, TagText, is_of, is_named, insert_features,
  register_feature_group, get_feature_group, get_features,
}

abbrev pub of_group : String → List (String × Feature) → List Feature
of_group group table = map (λ (x : String × Feature). x.1) (select (is_of group) table)

of_group-snoc :
    (group g : String) (f : Feature) (table : List (String × Feature))
    → of_group group (table ++ (g, f) ∷ [])
      ≡ of_group group table ++ (if g == group then f ∷ [] else [])
of_group-snoc group g f [] = ground arith
of_group-snoc group g f (x ∷ table) = ground (arith, of_group-snoc group g f table)

of_group-others :
    (group name : String) (table : List (String × Feature))
    → of_group group (select (λ (x : String × Feature). if is_of name x then false else true) table)
      ≡ (if name == group then [] else of_group group table)
of_group-others group name [] = ground arith
of_group-others group name ((g, f) ∷ table) =
    ground
      (arith, of_group-others group name table, eq_iff g name, eq_iff g group, eq_iff name group)

split_if :
    (b : Bool) (xs features : List Feature) (f : Feature)
    → (xs ++ (if b then f ∷ [] else [])) ++ (if b then features else [])
      ≡ xs ++ (if b then f ∷ features else [])
split_if true xs features f = append_assoc xs (f ∷ []) features
split_if false xs features f = append-nil (xs ++ [])

nothing_more : (b : Bool) (xs : List Feature) → xs ≡ xs ++ (if b then [] else [])
nothing_more true xs = sym (append-nil xs)
nothing_more false xs = sym (append-nil xs)

only :
    (b : Bool) (xs ys : List Feature)
    → (if b then [] else ys) ++ (if b then xs else []) ≡ (if b then xs else ys)
only true xs ys = refl
only false xs ys = append-nil ys

-- The inserts, when none of them is refused: the group's features come after those it had.
of_group-insert_features :
    (name group : String) (features : List Feature) (table : List (String × Feature))
    → (insert_features name features table).0 ≡ done
    → of_group group (insert_features name features table).1
      ≡ of_group group table ++ (if name == group then features else [])
unfolding insert_features
of_group-insert_features name group [] table h = nothing_more (name == group) (of_group group table)
of_group-insert_features name group (f ∷ features) table h =
    elim (Bool-cases (any (is_named f.name) (select (is_of name) table))) [
      | inl taken ↦ absurd (ground (arith, taken, h))
      | inr free ↦ rw free (
          of_group-insert_features name group features (table ++ (name, f) ∷ []) (rw free at h)
          ∙ ap (λ xs. xs ++ (if name == group then features else []))
              (of_group-snoc group name f table)
          ∙ split_if (name == group) (of_group group table) features f)
    ]

module _ {S : Type 0} (json : TagText) where
  -- If the tags can be read back from their text, which is not empty, then after a registration that no
  -- duplicate feature refuses, the group is found with exactly the given features, entity, TTL and
  -- flags, whatever was registered under its name before, and every other group is found as before.
  pub get_feature_group-register_feature_group :
      (scan : List Feature → List Feature) (name group entity_name : String)
      (features : List Feature) (ttl_hours : Option ℕ) (online offline : Bool) (tags : List String)
      (now : ℕ) (r : FeatureRegistry S)
      → json.loads (json.dumps tags) ≡ tags
      → (json.dumps tags == "") ≡ false
      → (register_feature_group json name entity_name features ttl_hours online offline tags now
          r).0
        ≡ done
      → get_feature_group json scan group
          (register_feature_group json name entity_name features ttl_hours online offline tags now
            r).1
        ≡ (if name == group
            then some (record {
              name = group;
              entity_name = entity_name;
              ttl_hours = ttl_hours;
              online = online;
              offline = offline;
              tags = tags;
              created_at = now;
              features = scan features;
            })
            else get_feature_group json scan group r)
  unfolding get_feature_group register_feature_group get_features
  get_feature_group-register_feature_group scan name group entity_name features ttl_hours online
        offline tags now r back filled outcome =
      let others : List (String × Feature) =
        select (λ (x : String × Feature). if is_of name x then false else true) r.features in
      let found = of_group-insert_features name group features others outcome in
      let kept = of_group-others group name r.features in
      let row : GroupRow = record {
        entity_name = entity_name;
        ttl_hours = ttl_hours;
        online = online;
        offline = offline;
        tags = json.dumps tags;
        created_at = now;
      } in
      let all : of_group group (insert_features name features others).1
          ≡ (if name == group then features else of_group group r.features) =
        found
        ∙ ap (λ xs. xs ++ (if name == group then features else [])) kept
        ∙ only (name == group) features (of_group group r.features) in
      ground (arith, get-put name group row r.feature_groups, all, back, filled)
