-- ===== src/Datamodel/Ast/Lookup.antt =====
-- How the lookups of a schema see a change made through `find_model_mut` and the like
-- (libs/datamodel/src/ast/mod.rs).
use prisma_engine.Base.{
  is_some, is_some-map, is_some-modify_first, ap, String, Option, none, some, ◌≡◌, ◌≢◌, refl, sym,
  ◌∙◌, filter_map, modify_first, and_then, arith, eq_iff, map-eq-some, modify_first-total,
  find?-modify_first_self, find?-modify_first_other, filter_map-modify_first,
  filter_map-modify_first_other, str_eq_of_ne, eq_of_str_eq,
}
use prisma_engine.Datamodel.Ast.{
  Top, Model, Enum, Field, SchemaAst, as_model, as_enum, models, enums, find_model, find_enum,
  find_model_mut, find_enum_mut, model_named, enum_named,
}

-- The change keeps the name.
abbrev pub KeepsModelName : (Model → Option Model) → Type 0
KeepsModelName f = (m m' : Model) → f m ≡ some m' → m'.name.name ≡ m.name.name

abbrev pub KeepsEnumName : (Enum → Option Enum) → Type 0
KeepsEnumName f = (e e' : Enum) → f e ≡ some e' → e'.name.name ≡ e.name.name

abbrev pub KeepsFieldName : (Field → Option Field) → Type 0
KeepsFieldName f = (x x' : Field) → f x ≡ some x' → x'.name.name ≡ x.name.name

model-ne-enum : (t : Top) (m : Model) → as_model t ≡ some m → as_enum t ≡ none
model-ne-enum (Top.model m) n h = refl
model-ne-enum (Top.enum e) n h = cc
model-ne-enum (Top.source e) n h = cc
model-ne-enum (Top.generator e) n h = cc
model-ne-enum (Top.type e) n h = cc

enum-ne-model : (t : Top) (e : Enum) → as_enum t ≡ some e → as_model t ≡ none
enum-ne-model (Top.enum m) n h = refl
enum-ne-model (Top.model e) n h = cc
enum-ne-model (Top.source e) n h = cc
enum-ne-model (Top.generator e) n h = cc
enum-ne-model (Top.type e) n h = cc

module _ (s : SchemaAst) (n : String) (f : Model → Option Model) where
  pub models-find_model_mut :
      {s' : SchemaAst}
      → find_model_mut s n f ≡ some s'
      → modify_first (model_named n) f (models s) ≡ some (models s')
  unfolding find_model_mut models
  models-find_model_mut {s'} h =
      let (ts, e, out) = map-eq-some _ _ h in
      sym (filter_map-modify_first as_model Top.model (λ b. refl) (model_named n) f s.tops)
      ∙ rw (e, out) refl

  pub enums-find_model_mut : {s' : SchemaAst} → find_model_mut s n f ≡ some s' → enums s' ≡ enums s
  unfolding find_model_mut enums
  enums-find_model_mut {s'} h =
      let (ts, e, out) = map-eq-some _ _ h in
      rw out (
        filter_map-modify_first_other as_model Top.model as_enum model-ne-enum (λ b. refl)
          (model_named n) f s.tops ts e)

  pub is_some-find_model_mut :
      is_some (find_model_mut s n f) ≡ is_some (and_then (find_model s n) f)
  unfolding find_model_mut find_model models
  is_some-find_model_mut =
      is_some-map (λ ts. record { tops = ts }) _
      ∙ (sym (is_some-map (filter_map as_model) _)
          ∙ (ap is_some
                (filter_map-modify_first as_model Top.model (λ b. refl) (model_named n) f s.tops)
              ∙ is_some-modify_first (model_named n) f (models s)))

  pub find_model_mut-total :
      {m m' : Model}
      → find_model s n ≡ some m
      → f m ≡ some m'
      → (s' : SchemaAst) × (find_model_mut s n f ≡ some s')
  unfolding find_model_mut find_model models
  find_model_mut-total {m} {m'} h k =
      let (ms, e) = modify_first-total (model_named n) f (models s) m m' h k in
      let (ts, r, _) =
        map-eq-some (filter_map as_model) _
          (filter_map-modify_first as_model Top.model (λ b. refl) (model_named n) f s.tops ∙ e) in
      (record { tops = ts }, rw r)

module _ (s : SchemaAst) (n : String) (f : Model → Option Model) (keeps : KeepsModelName f)
    {s' : SchemaAst} (h : find_model_mut s n f ≡ some s') where
  pub find_model-find_model_mut_self : find_model s' n ≡ and_then (find_model s n) f
  unfolding find_model
  find_model-find_model_mut_self =
      find?-modify_first_self (model_named n) f (λ x y fx px. ground (arith, keeps x y fx))
        (models s) (models s') (models-find_model_mut s n f h)

  pub find_model-find_model_mut_ne : (k : String) → n ≢ k → find_model s' k ≡ find_model s k
  unfolding find_model
  find_model-find_model_mut_ne k ne =
      find?-modify_first_other (model_named n) (model_named k) f
        (λ x px. ground (arith, eq_iff x.name.name n, eq_iff x.name.name k))
        (λ x y fx px. ground (arith, keeps x y fx, eq_iff x.name.name n, eq_iff y.name.name k))
        (models s) (models s') (models-find_model_mut s n f h)

module _ (s : SchemaAst) (n : String) (f : Enum → Option Enum) where
  pub enums-find_enum_mut :
      {s' : SchemaAst}
      → find_enum_mut s n f ≡ some s'
      → modify_first (enum_named n) f (enums s) ≡ some (enums s')
  unfolding find_enum_mut enums
  enums-find_enum_mut {s'} h =
      let (ts, e, out) = map-eq-some _ _ h in
      sym (filter_map-modify_first as_enum Top.enum (λ b. refl) (enum_named n) f s.tops)
      ∙ rw (e, out) refl

  pub models-find_enum_mut : {s' : SchemaAst} → find_enum_mut s n f ≡ some s' → models s' ≡ models s
  unfolding find_enum_mut models
  models-find_enum_mut {s'} h =
      let (ts, e, out) = map-eq-some _ _ h in
      rw out (
        filter_map-modify_first_other as_enum Top.enum as_model enum-ne-model (λ b. refl)
          (enum_named n) f s.tops ts e)

  pub is_some-find_enum_mut : is_some (find_enum_mut s n f) ≡ is_some (and_then (find_enum s n) f)
  unfolding find_enum_mut find_enum enums
  is_some-find_enum_mut =
      is_some-map (λ ts. record { tops = ts }) _
      ∙ (sym (is_some-map (filter_map as_enum) _)
          ∙ (ap is_some
                (filter_map-modify_first as_enum Top.enum (λ b. refl) (enum_named n) f s.tops)
              ∙ is_some-modify_first (enum_named n) f (enums s)))

  pub find_enum_mut-total :
      {m m' : Enum}
      → find_enum s n ≡ some m
      → f m ≡ some m'
      → (s' : SchemaAst) × (find_enum_mut s n f ≡ some s')
  unfolding find_enum_mut find_enum enums
  find_enum_mut-total {m} {m'} h k =
      let (ms, e) = modify_first-total (enum_named n) f (enums s) m m' h k in
      let (ts, r, _) =
        map-eq-some (filter_map as_enum) _
          (filter_map-modify_first as_enum Top.enum (λ b. refl) (enum_named n) f s.tops ∙ e) in
      (record { tops = ts }, rw r)

module _ (s : SchemaAst) (n : String) (f : Enum → Option Enum) (keeps : KeepsEnumName f)
    {s' : SchemaAst} (h : find_enum_mut s n f ≡ some s') where
  pub find_enum-find_enum_mut_self : find_enum s' n ≡ and_then (find_enum s n) f
  unfolding find_enum
  find_enum-find_enum_mut_self =
      find?-modify_first_self (enum_named n) f (λ x y fx px. ground (arith, keeps x y fx)) (enums s)
        (enums s') (enums-find_enum_mut s n f h)

  pub find_enum-find_enum_mut_ne : (k : String) → n ≢ k → find_enum s' k ≡ find_enum s k
  unfolding find_enum
  find_enum-find_enum_mut_ne k ne =
      find?-modify_first_other (enum_named n) (enum_named k) f
        (λ x px. ground (arith, eq_iff x.name.name n, eq_iff x.name.name k))
        (λ x y fx px. ground (arith, keeps x y fx, eq_iff x.name.name n, eq_iff y.name.name k))
        (enums s) (enums s') (enums-find_enum_mut s n f h)

-- The same for a change that may rename, at a name that it does not give.
module _ (s : SchemaAst) (n k : String) (f : Model → Option Model) (ne : n ≢ k)
    (apart : (x y : Model) → f x ≡ some y → x.name.name ≡ n → y.name.name ≢ k) {s' : SchemaAst}
    (h : find_model_mut s n f ≡ some s') where
  pub find_model-find_model_mut_other : find_model s' k ≡ find_model s k
  unfolding find_model
  find_model-find_model_mut_other =
      find?-modify_first_other (model_named n) (model_named k) f
        (λ x px. ground (arith, eq_iff x.name.name n, eq_iff x.name.name k))
        (λ x y fx px. str_eq_of_ne y.name.name k (apart x y fx (eq_of_str_eq x.name.name n px)))
        (models s) (models s') (models-find_model_mut s n f h)

-- The same for a change that may rename, at a name that it does not give.
module _ (s : SchemaAst) (n k : String) (f : Enum → Option Enum) (ne : n ≢ k)
    (apart : (x y : Enum) → f x ≡ some y → x.name.name ≡ n → y.name.name ≢ k) {s' : SchemaAst}
    (h : find_enum_mut s n f ≡ some s') where
  pub find_enum-find_enum_mut_other : find_enum s' k ≡ find_enum s k
  unfolding find_enum
  find_enum-find_enum_mut_other =
      find?-modify_first_other (enum_named n) (enum_named k) f
        (λ x px. ground (arith, eq_iff x.name.name n, eq_iff x.name.name k))
        (λ x y fx px. str_eq_of_ne y.name.name k (apart x y fx (eq_of_str_eq x.name.name n px)))
        (enums s) (enums s') (enums-find_enum_mut s n f h)
