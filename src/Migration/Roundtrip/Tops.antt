-- ===== src/Migration/Roundtrip/Tops.antt =====
-- A new model or enum at the end of a schema, found through the lookups
-- (libs/datamodel/src/ast/mod.rs).
use mathlib.Core.Option
use prisma_engine.Base.{
  String, Bool, Option, none, some, List, [], ◌∷◌, ◌++◌, ◌≡◌, refl, ◌∙◌, arith, find?, filter_map,
  passes, inl, inr, Option-cases, str_refl,
}
use prisma_engine.Datamodel.Ast.{
  SchemaAst, Top, Model, Enum, Directive, as_model, as_enum, models, enums, find_model, find_enum,
  find_model_mut, find_enum_mut, is_model_named, is_enum_named, model_named, enum_named, on_model,
  on_enum, push_top,
}
use prisma_engine.Datamodel.Ast.Tops.{find_model-push_model}
use prisma_engine.Migration.Steps.{DirectiveType}
use prisma_engine.Migration.Calculator.Directives.{find_directives_mut, on_enum_directives}
use prisma_engine.Migration.Roundtrip.Fresh.{modify_first-snoc}
use prisma_engine.Migration.Roundtrip.Directives.{Place}
use prisma_engine.Migration.Roundtrip.Fields.{ModelPlace}

-- What a search through a view does not see, a search among what is seen does not find.
find?-view :
    {A B : Type 0} (view : A → Option B) (q : B → Bool) (xs : List A)
    → find? q (filter_map view xs) ≡ none
    → find? (passes view q) xs ≡ none
unfolding find? filter_map
find?-view view q [] h = refl
find?-view view q (x ∷ xs) h =
    let ih = find?-view view q xs in
    elim (Option-cases (view x)) [ inl e ↦ ground (arith, ih) | inr (b, e) ↦ ground (arith, ih) ]

module _ (s : SchemaAst) (n : String) where
  pub last_model-found :
      find_model s n ≡ none
      → (m : Model) (f : Model → Option Model) → m.name.name ≡ n
      → find_model_mut (push_top s (Top.model m)) n f
        ≡ Option.map (λ y. push_top s (Top.model y)) (f m)
  unfolding find_model_mut find_model models
  last_model-found absent m f named =
      rw
        (modify_first-snoc (is_model_named n) (on_model f) s.tops (Top.model m)
          (find?-view as_model (model_named n) s.tops absent) (rw named (str_refl n)))
        (by_answer (f m))
    where
      by_answer :
          (o : Option Model)
          → Option.map
              (λ ts. record { tops = ts })
              (Option.map (λ y. s.tops ++ y ∷ []) (Option.map Top.model o))
            ≡ Option.map (λ y. push_top s (Top.model y)) o
      by_answer none = refl
      by_answer (some y) = refl

  pub last_model-seen :
      find_model s n ≡ none
      → (m : Model) → m.name.name ≡ n
      → find_model (push_top s (Top.model m)) n ≡ some m
  last_model-seen absent m named =
      rw (find_model-push_model s m n (rw named absent), named, str_refl n) refl

  abbrev pub last_model : find_model s n ≡ none → ModelPlace n
  last_model absent = record {
    put = λ m. push_top s (Top.model m);
    seen = last_model-seen absent;
    found = last_model-found absent;
  }

  abbrev pub with_enum : Enum → List Directive → SchemaAst
  with_enum e ds = push_top s (Top.enum (record e { directives = ds }))

  pub last_enum-found :
      find_enum s n ≡ none
      → (e : Enum) → e.name.name ≡ n
      → (ds : List Directive) (f : List Directive → Option (List Directive))
      → find_directives_mut (with_enum e ds) (DirectiveType.enum n) f
        ≡ Option.map (with_enum e) (f ds)
  unfolding find_directives_mut find_enum_mut find_enum enums
  last_enum-found absent e named ds f =
      rw
        (modify_first-snoc (is_enum_named n) (on_enum (on_enum_directives f)) s.tops
          (Top.enum (record e { directives = ds }))
          (find?-view as_enum (enum_named n) s.tops absent) (rw named (str_refl n)))
        (by_answer (f ds))
    where
      by_answer :
          (o : Option (List Directive))
          → Option.map
              (λ ts. record { tops = ts })
              (Option.map
                (λ y. s.tops ++ y ∷ [])
                (Option.map Top.enum (Option.map (λ es. record e { directives = es }) o)))
            ≡ Option.map (with_enum e) o
      by_answer none = refl
      by_answer (some y) = refl

  abbrev pub last_enum :
      find_enum s n ≡ none → (e : Enum) → e.name.name ≡ n → Place (DirectiveType.enum n)
  last_enum absent e named = record { put = with_enum e; found = last_enum-found absent e named }

module _ (n : String) (place : ModelPlace n) (m : Model) (named : m.name.name ≡ n) where
  pub model_directives-found :
      (ds : List Directive) (f : List Directive → Option (List Directive))
      → find_directives_mut (place.put (record m { directives = ds })) (DirectiveType.model n) f
        ≡ Option.map (λ es. place.put (record m { directives = es })) (f ds)
  unfolding find_directives_mut
  model_directives-found ds f =
      place.found (record m { directives = ds }) _ named ∙ by_answer (f ds)
    where
      by_answer :
          (o : Option (List Directive))
          → Option.map place.put (Option.map (λ es. record m { directives = es }) o)
            ≡ Option.map (λ es. place.put (record m { directives = es })) o
      by_answer none = refl
      by_answer (some es) = refl

  abbrev pub model_directives : Place (DirectiveType.model n)
  model_directives = record {
    put = λ ds. place.put (record m { directives = ds });
    found = model_directives-found;
  }
