-- ===== src/Migration/Roundtrip/Deleted.antt =====
-- The steps that delete models (migration-engine/core/src/migration).
use mathlib.Core.Bool.{and-true}
use prisma_engine.Base.{
  filter-filter, filter-cong, filter-all, String, Bool, true, false, not, some, List, [], ◌∷◌, ◌++◌,
  ◌==◌, ◌&&◌, ◌≡◌, refl, sym, ap, ◌∙◌, arith, ok, ◌>>=◌, map, any, all, filter, filter_map-filter,
  find?-filter-id, is_some, are_new, are_new-cons, Option-cases, inl, inr, append_assoc, append-nil,
  all-append, eq_iff,
}
use prisma_engine.Datamodel.Ast.{
  SchemaAst, Top, Model, as_model, models, find_model, is_other_model, model_named,
}
use prisma_engine.Datamodel.Ast.Render.{ExpressionText}
use prisma_engine.Migration.Calculator.{apply, apply_step}
use prisma_engine.Migration.Calculator.Models.{apply_delete_model}
use prisma_engine.Migration.Differ.{push_deleted_models}

-- The schema without the models of some names.
abbrev pub is_kept : List String → Top → Bool
is_kept gone t = all (λ g. is_other_model g t) gone

abbrev pub without_models : List String → SchemaAst → SchemaAst
without_models gone s = record { tops = filter (is_kept gone) s.tops }

-- Models are kept by their names.
abbrev is_kept_model : List String → Model → Bool
is_kept_model gone m = all (λ g. not (m.name.name == g)) gone

is_kept-as_model :
    (gone : List String) (t : Top) (m : Model)
    → as_model t ≡ some m
    → is_kept gone t ≡ is_kept_model gone m
unfolding all
is_kept-as_model [] t m h = refl
is_kept-as_model (g ∷ gone) (Top.model x) m h =
    let ih = is_kept-as_model gone (Top.model x) m h in ground (arith, ih)
is_kept-as_model (g ∷ gone) (Top.enum x) m h = cc
is_kept-as_model (g ∷ gone) (Top.source x) m h = cc
is_kept-as_model (g ∷ gone) (Top.generator x) m h = cc
is_kept-as_model (g ∷ gone) (Top.type x) m h = cc

is_kept_model-any :
    (gone : List String) (m : Model) (n : String)
    → any (λ t. t == n) gone ≡ false
    → m.name.name == n ≡ true
    → is_kept_model gone m ≡ true
unfolding all any
is_kept_model-any [] m n h e = refl
is_kept_model-any (g ∷ gone) m n h e =
    let ih = is_kept_model-any gone m n in
    ground (arith, ih, eq_iff m.name.name n, eq_iff m.name.name g, eq_iff g n)

find_model-without_models :
    (gone : List String) (s : SchemaAst) (n : String)
    → any (λ t. t == n) gone ≡ false
    → find_model (without_models gone s) n ≡ find_model s n
unfolding find_model models
find_model-without_models gone s n h =
    rw
      (filter_map-filter as_model (is_kept gone) (is_kept_model gone) (is_kept-as_model gone)
        s.tops)
      (find?-filter-id (is_kept_model gone) (model_named n) (λ m e. is_kept_model-any gone m n h e)
        (models s))

without_models-snoc :
    (gone : List String) (s : SchemaAst) (n : String)
    → record { tops = filter (is_other_model n) (without_models gone s).tops }
      ≡ without_models (gone ++ n ∷ []) s
unfolding all
without_models-snoc gone s n =
    ap (λ (ts : List Top). record { tops = ts })
      (filter-filter (is_kept gone) (is_other_model n) s.tops
        ∙ filter-cong (λ t. is_kept gone t && is_other_model n t) (is_kept (gone ++ n ∷ []))
            (λ t. sym (
              all-append (λ g. is_other_model g t) gone (n ∷ [])
              ∙ ap (λ b. is_kept gone t && b) (and-true (is_other_model n t))))
            s.tops)

module _ (text : ExpressionText) (s : SchemaAst) where
  delete_after :
      (gone : List String) (todo : List Model)
      → are_new gone (map (λ m. m.name.name) todo) ≡ true
      → all (λ m. is_some (find_model s m.name.name)) todo ≡ true
      → apply text (without_models gone s) (push_deleted_models text todo)
        ≡ ok (without_models (gone ++ map (λ m. m.name.name) todo) s)
  unfolding apply push_deleted_models apply_step apply_delete_model all
  delete_after gone [] new found = rw append-nil refl
  delete_after gone (m ∷ todo) new found =
      let n = m.name.name in
      let (absent, later) = are_new-cons gone n (map (λ m. m.name.name) todo) new in
      elim (Option-cases (find_model s n)) [
        | inl e ↦ (let bad : is_some (find_model s n) ≡ true = ground arith in ground arith)
        | inr (x, e) ↦
            rw (find_model-without_models gone s n absent, e, ◌>>=◌, without_models-snoc gone s n)
              (delete_after (gone ++ n ∷ []) todo later (ground arith)
                ∙ rw (append_assoc gone (n ∷ []) (map (λ m. m.name.name) todo)) refl)
      ]

  -- The steps that the differ gives for deleted models take all of them out of any schema, and leave
  -- every other node where it is. The names of these models must each be different, and the schema must
  -- have a model of each.
  pub apply-push_deleted_models :
      (gone : List Model)
      → are_new [] (map (λ m. m.name.name) gone) ≡ true
      → all (λ m. is_some (find_model s m.name.name)) gone ≡ true
      → apply text s (push_deleted_models text gone)
        ≡ ok (without_models (map (λ m. m.name.name) gone) s)
  unfolding filter all
  apply-push_deleted_models gone new found =
      ap (λ (ts : List Top). apply text (record { tops = ts }) (push_deleted_models text gone))
        (sym (filter-all s.tops))
      ∙ delete_after [] gone new found
