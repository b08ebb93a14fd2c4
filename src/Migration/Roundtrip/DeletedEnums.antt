-- ===== src/Migration/Roundtrip/DeletedEnums.antt =====
-- The steps that delete enums (migration-engine/core/src/migration).
use mathlib.Core.Bool.{and-true}
use prisma_engine.Base.{
  filter-filter, filter-cong, filter-all, String, Bool, true, false, not, some, List, [], ◌∷◌, ◌++◌,
  ◌==◌, ◌&&◌, ◌≡◌, refl, sym, ap, ◌∙◌, arith, ok, ◌>>=◌, map, any, all, filter, filter_map-filter,
  find?-filter-id, is_some, are_new, are_new-cons, Option-cases, inl, inr, append_assoc, append-nil,
  all-append, eq_iff,
}
use prisma_engine.Datamodel.Ast.{
  SchemaAst, Top, Enum, as_enum, enums, find_enum, is_other_enum, enum_named,
}
use prisma_engine.Datamodel.Ast.Render.{ExpressionText}
use prisma_engine.Migration.Calculator.{apply, apply_step}
use prisma_engine.Migration.Calculator.Enums.{apply_delete_enum}
use prisma_engine.Migration.Differ.{push_deleted_enums}

-- The schema without the enums of some names.
abbrev pub is_kept : List String → Top → Bool
is_kept gone t = all (λ g. is_other_enum g t) gone

abbrev pub without_enums : List String → SchemaAst → SchemaAst
without_enums gone s = record { tops = filter (is_kept gone) s.tops }

-- Enums are kept by their names.
abbrev is_kept_enum : List String → Enum → Bool
is_kept_enum gone m = all (λ g. not (m.name.name == g)) gone

is_kept-as_enum :
    (gone : List String) (t : Top) (m : Enum)
    → as_enum t ≡ some m
    → is_kept gone t ≡ is_kept_enum gone m
unfolding all
is_kept-as_enum [] t m h = refl
is_kept-as_enum (g ∷ gone) (Top.enum x) m h =
    let ih = is_kept-as_enum gone (Top.enum x) m h in ground (arith, ih)
is_kept-as_enum (g ∷ gone) (Top.model x) m h = cc
is_kept-as_enum (g ∷ gone) (Top.source x) m h = cc
is_kept-as_enum (g ∷ gone) (Top.generator x) m h = cc
is_kept-as_enum (g ∷ gone) (Top.type x) m h = cc

is_kept_enum-any :
    (gone : List String) (m : Enum) (n : String)
    → any (λ t. t == n) gone ≡ false
    → m.name.name == n ≡ true
    → is_kept_enum gone m ≡ true
unfolding all any
is_kept_enum-any [] m n h e = refl
is_kept_enum-any (g ∷ gone) m n h e =
    let ih = is_kept_enum-any gone m n in
    ground (arith, ih, eq_iff m.name.name n, eq_iff m.name.name g, eq_iff g n)

find_enum-without_enums :
    (gone : List String) (s : SchemaAst) (n : String)
    → any (λ t. t == n) gone ≡ false
    → find_enum (without_enums gone s) n ≡ find_enum s n
unfolding find_enum enums
find_enum-without_enums gone s n h =
    rw (filter_map-filter as_enum (is_kept gone) (is_kept_enum gone) (is_kept-as_enum gone) s.tops)
      (find?-filter-id (is_kept_enum gone) (enum_named n) (λ m e. is_kept_enum-any gone m n h e)
        (enums s))

without_enums-snoc :
    (gone : List String) (s : SchemaAst) (n : String)
    → record { tops = filter (is_other_enum n) (without_enums gone s).tops }
      ≡ without_enums (gone ++ n ∷ []) s
unfolding all
without_enums-snoc gone s n =
    ap (λ (ts : List Top). record { tops = ts })
      (filter-filter (is_kept gone) (is_other_enum n) s.tops
        ∙ filter-cong (λ t. is_kept gone t && is_other_enum n t) (is_kept (gone ++ n ∷ []))
            (λ t. sym (
              all-append (λ g. is_other_enum g t) gone (n ∷ [])
              ∙ ap (λ b. is_kept gone t && b) (and-true (is_other_enum n t))))
            s.tops)

module _ (text : ExpressionText) (s : SchemaAst) where
  delete_after :
      (gone : List String) (todo : List Enum)
      → are_new gone (map (λ m. m.name.name) todo) ≡ true
      → all (λ m. is_some (find_enum s m.name.name)) todo ≡ true
      → apply text (without_enums gone s) (push_deleted_enums text todo)
        ≡ ok (without_enums (gone ++ map (λ m. m.name.name) todo) s)
  unfolding apply push_deleted_enums apply_step apply_delete_enum all
  delete_after gone [] new found = rw append-nil refl
  delete_after gone (m ∷ todo) new found =
      let n = m.name.name in
      let (absent, later) = are_new-cons gone n (map (λ m. m.name.name) todo) new in
      elim (Option-cases (find_enum s n)) [
        | inl e ↦ (let bad : is_some (find_enum s n) ≡ true = ground arith in ground arith)
        | inr (x, e) ↦
            rw (find_enum-without_enums gone s n absent, e, ◌>>=◌, without_enums-snoc gone s n)
              (delete_after (gone ++ n ∷ []) todo later (ground arith)
                ∙ rw (append_assoc gone (n ∷ []) (map (λ m. m.name.name) todo)) refl)
      ]

  -- The steps that the differ gives for deleted enums take all of them out of any schema, and leave
  -- every other node where it is. The names of these enums must each be different, and the schema must
  -- have an enum of each.
  pub apply-push_deleted_enums :
      (gone : List Enum)
      → are_new [] (map (λ m. m.name.name) gone) ≡ true
      → all (λ m. is_some (find_enum s m.name.name)) gone ≡ true
      → apply text s (push_deleted_enums text gone)
        ≡ ok (without_enums (map (λ m. m.name.name) gone) s)
  unfolding filter all
  apply-push_deleted_enums gone new found =
      ap (λ (ts : List Top). apply text (record { tops = ts }) (push_deleted_enums text gone))
        (sym (filter-all s.tops))
      ∙ delete_after [] gone new found
