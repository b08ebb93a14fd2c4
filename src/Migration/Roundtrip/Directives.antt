-- ===== src/Migration/Roundtrip/Directives.antt =====
-- The steps that create directives, applied where there is a place for directives.
use mathlib.Core.Option
use mathlib.Core.Option.{some-injective}
use mathlib.Core.List.{map-append}
use prisma_engine.Base.{
  >>=-eq-ok, String, true, Option, none, some, List, [], ◌∷◌, ◌++◌, ◌≡◌, refl, ◌∙◌, arith, ok,
  ◌>>=◌, flat_map, map, find?, append_assoc, append-nil, str_refl, map-eq-some,
}
use prisma_engine.Datamodel.Ast.{SchemaAst, Directive, Argument}
use prisma_engine.Datamodel.Ast.Render.{ExpressionText}
use prisma_engine.Migration.Steps.{MigrationStep, DirectiveType}
use prisma_engine.Migration.Calculator.{apply, apply_step}
use prisma_engine.Migration.Calculator.Common.{traverse}
use prisma_engine.Migration.Calculator.Directives.{
  find_directives_mut, find_directive_mut, apply_create_directive, apply_create_directive_argument,
  new_directive, directive_named, push_argument,
}
use prisma_engine.Migration.Differ.Directives.{
  push_created_directive_argument, push_created_directive, push_created_directives,
}
use prisma_engine.Base.{are_new, are_new-cons}
use prisma_engine.Migration.Roundtrip.Fresh.{find?-absent, modify_first-snoc, traverse-cons}
use prisma_engine.Migration.Roundtrip.Reread.{
  reread_argument, reread_directive, plain_directive, reread_directive-name,
}

-- Schemas that differ in the directives at one location, which are all that is seen there.
pub record Place (location : DirectiveType) : Type 0 where
  pub put : List Directive → SchemaAst
  pub found :
      (ds : List Directive) (f : List Directive → Option (List Directive))
      → find_directives_mut (put ds) location f ≡ Option.map put (f ds)

-- Steps are applied one list after the other.
pub apply-append :
    (text : ExpressionText) (s : SchemaAst) (xs ys : List MigrationStep) {t : SchemaAst}
    → apply text s xs ≡ ok t
    → apply text s (xs ++ ys) ≡ apply text t ys
unfolding apply
apply-append text s [] ys h = ground arith
apply-append text s (x ∷ xs) ys h =
    let (s1, e, rest) = >>=-eq-ok (apply_step text s x) (λ s1. apply text s1 xs) h in
    rw (e, ◌>>=◌) (apply-append text s1 xs ys rest)

module _ (text : ExpressionText) (location : DirectiveType) (place : Place location) where
  one_argument :
      (n : String) (ds : List Directive) (args : List Argument) (a a' : Argument)
      → find? (directive_named n) ds ≡ none
      → reread_argument text a ≡ some a'
      → apply_create_directive_argument text
          (place.put (ds ++ plain_directive n args ∷ []))
          (record {
            directive_location = record { location = location; directive = n; arguments = none };
            argument = a.name.name;
            value = text.render a.value;
          })
        ≡ ok (place.put (ds ++ plain_directive n (args ++ a' ∷ []) ∷ []))
  unfolding apply_create_directive_argument find_directive_mut reread_argument
  one_argument n ds args a a' absent h =
      let (e, parsed, out) = map-eq-some _ _ h in
      rw
        (
          place.found,
          modify_first-snoc (directive_named n)
              (push_argument text a.name.name (text.render a.value)) ds (plain_directive n args)
              absent (str_refl n),
          parsed,
          out,
        )
        refl

  all_arguments :
      (n : String) (ds : List Directive) (args new : List Argument) {new' : List Argument}
      → find? (directive_named n) ds ≡ none
      → traverse (reread_argument text) new ≡ some new'
      → apply text (place.put (ds ++ plain_directive n args ∷ [])) (
          flat_map
            (push_created_directive_argument text
              (record { location = location; directive = n; arguments = none }))
            new)
        ≡ ok (place.put (ds ++ plain_directive n (args ++ new') ∷ []))
  unfolding apply traverse flat_map push_created_directive_argument apply_step
  all_arguments n ds args [] absent h = rw (← some-injective _ _ h, append-nil) refl
  all_arguments n ds args (a ∷ new) absent h =
      let (a', new', e, rest, out) = traverse-cons (reread_argument text) a new h in
      let ih = all_arguments n ds (args ++ a' ∷ []) new absent rest in
      rw (one_argument n ds args a a' absent e, ◌>>=◌)
        (ih ∙ rw (out, append_assoc args (a' ∷ []) new') refl)

  one_directive :
      (ds : List Directive) (d d' : Directive)
      → find? (directive_named d.name.name) ds ≡ none
      → reread_directive text d ≡ some d'
      → apply text (place.put ds) (push_created_directive text location d)
        ≡ ok (place.put (ds ++ d' ∷ []))
  unfolding apply push_created_directive apply_step apply_create_directive new_directive traverse
      reread_directive
  one_directive ds d d' absent h =
      let (args, read, out) = map-eq-some _ _ h in
      rw
        (
          place.found ds some,
          place.found ds (λ l. some (l ++ plain_directive d.name.name [] ∷ [])),
          ◌>>=◌,
        )
        (all_arguments d.name.name ds [] d.arguments absent read ∙ rw out refl)

  -- New directives are added behind those that are there.
  pub apply-push_created_directives :
      (ds new : List Directive) {new' : List Directive}
      → are_new (map (λ d. d.name.name) ds) (map (λ d. d.name.name) new) ≡ true
      → traverse (reread_directive text) new ≡ some new'
      → apply text (place.put ds) (push_created_directives text location new)
        ≡ ok (place.put (ds ++ new'))
  unfolding push_created_directives flat_map traverse apply
  apply-push_created_directives ds [] fresh h = rw (← some-injective _ _ h, append-nil) refl
  apply-push_created_directives ds (d ∷ new) fresh h =
      let (d', rest', e, r, out) = traverse-cons (reread_directive text) d new h in
      let (absent, later) = are_new-cons (map (λ d. d.name.name) ds) d.name.name _ fresh in
      let more = push_created_directives text location new in
      let fresh' : are_new (map (λ x. x.name.name) (ds ++ d' ∷ [])) (map (λ x. x.name.name) new)
          ≡ true =
        rw
          (
            map-append (λ (x : Directive). x.name.name) ds (d' ∷ []),
            reread_directive-name text d d' e,
          )
          later in
      apply-append text (place.put ds) (push_created_directive text location d) more (
        one_directive ds d d' (find?-absent (λ (x : Directive). x.name.name) d.name.name ds absent)
          e)
      ∙ (apply-push_created_directives (ds ++ d' ∷ []) new fresh' r
          ∙ rw (out, append_assoc ds (d' ∷ []) rest') refl)
