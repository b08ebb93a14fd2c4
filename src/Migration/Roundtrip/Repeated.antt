-- ===== src/Migration/Roundtrip/Repeated.antt =====
-- A directive that is created beside one of its name, such as a second `@@unique`
-- (migration-engine/core/src/migration).
use mathlib.Core.Option
use mathlib.Core.Option.{some-injective}
use prisma_engine.Base.{
  String, Bool, true, Option, none, some, List, [], ◌∷◌, ◌++◌, ◌≡◌, refl, sym, ap, ◌∙◌, ok, ◌>>=◌,
  flat_map, modify_first, append_assoc, append-nil, str_refl, map-eq-some,
}
use prisma_engine.Datamodel.Ast.{Directive, Argument}
use prisma_engine.Datamodel.Ast.Render.{ExpressionText}
use prisma_engine.Migration.Steps.{DirectiveType}
use prisma_engine.Migration.Calculator.{apply, apply_step}
use prisma_engine.Migration.Calculator.Common.{traverse}
use prisma_engine.Migration.Calculator.Directives.{
  find_directive_mut, apply_create_directive, apply_create_directive_argument, new_directive,
  push_argument, directive_named,
}
use prisma_engine.Migration.Differ.Directives.{
  push_created_directive_argument, push_created_directive,
}
use prisma_engine.Migration.Roundtrip.Fresh.{traverse-cons}
use prisma_engine.Migration.Roundtrip.Reread.{reread_argument, plain_directive}
use prisma_engine.Migration.Roundtrip.Directives.{Place}

abbrev with_arguments : Directive → List Argument → Directive
with_arguments x args = record x { arguments = args }

modify_first-head :
    {A : Type 0} (p : A → Bool) (f : A → Option A) (x : A) (xs : List A)
    → p x ≡ true
    → modify_first p f (x ∷ xs) ≡ Option.map (λ y. y ∷ xs) (f x)
unfolding modify_first
modify_first-head p f x xs hit = rw hit refl

module _ (text : ExpressionText) (location : DirectiveType) (place : Place location) where
  argument_to_first :
      (x : Directive) (ds : List Directive) (args : List Argument) (a a' : Argument)
      → reread_argument text a ≡ some a'
      → apply_create_directive_argument text (place.put (with_arguments x args ∷ ds)) (record {
        directive_location = record {
          location = location;
          directive = x.name.name;
          arguments = none;
        };
        argument = a.name.name;
        value = text.render a.value;
      })
        ≡ ok (place.put (with_arguments x (args ++ a' ∷ []) ∷ ds))
  unfolding apply_create_directive_argument find_directive_mut reread_argument
  argument_to_first x ds args a a' h =
      let (e, parsed, out) = map-eq-some _ _ h in
      rw
        (
          place.found,
          modify_first-head (directive_named x.name.name)
              (push_argument text a.name.name (text.render a.value)) (with_arguments x args) ds
              (str_refl x.name.name),
          parsed,
          out,
        )
        refl

  to_first :
      (x : Directive) (ds : List Directive) (args new : List Argument) {new' : List Argument}
      → traverse (reread_argument text) new ≡ some new'
      → apply text (place.put (with_arguments x args ∷ ds)) (
          flat_map
            (push_created_directive_argument text
              (record { location = location; directive = x.name.name; arguments = none }))
            new)
        ≡ ok (place.put (with_arguments x (args ++ new') ∷ ds))
  unfolding apply traverse flat_map push_created_directive_argument apply_step
  to_first x ds args [] h = rw (← some-injective _ _ h, append-nil) refl
  to_first x ds args (a ∷ new) h =
      let (a', rest', e, rest, out) = traverse-cons (reread_argument text) a new h in
      rw (argument_to_first x ds args a a' e, ◌>>=◌)
        (to_first x ds (args ++ a' ∷ []) new rest
          ∙ rw (out, append_assoc args (a' ∷ []) rest') refl)

  -- A directive that is created where the first directive has its name leaves its arguments to that one,
  -- behind its own, and stands at the end with none. The texts of its arguments must read.
  pub apply-push_created_directive_repeated :
      (x : Directive) (ds : List Directive) (d : Directive) {args : List Argument}
      → x.name.name ≡ d.name.name
      → traverse (reread_argument text) d.arguments ≡ some args
      → apply text (place.put (x ∷ ds)) (push_created_directive text location d)
        ≡ ok (
            place.put (
              record x { arguments = x.arguments ++ args }
              ∷ (ds ++ plain_directive d.name.name [] ∷ [])))
  unfolding apply push_created_directive apply_step apply_create_directive new_directive traverse
  apply-push_created_directive_repeated x ds d same read =
      let n = d.name.name in
      let ds' = ds ++ plain_directive n [] ∷ [] in
      rw
        (
          place.found (x ∷ ds) some,
          place.found (x ∷ ds) (λ l. some (l ++ plain_directive n [] ∷ [])),
          ◌>>=◌,
        )
        (ap
            (λ (k : String). apply text (place.put (x ∷ ds')) (
              flat_map
                (push_created_directive_argument text
                  (record { location = location; directive = k; arguments = none }))
                d.arguments))
            (sym same)
          ∙ to_first x ds' x.arguments d.arguments read)
