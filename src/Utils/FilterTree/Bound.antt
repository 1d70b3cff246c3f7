-- ===== src/Utils/FilterTree/Bound.antt =====
-- A compiled criterion has a parameter for each placeholder.
use Prim.Native.String.{String}
use dashboard_template_api.Common.{◌≡◌, refl, true, arith, length-append}
use dashboard_template_api.Common.Map.{lookup}
use dashboard_template_api.Utils.SqlText.{Holds, Holds-append}
use dashboard_template_api.Utils.Identifiers.Quoting.{quote_ident-Holds}
use dashboard_template_api.Utils.Identifiers.Joining.{Holds-subst, Holds-join}
use dashboard_template_api.Utils.FilterTree.Input.{Value, Items, Entries, FilterCriterion, Limits}
use dashboard_template_api.Utils.FilterTree.Typing.{Platform, sql_type_family}
use dashboard_template_api.Utils.FilterTree.Operations.{
  Pattern, Shape, valueless, like, matches, between, in_list, comparison, shape_of_operation,
}
use dashboard_template_api.Utils.FilterTree.Values.{filter_variable}
use dashboard_template_api.Utils.FilterTree.Criterion.{
  Context, Metadata, bind, bind_all, compile_shape, compile_between, compile_in, compile_valueless,
  compile_like, compile_matches, compile_comparison, entries_of, items_of, known_column,
  allowed_operation, get_entry, compile_criterion,
}
use dashboard_template_api.Utils.FilterTree.SafeTypes.{is_bare}
use dashboard_template_api.Utils.FilterTree.Bindings.{
  text, IsBound, Binds, Binds->>=, Binds-require, Binds-ok, Binds-any, AreBound, bind-Holds,
  bind_all-Holds, bare_shape, shape_of_operation_bare, space-Holds, spaced, phrase, comma-Holds,
}

module _ (c : Context) (quoted-Holds : Holds c.quoted 0)
    (typed : sql_type_family c.sql_type ≡ c.family) where
  valueless-Holds :
      (word : String) (value : Value)
      → is_bare word ≡ true
      → Binds IsBound (compile_valueless c word value)
  valueless-Holds word value h =
      Binds-require IsBound _ _ _ (Binds-ok IsBound _ (Holds-append quoted-Holds (spaced word h)))

  like-Holds :
      (word : String) (pattern : Pattern) (value : Value)
      → is_bare word ≡ true
      → Binds IsBound (compile_like c word pattern value)
  unfolding text
  like-Holds word pattern value h =
      Binds-require IsBound _ _ _
        (Binds-ok IsBound _ (phrase word quoted-Holds h (record { closed = refl; count = refl })))

  matches-Holds : (value : Value) → Binds IsBound (compile_matches c value)
  unfolding text
  matches-Holds value = Binds-require IsBound _ _ _ (
      Binds-require IsBound _ _ _ (
        Binds-require IsBound _ _ _ (
          Binds-ok IsBound _ (
            Holds-append {m = 0} (record { closed = refl; count = refl })
              (Holds-append quoted-Holds (record { closed = refl; count = refl }))))))

  between-Holds :
      (word : String) (range : Entries)
      → is_bare word ≡ true
      → Binds IsBound (compile_between c word range)
  unfolding text
  between-Holds word range h = Binds-require IsBound _ _ _ (
      Binds->>= IsBound IsBound (bind c.js c.family c.sql_type (get_entry "min" range)) _
        (bind-Holds c.js c.family c.sql_type typed _)
        (λ low hl.
          Binds->>= IsBound IsBound (bind c.js c.family c.sql_type (get_entry "max" range)) _
            (bind-Holds c.js c.family c.sql_type typed _)
            (λ high hh. Binds-ok IsBound _ (
              Holds-subst (omega (arith, length-append low.params high.params)) (
                phrase word quoted-Holds h (
                  Holds-append space-Holds (
                    Holds-append hl
                      (Holds-append {m = 0} (record { closed = refl; count = refl }) hh))))))))

  in-Holds :
      (word : String) (items : Items)
      → is_bare word ≡ true
      → Binds IsBound (compile_in c word items)
  unfolding text
  in-Holds word items h = Binds-require IsBound _ _ _ (
      Binds-require IsBound _ _ _ (
        Binds-require IsBound _ _ _ (
          Binds->>= AreBound IsBound (bind_all c.js c.family c.sql_type items) _
            (bind_all-Holds c.js c.family c.sql_type typed items)
            (λ r hr.
              let (closed, count) = hr in
              Binds-ok IsBound _ (
                Holds-subst (omega (arith, count)) (
                  phrase word quoted-Holds h (
                    Holds-append {m = 0} (record { closed = refl; count = refl })
                      (Holds-append (Holds-join ", " r.0 comma-Holds closed)
                        (record { closed = refl; count = refl })))))))))

  comparison-Holds :
      (word : String) (value : Value)
      → is_bare word ≡ true
      → Binds IsBound (compile_comparison c word value)
  comparison-Holds word value h = Binds-require IsBound _ _ _ (
      Binds->>= IsBound IsBound (bind c.js c.family c.sql_type value) _
        (bind-Holds c.js c.family c.sql_type typed value)
        (λ one ho.
          Binds-ok IsBound _
            (Holds-subst (omega arith) (phrase word quoted-Holds h (Holds-append space-Holds ho)))))

  compile_shape-Holds :
      (shape : Shape) (value : Value)
      → bare_shape shape ≡ true
      → Binds IsBound (compile_shape c shape value)
  unfolding compile_shape
  compile_shape-Holds (valueless word) value h = valueless-Holds word value h
  compile_shape-Holds (like word pattern) value h = like-Holds word pattern value h
  compile_shape-Holds matches value h = matches-Holds value
  compile_shape-Holds (between word) value h = between-Holds word (entries_of value) h
  compile_shape-Holds (in_list word) value h = in-Holds word (items_of value) h
  compile_shape-Holds (comparison word) value h = comparison-Holds word value h

pub compile_criterion-Holds :
    (js : Platform) (limits : Limits) (metadata : Metadata) (criterion : FilterCriterion)
    → Binds IsBound (compile_criterion js limits metadata criterion)
unfolding compile_criterion
compile_criterion-Holds js limits metadata criterion =
    Binds->>= (λ s. Unit {0}) IsBound (filter_variable criterion.variable) _ (Binds-any _)
      (λ column u.
        Binds->>= (λ s. Unit {0}) IsBound (known_column (lookup column metadata)) _ (Binds-any _)
          (λ meta u1.
            Binds->>= (λ s. Unit {0}) IsBound (allowed_operation _ criterion.operation) _
              (Binds-any _)
              (λ op u2.
                compile_shape-Holds _ (quote_ident-Holds column) refl (shape_of_operation op)
                  criterion.value (shape_of_operation_bare op))))
