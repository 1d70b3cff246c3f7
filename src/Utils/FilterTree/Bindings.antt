-- ===== src/Utils/FilterTree/Bindings.antt =====
-- The rules by which a checked computation binds one parameter for each placeholder.
use Prim.Native.String.{String, ◌++◌}
use dashboard_template_api.Common.{
  ℕ, ◌≡◌, refl, Bool, true, false, List, arith, length, length-append, All,
}
use dashboard_template_api.Utils.SqlText.{ends_inside, placeholders, Holds, Holds-append}
use dashboard_template_api.Utils.Identifiers.Joining.{IsClosed, total, Holds-subst}
use dashboard_template_api.Utils.FilterTree.Input.{
  SqlTypeFamily, fam_numeric, fam_date, fam_text, fam_boolean, fam_other, Value, Items, BadInput,
  ◌>>=◌, ◌>>◌, require, nil, cons, Checked, ok, refused, FilterOperation,
}
use dashboard_template_api.Utils.FilterTree.Typing.{Platform, sql_type_family, cast_type_of}
use dashboard_template_api.Utils.FilterTree.Operations.{
  Shape, valueless, like, matches, between, in_list, comparison, shape_of_operation,
}
use dashboard_template_api.Utils.FilterTree.Values.{coerce_value}
use dashboard_template_api.Utils.FilterTree.Criterion.{CompiledFilter, bind, placeholder, bind_all}
use dashboard_template_api.Utils.FilterTree.SafeTypes.{
  is_bare, is_bare-IsPlain, numeric_family-IsPlain, date_family-IsPlain,
}

unfoldable pub text : Unit {0}
unfolding ends_inside placeholders
text = tt

-- Every result of a compilation has one parameter for each placeholder.
abbrev pub IsBound : CompiledFilter → Type 0
IsBound f = Holds f.sql (length f.params)

unfoldable pub Binds {ℓ κ} : {A : Type ℓ} → (A → Type κ) → Checked A → Type κ
Binds P (ok a) = P a
Binds P (refused e) = Unit

cast-Holds :
    (s : String) → Holds (cast_type_of s) 0 → Holds ("CAST(? AS " ++ (cast_type_of s ++ ")")) 1
unfolding text
cast-Holds s h =
    Holds-append {m = 1} (record { closed = refl; count = refl })
      (Holds-append h (record { closed = refl; count = refl }))

placeholder-Holds :
    (js : Platform) (family : SqlTypeFamily) (s : String)
    → sql_type_family s ≡ family
    → Holds (placeholder js family s) 1
unfolding text
placeholder-Holds js fam_numeric s h = cast-Holds s (numeric_family-IsPlain s h)
placeholder-Holds js fam_date s h = cast-Holds s (date_family-IsPlain s h)
placeholder-Holds js fam_text s h = record { closed = refl; count = refl }
placeholder-Holds js fam_boolean s h = record { closed = refl; count = refl }
placeholder-Holds js fam_other s h = record { closed = refl; count = refl }

pub Binds->>= {ℓ κ ν μ} :
    {A : Type ℓ} {B : Type κ} (P : A → Type ν) (Q : B → Type μ) (m : Checked A) (k : A → Checked B)
    → Binds P m
    → ((a : A) → P a → Binds Q (k a))
    → Binds Q (m >>= k)
unfolding Binds ◌>>=◌
Binds->>= P Q (ok a) k h f = f a h
Binds->>= P Q (refused e) k h f = tt

pub Binds-require {ℓ κ} :
    {A : Type ℓ} (P : A → Type κ) (b : Bool) (e : BadInput) (m : Checked A)
    → Binds P m
    → Binds P (require b e >> m)
unfolding Binds ◌>>◌ require
Binds-require P true e m h = h
Binds-require P false e m h = tt

-- the same, with the test that was passed
pub Binds-guard {ℓ κ} :
    {A : Type ℓ} (P : A → Type κ) (b : Bool) (e : BadInput) (m : Checked A)
    → (b ≡ true → Binds P m)
    → Binds P (require b e >> m)
unfolding Binds ◌>>◌ require
Binds-guard P true e m h = h refl
Binds-guard P false e m h = tt

pub Binds->> {ℓ κ ν} :
    {A : Type ℓ} {B : Type κ} (P : B → Type ν) (m : Checked A) (k : Checked B)
    → Binds P k
    → Binds P (m >> k)
unfolding Binds ◌>>◌
Binds->> P (ok a) k h = h
Binds->> P (refused e) k h = tt

pub Binds-refused {ℓ κ} : {A : Type ℓ} (P : A → Type κ) (e : BadInput) → Binds P (refused e)
unfolding Binds
Binds-refused P e = tt

pub Binds-map {ℓ κ ν} :
    {A : Type ℓ} (P : A → Type κ) (Q : A → Type ν) (m : Checked A)
    → Binds P m
    → ((a : A) → P a → Q a)
    → Binds Q m
unfolding Binds
Binds-map P Q (ok a) h f = f a h
Binds-map P Q (refused e) h f = tt

pub Binds-ok {ℓ κ} : {A : Type ℓ} (P : A → Type κ) (a : A) → P a → Binds P (ok a)
unfolding Binds
Binds-ok P a h = h

pub Binds_result {ℓ κ} :
    {A : Type ℓ} (P : A → Type κ) (m : Checked A) (a : A) → Binds P m → m ≡ ok a → P a
Binds_result P m a h e = unfold Binds in rw e at h

pub Binds-any {ℓ} : {A : Type ℓ} (m : Checked A) → Binds (λ a. Unit {0}) m
unfolding Binds
Binds-any (ok a) = tt
Binds-any (refused e) = tt

abbrev pub AreBound : List String × List Value → Type 0
AreBound (texts, params) = All IsClosed texts × (total texts ≡ length params)

module _ (js : Platform) (family : SqlTypeFamily) (s : String)
    (typed : sql_type_family s ≡ family) where
  pub bind-Holds : (raw : Value) → Binds IsBound (bind js family s raw)
  bind-Holds raw =
      Binds->>= (λ v. Unit {0}) IsBound (coerce_value js family s raw) _ (Binds-any _)
        (λ value u. Binds-ok IsBound _ (placeholder-Holds js family s typed))

  pub bind_all-Holds : (raws : Items) → Binds AreBound (bind_all js family s raws)
  unfolding bind_all total
  bind_all-Holds nil = Binds-ok AreBound _ (tt, refl)
  bind_all-Holds (cons raw raws) =
      Binds->>= IsBound AreBound (bind js family s raw) _ (bind-Holds raw) (λ one h.
        Binds->>= AreBound AreBound (bind_all js family s raws) _ (bind_all-Holds raws) (λ r hr.
          let (closed, count) = hr in
          Binds-ok AreBound _
            ((h.closed, closed), omega (arith, h.count, count, length-append one.params r.1))))

-- The words of an operation are plain.
abbrev pub bare_shape : Shape → Bool
bare_shape (valueless keyword) = is_bare keyword
bare_shape (like operator pattern) = is_bare operator
bare_shape matches = true
bare_shape (between keyword) = is_bare keyword
bare_shape (in_list keyword) = is_bare keyword
bare_shape (comparison operator) = is_bare operator

pub shape_of_operation_bare : (op : FilterOperation) → bare_shape (shape_of_operation op) ≡ true
unfolding shape_of_operation is_bare
shape_of_operation_bare op = ground arith

pub space-Holds : Holds " " 0
unfolding text
space-Holds = record { closed = refl; count = refl }

-- a plain word after a space
pub spaced : (word : String) → is_bare word ≡ true → Holds (" " ++ word) 0
spaced word h = Holds-append space-Holds (is_bare-IsPlain word h)

-- a column, a word and what follows it
pub phrase :
    {quoted rest : String} {n : ℕ} (word : String)
    → Holds quoted 0
    → is_bare word ≡ true
    → Holds rest n
    → Holds (quoted ++ (" " ++ (word ++ rest))) n
phrase word q h r =
    Holds-subst (omega arith)
      (Holds-append q (Holds-append space-Holds (Holds-append (is_bare-IsPlain word h) r)))

pub comma-Holds : Holds ", " 0
unfolding text
comma-Holds = record { closed = refl; count = refl }
