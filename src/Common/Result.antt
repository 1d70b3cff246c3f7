-- ===== src/Common/Result.antt =====
-- Fallible code: a value or the error that is thrown, and what a result is known to satisfy.
use mathlib.Core.Path.{◌≡◌, refl}
use mathlib.Core.Bool.{Bool, true, false}
use mathlib.Core.List.{List, [], ◌∷◌}
use dashboard_template_api.Common.Lists.{All}

pub data Result {ℓ} (E : Type 0) (A : Type ℓ) : Type ℓ where
  done : A → Result E A
  thrown : E → Result E A

infixl 5 ◌>>=◌ ◌>>◌
unfoldable pub ◌>>=◌ {ℓ κ} :
    {E : Type 0} {A : Type ℓ} {B : Type κ} → Result E A → (A → Result E B) → Result E B
done a >>= k = k a
thrown e >>= k = thrown e

unfoldable pub ◌>>◌ {ℓ κ} :
    {E : Type 0} {A : Type ℓ} {B : Type κ} → Result E A → Result E B → Result E B
done a >> k = k
thrown e >> k = thrown e

-- `if (!test) throw error`
unfoldable pub check : {E : Type 0} → Bool → E → Result E (Unit {0})
check true e = done tt
check false e = thrown e

-- Every value that is returned satisfies `P`.
unfoldable pub Ensures {ℓ κ} : {E : Type 0} {A : Type ℓ} → (A → Type κ) → Result E A → Type κ
Ensures P (done a) = P a
Ensures P (thrown e) = Unit

pub Ensures-done {ℓ κ} :
    (E : Type 0) {A : Type ℓ} (P : A → Type κ) (a : A) → P a → Ensures {E = E} P (done a)
unfolding Ensures
Ensures-done E P a h = h

module _ {E : Type 0} where
  pub Ensures->>= {ℓ κ ν μ} :
      {A : Type ℓ} {B : Type κ} (P : A → Type ν) (Q : B → Type μ) (m : Result E A)
      (k : A → Result E B)
      → Ensures P m
      → ((a : A) → P a → Ensures Q (k a))
      → Ensures Q (m >>= k)
  unfolding Ensures ◌>>=◌
  Ensures->>= P Q (done a) k h f = f a h
  Ensures->>= P Q (thrown e) k h f = tt

  pub Ensures->> {ℓ κ ν} :
      {A : Type ℓ} {B : Type κ} (P : B → Type ν) (m : Result E A) (k : Result E B)
      → Ensures P k
      → Ensures P (m >> k)
  unfolding Ensures ◌>>◌
  Ensures->> P (done a) k h = h
  Ensures->> P (thrown e) k h = tt

  -- What comes after a part may use that the part returned.
  pub Ensures-after {ℓ κ ν} :
      {A : Type ℓ} {B : Type κ} (P : B → Type ν) (m : Result E A) (k : Result E B)
      → ((a : A) → m ≡ done a → Ensures P k)
      → Ensures P (m >> k)
  unfolding Ensures ◌>>◌
  Ensures-after P (done a) k h = h a refl
  Ensures-after P (thrown e) k h = tt

  -- A check that was passed.
  pub Ensures-check {ℓ κ} :
      {A : Type ℓ} (P : A → Type κ) (b : Bool) (e : E) (k : Result E A)
      → (b ≡ true → Ensures P k)
      → Ensures P (check b e >> k)
  unfolding Ensures ◌>>◌ check
  Ensures-check P true e k h = h refl
  Ensures-check P false e k h = tt

  -- What holds of the value that is returned, if one is.
  pub Ensures-of {ℓ κ} :
      {A : Type ℓ} (P : A → Type κ) (m : Result E A) → ((a : A) → m ≡ done a → P a) → Ensures P m
  unfolding Ensures
  Ensures-of P (done a) h = h a refl
  Ensures-of P (thrown e) h = tt

  pub Ensures-thrown {ℓ κ} : {A : Type ℓ} (P : A → Type κ) (e : E) → Ensures P (thrown e)
  unfolding Ensures
  Ensures-thrown P e = tt

  pub Ensures-weaken {ℓ κ ν} :
      {A : Type ℓ} (P : A → Type κ) (Q : A → Type ν) (m : Result E A)
      → Ensures P m
      → ((a : A) → P a → Q a)
      → Ensures Q m
  unfolding Ensures
  Ensures-weaken P Q (done a) h f = f a h
  Ensures-weaken P Q (thrown e) h f = tt

  pub Ensures-any {ℓ} : {A : Type ℓ} (m : Result E A) → Ensures (λ a. Unit {0}) m
  unfolding Ensures
  Ensures-any (done a) = tt
  Ensures-any (thrown e) = tt

  pub Ensures_at {ℓ κ} :
      {A : Type ℓ} (P : A → Type κ) (m : Result E A) (a : A) → Ensures P m → m ≡ done a → P a
  unfolding Ensures
  Ensures_at P m a h e = rw e at h

-- `xs.map(f)`, where the first call that throws ends it
unfoldable pub traverse {ℓ κ} :
    {E : Type 0} {A : Type ℓ} {B : Type κ} → (A → Result E B) → List A → Result E (List B)
unfolding ◌>>=◌
traverse f [] = done []
traverse f (x ∷ xs) = f x >>= λ y. traverse f xs >>= λ ys. done (y ∷ ys)

-- `for (const x of xs) s = step(x, s)`, where the first step that throws ends it
unfoldable pub fold {ℓ κ} :
    {E : Type 0} {A : Type ℓ} {S : Type κ} → (A → S → Result E S) → List A → S → Result E S
unfolding ◌>>=◌
fold step [] s = done s
fold step (x ∷ xs) s = step x s >>= λ next. fold step xs next

-- An invariant of the state that every step keeps.
pub Ensures-fold {ℓ κ ν} :
    {E : Type 0} {A : Type ℓ} {S : Type κ} (P : S → Type ν) (step : A → S → Result E S)
    → ((x : A) (s : S) → P s → Ensures P (step x s))
    → (xs : List A) (s : S) → P s
    → Ensures P (fold step xs s)
unfolding fold
Ensures-fold {E} P step keeps [] s h = Ensures-done E P s h
Ensures-fold P step keeps (x ∷ xs) s h =
    Ensures->>= P P (step x s) _ (keeps x s h) λ next k. Ensures-fold P step keeps xs next k

-- Two lists of one length, related element by element.
unfoldable pub Pointwise {ℓ κ} :
    {A : Type ℓ} {B : Type κ} → (A → B → Type 0) → List A → List B → Type 0
Pointwise Q [] [] = Unit
Pointwise Q [] (y ∷ ys) = ⊥
Pointwise Q (x ∷ xs) [] = ⊥
Pointwise Q (x ∷ xs) (y ∷ ys) = Q x y × Pointwise Q xs ys

-- What every element is mapped to.
pub Ensures-traverse {ℓ κ} :
    {E : Type 0} {A : Type ℓ} {B : Type κ} (Q : A → B → Type 0) (f : A → Result E B)
    → ((x : A) → Ensures (Q x) (f x))
    → (xs : List A) → Ensures (Pointwise Q xs) (traverse f xs)
unfolding traverse Pointwise
Ensures-traverse {E} Q f h [] = Ensures-done E (Pointwise Q []) [] tt
Ensures-traverse {E} Q f h (x ∷ xs) = Ensures->>= (Q x) (Pointwise Q (x ∷ xs)) (f x) _ (h x) λ y q.
    Ensures->>= (Pointwise Q xs) (Pointwise Q (x ∷ xs)) (traverse f xs) _
      (Ensures-traverse Q f h xs) λ ys qs. Ensures-done E (Pointwise Q (x ∷ xs)) (y ∷ ys) (q, qs)

-- An error under another name.
unfoldable pub map_error {ℓ} : {E F : Type 0} {A : Type ℓ} → (E → F) → Result E A → Result F A
map_error f (done a) = done a
map_error f (thrown e) = thrown (f e)

-- Every error that is thrown satisfies `Q`.
unfoldable pub Fails {ℓ} : {E : Type 0} {A : Type ℓ} → (E → Type 0) → Result E A → Type 0
Fails Q (done a) = Unit
Fails Q (thrown e) = Q e

module _ {E : Type 0} (Q : E → Type 0) where
  pub Fails-done {ℓ} : {A : Type ℓ} (a : A) → Fails Q (done a)
  unfolding Fails
  Fails-done a = tt

  pub Fails->>= {ℓ κ} :
      {A : Type ℓ} {B : Type κ} (m : Result E A) (k : A → Result E B)
      → Fails Q m
      → ((a : A) → m ≡ done a → Fails Q (k a))
      → Fails Q (m >>= k)
  unfolding Fails ◌>>=◌
  Fails->>= (done a) k h f = f a refl
  Fails->>= (thrown e) k h f = h

  pub Fails->> {ℓ κ} :
      {A : Type ℓ} {B : Type κ} (m : Result E A) (k : Result E B)
      → Fails Q m
      → ((a : A) → m ≡ done a → Fails Q k)
      → Fails Q (m >> k)
  unfolding Fails ◌>>◌
  Fails->> (done a) k h f = f a refl
  Fails->> (thrown e) k h f = h

  pub Fails-check : (b : Bool) (e : E) → Q e → Fails Q (check b e)
  unfolding Fails check
  Fails-check true e h = tt
  Fails-check false e h = h

  pub Fails-traverse {ℓ κ ν} :
      {A : Type ℓ} {B : Type κ} (P : A → Type ν) (f : A → Result E B)
      → ((x : A) → P x → Fails Q (f x))
      → (xs : List A) → All P xs
      → Fails Q (traverse f xs)
  unfolding traverse
  Fails-traverse P f h [] t = Fails-done []
  Fails-traverse P f h (x ∷ xs) (p, ps) =
      Fails->>= (f x) _ (h x p)
        λ y e. Fails->>= (traverse f xs) _ (Fails-traverse P f h xs ps) λ ys es. Fails-done (y ∷ ys)

  pub Fails-fold {ℓ κ} :
      {A : Type ℓ} {S : Type κ} (step : A → S → Result E S)
      → ((x : A) (s : S) → Fails Q (step x s))
      → (xs : List A) (s : S) → Fails Q (fold step xs s)
  unfolding fold
  Fails-fold step h [] s = Fails-done s
  Fails-fold step h (x ∷ xs) s = Fails->>= (step x s) _ (h x s) λ next e. Fails-fold step h xs next

  pub Fails_at {ℓ} : {A : Type ℓ} (m : Result E A) (e : E) → Fails Q m → m ≡ thrown e → Q e
  unfolding Fails
  Fails_at m e h eq = rw eq at h

-- What comes after a value may use that the value was returned.
pub Ensures-then {ℓ κ ν} :
    {E : Type 0} {A : Type ℓ} {B : Type κ} (P : B → Type ν) (m : Result E A) (k : A → Result E B)
    → ((a : A) → m ≡ done a → Ensures P (k a))
    → Ensures P (m >>= k)
unfolding Ensures ◌>>=◌
Ensures-then P (done a) k h = h a refl
Ensures-then P (thrown e) k h = tt
