-- ===== src/Error.antt =====
-- src/error.rs: the error type, and the result of an operation on a state. `stuck` is no value of
-- the source: a Rust panic (an index out of bounds, `unwrap` on None), or the fuel of a loop of the
-- model that ran out.
use manifestus.Base.{String, ℕ, ◌≡◌, ◌∙◌, refl, subst, Bool, true, false, if◌then◌else◌}

pub data Error : Type 0 where
  io : String → Error
  bad_magic : Error
  seal : Error
  corrupt : String → Error
  verify : ℕ → Error
  bounds : ℕ → Error
  fenced : ℕ → Error
  tract_full : Error
  busy : String → Error

pub data Result {ℓ} (A : Type ℓ) : Type ℓ where
  ok : A → Result A
  err : Error → Result A
  stuck : Result A

-- `?` on a pure result.
abbrev pub and_then {ℓ κ} : {A : Type ℓ} {B : Type κ} → Result A → (A → Result B) → Result B
and_then (ok a) f = f a
and_then (err e) f = err e
and_then stuck f = stuck

-- `.ok_or_else(..)?`
abbrev pub is_ok {ℓ} : {A : Type ℓ} → Result A → Bool
is_ok (ok a) = true
is_ok (err e) = false
is_ok stuck = false

-- A method on `&mut self`: the state after it is there on the error path too.
abbrev pub Run : Type 0 → Type 0 → Type 0
Run S A = S → Result A × S

abbrev pub continue : {S A B : Type 0} → (A → Run S B) → Result A × S → Result B × S
continue f (ok a, s) = f a s
continue f (err e, s) = (err e, s)
continue f (stuck, s) = (stuck, s)

infixl 5 ◌>>=◌ ◌>>◌
unfoldable pub ◌>>=◌ : {S A B : Type 0} → Run S A → (A → Run S B) → Run S B
◌>>=◌ m f s = continue f (m s)

unfoldable pub ◌>>◌ : {S B : Type 0} → Run S (Unit {0}) → Run S B → Run S B
◌>>◌ m k s = continue (λ _. k) (m s)

abbrev pub pure : {S A : Type 0} → A → Run S A
pure a s = (ok a, s)

abbrev pub throw : {S A : Type 0} → Error → Run S A
throw e s = (err e, s)

-- A pure result inside a method.
abbrev pub lift : {S A : Type 0} → Result A → Run S A
lift r s = (r, s)

-- A split on a result that keeps the equation.
pub data ResultCase {ℓ} {A : Type ℓ} (r : Result A) : Type ℓ where
  is_ok_case : (a : A) → r ≡ ok a → ResultCase r
  is_err_case : (e : Error) → r ≡ err e → ResultCase r
  is_stuck_case : r ≡ stuck → ResultCase r

pub Result-cases {ℓ} : {A : Type ℓ} (r : Result A) → ResultCase r
Result-cases (ok a) = is_ok_case a refl
Result-cases (err e) = is_err_case e refl
Result-cases stuck = is_stuck_case refl

-- A successful bind runs its parts.
continue-eq-ok :
    {S A B : Type 0} (f : A → Run S B) (x : Result A × S) {b : B} {t : S}
    → continue f x ≡ (ok b, t)
    → (a : A) × (s' : S) × (x ≡ (ok a, s')) × (f a s' ≡ (ok b, t))
continue-eq-ok f (ok a, s') h = (a, s', refl, h)
continue-eq-ok f (err e', s') h = absurd (cc h)
continue-eq-ok f (stuck, s') h = absurd (cc h)

pub >>=-eq-ok :
    {S A B : Type 0} (m : Run S A) (f : A → Run S B) (s : S) {b : B} {t : S}
    → (m >>= f) s ≡ (ok b, t)
    → (a : A) × (s' : S) × (m s ≡ (ok a, s')) × (f a s' ≡ (ok b, t))
unfolding ◌>>=◌
>>=-eq-ok m f s h = continue-eq-ok f (m s) h

pub >>-eq-ok :
    {S B : Type 0} (m : Run S (Unit {0})) (k : Run S B) (s : S) {b : B} {t : S}
    → (m >> k) s ≡ (ok b, t)
    → (s' : S) × (m s ≡ (ok tt, s')) × (k s' ≡ (ok b, t))
unfolding ◌>>◌
>>-eq-ok m k s h = let (a, s', e, f) = continue-eq-ok (λ _. k) (m s) h in (s', e, f)

-- What an operation leaves as it was, whatever its result: a part `v` of the state.
module _ {S V : Type 0} (v : S → V) where
  abbrev pub Keeps : {A : Type 0} → Run S A → Type 0
  Keeps m = (s : S) → v (m s).1 ≡ v s

  continue-Keeps :
      {A B : Type 0} (f : A → Run S B) (x : Result A × S)
      → ((a : A) (s : S) → v (f a s).1 ≡ v s)
      → v (continue f x).1 ≡ v x.1
  continue-Keeps f (ok a, s) h = h a s
  continue-Keeps f (err e, s) h = refl
  continue-Keeps f (stuck, s) h = refl

  pub >>=-Keeps :
      {A B : Type 0} (m : Run S A) (f : A → Run S B)
      → Keeps m
      → ((a : A) → Keeps (f a))
      → Keeps (m >>= f)
  unfolding ◌>>=◌
  >>=-Keeps m f h k s = continue-Keeps f (m s) (λ a t. k a t) ∙ h s

  pub >>-Keeps :
      {B : Type 0} (m : Run S (Unit {0})) (k : Run S B) → Keeps m → Keeps k → Keeps (m >> k)
  unfolding ◌>>◌
  >>-Keeps m k h h' s = continue-Keeps (λ _. k) (m s) (λ a t. h' t) ∙ h s

  pub if-Keeps :
      {A : Type 0} (b : Bool) (m k : Run S A) → Keeps m → Keeps k → Keeps (if b then m else k)
  if-Keeps true m k h h' = h
  if-Keeps false m k h h' = h'

  -- The kept part at a run that ended so.
  pub Keeps-end :
      {A : Type 0} (m : Run S A) (s : S) {r : Result A} {t : S} → Keeps m → m s ≡ (r, t) → v t ≡ v s
  Keeps-end {A} m s h e = subst (λ (y : Result A × S). v y.1 ≡ v s) e (h s)

  pub if-end :
      {A : Type 0} (b : Bool) (x y : Result A × S) {w : V}
      → v x.1 ≡ w
      → v y.1 ≡ w
      → v (if b then x else y).1 ≡ w
  if-end true x y h k = h
  if-end false x y h k = k

  pub >>-end :
      {B : Type 0} (m : Run S (Unit {0})) (k : Run S B) (s : S) {w : V}
      → v (m s).1 ≡ w
      → Keeps k
      → v ((m >> k) s).1 ≡ w
  unfolding ◌>>◌
  >>-end m k s h h' = continue-Keeps (λ _. k) (m s) (λ a t. h' t) ∙ h
