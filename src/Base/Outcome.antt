-- ===== src/Base/Outcome.antt =====
-- Rust's `Result` with its `?`; `panic` is no Rust value, but a call that does not return.
use mathlib.Core.Path.{◌≡◌, refl}
use mathlib.Core.Option.{Option, none, some}
use mathlib.Core.Bool.{Bool, true, false}
use native.Mathlib.Omega.{arith}

pub data Result {ℓ κ} (A : Type ℓ) (E : Type κ) : Type (ℓ ⊔ κ) where
  ok : A → Result A E
  err : E → Result A E
  panic : Result A E

-- `if test { return Err(e) }`
abbrev pub fail_if {ι} : {E : Type ι} → Bool → E → Result (Unit {0}) E
fail_if false e = ok tt
fail_if true e = err e

-- `m?`: the rest runs on the value; an error is returned.
infixl 5 ◌>>=◌
abbrev pub ◌>>=◌ {ℓ κ ι} :
    {A : Type ℓ} {B : Type κ} {E : Type ι} → Result A E → (A → Result B E) → Result B E
panic >>= rest = panic
err e >>= rest = err e
ok a >>= rest = rest a

-- The same for a test, whose value is `()`.
infixl 5 ◌>>◌
abbrev pub ◌>>◌ {κ ι} :
    {B : Type κ} {E : Type ι} (test : Result (Unit {0}) E) (rest : Result B E) → Result B E
test >> rest = test >>= (λ _. rest)

abbrev pub map_err {ℓ κ ι} :
    {A : Type ℓ} {E : Type κ} {F : Type ι} → (E → F) → Result A E → Result A F
map_err f (ok a) = ok a
map_err f (err e) = err (f e)
map_err f panic = panic

abbrev pub ok_or {ℓ κ} : {A : Type ℓ} {E : Type κ} → Option A → E → Result A E
ok_or none e = err e
ok_or (some a) e = ok a

-- The value of a step that panics on `none`.
abbrev pub or_panic {ℓ κ} : {A : Type ℓ} {E : Type κ} → Option A → Result A E
or_panic none = panic
or_panic (some a) = ok a

-- Inversion of a chain that ends well.
pub >>=-eq-ok {ℓ κ ι} :
    {A : Type ℓ} {B : Type κ} {E : Type ι} (step : Result A E) (rest : A → Result B E)
    → {end : B} → (step >>= rest) ≡ ok end
    → (value : A) × (step ≡ ok value) × (rest value ≡ ok end)
>>=-eq-ok panic rest stopped = cc
>>=-eq-ok (err e) rest stopped = cc
>>=-eq-ok (ok value) rest ended = (value, refl, ended)

-- How a call ended.
pub data Ending {ℓ κ} {A : Type ℓ} {E : Type κ} (r : Result A E) : Type (ℓ ⊔ κ) where
  done : (a : A) → r ≡ ok a → Ending r
  failed : (e : E) → r ≡ err e → Ending r
  panics : r ≡ panic → Ending r

pub Result-cases {ℓ κ} : {A : Type ℓ} {E : Type κ} (r : Result A E) → Ending r
Result-cases (ok a) = done a refl
Result-cases (err e) = failed e refl
Result-cases panic = panics refl

pub map_err-ok {ℓ κ ι} :
    {A : Type ℓ} {E : Type κ} {F : Type ι} (f : E → F) (r : Result A E) (a : A)
    → map_err f r ≡ ok a
    → r ≡ ok a
map_err-ok f (ok b) a h = ground arith
map_err-ok f (err e) a h = cc
map_err-ok f panic a h = cc

pub ok_or-ok {ℓ κ} :
    {A : Type ℓ} {E : Type κ} (o : Option A) (e : E) (a : A) → ok_or o e ≡ ok a → o ≡ some a
ok_or-ok none e a h = cc
ok_or-ok (some b) e a h = ground (arith, h)
