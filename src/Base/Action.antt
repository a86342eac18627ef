-- ===== src/Base/Action.antt =====
-- A call that takes `&mut state` and returns a `Result`: what it wrote before an error stays.
use mathlib.Core.Option.{Option}
use mathlib.Core.Path.{◌≡◌, refl, ap, ◌∙◌}
use native.Mathlib.Omega.{arith}
use fortresswallet.Base.{Result, ok, err, panic, or_panic, map_err, map_err-ok}

abbrev pub Action : Type 0 → Type 0 → Type 0 → Type 0
Action S E A = S → Result A E × S

module _ {S E A : Type 0} where
  abbrev pub pure : A → Action S E A
  pure a s = (ok a, s)

  abbrev pub raise : E → Action S E A
  raise e s = (err e, s)

  -- A call that does not touch the state.
  abbrev pub lift : Result A E → Action S E A
  lift r s = (r, s)

  -- A call on `&self` that may panic.
  abbrev pub reads : (S → Option A) → Action S E A
  reads f s = (or_panic (f s), s)

abbrev pub modify : {S E : Type 0} → (S → S) → Action S E (Unit {0})
modify f s = (ok tt, f s)

infixl 5 ◌>>=◌ ◌>>◌
abbrev pub ◌>>=◌ : {S E A B : Type 0} → Action S E A → (A → Action S E B) → Action S E B
◌>>=◌ m f s =
    let (r, s') = m s in elim r [ ok a ↦ f a s' | err e ↦ (err e, s') | panic ↦ (panic, s') ]

abbrev pub ◌>>◌ : {S E B : Type 0} → Action S E (Unit {0}) → Action S E B → Action S E B
m >> k = m >>= λ _. k

-- `?` on an action whose error converts.
abbrev pub map_action : {S E F A : Type 0} → (E → F) → Action S E A → Action S F A
map_action f m s = let (r, after) = m s in (map_err f r, after)

module _ {S E A B : Type 0} where
  ended :
      (r : Result A E × S) (f : A → Action S E B) (s end : S) (b : B)
      → ((λ _. r) >>= f) s ≡ (ok b, end)
      → (a : A) × (r.0 ≡ ok a) × (f a r.1 ≡ (ok b, end))
  ended (ok a, after) f s end b e = (a, refl, e)
  ended (err x, after) f s end b e = absurd (ground (arith, e))
  ended (panic, after) f s end b e = absurd (ground (arith, e))

  -- Inversion of a chain that ends well.
  pub bind-eq-ok :
      (m : Action S E A) (f : A → Action S E B) (s end : S) (b : B)
      → (m >>= f) s ≡ (ok b, end)
      → (a : A) × ((m s).0 ≡ ok a) × (f a (m s).1 ≡ (ok b, end))
  bind-eq-ok m f s end b h = ended (m s) f s end b h

  kept :
      (r : Result A E × S) (f : A → Action S E B) (s : S)
      → r.1 ≡ s
      → ((a : A) (t : S) → (f a t).1 ≡ t)
      → (((λ _. r) >>= f) s).1 ≡ s
  kept (ok a, after) f s h later = later a after ∙ h
  kept (err x, after) f s h later = h
  kept (panic, after) f s h later = h

  -- A chain of calls that leave the state alone.
  pub bind-keeps :
      (m : Action S E A) (f : A → Action S E B) (s : S)
      → (m s).1 ≡ s
      → ((a : A) (t : S) → (f a t).1 ≡ t)
      → ((m >>= f) s).1 ≡ s
  bind-keeps m f s h later = kept (m s) f s h later

-- `map_err` changes no success.
pub map_action-ok :
    {S E F A : Type 0} (f : E → F) (m : Action S E A) (s end : S) (a : A)
    → map_action f m s ≡ (ok a, end)
    → m s ≡ (ok a, end)
map_action-ok f m s end a h =
    let ended = map_err-ok f (m s).0 a (ap (λ p. p.0) h) in λ i. (ended i, (h i).1)
