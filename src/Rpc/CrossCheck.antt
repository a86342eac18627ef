-- ===== src/Rpc/CrossCheck.antt =====
-- What a value that passed a cross-check has been checked against.
use fortresswallet.Base.{
  ◌≡◌, ◌↔◌, refl, sym, ap₂, ◌∙◌, Bool, true, Bool-cases, inl, inr, List, [], ◌∷◌, Result, ok, err,
  panic, map_err, arith,
}
use fortresswallet.Base.Action.{Action, ◌>>◌}
use fortresswallet.Rpc.{
  Endpoint, Untrusted, CrossCheckError, disagreement, cross_check, confirm, try_cross_check,
}

module _ {T : Type 0} (same : T → T → Bool) (u : Untrusted T) where
  module _ {S E : Type 0} (query : Endpoint → Action S E T) where
    -- The endpoints were asked one after the other, and each answered the same.
    abbrev pub Corroborated : List Endpoint → S → S → Type 0
    Corroborated [] s end = s ≡ end
    Corroborated (e ∷ others) s end =
        (v : T) × ((query e s).0 ≡ ok v)
        × (same v u.value ≡ true)
        × Corroborated others (query e s).1 end

    -- One answer, and what follows it.
    answered_iff :
        (e : Endpoint) (answer : Result T E × S) (rest : Action S (CrossCheckError E) T) (s end : S)
        (v : T)
        → (((λ _. (confirm same u e answer.0, answer.1)) >> rest) s ≡ (ok v, end))
          ↔ ((w : T) × (answer.0 ≡ ok w) × (same w u.value ≡ true) × (rest answer.1 ≡ (ok v, end)))
    answered_iff e (ok w, after) rest s end v = elim (Bool-cases (same w u.value)) [
      | inl agrees ↦
          let run : ((λ _. (confirm same u e (ok w), after)) >> rest) s ≡ rest after =
            rw (agrees) refl in
          (λ h. (w, refl, agrees, sym run ∙ h), λ (_, _, _, h). run ∙ h)
      | inr differs ↦ (
        λ h. absurd (ground (arith, differs, h)),
        λ (w', e', a, h). absurd (ground (arith, differs, e', a)),
      )
    ]
    answered_iff e (err x, after) rest s end v =
        (λ h. absurd (ground (arith, h)), λ (w, e', _, _). absurd (cc (e')))
    answered_iff e (panic, after) rest s end v =
        (λ h. absurd (ground (arith, h)), λ (w, e', _, _). absurd (cc (e')))

    -- A check over the network returns a value only if it is the claimed one and every endpoint,
    -- asked in order, answered the same; and then it does return it.
    pub try_cross_check_iff :
        (others : List Endpoint) (s end : S) (v : T)
        → (try_cross_check same u others query s ≡ (ok v, end))
          ↔ ((v ≡ u.value) × Corroborated others s end)
    unfolding try_cross_check
    try_cross_check_iff [] s end v = (
      λ h. unfold try_cross_check in ground (arith, h),
      λ (value, stay). ap₂ (λ r t. (ok r, t)) (sym value) stay,
    )
    try_cross_check_iff (e ∷ others) s end v =
        let (there, back) =
          answered_iff e (query e s) (try_cross_check same u others query) s end v in
        let (onward, return) = try_cross_check_iff others (query e s).1 end v in
        (
          λ h.
              let (w, answer, agrees, rest) = there h in
              let (value, path) = onward rest in (value, (w, answer, agrees, path)),
          λ (value, (w, answer, agrees, path)). back (w, answer, agrees, return (value, path)),
        )

  -- Where no query fails or changes anything, the two checks are the same.
  pub try_cross_check-cross_check :
      {S E : Type 0} (query : Endpoint → T) (others : List Endpoint) (s : S)
      → try_cross_check {E = E} same u others (λ e s'. (ok (query e), s')) s
        ≡ (map_err disagreement (cross_check same u others query), s)
  unfolding cross_check try_cross_check
  try_cross_check-cross_check query [] s = refl
  try_cross_check-cross_check query (e ∷ others) s = elim (Bool-cases (same (query e) u.value)) [
    | inl agrees ↦ rw (agrees) (try_cross_check-cross_check query others s)
    | inr differs ↦ rw (differs) refl
  ]
