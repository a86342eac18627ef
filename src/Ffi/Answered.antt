-- ===== src/Ffi/Answered.antt =====
-- What the entry point gives back to the host.
use fortresswallet.Base.{
  ℕ, ◌≡◌, ◌≢◌, ap, ◌∙◌, inl, inr, Bool, refl, true, false, ◌++◌, Option, none, some, List, [], ◌∷◌,
  Result, ok, err, panic, All, Bool-cases, arith,
}
use fortresswallet.Base.Action.{pure, lift, ◌>>=◌}
use fortresswallet.Base.Json.{codes}
use fortresswallet.Crypto.{Backend}
use fortresswallet.Storage.{Vault}
use fortresswallet.Storage.Files.{Disk}
use fortresswallet.Decoder.Evm.{Rlp}
use fortresswallet.Wallet.{Folders}
use fortresswallet.Rpc.Client.{Net}
use fortresswallet.Ffi.{Host, FfiError}
use fortresswallet.Ffi.Handlers.{Response}
use fortresswallet.Ffi.Entry.{process_request}
use fortresswallet.Ffi.Text.{Texts, json_error, error_message, response_text}
use fortresswallet.Ffi.Boundary.{
  contains_nul, c_string, literal, c_string_or_literal, answer_text, caught, catch_unwind, invoke,
}

contains_nul-All : (text : List ℕ) → contains_nul text ≡ false → All (λ b. b ≢ 0) text
unfolding contains_nul
contains_nul-All [] h = tt
contains_nul-All (b ∷ text) h = (ground arith, contains_nul-All text (ground arith))

abbrev invalid_utf8 : List ℕ
invalid_utf8 = codes "{\"error\": \"Invalid UTF-8\"}"

abbrev null_byte : List ℕ
null_byte = codes "{\"error\": \"Null byte in response\"}"

literal-invalid_utf8 :
    (contains_nul invalid_utf8 ≡ false) × (literal invalid_utf8 ≡ ok invalid_utf8)
unfolding contains_nul literal c_string
literal-invalid_utf8 = (refl, refl)

literal-null_byte : (contains_nul null_byte ≡ false) × (literal null_byte ≡ ok null_byte)
unfolding contains_nul literal c_string
literal-null_byte = (refl, refl)

-- A text without NUL is passed on, another one is replaced.
record IsPassed (text given : List ℕ) : Type 0 where
  pub whole : contains_nul text ≡ false → given ≡ text
  pub replaced : contains_nul text ≡ true → given ≡ null_byte
  pub fits : All (λ b. b ≢ 0) given

c_string_or_literal-ok :
    (text : List ℕ) → (given : List ℕ) × (c_string_or_literal text ≡ ok given) × IsPassed text given
unfolding c_string_or_literal c_string
c_string_or_literal-ok text = elim (Bool-cases (contains_nul text)) [
  | inl h ↦ (
    null_byte,
    rw (c_string_or_literal, c_string, h) (literal-null_byte.1),
    record {
      whole = λ e. cc (h, e);
      replaced = λ _. refl;
      fits = contains_nul-All null_byte literal-null_byte.0;
    },
  )
  | inr h ↦ (
    text,
    rw (c_string_or_literal, c_string, h) refl,
    record { whole = λ _. refl; replaced = λ e. cc (h, e); fits = contains_nul-All text h },
  )
]

module _ (B : Backend) (V : Vault) (D : Disk) (F : Folders D) (N : Net D.State) (R : Rlp)
    (H : Host D) (base : Option D.FilePath) (key : B.SigningKey) (draw : ℕ → B.Scalar)
    (salts nonces : ℕ → List ℕ) (is_utf8 : List ℕ → Bool)
    (T : Texts D.IoError N.Code N.Message) where
  open D use {State, IoError}
  open N use {Code, Message}

  -- What a host is told of the outcome of a request.
  abbrev told : Result Response (FfiError IoError Code Message) → List ℕ
  told (ok response) = response_text T response
  told (err e) = json_error T (error_message T e)
  told panic = json_error T (codes "internal error: " ++ T.panic_message)

  -- The outcome of a request, and what the processing leaves.
  abbrev processed : List ℕ → State → Result Response (FfiError IoError Code Message) × State
  processed request s = process_request B V D F N R H base key draw salts nonces request s

  -- The call has returned a text without NUL. A request that is no UTF-8 changed nothing; another one
  -- was processed once, and the text says how that ended.
  pub record IsAnswered (request : List ℕ) (before : State) (r : Result (Option (List ℕ)) ⊥ × State)
      : Type 0 where
    pub text : List ℕ
    pub returned : r.0 ≡ ok (some text)
    pub fits : All (λ b. b ≢ 0) text
    pub refused : is_utf8 request ≡ false → (text ≡ invalid_utf8) × (r.1 ≡ before)
    pub after : is_utf8 request ≡ true → r.1 ≡ (processed request before).1
    pub whole :
        is_utf8 request ≡ true
        → contains_nul (told (processed request before).0) ≡ false
        → text ≡ told (processed request before).0
    pub replaced :
        is_utf8 request ≡ true
        → contains_nul (told (processed request before).0) ≡ true
        → text ≡ null_byte

  caught-answer_text :
      (r : Result Response (FfiError IoError Code Message))
      → caught B V D F N R H base key draw salts nonces is_utf8 T
          (answer_text B V D F N R H base key draw salts nonces is_utf8 T r)
        ≡ ok (told r)
  unfolding caught answer_text
  caught-answer_text (ok response) = refl
  caught-answer_text (err e) = refl
  caught-answer_text panic = refl

  -- A text that was made is passed on, and the world it left stays.
  made_passed :
      (r : Result (List ℕ) ⊥ × State) (s : State) (text given : List ℕ)
      → r.0 ≡ ok text
      → c_string_or_literal text ≡ ok given
      → (((λ _. r) >>= (λ result. lift (c_string_or_literal result)))
            >>= (λ text. pure {S = State} {E = ⊥} (some text)))
          s
        ≡ (ok (some given), r.1)
  made_passed (ok made, after) s text given e passes =
      let same : made ≡ text = ground (arith, e) in
      ap (λ c. ((λ _. (c, after)) >>= (λ text. pure {S = State} {E = ⊥} (some text))) s)
        (ap c_string_or_literal same ∙ passes)
  made_passed (err x, after) s text given e passes = absurd x
  made_passed (panic, after) s text given e passes = cc

  invoke-utf8 :
      (request given : List ℕ) (s : State)
      → is_utf8 request ≡ true
      → c_string_or_literal (told (processed request s).0) ≡ ok given
      → invoke B V D F N R H base key draw salts nonces is_utf8 T (some request) s
        ≡ (ok (some given), (processed request s).1)
  unfolding invoke catch_unwind
  invoke-utf8 request given s h passes = rw (h) (
      made_passed (catch_unwind B V D F N R H base key draw salts nonces is_utf8 T request s) s
        (told (processed request s).0) given (caught-answer_text (processed request s).0) passes)

  invoke-other :
      (request : List ℕ) (s : State)
      → is_utf8 request ≡ false
      → invoke B V D F N R H base key draw salts nonces is_utf8 T (some request) s
        ≡ (ok (some invalid_utf8), s)
  unfolding invoke
  invoke-other request s h = rw (h) (
      ap (λ c. ((λ _. (c, s)) >>= (λ text. pure {S = State} {E = ⊥} (some text))) s)
        literal-invalid_utf8.1)

  invoke-none :
      (s : State) → invoke B V D F N R H base key draw salts nonces is_utf8 T none s ≡ (ok none, s)
  unfolding invoke
  invoke-none s = refl

  abbrev pub Answer : Option (List ℕ) → State → Result (Option (List ℕ)) ⊥ × State → Type 0
  Answer none before r = r ≡ (ok none, before)
  Answer (some request) before r = IsAnswered request before r

  -- No call of the entry point ends in a panic. A null pointer is answered by a null one and changes
  -- nothing. Every request is answered by a text without NUL: one that is no UTF-8 by the error that
  -- says so, and it changes nothing; any other by the text of its response or of its error, and where
  -- its processing panics by the text of an internal error, unless that text holds a NUL, for which
  -- another error is given; what the processing changed before it ended stays.
  pub invoke-Answer :
      (request : Option (List ℕ)) (s : State)
      → Answer request s (invoke B V D F N R H base key draw salts nonces is_utf8 T request s)
  invoke-Answer none s = invoke-none s
  invoke-Answer (some request) s =
      let outcome = (processed request s).0 in
      let (given, passes, passed) = c_string_or_literal-ok (told outcome) in
      elim (Bool-cases (is_utf8 request)) [
        | inl h ↦
            let run = invoke-utf8 request given s h passes in
            record {
              text = given;
              returned = ap (λ r. r.0) run;
              fits = passed.fits;
              refused = λ e. absurd (cc (h, e));
              after = λ _. ap (λ r. r.1) run;
              whole = λ _ clean. passed.whole clean;
              replaced = λ _ nul. passed.replaced nul;
            }
        | inr h ↦
            let run = invoke-other request s h in
            record {
              text = invalid_utf8;
              returned = ap (λ r. r.0) run;
              fits = contains_nul-All invalid_utf8 literal-invalid_utf8.0;
              refused = λ _. (refl, ap (λ r. r.1) run);
              after = λ e. absurd (cc (h, e));
              whole = λ e _. absurd (cc (h, e));
              replaced = λ e _. absurd (cc (h, e));
            }
      ]
