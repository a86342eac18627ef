-- ===== src/Ffi/Boundary.antt =====
-- crates/wallet-ffi/src/lib.rs: the functions that the host calls. A pointer is null (`none`) or gives
-- the bytes before the first NUL; who frees a text is not modelled.
use fortresswallet.Base.{
  ℕ, Bool, false, ◌++◌, or_panic, ◌||◌, Option, none, some, List, [], ◌∷◌, ◌==◌, if◌then◌else◌,
  Result, ok, err, panic,
}
use fortresswallet.Base.Action.{Action, pure, lift, ◌>>=◌}
use fortresswallet.Base.Json.{codes}
use fortresswallet.Crypto.{Backend}
use fortresswallet.Storage.{Vault}
use fortresswallet.Storage.Files.{Disk}
use fortresswallet.Decoder.Evm.{Rlp}
use fortresswallet.Wallet.{Folders}
use fortresswallet.Rpc.Client.{Net}
use fortresswallet.Ffi
use fortresswallet.Ffi.{Host, FfiError}
use fortresswallet.Ffi.Handlers.{Response}
use fortresswallet.Ffi.Entry.{process_request}
use fortresswallet.Ffi.Text.{Texts, json_error, error_message, response_text}

unfoldable pub contains_nul : List ℕ → Bool
contains_nul [] = false
contains_nul (b ∷ text) = b == 0 || contains_nul text

-- `CString::new`, which fails on a NUL inside the text.
unfoldable pub c_string : List ℕ → Option (List ℕ)
unfolding contains_nul
c_string text = if contains_nul text then none else some text

-- `CString::new(..).expect(..)` on a literal.
unfoldable pub literal : List ℕ → Result (List ℕ) ⊥
unfolding c_string
literal text = or_panic (c_string text)

-- `CString::new(result)`, and the literal in its place.
unfoldable pub c_string_or_literal : List ℕ → Result (List ℕ) ⊥
unfolding literal
c_string_or_literal text = elim (c_string text) [
  | some whole ↦ ok whole
  | none ↦ literal (codes "{\"error\": \"Null byte in response\"}")
]

module _ {FilePath : Type 0} (is_utf8 : List ℕ → Bool) (path_of : List ℕ → FilePath) where
  -- A null pointer and a path that is no UTF-8 are ignored.
  unfoldable pub set_base_dir : Option (List ℕ) → Option FilePath → Option FilePath
  set_base_dir none base = base
  set_base_dir (some path) base =
      if is_utf8 path then Ffi.set_base_dir (path_of path) base else base

module _ (B : Backend) (V : Vault) (D : Disk) (F : Folders D) (N : Net D.State) (R : Rlp)
    (H : Host D) (base : Option D.FilePath) (key : B.SigningKey) (draw : ℕ → B.Scalar)
    (salts nonces : ℕ → List ℕ) (is_utf8 : List ℕ → Bool)
    (T : Texts D.IoError N.Code N.Message) where
  open D use {State, IoError}
  open N use {Code, Message}

  -- The text that `process_request` returns. A panic goes on.
  unfoldable pub answer_text : Result Response (FfiError IoError Code Message) → Result (List ℕ) ⊥
  answer_text (ok response) = ok (response_text T response)
  answer_text (err e) = ok (json_error T (error_message T e))
  answer_text panic = panic

  -- The closure of `unwrap_or_else`, where there was a panic.
  unfoldable pub caught : Result (List ℕ) ⊥ → Result (List ℕ) ⊥
  caught (ok text) = ok text
  caught (err e) = err e
  caught panic = ok (json_error T (codes "internal error: " ++ T.panic_message))

  unfoldable pub catch_unwind : List ℕ → Action State ⊥ (List ℕ)
  unfolding answer_text caught
  catch_unwind request s =
      let (r, after) = process_request B V D F N R H base key draw salts nonces request s in
      (caught (answer_text r), after)

  -- The pointer that is returned, or a panic that leaves the library, and the world after.
  unfoldable pub invoke : Option (List ℕ) → Action State ⊥ (Option (List ℕ))
  unfolding c_string_or_literal catch_unwind
  invoke none = pure none
  invoke (some request) =
      (if is_utf8 request
        then catch_unwind request >>= (λ result. lift (c_string_or_literal result))
        else lift (literal (codes "{\"error\": \"Invalid UTF-8\"}")))
      >>= (λ text. pure (some text))
