-- ===== src/Ffi/Asked.antt =====
-- The parameters that the sending handlers read before and after the addresses.
use fortresswallet.Base.{
  ℕ, ◌≡◌, refl, ap, subst, ltb, length, fail_if, Option, none, some, List, [], ◌∷◌, Result, ok,
  ok_or, ok_or-ok, map_err, map_err-ok,
}
use fortresswallet.Base.Action.{lift, ◌>>=◌, bind-eq-ok, bind-keeps}
use fortresswallet.Base.Json.{Json, as_str, as_u64, as_array, at}
use fortresswallet.Crypto.{Backend}
use fortresswallet.Storage.{Vault}
use fortresswallet.Storage.Files.{Disk}
use fortresswallet.Decoder.Evm.{Rlp, UnsignedEip1559Tx}
use fortresswallet.Wallet.{Folders}
use fortresswallet.Rpc.{Endpoint}
use fortresswallet.Rpc.Client.{Net, FeeSuggestion}
use fortresswallet.Evm.{EvmBuildError}
use fortresswallet.Ffi.{
  Host, dir_param, passphrase_param, chain_id_param, endpoints_param, value_param, optional_shares,
  bad_chain_id, missing_passphrase, address_param, FfiError, first_endpoint, strings, max_shares,
  too_many_shares, decode_shares, missing_rpc_urls,
}
use fortresswallet.Ffi.Abi.{parse_address_hex}
use fortresswallet.Ffi.Handlers.{Response, Handling}
use fortresswallet.Ffi.Sending.{sign_and_send}
use fortresswallet.Ffi.SentOver.{IsSentOver, sign_and_send-IsSentOver}

-- An address that a request gives in hexadecimal.
pub record IsGivenAddress (field : Option (List ℕ)) (address : List ℕ) : Type 0 where
  pub text : List ℕ
  pub given : field ≡ some text
  pub parsed : parse_address_hex text ≡ ok address

-- The transaction that a value, a nonce and suggested fees make.
abbrev pub Build : Type 0
Build = ℕ → ℕ → FeeSuggestion → Result UnsignedEip1559Tx EvmBuildError

module _ (B : Backend) (V : Vault) (D : Disk) (F : Folders D) (N : Net D.State) (R : Rlp)
    (H : Host D) (base : Option D.FilePath) where
  open D use {State}

  pub address_param-IsGivenAddress :
      (field : Option (List ℕ)) (missing bad : FfiError D.IoError N.Code N.Message) (s : State)
      (address : List ℕ)
      → (address_param D F H base N field missing bad s).0 ≡ ok address
      → IsGivenAddress field address
  address_param-IsGivenAddress field missing bad s address h =
      let parse : List ℕ → Handling B V D F N R H base (List ℕ) =
        λ text. lift (map_err (λ _. bad) (parse_address_hex text)) in
      let after = (address_param D F H base N field missing bad s).1 in
      let (text, e1, h1) =
        bind-eq-ok (lift (ok_or field missing)) parse s after address (ap (λ r. (r, after)) h) in
      record {
        text = text;
        given = ok_or-ok field missing text e1;
        parsed = map_err-ok (λ _. bad) (parse_address_hex text) address (ap (λ p. p.0) h1);
      }

  pub address_param-keeps :
      (field : Option (List ℕ)) (missing bad : FfiError D.IoError N.Code N.Message) (s : State)
      → (address_param D F H base N field missing bad s).1 ≡ s
  address_param-keeps field missing bad s =
      bind-keeps (lift (ok_or field missing))
        (λ text. lift (map_err (λ _. bad) (parse_address_hex text))) s refl (λ text t. refl)

module _ (B : Backend) (V : Vault) (D : Disk) (F : Folders D) (N : Net D.State) (R : Rlp)
    (H : Host D) (base : Option D.FilePath) (params : Json) where
  open D use {State, FilePath}

  abbrev Answering : Type 0
  Answering = Handling B V D F N R H base Response

  abbrev pub Onward : Type 0
  Onward = FilePath → List ℕ → ℕ → Endpoint × List Endpoint → Answering

  -- The directory is in the sandbox, and the passphrase, the chain and the endpoints were given.
  pub record IsAsked (s : State) : Type 0 where
    pub dir : FilePath
    pub dir_given : (dir_param D F H base N params s).0 ≡ ok dir
    pub passphrase : List ℕ
    pub passphrase_given : as_str (at "passphrase" params) ≡ some passphrase
    pub expected : ℕ
    pub chain_given : as_u64 (at "chain_id" params) ≡ some expected
    pub chosen : Endpoint × List Endpoint
    pub endpoints_given :
        (endpoints_param D F H base N params (dir_param D F H base N params s).1).0 ≡ ok chosen

  first_endpoint-keeps :
      (urls : List (List ℕ)) (s : State) → (first_endpoint D F H base N urls s).1 ≡ s
  first_endpoint-keeps [] s = refl
  first_endpoint-keeps (url ∷ urls) s = refl

  endpoints_param-keeps : (s : State) → (endpoints_param D F H base N params s).1 ≡ s
  endpoints_param-keeps s =
      bind-keeps (lift (ok_or (as_array (at "rpc_urls" params)) missing_rpc_urls))
        (λ urls. first_endpoint D F H base N (strings urls)) s refl
        (λ urls t. first_endpoint-keeps (strings urls) t)

  optional_shares-keeps :
      (shares : Option (List Json)) (s : State) → (optional_shares D F H base N shares s).1 ≡ s
  optional_shares-keeps none s = refl
  optional_shares-keeps (some shares) s =
      bind-keeps (lift (fail_if (ltb max_shares (length shares)) (too_many_shares (length shares))))
        (λ _. lift (decode_shares D F H base N shares)) s refl (λ _ t. refl)

  -- What follows such parameters.
  abbrev pub go_on : Onward → {s : State} → IsAsked s → Answering
  go_on onward asked = onward asked.dir asked.passphrase asked.expected asked.chosen

  pub front-IsAsked :
      (onward : Onward) (s end : State) (response : Response)
      → (dir_param D F H base N params >>= (λ dir.
            passphrase_param D F H base N params >>= (λ passphrase.
              chain_id_param D F H base N params >>= (λ expected.
                endpoints_param D F H base N params >>= onward dir passphrase expected))))
          s
        ≡ (ok response, end)
      → (asked : IsAsked s) × (go_on onward asked (dir_param D F H base N params s).1
          ≡ (ok response, end))
  front-IsAsked onward s end response h =
      let k3 : FilePath → List ℕ → ℕ → Answering = λ dir passphrase expected.
        endpoints_param D F H base N params >>= onward dir passphrase expected in
      let k2 : FilePath → List ℕ → Answering =
        λ dir passphrase. chain_id_param D F H base N params >>= k3 dir passphrase in
      let k1 : FilePath → Answering = λ dir. passphrase_param D F H base N params >>= k2 dir in
      let (dir, e1, h1) = bind-eq-ok (dir_param D F H base N params) k1 s end response h in
      let s1 = (dir_param D F H base N params s).1 in
      let (passphrase, e2, h2) =
        bind-eq-ok (passphrase_param D F H base N params) (k2 dir) s1 end response h1 in
      let (expected, e3, h3) =
        bind-eq-ok (chain_id_param D F H base N params) (k3 dir passphrase) s1 end response h2 in
      let (chosen, e4, h4) =
        bind-eq-ok (endpoints_param D F H base N params) (onward dir passphrase expected) s1 end
          response h3 in
      (
        record {
          dir = dir;
          dir_given = e1;
          passphrase = passphrase;
          passphrase_given =
              ok_or-ok (as_str (at "passphrase" params)) missing_passphrase passphrase e2;
          expected = expected;
          chain_given = ok_or-ok (as_u64 (at "chain_id" params)) bad_chain_id expected e3;
          chosen = chosen;
          endpoints_given = e4;
        },
        subst (λ t. onward dir passphrase expected chosen t ≡ (ok response, end))
            (endpoints_param-keeps s1) h4,
      )

  module _ (build : Build) (dir : FilePath) (passphrase : List ℕ) (expected : ℕ)
      (chosen : Endpoint × List Endpoint) where
    abbrev pub finish : Answering
    finish = value_param D F H base N params >>= (λ value.
        optional_shares D F H base N (as_array (at "shares" params))
        >>= sign_and_send B V D F N R H base (build value) dir passphrase expected chosen)

    -- The end of the sending handlers: a value was given, and a transaction over it was sent.
    pub record IsEnded (s : State) (response : Response) (end : State) : Type 0 where
      pub value : ℕ
      pub value_given : (value_param D F H base N params s).0 ≡ ok value
      pub external : List (List ℕ)
      pub external_given :
          (optional_shares D F H base N (as_array (at "shares" params)) s).0 ≡ ok external
      pub sent_over :
          IsSentOver B V D F N R H base
            (build value)
            dir
            passphrase
            expected
            chosen
            external
            s
            response
            end

    pub finish-IsEnded :
        (s end : State) (response : Response)
        → finish s ≡ (ok response, end)
        → IsEnded s response end
    finish-IsEnded s end response h =
        let shares = optional_shares D F H base N (as_array (at "shares" params)) in
        let send : ℕ → List (List ℕ) → Answering =
          λ value. sign_and_send B V D F N R H base (build value) dir passphrase expected chosen in
        let (value, e1, h1) =
          bind-eq-ok (value_param D F H base N params) (λ value. shares >>= send value) s end
            response h in
        let (external, e2, h2) = bind-eq-ok shares (send value) s end response h1 in
        record {
          value = value;
          value_given = e1;
          external = external;
          external_given = e2;
          sent_over =
              sign_and_send-IsSentOver B V D F N R H base (build value) dir passphrase expected
                chosen external s end response
                (subst (λ t. send value external t ≡ (ok response, end))
                  (optional_shares-keeps (as_array (at "shares" params)) s) h2);
        }
