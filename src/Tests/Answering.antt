-- ===== src/Tests/Answering.antt =====
-- Calls of the entry point for hosts.
use fortresswallet.Base.{
  ℕ, Bool, ◌≡◌, ◌^◌, ◌++◌, refl, true, ◌&&◌, Option, none, some, List, [], ◌∷◌, ltb, replicate,
  Result, ok,
}
use fortresswallet.Base.Json.{
  Json, string, number, single, object, prop, end, codes, at, as_str, as_u64, as_array, get,
  get_prop,
}
use fortresswallet.Wallet.{decimal}
use fortresswallet.Evm.{fee_cap_exceeded}
use fortresswallet.Hex.{strip_0x, parse_pairs, starts_inside, is_continuation}
use fortresswallet.Ffi.Abi.{parse_address_hex}
use fortresswallet.Ffi.Sending.{handle_send_transaction}
use fortresswallet.Ffi.{dir_param, validate_dir, strings, Host, request_too_large, build_error}
use fortresswallet.Ffi.Entry.{process_request, dispatch}
use fortresswallet.Ffi.Text.{Texts, json_error, response_text, error_message, build_error_text}
use fortresswallet.Ffi.Boundary.{
  contains_nul, c_string, literal, c_string_or_literal, answer_text, caught, catch_unwind, invoke,
}
use fortresswallet.Ffi.Answered.{Answer, invoke-Answer}
use fortresswallet.Tests.Toy.{toy}
use fortresswallet.Tests.Framing.{toy_rlp}
use fortresswallet.Tests.Disk.{toy_vault, toy_disk, Files}
use fortresswallet.Tests.Creating.{toy_folders, passphrase}
use fortresswallet.Tests.Commanding.{nodes, stored}
use fortresswallet.Tests.Hosting.{host}

-- Every request is read as a ping.
abbrev pinged : Host toy_disk
pinged = record host {
  from_str = λ text. some (object (prop "method" (string (codes "ping")) end));
}

abbrev is_ascii : List ℕ → Bool
is_ascii [] = true
is_ascii (b ∷ bytes) = ltb b 128 && is_ascii bytes

abbrev string_or : List ℕ → Option (List ℕ) → List ℕ
string_or other none = other
string_or other (some text) = text

abbrev texts : Texts (Unit {0}) (Unit {0}) (Unit {0})
texts = record {
  io_error = λ _. codes "io";
  code = λ _. codes "code";
  message = λ _. codes "message";
  malformed_response = λ _. codes "malformed";
  panic_message = codes "panic";
  parse_error = codes "parse";
  to_string = λ json. string_or (codes "json") (as_str (at "error" json));
}

abbrev called : Host toy_disk → Option (List ℕ) → Result (Option (List ℕ)) ⊥ × Files
called hosting request =
    invoke toy toy_vault toy_disk toy_folders nodes toy_rlp hosting (some 5) 42 (λ i. 7) (λ i. [])
      (λ i. []) is_ascii texts request stored

pong_answered :
    called pinged (some (codes "{}"))
    ≡ (ok (some (codes "{\"status\": \"ok\", \"message\": \"pong from rust\"}")), stored)
unfolding invoke catch_unwind process_request dispatch caught answer_text c_string_or_literal
    c_string contains_nul response_text at get get_prop as_str
pong_answered = refl

no_utf8 :
    called pinged (some (0xff ∷ [])) ≡ (ok (some (codes "{\"error\": \"Invalid UTF-8\"}")), stored)
unfolding invoke literal c_string contains_nul
no_utf8 = refl

too_large :
    error_message texts (request_too_large 70000)
    ≡ codes "request too large: 70000 bytes exceeds 65536 byte limit"
unfolding error_message decimal
too_large = refl

fee_told :
    error_message texts (build_error (fee_cap_exceeded 12 (2 ^ 127)))
    ≡ codes "transaction build error: max_fee_per_gas 12 wei exceeds the hard ceiling of "
      ++ codes "170141183460469231731687303715884105728 wei"
unfolding error_message build_error_text decimal
fee_told = refl

-- Every request is read as a transfer to an address in which a character of two bytes starts at an
-- odd position.
abbrev sliced_inside : Json
sliced_inside = string ((b'0' ∷ b'x' ∷ b'a' ∷ []) ++ ((0xc3 ∷ 0xa9 ∷ []) ++ replicate 37 b'a'))

abbrev params : Json
params = object (
    prop "dir" (string (codes "w")) (
      prop "passphrase" (string passphrase) (
        prop "chain_id" (number 1) (
          prop "rpc_urls" (single (string (codes "u")))
            (prop "to" sliced_inside (prop "value_wei" (string (codes "200")) end))))))

abbrev panicking : Host toy_disk
panicking = record host {
  from_str = λ text.
      some (object (prop "method" (string (codes "send_transaction")) (prop "params" params end)));
}

panic_answered :
    called panicking (some (codes "{}")) ≡ (ok (some (codes "internal error: panic")), stored)
unfolding invoke catch_unwind process_request dispatch caught answer_text json_error
    c_string_or_literal c_string contains_nul handle_send_transaction dir_param validate_dir strings
    parse_address_hex strip_0x parse_pairs starts_inside is_continuation at get get_prop as_str
    as_u64 as_array
panic_answered = refl

invoke-Answer_example :
    Answer toy toy_vault toy_disk toy_folders nodes toy_rlp panicking
      (some 5)
      42
      (λ i. 7)
      (λ i. [])
      (λ i. [])
      is_ascii
      texts
      (some (codes "{}"))
      stored
      (called panicking (some (codes "{}")))
invoke-Answer_example =
    invoke-Answer toy toy_vault toy_disk toy_folders nodes toy_rlp panicking (some 5) 42 (λ i. 7)
      (λ i. []) (λ i. []) is_ascii texts (some (codes "{}")) stored
