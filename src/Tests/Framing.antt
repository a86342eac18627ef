-- ===== src/Tests/Framing.antt =====
-- A framing in which an integer is one item of its own and a string follows its length.
use fortresswallet.Base.{
  ℕ, suc, ◌+◌, ◌-◌, ◌^◌, ◌<◌, ◌≡◌, refl, Bool, true, false, Option, none, some, List, [], ◌∷◌, ◌++◌,
  length, take, drop, take-append, drop-append, ltb, ◌==◌, if◌then◌else◌, arith,
}
use fortresswallet.Decoder.Evm.{Rlp, empty_list_code}
use fortresswallet.Decoder.Evm.RoundTrip.{RlpLaws}

abbrev cut : ℕ → List ℕ → Option (List ℕ × List ℕ)
cut n buf = some (take n buf, drop n buf)

abbrev uint_of : ℕ → List ℕ → Option (ℕ × List ℕ)
uint_of bits [] = none
uint_of bits (n ∷ buf) = if ltb n (2 ^ bits) then some (n, buf) else none

abbrev array_of : ℕ → List ℕ → Option (List ℕ × List ℕ)
array_of n [] = none
array_of n (k ∷ buf) = if k == n then cut n buf else none

abbrev item_of : Bool → List ℕ → Option (List ℕ × List ℕ)
item_of list [] = none
item_of true (n ∷ buf) = cut (n - empty_list_code) buf
item_of false (n ∷ buf) = cut n buf

abbrev pub toy_rlp : Rlp
toy_rlp = record {
  encode_uint = λ n. n ∷ [];
  length_uint = λ n. 1;
  encode_bytes = λ bytes. length bytes ∷ bytes;
  length_bytes = λ bytes. suc (length bytes);
  encode_list_header = λ n. (empty_list_code + n) ∷ [];
  decode_uint = uint_of;
  decode_array = array_of;
  decode_bytes = item_of;
}

cut-append : (bytes after : List ℕ) → cut (length bytes) (bytes ++ after) ≡ some (bytes, after)
cut-append bytes after =
    rw (take-append (length bytes) bytes after refl, drop-append (length bytes) bytes after refl)

uint_of-front :
    (bits n : ℕ) (after : List ℕ) → n < 2 ^ bits → uint_of bits (n ∷ after) ≡ some (n, after)
uint_of-front bits n after h = ground (arith, h)

array_of-front :
    (bytes after : List ℕ)
    → array_of (length bytes) (length bytes ∷ (bytes ++ after)) ≡ some (bytes, after)
array_of-front bytes after = ground (arith, cut-append bytes after)

list_of-front :
    (payload after : List ℕ)
    → item_of true ((empty_list_code + length payload) ∷ (payload ++ after)) ≡ some (payload, after)
list_of-front payload after =
    let e : empty_list_code + length payload - empty_list_code ≡ length payload = omega arith in
    rw (e) (cut-append payload after)

pub toy_rlp_laws : RlpLaws toy_rlp
toy_rlp_laws = record {
  length_uint_eq = λ n. refl;
  length_bytes_eq = λ bytes. refl;
  empty_list = refl;
  uint_back = uint_of-front;
  array_back = array_of-front;
  bytes_back = cut-append;
  list_back = list_of-front;
}
