-- ===== src/Decoder/Frame.antt =====
-- The fields of a frame, cut out of it and put together again.
use fortresswallet.Base.{
  ℕ, ◌+◌, ◌-◌, ◌≤◌, ◌≡◌, refl, sym, ◌∙◌, List, [], ◌∷◌, ◌++◌, append_assoc, length, length-append,
  length-take, length-drop, take, drop, slice, take-append, drop-append, take-append-drop, All,
  All-take, All-drop, arith,
}
use fortresswallet.Base.Bytes.{IsByte, IsBytes}

module _ {ℓ} {A : Type ℓ} where
  -- A slice between what stands before it and behind it.
  slice-append :
      (i j k : ℕ) (front mid back : List A)
      → length front ≡ i
      → length mid ≡ k
      → i + k ≡ j
      → slice (front ++ (mid ++ back)) i j ≡ mid
  slice-append i j k front mid back hf hm e =
      let width : j - i ≡ k = omega arith in
      rw (drop-append i front (mid ++ back) hf, width) (take-append k mid back hm)

-- The five fields behind each other, and the calldata.
abbrev pub frame : ℕ → List ℕ → List ℕ → List ℕ → List ℕ → List ℕ → List ℕ
frame version chain to value len calldata =
    version ∷ (chain ++ (to ++ (value ++ (len ++ calldata))))

module _ (version : ℕ) (chain to value len calldata : List ℕ) (chain_8 : length chain ≡ 8)
    (to_20 : length to ≡ 20) (value_16 : length value ≡ 16) (len_2 : length len ≡ 2) where
  pub length-frame : length (frame version chain to value len calldata) ≡ 47 + length calldata
  length-frame = simp (length-append, chain_8, to_20, value_16, len_2) (omega arith)

  pub slice-chain : slice (frame version chain to value len calldata) 1 9 ≡ chain
  slice-chain = slice-append 1 9 8 (version ∷ []) chain _ refl chain_8 refl

  pub slice-to : slice (frame version chain to value len calldata) 9 29 ≡ to
  slice-to = slice-append 9 29 20 (version ∷ chain) to _ (omega arith) to_20 refl

  pub slice-value : slice (frame version chain to value len calldata) 29 45 ≡ value
  slice-value = rw (← append_assoc chain to _) (
      slice-append 29 45 16 (version ∷ (chain ++ to)) value _
        (omega (arith, length-append chain to)) value_16 refl)

  pub slice-len : slice (frame version chain to value len calldata) 45 47 ≡ len
  slice-len =
      rw (← append_assoc to value _, ← append_assoc chain (to ++ value) _)
        (slice-append 45 47 2 (version ∷ (chain ++ (to ++ value))) len calldata
          (omega (arith, length-append chain (to ++ value), length-append to value)) len_2 refl)

-- Cutting `n` bytes off a byte string that is long enough.
cut :
    (n : ℕ) (bs : List ℕ)
    → All IsByte bs
    → n ≤ length bs
    → (front back : List ℕ) × (bs ≡ front ++ back)
      × IsBytes n front
      × All IsByte back
      × (length back + n ≡ length bs)
cut n bs h long = (
  take n bs,
  drop n bs,
  sym (take-append-drop n bs),
  (All-take IsByte n bs h, length-take n bs ∙ omega arith),
  All-drop IsByte n bs h,
  omega (arith, length-drop n bs),
)

pub record Fields (version : ℕ) (rest : List ℕ) : Type 0 where
  pub chain : List ℕ
  pub to : List ℕ
  pub value : List ℕ
  pub len : List ℕ
  pub calldata : List ℕ
  pub whole : version ∷ rest ≡ frame version chain to value len calldata
  pub chain_8 : IsBytes 8 chain
  pub to_20 : IsBytes 20 to
  pub value_16 : IsBytes 16 value
  pub len_2 : IsBytes 2 len

-- Every input of at least the header's length is a frame.
pub fields :
    (version : ℕ) (rest : List ℕ) → All IsByte rest → 46 ≤ length rest → Fields version rest
fields version rest h long =
    let (chain, r1, e1, p1, h1, l1) = cut 8 rest h (omega arith) in
    let (to, r2, e2, p2, h2, l2) = cut 20 r1 h1 (omega arith) in
    let (value, r3, e3, p3, h3, l3) = cut 16 r2 h2 (omega arith) in
    let (len, calldata, e4, p4, h4, l4) = cut 2 r3 h3 (omega arith) in
    record {
      chain = chain;
      to = to;
      value = value;
      len = len;
      calldata = calldata;
      whole = cc;
      chain_8 = p1;
      to_20 = p2;
      value_16 = p3;
      len_2 = p4;
    }
