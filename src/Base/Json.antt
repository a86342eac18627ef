-- ===== src/Base/Json.antt =====
-- `serde_json::Value` and the accessors that the source calls. A string is the list of its bytes;
-- numbers that are no `u64` are not told apart. The keys of an object are distinct.
use Prim.Native.Char.{code}
use Prim.Native.String.{String}
use text.Mathlib.Text.{◌==◌}
use fortresswallet.Base.{ℕ, Bool, true, false, Option, none, some, List, [], ◌∷◌, if◌then◌else◌}

mutual
  pub data Json : Type 0 where
    null other_number : Json
    boolean : Bool → Json
    number : ℕ → Json
    string : List ℕ → Json
    array : Elems → Json
    object : Props → Json

  pub data Elems : Type 0 where
    nil : Elems
    cons : Json → Elems → Elems

  pub data Props : Type 0 where
    end : Props
    prop : String → Json → Props → Props

-- The bytes of an ASCII text.
abbrev pub codes : String → List ℕ
codes String.[] = []
codes (String.◌∷◌ c s) = code c ∷ codes s

abbrev pub elems : Elems → List Json
elems nil = []
elems (cons v vs) = v ∷ elems vs

-- An array of two elements, and of one.
abbrev pub pair : Json → Json → Json
pair a b = array (cons a (cons b nil))

abbrev pub single : Json → Json
single a = array (cons a nil)

unfoldable pub as_str : Json → Option (List ℕ)
as_str (string s) = some s
as_str v = none

unfoldable pub as_u64 : Json → Option ℕ
as_u64 (number n) = some n
as_u64 v = none

unfoldable pub as_array : Json → Option (List Json)
as_array (array vs) = some (elems vs)
as_array v = none

unfoldable pub is_null : Json → Bool
is_null null = true
is_null v = false

unfoldable pub get_prop : String → Props → Option Json
get_prop key end = none
get_prop key (prop k v ps) = if k == key then some v else get_prop key ps

-- `value.get(key)`
unfoldable pub get : String → Json → Option Json
unfolding get_prop
get key (object ps) = get_prop key ps
get key v = none

-- `value[key]`, null where there is none.
unfoldable pub at : String → Json → Json
unfolding get
at key v = elim (get key v) [ none ↦ null | some w ↦ w ]
