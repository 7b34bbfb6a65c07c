-- ===== src/Text.antt =====
-- Byte strings: `std::string` as the program uses it. A text is the list of its bytes.
pub mod Search
pub mod Slices
pub mod Decimal
use Prim.Native.Char.{code}
use streaming_server.Base.{
  ℕ, zero, suc, ◌+◌, ◌-◌, ◌^◌, ◌≤◌, String, ◌≡◌, refl, ◌↔◌, Bool, true, false, ◌&&◌, List, [], ◌∷◌,
  ◌++◌, Option, none, some, ltb, ◌==◌, if◌then◌else◌, length, take, drop, arith, Bool-cases,
}
use streaming_server.Outcome.{Try, ok, throw, out_of_range}

abbrev pub Bytes : Type 0
Bytes = List ℕ

-- The bytes of an ASCII literal. `String` has its own `[]` and `∷`.
abbrev pub codes : String → Bytes
codes String.[] = []
codes (String.◌∷◌ c s) = code c ∷ codes s

-- `a == b`
unfoldable pub bytes_eq : Bytes → Bytes → Bool
bytes_eq [] [] = true
bytes_eq (x ∷ xs) (y ∷ ys) = x == y && bytes_eq xs ys
bytes_eq _ _ = false

pub bytes_eq→eq : (xs ys : Bytes) → bytes_eq xs ys ≡ true → xs ≡ ys
unfolding bytes_eq
bytes_eq→eq [] [] h = refl
bytes_eq→eq (x ∷ xs) (y ∷ ys) h = ground (arith, bytes_eq→eq xs ys)
bytes_eq→eq [] (y ∷ ys) h = ground arith
bytes_eq→eq (x ∷ xs) [] h = ground arith

pub bytes_eq_refl : (xs : Bytes) → bytes_eq xs xs ≡ true
unfolding bytes_eq
bytes_eq_refl [] = refl
bytes_eq_refl (x ∷ xs) = ground (arith, bytes_eq_refl xs)

pub bytes_eq_iff : (xs ys : Bytes) → (bytes_eq xs ys ≡ true) ↔ (xs ≡ ys)
bytes_eq_iff xs ys = (bytes_eq→eq xs ys, λ e. rw e (bytes_eq_refl ys))

-- `std::string::npos` of a 64-bit build
abbrev pub npos : ℕ
npos = 2 ^ 64 - 1

-- A search result as the number that `find` returns.
abbrev pub index : Option ℕ → ℕ
index none = npos
index (some i) = i

-- `s.substr(pos, count)`
unfoldable pub substr : Bytes → ℕ → ℕ → Try Bytes
substr s pos count =
    if ltb (length s) pos
    then throw (out_of_range (codes "basic_string::substr"))
    else ok (take count (drop pos s))
