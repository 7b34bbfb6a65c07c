-- ===== src/Text/Decimal.antt =====
-- Numbers in text: `std::to_string` and stream output of an integer, and the `std::stoi` family.
pub mod RoundTrip
use streaming_server.Base.{
  ℕ, zero, suc, ◌+◌, ◌-◌, ◌*◌, ◌/◌, ◌%◌, ◌^◌, Bool, true, false, ◌&&◌, ◌||◌, List, [], ◌∷◌, ◌++◌,
  Option, none, some, ltb, leb, ◌==◌, if◌then◌else◌,
}
use streaming_server.Base.Int.{ℤ, pos, negate}
use streaming_server.Outcome.{Try, ok, throw, invalid_argument, out_of_range}
use streaming_server.Text.{Bytes}

abbrev pub is_digit : ℕ → Bool
is_digit c = leb 48 c && leb c 57

-- The decimal digits of `n`, most significant first. Fuel above `n` is enough.
pub print_digits : ℕ → ℕ → Bytes
print_digits zero n = []
print_digits (suc fuel) n =
    let front = print_digits fuel (n / 10) in
    if ltb n 10 then (48 + n) ∷ [] else front ++ (48 + n % 10) ∷ []

unfoldable pub to_string : ℕ → Bytes
unfolding print_digits
to_string n = print_digits (suc n) n

is_space : ℕ → Bool
is_space c = c == 32 || (leb 9 c && leb c 13)

skip_spaces : Bytes → Bytes
unfolding is_space
skip_spaces [] = []
skip_spaces (c ∷ s) = if is_space c then skip_spaces s else c ∷ s

-- The value of the digits in front; what follows the first other byte is not read.
pub read_digits : ℕ → Bytes → ℕ
read_digits acc [] = acc
read_digits acc (c ∷ s) = if is_digit c then read_digits (acc * 10 + (c - 48)) s else acc

-- `none`: no conversion can be performed.
magnitude : Bytes → Option ℕ
unfolding read_digits
magnitude [] = none
magnitude (c ∷ s) = if is_digit c then some (read_digits 0 (c ∷ s)) else none

-- Sign and magnitude.
pub record Scanned : Type 0 where
  pub negative : Bool
  pub size : Option ℕ

signed : Bytes → Scanned
unfolding magnitude
signed [] = record { negative = false; size = none }
signed (c ∷ s) =
    if c == b'-'
    then record { negative = true; size = magnitude s }
    else if c == b'+'
    then record { negative = false; size = magnitude s }
    else record { negative = false; size = magnitude (c ∷ s) }

-- What `strtol` and its kin read: blanks, a sign, digits.
unfoldable pub scan : Bytes → Scanned
unfolding signed skip_spaces
scan s = signed (skip_spaces s)

-- A signed conversion into `width` bits. `name` is the text of `what()`.
abbrev signed_result : ℕ → Bytes → Bool → Option ℕ → Try ℤ
signed_result width name negative none = throw (invalid_argument name)
signed_result width name true (some n) =
    if ltb (2 ^ (width - 1)) n then throw (out_of_range name) else ok (negate n)
signed_result width name false (some n) =
    if leb (2 ^ (width - 1)) n then throw (out_of_range name) else ok (pos n)

-- `std::stoi` reads 32 bits and `std::stoll` 64.
unfoldable pub stoi : Bytes → Try ℤ
unfolding scan
stoi s = signed_result 32 (b's' ∷ b't' ∷ b'o' ∷ b'i' ∷ []) (scan s).negative (scan s).size

unfoldable pub stoll : Bytes → Try ℤ
unfolding scan
stoll s = signed_result 64 (b's' ∷ b't' ∷ b'o' ∷ b'l' ∷ b'l' ∷ []) (scan s).negative (scan s).size

-- `std::stoul`: a minus sign negates in 64 bits.
abbrev unsigned_result : Bytes → Bool → Option ℕ → Try ℕ
unsigned_result name negative none = throw (invalid_argument name)
unsigned_result name negative (some n) =
    if leb (2 ^ 64) n
    then throw (out_of_range name)
    else if negative
    then ok ((2 ^ 64 - n) % 2 ^ 64)
    else ok n

unfoldable pub stoul : Bytes → Try ℕ
unfolding scan
stoul s = unsigned_result (b's' ∷ b't' ∷ b'o' ∷ b'u' ∷ b'l' ∷ []) (scan s).negative (scan s).size
