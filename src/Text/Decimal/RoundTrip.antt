-- ===== src/Text/Decimal/RoundTrip.antt =====
-- Printed numbers, read back.
use streaming_server.Base.{
  ℕ, zero, suc, ◌+◌, ◌/◌, ◌%◌, ◌^◌, ◌≤◌, ◌<◌, ◌≡◌, ◌≢◌, refl, ◌⊎◌, inl, inr, false, [], ◌∷◌, ◌++◌,
  append_assoc, some, All, All-append, length, length-append, arith, ltb, Bool-cases,
}
use streaming_server.Base.Int.{pos}
use streaming_server.Outcome.{ok}
use streaming_server.Text.{Bytes}
use streaming_server.Text.Decimal.{
  print_digits, to_string, read_digits, scan, stoi, stoll, stoul, is_digit,
}

abbrev pub IsDigit : ℕ → Type 0
IsDigit c = (48 ≤ c) × (c ≤ 57)

-- What may follow a number without being read as part of it.
abbrev pub Stops : Bytes → Type 0
Stops [] = Unit
Stops (c ∷ s) = is_digit c ≡ false

pub print_digits-IsDigit : (f n : ℕ) → All IsDigit (print_digits f n)
unfolding print_digits
print_digits-IsDigit zero n = tt
print_digits-IsDigit (suc f) n = elim (Bool-cases (ltb n 10)) [
  | inl small ↦ rw small (ground arith)
  | inr big ↦ rw big (All-append IsDigit _ _ (print_digits-IsDigit f (n / 10)) (omega arith))
]

read_digits-Stops : (acc : ℕ) (s : Bytes) → Stops s → read_digits acc s ≡ acc
unfolding read_digits
read_digits-Stops acc [] h = refl
read_digits-Stops acc (c ∷ s) h = rw h

-- Reading the digits of `n` first is reading on from `n`.
read_digits-print :
    (f n : ℕ) (rest : Bytes) → n < f → read_digits 0 (print_digits f n ++ rest) ≡ read_digits n rest
unfolding print_digits
read_digits-print zero n rest h = elim h [ ]
read_digits-print (suc f) n rest h = elim (Bool-cases (ltb n 10)) [
  | inl small ↦ rw small (unfold read_digits in ground arith)
  | inr big ↦
      rw (big, append_assoc, read_digits-print f (n / 10) ((48 + n % 10) ∷ rest) (ground arith))
        (unfold read_digits in ground arith)
]

print_digits-ne-nil : (f n : ℕ) → print_digits (suc f) n ≢ []
unfolding print_digits
print_digits-ne-nil f n = elim (Bool-cases (ltb n 10)) [
  | inl small ↦ rw small (λ e. cc)
  | inr big ↦ rw big (append-ne-nil (print_digits f (n / 10)))
]
  where
    append-ne-nil : (xs : Bytes) → xs ++ (48 + n % 10) ∷ [] ≢ []
    append-ne-nil [] e = cc
    append-ne-nil (x ∷ xs) e = cc

-- A digit in front is neither a blank nor a sign.
scan_digits :
    (xs rest : Bytes)
    → All IsDigit xs
    → xs ≢ []
    → scan (xs ++ rest) ≡ record { negative = false; size = some (read_digits 0 (xs ++ rest)) }
unfolding scan
scan_digits [] rest h ne = absurd (ne refl)
scan_digits (c ∷ xs) rest h ne = ground arith

pub scan-to_string :
    (n : ℕ) (rest : Bytes)
    → Stops rest
    → scan (to_string n ++ rest) ≡ record { negative = false; size = some n }
unfolding to_string
scan-to_string n rest h = rw (
  scan_digits (print_digits (suc n) n) rest (print_digits-IsDigit (suc n) n)
      (print_digits-ne-nil n n),
  read_digits-print (suc n) n rest (omega arith),
  read_digits-Stops n rest h,
)

pub stoi-to_string :
    (n : ℕ) (rest : Bytes) → Stops rest → n < 2 ^ 31 → stoi (to_string n ++ rest) ≡ ok (pos n)
unfolding stoi
stoi-to_string n rest s h = rw (scan-to_string n rest s) (ground arith)

pub stoll-to_string :
    (n : ℕ) (rest : Bytes) → Stops rest → n < 2 ^ 63 → stoll (to_string n ++ rest) ≡ ok (pos n)
unfolding stoll
stoll-to_string n rest s h = rw (scan-to_string n rest s) (ground arith)

pub stoul-to_string :
    (n : ℕ) (rest : Bytes) → Stops rest → n < 2 ^ 64 → stoul (to_string n ++ rest) ≡ ok n
unfolding stoul
stoul-to_string n rest s h = rw (scan-to_string n rest s) (ground arith)

digit-ne : (k c : ℕ) → IsDigit c → (k < 48) ⊎ (57 < k) → c ≢ k
digit-ne k c h out = omega arith

-- A printed number has no byte but digits.
pub to_string-IsDigit : (n : ℕ) → All IsDigit (to_string n)
unfolding to_string
to_string-IsDigit n = print_digits-IsDigit (suc n) n

All-digit-Lacks : (k : ℕ) (xs : Bytes) → (k < 48) ⊎ (57 < k) → All IsDigit xs → All (λ c. c ≢ k) xs
All-digit-Lacks k [] out h = tt
All-digit-Lacks k (x ∷ xs) out h = (digit-ne k x h.0 out, All-digit-Lacks k xs out h.1)

pub to_string-Lacks : (k n : ℕ) → (k < 48) ⊎ (57 < k) → All (λ c. c ≢ k) (to_string n)
to_string-Lacks k n out = All-digit-Lacks k (to_string n) out (to_string-IsDigit n)

length-print_digits-le : (f n : ℕ) → length (print_digits f n) ≤ f
unfolding print_digits
length-print_digits-le zero n = omega arith
length-print_digits-le (suc f) n = elim (Bool-cases (ltb n 10)) [
  | inl small ↦ rw small (omega arith)
  | inr big ↦
      rw (big, length-append (print_digits f (n / 10)) ((48 + n % 10) ∷ []))
        (omega (arith, length-print_digits-le f (n / 10)))
]

pub length-to_string-le : (n : ℕ) → length (to_string n) ≤ n + 1
unfolding to_string
length-to_string-le n = omega (arith, length-print_digits-le (suc n) n)
