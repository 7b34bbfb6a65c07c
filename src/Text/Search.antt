-- ===== src/Text/Search.antt =====
-- `find`, `starts_with` and suffix comparison of `std::string`, and what they find.
use mathlib.Core.Option
use streaming_server.Base.{
  ℕ, zero, suc, ◌+◌, ◌-◌, ◌<◌, ◌≤◌, ◌≡◌, refl, ◌≢◌, Bool, true, false, ◌&&◌, [], ◌∷◌, ◌++◌, Option,
  none, some, ltb, ◌==◌, if◌then◌else◌, length, drop, All, arith, is_some, Bool-cases, inl, inr,
}
use streaming_server.Text.{Bytes, bytes_eq}

-- `s.find(c)`, with `none` for `npos`
unfoldable pub find_char : ℕ → Bytes → Option ℕ
find_char c [] = none
find_char c (x ∷ xs) = if x == c then some 0 else Option.map suc (find_char c xs)

-- `s.find(c, from)`
unfoldable pub find_char_from : ℕ → ℕ → Bytes → Option ℕ
unfolding find_char
find_char_from c from s = Option.map (λ i. from + i) (find_char c (drop from s))

-- `s.starts_with(prefix)`
unfoldable pub starts_with : Bytes → Bytes → Bool
starts_with [] s = true
starts_with (p ∷ ps) [] = false
starts_with (p ∷ ps) (x ∷ xs) = p == x && starts_with ps xs

-- `s.find(needle)`, with `none` for `npos`
unfoldable pub find : Bytes → Bytes → Option ℕ
unfolding starts_with
find needle [] = if starts_with needle [] then some 0 else none
find needle (x ∷ xs) =
    if starts_with needle (x ∷ xs) then some 0 else Option.map suc (find needle xs)

-- `s.find(needle) != npos`
abbrev pub contains : Bytes → Bytes → Bool
contains needle s = is_some (find needle s)

-- `s.size() > k && s.compare(s.size() - k, k, suffix) == 0` for a suffix of `k` bytes
unfoldable pub ends_in : Bytes → Bytes → Bool
ends_in suffix s =
    ltb (length suffix) (length s) && bytes_eq (drop (length s - length suffix) s) suffix

abbrev pub Lacks : ℕ → Bytes → Type 0
Lacks c = All (λ x. x ≢ c)

-- The first occurrence stands behind a part that lacks the byte.
pub find_char_at :
    (c : ℕ) (xs ys : Bytes) → Lacks c xs → find_char c (xs ++ c ∷ ys) ≡ some (length xs)
unfolding find_char
find_char_at c [] ys h = ground arith
find_char_at c (x ∷ xs) ys h = ground (arith, find_char_at c xs ys h.1)

pub find_char_absent : (c : ℕ) (xs : Bytes) → Lacks c xs → find_char c xs ≡ none
unfolding find_char
find_char_absent c [] h = refl
find_char_absent c (x ∷ xs) h = ground (arith, find_char_absent c xs h.1)

-- A byte that is not found does not occur.
pub find_char-Lacks : (c : ℕ) (xs : Bytes) → find_char c xs ≡ none → Lacks c xs
unfolding find_char
find_char-Lacks c [] h = tt
find_char-Lacks c (x ∷ xs) h = ground (arith, find_char-Lacks c xs)

-- A one-byte needle is a search for the byte.
pub find_single : (c : ℕ) (xs : Bytes) → find (c ∷ []) xs ≡ find_char c xs
unfolding find find_char
find_single c [] = refl
find_single c (x ∷ xs) = ground (arith, find_single c xs)

pub find-lt-length : (c : ℕ) (xs : Bytes) (i : ℕ) → find_char c xs ≡ some i → i < length xs
unfolding find_char
find-lt-length c [] i h = cc
find-lt-length c (x ∷ xs) zero h = omega arith
find-lt-length c (x ∷ xs) (suc i) h = ground (arith, find-lt-length c xs i)

-- What `find` finds is the needle.
pub starts_with-drop-find :
    (needle s : Bytes) (i : ℕ) → find needle s ≡ some i → starts_with needle (drop i s) ≡ true
unfolding find
starts_with-drop-find needle [] zero h = ground arith
starts_with-drop-find needle [] (suc i) h = ground arith
starts_with-drop-find needle (x ∷ xs) zero h = ground arith
starts_with-drop-find needle (x ∷ xs) (suc i) h = ground (arith, starts_with-drop-find needle xs i)

pub starts_with-append : (p s : Bytes) → starts_with p (p ++ s) ≡ true
unfolding starts_with
starts_with-append [] s = refl
starts_with-append (c ∷ p) s = ground (arith, starts_with-append p s)

pub starts_with-split : (p s : Bytes) → starts_with p s ≡ true → s ≡ p ++ drop (length p) s
unfolding starts_with
starts_with-split [] s h = refl
starts_with-split (c ∷ p) [] h = ground arith
starts_with-split (c ∷ p) (x ∷ s) h = ground (arith, starts_with-split p s)

suc_le_mapped :
    (o : Option ℕ) (n : ℕ)
    → ((k : ℕ) → o ≡ some k → k ≤ n)
    → (i : ℕ) → Option.map suc o ≡ some i
    → i ≤ suc n
suc_le_mapped none n below i e = ground (arith, e)
suc_le_mapped (some k) n below i e = ground (arith, e, below k refl)

-- What is found begins inside the text, or at its end.
pub find-le : (needle s : Bytes) (i : ℕ) → find needle s ≡ some i → i ≤ length s
unfolding find
find-le needle [] i e = ground (arith, e)
find-le needle (x ∷ s) i e = elim (Bool-cases (starts_with needle (x ∷ s))) [
  | inl here ↦ ground (arith, here, e)
  | inr later ↦ suc_le_mapped (find needle s) (length s) (find-le needle s) i (rw later at e)
]
