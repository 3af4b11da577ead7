-- ===== src/Airdrop/Bytes.antt =====
-- The bytes that contracts/airdrop_merkle_claim/src/lib.rs hashes.
use mindmint_contracts.Base.{
  ℕ, zero, suc, ◌≡◌, refl, ap, ◌∙◌, sym, ◌+◌, ◌-◌, ◌*◌, ◌/◌, ◌%◌, ◌^◌, ◌<◌, Bool, false, ◌&&◌, ◌==◌,
  ◌↔◌, ltb, true, List, [], ◌∷◌, ◌++◌, length, length-append, if◌then◌else◌, arith,
}
use mindmint_contracts.Base.Int.{ℤ, pos, negsuc}
use mindmint_contracts.Host.Num.{fits_i128}
use mathlib.Core.List.{append_assoc, append-nil}
use native.Mathlib.Nat.{pow-suc, zero-add}

-- `==` on byte arrays.
unfoldable pub bytes_eq : List ℕ → List ℕ → Bool
bytes_eq [] [] = true
bytes_eq (x ∷ xs) (y ∷ ys) = x == y && bytes_eq xs ys
bytes_eq _ _ = false

pub bytes_eq_iff : (xs ys : List ℕ) → (bytes_eq xs ys ≡ true) ↔ (xs ≡ ys)
unfolding bytes_eq
bytes_eq_iff [] [] = (λ _. refl, λ _. refl)
bytes_eq_iff [] (y ∷ ys) = (λ h. absurd (ground arith), λ h. absurd (ground arith))
bytes_eq_iff (x ∷ xs) [] = (λ h. absurd (ground arith), λ h. absurd (ground arith))
bytes_eq_iff (x ∷ xs) (y ∷ ys) = ground (arith, bytes_eq_iff xs ys)

-- The `k` lowest bytes of a number, the highest of them first.
unfoldable pub be_bytes : ℕ → ℕ → List ℕ
be_bytes zero n = []
be_bytes (suc k) n = be_bytes k (n / 256) ++ (n % 256) ∷ []

-- The bit pattern of an `i128`.
abbrev word_of : ℤ → ℕ
word_of (pos n) = n
word_of (negsuc n) = 2 ^ 128 - n - 1

-- `i128::to_be_bytes`
unfoldable pub to_be_bytes : ℤ → List ℕ
to_be_bytes a = be_bytes 16 (word_of a)

-- The number that bytes stand for, after those that gave `acc`.
pub value : ℕ → List ℕ → ℕ
value acc [] = acc
value acc (b ∷ bs) = value (acc * 256 + b) bs

-- `i128::from_be_bytes`, to read the bytes back.
abbrev pub of_be_bytes : List ℕ → ℤ
of_be_bytes bs = let w = value 0 bs in if ltb w (2 ^ 127) then pos w else negsuc (2 ^ 128 - w - 1)

length-be_bytes : (k n : ℕ) → length (be_bytes k n) ≡ k
unfolding be_bytes
length-be_bytes zero n = refl
length-be_bytes (suc k) n =
    omega
      (arith, length-append (be_bytes k (n / 256)) ((n % 256) ∷ []), length-be_bytes k (n / 256))

pub length-to_be_bytes : (a : ℤ) → length (to_be_bytes a) ≡ 16
unfolding to_be_bytes
length-to_be_bytes a = length-be_bytes 16 (word_of a)

value-be_bytes :
    (k acc n : ℕ) (bs : List ℕ)
    → n < 256 ^ k
    → value acc (be_bytes k n ++ bs) ≡ value (acc * 256 ^ k + n) bs
unfolding value be_bytes
value-be_bytes zero acc n bs h = ap (λ m. value m bs) (omega arith)
value-be_bytes (suc k) acc n bs h = rw append_assoc (
    value-be_bytes k acc (n / 256) (n % 256 ∷ bs) (omega (arith, pow-suc 256 k))
    ∙ ap (λ m. value m bs) (omega (arith, pow-suc 256 k, ap (λ (t : ℕ). acc * t) (pow-suc 256 k))))

word_of-lt : (a : ℤ) → fits_i128 a ≡ true → word_of a < 256 ^ 16
unfolding fits_i128
word_of-lt (pos n) h = ground arith
word_of-lt (negsuc n) h = ground arith

signed-word_of :
    (a : ℤ)
    → fits_i128 a ≡ true
    → (if ltb (word_of a) (2 ^ 127) then pos (word_of a) else negsuc (2 ^ 128 - word_of a - 1)) ≡ a
unfolding fits_i128
signed-word_of (pos n) h = ground arith
signed-word_of (negsuc n) h = ground arith

value-to_be_bytes : (a : ℤ) → fits_i128 a ≡ true → value 0 (to_be_bytes a) ≡ word_of a
unfolding to_be_bytes value fits_i128
value-to_be_bytes a h =
    ap (value 0) (sym (append-nil (be_bytes 16 (word_of a))))
    ∙ value-be_bytes 16 0 (word_of a) [] (word_of-lt a h)
    ∙ zero-add (word_of a)

-- The bytes of an amount can be read back.
pub of_be_bytes-to_be_bytes : (a : ℤ) → fits_i128 a ≡ true → of_be_bytes (to_be_bytes a) ≡ a
of_be_bytes-to_be_bytes a h = rw (value-to_be_bytes a h) (signed-word_of a h)
