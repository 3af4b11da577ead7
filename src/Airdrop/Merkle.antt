-- ===== src/Airdrop/Merkle.antt =====
-- Which leaves the Merkle proofs of contracts/airdrop_merkle_claim/src/lib.rs can reach.
use mindmint_contracts.Base.{
  ℕ, ◌≡◌, ◌≢◌, ◌⊎◌, inl, inr, some, refl, ap, ◌∙◌, sym, true, List, [], ◌∷◌, ◌++◌, length,
  length-append, All, Bool-cases, arith,
}
use mindmint_contracts.Base.Int.{ℤ}
use mindmint_contracts.Base.Map.{nat_key, lookup}
use mindmint_contracts.Host.Call.{Address, ok}
use mindmint_contracts.Host.Num.{fits_i128}
use mindmint_contracts.Airdrop.{Crypto, Storage, AirdropCampaign, leaf_input, walk, verify_proof}
use mindmint_contracts.Airdrop.Bytes.{
  bytes_eq, bytes_eq_iff, to_be_bytes, length-to_be_bytes, of_be_bytes, of_be_bytes-to_be_bytes,
}

-- The documented behaviour: digests have 32 bytes, and the text of an address has 56 characters and
-- tells the address.
pub record IsCrypto (k : Crypto) : Type 0 where
  pub digest_length : (x : List ℕ) → length (k.sha256 x) ≡ 32
  pub text_length : (a : Address) → length (k.to_string a) ≡ 56
  pub text_inj : (a b : Address) → k.to_string a ≡ k.to_string b → a ≡ b

-- Two inputs of one digest.
abbrev pub Collision : Crypto → Type 0
Collision k = (x : List ℕ) × (y : List ℕ) × (x ≢ y) × (k.sha256 x ≡ k.sha256 y)

-- Every element of a proof is a digest, `BytesN<32>`.
abbrev pub IsProof : List (List ℕ) → Type 0
IsProof proof = All (λ e. length e ≡ 32) proof

-- Lists that agree as a whole agree in parts of the same length.
append-split :
    (xs ys us vs : List ℕ) → length xs ≡ length ys → xs ++ us ≡ ys ++ vs → (xs ≡ ys) × (us ≡ vs)
append-split [] [] us vs h e = (refl, e)
append-split [] (y ∷ ys) us vs h e = absurd (omega arith)
append-split (x ∷ xs) [] us vs h e = absurd (omega arith)
append-split (x ∷ xs) (y ∷ ys) us vs h e = ground (arith, append-split xs ys us vs)

-- The walk from the root down: the last sibling first.
up : Crypto → List ℕ → List (List ℕ) → List ℕ
up k leaf [] = leaf
up k leaf (e ∷ es) = k.sha256 (up k leaf es ++ e)

rev_onto : List (List ℕ) → List (List ℕ) → List (List ℕ)
rev_onto [] acc = acc
rev_onto (e ∷ es) acc = rev_onto es (e ∷ acc)

walk-up :
    (k : Crypto) (leaf : List ℕ) (es acc : List (List ℕ))
    → walk k (up k leaf acc) es ≡ up k leaf (rev_onto es acc)
unfolding walk up rev_onto
walk-up k leaf [] acc = refl
walk-up k leaf (e ∷ es) acc = walk-up k leaf es (e ∷ acc)

rev_onto-IsProof : (es acc : List (List ℕ)) → IsProof es → IsProof acc → IsProof (rev_onto es acc)
unfolding rev_onto
rev_onto-IsProof [] acc h1 h2 = h2
rev_onto-IsProof (e ∷ es) acc (h, h1) h2 = rev_onto-IsProof es (e ∷ acc) h1 (h, h2)

module _ (k : Crypto) (laws : IsCrypto k) where
  same_or_Collision : (x y : List ℕ) → k.sha256 x ≡ k.sha256 y → (x ≡ y) ⊎ Collision k
  same_or_Collision x y h = elim (Bool-cases (bytes_eq x y)) [
    | inl same ↦ inl ((bytes_eq_iff x y).0 same)
    | inr other ↦ inr (x, y, λ same. let t = (bytes_eq_iff x y).1 same in ground (arith, t), h)
  ]

  length-up : (x : List ℕ) (es : List (List ℕ)) → length (up k (k.sha256 x) es) ≡ 32
  unfolding up
  length-up x [] = laws.digest_length x
  length-up x (e ∷ es) = laws.digest_length _

  parts :
      (x y : List ℕ) (es fs : List (List ℕ)) (e f : List ℕ)
      → up k (k.sha256 x) es ++ e ≡ up k (k.sha256 y) fs ++ f
      → up k (k.sha256 x) es ≡ up k (k.sha256 y) fs
  parts x y es fs e f h =
      (append-split (up k (k.sha256 x) es) (up k (k.sha256 y) fs) e f
        (length-up x es ∙ sym (length-up y fs)) h).0

  -- An inner node has 64 bytes, which no leaf has.
  not_inner :
      (x y : List ℕ) (es : List (List ℕ)) (e : List ℕ)
      → length x ≡ 72
      → length e ≡ 32
      → k.sha256 x ≡ k.sha256 (up k (k.sha256 y) es ++ e)
      → Collision k
  not_inner x y es e hx he h = (
    x,
    up k (k.sha256 y) es ++ e,
    λ same.
        let lengths = ap (λ (b : List ℕ). length b) same in
        absurd (omega (arith, lengths, length-append (up k (k.sha256 y) es) e, length-up y es)),
    h,
  )

  -- Two leaves below one root are the same, or a collision is at hand.
  same_leaf :
      (x y : List ℕ) (es fs : List (List ℕ))
      → length x ≡ 72
      → length y ≡ 72
      → IsProof es
      → IsProof fs
      → up k (k.sha256 x) es ≡ up k (k.sha256 y) fs
      → (x ≡ y) ⊎ Collision k
  unfolding up
  same_leaf x y [] [] hx hy p q h = same_or_Collision x y h
  same_leaf x y [] (f ∷ fs) hx hy p q h = inr (not_inner x y fs f hx q.0 h)
  same_leaf x y (e ∷ es) [] hx hy p q h = inr (not_inner y x es e hy p.0 (sym h))
  same_leaf x y (e ∷ es) (f ∷ fs) hx hy p q h =
      elim (same_or_Collision (up k (k.sha256 x) es ++ e) (up k (k.sha256 y) fs ++ f) h) [
        | inl same ↦ same_leaf x y es fs hx hy p.1 q.1 (parts x y es fs e f same)
        | inr collision ↦ inr collision
      ]

  length-leaf_input : (a : Address) (x : ℤ) → length (leaf_input k a x) ≡ 72
  length-leaf_input a x = omega (
    arith,
    length-append (k.to_string a) (to_be_bytes x),
    laws.text_length a,
    length-to_be_bytes x,
  )

  -- The leaf tells the address and the amount.
  leaf_input_inj :
      (a b : Address) (x y : ℤ)
      → fits_i128 x ≡ true
      → fits_i128 y ≡ true
      → leaf_input k a x ≡ leaf_input k b y
      → (a ≡ b) × (x ≡ y)
  leaf_input_inj a b x y hx hy h =
      let (text, bytes) =
        append-split (k.to_string a) (k.to_string b) (to_be_bytes x) (to_be_bytes y)
          (laws.text_length a ∙ sym (laws.text_length b)) h in
      (
        laws.text_inj a b text,
        sym (of_be_bytes-to_be_bytes x hx) ∙ ap of_be_bytes bytes ∙ of_be_bytes-to_be_bytes y hy,
      )

  verified :
      (s : Storage) (i : ℕ) (a : Address) (x : ℤ) (proof : List (List ℕ)) (c : AirdropCampaign)
      → lookup i s.campaigns ≡ some c
      → verify_proof k s i a x proof ≡ ok true
      → up k (k.sha256 (leaf_input k a x)) (rev_onto proof []) ≡ c.merkle_root
  unfolding verify_proof up
  verified s i a x proof c found h =
      let reached : bytes_eq (walk k (k.sha256 (leaf_input k a x)) proof) c.merkle_root ≡ true =
        ground (arith, found) in
      sym (walk-up k (k.sha256 (leaf_input k a x)) proof [])
      ∙ (bytes_eq_iff (walk k (k.sha256 (leaf_input k a x)) proof) c.merkle_root).0 reached

  -- Two Merkle proofs that the contract accepts for one root prove the same address and amount, or
  -- two inputs with one SHA-256 digest are at hand; for proofs of whole digests and amounts that fit
  -- the machine's integers.
  pub one_leaf :
      (s s' : Storage) (i j : ℕ) (a b : Address) (x y : ℤ) (p q : List (List ℕ))
      (c d : AirdropCampaign)
      → lookup i s.campaigns ≡ some c
      → lookup j s'.campaigns ≡ some d
      → c.merkle_root ≡ d.merkle_root
      → IsProof p
      → IsProof q
      → fits_i128 x ≡ true
      → fits_i128 y ≡ true
      → verify_proof k s i a x p ≡ ok true
      → verify_proof k s' j b y q ≡ ok true
      → ((a ≡ b) × (x ≡ y)) ⊎ Collision k
  one_leaf s s' i j a b x y p q c d fc fd roots hp hq hx hy v1 v2 =
      elim (same_leaf (leaf_input k a x) (leaf_input k b y) (rev_onto p []) (rev_onto q [])
        (length-leaf_input a x) (length-leaf_input b y) (rev_onto-IsProof p [] hp tt)
        (rev_onto-IsProof q [] hq tt)
        (verified s i a x p c fc v1 ∙ roots ∙ sym (verified s' j b y q d fd v2))) [
          | inl same ↦ inl (leaf_input_inj a b x y hx hy same)
          | inr collision ↦ inr collision
        ]
