-- ===== src/Lending/Valid.antt =====
-- What is invariant in the storage of contracts/lending/src/lib.rs, and the changes that keep it.
use mindmint_contracts.Base.{
  ℕ, ◌≡◌, ◌+◌, ◌≤◌, Option, none, some, get_or, ◌==◌, arith, inl, inr, Bool-cases, Option-cases,
}
use mindmint_contracts.Base.Int.{pos, ◌≤ℤ◌}
use mathlib.Core.Path.{subst}
use mindmint_contracts.Base.Map.{nat_key, lookup, insert, remove}
use mindmint_contracts.Base.Map.Laws.{lookup-insert, lookup-remove, all-insert}
use native.Mathlib.Nat.{le_trans}
use mindmint_contracts.Lending.{Loan, LoanOffer, ExtensionRequest, Storage, set_loan, set_offer}
use mindmint_contracts.Lending.Sound.{IsSound}
use mindmint_contracts.Lending.Effects.{AllSound}

-- An extension that is asked for is within the maximum of its loan.
abbrev Allowed : Option Loan → ExtensionRequest → Type 0
Allowed none q = ⊥
Allowed (some l) q = l.extension_secs + q.requested_extension_secs ≤ l.terms.max_extension_secs

pub record IsValid (s : Storage) : Type 0 where
  pub sound : AllSound s
  pub counted : (i : ℕ) (l : Loan) → lookup i s.loans ≡ some l → i ≤ get_or s.loan_count 0
  pub positive : (i : ℕ) (o : LoanOffer) → lookup i s.offers ≡ some o → pos 1 ≤ℤ o.principal
  pub allowed :
      (i : ℕ) (q : ExtensionRequest)
      → lookup i s.extension_requests ≡ some q
      → Allowed (lookup i s.loans) q

pub set_offer-IsValid :
    (i : ℕ) (o : LoanOffer) (s : Storage)
    → IsValid s
    → pos 1 ≤ℤ o.principal
    → IsValid (set_offer i o s)
set_offer-IsValid i o s v h = record {
  sound = v.sound;
  counted = v.counted;
  positive = all-insert (λ _ o. pos 1 ≤ℤ o.principal) i o s.offers h v.positive;
  allowed = v.allowed;
}

-- The count of loans grows.
set_loan-counted :
    (i c : ℕ) (l : Loan) (s : Storage)
    → IsValid s
    → i ≤ c
    → get_or s.loan_count 0 ≤ c
    → (j : ℕ) (k : Loan) → lookup j (insert i l s.loans) ≡ some k
    → j ≤ c
set_loan-counted i c l s v h1 h2 =
    all-insert (λ j _. j ≤ c) i l s.loans h1 λ j k e. le_trans (v.counted j k e) h2

-- A new version of a loan of the same terms and extension allows what the old one allows.
set_loan-Allowed :
    (i : ℕ) (l l' : Loan) (s : Storage) (j : ℕ) (q : ExtensionRequest)
    → lookup i s.loans ≡ some l
    → l'.extension_secs ≡ l.extension_secs
    → l'.terms ≡ l.terms
    → Allowed (lookup j s.loans) q
    → Allowed (lookup j (insert i l' s.loans)) q
set_loan-Allowed i l l' s j q found ext terms h = elim (Bool-cases (i == j)) [
  | inl same ↦
      let one : j ≡ i = ground arith in
      let old : Allowed (some l) q =
        rw found at (subst (λ c. Allowed (lookup c s.loans) q) one h) in
      rw (lookup-insert, same) (rw (ext, terms) old)
  | inr other ↦ rw (lookup-insert, other) h
]

pub set_loan-IsValid :
    (i : ℕ) (l l' : Loan) (s : Storage)
    → IsValid s
    → lookup i s.loans ≡ some l
    → IsSound l'
    → l'.extension_secs ≡ l.extension_secs
    → l'.terms ≡ l.terms
    → IsValid (set_loan i l' s)
set_loan-IsValid i l l' s v found sound ext terms = record {
  sound = all-insert (λ _ k. IsSound k) i l' s.loans sound v.sound;
  counted = set_loan-counted i (get_or s.loan_count 0) l' s v (v.counted i l found) (omega arith);
  positive = v.positive;
  allowed = λ j q e. set_loan-Allowed i l l' s j q found ext terms (v.allowed j q e);
}

-- A new version of a loan whose request is closed.
pub close_loan-IsValid :
    (i : ℕ) (l l' : Loan) (s : Storage)
    → IsValid s
    → lookup i s.loans ≡ some l
    → IsSound l'
    → IsValid (record (set_loan i l' s) { extension_requests = remove i s.extension_requests })
close_loan-IsValid i l l' s v found sound = record {
  sound = all-insert (λ _ k. IsSound k) i l' s.loans sound v.sound;
  counted = set_loan-counted i (get_or s.loan_count 0) l' s v (v.counted i l found) (omega arith);
  positive = v.positive;
  allowed = λ j q e. elim (Bool-cases (i == j)) [
    | inl same ↦ absurd (grind (arith, lookup-remove i j s.extension_requests, e, same))
    | inr other ↦ rw (lookup-insert, other) (v.allowed j q (rw (lookup-remove, other) at e))
  ];
}

Allowed-counted :
    (j : ℕ) (q : ExtensionRequest) (s : Storage)
    → IsValid s
    → Allowed (lookup j s.loans) q
    → j ≤ get_or s.loan_count 0
Allowed-counted j q s v h = elim (Option-cases (lookup j s.loans)) [
  | inl missing ↦ absurd (rw missing at h)
  | inr (l, found) ↦ v.counted j l found
]

-- A new loan, of an id that none has.
pub add_loan-IsValid :
    (i : ℕ) (l : Loan) (s : Storage)
    → IsValid s
    → i ≡ get_or s.loan_count 0 + 1
    → IsSound l
    → IsValid (set_loan i l (record s { loan_count = some i }))
add_loan-IsValid i l s v h sound = record {
  sound = all-insert (λ _ k. IsSound k) i l s.loans sound v.sound;
  counted = set_loan-counted i i l s v (omega arith) (omega arith);
  positive = v.positive;
  allowed = λ j q e. elim (Bool-cases (i == j)) [
    | inl same ↦
        let known = Allowed-counted j q s v (v.allowed j q e) in absurd (ground (arith, known))
    | inr other ↦ rw (lookup-insert, other) (v.allowed j q e)
  ];
}

-- A request within the maximum of its loan.
pub ask-IsValid :
    (i : ℕ) (l : Loan) (q : ExtensionRequest) (s : Storage)
    → IsValid s
    → lookup i s.loans ≡ some l
    → l.extension_secs + q.requested_extension_secs ≤ l.terms.max_extension_secs
    → IsValid (record s { extension_requests = insert i q s.extension_requests })
ask-IsValid i l q s v found within = record {
  sound = v.sound;
  counted = v.counted;
  positive = v.positive;
  allowed =
      all-insert (λ j q. Allowed (lookup j s.loans) q) i q s.extension_requests (rw found within)
        v.allowed;
}

pub counted-IsValid :
    (c : ℕ) (s : Storage) → IsValid s → IsValid (record s { offer_count = some c })
counted-IsValid c s v = record {
  sound = v.sound;
  counted = v.counted;
  positive = v.positive;
  allowed = v.allowed;
}
