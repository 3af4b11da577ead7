-- ===== src/Lending/Payments.antt =====
-- What `repay` of contracts/lending/src/lib.rs makes of a loan: interest is paid first, then the
-- principal, and a loan that is paid ends.
use mindmint_contracts.Base.{
  ◌≡◌, refl, ap, ◌⊎◌, if◌then◌else◌, Bool, true, false, some, arith, inl, inr, Bool-cases,
}
use mindmint_contracts.Base.Int.{ℤ, pos, ◌+ℤ◌, ◌-ℤ◌, ◌≤ℤ◌, ltb_ℤ, int_laws}
use mathlib.Core.Path.{subst}
use mindmint_contracts.Host.Call.{
  Address, Env, ok, invoke, Ensures, Ensures->>=, Ensures-mono, invoke-Ensures,
}
use mindmint_contracts.Host.Num.{sub_i128, checked-Ensures}
use mindmint_contracts.Host.Tokens.{Tokens}
use mindmint_contracts.Lending.{
  Asset, AssetType, Error, Loan, LoanStatus, Nfts, is_nft, transfer_asset,
}
use mindmint_contracts.Lending.Loans.{pay_interest, pay_principal, is_paid, settle}
use mindmint_contracts.Lending.Sound.{IsSound}

-- A payment of `x`, interest first.
abbrev pub IsPaid : ℤ → Loan → Loan → Type 0
IsPaid x l l' =
    (l' ≡ record l {
      outstanding_principal = l'.outstanding_principal;
      accrued_interest = l'.accrued_interest;
    })
    × (l'.outstanding_principal +ℤ l'.accrued_interest +ℤ x
        ≡ l.outstanding_principal +ℤ l.accrued_interest)
    × (pos 0 ≤ℤ l'.accrued_interest)
    × (pos 0 ≤ℤ l'.outstanding_principal)
    × (l'.outstanding_principal ≤ℤ l.outstanding_principal)
    × (l'.outstanding_principal ≡ l.outstanding_principal ⊎ l'.accrued_interest ≡ pos 0)

abbrev pub InterestPaid : ℤ → Loan → Loan × ℤ → Type 0
InterestPaid x l (l', rest) =
    (l' ≡ record l { accrued_interest = l'.accrued_interest })
    × (l'.accrued_interest +ℤ x ≡ l.accrued_interest +ℤ rest)
    × (pos 0 ≤ℤ l'.accrued_interest)
    × (pos 0 ≤ℤ rest)
    × (rest ≡ pos 0 ⊎ l'.accrued_interest ≡ pos 0)

lowered-InterestPaid :
    (x paid : ℤ) (l : Loan)
    → pos 0 ≤ℤ x
    → pos 0 ≤ℤ l.accrued_interest
    → paid ≡ (if ltb_ℤ x l.accrued_interest then x else l.accrued_interest)
    → InterestPaid x l (record l { accrued_interest = l.accrued_interest -ℤ paid }, x -ℤ paid)
lowered-InterestPaid x paid l h1 h2 eq = elim (Bool-cases (ltb_ℤ x l.accrued_interest)) [
  | inl less ↦
      let all : paid ≡ x = ground arith in
      rw all (refl, omega int_laws, grind (int_laws, less), omega int_laws, inl (omega int_laws))
  | inr more ↦
      let all : paid ≡ l.accrued_interest = ground arith in
      rw all (refl, omega int_laws, omega int_laws, grind (int_laws, more), inr (omega int_laws))
]

pub pay_interest-InterestPaid :
    (x : ℤ) (l : Loan)
    → pos 0 ≤ℤ l.accrued_interest
    → pos 0 ≤ℤ x
    → Ensures (InterestPaid x l) (pay_interest x l)
unfolding pay_interest
pay_interest-InterestPaid x l h1 h2 =
    let paid = if ltb_ℤ x l.accrued_interest then x else l.accrued_interest in
    elim (Bool-cases (ltb_ℤ (pos 0) l.accrued_interest)) [
      | inl some_due ↦ rw some_due (
          Ensures->>= _ _ (sub_i128 l.accrued_interest paid) _
            (checked-Ensures _ (l.accrued_interest -ℤ paid))
            λ accrued r1.
              Ensures->>= _ _ (sub_i128 x paid) _ (checked-Ensures _ (x -ℤ paid))
                λ rest r2. rw (r2, r1) (lowered-InterestPaid x paid l h2 h1 refl))
      | inr none_due ↦ rw none_due (refl, refl, h1, h2, inr (grind (int_laws, none_due, h1)))
    ]

lowered-IsPaid :
    (x rest : ℤ) (l l' : Loan)
    → pos 0 ≤ℤ l.outstanding_principal
    → x ≤ℤ (l.outstanding_principal +ℤ l.accrued_interest)
    → InterestPaid x l (l', rest)
    → IsPaid x l (record l' { outstanding_principal = l'.outstanding_principal -ℤ rest })
lowered-IsPaid x rest l l' h1 h2 (same, total, left, nonneg, order) =
    let kept : l'.outstanding_principal ≡ l.outstanding_principal =
      ap {A = Loan} (λ k. k.outstanding_principal) same in
    (
      ap {A = Loan} (λ k. record k { outstanding_principal = l'.outstanding_principal -ℤ rest })
          same,
      grind (int_laws, kept, total),
      left,
      grind (int_laws, kept, total, order),
      grind (int_laws, kept, nonneg),
      elim order [ inl none_left ↦ inl (grind (int_laws, kept, none_left)) | inr paid ↦ inr paid ],
    )

pub pay_principal-IsPaid :
    (x rest : ℤ) (l l' : Loan)
    → pos 0 ≤ℤ l.outstanding_principal
    → x ≤ℤ (l.outstanding_principal +ℤ l.accrued_interest)
    → InterestPaid x l (l', rest)
    → Ensures (IsPaid x l) (pay_principal (l', rest))
unfolding pay_principal
pay_principal-IsPaid x rest l l' h1 h2 h = elim (Bool-cases (ltb_ℤ (pos 0) rest)) [
  | inl more ↦ rw more (
      Ensures->>= _ _ (sub_i128 l'.outstanding_principal rest) _
        (checked-Ensures _ (l'.outstanding_principal -ℤ rest))
        λ outstanding r. rw r (lowered-IsPaid x rest l l' h1 h2 h))
  | inr done ↦
      let none_left : rest ≡ pos 0 = grind (int_laws, done, h.3) in
      let kept : l'.outstanding_principal -ℤ rest ≡ l'.outstanding_principal =
        grind (int_laws, none_left) in
      rw done (
        subst (λ o. IsPaid x l (record l' { outstanding_principal = o })) kept
          (lowered-IsPaid x rest l l' h1 h2 h))
]

pub paid-IsSound :
    (x : ℤ) (l l' : Loan)
    → IsSound l
    → IsPaid x l l'
    → IsSound (record l' { status = if is_paid l' then LoanStatus.repaid else LoanStatus.active })
paid-IsSound x l l' v (same, total, left, nonneg, lower, order) = rw same (record {
  owed = nonneg;
  lent = omega arith;
  accrued = left;
  begun = v.begun;
  counted = v.counted;
  term = v.term;
  extended = v.extended;
  settled = ground arith;
})

module _ {W : Type 0} (t : Tokens W) (n : Nfts W) where
  -- An asset goes from one holder to another: an amount of a token, or an NFT.
  abbrev pub IsMoved : Asset → Address → Address → W → W → Type 0
  IsMoved asset from to w w' =
      (asset.asset_type ≡ AssetType.token
        × (t.transfer w asset.contract from to asset.amount ≡ some w'))
      ⊎ (asset.asset_type ≡ AssetType.nft × (n w asset.contract from to asset.nft_id ≡ some w'))

  asset_type-IsMoved :
      (k : AssetType) (asset : Asset) (from to : Address) (w : W)
      → asset.asset_type ≡ k
      → Ensures {E = Error} (IsMoved asset from to w) (elim k [
        | AssetType.token ↦ invoke (t.transfer w asset.contract from to asset.amount)
        | AssetType.nft ↦ invoke (n w asset.contract from to asset.nft_id)
      ])
  asset_type-IsMoved AssetType.token asset from to w h =
      let pay = t.transfer w asset.contract from to asset.amount in
      Ensures-mono _ _ (invoke pay) (invoke-Ensures _ pay) λ w' moved. inl (h, moved)
  asset_type-IsMoved AssetType.nft asset from to w h =
      let give = n w asset.contract from to asset.nft_id in
      Ensures-mono _ _ (invoke give) (invoke-Ensures _ give) λ w' moved. inr (h, moved)

  transfer_asset-IsMoved :
      (asset : Asset) (from to : Address) (w : W)
      → Ensures (IsMoved asset from to w) (transfer_asset t n w asset from to)
  unfolding transfer_asset
  transfer_asset-IsMoved asset from to w = asset_type-IsMoved asset.asset_type asset from to w refl

  -- What a loan that is paid gives back: the collateral to the borrower and, if an NFT was lent,
  -- the NFT to the lender.
  abbrev pub IsReturned : Env → Loan → W → W → Type 0
  IsReturned e l w w' =
      (w1 : W) × IsMoved l.collateral_asset e.current_contract l.borrower w w1
      × ((l.loan_asset.asset_type ≡ AssetType.token × (w' ≡ w1))
          ⊎ (l.loan_asset.asset_type ≡ AssetType.nft
              × IsMoved l.loan_asset l.borrower l.lender w1 w'))

  -- The world after a payment, which has paid the loan or not.
  abbrev pub IsEnded : Env → Bool → Loan → W → W → Type 0
  IsEnded e paid l w w' = (paid ≡ false × (w' ≡ w)) ⊎ (paid ≡ true × IsReturned e l w w')

  lent-IsReturned :
      (e : Env) (l : Loan) (w w1 : W) (k : AssetType)
      → l.loan_asset.asset_type ≡ k
      → IsMoved l.collateral_asset e.current_contract l.borrower w w1
      → Ensures
          (IsReturned e l w)
          (if is_nft k then transfer_asset t n w1 l.loan_asset l.borrower l.lender else ok w1)
  lent-IsReturned e l w w1 AssetType.token h back = (w1, back, inl (h, refl))
  lent-IsReturned e l w w1 AssetType.nft h back =
      Ensures-mono _ _ (transfer_asset t n w1 l.loan_asset l.borrower l.lender)
        (transfer_asset-IsMoved l.loan_asset l.borrower l.lender w1)
        λ w' lent. (w1, back, inr (h, lent))

  pub settle_lem :
      (e : Env) (l : Loan) (w : W)
      → Ensures
          (λ r.
            (r.0 ≡ record l { status = if is_paid l then LoanStatus.repaid else l.status })
            × IsEnded e (is_paid l) l w r.1)
          (settle t n e l w)
  unfolding settle
  settle_lem e l w = elim (Bool-cases (is_paid l)) [
    | inl paid ↦ rw paid (
        Ensures->>= _ _ (transfer_asset t n w l.collateral_asset e.current_contract l.borrower) _
          (transfer_asset-IsMoved l.collateral_asset e.current_contract l.borrower w)
          λ w1 back.
            Ensures->>= _ _
              (if is_nft l.loan_asset.asset_type
                then transfer_asset t n w1 l.loan_asset l.borrower l.lender
                else ok w1)
              _ (lent-IsReturned e l w w1 l.loan_asset.asset_type refl back)
              λ w2 returned. (refl, inr (refl, returned)))
    | inr unpaid ↦ rw unpaid (refl, inl (refl, refl))
  ]
