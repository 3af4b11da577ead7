-- ===== src/Airdrop/Effects.antt =====
-- What the calls of contracts/airdrop_merkle_claim/src/lib.rs do when they succeed.
use mindmint_contracts.Base.{
  ℕ, ◌≡◌, refl, ◌+◌, ◌≤◌, true, false, not, none, some, List, get_or, is_some, ltb, leb, ◌==◌,
  arith,
}
use mindmint_contracts.Base.Int.{ℤ, pos, ◌+ℤ◌, ◌≤ℤ◌, leb_ℤ, ltb_ℤ, eqb_ℤ}
use mindmint_contracts.Base.Map.{nat_key, pair_key, lookup, insert}
use mindmint_contracts.Host.Call.{
  Address, Env, ok, require_auth, Ensures, Ensures->>=, Result-Ensures, Ensures-any, after_auth,
  after_panic_if, after_expect, after_invoke,
}
use mindmint_contracts.Host.Num.{add_i128, sub_i128, add_u32, checked-Ensures, add_u32-Ensures}
use mindmint_contracts.Host.Tokens.{Tokens}
use mindmint_contracts.Airdrop.{
  AirdropCampaign, Crypto, Storage, Error, set_campaign, require_admin, verify_proof,
  create_campaign, claim, reclaim_unclaimed,
}

-- A claim that succeeds: its campaign, and what it changes.
pub record IsClaim {W : Type 0} (t : Tokens W) (k : Crypto) (e : Env) (i : ℕ) (a : Address) (x : ℤ)
    (proof : List (List ℕ)) (s : Storage) (w : W) (c : AirdropCampaign) (s' : Storage) (w' : W)
    : Type 0 where
  pub found : lookup i s.campaigns ≡ some c
  pub signed : e.has_auth a ≡ true
  pub positive : pos 1 ≤ℤ x
  pub early : e.timestamp ≤ c.deadline
  pub active : c.status ≡ 0
  pub first : lookup (i, a) s.claimed ≡ none
  pub proved : verify_proof k s i a x proof ≡ ok true
  pub within : c.claimed_amount +ℤ x ≤ℤ c.total_allocation
  pub paid : t.transfer w c.token e.current_contract a x ≡ some w'
  pub stored :
      s'
      ≡ set_campaign i
          (record c { claimed_count = c.claimed_count + 1; claimed_amount = c.claimed_amount +ℤ x })
          (record s { claimed = insert (i, a) true s.claimed })

verify_proof-Ensures :
    (k : Crypto) (s : Storage) (i : ℕ) (a : Address) (x : ℤ) (proof : List (List ℕ))
    → Ensures (λ b. verify_proof k s i a x proof ≡ ok b) (verify_proof k s i a x proof)
verify_proof-Ensures k s i a x proof = Result-Ensures (verify_proof k s i a x proof)

module _ {W : Type 0} (t : Tokens W) where
  pub claim-IsClaim :
      (k : Crypto) (e : Env) (i : ℕ) (a : Address) (x : ℤ) (proof : List (List ℕ)) (s : Storage)
      (w : W)
      → Ensures
          (λ r. (c : AirdropCampaign) × IsClaim t k e i a x proof s w c r.0 r.1)
          (claim t k e i a x proof (s, w))
  unfolding claim
  claim-IsClaim k e i a x proof s w = after_auth _ e a _ λ signed.
      after_panic_if _ (leb_ℤ x (pos 0)) _ _ λ positive.
        after_expect _ (lookup i s.campaigns) _ _ λ c found.
          after_panic_if _ (ltb c.deadline e.timestamp) _ _ λ early.
            after_panic_if _ (not (c.status == 0)) _ _ λ active.
              after_panic_if _ (is_some (lookup (i, a) s.claimed)) _ _ λ first.
                Ensures->>= _ _ (verify_proof k s i a x proof) _
                  (verify_proof-Ensures k s i a x proof)
                  λ valid proved. after_panic_if _ (not valid) _ _ λ isvalid.
                    Ensures->>= _ _ (add_i128 c.claimed_amount x) _
                      (checked-Ensures _ (c.claimed_amount +ℤ x))
                      λ total r1. after_panic_if _ (ltb_ℤ c.total_allocation total) _ _ λ within.
                        Ensures->>= _ _ (add_u32 c.claimed_count 1) _ (add_u32-Ensures _ _ _)
                          λ count r2.
                            Ensures->>= _ _ (add_i128 c.claimed_amount x) _
                              (checked-Ensures _ (c.claimed_amount +ℤ x))
                              λ amount r3.
                                after_invoke _ (t.transfer w c.token e.current_contract a x) _
                                  λ w1 paid.
                                    rw (r2, r3)
                                      (
                                        c,
                                        record {
                                          found = found;
                                          signed = signed;
                                          positive = ground arith;
                                          early = ground arith;
                                          active = ground arith;
                                          first = ground arith;
                                          proved = ground (arith, proved, isvalid);
                                          within = ground (arith, r1);
                                          paid = paid;
                                          stored = refl;
                                        },
                                      )

  -- A campaign that is created: what is stored for it, under its id.
  abbrev pub IsCreated : Env → Address → Address → ℤ → Storage → W → Storage → W → Type 0
  IsCreated e a d x s w s' w' =
      (i : ℕ) × (c : AirdropCampaign) × (e.has_auth a ≡ true)
      × (pos 1 ≤ℤ x)
      × (c.token ≡ d)
      × (c.total_allocation ≡ x)
      × (c.claimed_amount ≡ pos 0)
      × (t.transfer w d a e.current_contract x ≡ some w')
      × (s' ≡ record (set_campaign i c s) { campaign_counter = some i })

  pub create_campaign-IsCreated :
      (e : Env) (a : Address) (root : List ℕ) (d : Address) (x : ℤ) (deadline : ℕ) (s : Storage)
      (w : W)
      → Ensures
          (λ r. IsCreated e a d x s w r.1 r.2)
          (create_campaign t e a root d x deadline (s, w))
  unfolding create_campaign
  create_campaign-IsCreated e a root d x deadline s w = after_auth _ e a _ λ signed.
      Ensures->>= _ _ (require_admin e s) _ (Ensures-any _) λ _ _.
        after_panic_if _ (leb_ℤ x (pos 0)) _ _ λ positive.
          after_panic_if _ (leb deadline e.timestamp) _ _ λ future.
            after_invoke _ (t.transfer w d a e.current_contract x) _ λ w1 paid.
              Ensures->>= _ _ (add_u32 (get_or s.campaign_counter 0) 1) _ (Ensures-any _) λ i _. (
                i,
                record {
                  id = i;
                  merkle_root = root;
                  token = d;
                  total_allocation = x;
                  claimed_count = 0;
                  claimed_amount = pos 0;
                  deadline = deadline;
                  status = 0;
                },
                signed,
                ground arith,
                refl,
                refl,
                refl,
                paid,
                refl,
              )

  -- What a reclaim of `x` from the campaign `c` needs, and what it does.
  pub record IsReclaim (e : Env) (a : Address) (i : ℕ) (s : Storage) (c : AirdropCampaign) (x : ℤ)
      : Type 0 where
    pub signed : e.has_auth a ≡ true
    pub by_admin : require_admin e s ≡ ok tt
    pub found : lookup i s.campaigns ≡ some c
    pub late : leb e.timestamp c.deadline ≡ false
    pub left : sub_i128 {E = Error} c.total_allocation c.claimed_amount ≡ ok x
    pub some_left : eqb_ℤ x (pos 0) ≡ false

  abbrev pub reclaimed : ℕ → AirdropCampaign → Storage → Storage
  reclaimed i c s = set_campaign i (record c { status = 1 }) s

  pub reclaim_unclaimed-IsReclaim :
      (e : Env) (a : Address) (i : ℕ) (s : Storage) (w : W)
      → Ensures
          (λ r.
            (c : AirdropCampaign) × IsReclaim e a i s c r.0
            × (t.transfer w c.token e.current_contract a r.0 ≡ some r.2)
            × (r.1 ≡ reclaimed i c s))
          (reclaim_unclaimed t e a i (s, w))
  unfolding reclaim_unclaimed
  reclaim_unclaimed-IsReclaim e a i s w = after_auth _ e a _ λ signed.
      Ensures->>= _ _ (require_admin e s) _ (Result-Ensures (require_admin e s)) λ _ by_admin.
        after_expect _ (lookup i s.campaigns) _ _ λ c found.
          after_panic_if _ (leb e.timestamp c.deadline) _ _ λ late.
            Ensures->>= _ _ (sub_i128 c.total_allocation c.claimed_amount) _
              (Result-Ensures (sub_i128 c.total_allocation c.claimed_amount))
              λ x left. after_panic_if _ (eqb_ℤ x (pos 0)) _ _ λ some_left.
                after_invoke _ (t.transfer w c.token e.current_contract a x) _ λ w1 paid. (
                  c,
                  record {
                    signed = signed;
                    by_admin = by_admin;
                    found = found;
                    late = late;
                    left = left;
                    some_left = some_left;
                  },
                  paid,
                  refl,
                )

  pub reclaim_runs :
      (e : Env) (a : Address) (i : ℕ) (s : Storage) (w w' : W) (c : AirdropCampaign) (x : ℤ)
      → IsReclaim e a i s c x
      → t.transfer w c.token e.current_contract a x ≡ some w'
      → reclaim_unclaimed t e a i (s, w) ≡ ok (x, reclaimed i c s, w')
  unfolding reclaim_unclaimed
  reclaim_runs e a i s w w' c x h paid =
      rw (require_auth, h.signed)
        (rw h.by_admin (rw h.found (rw h.late (rw h.left (rw h.some_left (rw paid refl))))))
