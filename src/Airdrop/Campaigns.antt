-- ===== src/Airdrop/Campaigns.antt =====
-- What the campaigns of contracts/airdrop_merkle_claim/src/lib.rs owe, and what the contract holds.
use mindmint_contracts.Base.{
  ℕ, ◌≡◌, sym, ◌+◌, false, some, List, is_some, ◌==◌, arith, inl, inr, if◌then◌else◌, Option-cases,
}
use mindmint_contracts.Base.Int.{ℤ, pos, ◌+ℤ◌, ◌-ℤ◌, ◌≤ℤ◌, int_laws}
use mathlib.Core.Path.{subst}
use mindmint_contracts.Base.Map.{nat_key, pair_key, lookup}
use mindmint_contracts.Base.Map.Laws.{total_by, total_by-insert, all-insert}
use mindmint_contracts.Host.Call.{
  Address, Env, ok, ◌>>=◌, Ensures, Ensures->>=, Ensures-mono, ensured, after_auth, after_panic_if,
}
use mindmint_contracts.Host.Tokens.{Tokens, IsTokens}
use mindmint_contracts.Airdrop
use mindmint_contracts.Airdrop.{
  AirdropCampaign, Crypto, Storage, Error, set_campaign, create_campaign, claim, reclaim_unclaimed,
}
use mindmint_contracts.Airdrop.Effects.{claim-IsClaim, create_campaign-IsCreated}
use mindmint_contracts.Airdrop.Entry.{Request, serve, KeepsAll}

-- What a campaign still owes in the token `d`, and what all owe together.
abbrev owed_by : Address → ℕ → AirdropCampaign → ℤ
owed_by d i c = if c.token == d then c.total_allocation -ℤ c.claimed_amount else pos 0

abbrev pub owed : Storage → Address → ℤ
owed s d = total_by (owed_by d) s.campaigns

-- A campaign has paid out no less than nothing and no more than its allocation.
abbrev pub IsSound : AirdropCampaign → Type 0
IsSound c = (pos 0 ≤ℤ c.claimed_amount) × (c.claimed_amount ≤ℤ c.total_allocation)

abbrev pub AllSound : Storage → Type 0
AllSound s = (i : ℕ) (c : AirdropCampaign) → lookup i s.campaigns ≡ some c → IsSound c

-- A stored campaign gives way to another.
set_campaign-owed :
    (i : ℕ) (c old : AirdropCampaign) (s : Storage) (d : Address)
    → lookup i s.campaigns ≡ some old
    → owed (set_campaign i c s) d ≡ owed s d -ℤ owed_by d i old +ℤ owed_by d i c
set_campaign-owed i c old s d found =
    grind (int_laws, total_by-insert (owed_by d) i c s.campaigns, found)

-- A campaign is stored over whatever was there.
set_campaign-owed_le :
    (i : ℕ) (c : AirdropCampaign) (s : Storage) (d : Address)
    → AllSound s
    → owed (set_campaign i c s) d ≤ℤ owed s d +ℤ owed_by d i c
set_campaign-owed_le i c s d v = elim (Option-cases (lookup i s.campaigns)) [
  | inl missing ↦ grind (int_laws, total_by-insert (owed_by d) i c s.campaigns, missing)
  | inr (old, found) ↦
      let sound = v i old found in
      grind (int_laws, total_by-insert (owed_by d) i c s.campaigns, found, sound)
]

module _ {W : Type 0} (t : Tokens W) (this : Address) where
  -- The campaigns are sound, and the contract holds at least what they owe.
  pub record IsCovered (st : Storage × W) : Type 0 where
    pub sound : AllSound st.0
    pub covered : (d : Address) → owed st.0 d ≤ℤ t.balance st.1 d this

module _ {W : Type 0} (t : Tokens W) (k : Crypto) (laws : IsTokens t) (e : Env)
    (alone : e.has_auth e.current_contract ≡ false) where
  abbrev own : Address
  own = e.current_contract

  create-IsCovered :
      (a : Address) (root : List ℕ) (d : Address) (x : ℤ) (deadline : ℕ) (s : Storage) (w : W)
      → IsCovered t own (s, w)
      → Ensures (λ r. IsCovered t own (r.1, r.2)) (create_campaign t e a root d x deadline (s, w))
  create-IsCovered a root d x deadline s w v =
      Ensures-mono _ _ (create_campaign t e a root d x deadline (s, w))
        (create_campaign-IsCreated t e a root d x deadline s w)
        λ r (i, c, signed, positive, token, total, claimed, paid, stored).
          subst (λ s'. IsCovered t own (s', r.2)) (sym stored)
            (record {
              sound =
                  all-insert (λ _ c. IsSound c) i c s.campaigns
                    (grind (int_laws, total, claimed, positive)) v.sound;
              covered = λ o. grind (
                int_laws,
                set_campaign-owed_le i c s o v.sound,
                laws.transfer_moves w d a own x r.2 paid o own,
                v.covered o,
                signed,
                token,
                total,
                claimed,
                alone,
                positive,
              );
            })

  claim-IsCovered :
      (i : ℕ) (a : Address) (x : ℤ) (proof : List (List ℕ)) (s : Storage) (w : W)
      → IsCovered t own (s, w)
      → Ensures (IsCovered t own) (claim t k e i a x proof (s, w))
  claim-IsCovered i a x proof s w v =
      Ensures-mono _ _ (claim t k e i a x proof (s, w)) (claim-IsClaim t k e i a x proof s w)
        λ r (c, h).
          let new : AirdropCampaign = record c {
            claimed_count = c.claimed_count + 1;
            claimed_amount = c.claimed_amount +ℤ x;
          } in
          let sound = v.sound i c h.found in
          subst (λ s'. IsCovered t own (s', r.1)) (sym h.stored)
            (record {
              sound =
                  all-insert (λ _ c. IsSound c) i new s.campaigns
                    (grind (int_laws, sound, h.positive, h.within)) v.sound;
              covered = λ o. grind (
                int_laws,
                set_campaign-owed i new c s o h.found,
                laws.transfer_moves w c.token own a x r.1 h.paid o own,
                v.covered o,
                h.signed,
                alone,
              );
            })

  initialize-IsCovered :
      (a : Address) (s : Storage) (w : W)
      → IsCovered t own (s, w)
      → Ensures (IsCovered t own) (Airdrop.initialize e a s >>= λ s'. ok (s', w))
  unfolding Airdrop.initialize
  initialize-IsCovered a s w v =
      Ensures->>= (λ s'. IsCovered t own (s', w)) _ (Airdrop.initialize e a s) _
        (after_panic_if _ (is_some s.admin) _ _
          λ _. after_auth _ e a _ λ _. record { sound = v.sound; covered = v.covered })
        λ s' h. h

  serve-IsCovered :
      (q : Request) (s : Storage) (w : W)
      → KeepsAll q
      → IsCovered t own (s, w)
      → Ensures (IsCovered t own) (serve t k e q (s, w))
  unfolding serve
  serve-IsCovered (Request.initialize a) s w p v = initialize-IsCovered a s w v
  serve-IsCovered (Request.create_campaign a root d x deadline) s w p v =
      Ensures->>= _ _ (create_campaign t e a root d x deadline (s, w)) _
        (create-IsCovered a root d x deadline s w v) λ r h. h
  serve-IsCovered (Request.claim i a x proof) s w p v = claim-IsCovered i a x proof s w v
  serve-IsCovered (Request.reclaim_unclaimed a i) s w p v = absurd p

-- What requests other than reclaims reach.
pub data Reach {W : Type 0} (t : Tokens W) (k : Crypto) (this : Address)
    : Storage × W → Type 0 where
  start :
      (w : W) → ((d : Address) → pos 0 ≤ℤ t.balance w d this) → Reach t k this (Airdrop.empty, w)
  next :
      {st st' : Storage × W} (e : Env) (q : Request)
      → Reach t k this st
      → e.current_contract ≡ this
      → e.has_auth this ≡ false
      → KeepsAll q
      → serve t k e q st ≡ ok st'
      → Reach t k this st'

empty-IsCovered :
    {W : Type 0} (t : Tokens W) (this : Address) (w : W)
    → ((d : Address) → pos 0 ≤ℤ t.balance w d this)
    → IsCovered t this (Airdrop.empty, w)
unfolding total_by lookup
empty-IsCovered t this w h = record { sound = λ i c e. absurd (ground arith); covered = h }

module _ {W : Type 0} (t : Tokens W) (k : Crypto) (this : Address) (laws : IsTokens t) where
  reached-IsCovered : {st : Storage × W} → Reach t k this st → IsCovered t this st
  reached-IsCovered (start w h) = empty-IsCovered t this w h
  reached-IsCovered (next {st = st} e q r here alone p h) =
      ensured (IsCovered t this) (serve t k e q st)
        (subst
          (λ a.
            e.has_auth a ≡ false → IsCovered t a st → Ensures (IsCovered t a) (serve t k e q st))
          here (λ l v. serve-IsCovered t k laws e l q st.0 st.1 p v) alone (reached-IsCovered r))
        h

  -- In every state that requests other than reclaims reach from an empty contract, in calls that the
  -- contract itself does not authorise, every campaign has paid out no less than nothing and no more
  -- than its allocation, and the contract holds of every token at least what its campaigns have not
  -- yet paid out.
  pub reached_owed :
      {st : Storage × W}
      → Reach t k this st
      → ((i : ℕ) (c : AirdropCampaign)
          → lookup i st.0.campaigns ≡ some c
          → (pos 0 ≤ℤ c.claimed_amount) × (c.claimed_amount ≤ℤ c.total_allocation))
        × ((d : Address) → owed st.0 d ≤ℤ t.balance st.1 d this)
  reached_owed r = let v = reached-IsCovered r in (v.sound, v.covered)
