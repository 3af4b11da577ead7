-- ===== src/Airdrop.antt =====
-- The airdrop (contracts/airdrop_merkle_claim/src/lib.rs), entry point by entry point.
pub mod Bytes
pub mod Merkle
pub mod Entry
pub mod Effects
pub mod Campaigns
pub mod Claims
pub mod Tests
use mindmint_contracts.Base.{
  ℕ, Bool, true, not, ◌||◌, Option, none, some, List, [], ◌∷◌, ◌++◌, length, ltb, leb, ◌==◌,
  if◌then◌else◌, is_some, get_or,
}
use mindmint_contracts.Base.Int.{ℤ, pos, leb_ℤ, ltb_ℤ, eqb_ℤ}
use mindmint_contracts.Base.Map.{Map, nat_key, pair_key, lookup, insert}
use mindmint_contracts.Host.Call.{
  Address, Env, Result, ok, ◌>>=◌, ◌>>◌, panic_if, require_auth, expect, invoke,
}
use mindmint_contracts.Host.Num.{add_i128, sub_i128, add_u32}
use mindmint_contracts.Host.Tokens.{Tokens}
use mindmint_contracts.Airdrop.Bytes.{to_be_bytes, bytes_eq}

-- `status` is 0 for active, 1 for expired and 2 for cancelled.
pub record AirdropCampaign : Type 0 where
  pub id : ℕ
  pub merkle_root : List ℕ
  pub token : Address
  pub total_allocation : ℤ
  pub claimed_count : ℕ
  pub claimed_amount : ℤ
  pub deadline : ℕ
  pub status : ℕ

-- `DataKey`
pub record Storage : Type 0 where
  pub admin : Option Address
  pub campaign_counter : Option ℕ
  pub campaigns : Map ℕ AirdropCampaign
  pub claimed : Map (ℕ × Address) Bool

abbrev pub empty : Storage
empty = record { admin = none; campaign_counter = none; campaigns = []; claimed = [] }

-- The messages of the contract's panics.
pub data Error : Type 0 where
  already_initialized admin_not_set total_allocation_not_positive deadline_not_in_future : Error
  claim_amount_not_positive campaign_not_found campaign_expired campaign_not_active : Error
  already_claimed invalid_merkle_proof insufficient_allocation strkey_length : Error
  campaign_still_active no_unclaimed_tokens : Error

abbrev pub Call : Type 0 → Type 0
Call A = Result Error A

-- What the host computes: the SHA-256 of some bytes, and the text of an address as bytes.
pub record Crypto : Type 0 where
  pub sha256 : List ℕ → List ℕ
  pub to_string : Address → List ℕ

abbrev pub set_campaign : ℕ → AirdropCampaign → Storage → Storage
set_campaign id c s = record s { campaigns = insert id c s.campaigns }

unfoldable pub initialize : Env → Address → Storage → Call Storage
initialize e admin s = do
  panic_if (is_some s.admin) Error.already_initialized
  require_auth e admin
  ok (record s { admin = some admin; campaign_counter = some 0 })

abbrev pub require_admin : Env → Storage → Call (Unit {0})
require_admin e s = do admin ← expect s.admin Error.admin_not_set; require_auth e admin

-- The leaf: the address's text, then the amount's bytes.
abbrev pub leaf_input : Crypto → Address → ℤ → List ℕ
leaf_input k address amount = k.to_string address ++ to_be_bytes amount

-- The loop over the proof: `current_hash = sha256(current_hash || sibling)`.
unfoldable pub walk : Crypto → List ℕ → List (List ℕ) → List ℕ
walk k current [] = current
walk k current (sibling ∷ proof) = walk k (k.sha256 (current ++ sibling)) proof

unfoldable pub verify_proof : Crypto → Storage → ℕ → Address → ℤ → List (List ℕ) → Call Bool
verify_proof k s campaign_id address amount proof = do
  campaign ← expect (lookup campaign_id s.campaigns) Error.campaign_not_found
  panic_if (length (k.to_string address) == 0 || ltb 64 (length (k.to_string address)))
      Error.strkey_length
  ok (bytes_eq (walk k (k.sha256 (leaf_input k address amount)) proof) campaign.merkle_root)

module _ {W : Type 0} (t : Tokens W) where
  unfoldable pub create_campaign :
      Env → Address → List ℕ → Address → ℤ → ℕ → Storage × W → Call (ℕ × Storage × W)
  create_campaign e admin merkle_root token total_allocation deadline (s, w) = do
    require_auth e admin
    require_admin e s
    panic_if (leb_ℤ total_allocation (pos 0)) Error.total_allocation_not_positive
    panic_if (leb deadline e.timestamp) Error.deadline_not_in_future
    w1 ← invoke (t.transfer w token admin e.current_contract total_allocation)
    campaign_id ← add_u32 (get_or s.campaign_counter 0) 1
    let campaign : AirdropCampaign = record {
      id = campaign_id;
      merkle_root = merkle_root;
      token = token;
      total_allocation = total_allocation;
      claimed_count = 0;
      claimed_amount = pos 0;
      deadline = deadline;
      status = 0;
    }
    let s1 = set_campaign campaign_id campaign s
    ok (campaign_id, record s1 { campaign_counter = some campaign_id }, w1)

  unfoldable pub claim :
      Crypto → Env → ℕ → Address → ℤ → List (List ℕ) → Storage × W → Call (Storage × W)
  claim k e campaign_id claimer amount proof (s, w) = do
    require_auth e claimer
    panic_if (leb_ℤ amount (pos 0)) Error.claim_amount_not_positive
    campaign ← expect (lookup campaign_id s.campaigns) Error.campaign_not_found
    panic_if (ltb campaign.deadline e.timestamp) Error.campaign_expired
    panic_if (not (campaign.status == 0)) Error.campaign_not_active
    panic_if (is_some (lookup (campaign_id, claimer) s.claimed)) Error.already_claimed
    valid ← verify_proof k s campaign_id claimer amount proof
    panic_if (not valid) Error.invalid_merkle_proof
    claimed_after ← add_i128 campaign.claimed_amount amount
    panic_if (ltb_ℤ campaign.total_allocation claimed_after) Error.insufficient_allocation
    let s1 = record s { claimed = insert (campaign_id, claimer) true s.claimed }
    count ← add_u32 campaign.claimed_count 1
    claimed ← add_i128 campaign.claimed_amount amount
    let s2 =
        set_campaign campaign_id
          (record campaign { claimed_count = count; claimed_amount = claimed }) s1
    w1 ← invoke (t.transfer w campaign.token e.current_contract claimer amount)
    ok (s2, w1)

  unfoldable pub reclaim_unclaimed : Env → Address → ℕ → Storage × W → Call (ℤ × Storage × W)
  reclaim_unclaimed e admin campaign_id (s, w) = do
    require_auth e admin
    require_admin e s
    campaign ← expect (lookup campaign_id s.campaigns) Error.campaign_not_found
    panic_if (leb e.timestamp campaign.deadline) Error.campaign_still_active
    unclaimed ← sub_i128 campaign.total_allocation campaign.claimed_amount
    panic_if (eqb_ℤ unclaimed (pos 0)) Error.no_unclaimed_tokens
    let s1 = set_campaign campaign_id (record campaign { status = 1 }) s
    w1 ← invoke (t.transfer w campaign.token e.current_contract admin unclaimed)
    ok (unclaimed, s1, w1)

pub get_campaign : ℕ → Storage → Option AirdropCampaign
get_campaign campaign_id s = lookup campaign_id s.campaigns

pub has_claimed : ℕ → Address → Storage → Bool
has_claimed campaign_id address s = is_some (lookup (campaign_id, address) s.claimed)
