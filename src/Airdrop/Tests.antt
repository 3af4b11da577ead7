-- ===== src/Airdrop/Tests.antt =====
-- Runs of the airdrop, and its theorems at concrete inputs.
use mindmint_contracts.Base.{
  ℕ, ◌≡◌, ◌≢◌, ◌⊎◌, ◌+◌, refl, true, false, some, List, [], ◌∷◌, if◌then◌else◌, is_some, arith,
  ◌==◌,
}
use mindmint_contracts.Base.Int.{ℤ, pos, ◌+ℤ◌, ◌-ℤ◌, ◌≤ℤ◌}
use mindmint_contracts.Base.Map.{nat_key, pair_key, lookup, insert}
use mindmint_contracts.Host.Call.{Address, Env, ok}
use mindmint_contracts.Host.Num.{fits_i128, fits_u32}
use mindmint_contracts.Host.Tokens.Ledger.{Balances, ledger, ledger-IsTokens, balance_of, move}
use mindmint_contracts.Airdrop
use mindmint_contracts.Airdrop.{
  AirdropCampaign, Crypto, Storage, initialize, walk, verify_proof, create_campaign, claim,
  reclaim_unclaimed,
}
use mindmint_contracts.Airdrop.Bytes.{bytes_eq, be_bytes, to_be_bytes}
use mindmint_contracts.Airdrop.Campaigns.{owed, Reach, start, next, reached_owed}
use mindmint_contracts.Airdrop.Claims.{one_claimer, reclaim_repeats, claimed_stays}
use mindmint_contracts.Airdrop.Entry.{Request, serve}
use mindmint_contracts.Airdrop.Merkle.{IsCrypto, Collision}

-- The contract is 7, its admin 9, the token 5; 2 may claim 100.
abbrev call_at : ℕ → Env
call_at now = record {
  timestamp = now;
  current_contract = 7;
  has_auth = λ a. if a == 7 then false else true;
}

-- `x` sixteen times, and thirty-two times.
abbrev sixteen : ℕ → List ℕ → List ℕ
sixteen x xs = x ∷ x ∷ x ∷ x ∷ x ∷ x ∷ x ∷ x ∷ x ∷ x ∷ x ∷ x ∷ x ∷ x ∷ x ∷ x ∷ xs

abbrev digest : ℕ → List ℕ
digest x = sixteen x (sixteen x [])

sum : List ℕ → ℕ
sum [] = 0
sum (x ∷ xs) = x + sum xs

-- A digest that only adds the bytes up, and texts that begin with the address.
abbrev toy : Crypto
unfolding sum
toy = record {
  sha256 = λ x. digest (sum x);
  to_string = λ a. a ∷ 0 ∷ 0 ∷ 0 ∷ 0 ∷ 0 ∷ 0 ∷ 0 ∷ sixteen 0 (sixteen 0 (sixteen 0 []));
}

toy-IsCrypto : IsCrypto toy
unfolding sum
toy-IsCrypto = record {
  digest_length = λ x. refl;
  text_length = λ a. refl;
  text_inj = λ a b h. ground arith;
}

abbrev proof : List (List ℕ)
proof = digest 1 ∷ []

abbrev campaign : ℕ → ℤ → ℕ → AirdropCampaign
campaign count claimed status = record {
  id = 1;
  merkle_root = digest 3296;
  token = 5;
  total_allocation = pos 1000;
  claimed_count = count;
  claimed_amount = claimed;
  deadline = 500;
  status = status;
}

abbrev opened : Storage
opened = record Airdrop.empty { admin = some 9; campaign_counter = some 0 }

abbrev created : Storage
created = record opened { campaign_counter = some 1; campaigns = (1, campaign 0 (pos 0) 0) ∷ [] }

abbrev paid_out : Storage
paid_out = record created {
  campaigns = (1, campaign 1 (pos 100) 0) ∷ [];
  claimed = ((1, 2), true) ∷ [];
}

abbrev world : Balances
world = ((5, 9), pos 3000) ∷ []

abbrev world_created : Balances
world_created = ((5, 9), pos 2000) ∷ ((5, 7), pos 1000) ∷ []

abbrev world_paid : Balances
world_paid = ((5, 9), pos 2000) ∷ ((5, 7), pos 900) ∷ ((5, 2), pos 100) ∷ []

initialize_run :
    serve ledger toy (call_at 50) (Request.initialize 9) (Airdrop.empty, world) ≡ ok (opened, world)
unfolding serve initialize
initialize_run = refl

create_run :
    serve ledger toy
      (call_at 100)
      (Request.create_campaign 9 (digest 3296) 5 (pos 1000) 500)
      (opened, world)
    ≡ ok (created, world_created)
unfolding serve create_campaign move lookup insert fits_u32 ◌+ℤ◌ ◌-ℤ◌
create_run = refl

claim_run :
    claim ledger toy (call_at 200) 1 2 (pos 100) proof (created, world_created)
    ≡ ok (paid_out, world_paid)
unfolding claim verify_proof walk bytes_eq to_be_bytes be_bytes sum move lookup insert fits_i128
    fits_u32 ◌+ℤ◌ ◌-ℤ◌
claim_run = refl

start_nonneg : (d : Address) → pos 0 ≤ℤ balance_of world d 7
unfolding balance_of lookup
start_nonneg d = ground arith

reached : Reach ledger toy 7 (paid_out, world_paid)
unfolding serve
reached =
    next (call_at 200) (Request.claim 1 2 (pos 100) proof)
      (next (call_at 100) (Request.create_campaign 9 (digest 3296) 5 (pos 1000) 500)
        (next (call_at 50) (Request.initialize 9) (start world start_nonneg) refl refl tt
          initialize_run)
        refl refl tt create_run)
      refl refl tt claim_run

found_campaign : lookup 1 created.campaigns ≡ some (campaign 0 (pos 0) 0)
unfolding lookup
found_campaign = refl

reached_owed_example :
    ((i : ℕ) (c : AirdropCampaign)
      → lookup i paid_out.campaigns ≡ some c
      → (pos 0 ≤ℤ c.claimed_amount) × (c.claimed_amount ≤ℤ c.total_allocation))
    × ((d : Address) → owed paid_out d ≤ℤ balance_of world_paid d 7)
reached_owed_example = reached_owed ledger toy 7 ledger-IsTokens reached

one_claimer_example : ((◌≡◌ {A = Address} 2 2) × (pos 100 ≡ pos 100)) ⊎ Collision toy
unfolding fits_i128
one_claimer_example =
    one_claimer ledger toy toy-IsCrypto (call_at 200) (call_at 200) 1 1 2 2 (pos 100) (pos 100)
      proof proof created created world_created world_created (paid_out, world_paid)
      (paid_out, world_paid) (campaign 0 (pos 0) 0) (campaign 0 (pos 0) 0) found_campaign
      found_campaign refl (refl, tt) (refl, tt) refl refl claim_run claim_run

-- Another campaign has put 1,500 more into the contract, which the second reclaim takes.
abbrev world_richer : Balances
world_richer = ((5, 9), pos 500) ∷ ((5, 7), pos 2500) ∷ []

abbrev world_reclaimed : Balances
world_reclaimed = ((5, 9), pos 1500) ∷ ((5, 7), pos 1500) ∷ []

abbrev world_reclaimed_twice : Balances
world_reclaimed_twice = ((5, 9), pos 2500) ∷ ((5, 7), pos 500) ∷ []

abbrev expired : Storage
expired = record created { campaigns = (1, campaign 0 (pos 0) 1) ∷ [] }

reclaim_run :
    reclaim_unclaimed ledger (call_at 600) 9 1 (created, world_richer)
    ≡ ok (pos 1000, expired, world_reclaimed)
unfolding reclaim_unclaimed move lookup insert fits_i128 ◌+ℤ◌ ◌-ℤ◌
reclaim_run = refl

move_run : move world_reclaimed 5 7 9 (pos 1000) ≡ some world_reclaimed_twice
unfolding move lookup insert ◌+ℤ◌ ◌-ℤ◌
move_run = refl

reclaim_repeats_example :
    (s : Storage) × (reclaim_unclaimed ledger (call_at 600) 9 1 (expired, world_reclaimed)
      ≡ ok (pos 1000, s, world_reclaimed_twice))
reclaim_repeats_example =
    reclaim_repeats ledger toy (call_at 600) 9 1 created world_richer (pos 1000) expired
      world_reclaimed world_reclaimed_twice (campaign 0 (pos 0) 0) found_campaign reclaim_run
      move_run

abbrev refunded : Storage
refunded = record paid_out { campaigns = (1, campaign 1 (pos 100) 1) ∷ [] }

abbrev world_refunded : Balances
world_refunded = ((5, 9), pos 2900) ∷ ((5, 7), pos 0) ∷ ((5, 2), pos 100) ∷ []

refund_run :
    serve ledger toy (call_at 600) (Request.reclaim_unclaimed 9 1) (paid_out, world_paid)
    ≡ ok (refunded, world_refunded)
unfolding serve reclaim_unclaimed move lookup insert fits_i128 ◌+ℤ◌ ◌-ℤ◌
refund_run = refl

has_paid : is_some (lookup (1, 2) paid_out.claimed) ≡ true
unfolding lookup
has_paid = refl

claimed_stays_example :
    (is_some (lookup (1, 2) refunded.claimed) ≡ true)
    × ((e : Env) (x : ℤ) (proof : List (List ℕ)) (st : Storage × Balances)
        → claim ledger toy e 1 2 x proof (refunded, world_refunded) ≢ ok st)
claimed_stays_example =
    claimed_stays ledger toy (call_at 600) (Request.reclaim_unclaimed 9 1) paid_out world_paid
      refunded world_refunded 1 2 has_paid refund_run
