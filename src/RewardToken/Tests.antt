-- ===== src/RewardToken/Tests.antt =====
-- Runs of the reward token, and its theorems at concrete inputs.
use mindmint_contracts.Base.{
  ◌==◌, ◌&&◌, ℕ, ◌+◌, ◌≡◌, refl, true, none, some, List, [], ◌∷◌, if◌then◌else◌, arith, length, ◌⊎◌,
}
use mindmint_contracts.Base.Int.{ℤ, pos, ◌+ℤ◌, ◌-ℤ◌, ◌*ℤ◌, ◌/ℤ◌, ◌≤ℤ◌}
use mindmint_contracts.Base.Map.{nat_key, pair_key, lookup, insert}
use mindmint_contracts.Host.Call.{Address, Env, ok, panic}
use mindmint_contracts.Host.Num.{fits_i128}
use mindmint_contracts.RewardToken
use mindmint_contracts.RewardToken.{
  Storage, Controller, BurnConfigLocal, balance, set_balance, allowance, total_supply, transfer,
  transfer_from, split_burn, settle_burn, report_burn, destroy, credit, mint, is_authorized_minter,
  distribute_rewards, reward_all, credit_if_positive, insufficient_balance,
}
use mindmint_contracts.RewardToken.Balances.{sum}
use mindmint_contracts.RewardToken.Entry.{Request, serve}
use mindmint_contracts.RewardToken.Fees.{IsController, burn_due}
use mindmint_contracts.RewardToken.Effects.{
  paid_balance, transfer_effect, transfer_from_effect, transfer_succeeds,
}
use mindmint_contracts.RewardToken.Minting.{
  owed, owed_to, distribute_rewards_paid, supply_rise_authorised,
}
use mindmint_contracts.RewardToken.Reach.{
  Reach, start, next, reached_balanced, transfer_self_inflates,
}
use mindmint_contracts.RewardToken.Rights.{debit_authorised}

-- A controller that burns 1 percent, and counts what it is told.
abbrev one_percent : BurnConfigLocal
one_percent = record { admin = 9; reward_token = 7; burn_rate = 100; enabled = true }

abbrev counting : Controller ℕ
counting = record {
  get_config = λ c a. some one_percent;
  record_burn = λ c a x source reason. some (c + 1);
}

counting-IsController : IsController counting
counting-IsController = record { rate_le = λ c a cfg h. grind arith }

abbrev all_sign : Env
all_sign = record { timestamp = 1000; current_contract = 7; has_auth = λ a. true }

abbrev fresh : Storage
fresh = record RewardToken.empty {
  supply = some (pos 0);
  admin = some 9;
  token_name = some "Coin";
  token_symbol = some "CN";
  token_decimals = some 6;
}

abbrev minted : Storage
minted = record fresh { balances = (1, pos 1000) ∷ []; supply = some (pos 1000) }

abbrev burning : Storage
burning = record minted { burn_controller = some 8 }

abbrev paid : Storage
paid = record burning { balances = (1, pos 600) ∷ (2, pos 396) ∷ []; supply = some (pos 996) }

abbrev paid_self : Storage
paid_self = record burning { balances = (1, pos 1396) ∷ []; supply = some (pos 996) }

transfer_run : transfer counting all_sign 1 2 (pos 400) (burning, 0) ≡ ok (paid, 1)
unfolding transfer split_burn settle_burn report_burn lookup insert fits_i128 ◌+ℤ◌ ◌-ℤ◌ ◌*ℤ◌ ◌/ℤ◌
transfer_run = refl

transfer_too_much :
    transfer counting all_sign 1 2 (pos 1001) (burning, 0) ≡ panic insufficient_balance
unfolding transfer lookup
transfer_too_much = refl

transfer_effect_example :
    let due = burn_due counting 0 (some 8) (pos 400) in
    (true ≡ true)
    × (pos 1 ≤ℤ pos 400)
    × (pos 400 ≤ℤ balance burning 1)
    × ((a : Address) → balance paid a ≡ paid_balance burning 1 2 (pos 400) due a)
    × (paid.allowances ≡ burning.allowances)
    × (total_supply paid ≡ total_supply burning -ℤ due)
transfer_effect_example =
    transfer_effect counting all_sign 1 2 (pos 400) burning 0 paid 1 transfer_run

transfer_succeeds_example :
    transfer counting all_sign 1 2 (pos 400) (minted, 0)
    ≡ ok (
      set_balance
          (set_balance minted 1 (balance minted 1 -ℤ pos 400))
          2
          (balance minted 2 +ℤ pos 400),
      0,
    )
unfolding lookup ◌+ℤ◌
transfer_succeeds_example =
    transfer_succeeds counting all_sign 1 2 (pos 400) minted 0 refl refl (omega arith) (omega arith)
      (omega arith) (omega arith) (omega arith)

abbrev allowing : Storage
allowing = record minted { allowances = ((1, 3), pos 500) ∷ [] }

abbrev spent : Storage
spent = record minted {
  balances = (1, pos 600) ∷ (2, pos 400) ∷ [];
  allowances = ((1, 3), pos 100) ∷ [];
}

transfer_from_run : transfer_from counting all_sign 3 1 2 (pos 400) (allowing, 0) ≡ ok (spent, 0)
unfolding transfer_from split_burn settle_burn report_burn lookup insert fits_i128 ◌+ℤ◌ ◌-ℤ◌
transfer_from_run = refl

transfer_from_effect_example :
    let due = burn_due counting 0 none (pos 400) in
    (true ≡ true)
    × (pos 1 ≤ℤ pos 400)
    × (pos 400 ≤ℤ balance allowing 1)
    × (pos 400 ≤ℤ allowance allowing 1 3)
    × ((a : Address) → balance spent a ≡ paid_balance allowing 1 2 (pos 400) due a)
    × ((a b : Address)
        → allowance spent a b ≡ (
            if 1 == a && 3 == b then allowance allowing 1 3 -ℤ pos 400 else allowance allowing a b))
    × (total_supply spent ≡ total_supply allowing -ℤ due)
transfer_from_effect_example =
    transfer_from_effect counting all_sign 3 1 2 (pos 400) allowing 0 spent 0 transfer_from_run

initialize_run : RewardToken.initialize 9 "Coin" "CN" 6 RewardToken.empty ≡ ok fresh
unfolding RewardToken.initialize
initialize_run = refl

mint_run : serve counting all_sign (Request.mint 9 1 (pos 1000)) (fresh, 0) ≡ ok (minted, 0)
unfolding serve mint credit is_authorized_minter lookup insert fits_i128 ◌+ℤ◌
mint_run = refl

set_run : serve counting all_sign (Request.set_burn_controller 8) (minted, 0) ≡ ok (burning, 0)
unfolding serve RewardToken.set_burn_controller
set_run = refl

burning_reached : Reach counting (burning, 0)
burning_reached =
    next all_sign (Request.set_burn_controller 8)
      (next all_sign (Request.mint 9 1 (pos 1000)) (start 9 "Coin" "CN" 6 0 initialize_run) tt
        mint_run)
      tt set_run

reached_balanced_example :
    (total_supply burning ≡ sum burning.balances) × ((a : Address) → pos 0 ≤ℤ balance burning a)
reached_balanced_example = reached_balanced counting counting-IsController burning_reached

transfer_self_run : transfer counting all_sign 1 1 (pos 400) (burning, 0) ≡ ok (paid_self, 1)
unfolding transfer split_burn settle_burn report_burn lookup insert fits_i128 ◌+ℤ◌ ◌-ℤ◌ ◌*ℤ◌ ◌/ℤ◌
transfer_self_run = refl

transfer_self_inflates_example :
    let due = burn_due counting 0 burning.burn_controller (pos 400) in
    (pos 1 ≤ℤ pos 400)
    × (balance paid_self 1 ≡ balance burning 1 +ℤ (pos 400 -ℤ due))
    × (sum paid_self.balances ≡ sum burning.balances +ℤ (pos 400 -ℤ due))
    × (total_supply paid_self ≡ total_supply burning -ℤ due)
    × (sum paid_self.balances ≡ total_supply paid_self +ℤ pos 400)
transfer_self_inflates_example =
    transfer_self_inflates counting counting-IsController all_sign 1 (pos 400) paid_self 1
      burning_reached transfer_self_run

abbrev burnt : Storage
burnt = record burning { balances = (1, pos 970) ∷ []; supply = some (pos 970) }

burn_run : serve counting all_sign (Request.burn 1 (pos 30)) (burning, 0) ≡ ok (burnt, 1)
unfolding serve RewardToken.burn destroy report_burn lookup insert fits_i128 ◌-ℤ◌
burn_run = refl

debit_authorised_example :
    (true ≡ true)
    ⊎ ((p : Address) × (true ≡ true)
        × (balance burning 1 -ℤ balance burnt 1 ≤ℤ allowance burning 1 p))
unfolding lookup
debit_authorised_example =
    debit_authorised counting counting-IsController all_sign (Request.burn 1 (pos 30)) 1 burning 0
      burnt 1 burn_run (omega arith)

supply_rise_authorised_example :
    (m : Address) × (true ≡ true) × (is_authorized_minter m fresh ≡ ok true)
supply_rise_authorised_example =
    supply_rise_authorised counting all_sign (Request.mint 9 1 (pos 1000)) fresh 0 minted 0 mint_run
      (omega arith) (omega arith)

abbrev rewarded : Storage
rewarded = record fresh { balances = (1, pos 12) ∷ (2, pos 5) ∷ []; supply = some (pos 17) }

distribute_run :
    distribute_rewards all_sign (1 ∷ 2 ∷ 3 ∷ 1 ∷ []) (pos 10 ∷ pos 5 ∷ pos 0 ∷ pos 2 ∷ []) fresh
    ≡ ok rewarded
unfolding distribute_rewards reward_all credit_if_positive credit lookup insert fits_i128 ◌+ℤ◌
distribute_run = refl

distribute_rewards_paid_example :
    let to : List Address = 1 ∷ 2 ∷ 3 ∷ 1 ∷ [] in
    let amounts : List ℤ = pos 10 ∷ pos 5 ∷ pos 0 ∷ pos 2 ∷ [] in
    (length to ≡ length amounts)
    × ((a : Address) → balance rewarded a ≡ balance fresh a +ℤ owed_to a to amounts)
    × (total_supply rewarded ≡ total_supply fresh +ℤ owed amounts)
distribute_rewards_paid_example =
    distribute_rewards_paid all_sign (1 ∷ 2 ∷ 3 ∷ 1 ∷ []) (pos 10 ∷ pos 5 ∷ pos 0 ∷ pos 2 ∷ [])
      fresh rewarded distribute_run
