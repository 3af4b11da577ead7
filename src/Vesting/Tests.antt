-- ===== src/Vesting/Tests.antt =====
-- Runs of the vesting schedules, and their theorems at concrete inputs.
use mindmint_contracts.Base.{
  ℕ, ◌≡◌, ◌≢◌, ◌⊎◌, ◌*◌, refl, Bool, true, false, none, some, [], ◌∷◌, if◌then◌else◌, arith, ◌==◌,
}
use mindmint_contracts.Base.Int.{ℤ, pos, ◌+ℤ◌, ◌-ℤ◌, ◌*ℤ◌, ◌/ℤ◌, ◌≤ℤ◌}
use mindmint_contracts.Base.Map.{Map, nat_key, lookup, insert}
use mindmint_contracts.Host.Call.{Address, Env, ok, panic}
use mindmint_contracts.Host.Num.{fits_i128, fits_u64, fits_u32}
use mindmint_contracts.Host.Tokens.Ledger.{Balances, ledger, ledger-IsTokens, balance_of, move}
use mindmint_contracts.Vesting
use mindmint_contracts.Vesting.{
  Error, EventType, VestingSchedule, VestingEvent, Storage, is_paused, get_next_schedule_id,
  calculate_vested_amount, free_key, record_history, read_history, get_vesting_history,
}
use mindmint_contracts.Vesting.Schedules.{
  list_schedule, create_schedule, release, return_unvested, revoke_schedule, modify_schedule,
  get_releasable_amount,
}
use mindmint_contracts.Vesting.Amounts.{vested, vested_grows}
use mindmint_contracts.Vesting.History.{IsFirstFree, record_history_returns}
use mindmint_contracts.Vesting.Readback.{history_read_back}
use mindmint_contracts.Vesting.Owing.{owed}
use mindmint_contracts.Vesting.Reach.{Reach, start, next, reached_backed, reached_released}
use mindmint_contracts.Vesting.Promises.{about, release_effect, revoked_strands}
use mindmint_contracts.Vesting.Entry.{Request, serve}

-- The contract is 7, its admin 9, the token 5, the beneficiary 2.
abbrev call_at : ℕ → Env
call_at now = record {
  timestamp = now;
  current_contract = 7;
  has_auth = λ a. if a == 7 then false else true;
}

abbrev world : ℤ → ℤ → ℤ → Balances
world admin own beneficiary = ((5, 9), admin) ∷ ((5, 7), own) ∷ ((5, 2), beneficiary) ∷ []

-- 1000 units from the time 100 on, the first of them at 200 and the last at 1200.
abbrev schedule : ℤ → Bool → VestingSchedule
schedule released revoked = record {
  schedule_id = 0;
  beneficiary = 2;
  total_amount = pos 1000;
  released_amount = released;
  start_time = 100;
  cliff_duration = 100;
  vesting_duration = 1100;
  revocable = true;
  revoked = revoked;
  created_at = 50;
  modified_at = none;
}

abbrev created : VestingEvent
created = record {
  event_type = EventType.schedule_created;
  timestamp = 50;
  amount = pos 1000;
  description = "Schedule created";
}

abbrev released : VestingEvent
released = record {
  event_type = EventType.tokens_released;
  timestamp = 700;
  amount = pos 500;
  description = "Tokens released";
}

abbrev revoked : VestingEvent
revoked = record {
  event_type = EventType.schedule_revoked;
  timestamp = 900;
  amount = pos 300;
  description = "Schedule revoked";
}

abbrev opened : Storage
opened = record Vesting.empty {
  admin = some 9;
  token = some 5;
  paused = some false;
  next_schedule_id = some 0;
}

abbrev stored : ℤ → Bool → Map ℕ VestingEvent → Storage
stored x r history = record opened {
  schedules = (0, schedule x r) ∷ [];
  next_schedule_id = some 1;
  beneficiary_schedules = (2, 0 ∷ []) ∷ [];
  vesting_history = history;
}

abbrev fresh : Storage
fresh = stored (pos 0) false ((0, created) ∷ [])

abbrev drawn : Storage
drawn = stored (pos 500) false ((0, created) ∷ (1, released) ∷ [])

abbrev ended : Storage
ended = stored (pos 500) true ((0, created) ∷ (1, released) ∷ (2, revoked) ∷ [])

initialize_run : Vesting.initialize (call_at 10) 9 5 Vesting.empty ≡ ok opened
unfolding Vesting.initialize
initialize_run = refl

create_run :
    serve ledger
      (call_at 50)
      (Request.create_schedule 2 (pos 1000) 100 100 1100 true)
      (opened, world (pos 1000) (pos 0) (pos 0))
    ≡ ok (fresh, world (pos 0) (pos 1000) (pos 0))
unfolding serve create_schedule get_next_schedule_id list_schedule record_history free_key move
    lookup insert fits_u64 ◌+ℤ◌ ◌-ℤ◌
create_run = refl

release_run :
    release ledger (call_at 700) 0 (fresh, world (pos 0) (pos 1000) (pos 0))
    ≡ ok (pos 500, drawn, world (pos 0) (pos 500) (pos 500))
unfolding release calculate_vested_amount record_history free_key move lookup insert fits_u64
    fits_i128 ◌+ℤ◌ ◌-ℤ◌ ◌*ℤ◌ ◌/ℤ◌
release_run = refl

serve-release_run :
    serve ledger (call_at 700) (Request.release 0) (fresh, world (pos 0) (pos 1000) (pos 0))
    ≡ ok (drawn, world (pos 0) (pos 500) (pos 500))
unfolding serve
serve-release_run = rw release_run refl

early_release_run :
    release ledger (call_at 199) 0 (fresh, world (pos 0) (pos 1000) (pos 0))
    ≡ panic Error.no_tokens_available
unfolding release calculate_vested_amount lookup fits_u64 fits_i128 ◌+ℤ◌ ◌-ℤ◌
early_release_run = refl

revoke_run :
    revoke_schedule ledger (call_at 900) 0 (drawn, world (pos 0) (pos 500) (pos 500))
    ≡ ok (pos 300, ended, world (pos 300) (pos 200) (pos 500))
unfolding revoke_schedule return_unvested calculate_vested_amount record_history free_key move
    lookup insert fits_u64 fits_i128 ◌+ℤ◌ ◌-ℤ◌ ◌*ℤ◌ ◌/ℤ◌
revoke_run = refl

-- A longer duration that would take vested units back is refused.
modify_run :
    modify_schedule (call_at 700) 0 0 5000 fresh
    ≡ panic Error.modification_cannot_reduce_vested_amount
unfolding modify_schedule calculate_vested_amount lookup fits_u64 fits_i128 ◌*ℤ◌ ◌/ℤ◌
modify_run = refl

releasable_run : get_releasable_amount (call_at 900) drawn 0 ≡ ok (pos 200)
unfolding get_releasable_amount calculate_vested_amount lookup fits_u64 fits_i128 ◌-ℤ◌ ◌*ℤ◌ ◌/ℤ◌
releasable_run = refl

half_run : calculate_vested_amount 700 (schedule (pos 0) false) ≡ ok (pos 500)
unfolding calculate_vested_amount fits_u64 fits_i128 ◌*ℤ◌ ◌/ℤ◌
half_run = refl

later_run : calculate_vested_amount 900 (schedule (pos 0) false) ≡ ok (pos 700)
unfolding calculate_vested_amount fits_u64 fits_i128 ◌*ℤ◌ ◌/ℤ◌
later_run = refl

vested_grows_example : (pos 0 ≤ℤ pos 500) × (pos 500 ≤ℤ pos 700) × (pos 700 ≤ℤ pos 1000)
vested_grows_example =
    vested_grows (schedule (pos 0) false) 700 900 (pos 500) (pos 700) (omega arith, omega arith)
      (omega arith) half_run later_run

record_history_returns_example :
    (s' : Storage) × (key : ℕ) × (record_history
        (call_at 700)
        0
        EventType.tokens_released
        (pos 500)
        "Tokens released"
        fresh
      ≡ ok s')
    × IsFirstFree (0 * 1000) fresh.vesting_history key
    × ((j : ℕ)
        → lookup j s'.vesting_history
          ≡ (if key == j then some released else lookup j fresh.vesting_history))
record_history_returns_example =
    record_history_returns (call_at 700) 0 EventType.tokens_released (pos 500) "Tokens released"
      fresh (omega arith)

start_nonneg : (d : Address) → pos 0 ≤ℤ balance_of (world (pos 1000) (pos 0) (pos 0)) d 7
unfolding balance_of lookup
start_nonneg d = ground arith

at_creation : Reach ledger 7 50 (fresh, world (pos 0) (pos 1000) (pos 0))
at_creation =
    next (call_at 50) (Request.create_schedule 2 (pos 1000) 100 100 1100 true)
      (start (call_at 10) 9 5 opened (world (pos 1000) (pos 0) (pos 0)) start_nonneg initialize_run)
      (omega arith) refl refl create_run

at_release : Reach ledger 7 700 (drawn, world (pos 0) (pos 500) (pos 500))
at_release =
    next (call_at 700) (Request.release 0) at_creation (omega arith) refl refl serve-release_run

reached_backed_example : owed drawn ≤ℤ balance_of (world (pos 0) (pos 500) (pos 500)) 5 7
reached_backed_example = reached_backed ledger 7 ledger-IsTokens 5 at_release refl

reached_released_example :
    (pos 0 ≤ℤ pos 500)
    × (pos 500 ≤ℤ pos (vested (schedule (pos 500) false) 700))
    × (pos (vested (schedule (pos 500) false) 700) ≤ℤ pos 1000)
unfolding lookup
reached_released_example =
    reached_released ledger 7 ledger-IsTokens 0 (schedule (pos 500) false) at_release refl refl

release_effect_example :
    (c : VestingSchedule) × (token : Address) × ((lookup 0 fresh.schedules ≡ some c)
      × (c.revoked ≡ false)
      × ((call_at 700).has_auth c.beneficiary ≡ true)
      × (is_paused fresh ≡ false)
      × (pos 500 ≡ pos (vested c 700) -ℤ c.released_amount)
      × (pos 1 ≤ℤ pos 500)
      × (some 5 ≡ some token)
      × (move (world (pos 0) (pos 1000) (pos 0)) token 7 c.beneficiary (pos 500)
          ≡ some (world (pos 0) (pos 500) (pos 500)))
      × (lookup 0 drawn.schedules ≡ some (record c { released_amount = pos (vested c 700) }))
      × ((j : ℕ) → 0 ≢ j → lookup j drawn.schedules ≡ lookup j fresh.schedules))
release_effect_example =
    release_effect ledger 7 ledger-IsTokens fresh (world (pos 0) (pos 1000) (pos 0)) (call_at 700) 0
      (pos 500) drawn (world (pos 0) (pos 500) (pos 500)) at_creation release_run

revoked_strands_example :
    (c : VestingSchedule) × (a : Address) × ((lookup 0 drawn.schedules ≡ some c)
      × (c.revocable ≡ true)
      × (some 9 ≡ some a)
      × ((call_at 900).has_auth a ≡ true)
      × (pos 300 ≡ c.total_amount -ℤ pos (vested c 900))
      × ((pos 300 ≤ℤ pos 0
            × (world (pos 300) (pos 200) (pos 500) ≡ world (pos 0) (pos 500) (pos 500)))
          ⊎ ((token : Address) × (some 5 ≡ some token)
              × (move (world (pos 0) (pos 500) (pos 500)) token 7 a (pos 300)
                  ≡ some (world (pos 300) (pos 200) (pos 500)))))
      × ((e' : Env) (q : Request) (w'' : Balances) (st : Storage × Balances)
          → about q ≡ some 0
          → serve ledger e' q (ended, w'') ≢ ok st))
revoked_strands_example =
    revoked_strands ledger 7 ledger-IsTokens drawn (world (pos 0) (pos 500) (pos 500)) (call_at 900)
      0 (pos 300) ended (world (pos 300) (pos 200) (pos 500)) at_release revoke_run

history_run : get_vesting_history ended 0 ≡ ok ((0, created) ∷ (1, released) ∷ (2, revoked) ∷ [])
unfolding get_vesting_history read_history lookup fits_u64 fits_u32
history_run = refl

drawn_history_run : get_vesting_history drawn 0 ≡ ok ((0, created) ∷ (1, released) ∷ [])
unfolding get_vesting_history read_history lookup fits_u64 fits_u32
drawn_history_run = refl

history_read_back_example :
    (s' : Storage) × (record_history
        (call_at 900)
        0
        EventType.schedule_revoked
        (pos 300)
        "Schedule revoked"
        drawn
      ≡ ok s')
    × (get_vesting_history s' 0 ≡ ok ((0, created) ∷ (1, released) ∷ (2, revoked) ∷ []))
unfolding lookup
history_read_back_example =
    history_read_back (call_at 900) 0 EventType.schedule_revoked (pos 300) "Schedule revoked" drawn
      ((0, created) ∷ (1, released) ∷ []) drawn_history_run refl (omega arith) (omega arith)
      (omega arith)
