-- ===== src/Vesting.antt =====
-- The vesting schedules of contracts/vesting_schedule/src/lib.rs: the data (State), administration,
-- the vested amount and the history; the entry points on schedules are in Vesting/Schedules.antt.
mod State
pub mod Schedules
pub mod Amounts
pub mod History
pub mod Readback
pub mod Effects
pub mod Payouts
pub mod Entry
pub mod Owing
pub mod Reach
pub mod Promises
mod Tests
pub use State.*
use Prim.Native.String.{String}
use mindmint_contracts.Base.{
  ℕ, zero, suc, ◌+◌, Bool, true, false, not, Option, none, some, List, [], ◌∷◌, length, leb, ltb,
  if◌then◌else◌, get_or, is_some,
}
use mindmint_contracts.Base.Int.{ℤ, pos}
use mindmint_contracts.Base.Map.{Map, nat_key, lookup, insert}
use mindmint_contracts.Host.Call.{
  Address, Env, ok, trap, Trap, ◌>>=◌, ◌>>◌, panic_if, require_auth, unwrap, expect,
}
use mindmint_contracts.Host.Num.{add_u32, add_u64, sub_u64, mul_u64, mul_i128, div_i128}

unfoldable pub initialize : Env → Address → Address → Storage → Call Storage
initialize e admin token s = do
  panic_if (is_some s.admin) Error.already_initialized
  require_auth e admin
  ok (record s {
    admin = some admin;
    token = some token;
    paused = some false;
    next_schedule_id = some 0;
  })

-- The admin, who has authorised the call.
abbrev pub require_admin : Env → Storage → Call Address
require_admin e s = do admin ← unwrap s.admin; require_auth e admin; ok admin

abbrev pub is_paused : Storage → Bool
is_paused s = get_or s.paused false

abbrev pub require_not_paused : Storage → Call (Unit {0})
require_not_paused s = panic_if (is_paused s) Error.contract_is_paused

unfoldable pub pause : Env → Storage → Call Storage
pause e s = do
  require_admin e s
  panic_if (is_paused s) Error.already_paused
  ok (record s { paused = some true })

unfoldable pub unpause : Env → Storage → Call Storage
unpause e s = do
  require_admin e s
  panic_if (not (is_paused s)) Error.already_unpaused
  ok (record s { paused = some false })

-- The identifier of a new schedule, and the storage with the next one.
unfoldable pub get_next_schedule_id : Storage → Call (ℕ × Storage)
get_next_schedule_id s = do
  let id = get_or s.next_schedule_id 0
  next ← add_u64 id 1
  ok (id, record s { next_schedule_id = some next })

-- Nothing before the cliff, everything after the vesting duration, and in between a share that grows
-- linearly from the cliff on.
unfoldable pub calculate_vested_amount : ℕ → VestingSchedule → Call ℤ
calculate_vested_amount current_time schedule = do
  cliff_end ← add_u64 schedule.start_time schedule.cliff_duration
  if ltb current_time cliff_end then ok (pos 0) else (do
    vesting_end ← add_u64 schedule.start_time schedule.vesting_duration
    if leb vesting_end current_time then ok schedule.total_amount else (do
      elapsed_since_start ← sub_u64 current_time schedule.start_time
      elapsed_since_cliff ← sub_u64 elapsed_since_start schedule.cliff_duration
      vesting_period ← sub_u64 schedule.vesting_duration schedule.cliff_duration
      scaled ← mul_i128 schedule.total_amount (pos elapsed_since_cliff)
      div_i128 scaled (pos vesting_period)))

-- The loop that looks for a free key of the history, on a host with a budget of `fuel` rounds.
unfoldable pub free_key : ℕ → ℕ → ℕ → Map ℕ VestingEvent → Call ℕ
free_key zero base index history = trap Trap.budget_exceeded
free_key (suc fuel) base index history =
    let rest = free_key fuel base (index + 1) history in
    add_u64 base index >>= λ key.
    if is_some (lookup key history) then (add_u64 index 1 >>= λ next. rest) else ok key

-- One round for each stored event and one more are enough.
unfoldable pub record_history : Env → ℕ → EventType → ℤ → String → Storage → Call Storage
record_history e schedule_id event_type amount description s = do
  base ← mul_u64 schedule_id 1000
  key ← free_key (suc (length s.vesting_history)) base 0 s.vesting_history
  let event : VestingEvent = record {
    event_type = event_type;
    timestamp = e.timestamp;
    amount = amount;
    description = description;
  }
  ok (record s { vesting_history = insert key event s.vesting_history })

abbrev pub set_schedule : ℕ → VestingSchedule → Storage → Storage
set_schedule id schedule s = record s { schedules = insert id schedule s.schedules }

abbrev pub get_admin : Storage → Call Address
get_admin s = unwrap s.admin

abbrev pub get_token : Storage → Call Address
get_token s = unwrap s.token

abbrev pub get_schedule : Storage → ℕ → Call VestingSchedule
get_schedule s schedule_id = expect (lookup schedule_id s.schedules) Error.no_vesting_schedule_found

abbrev pub get_beneficiary_schedules : Storage → Address → List ℕ
get_beneficiary_schedules s beneficiary = get_or (lookup beneficiary s.beneficiary_schedules) []

-- The loop that collects the events up to the first free key, with a budget of `fuel` rounds.
unfoldable pub read_history : ℕ → ℕ → ℕ → Map ℕ VestingEvent → Call (Map ℕ VestingEvent)
read_history zero base index history = trap Trap.budget_exceeded
read_history (suc fuel) base index history =
    let rest = read_history fuel base (index + 1) history in
    add_u64 base index >>= λ key. elim (lookup key history) [
      | none ↦ ok []
      | some event ↦ add_u32 index 1 >>= λ next. rest >>= λ more. ok ((index, event) ∷ more)
    ]

unfoldable pub get_vesting_history : Storage → ℕ → Call (Map ℕ VestingEvent)
get_vesting_history s schedule_id = do
  base ← mul_u64 schedule_id 1000
  read_history (suc (length s.vesting_history)) base 0 s.vesting_history
