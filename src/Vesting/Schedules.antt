-- ===== src/Vesting/Schedules.antt =====
-- The entry points of contracts/vesting_schedule/src/lib.rs on schedules, and the views.
use mindmint_contracts.Base.{
  ℕ, Bool, true, false, not, none, some, [], ◌∷◌, ◌++◌, leb, ltb, ◌==◌, if◌then◌else◌, get_or,
}
use mindmint_contracts.Base.Int.{ℤ, pos, leb_ℤ, ltb_ℤ}
use mindmint_contracts.Base.Map.{nat_key, lookup, insert}
use mindmint_contracts.Host.Call.{
  Address, Env, ok, ◌>>=◌, ◌>>◌, panic_if, require_auth, unwrap, expect, invoke,
}
use mindmint_contracts.Host.Num.{add_u64, add_i128, sub_i128}
use mindmint_contracts.Host.Tokens.{Tokens}
use mindmint_contracts.Vesting.{
  Error, EventType, VestingSchedule, VestingStatus, Storage, Call, require_admin,
  require_not_paused, get_next_schedule_id, calculate_vested_amount, record_history, set_schedule,
}

-- The beneficiary's list of schedules with one more.
unfoldable pub list_schedule : Address → ℕ → Storage → Storage
list_schedule beneficiary id s =
    let schedules = get_or (lookup beneficiary s.beneficiary_schedules) [] in
    record s {
      beneficiary_schedules = insert beneficiary (schedules ++ id ∷ []) s.beneficiary_schedules;
    }

-- The new cliff of a schedule, where 0 keeps the one it has.
abbrev pub change_cliff : ℕ → VestingSchedule → Call VestingSchedule
change_cliff cliff schedule =
    if ltb 0 cliff
    then (do
      panic_if (leb schedule.vesting_duration cliff) Error.cliff_duration_must_be_less
      ok (record schedule { cliff_duration = cliff }))
    else ok schedule

-- The new vesting duration of a schedule, where 0 keeps the one it has.
abbrev pub change_duration : ℕ → VestingSchedule → Call VestingSchedule
change_duration duration schedule =
    if ltb 0 duration
    then (do
      panic_if (leb duration schedule.cliff_duration) Error.vesting_duration_must_be_greater
      ok (record schedule { vesting_duration = duration }))
    else ok schedule

unfoldable pub modify_schedule : Env → ℕ → ℕ → ℕ → Storage → Call Storage
modify_schedule e schedule_id new_cliff_duration new_vesting_duration s = do
  require_admin e s
  require_not_paused s
  schedule ← expect (lookup schedule_id s.schedules) Error.no_vesting_schedule_found
  panic_if schedule.revoked Error.cannot_modify_revoked_schedule
  current_vested ← calculate_vested_amount e.timestamp schedule
  schedule1 ← change_cliff new_cliff_duration schedule
  schedule2 ← change_duration new_vesting_duration schedule1
  new_vested ← calculate_vested_amount e.timestamp schedule2
  panic_if (ltb_ℤ new_vested current_vested) Error.modification_cannot_reduce_vested_amount
  let s1 = set_schedule schedule_id (record schedule2 { modified_at = some e.timestamp }) s
  record_history e schedule_id EventType.schedule_modified (pos 0) "Schedule modified" s1

module _ {W : Type 0} (t : Tokens W) where
  unfoldable pub create_schedule :
      Env → Address → ℤ → ℕ → ℕ → ℕ → Bool → Storage × W → Call (ℕ × Storage × W)
  create_schedule e beneficiary total_amount start cliff duration revocable (s, w) = do
    admin ← require_admin e s
    require_not_paused s
    panic_if (leb_ℤ total_amount (pos 0)) Error.total_amount_must_be_positive
    panic_if (duration == 0) Error.vesting_duration_must_be_positive
    panic_if (leb duration cliff) Error.cliff_duration_must_be_less
    (id, s1) ← get_next_schedule_id s
    let schedule : VestingSchedule = record {
      schedule_id = id;
      beneficiary = beneficiary;
      total_amount = total_amount;
      released_amount = pos 0;
      start_time = start;
      cliff_duration = cliff;
      vesting_duration = duration;
      revocable = revocable;
      revoked = false;
      created_at = e.timestamp;
      modified_at = none;
    }
    let s2 = list_schedule beneficiary id (set_schedule id schedule s1)
    s3 ← record_history e id EventType.schedule_created total_amount "Schedule created" s2
    token ← unwrap s3.token
    w1 ← invoke (t.transfer w token admin e.current_contract total_amount)
    ok (id, s3, w1)

  unfoldable pub release : Env → ℕ → Storage × W → Call (ℤ × Storage × W)
  release e schedule_id (s, w) = do
    schedule ← expect (lookup schedule_id s.schedules) Error.no_vesting_schedule_found
    require_auth e schedule.beneficiary
    require_not_paused s
    panic_if schedule.revoked Error.schedule_has_been_revoked
    vested_amount ← calculate_vested_amount e.timestamp schedule
    releasable ← sub_i128 vested_amount schedule.released_amount
    panic_if (leb_ℤ releasable (pos 0)) Error.no_tokens_available
    released ← add_i128 schedule.released_amount releasable
    let s1 = set_schedule schedule_id (record schedule { released_amount = released }) s
    token ← unwrap s1.token
    w1 ← invoke (t.transfer w token e.current_contract schedule.beneficiary releasable)
    s2 ← record_history e schedule_id EventType.tokens_released releasable "Tokens released" s1
    ok (releasable, s2, w1)

  -- What is not vested goes back to the admin.
  unfoldable pub return_unvested : Env → Address → ℤ → Storage × W → Call W
  return_unvested e admin unvested (s, w) =
      if ltb_ℤ (pos 0) unvested
      then (do
        token ← unwrap s.token
        invoke (t.transfer w token e.current_contract admin unvested))
      else ok w

  unfoldable pub revoke_schedule : Env → ℕ → Storage × W → Call (ℤ × Storage × W)
  revoke_schedule e schedule_id (s, w) = do
    admin ← require_admin e s
    schedule ← expect (lookup schedule_id s.schedules) Error.no_vesting_schedule_found
    panic_if (not schedule.revocable) Error.schedule_is_not_revocable
    panic_if schedule.revoked Error.schedule_already_revoked
    vested_amount ← calculate_vested_amount e.timestamp schedule
    unvested_amount ← sub_i128 schedule.total_amount vested_amount
    let s1 = set_schedule schedule_id (record schedule { revoked = true }) s
    w1 ← return_unvested e admin unvested_amount (s1, w)
    s2 ←
        record_history e schedule_id EventType.schedule_revoked unvested_amount "Schedule revoked"
          s1
    ok (unvested_amount, s2, w1)

unfoldable pub get_vested_amount : Env → Storage → ℕ → Call ℤ
get_vested_amount e s schedule_id = do
  schedule ← expect (lookup schedule_id s.schedules) Error.no_vesting_schedule_found
  if schedule.revoked
      then ok schedule.released_amount
      else calculate_vested_amount e.timestamp schedule

unfoldable pub get_releasable_amount : Env → Storage → ℕ → Call ℤ
get_releasable_amount e s schedule_id = do
  schedule ← expect (lookup schedule_id s.schedules) Error.no_vesting_schedule_found
  if schedule.revoked then ok (pos 0) else (do
    vested ← calculate_vested_amount e.timestamp schedule
    sub_i128 vested schedule.released_amount)

unfoldable pub get_vesting_status : Env → Storage → ℕ → Call VestingStatus
get_vesting_status e s schedule_id = do
  schedule ← expect (lookup schedule_id s.schedules) Error.no_vesting_schedule_found
  vested_amount ←
      if schedule.revoked
      then ok schedule.released_amount
      else calculate_vested_amount e.timestamp schedule
  releasable_amount ← sub_i128 vested_amount schedule.released_amount
  cliff_end_time ← add_u64 schedule.start_time schedule.cliff_duration
  vesting_end_time ← add_u64 schedule.start_time schedule.vesting_duration
  ok (record {
    schedule_id = schedule_id;
    total_amount = schedule.total_amount;
    vested_amount = vested_amount;
    released_amount = schedule.released_amount;
    releasable_amount = releasable_amount;
    cliff_end_time = cliff_end_time;
    vesting_end_time = vesting_end_time;
    is_revoked = schedule.revoked;
    is_fully_vested = leb_ℤ schedule.total_amount vested_amount;
  })
