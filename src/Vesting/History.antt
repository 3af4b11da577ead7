-- ===== src/Vesting/History.antt =====
-- The loop of contracts/vesting_schedule/src/lib.rs that looks for a free key of the history.
use Prim.Native.String.{String}
use mindmint_contracts.Base.{
  ℕ, zero, suc, ◌≡◌, refl, ◌+◌, ◌*◌, ◌^◌, ◌≤◌, ◌<◌, none, some, [], ◌∷◌, length, is_some, leb, ◌==◌,
  if◌then◌else◌, inl, inr, arith, true, Option-cases, Bool-cases,
}
use mathlib.Core.Path.{subst, sym}
use mindmint_contracts.Base.Int.{ℤ}
use mindmint_contracts.Base.Map.{Map, nat_key, lookup, insert}
use mindmint_contracts.Base.Map.Laws.{lookup-insert}
use mindmint_contracts.Host.Call.{Env, ok}
use mindmint_contracts.Host.Num.{fits_u64_lt}
use mindmint_contracts.Vesting.{EventType, VestingEvent, Storage, free_key, record_history}

-- How many entries have a key from `k` on.
at_least : {V : Type 0} → ℕ → Map ℕ V → ℕ
at_least k [] = 0
at_least k ((b, _) ∷ m) = (if leb k b then 1 else 0) + at_least k m

at_least-suc : {V : Type 0} (k : ℕ) (m : Map ℕ V) → at_least (k + 1) m ≤ at_least k m
unfolding at_least
at_least-suc k [] = omega arith
at_least-suc k ((b, v) ∷ m) = grind (arith, at_least-suc k m)

at_least_bound : {V : Type 0} (k : ℕ) (m : Map ℕ V) → at_least k m ≤ length m
unfolding at_least
at_least_bound k [] = omega arith
at_least_bound k ((b, v) ∷ m) = grind (arith, at_least_bound k m)

-- A key that is taken leaves fewer entries after it.
at_least_taken :
    {V : Type 0} (k : ℕ) (m : Map ℕ V) (v : V)
    → lookup k m ≡ some v
    → at_least (k + 1) m < at_least k m
unfolding at_least lookup
at_least_taken k [] v h = absurd (ground (arith, h))
at_least_taken k ((b, u) ∷ m) v h = grind (arith, at_least_taken k m v, at_least-suc k m, h)

-- The key is free, and all keys between the start and it are taken.
abbrev pub IsFirstFree : ℕ → Map ℕ VestingEvent → ℕ → Type 0
IsFirstFree from m k =
    (lookup k m ≡ none) × from ≤ k × ((j : ℕ) → from ≤ j → j < k → is_some (lookup j m) ≡ true)

pub IsFirstFree-taken :
    (from k : ℕ) (m : Map ℕ VestingEvent) (v : VestingEvent)
    → lookup from m ≡ some v
    → IsFirstFree (from + 1) m k
    → IsFirstFree from m k
IsFirstFree-taken from k m v taken (free, low, before) = (
  free,
  omega arith,
  λ j low' high. elim (Bool-cases (j == from)) [
    | inl same ↦ let at : j ≡ from = ground (arith, same) in rw at (rw taken refl)
    | inr other ↦ before j (ground (arith, other, low')) high
  ],
)

pub next : (base index : ℕ) → base + (index + 1) ≡ base + index + 1
next base index = omega arith

free_key-IsFirstFree :
    (fuel base index : ℕ) (m : Map ℕ VestingEvent)
    → at_least (base + index) m < fuel
    → base + index + at_least (base + index) m < 2 ^ 64
    → (k : ℕ) × (free_key fuel base index m ≡ ok k) × IsFirstFree (base + index) m k
unfolding free_key
free_key-IsFirstFree zero base index m enough small = absurd (omega arith)
free_key-IsFirstFree (suc fuel) base index m enough small =
    let fits = fits_u64_lt (base + index) (omega arith) in
    elim (Option-cases (lookup (base + index) m)) [
      | inl free ↦ (
        base + index,
        rw (fits, free) refl,
        (free, omega arith, λ j low high. absurd (omega arith)),
      )
      | inr (v, taken) ↦
          let less =
            subst (λ i. at_least i m < at_least (base + index) m) (sym (next base index))
              (at_least_taken (base + index) m v taken) in
          let (k, found, first) =
            free_key-IsFirstFree fuel base (index + 1) m (omega (arith, less, enough))
              (omega (arith, less, small)) in
          (
            k,
            rw (fits, taken, fits_u64_lt (index + 1) (omega (arith, small, less))) found,
            IsFirstFree-taken (base + index) k m v taken
                (subst (λ i. IsFirstFree i m k) (next base index) first),
          )
    ]

pub plus_zero : (a : ℕ) → a + 0 ≡ a
plus_zero a = omega arith

-- The event that a call records.
abbrev pub event_of : Env → EventType → ℤ → String → VestingEvent
event_of e kind amount text = record {
  event_type = kind;
  timestamp = e.timestamp;
  amount = amount;
  description = text;
}

pub record_history_writes :
    (e : Env) (id : ℕ) (kind : EventType) (amount : ℤ) (text : String) (s : Storage)
    → id * 1000 + length s.vesting_history < 2 ^ 64
    → (key : ℕ) × IsFirstFree (id * 1000) s.vesting_history key
      × (record_history e id kind amount text s
          ≡ ok (record s {
            vesting_history = insert key (event_of e kind amount text) s.vesting_history;
          }))
unfolding record_history
record_history_writes e id kind amount text s small =
    let m = s.vesting_history in
    let bound = at_least_bound (id * 1000 + 0) m in
    let (key, found, first) =
      free_key-IsFirstFree (suc (length m)) (id * 1000) 0 m (omega (arith, bound))
        (omega (arith, bound, small)) in
    (
      key,
      subst (λ i. IsFirstFree i m key) (plus_zero (id * 1000)) first,
      rw (fits_u64_lt (id * 1000) (omega arith), found) refl,
    )

-- Recording an event of a schedule `id` ends and succeeds, whatever the history holds, as long as
-- 1000 times `id` and the number of stored events together stay below 2 ^ 64: the event is stored
-- under the first free key from 1000 times `id` on, and every other key has what it had.
pub record_history_returns :
    (e : Env) (id : ℕ) (kind : EventType) (amount : ℤ) (text : String) (s : Storage)
    → id * 1000 + length s.vesting_history < 2 ^ 64
    → (s' : Storage) × (key : ℕ) × (record_history e id kind amount text s ≡ ok s')
      × IsFirstFree (id * 1000) s.vesting_history key
      × ((j : ℕ)
          → lookup j s'.vesting_history ≡ (
              if key == j
              then some (record {
                event_type = kind;
                timestamp = e.timestamp;
                amount = amount;
                description = text;
              })
              else lookup j s.vesting_history))
record_history_returns e id kind amount text s small =
    let m = s.vesting_history in
    let event = event_of e kind amount text in
    let (key, first, written) = record_history_writes e id kind amount text s small in
    (
      record s { vesting_history = insert key event m },
      key,
      written,
      first,
      λ j. lookup-insert key j event m,
    )
