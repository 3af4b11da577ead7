-- ===== src/Vesting/Readback.antt =====
-- Whether contracts/vesting_schedule/src/lib.rs reads back the history that it records.
use Prim.Native.String.{String}
use mindmint_contracts.Base.{
  ℕ, zero, suc, ◌≡◌, refl, ap, sym, ◌∙◌, ◌+◌, ◌*◌, ◌^◌, ◌<◌, none, some, [], ◌∷◌, ◌++◌, length, inl,
  inr, arith, true, Option-cases,
}
use mindmint_contracts.Base.Int.{ℤ}
use mathlib.Core.Path.{subst}
use mindmint_contracts.Base.Map.{Map, nat_key, lookup, insert}
use mindmint_contracts.Base.Map.Laws.{lookup-insert_self, lookup-insert_ne}
use mindmint_contracts.Host.Call.{Env, ok, ◌>>=◌, Ensures, Ensures->>=, Ensures-any, ensured}
use mindmint_contracts.Host.Num.{
  add_u32, add_u64, mul_u64, fits_u32, fits_u64_lt, add_u64-Ensures, mul_u64-Ensures,
}
use mindmint_contracts.Vesting.{
  EventType, VestingEvent, Storage, record_history, read_history, get_vesting_history,
}
use mindmint_contracts.Vesting.History.{
  IsFirstFree, IsFirstFree-taken, event_of, record_history_writes, next, plus_zero,
}

fits_u32_lt : (a : ℕ) → a < 2 ^ 32 → fits_u32 a ≡ true
unfolding fits_u32
fits_u32_lt a h = ground arith

-- A fresh key makes the map one entry longer.
length-insert :
    (k : ℕ) (v : VestingEvent) (m : Map ℕ VestingEvent)
    → lookup k m ≡ none
    → length (insert k v m) ≡ length m + 1
unfolding lookup insert
length-insert k v [] h = refl
length-insert k v ((b, u) ∷ m) h = grind (arith, length-insert k v m, h)

-- There is one first free key.
IsFirstFree-unique :
    (from a b : ℕ) (m : Map ℕ VestingEvent) → IsFirstFree from m a → IsFirstFree from m b → a ≡ b
IsFirstFree-unique from a b m (free, low, before) (free', low', before') =
    grind (arith, before b low', before' a low, free, free')

-- A round of the loop at a free key, and at one that is taken.
read_free :
    (fuel base index : ℕ) (m : Map ℕ VestingEvent)
    → lookup (base + index) m ≡ none
    → base + index < 2 ^ 64
    → read_history (suc fuel) base index m ≡ ok []
unfolding read_history
read_free fuel base index m free small = ground (arith, fits_u64_lt (base + index) small, free)

read_taken :
    (fuel base index : ℕ) (m : Map ℕ VestingEvent) (v : VestingEvent)
    → lookup (base + index) m ≡ some v
    → base + index < 2 ^ 64
    → index + 1 < 2 ^ 32
    → read_history (suc fuel) base index m
      ≡ (read_history fuel base (index + 1) m >>= λ more. ok ((index, v) ∷ more))
unfolding read_history
read_taken fuel base index m v taken small short =
    ground (arith, fits_u64_lt (base + index) small, taken, fits_u32_lt (index + 1) short)

-- The key after the last one that is read, `k`, is the first free one, and an event stored there is
-- read last.
abbrev IsRead : ℕ → ℕ → ℕ → Map ℕ VestingEvent → Map ℕ VestingEvent → Type 0
IsRead fuel base index m h =
    (k j : ℕ)
    → k ≡ base + index + length h
    → j ≡ index + length h
    → IsFirstFree (base + index) m k
      × ((v : VestingEvent)
          → lookup (k + 1) m ≡ none
          → k + 1 < 2 ^ 64
          → j + 1 < 2 ^ 32
          → read_history (suc fuel) base index (insert k v m) ≡ ok (h ++ (j, v) ∷ []))

IsRead-none :
    (fuel base index : ℕ) (m : Map ℕ VestingEvent)
    → lookup (base + index) m ≡ none
    → IsRead (suc fuel) base index m []
IsRead-none fuel base index m free k j at last =
    let here : base + index ≡ k = omega (arith, at) in
    let place : index ≡ j = omega (arith, last) in
    (
      subst (IsFirstFree (base + index) m) here
          (free, omega arith, λ i low high. absurd (omega arith)),
      λ v beyond small short.
          let m' = insert k v m in
          let one =
            read_taken (suc fuel) base index m' v
              (subst (λ i. lookup i m' ≡ some v) (sym here) (lookup-insert_self k v m))
              (omega (arith, here, small)) (omega (arith, place, short)) in
          let two =
            read_free fuel base (index + 1) m'
              (subst (λ i. lookup i m' ≡ none) (ap (λ i. i + 1) (sym here) ∙ sym (next base index))
                (lookup-insert_ne k (k + 1) v m (λ e. absurd (omega (arith, e))) ∙ beyond))
              (omega (arith, here, small)) in
          one ∙ rw two (rw place refl),
    )

IsRead-some :
    (fuel base index : ℕ) (m h : Map ℕ VestingEvent) (u : VestingEvent)
    → lookup (base + index) m ≡ some u
    → IsRead fuel base (index + 1) m h
    → IsRead (suc fuel) base index m ((index, u) ∷ h)
IsRead-some fuel base index m h u taken later k j at last =
    let (first, rest) = later k j (omega (arith, at)) (omega (arith, last)) in
    (
      IsFirstFree-taken (base + index) k m u taken
          (subst (λ i. IsFirstFree i m k) (next base index) first),
      λ v beyond small short.
          let m' = insert k v m in
          read_taken (suc fuel) base index m' u
            (lookup-insert_ne k (base + index) v m (λ e. absurd (omega (arith, e, at))) ∙ taken)
            (omega (arith, at, small)) (omega (arith, last, short))
          ∙ rw (rest v beyond small short) refl,
    )

read_history-IsRead :
    (fuel base index : ℕ) (m : Map ℕ VestingEvent)
    → Ensures (IsRead fuel base index m) (read_history fuel base index m)
unfolding read_history
read_history-IsRead zero base index m = tt
read_history-IsRead (suc fuel) base index m =
    Ensures->>= _ _ (add_u64 base index) _ (add_u64-Ensures _ base index) λ key r.
      rw r (elim (Option-cases (lookup (base + index) m)) [
        | inl free ↦ rw free (IsRead-none fuel base index m free)
        | inr (u, taken) ↦ rw taken (
            Ensures->>= _ _ (add_u32 index 1) _ (Ensures-any _) λ after _.
              Ensures->>= _ _ (read_history fuel base (index + 1) m) _
                (read_history-IsRead fuel base (index + 1) m)
                λ h later. IsRead-some fuel base index m h u taken later)
      ])

get_vesting_history-IsRead :
    (s : Storage) (id : ℕ)
    → Ensures
        (IsRead (suc (length s.vesting_history)) (id * 1000) 0 s.vesting_history)
        (get_vesting_history s id)
unfolding get_vesting_history
get_vesting_history-IsRead s id =
    Ensures->>= _ _ (mul_u64 id 1000) _ (mul_u64-Ensures _ id 1000) λ base r.
      rw r (read_history-IsRead (suc (length s.vesting_history)) (id * 1000) 0 s.vesting_history)

get_vesting_history-reads :
    (s : Storage) (id : ℕ)
    → id * 1000 < 2 ^ 64
    → get_vesting_history s id
      ≡ read_history (suc (length s.vesting_history)) (id * 1000) 0 s.vesting_history
unfolding get_vesting_history
get_vesting_history-reads s id small = rw (fits_u64_lt (id * 1000) small) refl

-- An event that is recorded for a schedule `id` is read back: if the history that is read before
-- has n events, the key of event n + 1 is free as well and the numbers fit, then recording succeeds
-- and the history that is read afterwards is the one before with the new event at the end, under
-- the index n.
pub history_read_back :
    (e : Env) (id : ℕ) (kind : EventType) (amount : ℤ) (text : String) (s : Storage)
    (h : Map ℕ VestingEvent)
    → get_vesting_history s id ≡ ok h
    → lookup (id * 1000 + length h + 1) s.vesting_history ≡ none
    → id * 1000 + length s.vesting_history < 2 ^ 64
    → id * 1000 + length h + 1 < 2 ^ 64
    → length h + 1 < 2 ^ 32
    → (s' : Storage) × (record_history e id kind amount text s ≡ ok s')
      × (get_vesting_history s' id ≡ ok (h ++ (length h, event_of e kind amount text) ∷ []))
history_read_back e id kind amount text s h read beyond small fits short =
    let m = s.vesting_history in
    let event = event_of e kind amount text in
    let n = id * 1000 + length h in
    let (first, again) =
      ensured (IsRead (suc (length m)) (id * 1000) 0 m) (get_vesting_history s id)
        (get_vesting_history-IsRead s id) read n (length h) (omega arith) (omega arith) in
    let (key, first', written) = record_history_writes e id kind amount text s small in
    let same : n ≡ key =
      IsFirstFree-unique (id * 1000) n key m
        (subst (λ i. IsFirstFree i m n) (plus_zero (id * 1000)) first) first' in
    let longer : length (insert n event m) ≡ suc (length m) =
      length-insert n event m first.0 ∙ omega arith in
    (
      record s { vesting_history = insert n event m },
      subst
          (λ i.
            record_history e id kind amount text s
            ≡ ok (record s { vesting_history = insert i event m }))
          (sym same) written,
      get_vesting_history-reads (record s { vesting_history = insert n event m }) id (omega arith)
          ∙ ap (λ l. read_history (suc l) (id * 1000) 0 (insert n event m)) longer
          ∙ again event beyond fits short,
    )
