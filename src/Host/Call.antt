-- ===== src/Host/Call.antt =====
-- One contract call. A call that panics, traps or returns an error is rolled back by the host, so
-- only a successful one has a new state.
use mindmint_contracts.Base.{ℕ, Bool, true, false, Option, none, some, ◌≡◌, refl, arith}

-- Addresses are only compared.
abbrev pub Address : Type 0
Address = ℕ

-- The ledger's timestamp, the contract's own address, and who has authorised the call.
pub record Env : Type 0 where
  pub timestamp : ℕ
  pub current_contract : Address
  pub has_auth : Address → Bool

-- Failures that the host raises, whatever the contract.
pub data Trap : Type 0 where
  unauthorized overflow divided_by_zero missing_value callee_failed budget_exceeded : Trap

pub data Result (E A : Type 0) : Type 0 where
  ok : A → Result E A
  trap : Trap → Result E A
  panic : E → Result E A

infixl 5 ◌>>=◌ ◌>>◌
abbrev pub ◌>>=◌ : {E A B : Type 0} → Result E A → (A → Result E B) → Result E B
ok a >>= f = f a
trap t >>= f = trap t
panic e >>= f = panic e

abbrev pub ◌>>◌ : {E A B : Type 0} → Result E A → Result E B → Result E B
m >> k = m >>= λ _. k

-- `if cond { panic!(..) }`
abbrev pub panic_if : {E : Type 0} → Bool → E → Result E (Unit {0})
panic_if true e = panic e
panic_if false e = ok tt

-- `address.require_auth()`
abbrev pub require_auth : {E : Type 0} → Env → Address → Result E (Unit {0})
require_auth env a = elim (env.has_auth a) [ true ↦ ok tt | false ↦ trap Trap.unauthorized ]

-- `option.unwrap()`
abbrev pub unwrap : {E A : Type 0} → Option A → Result E A
unwrap none = trap Trap.missing_value
unwrap (some a) = ok a

-- `option.expect(..)`, with the contract's own message
abbrev pub expect : {E A : Type 0} → Option A → E → Result E A
expect none e = panic e
expect (some a) e = ok a

-- A call of another contract.
abbrev pub invoke : {E A : Type 0} → Option A → Result E A
invoke none = trap Trap.callee_failed
invoke (some a) = ok a

-- What a successful call gives.
abbrev pub Ensures : {E A : Type 0} → (A → Type 0) → Result E A → Type 0
Ensures P (ok a) = P a
Ensures P (trap t) = Unit
Ensures P (panic e) = Unit

pub ensured :
    {E A : Type 0} (P : A → Type 0) (m : Result E A) {a : A} → Ensures P m → m ≡ ok a → P a
ensured P m h e = rw e at h

-- A property of each part gives one of the chain.
pub Ensures->>= :
    {E A B : Type 0} (P : A → Type 0) (Q : B → Type 0) (m : Result E A) (f : A → Result E B)
    → Ensures P m
    → ((a : A) → P a → Ensures Q (f a))
    → Ensures Q (m >>= f)
Ensures->>= P Q (ok a) f h k = k a h
Ensures->>= P Q (trap t) f h k = tt
Ensures->>= P Q (panic e) f h k = tt

pub Ensures-mono :
    {E A : Type 0} (P Q : A → Type 0) (m : Result E A)
    → Ensures P m
    → ((a : A) → P a → Q a)
    → Ensures Q m
Ensures-mono P Q (ok a) h k = k a h
Ensures-mono P Q (trap t) h k = tt
Ensures-mono P Q (panic e) h k = tt

pub Ensures-any : {E A : Type 0} (m : Result E A) → Ensures (λ _. Unit {0}) m
Ensures-any (ok a) = tt
Ensures-any (trap t) = tt
Ensures-any (panic e) = tt

pub Ensures-const : {E A : Type 0} (P : Type 0) (m : Result E A) → P → Ensures (λ _. P) m
Ensures-const P (ok a) h = h
Ensures-const P (trap t) h = tt
Ensures-const P (panic e) h = tt

-- A property and a family of properties of one call, together.
pub Ensures-all :
    {E A D : Type 0} (P : A → Type 0) (Q : D → A → Type 0) (m : Result E A)
    → Ensures P m
    → ((d : D) → Ensures (Q d) m)
    → Ensures (λ a. P a × ((d : D) → Q d a)) m
Ensures-all P Q (ok a) h k = (h, k)
Ensures-all P Q (trap t) h k = tt
Ensures-all P Q (panic e) h k = tt

pub require_auth-Ensures :
    (E : Type 0) (env : Env) (a : Address)
    → Ensures (λ _. env.has_auth a ≡ true) (require_auth {E = E} env a)
require_auth-Ensures E env a = ground arith

pub expect-Ensures : {E A : Type 0} (o : Option A) (e : E) → Ensures (λ a. o ≡ some a) (expect o e)
expect-Ensures none e = tt
expect-Ensures (some a) e = refl

pub invoke-Ensures :
    (E : Type 0) {A : Type 0} (o : Option A) → Ensures {E = E} (λ a. o ≡ some a) (invoke o)
invoke-Ensures E none = tt
invoke-Ensures E (some a) = refl

-- A successful call gives what it gives.
pub Result-Ensures : {E A : Type 0} (m : Result E A) → Ensures (λ a. m ≡ ok a) m
Result-Ensures (ok a) = refl
Result-Ensures (trap t) = tt
Result-Ensures (panic e) = tt

-- A chain is followed from its head: what the head's success says is a hypothesis of the rest.
module _ {E B : Type 0} (Q : B → Type 0) where
  pub after_auth :
      (env : Env) (a : Address) (f : Unit {0} → Result E B)
      → (env.has_auth a ≡ true → Ensures Q (f tt))
      → Ensures Q (require_auth env a >>= f)
  after_auth env a f k =
      Ensures->>= _ Q (require_auth env a) f (require_auth-Ensures E env a) λ _ h. k h

  pub after_panic_if :
      (b : Bool) (e : E) (f : Unit {0} → Result E B)
      → (b ≡ false → Ensures Q (f tt))
      → Ensures Q (panic_if b e >>= f)
  after_panic_if true e f k = tt
  after_panic_if false e f k = k refl

  pub after_unwrap :
      {A : Type 0} (o : Option A) (f : A → Result E B)
      → ((a : A) → o ≡ some a → Ensures Q (f a))
      → Ensures Q (unwrap o >>= f)
  after_unwrap none f k = tt
  after_unwrap (some a) f k = k a refl

  pub after_invoke :
      {A : Type 0} (o : Option A) (f : A → Result E B)
      → ((a : A) → o ≡ some a → Ensures Q (f a))
      → Ensures Q (invoke o >>= f)
  after_invoke none f k = tt
  after_invoke (some a) f k = k a refl

  pub after_expect :
      {A : Type 0} (o : Option A) (e : E) (f : A → Result E B)
      → ((a : A) → o ≡ some a → Ensures Q (f a))
      → Ensures Q (expect o e >>= f)
  after_expect none e f k = tt
  after_expect (some a) e f k = k a refl
