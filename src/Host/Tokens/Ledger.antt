-- ===== src/Host/Tokens/Ledger.antt =====
-- A ledger of balances that meets the laws of a token.
use mindmint_contracts.Base.{◌≡◌, ◌&&◌, Option, none, some, arith, ◌==◌, if◌then◌else◌, get_or}
use mindmint_contracts.Base.Int.{ℤ, pos, ◌+ℤ◌, ◌-ℤ◌, ◌≤ℤ◌, ltb_ℤ, int_laws}
use mindmint_contracts.Base.Map.{Map, pair_key, lookup, insert}
use mindmint_contracts.Base.Map.Laws.{lookup-insert}
use mindmint_contracts.Host.Call.{Address}
use mindmint_contracts.Host.Tokens.{Tokens, IsTokens, at}

abbrev pub Balances : Type 0
Balances = Map (Address × Address) ℤ

unfoldable pub balance_of : Balances → Address → Address → ℤ
unfolding lookup
balance_of w c a = get_or (lookup (c, a) w) (pos 0)

unfoldable pub move : Balances → Address → Address → Address → ℤ → Option Balances
unfolding insert balance_of
move w c a b x =
    if ltb_ℤ x (pos 0)
    then none
    else if ltb_ℤ (balance_of w c a) x
    then none
    else let debited = insert (c, a) (balance_of w c a -ℤ x) w in
      some (insert (c, b) (balance_of debited c b +ℤ x) debited)

abbrev pub ledger : Tokens Balances
ledger = record { balance = balance_of; transfer = move }

balance_of-insert :
    (c a d o : Address) (x : ℤ) (w : Balances)
    → balance_of (insert (c, a) x w) d o ≡ (if c == d && a == o then x else balance_of w d o)
unfolding balance_of
balance_of-insert c a d o x w = simp lookup-insert (ground arith)

move_nonneg :
    (w : Balances) (c a b : Address) (x : ℤ) (w' : Balances) → move w c a b x ≡ some w' → pos 0 ≤ℤ x
unfolding move
move_nonneg w c a b x w' h = ground arith

credited :
    (w : Balances) (c a b : Address) (x : ℤ) (d o : Address)
    → let w1 = insert (c, a) (balance_of w c a -ℤ x) w in
      balance_of (insert (c, b) (balance_of w1 c b +ℤ x) w1) d o
      ≡ balance_of w d o -ℤ at c a d o x +ℤ at c b d o x
credited w c a b x d o = simp balance_of-insert (grind int_laws)

move_moves :
    (w : Balances) (c a b : Address) (x : ℤ) (w' : Balances)
    → move w c a b x ≡ some w'
    → (d o : Address) → balance_of w' d o ≡ balance_of w d o -ℤ at c a d o x +ℤ at c b d o x
unfolding move
move_moves w c a b x w' h d o = ground (arith, credited w c a b x d o)

pub ledger-IsTokens : IsTokens ledger
ledger-IsTokens = record { transfer_moves = move_moves; transfer_nonneg = move_nonneg }
