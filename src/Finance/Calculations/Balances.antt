-- ===== src/Finance/Calculations/Balances.antt =====
-- lib/finance/calculations.ts, buildDailyBalanceSnapshots.
use Prim.Native.String
use nova_pay.Base.{
  ◌≡◌, refl, sym, ap, ◌∙◌, inl, inr, Bool-cases, String, Bool, Option, none, some, get_or, List, [],
  ◌∷◌, arith, str_eq, eq_iff, if◌then◌else◌, not,
}
use nova_pay.Base.Int.{ℤ, pos, ◌+ℤ◌, ◌-ℤ◌, int_laws, +ℤ_assoc, +ℤ_left_comm}
use nova_pay.Base.Sort.{sort_by, insert_by}

pub record DailyBalanceSeed : Type 0 where
  pub merchant_id : String
  pub currency : String
  pub day_key : String
  pub credit_amount : ℤ
  pub debit_amount : ℤ

pub record DailyBalance : Type 0 where
  pub seed : DailyBalanceSeed
  pub opening_balance : ℤ
  pub closing_balance : ℤ
  pub total_credit : ℤ
  pub total_debit : ℤ

-- `${row.merchantId}:${row.currency}`
abbrev pub aggregate_key : DailyBalanceSeed → String
aggregate_key row = String.◌++◌ row.merchant_id (String.◌++◌ ":" row.currency)

-- A JavaScript Map from texts to amounts.
abbrev pub Amounts : Type 0
Amounts = List (String × ℤ)

unfoldable pub get_amount : String → Amounts → Option ℤ
get_amount k [] = none
get_amount k ((j, v) ∷ m) = if str_eq j k then some v else get_amount k m

unfoldable pub set_amount : String → ℤ → Amounts → Amounts
set_amount k v [] = (k, v) ∷ []
set_amount k v ((j, w) ∷ m) = if str_eq j k then (j, v) ∷ m else (j, w) ∷ set_amount k v m

-- The comparison of the sort. `precedes a b` is `a.localeCompare(b) <= 0`, which the runtime's
-- collation decides.
unfoldable pub row_precedes : (String → String → Bool) → DailyBalanceSeed → DailyBalanceSeed → Bool
row_precedes precedes left right =
    if not (str_eq left.merchant_id right.merchant_id)
    then precedes left.merchant_id right.merchant_id
    else if not (str_eq left.currency right.currency)
    then precedes left.currency right.currency
    else precedes left.day_key right.day_key

abbrev pub opening : Amounts → DailyBalanceSeed → ℤ
opening running row = get_or (get_amount (aggregate_key row) running) (pos 0)

abbrev pub closing : Amounts → DailyBalanceSeed → ℤ
closing running row = opening running row +ℤ row.credit_amount -ℤ row.debit_amount

unfoldable pub snapshot_rows : Amounts → List DailyBalanceSeed → List DailyBalance
snapshot_rows running [] = []
snapshot_rows running (row ∷ rows) =
    record {
      seed = row;
      opening_balance = opening running row;
      closing_balance = closing running row;
      total_credit = row.credit_amount;
      total_debit = row.debit_amount;
    }
    ∷ snapshot_rows (set_amount (aggregate_key row) (closing running row) running) rows

unfoldable pub build_daily_balance_snapshots :
    (String → String → Bool) → List DailyBalanceSeed → List DailyBalance
unfolding row_precedes
build_daily_balance_snapshots precedes rows =
    snapshot_rows [] (sort_by (row_precedes precedes) rows)

get_amount-set_amount :
    (k j : String) (v : ℤ) (m : Amounts)
    → get_amount j (set_amount k v m) ≡ (if str_eq k j then some v else get_amount j m)
unfolding get_amount set_amount
get_amount-set_amount k j v [] = refl
get_amount-set_amount k j v ((i, w) ∷ m) =
    ground (arith, eq_iff k j, eq_iff i k, eq_iff i j, get_amount-set_amount k j v m)

-- What a row moves under a key.
abbrev pub movement : String → DailyBalanceSeed → ℤ
movement k row =
    if str_eq (aggregate_key row) k then row.credit_amount -ℤ row.debit_amount else pos 0

-- The specification: credits less debits of the rows with a key, in any order.
abbrev pub balance : String → List DailyBalanceSeed → ℤ
balance k [] = pos 0
balance k (row ∷ rows) = movement k row +ℤ balance k rows

-- The closing balance of the last snapshot with a key; `d` if there is none.
abbrev pub last_closing : String → ℤ → List DailyBalance → ℤ
last_closing k d [] = d
last_closing k d (s ∷ ss) =
    last_closing k (if str_eq (aggregate_key s.seed) k then s.closing_balance else d) ss

module _ (k : String) (running : Amounts) (row : DailyBalanceSeed) where
  abbrev is_key : Bool
  is_key = str_eq (aggregate_key row) k

  next_running :
      get_or (get_amount k (set_amount (aggregate_key row) (closing running row) running)) (pos 0)
      ≡ (if is_key then closing running row else get_or (get_amount k running) (pos 0))
  next_running =
      rw (get_amount-set_amount (aggregate_key row) k (closing running row) running) (ground arith)

  closing_step :
      (if is_key then closing running row else get_or (get_amount k running) (pos 0))
      ≡ get_or (get_amount k running) (pos 0)
        +ℤ (if is_key then row.credit_amount -ℤ row.debit_amount else pos 0)
  closing_step = elim (Bool-cases is_key) [
    | inl h ↦ rw (h, (eq_iff (aggregate_key row) k).0 h) (omega int_laws)
    | inr h ↦ rw h (omega int_laws)
  ]

snapshot_rows-last :
    (k : String) (running : Amounts) (rows : List DailyBalanceSeed)
    → last_closing k (get_or (get_amount k running) (pos 0)) (snapshot_rows running rows)
      ≡ get_or (get_amount k running) (pos 0) +ℤ balance k rows
unfolding snapshot_rows
snapshot_rows-last k running [] = omega int_laws
snapshot_rows-last k running (row ∷ rows) =
    let next = set_amount (aggregate_key row) (closing running row) running in
    ap (λ d. last_closing k d (snapshot_rows next rows)) (sym (next_running k running row))
    ∙ snapshot_rows-last k next rows
    ∙ ap (λ d. d +ℤ balance k rows) (next_running k running row ∙ closing_step k running row)
    ∙ +ℤ_assoc (get_or (get_amount k running) (pos 0)) _ (balance k rows)

balance-insert_by :
    (le : DailyBalanceSeed → DailyBalanceSeed → Bool) (k : String) (row : DailyBalanceSeed)
    (rows : List DailyBalanceSeed)
    → balance k (insert_by le row rows) ≡ balance k (row ∷ rows)
balance-insert_by le k row [] = refl
balance-insert_by le k row (x ∷ rows) = elim (Bool-cases (le row x)) [
  | inl h ↦ rw h
  | inr h ↦ rw h (
      ap (λ b. movement k x +ℤ b) (balance-insert_by le k row rows)
      ∙ +ℤ_left_comm (movement k x) (movement k row) (balance k rows))
]

balance-sort_by :
    (le : DailyBalanceSeed → DailyBalanceSeed → Bool) (k : String) (rows : List DailyBalanceSeed)
    → balance k (sort_by le rows) ≡ balance k rows
unfolding sort_by
balance-sort_by le k [] = refl
balance-sort_by le k (row ∷ rows) =
    balance-insert_by le k row (sort_by le rows)
    ∙ ap (λ b. movement k row +ℤ b) (balance-sort_by le k rows)

-- Whatever the order of the rows and the collation of the sort, the last closing balance of a
-- merchant in a currency is the sum of its credits less its debits over all days.
pub snapshots-last_closing :
    (precedes : String → String → Bool) (k : String) (rows : List DailyBalanceSeed)
    → last_closing k (pos 0) (build_daily_balance_snapshots precedes rows) ≡ balance k rows
unfolding build_daily_balance_snapshots get_amount
snapshots-last_closing precedes k rows =
    snapshot_rows-last k [] (sort_by (row_precedes precedes) rows)
    ∙ omega int_laws
    ∙ balance-sort_by (row_precedes precedes) k rows
