-- ===== src/Idempotency/Begin/Laws.antt =====
-- The loop of beginMerchantIdempotencyCommand: its end, and the lease of a command.
use nova_pay.Base.{
  ℕ, ◌≤◌, ◌<◌, ◌≡◌, ◌⊎◌, refl, ap, sym, subst, String, Bool, true, false, not, ◌&&◌, Option, none,
  some, get_or, is_some, List, [], ◌∷◌, arith, if◌then◌else◌, Bool-cases, Option-cases, inl, inr,
  str_eq, leb, ◌==◌, eq_iff,
}
use nova_pay.Base.Rows.{find, update_where, count_where, count_where_mono, update_where_none}
use nova_pay.Store.Monad.{Result, ok}
use nova_pay.Idempotency.{
  MerchantIdempotencyRecord, Table, Command, Times, Step, IdempotencyBeginResult, conflict,
  in_progress, has_key, has_id, is_finished, can_claim, claimed, replayed, seen, in_progress_status,
  update_and_answer, answer, replay_of,
}
use nova_pay.Idempotency.Begin.{
  claim_existing, begin_existing, begin_new, begin_read, begin_round, go_on, begin_loop,
  begin_keyed, begin_merchant_idempotency_command, Others, undisturbed,
}
use nova_pay.Callbacks.Dispatch.{present}

update_and_answer-some :
    (f : MerchantIdempotencyRecord → MerchantIdempotencyRecord)
    (to : MerchantIdempotencyRecord → IdempotencyBeginResult) (id : String) (table : Table)
    → is_some (update_and_answer f to id table).0 ≡ true
unfolding update_and_answer
update_and_answer-some f to id table = answered (find (has_id id) table)
  where
    answered : (x : Option MerchantIdempotencyRecord) → is_some (answer f to id x table).0 ≡ true
    answered none = refl
    answered (some r) = refl

Some_if :
    (b : Bool) (x y : Step)
    → is_some x.0 ≡ true
    → is_some y.0 ≡ true
    → is_some (if b then x else y).0 ≡ true
Some_if true x y h k = h
Some_if false x y h k = k

begin_existing-some :
    (c : Command) (t : Times) (r : MerchantIdempotencyRecord) (table : Table)
    → is_some (begin_existing c t r table).0 ≡ true
unfolding begin_existing claim_existing
begin_existing-some c t r table =
    Some_if (not (str_eq r.request_hash c.request_hash))
      (update_and_answer (seen t.now) (λ x. conflict c.key) r.id table) _
      (update_and_answer-some (seen t.now) (λ x. conflict c.key) r.id table)
      (Some_if (is_finished r.status) (update_and_answer (replayed t) (replay_of c.key) r.id table)
        (claim_existing c t r table)
        (update_and_answer-some (replayed t) (replay_of c.key) r.id table)
        (Some_if (count_where (can_claim r.id c t.now) table == 1) _ _ refl (
          update_and_answer-some (seen t.now) (λ x. in_progress c.key) r.id
            (update_where (can_claim r.id c t.now) (claimed c t r) table))))

go_on-some : (p : Step) (k : Table → Step) → is_some p.0 ≡ true → is_some (go_on p k).0 ≡ true
unfolding go_on
go_on-some (none, table) k h = cc
go_on-some (some r, table) k h = refl

is_some_cases : {A : Type 0} (x : Option A) → is_some x ≡ true → (a : A) × (x ≡ some a)
is_some_cases none h = cc
is_some_cases (some a) h = (a, refl)

begin_loop-total :
    (id : String) (c : Command) (t : Times) (first second : Others) (rest : List Others)
    (table : Table)
    → ((x : Table)
        → is_some (find (has_key c) x) ≡ true
        → is_some (find (has_key c) (first.after_write x)) ≡ true)
    → is_some (begin_loop id c t (first ∷ second ∷ rest) table).0 ≡ true
unfolding begin_loop begin_round begin_new begin_read go_on
begin_loop-total id c t first second rest table keeps =
    elim (Option-cases (find (has_key c) table)) [
      | inl e ↦ elim (Bool-cases (is_some (find (has_key c) (first.before_write table)))) [
        | inl h ↦
            let (r, found) = is_some_cases _ (keeps (first.before_write table) h) in
            rw (e, h, found)
              (go_on-some
                (begin_existing c t r
                  (second.before_write (first.after_write (first.before_write table))))
                _ (begin_existing-some c t r _))
        | inr h ↦ rw (e, h) refl
      ]
      | inr (r, e) ↦ rw e (
          go_on-some (begin_existing c t r (first.before_write table)) _
            (begin_existing-some c t r (first.before_write table)))
    ]

-- A call ends, within two rounds of its loop, whatever other requests commit before the writes of the
-- rounds and after them, if they delete no row with its key between the first round's refused write
-- and the next read.
pub begin-total :
    (id : String) (key : Option String) (command : String → Command) (t : Times)
    (first second : Others) (rest : List Others) (table : Table)
    → ((k : String) (x : Table)
        → is_some (find (has_key (command k)) x) ≡ true
        → is_some (find (has_key (command k)) (first.after_write x)) ≡ true)
    → is_some (begin_merchant_idempotency_command id key command t (first ∷ second ∷ rest) table).0
      ≡ true
unfolding begin_merchant_idempotency_command begin_keyed
begin-total id key command t first second rest table keeps = elim (Option-cases (present key)) [
  | inl e ↦ rw e refl
  | inr (k, e) ↦ rw e (begin_loop-total id (command k) t first second rest table (keeps k))
]

-- No two rows of the table have one id.
abbrev pub IsUnique : Table → Type 0
IsUnique table = (id : String) → count_where (has_id id) table ≤ 1

-- A row that is found and passes another test is counted by it, and found by it or one before it is.
found_at :
    (q : MerchantIdempotencyRecord → Bool) (x : MerchantIdempotencyRecord) (xs : Table)
    (r : MerchantIdempotencyRecord)
    → find q (x ∷ xs) ≡ some r
    → (x ≡ r) ⊎ (find q xs ≡ some r)
unfolding find
found_at q x xs r e = elim (Bool-cases (q x)) [
  | inl t ↦ inl (ap (λ z. get_or z x) (subst (λ b. (if b then some x else find q xs) ≡ some r) t e))
  | inr t ↦ inr (subst (λ b. (if b then some x else find q xs) ≡ some r) t e)
]

count_where-member :
    (k q : MerchantIdempotencyRecord → Bool) (table : Table) (r : MerchantIdempotencyRecord)
    → find q table ≡ some r
    → k r ≡ true
    → 1 ≤ count_where k table
unfolding count_where find
count_where-member k q [] r e h = cc
count_where-member k q (x ∷ xs) r e h = elim (found_at q x xs r e) [
  | inl same ↦ rw (subst (λ y. k y ≡ true) (sym same) h) (omega arith)
  | inr later ↦ ground (arith, count_where-member k q xs r later h)
]

find-member :
    (k q : MerchantIdempotencyRecord → Bool) (table : Table) (r : MerchantIdempotencyRecord)
    → find q table ≡ some r
    → k r ≡ true
    → is_some (find k table) ≡ true
unfolding find
find-member k q [] r e h = cc
find-member k q (x ∷ xs) r e h = elim (found_at q x xs r e) [
  | inl same ↦ rw (subst (λ y. k y ≡ true) (sym same) h) refl
  | inr later ↦ elim (Bool-cases (k x)) [
    | inl t ↦ rw t refl
    | inr t ↦ rw t (find-member k q xs r later h)
  ]
]

-- A row that is found and has the one id that the test selects decides whether the test selects any.
count_where-found :
    (k p q : MerchantIdempotencyRecord → Bool) (table : Table) (r : MerchantIdempotencyRecord)
    → ((x : MerchantIdempotencyRecord) → p x ≡ true → k x ≡ true)
    → count_where k table ≤ 1
    → find q table ≡ some r
    → k r ≡ true
    → p r ≡ false
    → count_where p table ≡ 0
unfolding count_where find
count_where-found k p q [] r hp one e h n = refl
count_where-found k p q (x ∷ xs) r hp one e h n = ground (
  arith,
  found_at q x xs r e,
  hp x,
  count_where_mono k p xs hp,
  count_where-member k q xs r,
  count_where-found k p q xs r hp,
)

update_and_answer-lem :
    (f : MerchantIdempotencyRecord → MerchantIdempotencyRecord) (v : IdempotencyBeginResult)
    (id : String) (table : Table)
    → is_some (find (has_id id) table) ≡ true
    → (update_and_answer f (λ x. v) id table).0 ≡ some (ok v)
unfolding update_and_answer answer
update_and_answer-lem f v id table h =
    let (r, e) = is_some_cases (find (has_id id) table) h in rw e refl

go_on-answered :
    (p : Step) (k : Table → Step) (v : Option (Result IdempotencyBeginResult))
    → p.0 ≡ v
    → is_some v ≡ true
    → (go_on p k).0 ≡ v
unfolding go_on
go_on-answered (none, table) k none e h = cc
go_on-answered (none, table) k (some v) e h = cc
go_on-answered (some r, table) k v e h = e

leased : (lease now : ℕ) → now < lease → leb lease now ≡ false
leased lease now h = ground arith

and_none : (a b : Bool) → (a && (b && false)) ≡ false
and_none a b = ground arith

and_left : (a b : Bool) → (a && b) ≡ true → a ≡ true
and_left a b h = ground arith

-- While the lease of a row that is being worked on runs, a command with its key, with no other request
-- between its first read and its write, is not started: it is told that the first one is in progress, or that it conflicts with
-- it if its request is another one. No two rows have one id.
pub begin-refuses :
    (id : String) (c : Command) (t : Times) (after : Table → Table) (rest : List Others)
    (table : Table) (r : MerchantIdempotencyRecord) (lease : ℕ)
    → IsUnique table
    → find (has_key c) table ≡ some r
    → r.status ≡ in_progress_status
    → r.lease_expires_at ≡ some lease
    → t.now < lease
    → (begin_loop id c t (undisturbed after ∷ rest) table).0
      ≡ some
          (ok (if str_eq r.request_hash c.request_hash then in_progress c.key else conflict c.key))
unfolding begin_loop begin_round begin_read begin_existing claim_existing go_on can_claim
begin-refuses id c t after rest table r lease unique e s l h = rw e (
    go_on-answered (begin_existing c t r table) _ _
      (elim (Bool-cases (str_eq r.request_hash c.request_hash)) [
        | inl same ↦
            rw
              (
                same,
                working,
                quiet,
                update_where_none (can_claim r.id c t.now) (claimed c t r) table quiet,
              )
              (answered (seen t.now) (in_progress c.key))
        | inr other ↦ rw other (answered (seen t.now) (conflict c.key))
      ])
      refl)
  where
    working : is_finished r.status ≡ false
    working = rw s refl

    own : has_id r.id r ≡ true
    own = (eq_iff r.id r.id).1 refl

    answered :
        (f : MerchantIdempotencyRecord → MerchantIdempotencyRecord) (v : IdempotencyBeginResult)
        → (update_and_answer f (λ x. v) r.id table).0 ≡ some (ok v)
    answered f v =
        update_and_answer-lem f v r.id table (find-member (has_id r.id) (has_key c) table r e own)

    not_mine : can_claim r.id c t.now r ≡ false
    not_mine =
        rw (s, l, leased lease t.now h)
          (and_none (str_eq r.id r.id) (str_eq r.request_hash c.request_hash))

    quiet : count_where (can_claim r.id c t.now) table ≡ 0
    quiet =
        count_where-found (has_id r.id) (can_claim r.id c t.now) (has_key c) table r
          (λ x. and_left (str_eq x.id r.id) _) (unique r.id) e own not_mine
