-- ===== src/Finance/Ledger/Upsert.antt =====
-- The ledger as a table with a unique external key: Prisma's `upsert` and `deleteMany` on it.
use nova_pay.Base.{
  ℕ, ◌≡◌, ◌≢◌, sym, ap, ◌∙◌, Bool, true, false, ◌&&◌, Option, none, some, List, [], ◌∷◌, ◌++◌,
  arith, ◌==◌, str_eq, eq_iff, String, Option-cases, Bool-cases, inl, inr,
}
use nova_pay.Base.Rows.{
  find, update_where, delete_where, find-append, find-append_other, find-update_where,
  find-update_other, find_sound, find-delete_where, find-delete_other, update_where_twice,
  update_where-append,
}
use nova_pay.Store.Schema.{
  MerchantLedgerEntry, ExternalKey, capture_key, fee_key, refund_key, payout_key,
}

abbrev key_kind : ExternalKey → ℕ
key_kind (capture_key id) = 0
key_kind (fee_key id) = 1
key_kind (refund_key id) = 2
key_kind (payout_key id) = 3

abbrev key_id : ExternalKey → String
key_id (capture_key id) = id
key_id (fee_key id) = id
key_id (refund_key id) = id
key_id (payout_key id) = id

abbrev same_key : ExternalKey → ExternalKey → Bool
same_key a b = key_kind a == key_kind b && str_eq (key_id a) (key_id b)

unfoldable pub is_key : ExternalKey → MerchantLedgerEntry → Bool
is_key k e = same_key e.external_key k

abbrev pub find_entry : ExternalKey → List MerchantLedgerEntry → Option MerchantLedgerEntry
find_entry k = find (is_key k)

upsert_found :
    ExternalKey
    → (MerchantLedgerEntry → MerchantLedgerEntry)
    → MerchantLedgerEntry
    → Option MerchantLedgerEntry
    → List MerchantLedgerEntry
    → List MerchantLedgerEntry
upsert_found k f created none entries = entries ++ created ∷ []
upsert_found k f created (some e) entries = update_where (is_key k) f entries

-- `upsert({ where: { externalKey }, update, create })`
unfoldable pub upsert :
    ExternalKey
    → (MerchantLedgerEntry → MerchantLedgerEntry)
    → MerchantLedgerEntry
    → List MerchantLedgerEntry
    → List MerchantLedgerEntry
unfolding upsert_found
upsert k f created entries = upsert_found k f created (find_entry k entries) entries

same_key_iff : (a b : ExternalKey) → same_key a b ≡ true → a ≡ b
same_key_iff (capture_key i) (capture_key j) h = ap capture_key ((eq_iff i j).0 h)
same_key_iff (fee_key i) (fee_key j) h = ap fee_key ((eq_iff i j).0 h)
same_key_iff (refund_key i) (refund_key j) h = ap refund_key ((eq_iff i j).0 h)
same_key_iff (payout_key i) (payout_key j) h = ap payout_key ((eq_iff i j).0 h)
same_key_iff _ _ h = cc

same_key_refl : (a : ExternalKey) → same_key a a ≡ true
same_key_refl a = ground (arith, eq_iff (key_id a) (key_id a))

pub is_key_of : (k : ExternalKey) (e : MerchantLedgerEntry) → e.external_key ≡ k → is_key k e ≡ true
unfolding is_key
is_key_of k e p = rw p (same_key_refl k)

is_key_sound : (k : ExternalKey) (e : MerchantLedgerEntry) → is_key k e ≡ true → e.external_key ≡ k
unfolding is_key
is_key_sound k e h = same_key_iff _ _ h

-- An entry under one key is under no other.
is_key_other :
    (k j : ExternalKey) (e : MerchantLedgerEntry) → j ≢ k → is_key k e ≡ true → is_key j e ≡ false
unfolding is_key
is_key_other k j e ne h = elim (Bool-cases (same_key e.external_key j)) [
  | inl t ↦ absurd (ne (sym (same_key_iff _ _ t) ∙ same_key_iff _ _ h))
  | inr t ↦ t
]

is_key_kept :
    (k j : ExternalKey) (f : MerchantLedgerEntry → MerchantLedgerEntry) (e : MerchantLedgerEntry)
    → ((x : MerchantLedgerEntry) → (f x).external_key ≡ x.external_key)
    → is_key j (f e) ≡ is_key j e
unfolding is_key
is_key_kept k j f e keeps = rw (keeps e)

module _ (k : ExternalKey) (f : MerchantLedgerEntry → MerchantLedgerEntry)
    (created : MerchantLedgerEntry)
    (keeps : (x : MerchantLedgerEntry) → (f x).external_key ≡ x.external_key)
    (keyed : created.external_key ≡ k) (entries : List MerchantLedgerEntry) where
  -- The entry that an upsert leaves under its key: the old one rewritten, or the new one.
  abbrev pub upserted : Option MerchantLedgerEntry → MerchantLedgerEntry
  upserted none = created
  upserted (some e) = f e

  pub find_entry-upsert :
      find_entry k (upsert k f created entries) ≡ some (upserted (find_entry k entries))
  unfolding upsert
  find_entry-upsert = elim (Option-cases (find_entry k entries)) [
    | inl e ↦ rw e (find-append (is_key k) entries created e (is_key_of k created keyed))
    | inr (x, e) ↦ rw e (
        find-update_where (is_key k) f entries x
          (is_key_kept k k f x keeps ∙ find_sound (is_key k) entries x e) e)
  ]

  pub find_entry-upsert_other :
      (j : ExternalKey) → j ≢ k → find_entry j (upsert k f created entries) ≡ find_entry j entries
  unfolding upsert
  find_entry-upsert_other j ne = elim (Option-cases (find_entry k entries)) [
    | inl e ↦ rw e (
        find-append_other (is_key j) entries created
          (is_key_other k j created ne (is_key_of k created keyed)))
    | inr (x, e) ↦ rw e (
        find-update_other (is_key k) (is_key j) f entries (λ y. is_key_other k j y ne)
          (λ y h. is_key_kept k j f y keeps ∙ is_key_other k j y ne h))
  ]

  -- Upserting the same data again changes nothing.
  pub upsert_twice :
      ((x : MerchantLedgerEntry) → x.external_key ≡ k → f (f x) ≡ f x)
      → f created ≡ created
      → upsert k f created (upsert k f created entries) ≡ upsert k f created entries
  unfolding upsert
  upsert_twice again same = elim (Option-cases (find_entry k entries)) [
    | inl e ↦
        rw (e, find-append (is_key k) entries created e (is_key_of k created keyed))
          (update_where-append (is_key k) f entries created e (is_key_of k created keyed) same)
    | inr (x, e) ↦
        rw
          (
            e,
            find-update_where (is_key k) f entries x
                (is_key_kept k k f x keeps ∙ find_sound (is_key k) entries x e) e,
          )
          (update_where_twice (is_key k) f entries (λ y. is_key_kept k k f y keeps)
            (λ y h. again y (is_key_sound k y h)))
  ]

pub find_entry-delete :
    (k : ExternalKey) (entries : List MerchantLedgerEntry)
    → find_entry k (delete_where (is_key k) entries) ≡ none
find_entry-delete k entries = find-delete_where (is_key k) entries

pub find_entry-delete_other :
    (k j : ExternalKey) (entries : List MerchantLedgerEntry)
    → j ≢ k
    → find_entry j (delete_where (is_key k) entries) ≡ find_entry j entries
find_entry-delete_other k j entries ne =
    find-delete_other (is_key k) (is_key j) entries (λ y. is_key_other k j y ne)
