-- ===== src/Registry/Payouts/Views.antt =====
-- Rows as both ledgers see them.
use nova_pay.Base.{
  ◌≡◌, refl, ap, arith, String, true, Option, none, some, List, [], ◌∷◌, ◌++◌, map, str_eq, is_some,
  Bool-cases, inl, inr, if◌then◌else◌,
}
use nova_pay.Base.Rows.{find, update_first}
use nova_pay.Registry.Payouts.{LedgerEntry, PayoutRequest, pending_of}
use nova_pay.Registry.Payouts.Stored.{find_ref}
use nova_pay.Registry.Payouts.Sums.{sum_if}

-- What both ledgers keep of a payout: the memory sets `processedAt` never, and `updatedAt` on its own.
abbrev pub view : PayoutRequest → PayoutRequest
view p = record p { updated_at = 0; processed_at = none }

pub sum_if-view :
    (developer currency : String) (ps : List PayoutRequest)
    → sum_if (pending_of developer currency) (λ p. p.amount_cents) (map view ps)
      ≡ sum_if (pending_of developer currency) (λ p. p.amount_cents) ps
unfolding sum_if
sum_if-view developer currency [] = refl
sum_if-view developer currency (p ∷ ps) = rw (sum_if-view developer currency ps) refl

abbrev pub view_found : Option PayoutRequest → Option PayoutRequest
view_found none = none
view_found (some p) = some (view p)

-- The row that a key finds in one, it finds in the other, up to the view.
pub find-view :
    (id : String) (ps : List PayoutRequest)
    → find (λ p. str_eq p.id id) (map view ps) ≡ view_found (find (λ p. str_eq p.id id) ps)
unfolding find
find-view id [] = refl
find-view id (p ∷ ps) = elim (Bool-cases (str_eq p.id id)) [
  | inl t ↦ rw t refl
  | inr t ↦ rw t (find-view id ps)
]

pub update_first-view :
    (id : String) (f g : PayoutRequest → PayoutRequest) (ps : List PayoutRequest)
    → ((p : PayoutRequest) → view (f p) ≡ g (view p))
    → map view (update_first (λ p. str_eq p.id id) f ps)
      ≡ update_first (λ p. str_eq p.id id) g (map view ps)
unfolding update_first
update_first-view id f g [] h = refl
update_first-view id f g (p ∷ ps) h = elim (Bool-cases (str_eq p.id id)) [
  | inl t ↦ rw t (ap (λ x. x ∷ map view ps) (h p))
  | inr t ↦ rw t (ap (λ xs. view p ∷ xs) (update_first-view id f g ps h))
]

pub map-append :
    (ps : List PayoutRequest) (p : PayoutRequest)
    → map view (ps ++ p ∷ []) ≡ map view ps ++ view p ∷ []
map-append [] p = refl
map-append (q ∷ ps) p = ap (λ xs. view q ∷ xs) (map-append ps p)

pub find_ref-append :
    (ref : String) (es : List LedgerEntry) (e : LedgerEntry)
    → is_some (find_ref ref (es ++ e ∷ []))
      ≡ (if str_eq e.external_ref ref then true else is_some (find_ref ref es))
unfolding find
find_ref-append ref [] e = ground arith
find_ref-append ref (x ∷ es) e = ground (arith, find_ref-append ref es e)
