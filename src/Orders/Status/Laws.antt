-- ===== src/Orders/Status/Laws.antt =====
-- The life of an order's status under any sequence of notifications.
use nova_pay.Base.{◌≡◌, ◌≢◌, ◌⊎◌, inl, inr, String, Bool, true, false, List, [], ◌∷◌, refl, arith}
use nova_pay.Orders.Status.{
  PaymentStatus, pending, processing, succeeded, failed, cancelled, is_terminal_payment_status,
  resolve_payment_status_from_notification,
}

-- The moves of the status machine. A new order is pending, and no notification makes it so again.
pub data Move (s t : PaymentStatus) : Type 0 where
  keep : t ≡ s → is_terminal_payment_status s ≡ true → Move s t
  pay : t ≡ succeeded → Move s t
  close : t ≡ cancelled → s ≢ succeeded → Move s t
  fail : t ≡ failed → is_terminal_payment_status s ≡ false → Move s t
  wait : t ≡ processing → is_terminal_payment_status s ≡ false → Move s t

-- The answer to a notification that does not report success.
unpaid_cases :
    (s : PaymentStatus) (words : String)
    → let t = resolve_payment_status_from_notification s words false in
      ((t ≡ s) × (is_terminal_payment_status s ≡ true))
      ⊎ (((t ≡ cancelled) × (s ≢ succeeded))
          ⊎ (((t ≡ failed) × (is_terminal_payment_status s ≡ false))
              ⊎ ((t ≡ processing) × (is_terminal_payment_status s ≡ false))))
unfolding resolve_payment_status_from_notification is_terminal_payment_status
unpaid_cases pending words = ground arith
unpaid_cases processing words = ground arith
unpaid_cases succeeded words = ground arith
unpaid_cases failed words = ground arith
unpaid_cases cancelled words = ground arith

-- Every notification makes a move of the machine: it may pay any order, cancels only one that is
-- not paid, fails or delays only one that is still open, and keeps only a terminal status.
pub resolve-Move :
    (s : PaymentStatus) (words : String) (succeeds : Bool)
    → Move s (resolve_payment_status_from_notification s words succeeds)
unfolding resolve_payment_status_from_notification
resolve-Move s words true = pay refl
resolve-Move s words false = elim (unpaid_cases s words) [
  | inl (e, h) ↦ keep e h
  | inr (inl (e, h)) ↦ close e h
  | inr (inr (inl (e, h))) ↦ fail e h
  | inr (inr (inr (e, h))) ↦ wait e h
]

-- The status after a sequence of notifications, each a provider's text and its success flag.
pub resolve_all : PaymentStatus → List (String × Bool) → PaymentStatus
resolve_all s [] = s
resolve_all s ((words, succeeds) ∷ rest) =
    resolve_all (resolve_payment_status_from_notification s words succeeds) rest

Move-terminal :
    {s t : PaymentStatus}
    → Move s t
    → is_terminal_payment_status s ≡ true
    → is_terminal_payment_status t ≡ true
unfolding is_terminal_payment_status
Move-terminal (keep e h) k = ground arith
Move-terminal (pay e) k = ground arith
Move-terminal (close e h) k = ground arith
Move-terminal (fail e h) k = ground arith
Move-terminal (wait e h) k = ground arith

pub Move-succeeded : {s t : PaymentStatus} → Move s t → s ≡ succeeded → t ≡ succeeded
unfolding is_terminal_payment_status
Move-succeeded (keep e h) k = ground arith
Move-succeeded (pay e) k = e
Move-succeeded (close e h) k = absurd (h k)
Move-succeeded (fail e h) k = ground arith
Move-succeeded (wait e h) k = ground arith

-- No sequence of notifications takes a paid order back, whatever the providers say.
pub resolve_all-succeeded : (notes : List (String × Bool)) → resolve_all succeeded notes ≡ succeeded
unfolding resolve_all
resolve_all-succeeded [] = refl
resolve_all-succeeded ((words, succeeds) ∷ notes) =
    rw (Move-succeeded (resolve-Move succeeded words succeeds) refl) (resolve_all-succeeded notes)

-- A terminal order stays terminal under every sequence of notifications.
pub resolve_all-terminal :
    (s : PaymentStatus) (notes : List (String × Bool))
    → is_terminal_payment_status s ≡ true
    → is_terminal_payment_status (resolve_all s notes) ≡ true
unfolding resolve_all
resolve_all-terminal s [] h = h
resolve_all-terminal s ((words, succeeds) ∷ notes) h =
    resolve_all-terminal (resolve_payment_status_from_notification s words succeeds) notes
      (Move-terminal (resolve-Move s words succeeds) h)
