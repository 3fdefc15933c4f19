-- ===== src/AdminChat/Protocol.antt =====
-- What planning and confirming do to the catalog and the audit log
-- (backend/app/services/admin_chat_service.py).
use qiki.Base.{ℕ, none, String, lookup, ◌==◌, ok, ◌≡◌, inl, inr, Option-cases, arith}
use text.Mathlib.Text.{◌==◌ as str_eq}
use qiki.Models.User.{User}
use qiki.Models.Product.{Product}
use qiki.Models.Redis.{Redis}
use qiki.AdminChat.{
  PendingAction, AdminChatStatus, AdminDesk, Reading, after_of, pending_key, commit_change,
  apply_pending, execute_pending,
}

-- The catalog and the audit log are the same.
abbrev pub Unchanged : {S : Type 0} → AdminDesk S → AdminDesk S → Type 0
Unchanged d d' = (d'.products ≡ d.products) × (d'.audit ≡ d.audit)

module _ {S : Type 0} (redis : Redis PendingAction S) (reading : Reading) where
  apply_pending-pending :
      (p : PendingAction) (admin : User) (d : AdminDesk S)
      → (apply_pending redis reading p admin d).1.pending ≡ d.pending
  unfolding apply_pending commit_change
  apply_pending-pending p admin d = elim (Option-cases (lookup p.product_id d.products)) [
    | inl gone ↦ ground arith
    | inr (product, found) ↦ elim (Option-cases (after_of p.instruction)) [
      | inl bad ↦ ground arith
      | inr (after, good) ↦ ground arith
    ]
  ]

  execute_pending-pending :
      (now : ℕ) (token : String) (admin : User) (d : AdminDesk S)
      → (execute_pending redis reading now token admin d).1.pending
        ≡ (redis.getdel now (pending_key token) d.pending).1
  unfolding execute_pending
  execute_pending-pending now token admin d =
      elim (Option-cases (redis.getdel now (pending_key token) d.pending).0) [
        | inl gone ↦ ground arith
        | inr (p, claimed) ↦ ground (
          arith,
          apply_pending-pending p admin
              (record d { pending = (redis.getdel now (pending_key token) d.pending).1 }),
        )
      ]

  execute_pending_gone :
      (now : ℕ) (token : String) (admin : User) (d : AdminDesk S)
      → (redis.getdel now (pending_key token) d.pending).0 ≡ none
      → ((execute_pending redis reading now token admin d).0 ≡ ok AdminChatStatus.expired)
        × Unchanged d (execute_pending redis reading now token admin d).1
  unfolding execute_pending
  execute_pending_gone now token admin d gone = ground arith

  -- A token works once: after one confirmation, whatever came of it and whoever sent it, a second
  -- one with that token answers `expired` and changes neither the catalog nor the audit log.
  execute_pending_once :
      (now later : ℕ) (token : String) (admin other : User) (d : AdminDesk S)
      → let d1 = (execute_pending redis reading now token admin d).1 in
        let (r, d2) = execute_pending redis reading later token other d1 in
        (r ≡ ok AdminChatStatus.expired) × Unchanged d1 d2
  execute_pending_once now later token admin other d =
      let d1 = (execute_pending redis reading now token admin d).1 in
      execute_pending_gone later token other d1 (
        rw (execute_pending-pending now token admin d)
          (redis.getdel_again now later (pending_key token) d.pending))
