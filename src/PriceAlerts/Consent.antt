-- ===== src/PriceAlerts/Consent.antt =====
-- Who is told of a price change (`notify_price_change` of
-- backend/app/services/price_alert_service.py).
use qiki.Base.{
  Among, ℕ, Bool, true, false, ◌&&◌, ◌++◌, ◌∙◌, append_assoc, ◌||◌, not, all, ltb, Option, none,
  some, List, [], ◌∷◌, String, select, ◌<◌, ◌≡◌, refl, sym, subst, inl, inr, All, All-append, arith,
  Option-cases, Bool-cases, is_some, Result, ok, err,
}
use qiki.PriceAlerts.{
  PriceSubscription, Alerts, Mail, notify_each, reversed, ConfirmResult, scalar_one_or_none,
  has_confirm_token, get_by_confirm_token, get_active_by_email, get_by_unsubscribe_token,
  confirm_row, mark_confirmed, mark_unsubscribed, may_receive, list_confirmed_active, create,
  subscribe, confirm_result, confirm, unsubscribe, notify_price_change,
}
use qiki.PriceAlerts.Uniqueness.{Call, run}

abbrev in_time : Option ℕ → Option ℕ → Bool
in_time (some t) (some limit) = ltb t limit
in_time _ _ = false

-- A confirmed row was confirmed before its link expired, and every link expires.
abbrev pub consented : PriceSubscription → Bool
consented s =
    is_some s.confirm_expires_at && (not s.confirmed || in_time s.confirmed_at s.confirm_expires_at)

confirm_row-consented :
    (now : ℕ) (s : PriceSubscription)
    → confirm_result now s ≡ ConfirmResult.confirmed
    → consented s ≡ true
    → consented (confirm_row now s) ≡ true
unfolding confirm_result
confirm_row-consented now s e h = elim (Option-cases s.confirm_expires_at) [
  | inl p ↦ absurd (ground (arith, p))
  | inr (limit, p) ↦ ground (arith, p)
]

module _ (now token : ℕ) where
  unmarked_rows :
      (rows : List PriceSubscription)
      → select (has_confirm_token token) rows ≡ []
      → mark_confirmed now token rows ≡ rows
  unfolding mark_confirmed
  unmarked_rows [] h = refl
  unmarked_rows (s ∷ rows) h = ground (arith, unmarked_rows rows)

  only_one :
      (s r : PriceSubscription) (rows : List PriceSubscription)
      → scalar_one_or_none (r ∷ rows) ≡ ok (some s)
      → (rows ≡ []) × (r ≡ s)
  only_one s r [] e = (refl, ground arith)
  only_one s r (t ∷ rows) e = absurd (ground arith)

  mark_confirmed-consented :
      (s : PriceSubscription) (rows : List PriceSubscription)
      → scalar_one_or_none (select (has_confirm_token token) rows) ≡ ok (some s)
      → confirm_result now s ≡ ConfirmResult.confirmed
      → all consented rows ≡ true
      → all consented (mark_confirmed now token rows) ≡ true
  unfolding mark_confirmed
  mark_confirmed-consented s [] e m h = refl
  mark_confirmed-consented s (r ∷ rows) e m h = elim (Bool-cases (has_confirm_token token r)) [
    | inl hit ↦
        let (alone, same) =
          only_one s r (select (has_confirm_token token) rows) (ground (arith, hit)) in
        ground (arith, hit, alone, same, unmarked_rows rows alone, confirm_row-consented now s m)
    | inr miss ↦ ground (arith, miss, mark_confirmed-consented s rows (ground (arith, miss)) m)
  ]

  mark_unsubscribed-consented :
      (rows : List PriceSubscription)
      → all consented rows ≡ true
      → all consented (mark_unsubscribed now token rows) ≡ true
  unfolding mark_unsubscribed
  mark_unsubscribed-consented [] h = refl
  mark_unsubscribed-consented (s ∷ rows) h = ground (arith, mark_unsubscribed-consented rows)

-- What the others commit.
abbrev pub IsHonest : Call → Type 0
IsHonest (Call.subscribing q email) =
    (rows : List PriceSubscription)
    → all consented rows ≡ true
    → all consented (q.meanwhile rows) ≡ true
IsHonest _ = Unit

module _ (strip_lower : String → String) where
  run-consented :
      (call : Call) (a : Alerts)
      → IsHonest call
      → all consented a.subscriptions ≡ true
      → all consented (run strip_lower call a).1.subscriptions ≡ true
  unfolding subscribe confirm unsubscribe create get_active_by_email get_by_confirm_token
      get_by_unsubscribe_token
  run-consented (Call.subscribing q email) a honest h = ground (arith, honest a.subscriptions h)
  run-consented (Call.confirming now token) a honest h =
      go (scalar_one_or_none (select (has_confirm_token token) a.subscriptions)) refl
    where
      go :
          (o : Result (Option PriceSubscription))
          → scalar_one_or_none (select (has_confirm_token token) a.subscriptions) ≡ o
          → all consented (run strip_lower (Call.confirming now token) a).1.subscriptions ≡ true
      go (err x) e = ground (arith, e)
      go (ok none) e = ground (arith, e)
      go (ok (some s)) e = ground (arith, e, mark_confirmed-consented now token s a.subscriptions e)
  run-consented (Call.unsubscribing now token) a honest h =
      ground (arith, mark_unsubscribed-consented now token a.subscriptions h)

  -- The tables that the calls lead to, from an empty one.
  pub data Reachable : Alerts → Type 0 where
    empty : Reachable record { subscriptions = []; outbox = [] }
    called :
        {a : Alerts} (call : Call)
        → Reachable a
        → IsHonest call
        → Reachable (run strip_lower call a).1
    notified :
        {a : Alerts} (delivers : String → Bool)
        → Reachable a
        → Reachable (notify_price_change delivers a).1

  reachable_consented : {a : Alerts} → Reachable a → all consented a.subscriptions ≡ true
  unfolding notify_price_change
  reachable_consented empty = refl
  reachable_consented (called {a} call before honest) =
      run-consented call a honest (reachable_consented before)
  reachable_consented (notified delivers before) = reachable_consented before

-- The row is in the table, confirmed within its time and not given up.
pub record IsRecipient (rows : List PriceSubscription) (s : PriceSubscription) : Type 0 where
  pub known : Among s rows
  pub instant : ℕ
  pub limit : ℕ
  pub confirmed_at : s.confirmed_at ≡ some instant
  pub confirm_expires_at : s.confirm_expires_at ≡ some limit
  pub within : instant < limit
  pub kept : s.unsubscribed_at ≡ none

-- A note of the prices to such a row.
abbrev pub IsToRecipient : List PriceSubscription → Mail → Type 0
IsToRecipient rows m =
    (s : PriceSubscription) × (m ≡ Mail.price_alert_notification s.email s.unsubscribe_token)
    × IsRecipient rows s

-- Every row of `part` stands in `rows`.
selected_rows :
    (rows part : List PriceSubscription)
    → ((s : PriceSubscription) → Among s part → Among s rows)
    → all consented part ≡ true
    → All (IsRecipient rows) (select may_receive part)
selected_rows rows [] inside h = tt
selected_rows rows (s ∷ part) inside h =
    let rest = selected_rows rows part (λ r among. inside r (inr among)) (ground arith) in
    elim (Bool-cases (may_receive s)) [
      | inl receives ↦
          subst (All (IsRecipient rows)) {x = s ∷ select may_receive part}
            (ground (arith, receives))
            (recipient rows s (inside s (inl refl)) receives (ground arith), rest)
      | inr refused ↦
          subst (All (IsRecipient rows)) {x = select may_receive part} (ground (arith, refused))
            rest
    ]
  where
    recipient :
        (rows : List PriceSubscription) (s : PriceSubscription)
        → Among s rows
        → may_receive s ≡ true
        → consented s ≡ true
        → IsRecipient rows s
    recipient rows s among receives fine = elim (Option-cases s.confirm_expires_at) [
      | inl p ↦ absurd (ground (arith, p))
      | inr (limit, p) ↦ elim (Option-cases s.confirmed_at) [
        | inl q ↦ absurd (ground (arith, p, q))
        | inr (t, q) ↦ record {
          known = among;
          instant = t;
          limit = limit;
          confirmed_at = q;
          confirm_expires_at = p;
          within = ground (arith, p, q);
          kept = ground arith;
        }
      ]
    ]

All-reversed {ℓ κ} :
    {A : Type ℓ} (P : A → Type κ) (xs ys : List A) → All P xs → All P ys → All P (reversed xs ys)
All-reversed P [] ys h k = k
All-reversed P (x ∷ xs) ys (h, hs) k = All-reversed P xs (x ∷ ys) hs (h, k)

noted :
    (rows recipients : List PriceSubscription) (outbox : List Mail)
    → All (IsRecipient rows) recipients
    → (mails : List Mail) × (notify_each recipients outbox ≡ mails ++ outbox)
      × All (IsToRecipient rows) mails
unfolding notify_each
noted rows [] outbox h = ([], refl, tt)
noted rows (s ∷ recipients) outbox (h, hs) =
    let note = Mail.price_alert_notification s.email s.unsubscribe_token in
    let (mails, e, fine) = noted rows recipients (note ∷ outbox) hs in
    (
      mails ++ (note ∷ []),
      e ∙ sym (append_assoc mails (note ∷ []) outbox),
      All-append (IsToRecipient rows) mails (note ∷ []) fine ((s, refl, h), tt),
    )

-- A change of prices is sent to rows of the table only that were confirmed before their link expired
-- and that have not been given up, whatever calls led from the empty table to this one. What other
-- transactions commit during a subscription is supposed to keep to confirmations in time.
pub notify_price_change-IsToRecipient :
    (strip_lower : String → String) (delivers : String → Bool) (a : Alerts)
    → Reachable strip_lower a
    → (mails : List Mail) × ((notify_price_change delivers a).1.outbox ≡ mails ++ a.outbox)
      × All (IsToRecipient a.subscriptions) mails
unfolding notify_price_change list_confirmed_active
notify_price_change-IsToRecipient strip_lower delivers a h =
    let rows = a.subscriptions in
    noted rows (list_confirmed_active rows) a.outbox (
      All-reversed (IsRecipient rows) (select may_receive rows) []
        (selected_rows rows rows (λ s among. among) (reachable_consented strip_lower h)) tt)
