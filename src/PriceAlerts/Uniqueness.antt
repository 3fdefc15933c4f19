-- ===== src/PriceAlerts/Uniqueness.antt =====
-- The unique indexes of the subscriptions (backend/app/models/price_subscription.py), and the requests
-- that keep them.
use qiki.Base.{
  ℕ, Bool, true, false, Option, none, some, List, [], ◌∷◌, String, select, Result, ok, err,
  if◌then◌else◌, ◌≡◌, refl, sym, subst, inl, inr, arith, Bool-cases,
}
use text.Mathlib.TextEquality.{eq_iff}
use qiki.PriceAlerts.{
  PriceSubscription, Alerts, Request, clash, clashes, create, scalar_one_or_none, has_email,
  has_confirm_token, has_unsubscribe_token, get_active_by_email, get_by_confirm_token,
  get_by_unsubscribe_token, mark_confirmed, mark_unsubscribed, confirm_row, unsubscribe_row,
  pending_row, subscribe, confirm_result, marks, confirm, unsubscribe,
}

abbrev pub IsUnique : List PriceSubscription → Type 0
IsUnique [] = Unit
IsUnique (s ∷ rows) = (clashes s rows ≡ false) × IsUnique rows

module _ (now token : ℕ) where
  confirmed_clashes :
      (a : PriceSubscription) (rows : List PriceSubscription)
      → clashes a (mark_confirmed now token rows) ≡ clashes a rows
  unfolding mark_confirmed
  confirmed_clashes a [] = refl
  confirmed_clashes a (s ∷ rows) = ground (arith, confirmed_clashes a rows)

  keys_clash :
      (a : PriceSubscription) (rows : List PriceSubscription)
      → clashes (if has_confirm_token token a then confirm_row now a else a) rows ≡ clashes a rows
  keys_clash a [] = refl
  keys_clash a (s ∷ rows) = ground (arith, keys_clash a rows)

  pub mark_confirmed-Unique :
      (rows : List PriceSubscription) → IsUnique rows → IsUnique (mark_confirmed now token rows)
  unfolding mark_confirmed
  mark_confirmed-Unique [] h = tt
  mark_confirmed-Unique (s ∷ rows) (h, hs) = (
    ground (arith, keys_clash s (mark_confirmed now token rows), confirmed_clashes s rows),
    mark_confirmed-Unique rows hs,
  )

  -- A row that is given up clashes with no more rows than before.
  unsubscribed_clashes :
      (a : PriceSubscription) (rows : List PriceSubscription)
      → clashes a rows ≡ false
      → clashes a (mark_unsubscribed now token rows) ≡ false
  unfolding mark_unsubscribed
  unsubscribed_clashes a [] h = refl
  unsubscribed_clashes a (s ∷ rows) h = ground (arith, unsubscribed_clashes a rows)

  given_up_clash :
      (a : PriceSubscription) (rows : List PriceSubscription)
      → clashes a rows ≡ false
      → clashes (if has_unsubscribe_token token a then unsubscribe_row now a else a) rows ≡ false
  given_up_clash a [] h = refl
  given_up_clash a (s ∷ rows) h = ground (arith, given_up_clash a rows)

  pub mark_unsubscribed-Unique :
      (rows : List PriceSubscription) → IsUnique rows → IsUnique (mark_unsubscribed now token rows)
  unfolding mark_unsubscribed
  mark_unsubscribed-Unique [] h = tt
  mark_unsubscribed-Unique (s ∷ rows) (h, hs) = (
    given_up_clash s (mark_unsubscribed now token rows) (unsubscribed_clashes s rows h),
    mark_unsubscribed-Unique rows hs,
  )

-- Where rows that pass a test clash with each other, at most one row passes it.
module _ (test : PriceSubscription → Bool) where
  abbrev Apart : Type 0
  Apart = (a b : PriceSubscription) → test a ≡ true → test b ≡ true → clash a b ≡ true

  none_passes :
      Apart
      → (a : PriceSubscription) (rows : List PriceSubscription) → test a ≡ true
      → clashes a rows ≡ false
      → select test rows ≡ []
  none_passes apart a [] h k = refl
  none_passes apart a (s ∷ rows) h k = elim (Bool-cases (test s)) [
    | inl passes ↦ absurd (ground (arith, apart a s h passes))
    | inr fails ↦ ground (arith, fails, none_passes apart a rows h (ground arith))
  ]

  pub unique_row :
      Apart
      → (rows : List PriceSubscription) → IsUnique rows
      → (o : Option PriceSubscription) × (scalar_one_or_none (select test rows) ≡ ok o)
  unique_row apart [] h = (none, refl)
  unique_row apart (s ∷ rows) (h, hs) = elim (Bool-cases (test s)) [
    | inl passes ↦ (some s, ground (arith, none_passes apart s rows passes h))
    | inr fails ↦ let (o, e) = unique_row apart rows hs in (o, ground (arith, e))
  ]

same_address : (email : String) → Apart (has_email email)
same_address email a b p q =
    ground (arith, eq_iff a.email email, eq_iff b.email email, eq_iff a.email b.email)

same_confirm_token : (token : ℕ) → Apart (has_confirm_token token)
same_confirm_token token a b p q = ground arith

same_unsubscribe_token : (token : ℕ) → Apart (has_unsubscribe_token token)
same_unsubscribe_token token a b p q = ground arith

kept : {rows rows' : List PriceSubscription} → rows' ≡ rows → IsUnique rows → IsUnique rows'
kept e h = subst IsUnique (sym e) h

create-Unique :
    (row : PriceSubscription) (rows rows' : List PriceSubscription)
    → create row rows ≡ some rows'
    → IsUnique rows
    → IsUnique rows'
unfolding create
create-Unique row rows rows' e h = elim (Bool-cases (clashes row rows)) [
  | inl taken ↦ absurd (ground (arith, taken))
  | inr free ↦ kept {rows = row ∷ rows} (ground (arith, free)) (free, h)
]

abbrev pub forget : {A : Type 0} → Result A × Alerts → Result (Unit {0}) × Alerts
forget (err e, a) = (err e, a)
forget (ok x, a) = (ok tt, a)

forget-alerts :
    {A : Type 0} (r : Result A × Alerts) → (forget r).1.subscriptions ≡ r.1.subscriptions
forget-alerts (err e, a) = refl
forget-alerts (ok x, a) = refl

-- One request, by a customer of the service.
pub data Call : Type 0 where
  subscribing : Request → String → Call
  confirming unsubscribing : ℕ → ℕ → Call

module _ (strip_lower : String → String) where
  -- The table after a call, and whether the call raised.
  abbrev pub run : Call → Alerts → Result (Unit {0}) × Alerts
  run (Call.subscribing q email) a = subscribe strip_lower q email a
  run (Call.confirming now token) a = forget (confirm now token a)
  run (Call.unsubscribing now token) a = forget (unsubscribe now token a)

  -- What the others commit keeps the indexes too, since the database does.
  abbrev pub IsFair : Call → Type 0
  IsFair (Call.subscribing q email) =
      (rows : List PriceSubscription) → IsUnique rows → IsUnique (q.meanwhile rows)
  IsFair _ = Unit

  subscribe-Unique :
      (q : Request) (email : String) (a : Alerts)
      → IsFair (Call.subscribing q email)
      → IsUnique a.subscriptions
      → ((subscribe strip_lower q email a).0 ≡ ok tt)
        × IsUnique (subscribe strip_lower q email a).1.subscriptions
  unfolding subscribe get_active_by_email create
  subscribe-Unique q email a fair h =
      let (o, e) =
        unique_row (has_email (strip_lower email)) (same_address (strip_lower email))
          a.subscriptions h in
      go o e
    where
      raced :
          (o : Option (List PriceSubscription))
          → scalar_one_or_none (select (has_email (strip_lower email)) a.subscriptions) ≡ ok none
          → create (pending_row q (strip_lower email)) (q.meanwhile a.subscriptions) ≡ o
          → ((subscribe strip_lower q email a).0 ≡ ok tt)
            × IsUnique (subscribe strip_lower q email a).1.subscriptions
      raced none e lost =
          (ground (arith, e), kept (ground (arith, e, lost)) (fair a.subscriptions h))
      raced (some rows) e won = (
        ground (arith, e),
        kept {rows = rows} (ground (arith, e, won)) (
            create-Unique (pending_row q (strip_lower email)) (q.meanwhile a.subscriptions) rows won
              (fair a.subscriptions h)),
      )

      go :
          (o : Option PriceSubscription)
          → scalar_one_or_none (select (has_email (strip_lower email)) a.subscriptions) ≡ ok o
          → ((subscribe strip_lower q email a).0 ≡ ok tt)
            × IsUnique (subscribe strip_lower q email a).1.subscriptions
      go (some existing) e = (ground (arith, e), kept (ground (arith, e)) h)
      go none e =
          raced (create (pending_row q (strip_lower email)) (q.meanwhile a.subscriptions)) e refl

  confirm-Unique :
      (now token : ℕ) (a : Alerts)
      → IsUnique a.subscriptions
      → ((forget (confirm now token a)).0 ≡ ok tt) × IsUnique (confirm now token a).1.subscriptions
  unfolding confirm get_by_confirm_token
  confirm-Unique now token a h =
      let (o, e) =
        unique_row (has_confirm_token token) (same_confirm_token token) a.subscriptions h in
      go o e
    where
      go :
          (o : Option PriceSubscription)
          → scalar_one_or_none (select (has_confirm_token token) a.subscriptions) ≡ ok o
          → ((forget (confirm now token a)).0 ≡ ok tt)
            × IsUnique (confirm now token a).1.subscriptions
      go none e = (ground (arith, e), kept (ground (arith, e)) h)
      go (some s) e = elim (Bool-cases (marks (confirm_result now s))) [
        | inl marked ↦ (
          ground (arith, e),
          kept (ground (arith, e, marked)) (mark_confirmed-Unique now token a.subscriptions h),
        )
        | inr unmarked ↦ (ground (arith, e), kept (ground (arith, e, unmarked)) h)
      ]

  unsubscribe-Unique :
      (now token : ℕ) (a : Alerts)
      → IsUnique a.subscriptions
      → ((forget (unsubscribe now token a)).0 ≡ ok tt)
        × IsUnique (unsubscribe now token a).1.subscriptions
  unfolding unsubscribe get_by_unsubscribe_token
  unsubscribe-Unique now token a h =
      let (o, e) =
        unique_row (has_unsubscribe_token token) (same_unsubscribe_token token) a.subscriptions h in
      go o e
    where
      go :
          (o : Option PriceSubscription)
          → scalar_one_or_none (select (has_unsubscribe_token token) a.subscriptions) ≡ ok o
          → ((forget (unsubscribe now token a)).0 ≡ ok tt)
            × IsUnique (unsubscribe now token a).1.subscriptions
      go none e = (ground (arith, e), kept (ground (arith, e)) h)
      go (some s) e = (
        ground (arith, e),
        kept (ground (arith, e)) (mark_unsubscribed-Unique now token a.subscriptions h),
      )

  -- Where the unique indexes hold before a call, and what other transactions commit during a
  -- subscription keeps them, they hold after it and the call returns: an address that has an active
  -- row, a lost race for one and an unknown token are answered and raise nothing.
  pub run-Unique :
      (call : Call) (a : Alerts)
      → IsFair call
      → IsUnique a.subscriptions
      → ((run call a).0 ≡ ok tt) × IsUnique (run call a).1.subscriptions
  run-Unique (Call.subscribing q email) a fair h = subscribe-Unique q email a fair h
  run-Unique (Call.confirming now token) a fair h =
      let (returns, unique) = confirm-Unique now token a h in
      (returns, kept (forget-alerts (confirm now token a)) unique)
  run-Unique (Call.unsubscribing now token) a fair h =
      let (returns, unique) = unsubscribe-Unique now token a h in
      (returns, kept (forget-alerts (unsubscribe now token a)) unique)
