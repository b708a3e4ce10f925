-- ===== src/Journal/Legacy.antt =====
-- src/moex_bot/execution_journal.py: `stage_legacy`, the import of historical orders into a candidate
-- journal, and what becomes of a journal that it filled.
mod Tests
use mathlib.Core.List.{append_assoc, append-nil}
use moex_tinvest_bot.Base.{
  ℕ, Bool, true, false, not, Option, none, some, List, [], ◌∷◌, ◌++◌, ◌≡◌, ◌≢◌, ◌⊎◌, inl, inr, refl,
  sym, ◌∙◌, ap, map, all, arith, ltb, ◌==◌, any, if◌then◌else◌,
}
use moex_tinvest_bot.Base.Result.{⊤, Result, ok, err}
use moex_tinvest_bot.Base.Exec.{pure, lift, gets, atomic, ◌>>=◌, ◌>>◌, raise_if, modify}
use moex_tinvest_bot.Domain.{
  Text, Moment, aware, naive, need_aware, unknown, OrderIntent, OrderRecord,
}
use moex_tinvest_bot.Journal.Reserve.{reserve_ok}
use moex_tinvest_bot.Journal.{
  Journal, Journaled, JournalError, Row, Migration, review_required, ready, status, is_closed,
  insert_row, reserve, reserve_in, not_quarantined, manifest_changed, unexpected_orders,
  naive_legacy, bad_legacy, migration_review,
}

-- A tuple of `entries`.
pub record LegacyEntry : Type 0 where
  pub legacy_account : Text
  pub legacy_plan : Text
  pub taken_at : Moment
  pub original : OrderRecord

-- The code of "legacy_requires_broker_confirmation".
abbrev unconfirmed : Text
unconfirmed = 6

abbrev is_review : Migration → Bool
is_review review_required = true
is_review ready = false

abbrev is_empty : List Row → Bool
is_empty [] = true
is_empty (r ∷ rows) = false

module _ (digest : OrderIntent → Text) where
  -- The values that are inserted: the order keeps its request id, and its status is unknown.
  abbrev legacy_row : LegacyEntry → ℕ → Row
  legacy_row e at = record {
    account = e.legacy_account;
    logical_id = e.original.intent.order_request_id;
    generation = 1;
    request_id = e.original.intent.order_request_id;
    payload_hash = digest e.original.intent;
    plan_id = e.legacy_plan;
    state = status unknown;
    snapshot_at = at;
    completed_at = none;
    saved = record (e.original) { status = unknown; status_detail = some unconfirmed };
  }

  -- The body of the loop.
  stage_entry : LegacyEntry → Journaled ⊤
  stage_entry e = do
    at ← lift (need_aware e.taken_at naive_legacy)
    raise_if (ltb e.original.intent.lots e.original.filled_lots) bad_legacy
    insert_row (legacy_row e at)

  stage_entries : List LegacyEntry → Journaled ⊤
  stage_entries [] = pure tt
  stage_entries (e ∷ es) = do stage_entry e; stage_entries es

  -- By the manifest that the journal already has.
  stage_by : List LegacyEntry → Text → Option Text → Journaled ⊤
  stage_by entries manifest (some previous) = raise_if (not (previous == manifest)) manifest_changed
  stage_by entries manifest none = do
    rows ← gets (λ j. j.rows)
    raise_if (not (is_empty rows)) unexpected_orders
    stage_entries entries
    modify (λ j. record j { manifest = some manifest })

  stage_in : List LegacyEntry → Text → Journaled ⊤
  stage_in entries manifest = do
    migration ← gets (λ j. j.migration)
    raise_if (not (is_review migration)) not_quarantined
    previous ← gets (λ j. j.manifest)
    stage_by entries manifest previous

  -- `ExecutionJournal.stage_legacy`
  pub stage_legacy : List LegacyEntry → Text → Journaled ⊤
  stage_legacy entries manifest = atomic (stage_in entries manifest)

  stage_entry-row :
      (e : LegacyEntry) (j : Journal)
      → (stage_entry e j).0 ≡ ok tt
      → (at : ℕ) × ((stage_entry e j).1 ≡ record j { rows = j.rows ++ legacy_row e at ∷ [] })
  unfolding stage_entry insert_row
  stage_entry-row e j h = by_time e.taken_at refl
    where
      by_time :
          (m : Moment)
          → e.taken_at ≡ m
          → (at : ℕ) × ((stage_entry e j).1 ≡ record j { rows = j.rows ++ legacy_row e at ∷ [] })
      by_time (aware t) eq = (t, ground arith)
      by_time (naive t) eq = absurd (ground arith)

  -- The rows that the import of some entries adds: each of its order, under the order's own request
  -- id, and open.
  pub data Staged : List LegacyEntry → List Row → Type 0 where
    none_left : Staged [] []
    one_more :
        {e : LegacyEntry} {es : List LegacyEntry} {rows : List Row} (at : ℕ)
        → Staged es rows
        → Staged (e ∷ es) (legacy_row e at ∷ rows)

  stage_entries-cons :
      (e : LegacyEntry) (es : List LegacyEntry) (j : Journal)
      → (stage_entries (e ∷ es) j).0 ≡ ok tt
      → ((stage_entry e j).0 ≡ ok tt)
        × (stage_entries (e ∷ es) j ≡ stage_entries es (stage_entry e j).1)
  unfolding stage_entries
  stage_entries-cons e es j h = by_outcome (stage_entry e j) refl
    where
      by_outcome :
          (o : Result JournalError ⊤ × Journal)
          → stage_entry e j ≡ o
          → ((stage_entry e j).0 ≡ ok tt)
            × (stage_entries (e ∷ es) j ≡ stage_entries es (stage_entry e j).1)
      by_outcome (ok tt, k) eq = (ground arith, ground arith)
      by_outcome (err x, k) eq = absurd (ground arith)

  stage_entries-none : (j : Journal) → (stage_entries [] j).1 ≡ record j { rows = j.rows ++ [] }
  unfolding stage_entries
  stage_entries-none j = rw (append-nil j.rows) refl

  stage_entries-Staged :
      (es : List LegacyEntry) (j : Journal)
      → (stage_entries es j).0 ≡ ok tt
      → (new : List Row) × Staged es new
        × ((stage_entries es j).1 ≡ record j { rows = j.rows ++ new })
  stage_entries-Staged [] j h = ([], none_left, stage_entries-none j)
  stage_entries-Staged (e ∷ es) j h =
      let (first, later) = stage_entries-cons e es j h in
      let (at, entered) = stage_entry-row e j first in
      let (new, staged, rest) = stage_entries-Staged es (stage_entry e j).1 (rw later at h) in
      (
        legacy_row e at ∷ new,
        one_more at staged,
        rw (later, rest, entered) (rw (append_assoc j.rows (legacy_row e at ∷ []) new) refl),
      )

  -- What a successful import leaves, of the journal that it met.
  pub record Quarantined (entries : List LegacyEntry) (manifest : Text) (j k : Journal)
      : Type 0 where
    pub still_closed : k.migration ≡ review_required
    pub signed_by : k.manifest ≡ some manifest
    pub imported : (k ≡ j) ⊎ ((j.manifest ≡ none) × (j.rows ≡ []) × Staged entries k.rows)

  stage_legacy-first :
      (entries : List LegacyEntry) (manifest : Text) (j : Journal)
      → j.manifest ≡ none
      → (stage_legacy entries manifest j).0 ≡ ok tt
      → (j.migration ≡ review_required)
        × (j.rows ≡ [])
        × ((stage_entries entries j).0 ≡ ok tt)
        × ((stage_legacy entries manifest j).1
            ≡ record (stage_entries entries j).1 { manifest = some manifest })
  unfolding stage_legacy stage_in stage_by
  stage_legacy-first entries manifest j e h = by_outcome (stage_entries entries j) refl
    where
      by_outcome :
          (o : Result JournalError ⊤ × Journal)
          → stage_entries entries j ≡ o
          → (j.migration ≡ review_required)
            × (j.rows ≡ [])
            × ((stage_entries entries j).0 ≡ ok tt)
            × ((stage_legacy entries manifest j).1
                ≡ record (stage_entries entries j).1 { manifest = some manifest })
      by_outcome (ok tt, k) eq = (ground arith, ground arith, ground arith, ground arith)
      by_outcome (err x, k) eq = absurd (ground arith)

  stage_legacy-again :
      (entries : List LegacyEntry) (manifest previous : Text) (j : Journal)
      → j.manifest ≡ some previous
      → (stage_legacy entries manifest j).0 ≡ ok tt
      → (j.migration ≡ review_required)
        × (previous ≡ manifest)
        × ((stage_legacy entries manifest j).1 ≡ j)
  unfolding stage_legacy stage_in stage_by
  stage_legacy-again entries manifest previous j e h = ground arith

  stage_legacy-Quarantined :
      (entries : List LegacyEntry) (manifest : Text) (j : Journal)
      → (stage_legacy entries manifest j).0 ≡ ok tt
      → Quarantined entries manifest j (stage_legacy entries manifest j).1
  stage_legacy-Quarantined entries manifest j h = by_manifest j.manifest refl
    where
      by_manifest :
          (m : Option Text)
          → j.manifest ≡ m
          → Quarantined entries manifest j (stage_legacy entries manifest j).1
      by_manifest (some previous) eq =
          let (closed, same, kept) = stage_legacy-again entries manifest previous j eq h in
          rw kept (record {
            still_closed = closed;
            signed_by = eq ∙ ap (λ m. some m) same;
            imported = inl refl;
          })
      by_manifest none eq =
          let (closed, empty_before, all_ok, result) = stage_legacy-first entries manifest j eq h in
          let (new, staged, added) = stage_entries-Staged entries j all_ok in
          rw (result, added)
            (record {
              still_closed = closed;
              signed_by = refl;
              imported = inr (eq, empty_before, rw empty_before staged);
            })

  repeated :
      (entries : List LegacyEntry) (manifest : Text) (k : Journal)
      → k.migration ≡ review_required
      → k.manifest ≡ some manifest
      → stage_legacy entries manifest k ≡ (ok tt, k)
  unfolding stage_legacy stage_in stage_by
  repeated entries manifest k closed signed_by = ground (arith, closed, signed_by)

  -- After a successful import the journal is still under review and bears the manifest; it is what it
  -- was, or it was empty and holds just the imported orders, each under its own request id and open.
  -- A repetition with the same manifest succeeds and changes nothing, whatever its entries, and no
  -- call of `reserve` on the journal grants an id.
  pub stage_legacy_lem :
      (entries : List LegacyEntry) (manifest : Text) (j : Journal)
      → (stage_legacy entries manifest j).0 ≡ ok tt
      → (others : List LegacyEntry) (account : Text) (intent : OrderIntent) (plan_id : Text)
        (snapshot : Moment) (residual_exit : Bool)
        (authorize : Option (Journal → Result JournalError Moment)) (fresh : Text)
      → let k = (stage_legacy entries manifest j).1 in
        Quarantined entries manifest j k
        × (stage_legacy others manifest k ≡ (ok tt, k))
        × ((id : Text)
            → (reserve digest account intent plan_id snapshot residual_exit authorize fresh k).0
              ≢ ok (some id))
  stage_legacy_lem entries manifest j h others account intent plan_id snapshot residual_exit
        authorize fresh =
      let k = (stage_legacy entries manifest j).1 in
      let q = stage_legacy-Quarantined entries manifest j h in
      (
        q,
        repeated others manifest k q.still_closed q.signed_by,
        λ id e. cc (
          q.still_closed,
          (reserve_ok digest account intent plan_id snapshot residual_exit authorize fresh k e).1,
        ),
      )
