-- ===== src/Protection/Once.antt =====
-- One plan posts at most one stop order.
use mathlib.Core.Path.{subst}
use moex_tinvest_bot.Base.{
  not, is_some, Bool, true, false, Option, none, some, [], ◌∷◌, ◌++◌, ◌≡◌, ◌≤◌, ◌+◌, refl, sym, ap,
  ◌∙◌, count, find, arith, ◌==◌, ◌⊎◌, inl, inr, count-append, if◌then◌else◌, Bool-cases,
}
use moex_tinvest_bot.Base.Result.{⊤, Result, ok}
use moex_tinvest_bot.Base.Exec.{lift, bind_keeps, bind_ends, raise, raise_if, raise_if-keeps, ◌>>◌}
use moex_tinvest_bot.Domain.{Text}
use moex_tinvest_bot.Protection.{
  State, planned, unknown, active, post_pending, Protected, Store, ProtectionError, ProtectionPlan,
  EntryBook, Broker, PostAnswer, guard_failed, transport_failed, malformed, responded, Names,
  is_planned, for_request, is_open_plan, is_reserved, set_state, set_stop, change_rows,
  set_plan_state, update_one, dispatch, post_stop, prepare, plan_row, read_back, reconcile,
  submit_stop, activate, reconcile_stop, continue_from, enroll, check_parent, already_reserved,
  registered_live_journal, planned_row, as_plan_error, validate, identified, reservation_changed,
  stop_not_dispatched, incomplete_response,
}
use moex_tinvest_bot.Protection.Counts.{
  posted, has-set_stop, open-set_stop, has-set_state, open-reserve, open-release, has-zero,
}

-- A request has one row at most, and a row that is still PLANNED has posted nothing.
pub record IsSafe (s : Store) : Type 0 where
  pub unique : (r : Text) → count (for_request r) s.rows ≤ 1
  pub spent : (r : Text) → posted r s + count (is_open_plan r) s.rows ≤ count (for_request r) s.rows

-- The same while one submission of `id` is reserved.
record IsReserved (id : Text) (s : Store) : Type 0 where
  unique : (r : Text) → count (for_request r) s.rows ≤ 1
  spent :
      (r : Text)
      → posted r s + count (is_open_plan r) s.rows + (if r == id then 1 else 0)
        ≤ count (for_request r) s.rows

IsReserved-IsSafe : {s : Store} (id : Text) → IsReserved id s → IsSafe s
IsReserved-IsSafe id h = record { unique = h.unique; spent = λ r. ground (arith, h.spent r) }

set_stop-IsSafe :
    (id hash : Text) (state : State) (stop : Option Text) (s : Store)
    → is_planned state ≡ false
    → IsSafe s
    → IsSafe (change_rows (set_stop id hash state stop) s)
set_stop-IsSafe id hash state stop s later h = record {
  unique = λ r. rw (has-set_stop id hash state stop r s.rows) (h.unique r);
  spent = λ r.
      rw (has-set_stop id hash state stop r s.rows)
        (omega (arith, open-set_stop id hash state stop later r s.rows, h.spent r));
}

IsSafe-IsReserved :
    (id : Text) (s : Store)
    → IsSafe s
    → count (is_open_plan id) s.rows ≡ 1
    → IsReserved id (change_rows (set_state (is_open_plan id) post_pending) s)
IsSafe-IsReserved id s h one = record {
  unique = λ r. rw (has-set_state (is_open_plan id) post_pending r s.rows) (h.unique r);
  spent = λ r.
      rw (has-set_state (is_open_plan id) post_pending r s.rows)
        (ground (arith, open-reserve id r s.rows, h.spent r));
}

released-IsSafe :
    (id hash : Text) (s : Store)
    → IsReserved id s
    → count (is_reserved id hash) s.rows ≡ 1
    → IsSafe (change_rows (set_state (is_reserved id hash) planned) s)
released-IsSafe id hash s h one = record {
  unique = λ r. rw (has-set_state (is_reserved id hash) planned r s.rows) (h.unique r);
  spent = λ r.
      rw (has-set_state (is_reserved id hash) planned r s.rows)
        (ground (arith, open-release id hash r s.rows, h.spent r));
}

-- The reservation pays for the one stop order that enters the transport.
dispatched-IsSafe : (id : Text) (s : Store) → IsReserved id s → IsSafe (dispatch id s).1
unfolding dispatch
dispatched-IsSafe id s h = record {
  unique = h.unique;
  spent = λ r. ground (arith, count-append {0} (λ p. p == r) s.posts (id ∷ []), h.spent r);
}

update_one-cases :
    (p : Protected → Bool) (state : State) (e : ProtectionError) (s : Store)
    → ((update_one p state e s).1 ≡ s)
      ⊎ ((count p s.rows ≡ 1)
          × (update_one p state e s ≡ (ok tt, change_rows (set_state p state) s)))
unfolding update_one
update_one-cases p state e s = elim (Bool-cases (count p s.rows == 1)) [
  | inl one ↦ inr (ground arith, ground arith)
  | inr other ↦ inl (ground arith)
]

-- Whether it succeeds or not, giving a reservation back leaves the store safe.
release-IsSafe :
    (id hash : Text) (e : ProtectionError) (s : Store)
    → IsReserved id s
    → IsSafe (update_one (is_reserved id hash) planned e s).1
release-IsSafe id hash e s h = elim (update_one-cases (is_reserved id hash) planned e s) [
  | inl same ↦ rw same (IsReserved-IsSafe id h)
  | inr (one, done) ↦ rw done (released-IsSafe id hash s h one)
]

post_stop-IsSafe :
    (id hash : Text) (answer : PostAnswer) (s : Store)
    → IsReserved id s
    → IsSafe (post_stop id hash answer s).1
unfolding post_stop set_plan_state
post_stop-IsSafe id hash guard_failed s h =
    bind_keeps IsSafe (λ _. raise stop_not_dispatched)
      (update_one (is_reserved id hash) planned reservation_changed) s
      (release-IsSafe id hash reservation_changed s h) (λ _ t safe. safe)
post_stop-IsSafe id hash transport_failed s h =
    unfold dispatch in
    set_stop-IsSafe id hash unknown none (dispatch id s).1 refl (dispatched-IsSafe id s h)
post_stop-IsSafe id hash malformed s h = unfold dispatch in dispatched-IsSafe id s h
post_stop-IsSafe id hash (responded returned echoed) s h =
    unfold dispatch in
    bind_keeps IsSafe
      (λ _. raise_if (not (is_some (identified id returned echoed))) incomplete_response)
      (λ t. (dispatch id >> set_plan_state id hash unknown (identified id returned echoed)) t) s
      (set_stop-IsSafe id hash unknown (identified id returned echoed) (dispatch id s).1 refl
        (dispatched-IsSafe id s h))
      (λ _ t safe.
        raise_if-keeps IsSafe (not (is_some (identified id returned echoed))) incomplete_response t
          safe)

inserted-IsSafe :
    (new : Protected) (s : Store)
    → find (for_request new.request_id) s.rows ≡ none
    → IsSafe s
    → IsSafe (record s { rows = s.rows ++ new ∷ [] })
inserted-IsSafe new s free h = record {
  unique =
      λ r. ground (arith, h.unique r, absent r, count-append {0} (for_request r) s.rows (new ∷ []));
  spent = λ r. ground (
    arith,
    h.spent r,
    absent r,
    count-append {0} (for_request r) s.rows (new ∷ []),
    count-append {0} (is_open_plan r) s.rows (new ∷ []),
  );
}
  where
    absent : (r : Text) → r ≡ new.request_id → count (for_request r) s.rows ≡ 0
    absent r e = rw e (has-zero new.request_id s.rows free)

-- The compare-and-swap leaves the store safe, and with a reservation where it succeeds.
module _ (id : Text) (e : ProtectionError) (s : Store) (h : IsSafe s) where
  reserve_keeps :
      {r : Result ProtectionError ⊤} {t : Store}
      → update_one (is_open_plan id) post_pending e s ≡ (r, t)
      → IsSafe t
  reserve_keeps {r} {t} eq = elim (update_one-cases (is_open_plan id) post_pending e s) [
    | inl same ↦ subst IsSafe (sym same ∙ ap (λ (o : Result ProtectionError ⊤ × Store). o.1) eq) h
    | inr (one, done) ↦
        subst IsSafe (ap (λ (o : Result ProtectionError ⊤ × Store). o.1) (sym done ∙ eq))
          (IsReserved-IsSafe id (IsSafe-IsReserved id s h one))
  ]

  reserve_reserves :
      {t : Store} → update_one (is_open_plan id) post_pending e s ≡ (ok tt, t) → IsReserved id t
  unfolding update_one
  reserve_reserves {t} eq =
      subst (IsReserved id) (ground arith) (IsSafe-IsReserved id s h (ground arith))

module _ (names : Names) where
  plan_row-state : (plan : ProtectionPlan) (s : Store) → (plan_row names plan s).1 ≡ s
  unfolding plan_row
  plan_row-state plan s = refl

  read_back-IsSafe :
      (plan : ProtectionPlan) (broker : Broker) (id : Text) (s : Store)
      → IsSafe s
      → IsSafe (read_back names plan broker id s).1
  unfolding read_back set_plan_state
  read_back-IsSafe plan broker id s h =
      let request = names.request_id plan in
      let hash = names.digest plan in
      let marked = set_stop-IsSafe request hash unknown (some id) s refl h in
      ground (
        arith,
        marked,
        set_stop-IsSafe request hash active (some id)
            (change_rows (set_stop request hash unknown (some id)) s) refl marked,
      )

  reconcile_stop-IsSafe :
      (plan : ProtectionPlan) (broker : Broker) (state : State) (stop : Option Text) (s : Store)
      → IsSafe s
      → IsSafe (reconcile_stop names plan broker state stop s).1
  unfolding reconcile_stop
  reconcile_stop-IsSafe plan broker state none s h = h
  reconcile_stop-IsSafe plan broker state (some id) s h = read_back-IsSafe plan broker id s h

  reconcile-IsSafe :
      (plan : ProtectionPlan) (broker : Broker) (s : Store)
      → IsSafe s
      → IsSafe (reconcile names plan broker s).1
  unfolding reconcile
  reconcile-IsSafe plan broker s h =
      bind_keeps IsSafe _ (plan_row names plan) s (rw (plan_row-state plan s) h) λ row t safe.
        ground (arith, safe, reconcile_stop-IsSafe plan broker row.state row.stop_id t safe)

  submit_stop-IsSafe :
      (plan : ProtectionPlan) (book : EntryBook) (broker : Broker) (s : Store)
      → IsSafe s
      → IsSafe (submit_stop names plan book broker s).1
  unfolding submit_stop
  submit_stop-IsSafe plan book broker s h =
      let id = names.request_id plan in
      bind_keeps IsSafe _ (lift (check_parent names plan book broker)) s h λ _ t safe.
        bind_ends IsSafe _ (update_one (is_open_plan id) post_pending already_reserved) t
          (λ _ u reserved.
            bind_keeps IsSafe _ (post_stop id (names.digest plan) broker.post) u
              (post_stop-IsSafe id (names.digest plan) broker.post u
                (reserve_reserves id already_reserved t safe reserved))
              (λ _ v safe'. reconcile-IsSafe plan broker v safe'))
          (λ x u refused. reserve_keeps id already_reserved t safe refused)

  continue_from-IsSafe :
      (plan : ProtectionPlan) (book : EntryBook) (broker : Broker) (b : Bool) (s : Store)
      → IsSafe s
      → IsSafe (continue_from names plan book broker b s).1
  unfolding continue_from
  continue_from-IsSafe plan book broker true s h = submit_stop-IsSafe plan book broker s h
  continue_from-IsSafe plan book broker false s h = reconcile-IsSafe plan broker s h

  activate-IsSafe :
      (plan : ProtectionPlan) (book : EntryBook) (broker : Broker) (s : Store)
      → IsSafe s
      → IsSafe (activate names plan book broker s).1
  unfolding activate
  activate-IsSafe plan book broker s h =
      bind_keeps IsSafe _ (lift (as_plan_error (validate names.is_uuid plan))) s h λ _ t safe.
        bind_keeps IsSafe _ (plan_row names plan) t (rw (plan_row-state plan t) safe) λ row u safe'.
          ground
            (arith, safe', continue_from-IsSafe plan book broker (is_planned row.state) u safe')

  enroll-IsSafe :
      (plan : ProtectionPlan) (identity : Text) (existing : Option Protected) (s : Store)
      → find (for_request (names.request_id plan)) s.rows ≡ existing
      → IsSafe s
      → IsSafe (enroll names plan identity existing s).1
  unfolding enroll
  enroll-IsSafe plan identity (some r) s e h = ground arith
  enroll-IsSafe plan identity none s e h =
      let new = planned_row plan (names.request_id plan) (names.digest plan) identity in
      ground (arith, h, inserted-IsSafe new s e h)

  -- A preparation posts no stop order.
  pub prepare-posts :
      (plan : ProtectionPlan) (book : EntryBook) (separate : Bool) (s : Store)
      → (prepare names plan book separate s).1.posts ≡ s.posts
  unfolding prepare enroll
  prepare-posts plan book separate s = ground arith

  prepare-IsSafe :
      (plan : ProtectionPlan) (book : EntryBook) (separate : Bool) (s : Store)
      → IsSafe s
      → IsSafe (prepare names plan book separate s).1
  unfolding prepare
  prepare-IsSafe plan book separate s h =
      bind_keeps IsSafe _ (lift (as_plan_error (validate names.is_uuid plan))) s h λ _ t safe.
        bind_keeps IsSafe _ (lift (registered_live_journal book plan.account_id)) t safe
          λ identity u safe'.
            let existing = find (for_request (names.request_id plan)) u.rows in
            ground (arith, safe', enroll-IsSafe plan identity existing u refl safe')

  -- A call of one of the journal's methods, with any plan and book, whatever the broker answers, and
  -- however the call ends.
  pub data Step (s : Store) : Store → Type 0 where
    prepared :
        (plan : ProtectionPlan) (book : EntryBook) (separate : Bool)
        → Step s (prepare names plan book separate s).1
    activated :
        (plan : ProtectionPlan) (book : EntryBook) (broker : Broker)
        → Step s (activate names plan book broker s).1
    reconciled :
        (plan : ProtectionPlan) (broker : Broker) → Step s (reconcile names plan broker s).1

  pub data Reach (s : Store) : Store → Type 0 where
    here : Reach s s
    next : {t u : Store} → Reach s t → Step t u → Reach s u

  Step-IsSafe : {s t : Store} → Step s t → IsSafe s → IsSafe t
  Step-IsSafe {s} (prepared plan book separate) h = prepare-IsSafe plan book separate s h
  Step-IsSafe {s} (activated plan book broker) h = activate-IsSafe plan book broker s h
  Step-IsSafe {s} (reconciled plan broker) h = reconcile-IsSafe plan broker s h

  Reach-IsSafe : {s t : Store} → IsSafe s → Reach s t → IsSafe t
  Reach-IsSafe h here = h
  Reach-IsSafe h (next run st) = Step-IsSafe st (Reach-IsSafe h run)

  -- From a safe store, such as the empty one, over any calls of `prepare`, `activate` and `reconcile`,
  -- with any plans and whatever the brokers answer or fail to answer, at most one stop order of a
  -- request enters the transport, and none has while its plan is still PLANNED.
  pub Reach-posts_once :
      {s t : Store}
      → IsSafe s
      → Reach s t
      → (r : Text) → (posted r t ≤ 1) × (count (is_open_plan r) t.rows ≡ 1 → posted r t ≡ 0)
  Reach-posts_once h run r =
      let safe = Reach-IsSafe h run in
      (
        omega (arith, safe.unique r, safe.spent r),
        λ open_plan. omega (arith, safe.unique r, safe.spent r),
      )
