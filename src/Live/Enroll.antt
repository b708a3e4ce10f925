-- ===== src/Live/Enroll.antt =====
-- src/moex_bot/live_execution.py: `enroll_live_journal`, on the file of the entry journal, which may be
-- missing. UUIDs and the test `account_id.strip()` are arguments.
mod Enrolled
mod Tests
use moex_tinvest_bot.Base.{
  ℕ, Bool, true, false, not, ◌&&◌, ◌||◌, Option, none, some, is_some, List, [], ◌∷◌, ◌+◌, ◌*◌, ltb,
  leb, ◌==◌, any,
}
use moex_tinvest_bot.Base.Int.{ℤ, pos, ltb_ℤ}
use moex_tinvest_bot.Base.Result.{⊤, Result, ok, err}
use moex_tinvest_bot.Base.Exec.{Exec, pure, lift, gets, modify, ◌>>=◌, ◌>>◌, raise_if}
use moex_tinvest_bot.Domain.{Text, Moment, aware}
use moex_tinvest_bot.Journal.{ready, review_required}
use moex_tinvest_bot.Protection.{EntryBook}
use moex_tinvest_bot.Portfolio.{member}
use moex_tinvest_bot.Live.{ProdLongPolicy, LiveState, LiveHolding, open_status, full_access}
use moex_tinvest_bot.Live.Policy.{PolicyError, validate_policy}

pub data EnrollError : Type 0 where
  invalid_policy : PolicyError → EnrollError
  already_exists ineligible unprotected : EnrollError

abbrev as_enroll_error : Result PolicyError ⊤ → Result EnrollError ⊤
as_enroll_error (ok u) = ok u
as_enroll_error (err e) = err (invalid_policy e)

-- The file at the journal's path.
abbrev pub Enrolling : Type 0 → Type 0
Enrolling = Exec (Option EntryBook) EnrollError

-- The three times have a zone, `started_at <= finished_at <= now`, and the first is at most 20 s old.
abbrev pub is_fresh : Moment → Moment → Moment → Bool
is_fresh (aware a) (aware b) (aware now) =
    leb a b && leb b now && (leb a now && leb now (a + 20 * 1_000_000))
is_fresh _ _ _ = false

-- `h.units < 0 or (h.units and h.instrument.secid not in policy.protected_secids)`
abbrev pub is_exposed : ProdLongPolicy → LiveHolding → Bool
is_exposed policy h =
    ltb_ℤ h.units (pos 0)
    || (ltb_ℤ (pos 0) h.units && not (member h.instrument.secid policy.protected_secids))

abbrev pub has_exposed : ProdLongPolicy → LiveState → Bool
has_exposed policy state = any (λ e. is_exposed policy e.1) state.positions

-- `ExecutionJournal(path, migration_required=True)` where the file is missing
abbrev pub quarantined_book : EntryBook
quarantined_book = record {
  is_initialized = true;
  live_account = none;
  live_uuid = none;
  journal = record { migration = review_required; manifest = none; rows = [] };
}

-- The transaction that enrolls the account.
abbrev enroll_in : Text → Text → EntryBook → EntryBook
enroll_in account identifier book = record book {
  live_account = some account;
  live_uuid = some identifier;
  journal = record (book.journal) { migration = ready };
}

-- The condition on the broker's state.
abbrev pub is_ineligible : (Text → Bool) → ProdLongPolicy → LiveState → Moment → Bool
is_ineligible is_blank policy state now =
    is_blank state.account_id
    || not (state.account_type == policy.account_type)
    || not (state.account_status == open_status)
    || not (state.access_level == full_access)
    || ltb 0 state.active_orders
    || not (is_fresh state.started_at state.finished_at now)

module _ (is_blank : Text → Bool) (uuid : Text) where
  -- `enroll_live_journal`
  pub enroll_live_journal : ProdLongPolicy → LiveState → Moment → Enrolling Text
  enroll_live_journal policy state now = do
    lift (as_enroll_error (validate_policy policy))
    exists ← gets is_some
    raise_if exists already_exists
    raise_if (is_ineligible is_blank policy state now) ineligible
    raise_if (has_exposed policy state) unprotected
    modify (λ file. some (enroll_in state.account_id uuid quarantined_book))
    pure uuid
