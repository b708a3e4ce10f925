-- ===== src/Live/Enroll/Enrolled.antt =====
-- What an enrollment leaves behind.
use moex_tinvest_bot.Base.{
  Bool, true, false, Bool-cases, Option, none, some, [], ◌≡◌, ◌≢◌, ◌⊎◌, inl, inr, refl, arith,
}
use moex_tinvest_bot.Base.Result.{⊤, Result, ok, err}
use moex_tinvest_bot.Domain.{Text, Moment}
use moex_tinvest_bot.Journal.{ready}
use moex_tinvest_bot.Journal.Invariant.{IsSound}
use moex_tinvest_bot.Protection.{EntryBook, registered_live_journal}
use moex_tinvest_bot.Live.{ProdLongPolicy, LiveState}
use moex_tinvest_bot.Live.Policy.{PolicyError, validate_policy}
use moex_tinvest_bot.Live.Enroll.{
  is_fresh, has_exposed, is_ineligible, enroll_live_journal, quarantined_book, enroll_in,
}

-- An enrolled file: a sound journal without rows, open for trading, that the production functions
-- find under this identity.
pub record IsEnrolled (account identifier : Text) (book : EntryBook) : Type 0 where
  pub registered : registered_live_journal book account ≡ ok identifier
  pub open_journal : book.journal.migration ≡ ready
  pub no_rows : book.journal.rows ≡ []
  pub sound : IsSound book.journal

enroll_in-IsEnrolled :
    (account identifier : Text)
    → IsEnrolled account identifier (enroll_in account identifier quarantined_book)
unfolding registered_live_journal
enroll_in-IsEnrolled account identifier = record {
  registered = ground arith;
  open_journal = refl;
  no_rows = refl;
  sound = record { one_pending = λ a. omega arith; unique = λ id. omega arith; settled = tt };
}

-- What the broker's state and the policy have passed.
pub record IsEligible (policy : ProdLongPolicy) (state : LiveState) (now : Moment) : Type 0 where
  pub valid : validate_policy policy ≡ ok tt
  pub idle : state.active_orders ≡ 0
  pub fresh : is_fresh state.started_at state.finished_at now ≡ true
  pub protected : has_exposed policy state ≡ false

-- An enrollment raises and leaves the file as it was, which an existing file always does; or there was
-- no file, the policy is valid, the broker's state is fresh, without open orders and with no short or
-- unprotected holding, and the new file holds a sound and empty journal that is open for trading and
-- registered for the account under the identity that the call returns.
pub enroll_live_journal_lem :
    (is_blank : Text → Bool) (uuid : Text) (policy : ProdLongPolicy) (state : LiveState)
    (now : Moment) (file : Option EntryBook)
    → (((enroll_live_journal is_blank uuid policy state now file).1 ≡ file)
        × ((id : Text) → (enroll_live_journal is_blank uuid policy state now file).0 ≢ ok id))
      ⊎ ((file ≡ none)
          × ((enroll_live_journal is_blank uuid policy state now file).0 ≡ ok uuid)
          × IsEligible policy state now
          × ((book : EntryBook) × ((enroll_live_journal is_blank uuid policy state now file).1
                ≡ some book)
              × IsEnrolled state.account_id uuid book))
unfolding enroll_live_journal
enroll_live_journal_lem is_blank uuid policy state now file =
    by_policy (validate_policy policy) refl file
  where
    by_policy :
        (v : Result PolicyError ⊤)
        → validate_policy policy ≡ v
        → (file : Option EntryBook)
        → (((enroll_live_journal is_blank uuid policy state now file).1 ≡ file)
            × ((id : Text) → (enroll_live_journal is_blank uuid policy state now file).0 ≢ ok id))
          ⊎ ((file ≡ none)
              × ((enroll_live_journal is_blank uuid policy state now file).0 ≡ ok uuid)
              × IsEligible policy state now
              × ((book : EntryBook) × ((enroll_live_journal is_blank uuid policy state now file).1
                    ≡ some book)
                  × IsEnrolled state.account_id uuid book))
    by_policy (err e) v file = inl (ground (arith, v), λ id k. absurd (ground (arith, v)))
    by_policy (ok u) v (some b) = inl (ground (arith, v), λ id k. absurd (ground (arith, v)))
    by_policy (ok u) v none = elim (Bool-cases (is_ineligible is_blank policy state now)) [
      | inl bad ↦ inl (ground (arith, v, bad), λ id k. absurd (ground (arith, v, bad)))
      | inr good ↦ elim (Bool-cases (has_exposed policy state)) [
        | inl exposed ↦
            inl
              (ground (arith, v, good, exposed), λ id k. absurd (ground (arith, v, good, exposed)))
        | inr covered ↦ inr (
          refl,
          ground (arith, v, good, covered),
          record {
            valid = v;
            idle = ground (arith, good);
            fresh = ground (arith, good);
            protected = covered;
          },
          (
            enroll_in state.account_id uuid quarantined_book,
            ground (arith, v, good, covered),
            enroll_in-IsEnrolled state.account_id uuid,
          ),
        )
      ]
    ]
