-- ===== src/Live/Enroll/Tests.antt =====
-- The first enrollment of an account without holdings, and the theorem there.
use moex_tinvest_bot.Base.{◌≡◌, ◌≢◌, ◌⊎◌, Option, none, some, false}
use moex_tinvest_bot.Base.Result.{ok}
use moex_tinvest_bot.Domain.{Text, aware}
use moex_tinvest_bot.Protection.{EntryBook}
use moex_tinvest_bot.Live.Enroll.{Enrolling, enroll_live_journal}
use moex_tinvest_bot.Live.Enroll.Enrolled.{IsEligible, IsEnrolled, enroll_live_journal_lem}
use moex_tinvest_bot.Samples.{policy, live_state}

abbrev missing : Option EntryBook
missing = none

abbrev first : Enrolling Text
first = enroll_live_journal (λ t. false) 64 policy live_state (aware 3_000_000)

enroll_live_journal_lem_example :
    (((first missing).1 ≡ missing) × ((id : Text) → (first missing).0 ≢ ok id))
    ⊎ ((missing ≡ none)
        × ((first missing).0 ≡ ok 64)
        × IsEligible policy live_state (aware 3_000_000)
        × ((book : EntryBook) × ((first missing).1 ≡ some book) × IsEnrolled 5 64 book))
enroll_live_journal_lem_example =
    enroll_live_journal_lem (λ t. false) 64 policy live_state (aware 3_000_000) missing
