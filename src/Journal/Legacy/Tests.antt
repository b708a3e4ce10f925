-- ===== src/Journal/Legacy/Tests.antt =====
-- An import of one historical order, and the theorem at it.
use moex_tinvest_bot.Base.{◌+◌, ◌*◌, ◌≡◌, ◌≢◌, refl, none, some, false, [], ◌∷◌}
use moex_tinvest_bot.Base.Result.{ok}
use moex_tinvest_bot.Domain.{Text, aware, OrderIntent}
use moex_tinvest_bot.Journal.{Journal, review_required, reserve, insert_row}
use moex_tinvest_bot.Journal.Legacy.{
  LegacyEntry, Quarantined, stage_legacy, stage_in, stage_by, stage_entries, stage_entry,
  stage_legacy_lem,
}
use moex_tinvest_bot.Samples.{buy_one, filled_as}

-- In place of a hash.
abbrev digest : OrderIntent → Text
digest o = o.order_request_id * 100 + o.lots

abbrev candidate : Journal
candidate = record { migration = review_required; manifest = none; rows = [] }

abbrev old_order : LegacyEntry
old_order = record {
  legacy_account = 5;
  legacy_plan = 8;
  taken_at = aware 900;
  original = filled_as 61;
}

imports : (stage_legacy digest (old_order ∷ []) 77 candidate).0 ≡ ok tt
unfolding stage_legacy stage_in stage_by stage_entries stage_entry insert_row
imports = refl

stage_legacy_lem_example :
    let k = (stage_legacy digest (old_order ∷ []) 77 candidate).1 in
    Quarantined digest (old_order ∷ []) 77 candidate k
    × (stage_legacy digest [] 77 k ≡ (ok tt, k))
    × ((id : Text) → (reserve digest 5 buy_one 8 (aware 1000) false none 71 k).0 ≢ ok (some id))
stage_legacy_lem_example =
    stage_legacy_lem digest (old_order ∷ []) 77 candidate imports [] 5 buy_one 8 (aware 1000) false
      none 71
