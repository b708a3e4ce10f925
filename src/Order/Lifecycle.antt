-- ===== src/Order/Lifecycle.antt =====
-- Runs of `transition_order`: what any sequence of updates can do to an order.
use moex_tinvest_bot.Base.{ℕ, ◌≤◌, ◌≡◌, ◌⊎◌, inl, inr, refl, ◌∙◌, Bool, true, false, Option, arith}
use moex_tinvest_bot.Base.Result.{ok}
use moex_tinvest_bot.Domain.{
  Text, OrderStatus, OrderRecord, planned, validated, submitted, accepted, rejected, filled,
  partially_filled, cancelled, unknown, is_terminal,
}
use moex_tinvest_bot.Order.{transition_order, is_allowed}

-- Some call of `transition_order` turns the first record into the second.
pub data Step (r : OrderRecord) (r' : OrderRecord) : Type 0 where
  update :
      (s : OrderStatus) (lots : Option ℕ) (id : Option Text)
      → transition_order r s lots id ≡ ok r'
      → Step r r'

pub data Reach (r : OrderRecord) : OrderRecord → Type 0 where
  here : Reach r r
  next : {s t : OrderRecord} → Reach r s → Step s t → Reach r t

pub record IsConsistent (r : OrderRecord) : Type 0 where
  pub within : r.filled_lots ≤ r.intent.lots
  pub complete : r.status ≡ filled → r.filled_lots ≡ r.intent.lots

Step-grows :
    {r r' : OrderRecord}
    → Step r r'
    → (r.filled_lots ≤ r'.filled_lots)
      × (r'.intent ≡ r.intent)
      × (is_allowed r.status r'.status ≡ true)
      × IsConsistent r'
unfolding transition_order
Step-grows (update s lots id h) = ground arith

Reach-IsConsistent : {r t : OrderRecord} → IsConsistent r → Reach r t → IsConsistent t
Reach-IsConsistent c here = c
Reach-IsConsistent c (next _ st) = (Step-grows st).3

-- Over any sequence of accepted updates the order itself never changes, the executed quantity never
-- falls, and a consistent record stays consistent: its executed quantity is at most its lots, and
-- all of them where its status is filled.
pub Reach-grows :
    {r t : OrderRecord}
    → IsConsistent r
    → Reach r t
    → (t.intent ≡ r.intent) × (r.filled_lots ≤ t.filled_lots) × IsConsistent t
Reach-grows c here = (refl, omega arith, c)
Reach-grows c (next run st) =
    let (same, grown, _) = Reach-grows c run in
    let (grown', same', _, c') = Step-grows st in (same' ∙ same, omega arith, c')

-- No sequence of updates changes an order that is filled, cancelled or rejected.
pub Reach-terminal : {r t : OrderRecord} → is_terminal r.status ≡ true → Reach r t → t ≡ r
Reach-terminal h here = refl
Reach-terminal {r} h (next {s = s} run st) =
    let same = Reach-terminal h run in ground (arith, (Step-grows st).2)

-- A status that only a broker's answer, or its absence, can give.
abbrev pub is_broker_status : OrderStatus → Bool
is_broker_status accepted = true
is_broker_status partially_filled = true
is_broker_status filled = true
is_broker_status cancelled = true
is_broker_status unknown = true
is_broker_status _ = false

Step-into_broker :
    {r t : OrderRecord}
    → Step r t
    → is_broker_status t.status ≡ true
    → (is_broker_status r.status ≡ true) ⊎ (r.status ≡ submitted)
Step-into_broker {r} {t} st h = allowed_into r.status t.status (Step-grows st).2 h
  where
    allowed_into :
        (a b : OrderStatus)
        → is_allowed a b ≡ true
        → is_broker_status b ≡ true
        → (is_broker_status a ≡ true) ⊎ (a ≡ submitted)
    allowed_into planned b p q = ground arith
    allowed_into validated b p q = ground arith
    allowed_into submitted b p q = inr refl
    allowed_into rejected b p q = ground arith
    allowed_into _ b p q = ground arith

-- An order that starts as planned and is seen as accepted, partially filled, filled, cancelled or
-- unknown was submitted on the way.
pub Reach-submitted :
    {r t : OrderRecord}
    → r.status ≡ planned
    → Reach r t
    → is_broker_status t.status ≡ true
    → (s : OrderRecord) × Reach r s × (s.status ≡ submitted) × Reach s t
Reach-submitted p here h = absurd (ground arith)
Reach-submitted p (next {s = u} run st) h = elim (Step-into_broker st h) [
  | inl late ↦
      let (s, before, sub, after) = Reach-submitted p run late in (s, before, sub, next after st)
  | inr sub ↦ (u, run, sub, next here st)
]
