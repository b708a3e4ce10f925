-- ===== src/Strategy/Selected.antt =====
-- Which instruments the strategy selects.
use moex_tinvest_bot.Base.{
  ℕ, zero, suc, Bool, true, false, ◌&&◌, ◌||◌, List, [], ◌∷◌, ◌++◌, ◌+◌, ◌-◌, ◌≤◌, ◌≡◌, refl, ap,
  ◌∙◌, arith, leb, ◌==◌, max, keep, take, any, all, count, any-append, if◌then◌else◌, Bool-cases,
  inl, inr,
}
use moex_tinvest_bot.Base.Result.{⊤}
use moex_tinvest_bot.Domain.{Text}
use moex_tinvest_bot.Config.{StrategyConfig}
use moex_tinvest_bot.Portfolio.{member, MarketObservation}
use moex_tinvest_bot.Strategy.{
  secid_of, is_long_eligible, is_short_eligible, before_long, before_short, ranked, insert_ranked,
  retained, put_item, by_secid, select, selected_long, selected_short,
}

abbrev pub named : Text → MarketObservation → Bool
named k o = secid_of o == k

abbrev pub has_name : Text → List MarketObservation → Bool
has_name k = any (named k)

module _ (before : MarketObservation → MarketObservation → Bool) where
  any-insert_ranked :
      (p : MarketObservation → Bool) (x : MarketObservation) (ys : List MarketObservation)
      → any p (insert_ranked before x ys) ≡ (p x || any p ys)
  any-insert_ranked p x [] = refl
  any-insert_ranked p x (y ∷ ys) = ground (arith, any-insert_ranked p x ys)

  any-ranked :
      (p : MarketObservation → Bool) (xs : List MarketObservation)
      → any p (ranked before xs) ≡ any p xs
  any-ranked p [] = refl
  any-ranked p (x ∷ xs) =
      any-insert_ranked p x (ranked before xs) ∙ ap (λ (b : Bool). p x || b) (any-ranked p xs)

  count-insert_ranked :
      (p : MarketObservation → Bool) (x : MarketObservation) (ys : List MarketObservation)
      → count p (insert_ranked before x ys) ≡ (if p x then 1 else 0) + count p ys
  count-insert_ranked p x [] = refl
  count-insert_ranked p x (y ∷ ys) = ground (arith, count-insert_ranked p x ys)

  count-ranked :
      (p : MarketObservation → Bool) (xs : List MarketObservation)
      → count p (ranked before xs) ≡ count p xs
  count-ranked p [] = refl
  count-ranked p (x ∷ xs) =
      ground (arith, count-insert_ranked p x (ranked before xs), count-ranked p xs)

  -- No item stands right after one that comes later in the order.
  abbrev pub IsRanked : List MarketObservation → Type 0
  IsRanked [] = ⊤
  IsRanked (x ∷ []) = ⊤
  IsRanked (x ∷ y ∷ ys) = (before y x ≡ false) × IsRanked (y ∷ ys)

  behind_if :
      (y z x : MarketObservation) (l m : List MarketObservation) (b : Bool)
      → before z y ≡ false
      → before x y ≡ false
      → IsRanked (if b then z ∷ l else x ∷ m)
      → IsRanked (y ∷ (if b then z ∷ l else x ∷ m))
  behind_if y z x l m true zy xy h = (zy, h)
  behind_if y z x l m false zy xy h = (xy, h)

  module _ (asym : (a b : MarketObservation) → before a b ≡ true → before b a ≡ false) where
    insert_ranked-IsRanked :
        (x : MarketObservation) (ys : List MarketObservation)
        → IsRanked ys
        → IsRanked (insert_ranked before x ys)
    insert_ranked-IsRanked x [] h = tt
    insert_ranked-IsRanked x (y ∷ []) h = elim (Bool-cases (before y x)) [
      | inl later ↦ rw later (asym y x later, tt)
      | inr earlier ↦ rw earlier (earlier, tt)
    ]
    insert_ranked-IsRanked x (y ∷ z ∷ zs) (yz, h) = elim (Bool-cases (before y x)) [
      | inr earlier ↦ rw earlier (earlier, (yz, h))
      | inl later ↦ rw later (
          behind_if y z x (insert_ranked before x zs) (z ∷ zs) (before z x) yz (asym y x later)
            (insert_ranked-IsRanked x (z ∷ zs) h))
    ]

    ranked-IsRanked : (xs : List MarketObservation) → IsRanked (ranked before xs)
    ranked-IsRanked [] = tt
    ranked-IsRanked (x ∷ xs) = insert_ranked-IsRanked x (ranked before xs) (ranked-IsRanked xs)

-- A name that is not in a list is counted nowhere, and by `put_item` it counts once.
count-put_item :
    (k : Text) (x : MarketObservation) (d : List MarketObservation)
    → count (named k) (put_item x d)
      ≡ (if named k x then max 1 (count (named k) d) else count (named k) d)
count-put_item k x [] = ground arith
count-put_item k x (y ∷ ys) = ground (arith, count-put_item k x ys)

any-put_item :
    (k : Text) (x : MarketObservation) (d : List MarketObservation)
    → has_name k (put_item x d) ≡ (named k x || has_name k d)
any-put_item k x [] = refl
any-put_item k x (y ∷ ys) = ground (arith, any-put_item k x ys)

count-by_secid :
    (k : Text) (d xs : List MarketObservation)
    → count (named k) d ≤ 1
    → count (named k) (by_secid d xs) ≤ 1
count-by_secid k d [] h = h
count-by_secid k d (x ∷ xs) h =
    count-by_secid k (put_item x d) xs (ground (arith, count-put_item k x d, h))

any-by_secid :
    (k : Text) (d xs : List MarketObservation)
    → has_name k (by_secid d xs) ≡ (has_name k d || has_name k xs)
any-by_secid k d [] = ground arith
any-by_secid k d (x ∷ xs) = ground (arith, any-by_secid k (put_item x d) xs, any-put_item k x d)

-- What every item of two lists passes, every item of the dictionary passes.
all-put_item :
    (p : MarketObservation → Bool) (x : MarketObservation) (d : List MarketObservation)
    → p x ≡ true
    → all p d ≡ true
    → all p (put_item x d) ≡ true
all-put_item p x [] h k = ground (arith, h)
all-put_item p x (y ∷ ys) h k = ground (arith, h, all-put_item p x ys h)

all-by_secid :
    (p : MarketObservation → Bool) (d xs : List MarketObservation)
    → all p d ≡ true
    → all p xs ≡ true
    → all p (by_secid d xs) ≡ true
all-by_secid p d [] h k = h
all-by_secid p d (x ∷ xs) h k =
    all-by_secid p (put_item x d) xs (all-put_item p x d (ground arith) h) (ground arith)

take-nil : (n : ℕ) → take {A = MarketObservation} n [] ≡ []
take-nil zero = refl
take-nil (suc n) = refl

same_member :
    (k : Text) (x : MarketObservation) (held : List Text)
    → named k x ≡ true
    → member (secid_of x) held ≡ member k held
same_member k x held h = ap (λ (t : Text). member t held) (ground arith)

all-take :
    (p : MarketObservation → Bool) (n : ℕ) (xs : List MarketObservation)
    → all p xs ≡ true
    → all p (take n xs) ≡ true
all-take p zero xs h = refl
all-take p (suc n) [] h = refl
all-take p (suc n) (x ∷ xs) h = ground (arith, all-take p n xs)

all-append :
    (p : MarketObservation → Bool) (xs ys : List MarketObservation)
    → all p xs ≡ true
    → all p ys ≡ true
    → all p (xs ++ ys) ≡ true
all-append p [] ys h k = k
all-append p (x ∷ xs) ys h k = ground (arith, all-append p xs ys)

all-retained :
    (p : MarketObservation → Bool) (held : List Text) (limit rank : ℕ) (xs : List MarketObservation)
    → all p xs ≡ true
    → all p (retained held limit rank xs) ≡ true
all-retained p held limit rank [] h = refl
all-retained p held limit rank (x ∷ xs) h =
    ground (arith, h, all-retained p held limit (rank + 1) xs)

all-insert_ranked :
    (before : MarketObservation → MarketObservation → Bool) (p : MarketObservation → Bool)
    (x : MarketObservation) (ys : List MarketObservation)
    → p x ≡ true
    → all p ys ≡ true
    → all p (insert_ranked before x ys) ≡ true
all-insert_ranked before p x [] h k = ground (arith, h)
all-insert_ranked before p x (y ∷ ys) h k = ground (arith, h, all-insert_ranked before p x ys h)

all-ranked :
    (before : MarketObservation → MarketObservation → Bool) (p : MarketObservation → Bool)
    (xs : List MarketObservation)
    → all p xs ≡ true
    → all p (ranked before xs) ≡ true
all-ranked before p [] h = refl
all-ranked before p (x ∷ xs) h =
    all-insert_ranked before p x (ranked before xs) (ground arith)
      (all-ranked before p xs (ground arith))

all-keep : (p : MarketObservation → Bool) (xs : List MarketObservation) → all p (keep p xs) ≡ true
all-keep p [] = refl
all-keep p (x ∷ xs) = ground (arith, all-keep p xs)

-- The retained items are the held ones among the first of the order.
any-retained :
    (k : Text) (held : List Text) (limit rank : ℕ) (xs : List MarketObservation)
    → has_name k (retained held limit rank xs)
      ≡ (member k held && has_name k (take (limit + 1 - rank) xs))
any-retained k held limit rank [] = rw (take-nil (limit + 1 - rank)) (ground arith)
any-retained k held limit rank (x ∷ xs) = elim (Bool-cases (leb rank limit)) [
  | inl within ↦
      let left : limit + 1 - rank ≡ suc (limit + 1 - (rank + 1)) = ground arith in
      rw left
        (ground (arith, within, any-retained k held limit (rank + 1) xs, same_member k x held))
  | inr beyond ↦
      let none_left : limit + 1 - rank ≡ 0 = ground arith in
      let none_later : limit + 1 - (rank + 1) ≡ 0 = ground arith in
      rw none_left (ground (arith, beyond, none_later, any-retained k held limit (rank + 1) xs))
]

any-first :
    (k : Text) (held : List Text) (limit : ℕ) (xs : List MarketObservation)
    → has_name k (retained held limit 1 xs) ≡ (member k held && has_name k (take limit xs))
any-first k held limit xs =
    let same : limit + 1 - 1 ≡ limit = omega arith in
    any-retained k held limit 1 xs ∙ ap (λ (n : ℕ). member k held && has_name k (take n xs)) same

-- What a selection from the eligible items of a side is: the names of the best `top_n`, and the held ones
-- of the best `top_n + buffer`, each once, in the order of the ranking.
pub record IsSelection (before : MarketObservation → MarketObservation → Bool)
    (eligible : MarketObservation → Bool) (held : List Text) (top_n buffer : ℕ)
    (os selected : List MarketObservation) : Type 0 where
  pub names :
      (k : Text)
      → has_name k selected ≡ (
          has_name k (take top_n (ranked before (keep eligible os)))
          || (member k held
              && has_name k (take (top_n + buffer) (ranked before (keep eligible os)))))
  pub once : (k : Text) → count (named k) selected ≤ 1
  pub only_eligible : all eligible selected ≡ true
  pub in_order : IsRanked before selected

select-IsSelection :
    (before : MarketObservation → MarketObservation → Bool) (eligible : MarketObservation → Bool)
    (held : List Text) (top_n buffer : ℕ) (os : List MarketObservation)
    → ((a b : MarketObservation) → before a b ≡ true → before b a ≡ false)
    → IsSelection before eligible held top_n buffer os
        (select before held top_n buffer (keep eligible os))
unfolding select
select-IsSelection before eligible held top_n buffer os asym =
    let order = ranked before (keep eligible os) in
    let kept = retained held (top_n + buffer) 1 order in
    let passed = all-ranked before eligible (keep eligible os) (all-keep eligible os) in
    record {
      names = λ k.
          any-ranked before (named k) (by_secid [] (take top_n order ++ kept))
          ∙ any-by_secid k [] (take top_n order ++ kept)
          ∙ any-append (named k) (take top_n order) kept
          ∙ ap (λ (b : Bool). has_name k (take top_n order) || b)
              (any-first k held (top_n + buffer) order);
      once = λ k. ground (
        arith,
        count-ranked before (named k) (by_secid [] (take top_n order ++ kept)),
        count-by_secid k [] (take top_n order ++ kept) (omega arith),
      );
      only_eligible = all-ranked before eligible (by_secid [] (take top_n order ++ kept)) (
          all-by_secid eligible [] (take top_n order ++ kept) refl (
            all-append eligible (take top_n order) kept (all-take eligible top_n order passed)
              (all-retained eligible held (top_n + buffer) 1 order passed)));
      in_order = ranked-IsRanked before asym (by_secid [] (take top_n order ++ kept));
    }

-- Of a list of observations, the long side selects the names among the `top_n` best eligible ones, and
-- the held names among the `top_n + exit_rank_buffer` best, each once and by falling momentum; it selects
-- eligible observations only. The short side does the same with its own conditions and `short_top_n`,
-- by rising momentum.
pub selected-IsSelection :
    (c : StrategyConfig) (held held_short : List Text) (os : List MarketObservation)
    → IsSelection before_long
        (is_long_eligible c)
        held
        c.top_n
        c.exit_rank_buffer
        os
        (selected_long c held os)
      × IsSelection before_short
          (is_short_eligible c)
          held_short
          c.short_top_n
          c.exit_rank_buffer
          os
          (selected_short c held_short os)
unfolding selected_long selected_short
selected-IsSelection c held held_short os = (
  select-IsSelection before_long (is_long_eligible c) held c.top_n c.exit_rank_buffer os
      (λ a b h. ground (arith, h)),
  select-IsSelection before_short (is_short_eligible c) held_short c.short_top_n c.exit_rank_buffer
      os (λ a b h. ground (arith, h)),
)
