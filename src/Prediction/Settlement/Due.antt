-- ===== src/Prediction/Settlement/Due.antt =====
-- prediction_settlement.py, _settleable_bets: the bets that are due, each once and as the table holds them.
use blackhole_network.Base.{
  ℕ, true, ◌&&◌, Option, none, some, List, [], ◌∷◌, ◌≡◌, ◌≢◌, refl, sym, arith, All, All-map, ltb,
  Bool-cases, Option-cases, inl, inr,
}
use blackhole_network.Prediction.Types.{
  Bet, BetStatus, bet_open, bet_won, bet_lost, bet_voided, Contract,
}
use blackhole_network.Prediction.Settlement.{
  Due, due_on, insert_due, insert_all, find_contract, is_open_bet, settleable_bets,
}

-- Every row of the table with the id of the bet is that bet, still open.
abbrev pub IsCurrent : List Bet → Bet → Type 0
IsCurrent bets b = (b.status ≡ bet_open) × All (λ r. r.id ≡ b.id → r ≡ b) bets

abbrev pub bet_of : Due → Bet
bet_of (day, ticker, b) = b

abbrev pub Distinct : List Due → Type 0
Distinct [] = Unit
Distinct (x ∷ xs) = All (λ y. (bet_of y).id ≢ (bet_of x).id) xs × Distinct xs

-- The ids of the table are those of different rows, as its primary key has it.
abbrev pub UniqueIds : List Bet → Type 0
UniqueIds [] = Unit
UniqueIds (b ∷ bs) = All (λ r. r.id ≢ b.id) bs × UniqueIds bs

is_open_bet-open : (st : BetStatus) → is_open_bet st ≡ true → st ≡ bet_open
is_open_bet-open bet_open h = refl
is_open_bet-open bet_won h = absurd (ground arith)
is_open_bet-open bet_lost h = absurd (ground arith)
is_open_bet-open bet_voided h = absurd (ground arith)

module _ (P : Due → Type 0) where
  insert_due-All : (x : Due) (ys : List Due) → P x → All P ys → All P (insert_due x ys)
  insert_due-All x [] p h = (p, tt)
  insert_due-All x (y ∷ ys) p h = elim (Bool-cases (ltb y.0 x.0)) [
    | inl e ↦ rw e (h.0, insert_due-All x ys p h.1)
    | inr e ↦ rw e (p, h)
  ]

  insert_all-All : (xs ys : List Due) → All P xs → All P ys → All P (insert_all xs ys)
  insert_all-All [] ys h k = k
  insert_all-All (x ∷ xs) ys h k =
      insert_due-All x (insert_all xs ys) h.0 (insert_all-All xs ys h.1 k)

  due_on-All :
      (today : ℕ) (b : Bet) (c : Option Contract)
      → ((row : Contract) → c ≡ some row → (day : ℕ) → P (day, row.ticker, b))
      → All P (due_on today b c)
  due_on-All today b none h = tt
  due_on-All today b (some c) h = elim (Option-cases c.resolution_day) [
    | inl e ↦ rw e tt
    | inr (day, e) ↦
        rw e
          (elim (Bool-cases (ltb day today)) [ inl f ↦ rw f (h c refl day, tt) | inr f ↦ rw f tt ])
  ]

  pub settleable_bets-All :
      (today : ℕ) (contracts : List Contract) (bets : List Bet)
      → All
          (λ b.
            b.status ≡ bet_open
            → (row : Contract) → find_contract b.contract_id contracts ≡ some row
            → (day : ℕ) → P (day, row.ticker, b))
          bets
      → All P (settleable_bets today contracts bets)
  unfolding settleable_bets
  settleable_bets-All today contracts [] h = tt
  settleable_bets-All today contracts (b ∷ bs) h =
      let rest = settleable_bets-All today contracts bs h.1 in
      elim (Bool-cases (is_open_bet b.status && b.on_kalshi)) [
        | inl e ↦ rw e (
            insert_all-All (due_on today b (find_contract b.contract_id contracts))
              (settleable_bets today contracts bs)
              (due_on-All today b (find_contract b.contract_id contracts)
                (h.0 (is_open_bet-open b.status (ground arith))))
              rest)
        | inr e ↦ rw e rest
      ]

insert_due-Distinct :
    (x : Due) (ys : List Due)
    → All (λ y. (bet_of y).id ≢ (bet_of x).id) ys
    → Distinct ys
    → Distinct (insert_due x ys)
insert_due-Distinct x [] n h = (tt, tt)
insert_due-Distinct x (y ∷ ys) n h = elim (Bool-cases (ltb y.0 x.0)) [
  | inl e ↦ rw e (
    insert_due-All (λ z. (bet_of z).id ≢ (bet_of y).id) x ys (λ q. n.0 (sym q)) h.0,
    insert_due-Distinct x ys n.1 h.1,
  )
  | inr e ↦ rw e (n, h)
]

due_on-Distinct :
    (today : ℕ) (b : Bet) (c : Option Contract) (ys : List Due)
    → All (λ y. (bet_of y).id ≢ b.id) ys
    → Distinct ys
    → Distinct (insert_all (due_on today b c) ys)
due_on-Distinct today b none ys n h = h
due_on-Distinct today b (some c) ys n h = elim (Option-cases c.resolution_day) [
  | inl e ↦ rw e h
  | inr (day, e) ↦ rw e (elim (Bool-cases (ltb day today)) [
    | inl f ↦ rw f (insert_due-Distinct (day, c.ticker, b) ys n h)
    | inr f ↦ rw f h
  ])
]

pub settleable_bets-Distinct :
    (today : ℕ) (contracts : List Contract) (bets : List Bet)
    → UniqueIds bets
    → Distinct (settleable_bets today contracts bets)
unfolding settleable_bets
settleable_bets-Distinct today contracts [] u = tt
settleable_bets-Distinct today contracts (b ∷ bs) u =
    let rest = settleable_bets-Distinct today contracts bs u.1 in
    elim (Bool-cases (is_open_bet b.status && b.on_kalshi)) [
      | inl e ↦ rw e (
          due_on-Distinct today b (find_contract b.contract_id contracts)
            (settleable_bets today contracts bs)
            (settleable_bets-All (λ y. (bet_of y).id ≢ b.id) today contracts bs
              (All-map (λ r. r.id ≢ b.id)
                (λ r.
                  r.status ≡ bet_open
                  → (row : Contract) → find_contract r.contract_id contracts ≡ some row
                  → (day : ℕ) → r.id ≢ b.id)
                bs (λ r n h row e day. n) u.0))
            rest)
      | inr e ↦ rw e rest
    ]

UniqueIds-IsCurrent :
    (bets : List Bet) → UniqueIds bets → All (λ b. b.status ≡ bet_open → IsCurrent bets b) bets
UniqueIds-IsCurrent [] u = tt
UniqueIds-IsCurrent (b ∷ bs) u = (
  λ h. (
    h,
    (
      (λ q. refl),
      All-map (λ r. r.id ≢ b.id) (λ r. r.id ≡ b.id → r ≡ b) bs (λ r n q. absurd (n q)) u.0,
    ),
  ),
  both bs u.0 (UniqueIds-IsCurrent bs u.1),
)
  where
    both :
        (rs : List Bet)
        → All (λ r. r.id ≢ b.id) rs
        → All (λ r. r.status ≡ bet_open → IsCurrent bs r) rs
        → All (λ r. r.status ≡ bet_open → IsCurrent (b ∷ bs) r) rs
    both [] n h = tt
    both (r ∷ rs) n h = (λ q. (q, ((λ e. absurd (n.0 (sym e))), (h.0 q).1)), both rs n.1 h.1)

-- The bet is as the table holds it, and the ticker is that of its contract.
abbrev pub IsDue : List Contract → List Bet → Due → Type 0
IsDue contracts bets (day, ticker, b) =
    IsCurrent bets b
    × ((row : Contract) × (find_contract b.contract_id contracts ≡ some row)
        × (row.ticker ≡ ticker))

pub settleable_bets-IsDue :
    (today : ℕ) (contracts : List Contract) (bets : List Bet)
    → UniqueIds bets
    → All (IsDue contracts bets) (settleable_bets today contracts bets)
settleable_bets-IsDue today contracts bets u =
    settleable_bets-All (IsDue contracts bets) today contracts bets (
      All-map (λ b. b.status ≡ bet_open → IsCurrent bets b)
        (λ b.
          b.status ≡ bet_open
          → (row : Contract) → find_contract b.contract_id contracts ≡ some row
          → (day : ℕ) → IsDue contracts bets (day, row.ticker, b))
        bets (λ b h q row e day. (h q, (row, e, refl))) (UniqueIds-IsCurrent bets u))
