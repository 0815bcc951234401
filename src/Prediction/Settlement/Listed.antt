-- ===== src/Prediction/Settlement/Listed.antt =====
-- prediction_settlement.py: the bets that are due against the list of those that are being settled.
use mathlib.Core.Path.{subst}
use blackhole_network.Base.{
  ℕ, String, Bool, true, false, not, ◌&&◌, ◌||◌, Option, none, some, is_some, List, [], ◌∷◌, ◌≡◌,
  refl, sym, All-map, ◌∙◌, arith, All, ltb, ◌==◌, Bool-cases, Option-cases, inl, inr,
}
use blackhole_network.Prediction.Types.{Side, Bet, Contract}
use blackhole_network.Prediction.Outcome.{Outcome, settled_yes, settled_no, voided}
use blackhole_network.Prediction.Payout.{wins, compute_payout}
use blackhole_network.Prediction.Settlement.{
  Due, update_bet, update_contract_resolution, settleable_bets, due_on, insert_due, insert_all,
  find_contract, is_open_bet,
}
use blackhole_network.Prediction.Settlement.Due.{bet_of}

abbrev pub is_ripe : ℕ → Option Contract → Bool
is_ripe today none = false
is_ripe today (some c) = elim c.resolution_day [ none ↦ false | some day ↦ ltb day today ]

-- The bet is open, on Kalshi, and the day of its contract is past.
abbrev pub is_due : ℕ → List Contract → Bet → Bool
is_due today contracts b =
    (is_open_bet b.status && b.on_kalshi) && is_ripe today (find_contract b.contract_id contracts)

abbrev pub is_listed : ℕ → List Due → Bool
is_listed id [] = false
is_listed id (x ∷ xs) = (bet_of x).id == id || is_listed id xs

-- Every bet that is due is listed.
abbrev pub Listed : ℕ → List Contract → List Due → List Bet → Type 0
Listed today contracts due bets =
    All (λ b. is_due today contracts b ≡ true → is_listed b.id due ≡ true) bets

find_contract-ripe :
    (today id cid : ℕ) (k : Outcome) (cs : List Contract)
    → is_ripe today (find_contract id (update_contract_resolution cid k cs))
      ≡ is_ripe today (find_contract id cs)
unfolding update_contract_resolution
find_contract-ripe today id cid k [] = refl
find_contract-ripe today id cid k (c ∷ cs) =
    let rest = find_contract-ripe today id cid k cs in
    elim (Bool-cases (c.id == cid && not (is_some c.resolved))) [
      | inl e ↦ rw e (elim (Bool-cases (c.id == id)) [ inl f ↦ rw f refl | inr f ↦ rw f rest ])
      | inr e ↦ rw e (elim (Bool-cases (c.id == id)) [ inl f ↦ rw f refl | inr f ↦ rw f rest ])
    ]

compute_payout-closes :
    (side : Side) (stake entry : ℕ) (k : Outcome)
    → is_open_bet (compute_payout side stake entry k).status ≡ false
unfolding compute_payout
compute_payout-closes side stake entry voided = refl
compute_payout-closes side stake entry settled_yes = closed
  where
    closed : is_open_bet (compute_payout side stake entry settled_yes).status ≡ false
    closed = elim (Bool-cases (entry == 0)) [
      | inl e ↦ rw e refl
      | inr e ↦
          rw e (elim (Bool-cases (wins side settled_yes)) [ inl f ↦ rw f refl | inr f ↦ rw f refl ])
    ]
compute_payout-closes side stake entry settled_no = elim (Bool-cases (entry == 0)) [
  | inl e ↦ rw e refl
  | inr e ↦
      rw e (elim (Bool-cases (wins side settled_no)) [ inl f ↦ rw f refl | inr f ↦ rw f refl ])
]

module _ (today : ℕ) where
  insert_due-listed :
      (id : ℕ) (x : Due) (ys : List Due) → is_listed id (insert_due x ys) ≡ is_listed id (x ∷ ys)
  insert_due-listed id x [] = refl
  insert_due-listed id x (y ∷ ys) =
      let rest = insert_due-listed id x ys in
      elim (Bool-cases (ltb y.0 x.0)) [ inl e ↦ rw (e, rest) (ground arith) | inr e ↦ rw e refl ]

  ripe_none : (c : Contract) → c.resolution_day ≡ none → is_ripe today (some c) ≡ false
  ripe_none c e = rw e refl

  ripe_some :
      (c : Contract) (day : ℕ)
      → c.resolution_day ≡ some day
      → is_ripe today (some c) ≡ ltb day today
  ripe_some c day e = rw e refl

  absurd_bool {ℓ} : {A : Type ℓ} → false ≡ true → A
  absurd_bool h = absurd (ground arith)

  due_on-listed :
      (b : Bet) (c : Option Contract) (ys : List Due)
      → is_ripe today c ≡ true
      → is_listed b.id (insert_all (due_on today b c) ys) ≡ true
  due_on-listed b none ys h = absurd (ground arith)
  due_on-listed b (some c) ys h = elim (Option-cases c.resolution_day) [
    | inl e ↦ absurd_bool (sym (ripe_none c e) ∙ h)
    | inr (day, e) ↦
        let f : ltb day today ≡ true = sym (ripe_some c day e) ∙ h in
        rw (e, f) (insert_due-listed b.id (day, c.ticker, b) ys ∙ ground arith)
  ]

  due_on-keeps :
      (id : ℕ) (b : Bet) (c : Option Contract) (ys : List Due)
      → is_listed id ys ≡ true
      → is_listed id (insert_all (due_on today b c) ys) ≡ true
  due_on-keeps id b none ys h = h
  due_on-keeps id b (some c) ys h = elim (Option-cases c.resolution_day) [
    | inl e ↦ rw e h
    | inr (day, e) ↦ rw e (elim (Bool-cases (ltb day today)) [
      | inl f ↦ rw f (insert_due-listed id (day, c.ticker, b) ys ∙ ground arith)
      | inr f ↦ rw f h
    ])
  ]

  pub settleable_bets-Listed :
      (contracts : List Contract) (bets : List Bet)
      → Listed today contracts (settleable_bets today contracts bets) bets
  unfolding settleable_bets
  settleable_bets-Listed contracts [] = tt
  settleable_bets-Listed contracts (b ∷ bs) =
      let later = settleable_bets-Listed contracts bs in
      let listed = settleable_bets today contracts bs in
      let found = find_contract b.contract_id contracts in
      let Keeps = λ (rows : List Due). Listed today contracts rows (b ∷ bs) in
      elim (Bool-cases (is_open_bet b.status && b.on_kalshi)) [
        | inl e ↦
            let same : settleable_bets today contracts (b ∷ bs)
                ≡ insert_all (due_on today b found) listed =
              rw e refl in
            subst Keeps (sym same) (
              (λ q. due_on-listed b found listed (ground arith)),
              All-map (λ r. is_due today contracts r ≡ true → is_listed r.id listed ≡ true)
                  (λ r.
                    is_due today contracts r ≡ true
                    → is_listed r.id (insert_all (due_on today b found) listed) ≡ true)
                  bs (λ r h q. due_on-keeps r.id b found listed (h q)) later,
            )
        | inr e ↦
            let same : settleable_bets today contracts (b ∷ bs) ≡ listed = rw e refl in
            subst Keeps (sym same) ((λ q. absurd (ground arith)), later)
      ]

  pub Listed-update :
      (b : Bet) (day : ℕ) (ticker : String) (k : Outcome) (contracts : List Contract)
      (rest : List Due) (bets : List Bet)
      → Listed today contracts ((day, ticker, b) ∷ rest) bets
      → Listed today
          (update_contract_resolution b.contract_id k contracts)
          rest
          (update_bet b.id (compute_payout b.side b.stake b.entry_price k) bets)
  unfolding update_bet
  Listed-update b day ticker k contracts rest [] h = tt
  Listed-update b day ticker k contracts rest (r ∷ rs) h = (
    elim (Bool-cases (r.id == b.id)) [
      | inl e ↦ rw (e, compute_payout-closes b.side b.stake b.entry_price k) (λ q. absurd_bool q)
      | inr e ↦
          rw (e, find_contract-ripe today r.contract_id b.contract_id k contracts)
            (λ q. unlisted e (h.0 q))
    ],
    Listed-update b day ticker k contracts rest rs h.1,
  )
    where
      unlisted :
          (r.id == b.id) ≡ false
          → is_listed r.id ((day, ticker, b) ∷ rest) ≡ true
          → is_listed r.id rest ≡ true
      unlisted e q = ground arith

  due_on-empty : (b : Bet) (c : Option Contract) → is_ripe today c ≡ false → due_on today b c ≡ []
  due_on-empty b none h = refl
  due_on-empty b (some c) h = elim (Option-cases c.resolution_day) [
    | inl e ↦ rw e refl
    | inr (day, e) ↦ let f : ltb day today ≡ false = sym (ripe_some c day e) ∙ h in rw (e, f) refl
  ]

  pub Listed-done :
      (contracts : List Contract) (bets : List Bet)
      → Listed today contracts [] bets
      → settleable_bets today contracts bets ≡ []
  unfolding settleable_bets
  Listed-done contracts [] h = refl
  Listed-done contracts (b ∷ bs) h = elim (Bool-cases (is_open_bet b.status && b.on_kalshi)) [
    | inl e ↦
        rw
          (
            e,
            due_on-empty b (find_contract b.contract_id contracts) (unripe e),
            Listed-done contracts bs h.1,
          )
          refl
    | inr e ↦ rw e (Listed-done contracts bs h.1)
  ]
    where
      unripe :
          (is_open_bet b.status && b.on_kalshi) ≡ true
          → is_ripe today (find_contract b.contract_id contracts) ≡ false
      unripe e = elim (Bool-cases (is_ripe today (find_contract b.contract_id contracts))) [
        | inl f ↦ absurd_bool (h.0 (rw (e, f) refl))
        | inr f ↦ f
      ]
