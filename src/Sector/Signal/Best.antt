-- ===== src/Sector/Signal/Best.antt =====
-- sector_signal.py: the best asset of a signal.
use mathlib.Core.Path.{subst}
use blackhole_network.Base.{
  ℕ, String, true, false, Option, none, some, List, [], ◌∷◌, ◌≡◌, ◌⊎◌, refl, ap, arith, All,
  All-map, get, str_eq, Bool-cases, inl, inr,
}
use blackhole_network.Base.Int.{ℤ, ◌≤ℤ◌, ltb_ℤ}
use blackhole_network.Sector.Indicators.{SectorScore}
use blackhole_network.Sector.Signal.{
  Scores, SectorSignal, insert_asset, sort_assets, best_of, best_score_of, signal_of,
}

-- No score is above the one before it.
abbrev pub Descending : List (String × ℤ) → Type 0
Descending [] = Unit
Descending ((k, s) ∷ rest) = All (λ a. a.1 ≤ℤ s) rest × Descending rest

insert_asset-All :
    (P : String × ℤ → Type 0) (a : String × ℤ) (items : List (String × ℤ))
    → P a
    → All P items
    → All P (insert_asset a items)
unfolding insert_asset
insert_asset-All P a [] h k = (h, tt)
insert_asset-All P (k, s) ((j, t) ∷ rest) h q = elim (Bool-cases (ltb_ℤ s t)) [
  | inl e ↦ rw e (q.0, insert_asset-All P (k, s) rest h q.1)
  | inr e ↦ rw e (h, q)
]

insert_asset-Descending :
    (a : String × ℤ) (items : List (String × ℤ))
    → Descending items
    → Descending (insert_asset a items)
unfolding insert_asset
insert_asset-Descending a [] h = (tt, tt)
insert_asset-Descending (k, s) ((j, t) ∷ rest) h = elim (Bool-cases (ltb_ℤ s t)) [
  | inl e ↦ rw e (
    insert_asset-All (λ a. a.1 ≤ℤ t) (k, s) rest (ground arith) h.0,
    insert_asset-Descending (k, s) rest h.1,
  )
  | inr e ↦
      rw e
        ((ground arith, All-map (λ a. a.1 ≤ℤ t) (λ a. a.1 ≤ℤ s) rest (λ a q. ground arith) h.0), h)
]

abbrev Heads : ℤ → List (String × ℤ) → Type 0
Heads s [] = true ≡ false
Heads s ((k, t) ∷ rest) = s ≤ℤ t

insert_asset-Heads_new :
    (k : String) (s : ℤ) (items : List (String × ℤ)) → Heads s (insert_asset (k, s) items)
unfolding insert_asset
insert_asset-Heads_new k s [] = omega arith
insert_asset-Heads_new k s ((j, t) ∷ rest) = ground arith

insert_asset-Heads_old :
    (k : String) (s u : ℤ) (items : List (String × ℤ))
    → Heads u items
    → Heads u (insert_asset (k, s) items)
unfolding insert_asset
insert_asset-Heads_old k s u [] h = absurd (ground arith)
insert_asset-Heads_old k s u ((j, t) ∷ rest) h = ground arith

or_else : SectorScore → Option SectorScore → SectorScore
or_else d none = d
or_else d (some u) = u

get-Heads :
    (k : String) (s : SectorScore) (scores : Scores)
    → get k scores ≡ some s
    → Heads s.final_score (sort_assets scores)
unfolding sort_assets or_else
get-Heads k s [] h = absurd (cc h)
get-Heads k s ((j, u) ∷ rest) h = elim (Bool-cases (str_eq j k)) [
  | inl e ↦
      let here : some u ≡ some s = rw e at h in
      subst (λ v. Heads v.final_score (insert_asset (j, u.final_score) (sort_assets rest)))
        (ap (or_else s) here) (insert_asset-Heads_new j u.final_score (sort_assets rest))
  | inr e ↦
      insert_asset-Heads_old j u.final_score s.final_score (sort_assets rest)
        (get-Heads k s rest (rw e at h))
]

-- A ticker with the score stands in the dict.
abbrev pub Listed : String → ℤ → Scores → Type 0
Listed k s [] = true ≡ false
Listed k s ((j, u) ∷ rest) = ((j ≡ k) × (u.final_score ≡ s)) ⊎ Listed k s rest

abbrev Ranked : Scores → String × ℤ → Type 0
Ranked scores (k, s) = Listed k s scores

sort_assets-Ranked : (scores : Scores) → All (Ranked scores) (sort_assets scores)
unfolding sort_assets
sort_assets-Ranked [] = tt
sort_assets-Ranked ((k, s) ∷ rest) =
    insert_asset-All (Ranked ((k, s) ∷ rest)) (k, s.final_score) (sort_assets rest)
      (inl (refl, refl))
      (All-map (Ranked rest) (Ranked ((k, s) ∷ rest)) (sort_assets rest) (λ a h. inr h)
        (sort_assets-Ranked rest))

sort_assets-Descending : (scores : Scores) → Descending (sort_assets scores)
unfolding sort_assets
sort_assets-Descending [] = tt
sort_assets-Descending ((k, s) ∷ rest) =
    insert_asset-Descending (k, s.final_score) (sort_assets rest) (sort_assets-Descending rest)

-- The best asset has the best score, which is in the scores, and no less than a given score.
abbrev pub Best : Scores → SectorSignal → ℤ → Type 0
Best scores signal s =
    (b : String) × (t : ℤ) × (signal.best_asset ≡ some b)
    × (signal.best_score ≡ some t)
    × Listed b t scores
    × (s ≤ℤ t)

-- The assets are in falling order of their scores; and where a ticker has a score, the signal has a
-- best asset, a scored ticker whose score is the best score and is no less than the ticker's.
pub signal_of-Best :
    (scores : Scores) (spy : Option (List ℕ)) (k : String) (s : SectorScore)
    → get k scores ≡ some s
    → Descending (signal_of scores spy).sorted_assets
      × Best scores (signal_of scores spy) s.final_score
unfolding signal_of
signal_of-Best scores spy k s h = (
  sort_assets-Descending scores,
  first (sort_assets scores) (sort_assets-Ranked scores) (get-Heads k s scores h),
)
  where
    first :
        (items : List (String × ℤ))
        → All (Ranked scores) items
        → Heads s.final_score items
        → (b : String) × (t : ℤ) × (best_of items ≡ some b)
          × (best_score_of items ≡ some t)
          × Listed b t scores
          × (s.final_score ≤ℤ t)
    first [] r q = absurd (ground arith)
    first ((b, t) ∷ rest) r q = (b, t, refl, refl, r.0, q)
