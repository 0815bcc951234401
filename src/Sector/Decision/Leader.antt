-- ===== src/Sector/Decision/Leader.antt =====
-- strategy_sector_rotation.py: when the strategy leaves a falling ticker.
use mathlib.Core.Path.{subst}
use blackhole_network.Base.{
  ℕ, String, true, false, ◌&&◌, Option, none, some, List, ◌≡◌, ◌⊎◌, refl, sym, ap, arith, get,
  str_eq, eq_refl, Bool-cases, inl, inr,
}
use blackhole_network.Base.Int.{ℤ, pos, ◌≤ℤ◌, ◌<ℤ◌, ltb_ℤ, scale_parts}
use blackhole_network.Sector.Indicators.{SectorScore}
use blackhole_network.Sector.Signal.{Scores, SectorSignal, safe_ticker, signal_of}
use blackhole_network.Sector.Signal.Best.{signal_of-Best}
use blackhole_network.Sector.Decision.{
  score_val, final_of, beats, base_target, is_below, defended, from_best, decide_target,
}

-- A score below 0 is beaten by any that is not less, itself included.
beats_negative : (best s : ℤ) → s ≤ℤ best → s <ℤ pos 0 → beats best s ≡ true
beats_negative best s h n = ground (arith, scale_parts 11 s, scale_parts 10 best)

base_target-best :
    (best held : String) (t : ℤ) (scores : Scores)
    → str_eq held safe_ticker ≡ false
    → beats t (score_val held scores) ≡ true
    → base_target best t scores (some held) ≡ best
base_target-best best held t scores a b = rw (a, b) refl

defended-same :
    (signal : SectorSignal) (target : String)
    → is_below signal.spy_trend ≡ false
    → defended signal target ≡ target
defended-same signal target h = rw h refl

chosen :
    (signal : SectorSignal) (held b : String) (t : ℤ) (best : Option String) (score : Option ℤ)
    → best ≡ some b
    → score ≡ some t
    → base_target b t signal.scores (some held) ≡ b
    → is_below signal.spy_trend ≡ false
    → some (from_best signal (some held) best score) ≡ best
chosen signal held b t best score eb et base calm =
    rw (eb, et, base) (ap some (defended-same signal b calm))

-- While SPY is not known to be below its average, a holding with a score below 0 is never left for
-- the safe asset, however low the score is: the target is the best asset, which may be the holding.
pub decide_target-clings :
    (scores : Scores) (spy : Option (List ℕ)) (held : String) (s : SectorScore)
    → get held scores ≡ some s
    → s.final_score <ℤ pos 0
    → str_eq held safe_ticker ≡ false
    → is_below (signal_of scores spy).spy_trend ≡ false
    → some (decide_target (signal_of scores spy) (some held)) ≡ (signal_of scores spy).best_asset
unfolding decide_target signal_of
decide_target-clings scores spy held s found low risk calm =
    let (b, t, eb, et, listed, up) = (signal_of-Best scores spy held s found).1 in
    let own : score_val held scores ≡ s.final_score = ap final_of found in
    let win : beats t (score_val held scores) ≡ true =
      subst (λ v. beats t v ≡ true) (sym own) (beats_negative t s.final_score up low) in
    let base = base_target-best b held t scores risk win in
    chosen (signal_of scores spy) held b t _ _ eb et base calm

defended-safe :
    (signal : SectorSignal) (target : String)
    → is_below signal.spy_trend ≡ true
    → let t = defended signal target in
      (str_eq t safe_ticker ≡ true) ⊎ (pos 0 ≤ℤ score_val t signal.scores)
defended-safe signal target h = elim (Bool-cases (str_eq target safe_ticker)) [
  | inl e ↦ rw (h, e) (inl e)
  | inr e ↦ elim (Bool-cases (ltb_ℤ (pos 0) uup && ltb_ℤ own uup)) [
    | inl c ↦ rw (h, e, c) (inr (ground arith))
    | inr c ↦ elim (Bool-cases (ltb_ℤ own (pos 0))) [
      | inl d ↦ rw (h, e, c, d) (inl (eq_refl safe_ticker))
      | inr d ↦ rw (h, e, c, d) (inr (ground arith))
    ]
  ]
]
  where
    uup : ℤ
    uup = score_val "UUP" signal.scores

    own : ℤ
    own = score_val target signal.scores

-- With SPY below its average the target is the safe asset, or its score is not below 0.
pub decide_target-defends :
    (signal : SectorSignal) (held : Option String)
    → is_below signal.spy_trend ≡ true
    → let t = decide_target signal held in
      (str_eq t safe_ticker ≡ true) ⊎ (pos 0 ≤ℤ score_val t signal.scores)
unfolding decide_target
decide_target-defends signal held h = from signal.best_asset signal.best_score
  where
    from :
        (best : Option String) (score : Option ℤ)
        → let t = from_best signal held best score in
          (str_eq t safe_ticker ≡ true) ⊎ (pos 0 ≤ℤ score_val t signal.scores)
    from none score = inl (eq_refl safe_ticker)
    from (some b) none = inl (eq_refl safe_ticker)
    from (some b) (some t) = defended-safe signal (base_target b t signal.scores held) h
