-- ===== src/Daemon/Compare/Agreement.antt =====
-- reconciliation_daemon.py: no mismatch is reported exactly where the books agree.
use mathlib.Core.Path.{subst}
use blackhole_network.Base.{
  ◌*◌, ◌≤◌, String, Option, none, some, List, [], ◌∷◌, ◌++◌, ◌≡◌, ◌↔◌, refl, sym, arith, get,
  str_eq, eq_iff, Bool-cases, Option-cases, inl, inr,
}
use blackhole_network.Base.Int.{◌-ℤ◌, scale, abs}
use blackhole_network.Daemon.Sources.{Holding, Book}
use blackhole_network.Daemon.Compare.{
  Source, Difference, alpaca, pg, nj_cache, only_in_a, only_in_b, price_drifts, price_tolerance,
  missing_from, compare_holdings, compare_common, compare_pair, compare_three_sources,
}

-- One quantity, and prices that are at most half a cent apart.
abbrev pub Close : Holding → Holding → Type 0
Close a b =
    (a.qty ≡ b.qty)
    × (abs (
          scale b.avg_entry_price.den a.avg_entry_price.num
          -ℤ scale a.avg_entry_price.den b.avg_entry_price.num)
        ≤ price_tolerance * (a.avg_entry_price.den * b.avg_entry_price.den))

abbrev pub BothClose : Option Holding → Option Holding → Type 0
BothClose none none = Unit
BothClose none (some b) = ⊥
BothClose (some a) none = ⊥
BothClose (some a) (some b) = Close a b

-- Every ticker is in both books or in neither, and its holdings are close.
abbrev pub Agree : Book → Book → Type 0
Agree a b = (ticker : String) → BothClose (get ticker a) (get ticker b)

-- A dict has a key once.
abbrev pub KeysOnce : Book → Type 0
KeysOnce [] = Unit
KeysOnce ((k, v) ∷ d) = (get k d ≡ none) × KeysOnce d

append-nil : {A : Type 0} (xs ys : List A) → xs ++ ys ≡ [] → (xs ≡ []) × (ys ≡ [])
append-nil [] ys h = (refl, h)
append-nil (x ∷ xs) ys h = absurd (cc h)

module _ (na nb : Source) where
  missing_from-none :
      (d : Difference) (a b : Book) (ticker : String) (h : Holding)
      → missing_from na nb d a b ≡ []
      → get ticker a ≡ some h
      → (k : Holding) × (get ticker b ≡ some k)
  unfolding missing_from
  missing_from-none d [] b ticker h e f = absurd (cc f)
  missing_from-none d ((t, v) ∷ a) b ticker h e f = elim (Option-cases (get t b)) [
    | inl n ↦ absurd (ground arith)
    | inr (k, n) ↦ elim (Bool-cases (str_eq t ticker)) [
      | inl s ↦ (k, ground (arith, eq_iff t ticker))
      | inr s ↦ missing_from-none d a b ticker h (ground arith) (ground arith)
    ]
  ]

  compare_holdings-Close :
      (t : String) (h k : Holding) → compare_holdings na nb t h k ≡ [] ↔ Close h k
  unfolding price_drifts
  compare_holdings-Close t h k = (λ e. ground arith, λ e. ground arith)

  compare_common-Close :
      (a b : Book) (ticker : String) (h k : Holding)
      → compare_common na nb a b ≡ []
      → get ticker a ≡ some h
      → get ticker b ≡ some k
      → Close h k
  unfolding compare_common
  compare_common-Close [] b ticker h k e f g = absurd (cc f)
  compare_common-Close ((t, v) ∷ a) b ticker h k e f g = elim (Option-cases (get t b)) [
    | inl n ↦ compare_common-Close a b ticker h k (ground arith) (ground (arith, eq_iff t ticker)) g
    | inr (u, n) ↦
        let (here, later) =
          append-nil (compare_holdings na nb t v u) (compare_common na nb a b) (ground arith) in
        let close = (compare_holdings-Close t v u).0 here in
        elim (Bool-cases (str_eq t ticker)) [
          | inl s ↦
              let hv : v ≡ h = ground arith in
              let ku : u ≡ k = ground (arith, eq_iff t ticker) in rw (sym hv) (rw (sym ku) close)
          | inr s ↦ compare_common-Close a b ticker h k later (ground arith) g
        ]
  ]

  -- Books that are compared without a mismatch agree on every ticker.
  pub compare_pair-Agree : (a b : Book) → compare_pair na nb a b ≡ [] → Agree a b
  unfolding compare_pair
  compare_pair-Agree a b e ticker =
      let (ea, rest) = append-nil (missing_from na nb only_in_a a b) _ e in
      let (eb, ec) =
        append-nil (missing_from na nb only_in_b b a) (compare_common na nb a b) rest in
      elim (Option-cases (get ticker a)) [
        | inl x ↦ elim (Option-cases (get ticker b)) [
          | inl y ↦ rw x (rw y tt)
          | inr (k, y) ↦
              let (h, z) = missing_from-none only_in_b b a ticker k eb y in absurd (cc (x, z))
        ]
        | inr (h, x) ↦
            let (k, y) = missing_from-none only_in_a a b ticker h ea x in
            rw x (rw y (compare_common-Close a b ticker h k ec x y))
      ]

  -- The other direction, for a book whose keys stand once.
  missing_from-nil :
      (d : Difference) (a b : Book)
      → ((ticker : String) (h : Holding)
          → get ticker a ≡ some h
          → (k : Holding) × (get ticker b ≡ some k))
      → KeysOnce a
      → missing_from na nb d a b ≡ []
  unfolding missing_from
  missing_from-nil d [] b f u = refl
  missing_from-nil d ((t, v) ∷ a) b f u =
      let (k, e) = f t v (ground (arith, eq_iff t t)) in
      let ih = missing_from-nil d a b (λ x h g. f x h (ground (arith, eq_iff t x))) u.1 in
      rw (e, missing_from) ih

  compare_common-nil :
      (a b : Book)
      → ((ticker : String) (h k : Holding)
          → get ticker a ≡ some h
          → get ticker b ≡ some k
          → Close h k)
      → KeysOnce a
      → compare_common na nb a b ≡ []
  unfolding compare_common
  compare_common-nil [] b f u = refl
  compare_common-nil ((t, v) ∷ a) b f u =
      let ih = compare_common-nil a b (λ x h k g. f x h k (ground (arith, eq_iff t x))) u.1 in
      elim (Option-cases (get t b)) [
        | inl e ↦ rw (e, compare_common) ih
        | inr (k, e) ↦
            rw (e, compare_common)
              (rw ((compare_holdings-Close t v k).1 (f t v k (ground (arith, eq_iff t t)) e)) ih)
      ]

  BothClose-both :
      (a b : Book) (ticker : String) (h : Holding)
      → Agree a b
      → get ticker a ≡ some h
      → (k : Holding) × (get ticker b ≡ some k)
  BothClose-both a b ticker h agree x = elim (Option-cases (get ticker b)) [
    | inl y ↦ absurd (
        subst (λ o. BothClose (some h) o) y
          (subst (λ o. BothClose o (get ticker b)) x (agree ticker)))
    | inr (k, y) ↦ (k, y)
  ]

  BothClose-left :
      (a b : Book) (ticker : String) (k : Holding)
      → Agree a b
      → get ticker b ≡ some k
      → (h : Holding) × (get ticker a ≡ some h)
  BothClose-left a b ticker k agree y = elim (Option-cases (get ticker a)) [
    | inl x ↦ absurd (
        subst (λ o. BothClose o (some k)) x
          (subst (λ o. BothClose (get ticker a) o) y (agree ticker)))
    | inr (h, x) ↦ (h, x)
  ]

  pub Agree-compare_pair :
      (a b : Book) → KeysOnce a → KeysOnce b → Agree a b → compare_pair na nb a b ≡ []
  unfolding compare_pair
  Agree-compare_pair a b ua ub agree =
      rw (missing_from-nil only_in_a a b (λ t h. BothClose-both a b t h agree) ua) (
        rw (missing_from-nil only_in_b b a (λ t k. BothClose-left a b t k agree) ub) (
          compare_common-nil a b
            (λ t h k x y.
              subst (λ o. BothClose (some h) o) y (subst (λ o. BothClose o (get t b)) x (agree t)))
            ua))

-- Two books whose tickers stand once are compared without a mismatch exactly where they agree: the
-- same tickers, the same quantities, and prices at most half a cent apart.
pub compare_pair-agrees_iff :
    (na nb : Source) (a b : Book)
    → KeysOnce a
    → KeysOnce b
    → (compare_pair na nb a b ≡ [] ↔ Agree a b)
compare_pair-agrees_iff na nb a b ua ub =
    (compare_pair-Agree na nb a b, Agree-compare_pair na nb a b ua ub)

-- The comparison of the three sources is silent exactly where each two of them agree.
pub compare_three_sources-agrees_iff :
    (at_alpaca at_pg at_nj : Book)
    → KeysOnce at_alpaca
    → KeysOnce at_pg
    → KeysOnce at_nj
    → (compare_three_sources at_alpaca at_pg at_nj ≡ []
        ↔ Agree at_alpaca at_pg × Agree at_alpaca at_nj × Agree at_pg at_nj)
unfolding compare_three_sources
compare_three_sources-agrees_iff x y z ux uy uz = (
  λ e.
      let (a, rest) = append-nil (compare_pair alpaca pg x y) _ e in
      let (b, c) = append-nil (compare_pair alpaca nj_cache x z) _ rest in
      (
        compare_pair-Agree alpaca pg x y a,
        compare_pair-Agree alpaca nj_cache x z b,
        compare_pair-Agree pg nj_cache y z c,
      ),
  λ (a, b, c). rw (Agree-compare_pair alpaca pg x y ux uy a) (
      rw (Agree-compare_pair alpaca nj_cache x z ux uz b)
        (Agree-compare_pair pg nj_cache y z uy uz c)),
)
