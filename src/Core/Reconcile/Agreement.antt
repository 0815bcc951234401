-- ===== src/Core/Reconcile/Agreement.antt =====
-- trading_core.py: an account without a mismatch holds what the open trades say, ticker by ticker.
use mathlib.Core.Path.{subst}
use blackhole_network.Base.{
  String, none, some, List, [], ◌∷◌, ◌++◌, ◌≡◌, refl, ◌∙◌, arith, get, str_eq, eq_iff, Bool-cases,
  Option-cases, inl, inr,
}
use blackhole_network.Base.Int.{ℤ, eqb_ℤ, eq_of_parts}
use blackhole_network.Core.World.{Env, Client}
use blackhole_network.Core.Reconcile.{
  ByTicker, or_nil, pg_qty, qty_or_zero, position_mismatches, absent_mismatches, account_mismatches,
}

append-nil : {A : Type 0} (xs ys : List A) → xs ++ ys ≡ [] → (xs ≡ []) × (ys ≡ [])
append-nil [] ys h = (refl, h)
append-nil (x ∷ xs) ys h = absurd (cc h)

-- What the open trades say of a ticker, and what the account holds of it; 0 where it is missing.
abbrev pub expected_qty : ByTicker → String → ℤ
expected_qty by_ticker ticker = pg_qty (or_nil (get ticker by_ticker))

abbrev pub held_qty : List (String × ℤ) → String → ℤ
held_qty held ticker = qty_or_zero (get ticker held)

module _ (env : Env) (sid : String) (client : Client) where
  position_mismatches-agree :
      (held : List (String × ℤ)) (by_ticker : ByTicker) (ticker : String) (q : ℤ)
      → position_mismatches env sid client held by_ticker ≡ []
      → get ticker held ≡ some q
      → expected_qty by_ticker ticker ≡ q
  unfolding position_mismatches
  position_mismatches-agree [] by_ticker ticker q e f = absurd (cc f)
  position_mismatches-agree ((k, v) ∷ held) by_ticker ticker q e f =
      elim (Bool-cases (eqb_ℤ (expected_qty by_ticker k) v)) [
        | inr n ↦ absurd (ground arith)
        | inl y ↦ elim (Bool-cases (str_eq k ticker)) [
          | inl s ↦
              let same : expected_qty by_ticker k ≡ v =
                eq_of_parts (expected_qty by_ticker k) v (ground arith) in
              subst (λ t. expected_qty by_ticker t ≡ q) ((eq_iff k ticker).0 s)
                (same ∙ ground arith)
          | inr s ↦ position_mismatches-agree held by_ticker ticker q (ground arith) (ground arith)
        ]
      ]

  absent_mismatches-none :
      (held : List (String × ℤ)) (by_ticker : ByTicker) (ticker : String)
      → absent_mismatches env sid client held by_ticker ≡ []
      → get ticker held ≡ none
      → get ticker by_ticker ≡ none
  unfolding absent_mismatches
  absent_mismatches-none held [] ticker e f = refl
  absent_mismatches-none held ((k, ts) ∷ by_ticker) ticker e f = elim (Option-cases (get k held)) [
    | inl n ↦ absurd (ground arith)
    | inr (v, y) ↦
        let ih = absent_mismatches-none held by_ticker ticker (ground arith) f in
        ground (arith, eq_iff k ticker)
  ]

  -- Where the positions of an account and the open trades of its strategy are compared without a
  -- mismatch, every ticker's quantity is the same on both sides, a missing ticker counting 0 and a
  -- sale counting against.
  pub account_mismatches-agree :
      (held : List (String × ℤ)) (by_ticker : ByTicker) (ticker : String)
      → account_mismatches env sid client held by_ticker ≡ []
      → expected_qty by_ticker ticker ≡ held_qty held ticker
  unfolding account_mismatches pg_qty
  account_mismatches-agree held by_ticker ticker e =
      let (a, b) = append-nil (position_mismatches env sid client held by_ticker) _ e in
      elim (Option-cases (get ticker held)) [
        | inl n ↦ rw n (rw (absent_mismatches-none held by_ticker ticker b n) refl)
        | inr (q, y) ↦ rw y (position_mismatches-agree held by_ticker ticker q a y)
      ]
