-- ===== src/Core/Clients/Safety.antt =====
-- trading_core.py: which account a client is for, and when the paper-only check holds.
use mathlib.Core.Path.{subst}
use blackhole_network.Base.{
  String, Bool, true, false, not, ◌&&◌, Option-cases, inl, inr, List, Option, none, some, ◌≡◌, refl,
  ap, ◌∙◌, arith, get, sym,
}
use blackhole_network.Core.World.{
  World, Env, Fields, Json, str, obj, no_broker, Client, Account, Result, ok, raised,
  account_blocked,
}
use blackhole_network.Core.Monad.{Call, answer, raise_if, ◌>>=◌, ◌>>◌}
use blackhole_network.Core.Monad.Bind.{bind_ok, bind_eq}
use blackhole_network.Core.Json.{lookup, truth}
use blackhole_network.Core.Rules.{get_strategy_rules, load_rules, dict_or_empty}
use blackhole_network.Core.Rules.Cache.{rules_of, get_strategy_rules_lem}
use blackhole_network.Core.Clients.{
  live_mode_of, url_allowed, is_blocked, credential, value_of, text_field, broker_of, load_env,
  first_client, get_alpaca, get_alpaca_from, load_strategy_env, connect, new_client, client_from,
  get_strategy_alpaca,
}

-- What holds of the value that a call returns, and of the world it leaves.
pub record Yields {A : Type 0} (P : A → World → Type 0) (m : Call A) : Type 0 where
  pub at : (w : World) (a : A) → (m w).0 ≡ ok a → P a (m w).1

yields_after :
    {A B : Type 0} (P : B → World → Type 0) (f : A → Call B) (r : Result A) (w : World) (b : B)
    → ((a : A) → Yields P (f a))
    → ((answer r >>= f) w).0 ≡ ok b
    → P b ((answer r >>= f) w).1
yields_after P f (ok a) w b h e = (h a).at w b e
yields_after P f (raised x) w b h e = absurd (cc e)

Yields-bind :
    {A B : Type 0} (P : B → World → Type 0) (m : Call A) (f : A → Call B)
    → ((a : A) → Yields P (f a))
    → Yields P (m >>= f)
Yields-bind P m f h = record { at = λ w b e. yields_after P f (m w).0 (m w).1 b h e }

-- A call whose value is known to satisfy Q before the rest runs.
Yields-known :
    {A B : Type 0} (P : B → World → Type 0) (Q : A → Type 0) (m : Call A) (f : A → Call B)
    → ((w : World) (a : A) → (m w).0 ≡ ok a → Q a)
    → ((a : A) → Q a → Yields P (f a))
    → Yields P (m >>= f)
Yields-known P Q m f q h = record { at = λ w b e. after (m w).0 (m w).1 b (q w) e }
  where
    after :
        (r : Result _) (w : World) (b : _)
        → ((a : _) → r ≡ ok a → Q a)
        → ((answer r >>= f) w).0 ≡ ok b
        → P b ((answer r >>= f) w).1
    after (ok a) w b q e = (h a (q a refl)).at w b e
    after (raised x) w b q e = absurd (cc e)

-- A client with the key and the secret that os.environ has under two names, at the given address, which
-- is the paper endpoint unless the live mode is on; the account answered that it is not blocked.
pub record IsSafe (env : Env) (k s u : Option String) (c : Client) (w : World) : Type 0 where
  pub own :
      (key_name secret_name key secret : String) × (k ≡ some key_name)
      × (s ≡ some secret_name)
      × (get key_name w.environ ≡ some key)
      × (get secret_name w.environ ≡ some secret)
      × (c.credentials ≡ some (key, secret))
  pub address : u ≡ some c.base_url
  pub allowed : url_allowed c.base_url (live_mode_of w.environ) ≡ true
  pub open_account : (a : Account) × (env.get_account c ≡ ok a) × (is_blocked a ≡ false)

-- The name of a variable that is set.
credential-value :
    (name : Option String) (vars : List (String × String))
    → credential name vars ≡ true
    → (n v : String) × (name ≡ some n) × (get n vars ≡ some v) × (value_of name vars ≡ v)
credential-value none vars h = absurd (ground arith)
credential-value (some n) vars h = elim (Option-cases (get n vars)) [
  | inl e ↦ absurd (ground arith)
  | inr (v, e) ↦ (n, v, refl, e, ground arith)
]

-- The texts of the broker block.
abbrev TextOf : Option Json → Option String → Type 0
TextOf v k = (t : String) → k ≡ some t → v ≡ some (str t)

text_field-TextOf :
    (v : Option Json) (w : World) (k : Option String) → (text_field v w).0 ≡ ok k → TextOf v k
text_field-TextOf none w k e t q = absurd (cc (e, q))
text_field-TextOf (some (str x)) w k e t q = ground arith
text_field-TextOf (some _) w k e t q = absurd (ground arith)

-- The broker block of a strategy in some rules names the variables and the address of a client.
abbrev pub Configured : Env → Fields → Client → World → Type 0
Configured env block c w =
    (broker : Fields) × (lookup "broker" block ≡ some (obj broker))
    × ((k s u : String) × (lookup "alpaca_key_id" broker ≡ some (str k))
        × (lookup "alpaca_secret" broker ≡ some (str s))
        × (lookup "alpaca_base_url" broker ≡ some (str u))
        × IsSafe env (some k) (some s) (some u) c w)

module _ (env : Env) where
  connect-IsSafe :
      (sid : String) (k s u : Option String) → Yields (IsSafe env k s u) (connect env sid k s u)
  unfolding connect load_strategy_env
  connect-IsSafe sid k s none = record { at = λ w c e. absurd (cc e) }
  connect-IsSafe sid k s (some u) = record {
    at = λ w c e. go w c (env.get_account (made w)) refl e;
  }
    where
      vars : World → List (String × String)
      vars w = (load_strategy_env env sid w).1.environ

      made : World → Client
      made w = record {
        credentials = some (value_of k (vars w), value_of s (vars w));
        base_url = u;
      }

      go :
          (w : World) (c : Client) (r : Result Account)
          → env.get_account (made w) ≡ r
          → (connect env sid k s (some u) w).0 ≡ ok c
          → IsSafe env k s (some u) c (connect env sid k s (some u) w).1
      go w c (raised x) q e = absurd (ground arith)
      go w c (ok a) q e =
          let same : made w ≡ c = ground arith in
          let both : (credential k (vars w) && credential s (vars w)) ≡ true = ground arith in
          let after : (connect env sid k s (some u) w).1.environ ≡ vars w = ground arith in
          let (kn, key, ek, gk, vk) = credential-value k (vars w) (ground arith) in
          let (sn, secret, es, gs, vs) = credential-value s (vars w) (ground arith) in
          record {
            own = (
              kn,
              sn,
              key,
              secret,
              ek,
              es,
              ap (get kn) after ∙ gk,
              ap (get sn) after ∙ gs,
              ap (λ x. x.credentials) (sym same)
                  ∙ ap (λ v. some (v, value_of s (vars w))) vk
                  ∙ ap (λ v. some (key, v)) vs,
            );
            address = ap (λ x. some x.base_url) same;
            allowed = ground arith;
            open_account = (a, ap env.get_account (sym same) ∙ q, ground arith);
          }

  -- The client made from a broker block, whatever its fields hold.
  from_block : String → Fields → Option Json → Call Client
  from_block sid block v = do
    broker ← broker_of v
    raise_if (not (truth (obj broker))) no_broker
    key_env ← text_field (lookup "alpaca_key_id" broker)
    secret_env ← text_field (lookup "alpaca_secret" broker)
    url ← text_field (lookup "alpaca_base_url" broker)
    connect env sid key_env secret_env url

  connected :
      (sid : String) (block broker : Fields)
      → lookup "broker" block ≡ some (obj broker)
      → (k s u : Option String) → TextOf (lookup "alpaca_key_id" broker) k
      → TextOf (lookup "alpaca_secret" broker) s
      → TextOf (lookup "alpaca_base_url" broker) u
      → Yields (Configured env block) (connect env sid k s u)
  connected sid block broker found k s u tk ts tu = record {
    at = λ w c e.
        let safe = (connect-IsSafe sid k s u).at w c e in
        let (kn, sn, key, secret, ek, es, gk, gs, held) = safe.own in
        (
          broker,
          found,
          (
            kn,
            sn,
            c.base_url,
            tk kn ek,
            ts sn es,
            tu c.base_url safe.address,
            subst (λ x. IsSafe env x (some sn) (some c.base_url) c (connect env sid k s u w).1) ek
                (subst (λ x. IsSafe env k x (some c.base_url) c (connect env sid k s u w).1) es
                  (subst (λ x. IsSafe env k s x c (connect env sid k s u w).1) safe.address safe)),
          ),
        );
  }

  from_block-Configured :
      (sid : String) (block : Fields) (v : Option Json)
      → lookup "broker" block ≡ v
      → Yields (Configured env block) (from_block sid block v)
  unfolding from_block truth
  from_block-Configured sid block none found = record { at = λ w c e. absurd (cc e) }
  from_block-Configured sid block (some (obj broker)) found =
      let P = Configured env block in
      let key = lookup "alpaca_key_id" broker in
      let secret = lookup "alpaca_secret" broker in
      let url = lookup "alpaca_base_url" broker in
      Yields-bind P (raise_if (not (truth (obj broker))) no_broker) _ λ done.
        Yields-known P (TextOf key) (text_field key) _ (text_field-TextOf key) λ k tk.
          Yields-known P (TextOf secret) (text_field secret) _ (text_field-TextOf secret) λ s ts.
            Yields-known P (TextOf url) (text_field url) _ (text_field-TextOf url)
              λ u tu. connected sid block broker found k s u tk ts tu
  from_block-Configured sid block (some v) found = record { at = λ w c e. absurd (ground arith) }

  -- A strategy without a stored client gets one with the key and the secret that os.environ has under
  -- the names in its broker block, at the block's address, which is the paper endpoint unless the
  -- live mode is on in the environment that the call leaves, and whose account is not blocked;
  -- otherwise the call raises.
  pub get_strategy_alpaca-IsSafe :
      (sid : String) (w : World) (c : Client)
      → get sid w.strategy_clients ≡ none
      → (get_strategy_alpaca env sid w).0 ≡ ok c
      → Configured env (dict_or_empty (lookup sid (rules_of w))) c (get_strategy_alpaca env sid w).1
  unfolding get_strategy_alpaca client_from new_client from_block
  get_strategy_alpaca-IsSafe sid w c h e =
      let block = dict_or_empty (lookup sid (rules_of w)) in
      let made : get_strategy_alpaca env sid w
          ≡ from_block sid block (lookup "broker" block) (load_rules w).1 =
        ap (λ o. client_from env sid o w) h
        ∙ bind_eq (get_strategy_rules sid) (λ b. from_block sid b (lookup "broker" b)) w
            (get_strategy_rules_lem sid w) in
      subst (λ r. Configured env block c r.1) (sym made)
        ((from_block-Configured sid block (lookup "broker" block) refl).at (load_rules w).1 c
          (ap (λ r. r.0) (sym made) ∙ e))

  -- `get_alpaca` stores its client before it looks at the account: for a blocked account the first
  -- call raises, and the next one returns the client.
  pub get_alpaca-second_call :
      (w : World) (url : String) (live : Bool) (a : Account)
      → w.default_client ≡ none
      → (load_env w).0 ≡ ok (url, live)
      → env.get_account (record { credentials = none; base_url = url }) ≡ ok a
      → is_blocked a ≡ true
      → ((get_alpaca env w).0 ≡ raised account_blocked)
        × ((get_alpaca env (get_alpaca env w).1).0
            ≡ ok (record { credentials = none; base_url = url }))
  unfolding get_alpaca get_alpaca_from first_client
  get_alpaca-second_call w url live a fresh loaded answered blocked =
      let client : Client = record { credentials = none; base_url = url } in
      let stored = record ((load_env w).1) { default_client = some client } in
      let refused : first_client env (url, live) (load_env w).1 ≡ (raised account_blocked, stored) =
        ground arith in
      let first : get_alpaca env w ≡ (raised account_blocked, stored) =
        ap (λ o. get_alpaca_from env o w) fresh
        ∙ bind_ok load_env (first_client env) w loaded
        ∙ refused in
      (ap (λ p. p.0) first, ap (λ p. (get_alpaca env p.1).0) first)
