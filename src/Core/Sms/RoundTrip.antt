-- ===== src/Core/Sms/RoundTrip.antt =====
-- The SMS commands that are understood, and what they can name.
use blackhole_network.Base.{
  ℕ, String, Bool, true, false, some, List, [], ◌∷◌, ◌++◌, map, ◌≡◌, refl, sym, ap, ◌∙◌, not, ◌&&◌,
  arith, codes, upper, All, All-map, Bool-cases, inl, inr, is_some, get, same_codes,
}
use mathlib.Core.Path.{subst}
use mathlib.Core.List.{append-nil, append_assoc}
use blackhole_network.Core.Rules.{strat_number}
use blackhole_network.Core.Sms.{
  sms_name_map, is_space, flush, split_from, name_lookup, parse_action, parse_words,
  parse_sms_toggle_command,
}

abbrev Blank : List ℕ → Type 0
Blank = All (λ c. is_space c ≡ true)

abbrev Solid : List ℕ → Type 0
Solid = All (λ c. is_space c ≡ false)

split_from-word :
    (word xs rest : List ℕ) → Solid xs → split_from word (xs ++ rest) ≡ split_from (word ++ xs) rest
unfolding split_from
split_from-word word [] rest h = rw (append-nil word)
split_from-word word (x ∷ xs) rest h =
    rw (h.0, split_from) (rw (split_from-word (word ++ x ∷ []) xs rest h.1, append_assoc))

split_from-Blank : (xs rest : List ℕ) → Blank xs → split_from [] (xs ++ rest) ≡ split_from [] rest
unfolding split_from
split_from-Blank [] rest h = refl
split_from-Blank (x ∷ xs) rest h = rw (h.0, split_from) (split_from-Blank xs rest h.1)

-- A word that is not empty is kept when it ends.
abbrev IsWord : List ℕ → Type 0
IsWord word = (rest : List (List ℕ)) → flush word rest ≡ word ∷ rest

split_from_end :
    (word : List ℕ) (b : ℕ) (blank rest : List ℕ)
    → IsWord word
    → Blank (b ∷ blank)
    → split_from word ((b ∷ blank) ++ rest) ≡ word ∷ split_from [] rest
unfolding split_from
split_from_end word b blank rest hw h =
    rw (h.0, split_from) (hw _ ∙ ap (λ r. word ∷ r) (split_from-Blank blank rest h.1))

split_from_last :
    (word blank : List ℕ) → IsWord word → Blank blank → split_from word blank ≡ word ∷ []
unfolding split_from
split_from_last word [] hw h = hw []
split_from_last word (b ∷ blank) hw h =
    rw (h.0, split_from)
      (hw _
        ∙ ap (λ r. word ∷ r)
            (ap (split_from []) (sym (append-nil blank)) ∙ split_from-Blank blank [] h.1))

-- Two words with blanks before, between and after.
split_two :
    (lead word : List ℕ) (b : ℕ) (gap name trail : List ℕ)
    → Blank lead
    → Solid word
    → IsWord word
    → Blank (b ∷ gap)
    → Solid name
    → IsWord name
    → Blank trail
    → split_from [] (lead ++ (word ++ ((b ∷ gap) ++ (name ++ trail)))) ≡ word ∷ name ∷ []
split_two lead word b gap name trail hl sw hw hg sn hn ht =
    split_from-Blank lead _ hl
    ∙ split_from-word [] word _ sw
    ∙ split_from_end word b gap _ hw hg
    ∙ ap (λ r. word ∷ r) (split_from-word [] name trail sn ∙ split_from_last name trail hn ht)

solid : List ℕ → Bool
solid [] = true
solid (c ∷ cs) = not (is_space c) && solid cs

Solid-of_solid : (cs : List ℕ) → solid cs ≡ true → Solid cs
unfolding solid
Solid-of_solid [] h = tt
Solid-of_solid (c ∷ cs) h = (ground arith, Solid-of_solid cs (ground arith))

-- The action word of a command.
abbrev pub action_word : Bool → String
action_word true = "ENABLE"
action_word false = "DISABLE"

-- The text reads, in capitals, as an action and a name with blanks around them.
abbrev pub Reads : Bool → String → List ℕ → List ℕ → ℕ → List ℕ → List ℕ → Type 0
Reads on name text lead b gap trail =
    map upper text ≡ lead ++ (codes (action_word on) ++ ((b ∷ gap) ++ (codes name ++ trail)))

module _ (on : Bool) (text lead : List ℕ) (b : ℕ) (gap trail : List ℕ) (hl : Blank lead)
    (hg : Blank (b ∷ gap)) (ht : Blank trail) where
  Reads-name :
      (e : String × String)
      → solid (codes (action_word on)) ≡ true
      → IsWord (codes (action_word on))
      → solid (codes e.0) ≡ true
      → IsWord (codes e.0)
      → parse_words (codes (action_word on) ∷ codes e.0 ∷ []) ≡ some (on, e.1)
      → Reads on e.0 text lead b gap trail
      → parse_sms_toggle_command text ≡ some (on, e.1)
  unfolding parse_sms_toggle_command
  Reads-name e sa ha sn hn known h =
      ap (λ t. parse_words (split_from [] t)) h
      ∙ ap parse_words (
          split_two lead (codes (action_word on)) b gap (codes e.0) trail hl
            (Solid-of_solid (codes (action_word on)) sa) ha hg (Solid-of_solid (codes e.0) sn) hn
            ht)
      ∙ known

-- What is checked of each pair of the map.
abbrev Entry : Bool → String × String → Type 0
Entry on e =
    (solid (codes e.0) ≡ true)
    × IsWord (codes e.0)
    × (parse_words (codes (action_word on) ∷ codes e.0 ∷ []) ≡ some (on, e.1))

entries : (on : Bool) → All (Entry on) sms_name_map
unfolding parse_words parse_action name_lookup solid
entries true = (
  (refl, λ r. refl, refl),
  (
    (refl, λ r. refl, refl),
    (
      (refl, λ r. refl, refl),
      (
        (refl, λ r. refl, refl),
        (
          (refl, λ r. refl, refl),
          (
            (refl, λ r. refl, refl),
            ((refl, λ r. refl, refl), ((refl, λ r. refl, refl), ((refl, λ r. refl, refl), tt))),
          ),
        ),
      ),
    ),
  ),
)
entries false = (
  (refl, λ r. refl, refl),
  (
    (refl, λ r. refl, refl),
    (
      (refl, λ r. refl, refl),
      (
        (refl, λ r. refl, refl),
        (
          (refl, λ r. refl, refl),
          (
            (refl, λ r. refl, refl),
            ((refl, λ r. refl, refl), ((refl, λ r. refl, refl), ((refl, λ r. refl, refl), tt))),
          ),
        ),
      ),
    ),
  ),
)

action_solid :
    (on : Bool) → (solid (codes (action_word on)) ≡ true) × IsWord (codes (action_word on))
unfolding solid
action_solid true = (refl, λ r. refl)
action_solid false = (refl, λ r. refl)

-- A text that reads, in capitals, as ENABLE or DISABLE and one of the nine names, with any blanks
-- around them and at least one between them, is understood as that action on that strategy.
pub parse_sms_toggle_command-Reads :
    (on : Bool) (text lead : List ℕ) (b : ℕ) (gap trail : List ℕ)
    → Blank lead
    → Blank (b ∷ gap)
    → Blank trail
    → All
        (λ e. Reads on e.0 text lead b gap trail → parse_sms_toggle_command text ≡ some (on, e.1))
        sms_name_map
parse_sms_toggle_command-Reads on text lead b gap trail hl hg ht =
    All-map (Entry on)
      (λ e. Reads on e.0 text lead b gap trail → parse_sms_toggle_command text ≡ some (on, e.1))
      sms_name_map
      (λ e (sn, hn, known).
        Reads-name on text lead b gap trail hl hg ht e (action_solid on).0 (action_solid on).1 sn hn
          known)
      (entries on)

lookup_known :
    (P : String → Type 0) (name : List ℕ) (d : List (String × String)) (sid : String)
    → All (λ e. P e.1) d
    → name_lookup name d ≡ some sid
    → P sid
unfolding name_lookup
lookup_known P name [] sid h e = absurd (cc e)
lookup_known P name ((k, s) ∷ d) sid h e = elim (Bool-cases (same_codes (codes k) name)) [
  | inl t ↦ let q : some s ≡ some sid = rw t at e in let same : s ≡ sid = cc q in subst P same h.0
  | inr t ↦ lookup_known P name d sid h.1 (rw t at e)
]

abbrev Known : String → Type 0
Known sid = is_some (get sid strat_number) ≡ true

names-Known : All (λ e. Known e.1) sms_name_map
names-Known = (refl, (refl, (refl, (refl, (refl, (refl, (refl, (refl, (refl, tt)))))))))

parse_words-Known :
    (words : List (List ℕ)) (on : Bool) (sid : String)
    → parse_words words ≡ some (on, sid)
    → Known sid
unfolding parse_words
parse_words-Known (action ∷ name ∷ []) on sid e =
    ground (arith, lookup_known Known name sms_name_map sid names-Known)
parse_words-Known _ on sid e = absurd (cc e)

-- A command that is understood names a strategy that `set_strategy_enabled` knows.
pub parse_sms_toggle_command-known :
    (text : List ℕ) (on : Bool) (sid : String)
    → parse_sms_toggle_command text ≡ some (on, sid)
    → is_some (get sid strat_number) ≡ true
unfolding parse_sms_toggle_command
parse_sms_toggle_command-known text on sid e =
    parse_words-Known (split_from [] (map upper text)) on sid e
