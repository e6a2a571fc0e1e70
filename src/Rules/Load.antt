-- ===== src/Rules/Load.antt =====
-- gates/rules/src/rules_gate/ruleset.py, `load_rulesets`: the rule sets of a directory, whose files
-- are given by name in the order of their names, none if there is no such directory.
use decision_ledger.Prelude.{
  String, true, false, Option, none, some, List, [], ◌∷◌, ◌++◌, map, distinct, contains, ◌≡◌, refl,
  arith, ◌==◌, Outcome, ok, raised, ◌>>=◌, >>=-eq-ok, sym, Option-cases, inl, inr, eq_iff,
  ok-injective,
}
use mathlib.Core.Path.{subst}
use mathlib.Core.List.{append-nil, append_assoc}
use decision_ledger.Prelude.Sets.{any-append}
use decision_ledger.Json.{Json}
use decision_ledger.Rules.{RuleSet, Formats, lookup}
use decision_ledger.Rules.Verify.{ReadError, read_ruleset}

pub record LoadedRuleSet : Type 0 where
  pub rule_set : RuleSet
  pub origin : String

pub data LoadError : Type 0 where
  directory_missing : LoadError
  not_read : String → ReadError → LoadError
  duplicate_ruleset_id : String → String → String → LoadError

abbrev pub Loaded : Type 0
Loaded = List (String × LoadedRuleSet)

added : String → RuleSet → Loaded → Option LoadedRuleSet → Outcome LoadError Loaded
added path rule_set loaded none =
    ok (loaded ++ (rule_set.ruleset_id, record { rule_set = rule_set; origin = path }) ∷ [])
added path rule_set loaded (some earlier) =
    raised (duplicate_ruleset_id rule_set.ruleset_id path earlier.origin)

module _ (formats : Formats) (yaml : String → Option Json) where
  add_read : String → Loaded → Outcome ReadError RuleSet → Outcome LoadError Loaded
  unfolding added
  add_read path loaded (raised e) = raised (not_read path e)
  add_read path loaded (ok rule_set) =
      added path rule_set loaded (lookup rule_set.ruleset_id loaded)

  load_each : List String → Loaded → Outcome LoadError Loaded
  unfolding add_read
  load_each [] loaded = ok loaded
  load_each (path ∷ paths) loaded =
      add_read path loaded (read_ruleset formats yaml path) >>= load_each paths

  -- `load_rulesets`
  unfoldable pub load_rulesets : Option (List String) → Outcome LoadError Loaded
  unfolding load_each
  load_rulesets none = raised directory_missing
  load_rulesets (some paths) = load_each paths []

  -- Every entry is the rule set of its file, under its own id.
  abbrev pub EachRead : Loaded → Type 0
  EachRead [] = Unit
  EachRead ((key, entry) ∷ rest) =
      (read_ruleset formats yaml entry.origin ≡ ok entry.rule_set)
      × (key ≡ entry.rule_set.ruleset_id)
      × EachRead rest

abbrev pub keys : Loaded → List String
keys = map (λ entry. entry.0)

abbrev pub origins : Loaded → List String
origins = map (λ entry. entry.1.origin)

contains-keys :
    (loaded : Loaded) (key : String) → lookup key loaded ≡ none → contains (keys loaded) key ≡ false
contains-keys [] key h = refl
contains-keys ((k, entry) ∷ rest) key h = ground (arith, contains-keys rest key)

distinct-append :
    (names : List String) (n : String)
    → distinct names ≡ true
    → contains names n ≡ false
    → distinct (names ++ n ∷ []) ≡ true
distinct-append [] n d f = refl
distinct-append (m ∷ names) n d f = ground (
  arith,
  distinct-append names n,
  any-append (λ x. x == m) names (n ∷ []),
  eq_iff n m,
  eq_iff m n,
)

map-append_one :
    {A B : Type 0} (f : A → B) (xs : List A) (y : A) → map f (xs ++ y ∷ []) ≡ map f xs ++ f y ∷ []
map-append_one f [] y = refl
map-append_one f (x ∷ xs) y = rw (map-append_one f xs y) refl

module _ (formats : Formats) (yaml : String → Option Json) where
  -- What `load_rulesets` makes of the files `done`.
  pub record Sound (done : List String) (loaded : Loaded) : Type 0 where
    pub once : distinct (keys loaded) ≡ true
    pub read : EachRead formats yaml loaded
    pub files : origins loaded ≡ done

  EachRead-append :
      (loaded : Loaded) (path : String) (rule_set : RuleSet)
      → EachRead formats yaml loaded
      → read_ruleset formats yaml path ≡ ok rule_set
      → EachRead formats yaml
          (loaded ++ (rule_set.ruleset_id, record { rule_set = rule_set; origin = path }) ∷ [])
  EachRead-append [] path rule_set h e = (e, refl, tt)
  EachRead-append ((key, entry) ∷ loaded) path rule_set (a, b, h) e =
      (a, b, EachRead-append loaded path rule_set h e)

  added-Sound :
      (done : List String) (loaded after : Loaded) (path : String) (rule_set : RuleSet)
      → read_ruleset formats yaml path ≡ ok rule_set
      → Sound done loaded
      → added path rule_set loaded (lookup rule_set.ruleset_id loaded) ≡ ok after
      → Sound (done ++ path ∷ []) after
  unfolding added
  added-Sound done loaded after path rule_set e s h =
      elim (Option-cases (lookup rule_set.ruleset_id loaded)) [
        | inr (earlier, found) ↦ cc
        | inl fresh ↦
            let grown : loaded
                  ++ (rule_set.ruleset_id, record { rule_set = rule_set; origin = path }) ∷ []
                ≡ after =
              cc in
            subst (Sound (done ++ path ∷ [])) grown (record {
              once =
                  rw (map-append_one (λ (x : String × LoadedRuleSet). x.0) loaded _)
                    (distinct-append (keys loaded) _ s.once (contains-keys loaded _ fresh));
              read = EachRead-append loaded path rule_set s.read e;
              files =
                  rw (map-append_one (λ (x : String × LoadedRuleSet). x.1.origin) loaded _, s.files)
                    refl;
            })
      ]

  add_read-ok :
      (path : String) (loaded : Loaded) (o : Outcome ReadError RuleSet) {mid : Loaded}
      → add_read formats yaml path loaded o ≡ ok mid
      → (rule_set : RuleSet) × (o ≡ ok rule_set)
  unfolding add_read
  add_read-ok path loaded (raised e) h = cc
  add_read-ok path loaded (ok rule_set) h = (rule_set, refl)

  load_each-Sound :
      (paths done : List String) (loaded after : Loaded)
      → Sound done loaded
      → load_each formats yaml paths loaded ≡ ok after
      → Sound (done ++ paths) after
  unfolding load_each add_read
  load_each-Sound [] done loaded after s h =
      subst (Sound (done ++ [])) (ok-injective h)
        (subst (λ d. Sound d loaded) (sym (append-nil done)) s)
  load_each-Sound (path ∷ paths) done loaded after s h =
      let (mid, adds, rest) =
        >>=-eq-ok (add_read formats yaml path loaded (read_ruleset formats yaml path))
          (load_each formats yaml paths) h in
      let (rule_set, read) = add_read-ok path loaded (read_ruleset formats yaml path) adds in
      subst (λ d. Sound d after) (append_assoc done (path ∷ []) paths)
        (load_each-Sound paths (done ++ path ∷ []) mid after
          (added-Sound done loaded mid path rule_set read s (rw read at adds)) rest)

  -- A directory that loads gives one rule set for each file, in the order of the files, each as its
  -- file reads and under its own id, and no id twice.
  pub load_rulesets-Sound :
      (paths : List String) (loaded : Loaded)
      → load_rulesets formats yaml (some paths) ≡ ok loaded
      → Sound paths loaded
  unfolding load_rulesets
  load_rulesets-Sound paths loaded h =
      load_each-Sound paths [] [] loaded (record { once = refl; read = tt; files = refl }) h
