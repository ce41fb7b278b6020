-- ===== src/Rules/Loaded.antt =====
-- What lib/mb-rule/src/data_handle.rs has put into a registry that it has loaded.
use meshbus_rs.Prelude.{beq_refl}
use meshbus_rs.Prelude.{
  ◌≡◌, refl, inl, inr, Text, text_eq_inst, beq-cases, true, not, List, [], ◌∷◌, some,
}
use meshbus_rs.Prelude.{
  ok, err, contains_key, insert, lookup, lookup-insert, In, head, later, >>-require, >>=-eq-ok,
  map_err, Result,
}
use meshbus_rs.Rules.{RulesetFormat, Ruleset}
use meshbus_rs.Rules.Eval.{ResolvedRuleset, RuleSetRegistry}
use meshbus_rs.Rules.Validate.{validate_ruleset}
use meshbus_rs.Rules.Load.{LoadLib, raw_lines, parse_nets, resolve_lines, resolve, load_from, load}

map_err-ok : {E F A : Type 0} (f : E → F) (m : Result E A) {a : A} → map_err f m ≡ ok a → m ≡ ok a
map_err-ok f (ok a) h = cc
map_err-ok f (err e) h = absurd (cc h)

resolve_lines-kept :
    (lib : LoadLib) (rs : Ruleset) (format : RulesetFormat) (lines : List Text)
    {r : ResolvedRuleset}
    → resolve_lines lib rs format lines ≡ ok r
    → (r.field ≡ rs.field) × (r.format ≡ rs.format)
unfolding resolve_lines
resolve_lines-kept lib rs RulesetFormat.ip_cidr lines {r} h =
    let (nets, _, h1) = >>=-eq-ok (parse_nets lib rs.name lines) h in
    let e : r ≡ record { field = rs.field; format = rs.format; entries = []; cidrs = nets } = cc in
    rw (e) (refl, refl)
resolve_lines-kept lib rs RulesetFormat.domain_suffix lines {r} h =
    let e : r ≡ record { field = rs.field; format = rs.format; entries = lines; cidrs = [] } = cc in
    rw (e) (refl, refl)
resolve_lines-kept lib rs RulesetFormat.classical lines {r} h =
    let e : r ≡ record { field = rs.field; format = rs.format; entries = lines; cidrs = [] } = cc in
    rw (e) (refl, refl)

-- What a registry holds for a ruleset.
abbrev pub Holds : LoadLib → RuleSetRegistry → Ruleset → Type 0
Holds lib reg rs =
    (r : ResolvedRuleset) × (lookup rs.name reg.sets ≡ some r)
    × (resolve lib rs ≡ ok r)
    × (r.field ≡ rs.field)
    × (r.format ≡ rs.format)
    × (validate_ruleset rs ≡ ok tt)

resolve-kept :
    (lib : LoadLib) (rs : Ruleset) {r : ResolvedRuleset}
    → resolve lib rs ≡ ok r
    → (r.field ≡ rs.field) × (r.format ≡ rs.format) × (validate_ruleset rs ≡ ok tt)
unfolding resolve
resolve-kept lib rs h =
    let (_, valid, h1) = >>=-eq-ok _ h in
    let (lines, _, h2) = >>=-eq-ok (raw_lines lib rs.source) h1 in
    let (_, h3) = >>-require _ _ h2 in
    let (p, q) = resolve_lines-kept lib rs rs.format lines h3 in
    (p, q, map_err-ok _ (validate_ruleset rs) valid)

lookup-insert_fresh :
    (k j : Text) (v : ResolvedRuleset) (m : List (Text × ResolvedRuleset)) {r : ResolvedRuleset}
    → not (contains_key j m) ≡ true
    → lookup k m ≡ some r
    → lookup k (insert j v m) ≡ some r
lookup-insert_fresh k j v m h e = elim (beq-cases j k) [
  | inl (_, q) ↦ let e' : lookup j m ≡ lookup k m = rw (q) refl in absurd (cc (rw (e', e) at h))
  | inr (t, _) ↦ rw (lookup-insert j k v m, t) e
]

-- An entry stays: a later ruleset with its name is refused.
load_from-lookup :
    (lib : LoadLib) (out : List (Text × ResolvedRuleset)) (sets : List Ruleset) (k : Text)
    → {reg : RuleSetRegistry} {r : ResolvedRuleset} → load_from lib out sets ≡ ok reg
    → lookup k out ≡ some r
    → lookup k reg.sets ≡ some r
unfolding load_from
load_from-lookup lib out [] k h e = cc
load_from-lookup lib out (rs ∷ sets) k h e =
    let (fresh, h1) = >>-require (not (contains_key rs.name out)) _ h in
    let (r', _, h2) = >>=-eq-ok (resolve lib rs) h1 in
    load_from-lookup lib (insert rs.name r' out) sets k h2
      (lookup-insert_fresh k rs.name r' out fresh e)

load_from-Holds :
    (lib : LoadLib) (out : List (Text × ResolvedRuleset)) (sets : List Ruleset)
    → {reg : RuleSetRegistry} {rs : Ruleset} → load_from lib out sets ≡ ok reg
    → In rs sets
    → Holds lib reg rs
unfolding load_from
load_from-Holds lib out [] h i = elim i [ ]
load_from-Holds lib out (x ∷ sets) {reg} {rs} h i =
    let (fresh, h1) = >>-require (not (contains_key x.name out)) _ h in
    let (r, resolved, h2) = >>=-eq-ok (resolve lib x) h1 in
    elim i [
      | head e ↦
          let (p, q, valid) = resolve-kept lib x resolved in
          let stored : lookup x.name (insert x.name r out) ≡ some r =
            rw (lookup-insert x.name x.name r out, beq_refl x.name) refl in
          let found = load_from-lookup lib (insert x.name r out) sets x.name h2 stored in
          rw (e) (r, found, resolved, p, q, valid)
      | later j ↦ load_from-Holds lib (insert x.name r out) sets h2 j
    ]

-- Each ruleset of a list that loads is in the registry under its name: resolved from its own source,
-- with its field and its format, and it passed the checks. No other ruleset of the list has replaced it.
pub load-Holds :
    (lib : LoadLib) (sets : List Ruleset) {reg : RuleSetRegistry} {rs : Ruleset}
    → load lib sets ≡ ok reg
    → In rs sets
    → Holds lib reg rs
unfolding load
load-Holds lib sets h i = load_from-Holds lib [] sets h i
