-- ===== src/Identity/AclRules/Resolve/Total.antt =====
-- Acquire/Identity: when `resolve` returns and when it raises.
use acquire.Base.{◌≡◌, refl, inl, inr, Bool, true, false, Option, none, some, Bool-cases}
use acquire.Base.Result.{Result, ok}
use acquire.Identity.AclRule.{AclRule, denied, inherit, is_fully_resolved}
use acquire.Identity.Identifiers.{Guid, eq_guid, Identifiers, collect}
use acquire.Identity.AclRules.Defs.{
  AclRuleOperation, Rule, acl_rule, user_rules, group_rules, acl_rules, RuleMap, end, entry,
  AclRules, simple_inherit, rule_list, RuleItems, nil, cons, DefaultRule, no_default, default_rule,
}
use acquire.Identity.AclRules.Resolve.Returns.{is_fully_resolved-resolve}
use acquire.Identity.AclRules.Resolve.{
  no_match, or_no_match, match_groups, finish, or_default, is_set, resolve_value, resolve_at,
  resolve_rules, resolve_items, resolve_default, Upstream, no_upstream, upstream_rule,
  upstream_rules, resolve_upstream, resolve,
}
use acquire.Identity.AclRules.Resolve.Answers.{
  AreAnswerable, AreAnswerableItems, IsAnswerable, IsAnswerableDefault, HasPlainRules, plain,
  Answers, IsResolved, resolve_rule_returns, IsMatch, combine-Answers, match_users-Answers,
}

module _ (ids : Identifiers) (up : Option (Result AclRule)) (resolved : IsResolved up)
    (un : Bool) where
  no_match-Answers : (must : Bool) → Answers (no_match up must un)
  unfolding no_match
  no_match-Answers true =
      let (r, e) = resolve_rule_returns up true un inherit resolved in (some r, rw e)
  no_match-Answers false = (none, refl)

  or_no_match-Answers :
      (must : Bool) (found : Option AclRule)
      → Answers (or_no_match (no_match up must un) (plain found))
  unfolding or_no_match
  or_no_match-Answers must none = no_match-Answers must
  or_no_match-Answers must (some a) = (some a, refl)

  resolve_at-IsMatch :
      (m : RuleMap) (must : Bool)
      → HasPlainRules m
      → (g : Guid) → IsMatch (resolve_at ids up un m must g)
  unfolding resolve_value
  resolve_at-IsMatch end must h g = tt
  resolve_at-IsMatch (entry k (acl_rule a) m) must h g =
      let (r, e) = resolve_rule_returns up must un a resolved in
      elim (Bool-cases (eq_guid k g)) [
        | inl same ↦ rw (same, e) tt
        | inr other ↦ rw other (resolve_at-IsMatch m must h g)
      ]
  resolve_at-IsMatch (entry k (user_rules a) m) must h g = elim h [ ]
  resolve_at-IsMatch (entry k (group_rules a) m) must h g = elim h [ ]
  resolve_at-IsMatch (entry k (acl_rules a) m) must h g = elim h [ ]

  resolve_users-Answers :
      (m : RuleMap) (must : Bool)
      → HasPlainRules m
      → Answers (resolve_value ids up un (user_rules m) must)
  unfolding resolve_value
  resolve_users-Answers m must h =
      let at = resolve_at ids up un m must in
      let (o, e) =
        match_users-Answers at (resolve_at-IsMatch m must h) (collect ids.user_guid) none in
      rw e (or_no_match-Answers must o)

  resolve_groups-Answers :
      (m : RuleMap) (must : Bool)
      → match_groups m (collect ids.group_guid) ≡ ok none
      → Answers (resolve_value ids up un (group_rules m) must)
  unfolding resolve_value
  resolve_groups-Answers m must h = rw h (or_no_match-Answers must none)

  finish_returns : (o : Option AclRule) → (r : AclRule) × (finish up un (plain o) ≡ ok r)
  unfolding finish
  finish_returns none = (denied, refl)
  finish_returns (some a) = elim (Bool-cases (is_fully_resolved a)) [
    | inl e ↦ (a, rw e)
    | inr e ↦ let (r, p) = resolve_rule_returns up true un a resolved in (r, rw e (rw e at p))
  ]

  -- One turn of the loop over the items, from the answers of the item and of the rest.
  resolve_item-Answers :
      (op : Option AclRuleOperation) (dop : AclRuleOperation) (items : RuleItems)
      (last : Option Rule → Result (Option Rule)) (r : Rule)
      → Answers (resolve_value ids up un r false)
      → ((o : Option AclRule) → Answers (resolve_items ids up un items dop last (plain o)))
      → (found : Option AclRule)
      → Answers (resolve_items ids up un (cons op r items) dop last (plain found))
  unfolding resolve_value
  resolve_item-Answers op dop items last r (none, e) rest found = rw (e, resolve_items) (rest found)
  resolve_item-Answers op dop items last r (some a, e) rest found =
      let (o, p) = combine-Answers (or_default op dop) found (some a) in
      elim (Bool-cases (is_set (or_default op dop))) [
        | inl last_one ↦ (some a, rw (e, resolve_items, last_one))
        | inr more ↦ rw (e, resolve_items, more, p) (rest o)
      ]

  mutual
    unfolding resolve_value

    resolve_value-Answers :
        (r : Rule) (must : Bool) → IsAnswerable ids r → Answers (resolve_value ids up un r must)
    resolve_value-Answers (acl_rule a) must h =
        let (r, e) = resolve_rule_returns up must un a resolved in (some r, rw e)
    resolve_value-Answers (user_rules m) must h = resolve_users-Answers m must h
    resolve_value-Answers (group_rules m) must h = resolve_groups-Answers m must h
    resolve_value-Answers (acl_rules rules) must h =
        let (r, e) = resolve_rules_returns rules must h in (some r, rw e)

    resolve_rules_returns :
        (rules : AclRules) (must : Bool)
        → AreAnswerable ids rules
        → (r : AclRule) × (resolve_rules ids up un rules must ≡ ok r)
    resolve_rules_returns (simple_inherit dop) must h =
        resolve_rule_returns up must un inherit resolved
    resolve_rules_returns (rule_list d dop items) must h =
        let (o, e) =
          resolve_items-Answers items dop (resolve_default ids up un d dop)
            (resolve_default-Answers d dop h.0) h.1 none in
        rw e (finish_returns o)

    resolve_items-Answers :
        (items : RuleItems) (dop : AclRuleOperation) (last : Option Rule → Result (Option Rule))
        → ((o : Option AclRule) → Answers (last (plain o)))
        → AreAnswerableItems ids items
        → (found : Option AclRule) → Answers (resolve_items ids up un items dop last (plain found))
    resolve_items-Answers nil dop last h k found = h found
    resolve_items-Answers (cons op r items) dop last h k found =
        resolve_item-Answers op dop items last r (resolve_value-Answers r false k.0)
          (resolve_items-Answers items dop last h k.1) found

    resolve_default-Answers :
        (d : DefaultRule) (dop : AclRuleOperation)
        → IsAnswerableDefault ids d
        → (found : Option AclRule) → Answers (resolve_default ids up un d dop (plain found))
    resolve_default-Answers no_default dop h found = (found, refl)
    resolve_default-Answers (default_rule r) dop h found =
        let (o, e) = resolve_value-Answers r false h in rw e (combine-Answers dop found o)

abbrev pub IsAnswerableUpstream : Identifiers → Upstream → Type 0
IsAnswerableUpstream ids (upstream_rules rules) = AreAnswerable ids rules
IsAnswerableUpstream ids _ = Unit

resolve_upstream-IsResolved :
    (ids : Identifiers) (from : Upstream)
    → IsAnswerableUpstream ids from
    → IsResolved (resolve_upstream ids from)
unfolding resolve_upstream
resolve_upstream-IsResolved ids no_upstream h = tt
resolve_upstream-IsResolved ids (upstream_rule a) h = tt
resolve_upstream-IsResolved ids (upstream_rules rules) h =
    let (r, e) = resolve_rules_returns ids none tt false rules false h in rw e tt

-- With `must_resolve`, such rules are resolved where an upstream list of rules is one of such rules too: the call
-- returns a fully resolved rule, and no exception is raised.
pub resolve_total :
    (rules : AclRules) (ids : Identifiers) (from : Upstream) (unresolved : Bool)
    → AreAnswerable ids rules
    → IsAnswerableUpstream ids from
    → (r : AclRule) × (resolve rules true ids from unresolved ≡ ok r) × (is_fully_resolved r ≡ true)
unfolding resolve
resolve_total rules ids from unresolved h k =
    let (r, e) =
      resolve_rules_returns ids (resolve_upstream ids from) (resolve_upstream-IsResolved ids from k)
        unresolved rules true h in
    (r, e, is_fully_resolved-resolve rules true ids from unresolved (inl refl) e)
