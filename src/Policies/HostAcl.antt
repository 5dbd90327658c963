-- ===== src/Policies/HostAcl.antt =====
-- policies/host_acl.py: ordered allow and deny rules over host actions.
use plugin_baselithbot.Common.{
  String, ◌≡◌, Bool, true, false, Option, none, some, List, [], ◌∷◌, ◌++◌, arith, ◌==◌,
  if◌then◌else◌,
}
use plugin_baselithbot.Lists.{All}

pub data Effect : Type 0 where
  allow deny : Effect

-- `pattern` is the source text of a regular expression.
pub record HostAclRule : Type 0 where
  pub name : String
  pub action : String
  pub pattern_text : Option String
  pub effect : Effect

pub record HostAcl : Type 0 where
  pub rules : List HostAclRule
  pub default : Effect

abbrev pub is_allow : Effect → Bool
is_allow allow = true
is_allow deny = false

-- The default is a text, which the constructor checks; `none` is its `ValueError`.
unfoldable pub new_acl : List HostAclRule → String → Option HostAcl
new_acl rules default =
    if default == "allow"
    then some (record { rules = rules; default = allow })
    else if default == "deny"
    then some (record { rules = rules; default = deny })
    else none

unfoldable pub add : HostAcl → HostAclRule → HostAcl
add acl rule = record acl { rules = acl.rules ++ rule ∷ [] }

-- `search` stands for `re.search`, a pattern on the text of the call's arguments, `repr(args or {})`.
module _ (search_in : String → String → Bool) where
  unfoldable pub applies : HostAclRule → String → String → Bool
  applies rule action blob =
      if rule.action == action
      then elim rule.pattern_text [ none ↦ true | some pattern ↦ search_in pattern blob ]
      else false

  -- The loop of `decide`: the first rule that applies decides.
  unfoldable pub decide_from : List HostAclRule → Effect → String → String → Bool
  unfolding applies
  decide_from [] default action blob = is_allow default
  decide_from (rule ∷ rules) default action blob =
      if applies rule action blob
      then is_allow rule.effect
      else decide_from rules default action blob

  unfoldable pub decide : HostAcl → String → String → Bool
  unfolding decide_from
  decide acl action blob = decide_from acl.rules acl.default action blob

  -- No rule of the list applies to the call.
  abbrev pub NoneApplies : List HostAclRule → String → String → Type 0
  NoneApplies rules action blob = All (λ r. applies r action blob ≡ false) rules

  -- Rules behind the first rule that applies do not matter: the decision is that rule's.
  decide-first :
      (before after : List HostAclRule) (rule : HostAclRule) (default : Effect)
      (action blob : String)
      → NoneApplies before action blob
      → applies rule action blob ≡ true
      → decide (record { rules = before ++ rule ∷ after; default = default }) action blob
        ≡ is_allow rule.effect
  unfolding decide
  decide-first [] after rule default action blob n a = rw a
  decide-first (r ∷ before) after rule default action blob n a =
      rw n.0 (decide-first before after rule default action blob n.1 a)

  decide_from-add :
      (rules : List HostAclRule) (rule : HostAclRule) (default : Effect) (action blob : String)
      → decide_from (rules ++ rule ∷ []) default action blob
        ≡ decide_from rules (if applies rule action blob then rule.effect else default) action blob
  unfolding decide_from
  decide_from-add [] rule default action blob = ground arith
  decide_from-add (r ∷ rules) rule default action blob =
      ground (arith, decide_from-add rules rule default action blob)

  -- A rule that is added decides only calls that it applies to and no earlier rule does: it acts as
  -- the default for them.
  pub decide-add :
      (acl : HostAcl) (rule : HostAclRule) (action blob : String)
      → decide (add acl rule) action blob
        ≡ decide
            (record acl { default = if applies rule action blob then rule.effect else acl.default })
            action
            blob
  unfolding decide add
  decide-add acl rule action blob = decide_from-add acl.rules rule acl.default action blob
