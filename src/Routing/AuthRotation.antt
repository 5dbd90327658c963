-- ===== src/Routing/AuthRotation.antt =====
-- model_routing/auth_rotation.py: a pool of keys with three ways to choose one, where a key that had an
-- error rests for a while. Tags and metadata of a profile are not read by the pool.
pub mod Eligible
pub mod Rounds
use plugin_baselithbot.Heap.{get_elem?}
use plugin_baselithbot.Dict.{Dict, get, put, adjust, retain, values, keys}
use plugin_baselithbot.Lists.{contains}
use plugin_baselithbot.Common.{
  ℕ, suc, ◌-◌, String, Bool, true, false, Option, none, some, List, [], ◌∷◌, ◌++◌, map, ◌==◌, ltb,
  leb, eqb, if◌then◌else◌,
}

pub data AuthRotationPolicy : Type 0 where
  round_robin least_used random : AuthRotationPolicy

pub record AuthProfile : Type 0 where
  pub name : String
  pub api_key : String

pub record ProfileStats : Type 0 where
  pub uses : ℕ
  pub last_used_at : ℕ
  pub last_error_at : Option ℕ

pub record AuthProfilePool : Type 0 where
  pub profiles : Dict AuthProfile
  pub stats : Dict ProfileStats
  pub policy : AuthRotationPolicy
  pub cooldown : ℕ
  pub order : List String

abbrev fresh : ProfileStats
fresh = record { uses = 0; last_used_at = 0; last_error_at = none }

-- { p.name: p for p in profiles }, and the same for the statistics
abbrev pub by_name : Dict AuthProfile → List AuthProfile → Dict AuthProfile
by_name d [] = d
by_name d (p ∷ ps) = by_name (put d p.name p) ps

abbrev pub fresh_stats : Dict ProfileStats → List AuthProfile → Dict ProfileStats
fresh_stats d [] = d
fresh_stats d (p ∷ ps) = fresh_stats (put d p.name fresh) ps

-- `none` is the `ValueError` for a pool without profiles.
unfoldable pub init : List AuthProfile → AuthRotationPolicy → ℕ → Option AuthProfilePool
init [] policy cooldown = none
init (p ∷ ps) policy cooldown = some (record {
  profiles = by_name [] (p ∷ ps);
  stats = fresh_stats [] (p ∷ ps);
  policy = policy;
  cooldown = cooldown;
  order = map (λ q. q.name) (p ∷ ps);
})

-- Whether a profile had no error or one that is longer ago than the cooldown.
abbrev pub rested : ℕ → ℕ → String → ProfileStats → Bool
rested cooldown now name st = elim st.last_error_at [
  | none ↦ true
  | some at ↦ ltb cooldown (now - at)
]

unfoldable pub eligible : AuthProfilePool → ℕ → List String
eligible p now = keys (retain (rested p.cooldown now) p.stats)

-- for st in self._stats.values(): st.last_error_at = None
unfoldable pub forgive_all : Dict ProfileStats → Dict ProfileStats
forgive_all [] = []
forgive_all ((name, st) ∷ d) = (name, record st { last_error_at = none }) ∷ forgive_all d

abbrev pub uses_of : Dict ProfileStats → String → ℕ
uses_of d name = elim (get d name) [ none ↦ 0 | some st ↦ st.uses ]

-- min(names, key=uses): the first of the least
unfoldable pub least : Dict ProfileStats → String → List String → String
least d best [] = best
least d best (n ∷ ns) = if ltb (uses_of d n) (uses_of d best) then least d n ns else least d best ns

-- next((n for n in order if n in names), default)
unfoldable pub first_in : List String → List String → String → String
first_in [] names default = default
first_in (n ∷ ns) names default = if contains n names then n else first_in ns names default

-- The deque after remove(chosen), if it is there.
unfoldable pub remove_one : List String → String → List String
remove_one [] name = []
remove_one (n ∷ ns) name = if n == name then ns else n ∷ remove_one ns name

-- random.choice, for the index that it draws
abbrev pub drawn : List String → ℕ → String → String
drawn names draw default = elim (get_elem? names draw) [ none ↦ default | some n ↦ n ]

unfoldable pub choose : AuthProfilePool → String → List String → ℕ → String
unfolding least first_in
choose p first rest draw = elim p.policy [
  | random ↦ drawn (first ∷ rest) draw first
  | least_used ↦ least p.stats first rest
  | round_robin ↦ first_in p.order (first ∷ rest) first
]

-- The names to choose from, and the pool: if every profile rests, all are forgiven.
unfoldable pub candidates : AuthProfilePool → ℕ → AuthProfilePool × List String
unfolding eligible forgive_all
candidates p now = elim (eligible p now) [
  | [] ↦ (record p { stats = forgive_all p.stats }, keys p.profiles)
  | n ∷ ns ↦ (p, n ∷ ns)
]

abbrev pub counted : ℕ → ProfileStats → ProfileStats
counted now st = record st { uses = suc st.uses; last_used_at = now }

-- The chosen profile goes to the end of the deque under round robin, and is counted.
unfoldable pub used : AuthProfilePool → String → ℕ → AuthProfilePool
unfolding remove_one
used p chosen now = record p {
  order = elim p.policy [
    | random ↦ p.order
    | least_used ↦ p.order
    | round_robin ↦ remove_one p.order chosen ++ chosen ∷ []
  ];
  stats = adjust p.stats chosen (counted now);
}

-- The choice among the names; `none` would be the exception of a pool without profiles.
abbrev pub acquire_from :
    AuthProfilePool × List String → ℕ → ℕ → AuthProfilePool × Option AuthProfile
acquire_from (p, []) draw later = (p, none)
acquire_from (p, n ∷ ns) draw later =
    let chosen = choose p n ns draw in (used p chosen later, get p.profiles chosen)

-- `acquire`: the clock is read once for the cooldowns and once for the use.
unfoldable pub acquire : AuthProfilePool → ℕ → ℕ → ℕ → AuthProfilePool × Option AuthProfile
unfolding candidates choose used
acquire p draw now later = acquire_from (candidates p now) draw later

unfoldable pub report_error : AuthProfilePool → String → ℕ → AuthProfilePool
report_error p name now = record p {
  stats = adjust p.stats name (λ st. record st { last_error_at = some now });
}

-- A row of `status`, without the name.
pub record ProfileStatus : Type 0 where
  pub uses : ℕ
  pub last_used_at : Option ℕ
  pub in_cooldown : Bool

unfoldable pub status : AuthProfilePool → ℕ → List ProfileStatus
status p now =
    map
      (λ st. record {
        uses = st.uses;
        last_used_at = if eqb st.last_used_at 0 then none else some st.last_used_at;
        in_cooldown = elim st.last_error_at [ none ↦ false | some at ↦ leb (now - at) p.cooldown ];
      })
      (values p.stats)
