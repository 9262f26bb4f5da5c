-- ===== src/Operations/Policies.antt =====
-- `applyAlertPolicies` of operations.service.ts: which alerts the rules and the maintenance windows
-- let through. `rules` are the enabled rules and `windows` the sites of the windows that are active
-- now (no site is all sites), as the two queries give them.
pub mod Kept
use management_app.Base.{
  ℕ, String, Bool, true, false, not, ◌&&◌, ◌||◌, Option, none, some, List, [], ◌∷◌, ◌==◌, filter,
  any, is_empty, leb, if◌then◌else◌,
}
use management_app.Base.Sort.{sort}
use management_app.Operations.Alerts.{Severity, critical, high, warning, info, Alert}

pub record AlertRule : Type 0 where
  pub source : String
  pub site_id : Option String
  pub min_severity : Severity

abbrev pub rank : Severity → ℕ
rank critical = 0
rank high = 1
rank warning = 2
rank info = 3

abbrev pub is_critical : Severity → Bool
is_critical critical = true
is_critical _ = false

-- `===` on ids that may be `null`.
abbrev pub same_site : Option String → Option String → Bool
same_site none none = true
same_site none (some _) = false
same_site (some _) none = false
same_site (some a) (some b) = a == b

abbrev pub is_global : Option String → Bool
is_global none = true
is_global (some _) = false

abbrev pub in_quiet_window : List (Option String) → Alert → Bool
in_quiet_window windows a = any (λ w. is_global w || same_site w a.site_id) windows

abbrev pub is_applicable : Alert → AlertRule → Bool
is_applicable a r = r.source == a.source && (is_global r.site_id || same_site r.site_id a.site_id)

-- The comparator answers no more than 0: a rule on the alert's own site comes first, then the one
-- with the lower threshold.
abbrev pub comes_first : Alert → AlertRule → AlertRule → Bool
comes_first a left right =
    let l = same_site left.site_id a.site_id in
    let r = same_site right.site_id a.site_id in
    if l && not r
    then true
    else if r && not l
    then false
    else leb (rank right.min_severity) (rank left.min_severity)

-- `!rule || rank[item.severity] <= rank[rule.minSeverity]`, for the first of the sorted rules.
abbrev pub first_admits : Alert → List AlertRule → Bool
first_admits a [] = true
first_admits a (r ∷ _) = leb (rank a.severity) (rank r.min_severity)

unfoldable pub is_kept : List AlertRule → List (Option String) → Alert → Bool
unfolding sort
is_kept rules windows a =
    if is_critical a.severity
    then true
    else if in_quiet_window windows a
    then false
    else first_admits a (sort (comes_first a) (filter (is_applicable a) rules))

unfoldable pub apply_alert_policies :
    List AlertRule → List (Option String) → List Alert → List Alert
apply_alert_policies rules windows = filter (is_kept rules windows)
