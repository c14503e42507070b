-- ===== src/Tests/Deletions.antt =====
-- A DeleteObjects request for a key that Alice may delete and for one that she may not.
use s3rp.Common.{
  ℕ, ◌≡◌, ◌+◌, refl, true, false, not, ◌||◌, Option, none, some, List, [], ◌∷◌, map, All, length,
  Text, codes, text_eq, runes,
}
use s3rp.Policy.User
use s3rp.Policy.Glob
use s3rp.Policy.Statement
use s3rp.Policy.Statement.{
  match_principal, match_any_principal, match_condition, match_any_runes, lower_pattern_runes,
  lower_runes, names, match_index_runes, pattern_runes,
}
use s3rp.Policy.Evaluators.{
  deny_evaluator_for, allow_evaluator_for, always_allows, always_denies, allows_runes, denies_runes,
}
use s3rp.Policy.Evaluators.Agree.{is_some}
use s3rp.Store.{qualified}
use s3rp.Gateway.Access
use s3rp.Gateway.Access.{per_object_authorizer, principal, allows_everything}
use s3rp.Gateway.Outcome.{returns}
use s3rp.Gateway.Delete.{
  DeleteEntry, Authorizers, Sorted, delete_object, zero_authorizer, refusal, object_of,
  sort_entries, prepare,
}
use s3rp.Gateway.Delete.Permitted.{may_delete, prepare-may_delete, sort_entries-may_delete}
use s3rp.Gateway.Delete.Sorting.{filter, named, sent, total, sort_entries-total}
use s3rp.Tests.Data.{std, logs, alice, acme_alice, logs_policy, logs-HasValidPolicy}

abbrev entry : Text → DeleteEntry
entry key = record { key = key; version_id = []; etag = []; last_modified_time = []; size = none }

abbrev entries : List DeleteEntry
entries = entry (codes "1") ∷ entry (codes "secret") ∷ []

abbrev no_times : Text → Option ℕ
no_times t = none

abbrev prepared : Authorizers
prepared = record {
  del = record {
    deny_all = false;
    eval = record { deny_resources = codes "logs/secret*" ∷ []; deny_statements = 1 ∷ [] };
    require_allow = true;
    allow = record { allow_resources = codes "logs/*" ∷ [] };
    principal = acme_alice;
    action = delete_object;
    policy = some logs_policy;
    user_decision = User.everything_allowed;
  };
  ver = zero_authorizer;
  bypass_auth = zero_authorizer;
  bypass = false;
  check_per_object = true;
}

abbrev sorted : Sorted
sorted = record {
  objects =
      record { key = codes "1"; version_id = []; etag = []; last_modified_time = none; size = none }
      ∷ [];
  errors = entry (codes "secret") ∷ [];
}

prepares : prepare std alice logs false entries ≡ some prepared
unfolding prepare per_object_authorizer User.decide deny_evaluator_for allow_evaluator_for
    Statement.compile always_allows always_denies match_principal match_any_principal principal
    qualified match_condition match_any_runes lower_pattern_runes Glob.match_runes runes lower_runes
    names text_eq pattern_runes allows_everything
prepares = refl

sorts : (sort_entries no_times logs prepared [] entries).1 ≡ returns sorted
unfolding sort_entries Access.denies allows_runes denies_runes match_any_runes Glob.match_runes
    runes
sorts = refl

prepare-may_delete_example :
    (a : Authorizers) × (prepare std alice logs false entries ≡ some a)
    × All (λ o. is_some (refusal logs a o) ≡ not (may_delete std alice logs false o)) entries
prepare-may_delete_example = prepare-may_delete std alice logs false entries logs-HasValidPolicy

sort_entries-may_delete_example :
    (map sent sorted.objects ≡ map named (filter (may_delete std alice logs false) entries))
    × (sorted.errors ≡ filter (λ o. not (may_delete std alice logs false o)) entries)
sort_entries-may_delete_example =
    sort_entries-may_delete std alice logs no_times false [] entries prepared sorted
      logs-HasValidPolicy prepares sorts

readable :
    All (λ o. (is_some (refusal logs prepared o) || is_some (object_of no_times o)) ≡ true) entries
unfolding refusal object_of Access.denies allows_runes denies_runes match_any_runes Glob.match_runes
    runes
readable = (refl, (refl, tt))

sort_entries-total_example :
    (s : Sorted) × ((sort_entries no_times logs prepared [] entries).1 ≡ returns s)
    × (total (sort_entries no_times logs prepared [] entries).0 ≡ total [] + length s.errors)
sort_entries-total_example = sort_entries-total no_times logs prepared [] entries readable
